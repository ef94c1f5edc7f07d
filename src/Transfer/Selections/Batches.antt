-- ===== src/Transfer/Selections/Batches.antt =====
-- CancelBatch and RetryBatch on a selection: internal/transfer/manager.go.
use host_ftp.Base.{
  ℕ, ◌≡◌, Bytes, true, false, not, List, none, some, inl, inr, arith, All, All-map, length,
  text_mem, text_eq_refl, eq_of_text_eq, if◌then◌else◌, Each,
}
use host_ftp.Transfer.Model.{
  Manager, Job, Status, Percent, Rate, Eta, no_error, reset_transfer_metrics, is_active, is_queued,
  cancelled_text,
}
use host_ftp.Transfer.Requests.{Result, ok, refuse, no_longer_active, selected_ids}
use host_ftp.Transfer.Frame.{Result-cases, over_jobs-Each}
use host_ftp.Transfer.Queue.{
  count_wanted, cancel_batch, cancel_one, check_retry, retry_locked, retry_one, retried_job,
  over_jobs, is_retriable, connection_of,
}
use host_ftp.Transfer.Binding.{Distinct}
use host_ftp.Transfer.Selections.{selected_ids-Once, Names, accepted-Names, Names-accepted}

-- What CancelBatch does to one job: a wanted job that is queued becomes cancelled.
abbrev pub Cancels : List Bytes → Job → Job → Type 0
Cancels wanted j k = k ≡ (
    if text_mem j.id wanted
    then if is_queued j then record j { status = Status.cancelled; error = cancelled_text } else j
    else j)

cancel_one-Cancels :
    (wanted : List Bytes) (m : Manager) (j : Job) → Cancels wanted j (cancel_one wanted m j).1
unfolding cancel_one
cancel_one-Cancels wanted m j = ground arith

abbrev active_check : Job → Result (Unit {0})
active_check j = refuse (not (is_active j)) no_longer_active

cancel_runs :
    (wanted : List Bytes) (m : Manager)
    → count_wanted active_check wanted m.jobs ≡ ok (length wanted)
    → cancel_batch wanted m ≡ ok (over_jobs (cancel_one wanted) m)
unfolding cancel_batch
cancel_runs wanted m h = ground (arith, h)

cancel_checked :
    (wanted : List Bytes) (m n : Manager)
    → cancel_batch wanted m ≡ ok n
    → (k : ℕ) × (count_wanted active_check wanted m.jobs ≡ ok k)
      × (k ≡ length wanted)
      × (n ≡ over_jobs (cancel_one wanted) m)
unfolding cancel_batch
cancel_checked wanted m n h = elim (Result-cases (count_wanted active_check wanted m.jobs)) [
  | inl (k, e) ↦ (k, e, ground (arith, h, e), ground (arith, h, e))
  | inr (x, e) ↦ absurd (ground (arith, h, e))
]

-- CancelBatch succeeds exactly if each selected id names a queued or running job; then it cancels
-- the queued ones among them and leaves every other job as it is.
pub cancel_batch_lem :
    (ids wanted : List Bytes) (m : Manager)
    → selected_ids ids ≡ ok wanted
    → Distinct m.jobs
    → (All (Names (λ j. is_active j ≡ true) m.jobs) wanted
        → (n : Manager) × (cancel_batch wanted m ≡ ok n))
      × ((n : Manager)
          → cancel_batch wanted m ≡ ok n
          → All (Names (λ j. is_active j ≡ true) m.jobs) wanted
            × Each (Cancels wanted) m.jobs n.jobs)
cancel_batch_lem ids wanted m chosen distinct = (
  λ h.
      let once = selected_ids-Once ids wanted chosen in
      let named = All-map (λ w (j, i, e, a). (j, i, e, ground (arith, a))) wanted h in
      (
        over_jobs (cancel_one wanted) m,
        cancel_runs wanted m (Names-accepted active_check wanted m.jobs once distinct named),
      ),
  λ n h.
      let once = selected_ids-Once ids wanted chosen in
      let (k, e, l, q) = cancel_checked wanted m n h in
      (
        All-map (λ w (j, i, f, a). (j, i, f, ground (arith, a))) wanted
            (accepted-Names active_check wanted m.jobs once distinct k e l),
        rw q (over_jobs-Each (cancel_one wanted) (cancel_one-Cancels wanted) m),
      ),
)

-- What RetryBatch does to one job: a wanted job is queued, with no error, no attempt and no progress.
abbrev pub Retries : List Bytes → Job → Job → Type 0
Retries wanted j k = k ≡ (
    if text_mem j.id wanted
    then record j {
      status = Status.queued;
      progress = Percent.zero_percent;
      bytes_transferred = 0;
      bytes_total = 0;
      bytes_per_second = Rate.no_rate;
      eta_seconds = Eta.no_eta;
      started_at = none;
      attempts = 0;
      error = no_error;
    }
    else j)

retry_one-Retries :
    (wanted : List Bytes) (m : Manager) (j : Job) → Retries wanted j (retry_one wanted m j).1
unfolding retry_one retried_job reset_transfer_metrics
retry_one-Retries wanted m j = ground arith

-- The job may be retried over a connection: it failed or was cancelled, and was queued for it.
abbrev pub IsRetriable : Bytes → Manager → Job → Type 0
IsRetriable c m j = (is_retriable j ≡ true) × (connection_of j.id m.job_connections ≡ c)

retriable_check :
    (c : Bytes) (m : Manager) (j : Job) → IsRetriable c m j → check_retry c m j ≡ ok tt
unfolding check_retry
retriable_check c m j h = ground (arith, h.0, h.1, text_eq_refl c)

check-IsRetriable :
    (c : Bytes) (m : Manager) (j : Job) → check_retry c m j ≡ ok tt → IsRetriable c m j
unfolding check_retry
check-IsRetriable c m j h =
    (ground (arith, h), eq_of_text_eq (connection_of j.id m.job_connections) c (ground (arith, h)))

-- The manager takes work in the generation of `before`.
pub record IsOpenSince (before m : Manager) : Type 0 where
  pub was_open : before.closed ≡ false
  pub was_accepting : before.accepting ≡ true
  pub unchanged : m.generation ≡ before.generation
  pub still_open : m.closed ≡ false
  pub still_accepting : m.accepting ≡ true

retry_runs :
    (before : Manager) (c : Bytes) (wanted : List Bytes) (m : Manager)
    → IsOpenSince before m
    → count_wanted (check_retry c m) wanted m.jobs ≡ ok (length wanted)
    → retry_locked before (some c) wanted m ≡ ok (over_jobs (retry_one wanted) m)
unfolding retry_locked
retry_runs before c wanted m v h = ground (arith, h)

retry_checked :
    (before : Manager) (c : Bytes) (wanted : List Bytes) (m n : Manager)
    → retry_locked before (some c) wanted m ≡ ok n
    → IsOpenSince before m
      × ((k : ℕ) × (count_wanted (check_retry c m) wanted m.jobs ≡ ok k) × (k ≡ length wanted))
      × (n ≡ over_jobs (retry_one wanted) m)
unfolding retry_locked
retry_checked before c wanted m n h =
    elim (Result-cases (count_wanted (check_retry c m) wanted m.jobs)) [
      | inl (k, e) ↦ (ground (arith, h, e), (k, e, ground (arith, h, e)), ground (arith, h, e))
      | inr (x, e) ↦ absurd (ground (arith, h, e))
    ]

-- RetryBatch succeeds exactly if the queue is open, the connection is the one that was asked for,
-- and each selected id names a failed or cancelled job that was queued for this connection; then it
-- queues these jobs again and leaves every other job as it is.
pub retry_locked_lem :
    (before : Manager) (c : Bytes) (ids wanted : List Bytes) (m : Manager)
    → selected_ids ids ≡ ok wanted
    → Distinct m.jobs
    → (IsOpenSince before m
        → All (Names (IsRetriable c m) m.jobs) wanted
        → (n : Manager) × (retry_locked before (some c) wanted m ≡ ok n))
      × ((n : Manager)
          → retry_locked before (some c) wanted m ≡ ok n
          → IsOpenSince before m
            × All (Names (IsRetriable c m) m.jobs) wanted
            × Each (Retries wanted) m.jobs n.jobs)
retry_locked_lem before c ids wanted m chosen distinct = (
  λ v h.
      let once = selected_ids-Once ids wanted chosen in
      let named = All-map (λ w (j, i, e, a). (j, i, e, retriable_check c m j a)) wanted h in
      (
        over_jobs (retry_one wanted) m,
        retry_runs before c wanted m v
            (Names-accepted (check_retry c m) wanted m.jobs once distinct named),
      ),
  λ n h.
      let once = selected_ids-Once ids wanted chosen in
      let (v, (k, e, l), q) = retry_checked before c wanted m n h in
      (
        v,
        All-map (λ w (j, i, f, a). (j, i, f, check-IsRetriable c m j a)) wanted
            (accepted-Names (check_retry c m) wanted m.jobs once distinct k e l),
        rw q (over_jobs-Each (retry_one wanted) (retry_one-Retries wanted) m),
      ),
)
