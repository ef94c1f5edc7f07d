-- ===== src/Transfer/Frame.antt =====
-- What the operations on the queue leave alone.
use host_ftp.Base.{
  ℕ, ◌+◌, ◌-◌, ◌≤◌, ◌⊎◌, ◌++◌, length, ◌≡◌, refl, Bytes, Bool, true, false, List, some, arith,
  Option-cases, inl, inr, Each, Each-refl, replace_first-Each, map_accum-Each, map_accum-state,
  replace_first, map_accum,
}
use host_ftp.Transfer.Model.{Manager, Job, Body, max_transfer_jobs, emit}
use host_ftp.Transfer.Requests.{Result, Fault, ok, err}
use host_ftp.Transfer.Scheduler.{update_first, pump, pump_rounds}
use host_ftp.Transfer.Queue.{
  Reservation, release_reserved, commit_locked, reserve_batch, retry_locked, cancel_batch,
  count_wanted, check_retry, signal_job, cancel_one, retry_one, disable_one, over_jobs, publish,
}

pub Result-cases {ℓ} :
    {A : Type ℓ} (r : Result A) → ((a : A) × (r ≡ ok a)) ⊎ ((f : Fault) × (r ≡ err f))
Result-cases (ok a) = inl (a, refl)
Result-cases (err f) = inr (f, refl)

-- `n` differs from `m` at most in its jobs, events, numbering and signalled contexts.
pub record Quiet (m n : Manager) : Type 0 where
  pub same_paused : n.paused ≡ m.paused
  pub same_accepting : n.accepting ≡ m.accepting
  pub same_closed : n.closed ≡ m.closed
  pub same_running : n.running ≡ m.running
  pub same_workers : n.workers ≡ m.workers
  pub same_idle : n.workers_idle ≡ m.workers_idle
  pub same_reserved : n.reserved ≡ m.reserved
  pub same_generation : n.generation ≡ m.generation
  pub same_cancels : n.cancels ≡ m.cancels
  pub same_connections : n.job_connections ≡ m.job_connections
  pub same_context : n.next_context ≡ m.next_context
  pub same_spawned : n.spawned ≡ m.spawned

pub Quiet-refl : (m : Manager) → Quiet m m
Quiet-refl m = ground arith

pub Quiet-trans : (m n k : Manager) → Quiet m n → Quiet n k → Quiet m k
Quiet-trans m n k p q = ground arith

pub emit-Quiet : (b : Body) (m : Manager) → Quiet m (emit b m)
unfolding emit
emit-Quiet b m = ground arith

pub emit-jobs : (b : Body) (m : Manager) → (emit b m).jobs ≡ m.jobs
unfolding emit
emit-jobs b m = refl

signal_job-Quiet : (id : Bytes) (m : Manager) → Quiet m (signal_job id m)
unfolding signal_job
signal_job-Quiet id m = ground arith

pub cancel_one-Quiet :
    (wanted : List Bytes) (m : Manager) (j : Job) → Quiet m (cancel_one wanted m j).0
unfolding cancel_one
cancel_one-Quiet wanted m j = ground (arith, signal_job-Quiet j.id m)

pub retry_one-Quiet :
    (wanted : List Bytes) (m : Manager) (j : Job) → Quiet m (retry_one wanted m j).0
unfolding retry_one
retry_one-Quiet wanted m j = ground arith

pub disable_one-Quiet : (why : Bytes) (m : Manager) (j : Job) → Quiet m (disable_one why m j).0
unfolding disable_one
disable_one-Quiet why m j = ground (arith, signal_job-Quiet j.id m)

pub over_jobs-Quiet :
    (f : Manager → Job → Manager × Job)
    → ((m : Manager) (j : Job) → Quiet m (f m j).0)
    → (m : Manager) → Quiet m (over_jobs f m)
unfolding over_jobs
over_jobs-Quiet f h m =
    let q : Quiet m (map_accum f m m.jobs).0 =
      map_accum-state (Quiet m) f (λ n j v. Quiet-trans m n (f n j).0 v (h n j)) m m.jobs
        (Quiet-refl m) in
    ground arith

pub update_first-Quiet :
    (p : Job → Bool) (f : Job → Job) (m : Manager) → Quiet m (update_first p f m)
unfolding update_first
update_first-Quiet p f m = ground arith

-- The jobs after a loop, entry by entry.
pub over_jobs-Each {κ} :
    {R : Job → Job → Type κ} (f : Manager → Job → Manager × Job)
    → ((m : Manager) (j : Job) → R j (f m j).1)
    → (m : Manager) → Each R m.jobs (over_jobs f m).jobs
unfolding over_jobs
over_jobs-Each f h m = map_accum-Each f h m m.jobs

pub update_first-Each {κ} :
    {R : Job → Job → Type κ} (p : Job → Bool) (f : Job → Job) (m : Manager)
    → ((j : Job) → R j j)
    → ((j : Job) → p j ≡ true → R j (f j))
    → Each R m.jobs (update_first p f m).jobs
unfolding update_first
update_first-Each p f m r h = elim (Option-cases (replace_first p f m.jobs)) [
  | inl e ↦ rw (e, update_first) (Each-refl r m.jobs)
  | inr ((j, js), e) ↦ rw (e, update_first) (replace_first-Each p f m.jobs r h e)
]

-- The state that Commit goes on with once its checks pass.
abbrev pub published : Reservation → Manager → Manager
published b m =
    publish b.connection_id b.jobs
      (record (release_reserved b m) { jobs = (release_reserved b m).jobs ++ b.jobs })

-- What holds of the manager after Commit, from what holds on each branch.
pub commit_cases {κ} :
    (P : Manager → Type κ) (b : Reservation) (m : Manager)
    → (b.done ≡ true → P m)
    → P (release_reserved b m)
    → (b.generation ≡ m.generation → m.accepting ≡ true → P (published b m))
    → P (commit_locked b m).1
unfolding commit_locked release_reserved
commit_cases P b m same released done = ground arith

pub retry_inv :
    (before : Manager) (c : Bytes) (wanted : List Bytes) (m n : Manager)
    → retry_locked before (some c) wanted m ≡ ok n
    → (n ≡ over_jobs (retry_one wanted) m)
      × (m.generation ≡ before.generation)
      × (m.accepting ≡ true)
      × ((k : ℕ) × (count_wanted (check_retry c m) wanted m.jobs ≡ ok k))
unfolding retry_locked
retry_inv before c wanted m n h =
    elim (Result-cases (count_wanted (check_retry c m) wanted m.jobs)) [
      | inl (k, e) ↦ (ground (arith, e), ground (arith, e), ground (arith, e), (k, e))
      | inr (x, e) ↦ absurd (ground (arith, e))
    ]

pub cancel_inv :
    (wanted : List Bytes) (m n : Manager)
    → cancel_batch wanted m ≡ ok n
    → n ≡ over_jobs (cancel_one wanted) m
unfolding cancel_batch
cancel_inv wanted m n h = ground arith

pub reserve_inv :
    (before : Manager) (c : Bytes) (jobs : List Job) (m n : Manager) (r : Reservation)
    → reserve_batch before (some c) jobs m ≡ ok (n, r)
    → (n ≡ record m { reserved = m.reserved + length jobs })
      × (r
          ≡ record { jobs = jobs; generation = before.generation; connection_id = c; done = false })
      × (m.generation ≡ before.generation)
      × (m.accepting ≡ true)
      × (length m.jobs + m.reserved + length jobs ≤ max_transfer_jobs)
unfolding reserve_batch
reserve_inv before c jobs m n r h = ground arith

pub pump_cases {κ} :
    (P : Manager → Type κ) (limit : ℕ) (m : Manager)
    → P m
    → (m.accepting ≡ true
        → m.closed ≡ false
        → m.paused ≡ false
        → P (pump_rounds (limit - m.running) m))
    → P (pump limit m)
unfolding pump
pump_cases P limit m same rounds = ground arith
