-- ===== src/Transfer/Queue.antt =====
-- internal/transfer/manager.go: the operations on the queue. A function that locks twice takes the
-- state that it finds at each lock.
use host_ftp.Base.{
  ℕ, ◌+◌, ◌-◌, Bytes, codes, Bool, true, false, ◌&&◌, ◌||◌, not, List, [], ◌∷◌, ◌++◌, Option, none,
  some, ltb, ◌==◌, if◌then◌else◌, length, keep, count, map_accum, text_eq, text_mem, is_blank,
  trim_space, lookup, delete, put,
}
use host_ftp.Transfer.Model.{
  Manager, Job, Status, Event, job_event, state_event, emit, emit_state, is_active, is_terminal,
  is_queued, next_generation, reset_transfer_metrics, max_transfer_jobs, no_error, cancelled_text,
  closing_text, reason,
}
use host_ftp.Transfer.Requests.{
  Result, ok, err, ◌>>=◌, ◌>>◌, refuse, manager_closed, not_accepting, connection_changed,
  queue_full, reservation_inactive, connection_lost, not_connected, no_longer_active, not_found,
  cannot_retry, retry_not_accepting, other_connection,
}
use host_ftp.Transfer.Scheduler.{pump}

-- BatchReservation, without the pointer to its manager.
pub record Reservation : Type 0 where
  pub jobs : List Job
  pub generation : ℕ
  pub connection_id : Bytes
  pub done : Bool

abbrev or_not_connected : Option Bytes → Result Bytes
or_not_connected none = err not_connected
or_not_connected (some s) = ok s

-- ReserveBatch. `before` is the state at the first lock, `m` at the second, and `identity` what
-- `remote.ConnectionIdentity` answers between them.
unfoldable pub reserve_batch :
    Manager → Option Bytes → List Job → Manager → Result (Manager × Reservation)
reserve_batch before identity jobs m = do
  refuse before.closed manager_closed
  refuse (not before.accepting) not_accepting
  connection ← or_not_connected identity
  refuse (not (m.generation == before.generation)) connection_changed
  refuse m.closed manager_closed
  refuse (not m.accepting) not_accepting
  refuse (ltb max_transfer_jobs (length m.jobs + m.reserved + length jobs)) queue_full
  ok (
    record m { reserved = m.reserved + length jobs },
    record {
      jobs = jobs;
      generation = before.generation;
      connection_id = connection;
      done = false;
    },
  )

-- `m.reserved -= len(b.jobs)`, not below 0.
unfoldable pub release_reserved : Reservation → Manager → Manager
release_reserved b m = record m { reserved = m.reserved - length b.jobs }

unfoldable pub cancel_reservation : Reservation → Manager → Reservation × Manager
unfolding release_reserved
cancel_reservation b m = if b.done then (b, m) else (record b { done = true }, release_reserved b m)

-- The loop of Commit that binds each job to its connection and reports it.
unfoldable pub publish : Bytes → List Job → Manager → Manager
unfolding emit
publish connection [] m = m
publish connection (j ∷ js) m =
    publish connection js
      (emit (job_event j) (record m { job_connections = put j.id connection m.job_connections }))

-- Commit up to its unlock: the reservation and the manager are changed also where it fails.
unfoldable pub commit_locked : Reservation → Manager → Reservation × Manager × Result (List Job)
unfolding release_reserved publish
commit_locked b m =
    let m' = release_reserved b m in
    let b' = record b { done = true } in
    if b.done
    then (b, m, err reservation_inactive)
    else if not (b.generation == m'.generation)
    then (b', m', err connection_changed)
    else if m'.closed
    then (b', m', err manager_closed)
    else if not m'.accepting
    then (b', m', err connection_lost)
    else (b', publish b.connection_id b.jobs (record m' { jobs = m'.jobs ++ b.jobs }), ok b.jobs)

abbrev pump_if_ok {ℓ} : {A : Type ℓ} → Result A → ℕ → Manager → Manager
pump_if_ok (ok a) limit m = pump limit m
pump_if_ok (err e) limit m = m

unfoldable pub commit : ℕ → Reservation → Manager → Reservation × Manager × Result (List Job)
unfolding commit_locked
commit limit b m = let (b', m', r) = commit_locked b m in (b', pump_if_ok r limit m', r)

-- Events: the events after `since`, or one snapshot where the ring has lost some of them.
unfoldable pub after_seq : ℕ → List Event → List Event
after_seq since [] = []
after_seq since (e ∷ es) = if ltb since e.seq then e ∷ after_seq since es else after_seq since es

unfoldable pub has_gap : ℕ → List Event → Bool
has_gap since [] = false
has_gap since (e ∷ es) = ltb 0 since && ltb since (e.seq - 1)

unfoldable pub events_since : ℕ → Manager → List Event × ℕ
unfolding after_seq has_gap
events_since since m = (
  if has_gap since m.events
      then record { seq = m.seq; body = state_event m.jobs m.paused } ∷ []
      else after_seq since m.events,
  m.seq,
)

unfoldable pub pause : Manager → Manager
unfolding emit_state
pause m = if m.closed || m.paused then m else emit_state (record m { paused = true })

-- Resume up to its unlock, and as a whole.
unfoldable pub resume_locked : Manager → Manager
unfolding emit_state
resume_locked m =
    if m.closed || not m.accepting || not m.paused
    then m
    else emit_state (record m { paused = false })

unfoldable pub resume : ℕ → Manager → Manager
unfolding resume_locked
resume limit m =
    if m.closed || not m.accepting || not m.paused then m else pump limit (resume_locked m)

-- The loop that checks the wanted jobs and collects their indices; here it counts them.
unfoldable pub count_wanted : (Job → Result (Unit {0})) → List Bytes → List Job → Result ℕ
count_wanted check wanted [] = ok 0
count_wanted check wanted (j ∷ js) =
    let rest = count_wanted check wanted js in
    if text_mem j.id wanted then (do check j; n ← rest; ok (n + 1)) else rest

unfoldable pub signal : ℕ → Manager → Manager
signal c m = record m { signalled = c ∷ m.signalled }

-- `if c := m.cancels[id]; c != nil { c() }`.
unfoldable pub signal_job : Bytes → Manager → Manager
unfolding signal
signal_job id m = elim (lookup id m.cancels) [ none ↦ m | some c ↦ signal c m ]

unfoldable pub cancel_one : List Bytes → Manager → Job → Manager × Job
unfolding emit signal_job
cancel_one wanted m j =
    let c = record j { status = Status.cancelled; error = cancelled_text } in
    if text_mem j.id wanted
    then if is_queued j then (emit (job_event c) m, c) else (signal_job j.id m, j)
    else (m, j)

-- A loop over all jobs with the manager's state.
unfoldable pub over_jobs : (Manager → Job → Manager × Job) → Manager → Manager
unfolding map_accum
over_jobs f m = let (m', js) = map_accum f m m.jobs in record m' { jobs = js }

-- CancelBatch behind selectedIDs.
unfoldable pub cancel_batch : List Bytes → Manager → Result Manager
unfolding count_wanted over_jobs cancel_one
cancel_batch wanted m = do
  n ← count_wanted (λ j. refuse (not (is_active j)) no_longer_active) wanted m.jobs
  refuse (not (n == length wanted)) not_found
  ok (over_jobs (cancel_one wanted) m)

unfoldable pub active_count : Manager → ℕ
active_count m = count is_active m.jobs

-- "failed" and "cancelled".
unfoldable pub is_retriable : Job → Bool
is_retriable j = elim j.status [ Status.failed ↦ true | Status.cancelled ↦ true | _ ↦ false ]

-- `m.jobConnections[id]`: "" where there is no entry.
unfoldable pub connection_of : Bytes → List (Bytes × Bytes) → Bytes
connection_of id conns = elim (lookup id conns) [ none ↦ [] | some c ↦ c ]

unfoldable pub check_retry : Bytes → Manager → Job → Result (Unit {0})
unfolding connection_of
check_retry connection m j = do
  refuse (not (is_retriable j)) cannot_retry
  refuse (not (text_eq (connection_of j.id m.job_connections) connection)) other_connection

unfoldable pub retried_job : Job → Job
unfolding reset_transfer_metrics
retried_job j =
    record (reset_transfer_metrics (record j { status = Status.queued; error = no_error })) {
      attempts = 0;
    }

unfoldable pub retry_one : List Bytes → Manager → Job → Manager × Job
unfolding emit retried_job
retry_one wanted m j =
    if text_mem j.id wanted then (emit (job_event (retried_job j)) m, retried_job j) else (m, j)

-- RetryBatch behind selectedIDs and up to its last unlock, with the two states as in ReserveBatch.
unfoldable pub retry_locked : Manager → Option Bytes → List Bytes → Manager → Result Manager
unfolding count_wanted check_retry over_jobs retry_one
retry_locked before identity wanted m = do
  refuse before.closed manager_closed
  refuse (not before.accepting) retry_not_accepting
  connection ← or_not_connected identity
  refuse (not (m.generation == before.generation)) connection_changed
  refuse m.closed manager_closed
  refuse (not m.accepting) retry_not_accepting
  n ← count_wanted (check_retry connection m) wanted m.jobs
  refuse (not (n == length wanted)) not_found
  ok (over_jobs (retry_one wanted) m)

unfoldable pub retry_batch : ℕ → Manager → Option Bytes → List Bytes → Manager → Result Manager
unfolding retry_locked
retry_batch limit before identity wanted m = do
  m' ← retry_locked before identity wanted m
  ok (pump limit m')

unfoldable pub delete_all : List Job → List (Bytes × Bytes) → List (Bytes × Bytes)
delete_all [] conns = conns
delete_all (j ∷ js) conns = delete_all js (if is_terminal j then delete j.id conns else conns)

unfoldable pub clear_finished : Manager → Manager
unfolding delete_all emit_state
clear_finished m = emit_state (record m {
  job_connections = delete_all m.jobs m.job_connections;
  events = [];
  jobs = keep (λ j. not (is_terminal j)) m.jobs;
})

-- Enable up to its unlock, and as a whole.
unfoldable pub enable_locked : Manager → Manager
unfolding emit_state next_generation
enable_locked m =
    if m.closed
    then m
    else emit_state
        (record m { generation = next_generation m.generation; accepting = true; paused = false })

unfoldable pub enable : ℕ → Manager → Manager
unfolding enable_locked
enable limit m = if m.closed then m else pump limit (enable_locked m)

unfoldable pub disable_one : Bytes → Manager → Job → Manager × Job
unfolding emit signal_job
disable_one why m j =
    let c = record j { status = Status.cancelled; error = reason why } in
    elim j.status [
      | Status.queued ↦ (emit (job_event c) m, c)
      | Status.running ↦ (signal_job j.id m, j)
      | _ ↦ (m, j)
    ]

-- DisableAndCancel up to the wait for the workers, which changes nothing.
unfoldable pub disable_and_cancel : Bytes → Manager → Manager
unfolding emit_state over_jobs disable_one next_generation
disable_and_cancel why m =
    let text = if is_blank (trim_space why) then codes "Otkazano prekidom veze" else why in
    emit_state (
      over_jobs (disable_one text)
        (record m { generation = next_generation m.generation; accepting = false; paused = true }))

unfoldable pub closed_job : Job → Job
closed_job j =
    if is_queued j then record j { status = Status.cancelled; error = closing_text } else j

unfoldable pub shutdown_jobs : List Job → List Job
unfolding closed_job
shutdown_jobs [] = []
shutdown_jobs (j ∷ js) = closed_job j ∷ shutdown_jobs js

unfoldable pub signal_all : List (Bytes × ℕ) → List ℕ → List ℕ
signal_all [] cs = cs
signal_all ((id, c) ∷ rest) cs = signal_all rest (c ∷ cs)

-- Shutdown up to the wait for the workers.
unfoldable pub shutdown : Manager → Manager
unfolding shutdown_jobs signal_all next_generation
shutdown m = record m {
  generation = next_generation m.generation;
  closed = true;
  accepting = false;
  paused = true;
  jobs = shutdown_jobs m.jobs;
  signalled = signal_all m.cancels m.signalled;
}
