-- ===== src/Transfer/Scheduler.antt =====
-- internal/transfer/manager.go: pump, workerExited, jobSnapshot, finishJob and setAttempt; and
-- updateProgress of progress.go.
use host_ftp.Base.{
  ℕ, zero, suc, ◌+◌, ◌-◌, Bytes, Bool, true, false, ◌&&◌, List, [], ◌∷◌, Option, none, some, ltb,
  leb, ◌==◌, if◌then◌else◌, text_eq, delete, put, replace_first,
}
use host_ftp.Remote.Errors.{GoError, is_nil, is_skipped, is_canceled, has_uncertain_remote_state}
use host_ftp.Transfer.Model.{
  Manager, Job, Status, job_event, emit, is_queued, is_running, reset_transfer_metrics,
  full_percent, share, no_eta, estimate, over, cancelled_text, exists_text, explained, not_cleaned,
  not_successful,
}

-- What pump does to the job that it starts.
unfoldable pub start_job : Job → Job
unfolding reset_transfer_metrics
start_job j = reset_transfer_metrics (record j { status = Status.running })

-- The rest of pump's loop body, for the started job and the list with it.
unfoldable pub launch : Job → List Job → Manager → Manager
unfolding emit
launch j js m = record e {
  workers_idle = if m.workers == 0 then false else m.workers_idle;
  workers = m.workers + 1;
  spawned = (m.next_context, j.id) ∷ m.spawned;
}
  where
    e : Manager
    e = emit (job_event j) (record m {
      jobs = js;
      running = m.running + 1;
      cancels = put j.id m.next_context m.cancels;
      next_context = m.next_context + 1;
    })

-- `for m.running < limit`: each round raises `running` by one, so there are at most
-- `limit - running` rounds, and one that finds no queued job returns.
unfoldable pub pump_rounds : ℕ → Manager → Manager
unfolding launch start_job
pump_rounds zero m = m
pump_rounds (suc n) m = elim (replace_first is_queued start_job m.jobs) [
  | none ↦ m
  | some (j, js) ↦ pump_rounds n (launch j js m)
]

-- `limit` is `m.settings.Effective().Parallelism`.
unfoldable pub pump : ℕ → Manager → Manager
unfolding pump_rounds
pump limit m =
    if m.paused
    then m
    else if m.closed
    then m
    else if m.accepting
    then pump_rounds (limit - m.running) m
    else m

unfoldable pub worker_exited : Manager → Manager
worker_exited m = if m.workers == 0 then m else record m {
  workers = m.workers - 1;
  workers_idle = if m.workers - 1 == 0 then true else m.workers_idle;
}

unfoldable pub job_snapshot : Bytes → List Job → Option Job
job_snapshot id [] = none
job_snapshot id (j ∷ js) = if text_eq j.id id then some j else job_snapshot id js

-- The test that a loop makes for the job it is about.
unfoldable pub has_id : Bytes → Job → Bool
has_id id j = text_eq j.id id

-- The branches of finishJob for one job; `ctx_done` is `ctx.Err() != nil`.
unfoldable pub finished_job : Bool → GoError → Job → Job
finished_job ctx_done e j =
    if has_uncertain_remote_state e
    then record j { status = Status.failed; error = explained e not_cleaned }
    else if is_skipped e
    then record j {
      status = Status.skipped;
      progress = full_percent;
      eta_seconds = no_eta;
      error = exists_text;
    }
    else if is_nil e
    then record j {
      status = Status.done;
      progress = full_percent;
      eta_seconds = no_eta;
      bytes_transferred = if ltb 0 j.bytes_total then j.bytes_total else j.bytes_transferred;
    }
    else if ctx_done
    then record j { status = Status.cancelled; eta_seconds = no_eta; error = cancelled_text }
    else if is_canceled e
    then record j { status = Status.cancelled; eta_seconds = no_eta; error = cancelled_text }
    else record j {
      status = Status.failed;
      eta_seconds = no_eta;
      error = explained e not_successful;
    }

-- The loop over the jobs that changes the first that passes the test, and reports it.
unfoldable pub update_first : (Job → Bool) → (Job → Job) → Manager → Manager
unfolding emit
update_first p f m = elim (replace_first p f m.jobs) [
  | none ↦ m
  | some (j, js) ↦ emit (job_event j) (record m { jobs = js })
]

unfoldable pub finish_job : Bool → Bytes → GoError → Manager → Manager
unfolding update_first has_id finished_job
finish_job ctx_done id e m =
    let u = update_first (has_id id) (finished_job ctx_done e) m in
    record u { cancels = delete id u.cancels; running = u.running - 1 }

unfoldable pub attempted_job : ℕ → Job → Job
unfolding reset_transfer_metrics
attempted_job attempt j =
    let k = record j { attempts = attempt } in if ltb 1 attempt then reset_transfer_metrics k else k

unfoldable pub set_attempt : Bytes → ℕ → Manager → Manager
unfolding update_first has_id attempted_job
set_attempt id attempt = update_first (has_id id) (attempted_job attempt)

-- updateProgress's loop body. `n` is the total and `t` the bytes moved, already cut to the total;
-- `now` is in nanoseconds. A rate over a positive number of bytes is positive.
unfoldable pub progressed_job : ℕ → ℕ → ℕ → Job → Job
progressed_job now t n j =
    let started : ℕ = elim j.started_at [ none ↦ now | some s ↦ s ] in
    let elapsed = now - started in
    let k = record j {
      started_at = some started;
      bytes_transferred = t;
      bytes_total = n;
      progress = if ltb 0 n then share t n else j.progress;
    } in
    if leb 250_000_000 elapsed && ltb 0 t
    then record k {
      bytes_per_second = over t elapsed;
      eta_seconds = if ltb t n then estimate (n - t) (over t elapsed) else no_eta;
    }
    else k

-- A negative count from the transport is 0 here already.
unfoldable pub update_progress : ℕ → Bytes → ℕ → ℕ → Manager → Manager
unfolding update_first has_id progressed_job
update_progress now id transferred total =
    let t = if ltb 0 total && ltb total transferred then total else transferred in
    update_first (λ j. has_id id j && is_running j) (progressed_job now t total)
