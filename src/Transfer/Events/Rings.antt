-- ===== src/Transfer/Events/Rings.antt =====
-- The ring of events under every operation: internal/transfer/manager.go.
use host_ftp.Base.{
  ℕ, zero, suc, ◌+◌, ◌-◌, ◌≡◌, refl, sym, subst, Bytes, Bool, true, false, List, [], ◌∷◌, some, inl,
  inr, arith, if_cases, Bool-cases, text_mem, ◌||◌, not, Option-cases, map_accum, map_accum-state,
  put, replace_first,
}
use host_ftp.Transfer.Model.{
  Manager, Job, emit, emit_state, job_event, state_event, next_generation, new, is_queued, Status,
  reason,
}
use host_ftp.Transfer.Requests.{ok}
use host_ftp.Transfer.Scheduler.{
  start_job, launch, pump_rounds, worker_exited, update_first, finish_job, set_attempt,
  update_progress,
}
use host_ftp.Transfer.Queue.{
  Reservation, release_reserved, cancel_reservation, publish, commit_locked, pause, resume_locked,
  clear_finished, enable_locked, disable_and_cancel, shutdown, over_jobs, cancel_one, retry_one,
  disable_one, signal_job, reserve_batch, retried_job,
}
use host_ftp.Transfer.Frame.{pump_cases, commit_cases, cancel_inv, retry_inv, reserve_inv}
use host_ftp.Transfer.Slots.{move_queued_cases}
use host_ftp.Transfer.Events.{IsRing, emit-IsRing}
use host_ftp.Transfer.System.{
  System, Step, Reach, start, enters, inquires, reserves, abandons, abandons_again, commits_again,
  settled_lem, commits, pumps, pauses, resumes, cancels, retries, moves, clears, enables, disables,
  shuts_down, begins, attempts, progresses, finishes, exits, connects, hangs_up, here, next,
}

-- The ring is about the numbering and the events alone.
keep-IsRing : (m n : Manager) → n.seq ≡ m.seq → n.events ≡ m.events → IsRing m → IsRing n
keep-IsRing m n e f v = ground (arith, e, f, v)

state-IsRing : (m : Manager) → IsRing m → IsRing (emit_state m)
unfolding emit_state
state-IsRing m v = emit-IsRing (state_event m.jobs m.paused) m v

jobs-IsRing : (m : Manager) (js : List Job) → IsRing m → IsRing (record m { jobs = js })
jobs-IsRing m js v = keep-IsRing m (record m { jobs = js }) refl refl v

over_jobs-IsRing :
    (f : Manager → Job → Manager × Job)
    → ((m : Manager) (j : Job) → IsRing m → IsRing (f m j).0)
    → (m : Manager) → IsRing m
    → IsRing (over_jobs f m)
unfolding over_jobs
over_jobs-IsRing f h m v =
    jobs-IsRing (map_accum f m m.jobs).0 _ (map_accum-state IsRing f h m m.jobs v)

signal-IsRing : (id : Bytes) (m : Manager) → IsRing m → IsRing (signal_job id m)
unfolding signal_job
signal-IsRing id m v = keep-IsRing m (signal_job id m) (ground arith) (ground arith) v

cancel_one-IsRing :
    (wanted : List Bytes) (m : Manager) (j : Job) → IsRing m → IsRing (cancel_one wanted m j).0
unfolding cancel_one
cancel_one-IsRing wanted m j v = elim (Bool-cases (text_mem j.id wanted)) [
  | inr e ↦ rw e v
  | inl e ↦ elim (Bool-cases (is_queued j)) [
    | inl f ↦ rw (e, f) (emit-IsRing _ m v)
    | inr f ↦ rw (e, f) (signal-IsRing j.id m v)
  ]
]

retry_one-IsRing :
    (wanted : List Bytes) (m : Manager) (j : Job) → IsRing m → IsRing (retry_one wanted m j).0
unfolding retry_one
retry_one-IsRing wanted m j v = elim (Bool-cases (text_mem j.id wanted)) [
  | inr e ↦ rw e v
  | inl e ↦ rw e (emit-IsRing (job_event (retried_job j)) m v)
]

disable_one-IsRing :
    (why : Bytes) (m : Manager) (j : Job) → IsRing m → IsRing (disable_one why m j).0
unfolding disable_one
disable_one-IsRing why m j v = by_status j.status
  where
    by_status :
        (st : Status)
        → IsRing
            (elim st as (λ _. Manager × Job) [
              | Status.queued ↦ (
                emit (job_event (record j { status = Status.cancelled; error = reason why })) m,
                record j { status = Status.cancelled; error = reason why },
              )
              | Status.running ↦ (signal_job j.id m, j)
              | _ ↦ (m, j)
            ]).0
    by_status Status.queued = emit-IsRing _ m v
    by_status Status.running = signal-IsRing j.id m v
    by_status Status.done = v
    by_status Status.failed = v
    by_status Status.cancelled = v
    by_status Status.skipped = v

launch-IsRing : (j : Job) (js : List Job) (m : Manager) → IsRing m → IsRing (launch j js m)
unfolding launch
launch-IsRing j js m v =
    keep-IsRing
      (emit (job_event j) (record m {
        jobs = js;
        running = m.running + 1;
        cancels = put j.id m.next_context m.cancels;
        next_context = m.next_context + 1;
      }))
      (launch j js m) refl refl (emit-IsRing (job_event j) _ (keep-IsRing m _ refl refl v))

rounds-IsRing : (n : ℕ) (m : Manager) → IsRing m → IsRing (pump_rounds n m)
unfolding pump_rounds
rounds-IsRing zero m v = v
rounds-IsRing (suc n) m v = elim (Option-cases (replace_first is_queued start_job m.jobs)) [
  | inl e ↦ rw (e, pump_rounds) v
  | inr ((j, js), e) ↦
      rw (e, pump_rounds) (rounds-IsRing n (launch j js m) (launch-IsRing j js m v))
]

publish-IsRing : (c : Bytes) (js : List Job) (m : Manager) → IsRing m → IsRing (publish c js m)
unfolding publish
publish-IsRing c [] m v = v
publish-IsRing c (j ∷ js) m v =
    let bound : Manager = record m { job_connections = put j.id c m.job_connections } in
    publish-IsRing c js (emit (job_event j) bound)
      (emit-IsRing (job_event j) bound (keep-IsRing m bound refl refl v))

update_first-IsRing :
    (p : Job → Bool) (f : Job → Job) (m : Manager) → IsRing m → IsRing (update_first p f m)
unfolding update_first
update_first-IsRing p f m v = elim (Option-cases (replace_first p f m.jobs)) [
  | inl e ↦ rw (e, update_first) v
  | inr ((j, js), e) ↦ rw (e, update_first) (emit-IsRing (job_event j) _ (jobs-IsRing m js v))
]

pause-IsRing : (m : Manager) → IsRing m → IsRing (pause m)
unfolding pause
pause-IsRing m v =
    if_cases IsRing (m.closed || m.paused) m (emit_state (record m { paused = true })) (λ _. v)
      (λ _. state-IsRing (record m { paused = true }) (keep-IsRing m _ refl refl v))

resume-IsRing : (m : Manager) → IsRing m → IsRing (resume_locked m)
unfolding resume_locked
resume-IsRing m v =
    if_cases IsRing (m.closed || not m.accepting || not m.paused) m
      (emit_state (record m { paused = false })) (λ _. v)
      (λ _. state-IsRing (record m { paused = false }) (keep-IsRing m _ refl refl v))

enable-IsRing : (m : Manager) → IsRing m → IsRing (enable_locked m)
unfolding enable_locked
enable-IsRing m v =
    if_cases IsRing m.closed m _ (λ _. v)
      (λ _. state-IsRing _ (
        keep-IsRing m
          (record m { generation = next_generation m.generation; accepting = true; paused = false })
          refl refl v))

-- A cleared ring starts over at the next number.
clear-IsRing : (m : Manager) → IsRing (clear_finished m)
unfolding clear_finished emit_state emit
clear-IsRing m = record {
  short = omega arith;
  within = omega arith;
  filled = λ h. omega arith;
  consecutive = (omega arith, tt);
}

abandon-IsRing : (r : Reservation) (m : Manager) → IsRing m → IsRing (cancel_reservation r m).1
unfolding cancel_reservation release_reserved
abandon-IsRing r m v = keep-IsRing m _ (ground arith) (ground arith) v

commit-IsRing : (r : Reservation) (m : Manager) → IsRing m → IsRing (commit_locked r m).1
unfolding release_reserved
commit-IsRing r m v =
    commit_cases IsRing r m (λ _. v) (keep-IsRing m (release_reserved r m) refl refl v)
      (λ _ _. publish-IsRing r.connection_id r.jobs _ (keep-IsRing m _ refl refl v))

disable-IsRing : (why : Bytes) (m : Manager) → IsRing m → IsRing (disable_and_cancel why m)
unfolding disable_and_cancel
disable-IsRing why m v =
    state-IsRing _ (over_jobs-IsRing _ (disable_one-IsRing _) _ (keep-IsRing m _ refl refl v))

reserve-IsRing :
    (before : Manager) (c : Bytes) (jobs : List Job) (m n : Manager) (r : Reservation)
    → reserve_batch before (some c) jobs m ≡ ok (n, r)
    → IsRing m
    → IsRing n
reserve-IsRing before c jobs m n r h v =
    subst IsRing (sym (reserve_inv before c jobs m n r h).0) (keep-IsRing m _ refl refl v)

exited_seq : (m : Manager) → (worker_exited m).seq ≡ m.seq
unfolding worker_exited
exited_seq m = ground arith

exited_events : (m : Manager) → (worker_exited m).events ≡ m.events
unfolding worker_exited
exited_events m = ground arith

-- Every step keeps the ring.
Step-IsRing : {s t : System} → Step s t → IsRing s.manager → IsRing t.manager
unfolding set_attempt update_progress finish_job shutdown
Step-IsRing enters v = v
Step-IsRing (inquires before c i e) v = v
Step-IsRing {s} (reserves q jobs m r i h) v =
    reserve-IsRing q.before q.connection jobs s.manager m r h v
Step-IsRing {s} (abandons front back r e) v = abandon-IsRing r s.manager v
Step-IsRing {s} (commits front back r e f) v = commit-IsRing r s.manager v
Step-IsRing {s} (abandons_again r h) v = subst (λ m. IsRing m) (sym (settled_lem r s.manager h).0) v
Step-IsRing {s} (commits_again r h) v = subst (λ m. IsRing m) (sym (settled_lem r s.manager h).1) v
Step-IsRing {s} (pumps limit h) v =
    pump_cases IsRing limit s.manager v
      (λ _ _ _. rounds-IsRing (limit - s.manager.running) s.manager v)
Step-IsRing {s} pauses v = pause-IsRing s.manager v
Step-IsRing {s} resumes v = resume-IsRing s.manager v
Step-IsRing {s} (cancels wanted m h) v =
    subst IsRing (sym (cancel_inv wanted s.manager m h))
      (over_jobs-IsRing (cancel_one wanted) (cancel_one-IsRing wanted) s.manager v)
Step-IsRing {s} (retries q wanted m i h) v =
    subst IsRing (sym (retry_inv q.before q.connection wanted s.manager m h).0)
      (over_jobs-IsRing (retry_one wanted) (retry_one-IsRing wanted) s.manager v)
Step-IsRing {s} (moves id move m h) v =
    move_queued_cases IsRing id move s.manager m h v
      (λ js. state-IsRing (record (s.manager) { jobs = js }) (jobs-IsRing s.manager js v))
Step-IsRing {s} clears v = clear-IsRing s.manager
Step-IsRing {s} (enables c e g) v = enable-IsRing s.manager v
Step-IsRing {s} (disables why g) v = disable-IsRing why s.manager v
Step-IsRing {s} (shuts_down g) v = keep-IsRing s.manager _ refl refl v
Step-IsRing {s} (begins front back w e) v = keep-IsRing s.manager _ refl refl v
Step-IsRing {s} (attempts w n i) v = update_first-IsRing _ _ s.manager v
Step-IsRing {s} (progresses w now t n i) v = update_first-IsRing _ _ s.manager v
Step-IsRing {s} (finishes front back w ctx_done e q) v =
    keep-IsRing _ _ refl refl (update_first-IsRing _ _ s.manager v)
Step-IsRing {s} (exits n e) v =
    keep-IsRing s.manager _ (exited_seq s.manager) (exited_events s.manager) v
Step-IsRing (connects c e) v = v
Step-IsRing (hangs_up a) v = v

-- After any history the ring holds at most 1000 events, the last ones that were reported, numbered
-- without a gap up to the manager's number, and is empty only before the first one.
pub Reach-IsRing : {s : System} → Reach start s → IsRing s.manager
unfolding start new
Reach-IsRing here = record {
  short = omega arith;
  within = omega arith;
  filled = λ h. absurd (omega arith);
  consecutive = tt;
}
Reach-IsRing (next r st) = Step-IsRing st (Reach-IsRing r)
