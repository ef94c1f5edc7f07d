-- ===== src/Transfer/Workers.antt =====
-- How many workers run: internal/transfer/manager.go, the counters `running` and `workers` and the
-- channel `workersIdle` against the goroutines that exist.
use host_ftp.Base.{
  ℕ, zero, suc, ◌+◌, ◌-◌, ◌≤◌, ◌<◌, ◌≡◌, refl, ap, sym, subst, Bytes, Bool, true, false, List, [],
  ◌∷◌, ◌++◌, put, codes, is_blank, trim_space, if◌then◌else◌, some, inl, inr, arith, length,
  length-append, replace_first, Option-cases,
}
use host_ftp.Remote.Errors.{GoError}
use host_ftp.Transfer.Model.{
  new, Manager, Job, job_event, emit, emit_state, next_generation, is_queued,
}
use host_ftp.Transfer.Requests.{ok}
use host_ftp.Transfer.Scheduler.{
  start_job, launch, pump_rounds, pump, worker_exited, update_first, finish_job, has_id,
  finished_job, set_attempt, update_progress,
}
use host_ftp.Transfer.Queue.{
  Reservation, reserve_batch, release_reserved, cancel_reservation, publish, commit_locked, pause,
  resume_locked, cancel_batch, retry_locked, over_jobs, clear_finished, enable_locked,
  disable_and_cancel, shutdown,
}
use host_ftp.Transfer.Frame.{
  Quiet, over_jobs-Quiet, cancel_one-Quiet, retry_one-Quiet, disable_one-Quiet, update_first-Quiet,
  emit-Quiet, reserve_inv, retry_inv, cancel_inv, commit_cases,
}
use host_ftp.Transfer.Reorder.{QueuedMove, moved, move_queued}
use host_ftp.Transfer.Slots.{move_queued_cases}
use host_ftp.Transfer.System.{
  System, Step, Reach, start, max_parallelism, enters, inquires, reserves, abandons, abandons_again,
  commits_again, settled_lem, commits, pumps, pauses, resumes, cancels, retries, moves, clears,
  enables, disables, shuts_down, begins, attempts, progresses, finishes, exits, connects, hangs_up,
  here, next,
}

-- The counters of a manager against `k` goroutines that execute and `l` that are leaving: no more
-- than eight transfers run, and the channel is closed exactly while there is no goroutine.
pub record Work (m : Manager) (k l : ℕ) : Type 0 where
  pub runs : m.running ≡ length m.spawned + k
  pub works : m.workers ≡ m.running + l
  pub capped : m.running ≤ max_parallelism
  pub rests : m.workers ≡ 0 → m.workers_idle ≡ true
  pub busy : 0 < m.workers → m.workers_idle ≡ false

abbrev pub IsCounted : System → Type 0
IsCounted s = Work s.manager (length s.executing) s.leaving

-- `n` has the counters of `m`.
record SameWork (m n : Manager) : Type 0 where
  w_running : n.running ≡ m.running
  w_workers : n.workers ≡ m.workers
  w_idle : n.workers_idle ≡ m.workers_idle
  w_spawned : n.spawned ≡ m.spawned

keep-Work : {m n : Manager} {k l : ℕ} → SameWork m n → Work m k l → Work n k l
keep-Work q v = ground arith

Quiet-work : (m n : Manager) → Quiet m n → SameWork m n
Quiet-work m n q = ground arith

emit_work : (b : _) (m : Manager) → SameWork m (emit b m)
emit_work b m = Quiet-work m (emit b m) (emit-Quiet b m)

launch-Work :
    (j : Job) (js : List Job) (m : Manager) {k l : ℕ}
    → Work m k l
    → m.running < max_parallelism
    → Work (launch j js m) k l
unfolding launch emit
launch-Work j js m v h = ground arith

launch-running : (j : Job) (js : List Job) (m : Manager) → (launch j js m).running ≡ m.running + 1
unfolding launch emit
launch-running j js m = refl

pump_rounds-Work :
    (n : ℕ) (m : Manager) {k l : ℕ}
    → Work m k l
    → m.running + n ≤ max_parallelism
    → Work (pump_rounds n m) k l
unfolding pump_rounds
pump_rounds-Work zero m v h = v
pump_rounds-Work (suc n) m v h = elim (Option-cases (replace_first is_queued start_job m.jobs)) [
  | inl e ↦ rw (e, pump_rounds) v
  | inr ((j, js), e) ↦
      rw (e, pump_rounds)
        (pump_rounds-Work n (launch j js m) (launch-Work j js m v (omega arith))
          (omega (arith, launch-running j js m)))
]

pump-Work :
    (limit : ℕ) (m : Manager) {k l : ℕ}
    → limit ≤ max_parallelism
    → Work m k l
    → Work (pump limit m) k l
unfolding pump
pump-Work limit m {k} {l} h v =
    let r : Work (pump_rounds (limit - m.running) m) k l =
      pump_rounds-Work (limit - m.running) m v (omega (arith, v.capped)) in
    ground arith

trans_work : {m n o : Manager} → SameWork m n → SameWork n o → SameWork m o
trans_work p q = ground arith

publish_work : (c : Bytes) (js : List Job) (m : Manager) → SameWork m (publish c js m)
unfolding publish
publish_work c [] m = ground arith
publish_work c (j ∷ js) m =
    let bound : Manager = record m { job_connections = put j.id c m.job_connections } in
    let told : SameWork m (emit (job_event j) bound) =
      trans_work {n = bound} (ground arith) (emit_work (job_event j) bound) in
    trans_work told (publish_work c js (emit (job_event j) bound))

reserve_work :
    (before : Manager) (c : Bytes) (jobs : List Job) (m n : Manager) (r : Reservation)
    → reserve_batch before (some c) jobs m ≡ ok (n, r)
    → SameWork m n
reserve_work before c jobs m n r h = ground (arith, reserve_inv before c jobs m n r h)

release_work : (r : Reservation) (m : Manager) → SameWork m (release_reserved r m)
unfolding release_reserved
release_work r m = ground arith

abandon_work : (r : Reservation) (m : Manager) → SameWork m (cancel_reservation r m).1
unfolding cancel_reservation
abandon_work r m = ground arith

commit_work : (r : Reservation) (m : Manager) → SameWork m (commit_locked r m).1
commit_work r m =
    commit_cases (SameWork m) r m (λ _. ground arith) (release_work r m)
      (λ _ _.
        let free = release_reserved r m in
        let more : Manager = record free { jobs = free.jobs ++ r.jobs } in
        let kept : SameWork m more = ground (arith, release_work r m) in
        trans_work kept (publish_work r.connection_id r.jobs more))

over_jobs_work :
    (f : Manager → Job → Manager × Job)
    → ((m : Manager) (j : Job) → Quiet m (f m j).0)
    → (m : Manager) → SameWork m (over_jobs f m)
over_jobs_work f h m = Quiet-work m (over_jobs f m) (over_jobs-Quiet f h m)

cancel_work : (wanted : List Bytes) (m n : Manager) → cancel_batch wanted m ≡ ok n → SameWork m n
cancel_work wanted m n h =
    subst (SameWork m) (sym (cancel_inv wanted m n h))
      (over_jobs_work _ (cancel_one-Quiet wanted) m)

retry_work :
    (before : Manager) (c : Bytes) (wanted : List Bytes) (m n : Manager)
    → retry_locked before (some c) wanted m ≡ ok n
    → SameWork m n
retry_work before c wanted m n h =
    subst (SameWork m) (sym (retry_inv before c wanted m n h).0)
      (over_jobs_work _ (retry_one-Quiet wanted) m)

pause_work : (m : Manager) → SameWork m (pause m)
unfolding pause emit_state emit
pause_work m = ground arith

resume_work : (m : Manager) → SameWork m (resume_locked m)
unfolding resume_locked emit_state emit
resume_work m = ground arith

reported_work : (m : Manager) (js : List Job) → SameWork m (emit_state (record m { jobs = js }))
unfolding emit_state emit
reported_work m js = ground arith

move_work :
    (id : Bytes) (move : QueuedMove) (m n : Manager)
    → move_queued id move m ≡ moved n
    → SameWork m n
move_work id move m n h =
    move_queued_cases (SameWork m) id move m n h (ground arith) (reported_work m)

clear_work : (m : Manager) → SameWork m (clear_finished m)
unfolding clear_finished emit_state emit
clear_work m = ground arith

enable_work : (m : Manager) → SameWork m (enable_locked m)
unfolding enable_locked emit_state emit
enable_work m = ground arith

shutdown_work : (m : Manager) → SameWork m (shutdown m)
unfolding shutdown
shutdown_work m = ground arith

disable_work : (why : Bytes) (m : Manager) → SameWork m (disable_and_cancel why m)
unfolding disable_and_cancel emit_state
disable_work why m =
    trans_work (trans_work off (over_jobs_work _ (disable_one-Quiet text) _)) (emit_work _ _)
  where
    text : Bytes
    text = if is_blank (trim_space why) then codes "Otkazano prekidom veze" else why

    off :
        SameWork m
          (record m { generation = next_generation m.generation; accepting = false; paused = true })
    off = ground arith

update_work : (p : Job → Bool) (f : Job → Job) (m : Manager) → SameWork m (update_first p f m)
update_work p f m = Quiet-work m (update_first p f m) (update_first-Quiet p f m)

attempt_work : (id : Bytes) (n : ℕ) (m : Manager) → SameWork m (set_attempt id n m)
unfolding set_attempt
attempt_work id n m = update_work _ _ m

progress_work :
    (now : ℕ) (id : Bytes) (t n : ℕ) (m : Manager) → SameWork m (update_progress now id t n m)
unfolding update_progress
progress_work now id t n m = update_work _ _ m

length_middle {ℓ} :
    {A : Type ℓ} (front back : List A) (x : A)
    → length (front ++ x ∷ back) ≡ length (front ++ back) + 1
length_middle front back x = omega (arith, length-append front (x ∷ back), length-append front back)

finish-Work :
    (ctx_done : Bool) (id : Bytes) (e : GoError) (m : Manager) {k l : ℕ}
    → Work m (suc k) l
    → Work (finish_job ctx_done id e m) k (suc l)
unfolding finish_job
finish-Work ctx_done id e m v = ground (arith, update_work (has_id id) (finished_job ctx_done e) m)

exit-Work : (m : Manager) {k l : ℕ} → Work m k (suc l) → Work (worker_exited m) k l
unfolding worker_exited
exit-Work m v = ground arith

-- Every step keeps the counters right and at most eight transfers running.
pub Step-IsCounted : {s t : System} → Step s t → IsCounted s → IsCounted t
Step-IsCounted enters v = v
Step-IsCounted (inquires before c i e) v = v
Step-IsCounted (reserves q jobs m r i h) v = keep-Work (reserve_work _ _ _ _ _ _ h) v
Step-IsCounted (abandons front back r e) v = keep-Work (abandon_work r _) v
Step-IsCounted (commits front back r e f) v = keep-Work (commit_work r _) v
Step-IsCounted {s} (abandons_again r h) v =
    subst (λ m. IsCounted (record s { manager = m })) (sym (settled_lem r s.manager h).0) v
Step-IsCounted {s} (commits_again r h) v =
    subst (λ m. IsCounted (record s { manager = m })) (sym (settled_lem r s.manager h).1) v
Step-IsCounted (pumps limit h) v = pump-Work limit _ h v
Step-IsCounted pauses v = keep-Work (pause_work _) v
Step-IsCounted resumes v = keep-Work (resume_work _) v
Step-IsCounted (cancels wanted m h) v = keep-Work (cancel_work wanted _ m h) v
Step-IsCounted (retries q wanted m i h) v = keep-Work (retry_work _ _ wanted _ m h) v
Step-IsCounted (moves id move m h) v = keep-Work (move_work id move _ m h) v
Step-IsCounted clears v = keep-Work (clear_work _) v
Step-IsCounted (enables c e g) v = keep-Work (enable_work _) v
Step-IsCounted (disables why g) v = keep-Work (disable_work why _) v
Step-IsCounted (shuts_down g) v = keep-Work (shutdown_work _) v
Step-IsCounted (begins front back w e) v = ground (arith, ap length e, length_middle front back w)
Step-IsCounted (attempts w attempt i) v = keep-Work (attempt_work w.1 attempt _) v
Step-IsCounted (progresses w now t n i) v = keep-Work (progress_work now w.1 t n _) v
Step-IsCounted {s} (finishes front back w ctx_done e q) v =
    subst (Work _ (length (front ++ back))) (omega arith) (
      finish-Work ctx_done w.1 e s.manager (
        subst (λ k. Work s.manager k s.leaving)
          (omega (arith, ap length q, length_middle front back w)) v))
Step-IsCounted {s} (exits n e) v =
    exit-Work s.manager (subst (Work s.manager (length s.executing)) e v)
Step-IsCounted (connects c e) v = v
Step-IsCounted (hangs_up a) v = v

-- After any history the manager's counters are those of the goroutines that exist, at most eight
-- transfers run at once, and the channel that DisableAndCancel and Shutdown wait for is closed
-- exactly while no goroutine is left.
pub Reach-IsCounted : {s : System} → Reach start s → IsCounted s
unfolding start new
Reach-IsCounted here = ground arith
Reach-IsCounted (next r st) = Step-IsCounted st (Reach-IsCounted r)
