-- ===== src/Transfer/Capacity.antt =====
-- The bound on the queue: internal/transfer/manager.go, maxTransferJobs and the reservations.
use host_ftp.Base.{
  ℕ, zero, suc, ◌+◌, ◌-◌, ◌≤◌, ◌≡◌, refl, ap, sym, subst, Bytes, Bool, true, false, not, List, [],
  ◌∷◌, ◌++◌, inl, inr, arith, length, length-append, keep, put, codes, is_blank, trim_space,
  Option-cases, replace_first, ◌∙◌, All, All-middle, length-Each, if◌then◌else◌,
}
use host_ftp.Remote.Errors.{GoError}
use host_ftp.Transfer.Model.{
  Manager, Job, new, next_generation, emit, emit_state, is_terminal, is_queued, job_event,
  max_transfer_jobs,
}
use host_ftp.Transfer.Queue.{
  Reservation, release_reserved, cancel_reservation, publish, commit_locked, pause, resume_locked,
  clear_finished, enable_locked, shutdown, over_jobs, retry_one, cancel_one, disable_one,
  disable_and_cancel,
}
use host_ftp.Transfer.Scheduler.{
  pump, start_job, has_id, pump_rounds, launch, set_attempt, update_progress, finish_job,
  worker_exited,
}
use host_ftp.Transfer.Frame.{
  Quiet, over_jobs-Quiet, over_jobs-Each, cancel_one-Quiet, retry_one-Quiet, disable_one-Quiet,
  update_first-Quiet, reserve_inv, retry_inv, cancel_inv, commit_cases, pump_cases,
}
use host_ftp.Transfer.Jobs.{
  IsCalm, pump-IsCalm, finish_job-IsCalm, set_attempt-IsCalm, update_progress-IsCalm,
  shutdown-IsCalm, disable-IsCalm,
}
use host_ftp.Transfer.Reorder.{QueuedMove, moved, move_queued}
use host_ftp.Transfer.Slots.{move_queued_cases, move_queued-length}
use host_ftp.Transfer.System.{
  System, Step, Reach, start, enters, inquires, reserves, abandons, abandons_again, commits_again,
  settled_lem, commits, pumps, pauses, resumes, cancels, retries, moves, clears, enables, disables,
  shuts_down, begins, attempts, progresses, finishes, exits, connects, hangs_up, here, next,
}

-- The jobs that open reservations hold.
abbrev pub held : List Reservation → ℕ
held [] = 0
held (r ∷ rs) = length r.jobs + held rs

-- Queued and reserved jobs stay under the limit, and what is reserved is what open reservations
-- hold, so that giving one back never cuts off at 0.
pub record HasRoom (s : System) : Type 0 where
  pub fits : length s.manager.jobs + s.manager.reserved ≤ max_transfer_jobs
  pub accounted : s.manager.reserved ≡ held s.reservations
  pub still_open : All (λ (r : Reservation). r.done ≡ false) s.reservations

held-middle :
    (front back : List Reservation) (r : Reservation)
    → held (front ++ r ∷ back) ≡ length r.jobs + held (front ++ back)
held-middle [] back r = refl
held-middle (f ∷ front) back r = omega (arith, held-middle front back r)

-- `n` reserves as much as `m` and has no more jobs.
record SameRoom (m n : Manager) : Type 0 where
  room_reserved : n.reserved ≡ m.reserved
  room_jobs : length n.jobs ≤ length m.jobs

Quiet-room : (m n : Manager) → Quiet m n → IsCalm m n → SameRoom m n
Quiet-room m n q c = record {
  room_reserved = q.same_reserved;
  room_jobs = omega (arith, length-Each c);
}

keep_room :
    {s : System} (t : System)
    → t.reservations ≡ s.reservations
    → SameRoom s.manager t.manager
    → HasRoom s
    → HasRoom t
keep_room t e q v = record {
  fits = omega (arith, q.room_jobs, q.room_reserved, v.fits);
  accounted = omega (arith, q.room_reserved, v.accounted, ap held e);
  still_open = subst (All (λ (r : Reservation). r.done ≡ false)) (sym e) v.still_open;
}

launch-reserved : (j : Job) (js : List Job) (m : Manager) → (launch j js m).reserved ≡ m.reserved
unfolding launch emit
launch-reserved j js m = refl

pump_rounds-reserved : (n : ℕ) (m : Manager) → (pump_rounds n m).reserved ≡ m.reserved
unfolding pump_rounds
pump_rounds-reserved zero m = refl
pump_rounds-reserved (suc n) m = elim (Option-cases (replace_first is_queued start_job m.jobs)) [
  | inl e ↦ rw (e, pump_rounds)
  | inr ((j, js), e) ↦
      rw (e, pump_rounds) (pump_rounds-reserved n (launch j js m) ∙ launch-reserved j js m)
]

pump_room : (limit : ℕ) (m : Manager) → SameRoom m (pump limit m)
pump_room limit m = record {
  room_reserved =
      pump_cases (λ n. n.reserved ≡ m.reserved) limit m refl (λ _ _ _. pump_rounds-reserved _ m);
  room_jobs = omega (arith, length-Each (pump-IsCalm limit m));
}

publish-room :
    (c : Bytes) (js : List Job) (m : Manager)
    → ((publish c js m).reserved ≡ m.reserved) × ((publish c js m).jobs ≡ m.jobs)
unfolding publish emit
publish-room c [] m = (refl, refl)
publish-room c (j ∷ js) m =
    publish-room c js
      (emit (job_event j) (record m { job_connections = put j.id c m.job_connections }))

over_jobs_room :
    (f : Manager → Job → Manager × Job)
    → ((m : Manager) (j : Job) → Quiet m (f m j).0)
    → (m : Manager) → SameRoom m (over_jobs f m)
over_jobs_room f h m = record {
  room_reserved = (over_jobs-Quiet f h m).same_reserved;
  room_jobs = omega (arith, length-Each (over_jobs-Each {R = λ _ _. Unit {0}} f (λ _ _. tt) m));
}

length-keep-le {ℓ} : {A : Type ℓ} (p : A → Bool) (xs : List A) → length (keep p xs) ≤ length xs
unfolding keep
length-keep-le p [] = omega arith
length-keep-le p (x ∷ xs) = ground (arith, length-keep-le p xs)

reported_reserved :
    (m : Manager) (js : List Job) → (emit_state (record m { jobs = js })).reserved ≡ m.reserved
unfolding emit_state emit
reported_reserved m js = refl

move_room :
    (id : Bytes) (move : QueuedMove) (m n : Manager)
    → move_queued id move m ≡ moved n
    → SameRoom m n
move_room id move m n h = record {
  room_reserved =
      move_queued_cases (λ (o : Manager). o.reserved ≡ m.reserved) id move m n h refl
        (reported_reserved m);
  room_jobs = omega (arith, move_queued-length id move m n h);
}

clear_room : (m : Manager) → SameRoom m (clear_finished m)
unfolding clear_finished emit_state emit
clear_room m = record {
  room_reserved = refl;
  room_jobs = length-keep-le (λ j. not (is_terminal j)) m.jobs;
}

finish_room :
    (ctx_done : Bool) (id : Bytes) (e : GoError) (m : Manager)
    → (finish_job ctx_done id e m).reserved ≡ m.reserved
unfolding finish_job
finish_room ctx_done id e m = (update_first-Quiet (has_id id) _ m).same_reserved

attempt_room : (id : Bytes) (n : ℕ) (m : Manager) → SameRoom m (set_attempt id n m)
unfolding set_attempt
attempt_room id n m =
    Quiet-room m _ (update_first-Quiet (has_id id) _ m)
      (unfold set_attempt in set_attempt-IsCalm id n m)

progress_room :
    (now : ℕ) (id : Bytes) (t n : ℕ) (m : Manager) → SameRoom m (update_progress now id t n m)
unfolding update_progress
progress_room now id t n m =
    Quiet-room m _ (update_first-Quiet _ _ m) (update_progress-IsCalm now id t n m)

pause_room : (m : Manager) → SameRoom m (pause m)
unfolding pause emit_state emit
pause_room m = ground arith

resume_room : (m : Manager) → SameRoom m (resume_locked m)
unfolding resume_locked emit_state emit
resume_room m = ground arith

enable_room : (m : Manager) → SameRoom m (enable_locked m)
unfolding enable_locked emit_state emit
enable_room m = ground arith

disable_room : (why : Bytes) (m : Manager) → (disable_and_cancel why m).reserved ≡ m.reserved
unfolding disable_and_cancel emit_state emit
disable_room why m = (over_jobs-Quiet (disable_one text) (disable_one-Quiet text) off).same_reserved
  where
    text : Bytes
    text = if is_blank (trim_space why) then codes "Otkazano prekidom veze" else why

    off : Manager
    off = record m { generation = next_generation m.generation; accepting = false; paused = true }

shutdown_room : (m : Manager) → (shutdown m).reserved ≡ m.reserved
unfolding shutdown
shutdown_room m = refl

exit_room : (m : Manager) → SameRoom m (worker_exited m)
unfolding worker_exited
exit_room m = ground arith

-- A reservation that is given back leaves the other ones.
release-HasRoom :
    (s : System) (front back : List Reservation) (r : Reservation) (jobs : List Job)
    → s.reservations ≡ front ++ r ∷ back
    → length jobs ≤ length s.manager.jobs + length r.jobs
    → HasRoom s
    → (m : Manager) → m.jobs ≡ jobs
    → m.reserved ≡ s.manager.reserved - length r.jobs
    → HasRoom (record s { manager = m; reservations = front ++ back })
release-HasRoom s front back r jobs e l v m ej er =
    let h = held-middle front back r in
    let k = ap held e in
    record {
      fits = omega (arith, h, k, v.fits, v.accounted, ap length ej);
      accounted = omega (arith, h, k, v.accounted);
      still_open =
          (All-middle _ front back r
            (subst (All (λ (r : Reservation). r.done ≡ false)) e v.still_open)).1;
    }

open_of_middle :
    (s : System) (front back : List Reservation) (r : Reservation)
    → s.reservations ≡ front ++ r ∷ back
    → HasRoom s
    → r.done ≡ false
open_of_middle s front back r e v =
    (All-middle _ front back r (subst (All (λ (r : Reservation). r.done ≡ false)) e v.still_open)).0

-- Commit hands the reserved places over to the jobs, or gives them back.
commit-HasRoom :
    (s : System) (front back : List Reservation) (r : Reservation)
    → s.reservations ≡ front ++ r ∷ back
    → HasRoom s
    → HasRoom (record s { manager = (commit_locked r s.manager).1; reservations = front ++ back })
unfolding release_reserved
commit-HasRoom s front back r e v =
    commit_cases (λ m. HasRoom (record s { manager = m; reservations = front ++ back })) r s.manager
      (λ d. absurd (ground (arith, open_of_middle s front back r e v)))
      (release-HasRoom s front back r s.manager.jobs e (omega arith) v _ refl refl)
      (λ _ _.
        let p = publish-room r.connection_id r.jobs (record (s.manager) {
          reserved = s.manager.reserved - length r.jobs;
          jobs = s.manager.jobs ++ r.jobs;
        }) in
        release-HasRoom s front back r (s.manager.jobs ++ r.jobs) e
          (omega (arith, length-append s.manager.jobs r.jobs)) v _ p.1 p.0)

abandon-HasRoom :
    (s : System) (front back : List Reservation) (r : Reservation)
    → s.reservations ≡ front ++ r ∷ back
    → HasRoom s
    → HasRoom
        (record s { manager = (cancel_reservation r s.manager).1; reservations = front ++ back })
unfolding cancel_reservation release_reserved
abandon-HasRoom s front back r e v =
    rw (open_of_middle s front back r e v)
      (release-HasRoom s front back r s.manager.jobs e (omega arith) v _ refl refl)

-- Every step keeps the queue within its bound.
pub Step-HasRoom : {s t : System} → Step s t → HasRoom s → HasRoom t
Step-HasRoom enters v = ground arith
Step-HasRoom (inquires before c i e) v = ground arith
Step-HasRoom {s} (reserves q jobs m r i h) v =
    ground (arith, reserve_inv q.before q.connection jobs s.manager m r h)
Step-HasRoom {s} (abandons front back r e) v = abandon-HasRoom s front back r e v
Step-HasRoom {s} (commits front back r e f) v = commit-HasRoom s front back r e v
Step-HasRoom {s} (abandons_again r h) v =
    subst (λ m. HasRoom (record s { manager = m })) (sym (settled_lem r s.manager h).0) v
Step-HasRoom {s} (commits_again r h) v =
    subst (λ m. HasRoom (record s { manager = m })) (sym (settled_lem r s.manager h).1) v
Step-HasRoom {s} (pumps limit h) v = keep_room _ refl (pump_room limit s.manager) v
Step-HasRoom {s} pauses v = keep_room _ refl (pause_room s.manager) v
Step-HasRoom {s} resumes v = keep_room _ refl (resume_room s.manager) v
Step-HasRoom {s} (cancels wanted m h) v =
    keep_room _ refl
      (subst (SameRoom s.manager) (sym (cancel_inv wanted s.manager m h))
        (over_jobs_room (cancel_one wanted) (cancel_one-Quiet wanted) s.manager))
      v
Step-HasRoom {s} (retries q wanted m i h) v =
    keep_room _ refl
      (subst (SameRoom s.manager) (sym (retry_inv q.before q.connection wanted s.manager m h).0)
        (over_jobs_room (retry_one wanted) (retry_one-Quiet wanted) s.manager))
      v
Step-HasRoom {s} (moves id move m h) v = keep_room _ refl (move_room id move s.manager m h) v
Step-HasRoom {s} clears v = keep_room _ refl (clear_room s.manager) v
Step-HasRoom {s} (enables c e g) v = keep_room _ refl (enable_room s.manager) v
Step-HasRoom {s} (disables why g) v =
    keep_room _ refl
      (record {
        room_reserved = disable_room why s.manager;
        room_jobs = omega (arith, length-Each (disable-IsCalm why s.manager));
      })
      v
Step-HasRoom {s} (shuts_down g) v =
    keep_room _ refl
      (record {
        room_reserved = shutdown_room s.manager;
        room_jobs = omega (arith, length-Each (shutdown-IsCalm s.manager));
      })
      v
Step-HasRoom (begins front back w e) v = ground arith
Step-HasRoom {s} (attempts w n i) v = keep_room _ refl (attempt_room w.1 n s.manager) v
Step-HasRoom {s} (progresses w now t n i) v =
    keep_room _ refl (progress_room now w.1 t n s.manager) v
Step-HasRoom {s} (finishes front back w ctx_done e q) v =
    keep_room _ refl
      (record {
        room_reserved = finish_room ctx_done w.1 e s.manager;
        room_jobs = omega (arith, length-Each (finish_job-IsCalm ctx_done w.1 e s.manager));
      })
      v
Step-HasRoom {s} (exits n e) v = keep_room _ refl (exit_room s.manager) v
Step-HasRoom (connects c e) v = ground arith
Step-HasRoom (hangs_up a) v = ground arith

-- After any history the jobs in the queue and the reserved places together are at most 20000, and
-- the reserved places are exactly those of the reservations that are still open. (A history may
-- contain further calls of Cancel and Commit on settled reservations.)
pub Reach-HasRoom : {s : System} → Reach start s → HasRoom s
unfolding start new
Reach-HasRoom here = ground arith
Reach-HasRoom (next r st) = Step-HasRoom st (Reach-HasRoom r)
