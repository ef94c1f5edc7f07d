-- ===== src/Transfer/Binding/Control.antt =====
-- What each operation leaves alone of the fields that binding rests on.
use host_ftp.Base.{
  ℕ, zero, suc, Option-cases, replace_first, ◌+◌, ltb, ◌&&◌, ◌^◌, ◌%◌, ◌<◌, ◌≡◌, ◌⊎◌, inl, inr,
  Bytes, codes, Bool, true, false, List, [], ◌∷◌, arith, All, All-Each, text_mem, is_blank,
  trim_space, if◌then◌else◌,
}
use host_ftp.Remote.Errors.{GoError}
use host_ftp.Transfer.Model.{Manager, Job, emit, emit_state, is_queued, is_running, next_generation}
use host_ftp.Transfer.Scheduler.{
  pump, pump_rounds, launch, start_job, worker_exited, finish_job, set_attempt, update_progress,
  has_id, finished_job, attempted_job, progressed_job,
}
use host_ftp.Transfer.Queue.{
  Reservation, release_reserved, cancel_reservation, pause, resume_locked, retry_one, retried_job,
  enable_locked, disable_one, disable_and_cancel, shutdown_jobs, closed_job, over_jobs,
}
use host_ftp.Transfer.Frame.{
  Quiet, over_jobs-Quiet, over_jobs-Each, disable_one-Quiet, update_first-Quiet, pump_cases,
}
use host_ftp.Transfer.Binding.{SameControl}

pub Quiet-control : (m n : Manager) → Quiet m n → SameControl m n
Quiet-control m n q = ground arith

pub trans_control : {m n o : Manager} → SameControl m n → SameControl n o → SameControl m o
trans_control p q = ground arith

pub launch_control : (j : Job) (js : List Job) (m : Manager) → SameControl m (launch j js m)
unfolding launch emit
launch_control j js m = ground arith

pub pump_rounds_control : (n : ℕ) (m : Manager) → SameControl m (pump_rounds n m)
unfolding pump_rounds
pump_rounds_control zero m = ground arith
pump_rounds_control (suc n) m = elim (Option-cases (replace_first is_queued start_job m.jobs)) [
  | inl e ↦ rw (e, pump_rounds) (ground arith)
  | inr ((j, js), e) ↦
      rw (e, pump_rounds)
        (trans_control (launch_control j js m) (pump_rounds_control n (launch j js m)))
]

pub pump_control : (limit : ℕ) (m : Manager) → SameControl m (pump limit m)
pump_control limit m =
    pump_cases (SameControl m) limit m (ground arith) (λ _ _ _. pump_rounds_control _ m)

pub finish_control :
    (ctx_done : Bool) (id : Bytes) (e : GoError) (m : Manager)
    → SameControl m (finish_job ctx_done id e m)
unfolding finish_job
finish_control ctx_done id e m =
    ground (arith, update_first-Quiet (has_id id) (finished_job ctx_done e) m)

-- DisableAndCancel and Shutdown leave no job queued.
pub over_jobs_drained :
    (why : Bytes) (m : Manager)
    → All (λ j. is_queued j ≡ false) (over_jobs (disable_one why) m).jobs
over_jobs_drained why m =
    All-Each (λ _. Unit {0}) _ (λ j k h _. h)
      (over_jobs-Each {R = λ j k. is_queued k ≡ false} (disable_one why) (disabled why) m)
      (units m.jobs)
  where
    units : (js : List Job) → All (λ _. Unit {0}) js
    units [] = tt
    units (j ∷ js) = (tt, units js)

    disabled : (why : Bytes) (m : Manager) (j : Job) → is_queued (disable_one why m j).1 ≡ false
    disabled why m j = unfold disable_one is_queued in ground arith

pub shutdown_drained : (js : List Job) → All (λ j. is_queued j ≡ false) (shutdown_jobs js)
unfolding shutdown_jobs
shutdown_drained [] = tt
shutdown_drained (j ∷ js) = (unfold closed_job is_queued in ground arith, shutdown_drained js)

pub enable_cases {κ} :
    (P : Manager → Type κ) (m : Manager)
    → P m
    → P (
        emit_state (record m {
          generation = next_generation m.generation;
          accepting = true;
          paused = false;
        }))
    → P (enable_locked m)
unfolding enable_locked
enable_cases P m same on = ground arith

pub pause_same : (m : Manager) → ((pause m).jobs ≡ m.jobs) × SameControl m (pause m)
unfolding pause emit_state emit
pause_same m = ground arith

pub resume_same :
    (m : Manager) → ((resume_locked m).jobs ≡ m.jobs) × SameControl m (resume_locked m)
unfolding resume_locked emit_state emit
resume_same m = ground arith

pub disable_drained :
    (why : Bytes) (m : Manager) → All (λ j. is_queued j ≡ false) (disable_and_cancel why m).jobs
unfolding disable_and_cancel emit_state emit
disable_drained why m =
    over_jobs_drained (if is_blank (trim_space why) then codes "Otkazano prekidom veze" else why)
      (record m { generation = next_generation m.generation; accepting = false; paused = true })

pub disable_generation :
    (why : Bytes) (m : Manager)
    → m.generation + 1 < 2 ^ 64
    → (disable_and_cancel why m).generation ≡ m.generation + 1
unfolding disable_and_cancel emit_state emit next_generation
disable_generation why m g =
    let text : Bytes = if is_blank (trim_space why) then codes "Otkazano prekidom veze" else why in
    let off : Manager = record m {
      generation = (m.generation + 1) % 2 ^ 64;
      accepting = false;
      paused = true;
    } in
    omega (arith, (over_jobs-Quiet (disable_one text) (disable_one-Quiet text) off).same_generation)

pub released :
    (r : Reservation) (m : Manager)
    → ((release_reserved r m).jobs ≡ m.jobs) × SameControl m (release_reserved r m)
unfolding release_reserved
released r m = ground arith

pub abandoned :
    (r : Reservation) (m : Manager)
    → ((cancel_reservation r m).1.jobs ≡ m.jobs) × SameControl m (cancel_reservation r m).1
unfolding cancel_reservation release_reserved
abandoned r m = ground arith

pub exited : (m : Manager) → ((worker_exited m).jobs ≡ m.jobs) × SameControl m (worker_exited m)
unfolding worker_exited
exited m = ground arith

-- A retried job keeps its id, and was wanted if it was not queued.
abbrev pub Retried : List Bytes → Job → Job → Type 0
Retried wanted j k =
    (k.id ≡ j.id) × (is_queued k ≡ true → (is_queued j ≡ true) ⊎ (text_mem j.id wanted ≡ true))

pub retry_one-Retried :
    (wanted : List Bytes) (m : Manager) (j : Job) → Retried wanted j (retry_one wanted m j).1
unfolding retry_one retried_job
retry_one-Retried wanted m j = ground arith

pub attempt_control : (id : Bytes) (n : ℕ) (m : Manager) → SameControl m (set_attempt id n m)
unfolding set_attempt
attempt_control id n m = Quiet-control _ _ (update_first-Quiet (has_id id) (attempted_job n) m)

pub progress_control :
    (now : ℕ) (id : Bytes) (t n : ℕ) (m : Manager) → SameControl m (update_progress now id t n m)
unfolding update_progress
progress_control now id t n m =
    let cut : ℕ = if ltb 0 n && ltb n t then n else t in
    Quiet-control _ _
      (update_first-Quiet (λ j. has_id id j && is_running j) (progressed_job now cut n) m)
