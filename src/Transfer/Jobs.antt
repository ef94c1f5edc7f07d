-- ===== src/Transfer/Jobs.antt =====
-- What the operations do to the job list: internal/transfer/manager.go.
use host_ftp.Base.{
  ℕ, zero, suc, ◌≡◌, refl, Bytes, Bool, true, List, [], ◌∷◌, inl, inr, arith, Option-cases, Each,
  nil, cons, Each-refl, Each-trans, replace_first, replace_first-Each,
}
use host_ftp.Remote.Errors.{GoError}
use host_ftp.Transfer.Model.{Manager, Job, emit, emit_state, is_queued}
use host_ftp.Transfer.Scheduler.{
  start_job, launch, pump_rounds, pump, finish_job, finished_job, has_id, attempted_job,
  set_attempt, progressed_job, update_progress,
}
use host_ftp.Transfer.Queue.{
  cancel_one, disable_one, disable_and_cancel, over_jobs, shutdown, shutdown_jobs, closed_job,
}
use host_ftp.Transfer.Frame.{over_jobs-Each, update_first-Each, pump_cases}

-- The job keeps its id, and does not become queued.
pub record Calm (j k : Job) : Type 0 where
  pub same_id : k.id ≡ j.id
  pub not_requeued : is_queued k ≡ true → is_queued j ≡ true

pub Calm-refl : (j : Job) → Calm j j
Calm-refl j = ground arith

pub Calm-trans : (j k l : Job) → Calm j k → Calm k l → Calm j l
Calm-trans j k l p q = ground arith

pub start_job-Calm : (j : Job) → Calm j (start_job j)
unfolding start_job is_queued
start_job-Calm j = ground arith

finished_job-Calm : (ctx_done : Bool) (e : GoError) (j : Job) → Calm j (finished_job ctx_done e j)
unfolding finished_job is_queued
finished_job-Calm ctx_done e j = ground arith

attempted_job-Calm : (n : ℕ) (j : Job) → Calm j (attempted_job n j)
unfolding attempted_job is_queued
attempted_job-Calm n j = ground arith

progressed_job-Calm : (now t n : ℕ) (j : Job) → Calm j (progressed_job now t n j)
unfolding progressed_job is_queued
progressed_job-Calm now t n j = ground arith

closed_job-Calm : (j : Job) → Calm j (closed_job j)
unfolding closed_job is_queued
closed_job-Calm j = ground arith

cancel_one-Calm : (wanted : List Bytes) (m : Manager) (j : Job) → Calm j (cancel_one wanted m j).1
unfolding cancel_one is_queued
cancel_one-Calm wanted m j = ground arith

disable_one-Calm : (why : Bytes) (m : Manager) (j : Job) → Calm j (disable_one why m j).1
unfolding disable_one is_queued
disable_one-Calm why m j = ground arith

-- The lists agree in their ids, and no job has become queued.
abbrev pub IsCalm : Manager → Manager → Type 0
IsCalm m n = Each Calm m.jobs n.jobs

launch-jobs : (j : Job) (js : List Job) (m : Manager) → (launch j js m).jobs ≡ js
unfolding launch emit
launch-jobs j js m = refl

pump_rounds-IsCalm : (n : ℕ) (m : Manager) → IsCalm m (pump_rounds n m)
unfolding pump_rounds
pump_rounds-IsCalm zero m = Each-refl Calm-refl m.jobs
pump_rounds-IsCalm (suc n) m = elim (Option-cases (replace_first is_queued start_job m.jobs)) [
  | inl e ↦ rw (e, pump_rounds) (Each-refl Calm-refl m.jobs)
  | inr ((j, js), e) ↦
      rw (e, pump_rounds)
        (Each-trans Calm-trans
          (replace_first-Each is_queued start_job m.jobs Calm-refl (λ k _. start_job-Calm k) e)
          (pump_rounds-IsCalm n (launch j js m)))
]

pub pump-IsCalm : (limit : ℕ) (m : Manager) → IsCalm m (pump limit m)
pump-IsCalm limit m =
    pump_cases (IsCalm m) limit m (Each-refl Calm-refl m.jobs) (λ _ _ _. pump_rounds-IsCalm _ m)

pub cancel-IsCalm : (wanted : List Bytes) (m : Manager) → IsCalm m (over_jobs (cancel_one wanted) m)
cancel-IsCalm wanted m = over_jobs-Each (cancel_one wanted) (cancel_one-Calm wanted) m

pub finish_job-IsCalm :
    (ctx_done : Bool) (id : Bytes) (e : GoError) (m : Manager)
    → IsCalm m (finish_job ctx_done id e m)
unfolding finish_job
finish_job-IsCalm ctx_done id e m =
    update_first-Each (has_id id) _ m Calm-refl (λ j _. finished_job-Calm ctx_done e j)

pub set_attempt-IsCalm : (id : Bytes) (n : ℕ) (m : Manager) → IsCalm m (set_attempt id n m)
unfolding set_attempt
set_attempt-IsCalm id n m =
    update_first-Each (has_id id) _ m Calm-refl (λ j _. attempted_job-Calm n j)

pub update_progress-IsCalm :
    (now : ℕ) (id : Bytes) (t n : ℕ) (m : Manager) → IsCalm m (update_progress now id t n m)
unfolding update_progress
update_progress-IsCalm now id t n m =
    update_first-Each _ _ m Calm-refl (λ j _. progressed_job-Calm now _ n j)

shutdown_jobs-Each : (js : List Job) → Each Calm js (shutdown_jobs js)
unfolding shutdown_jobs
shutdown_jobs-Each [] = nil
shutdown_jobs-Each (j ∷ js) = cons (closed_job-Calm j) (shutdown_jobs-Each js)

pub shutdown-IsCalm : (m : Manager) → IsCalm m (shutdown m)
unfolding shutdown
shutdown-IsCalm m = shutdown_jobs-Each m.jobs

pub disable-IsCalm : (why : Bytes) (m : Manager) → IsCalm m (disable_and_cancel why m)
unfolding disable_and_cancel emit_state emit
disable-IsCalm why m = over_jobs-Each (disable_one _) (disable_one-Calm _) _
