-- ===== src/Transfer/Starts.antt =====
-- How many jobs pump starts: internal/transfer/manager.go.
use host_ftp.Base.{
  ℕ, zero, suc, ◌+◌, ◌-◌, min, ◌≡◌, refl, sym, ap, ◌∙◌, if◌then◌else◌, true, false, List, [], ◌∷◌,
  some, none, inl, inr, arith, count, replace_first, Option-cases, Bool-cases,
}
use host_ftp.Transfer.Model.{
  Manager, Job, Status, Percent, Rate, Eta, is_queued, emit, reset_transfer_metrics,
}
use host_ftp.Transfer.Scheduler.{start_job, launch, pump_rounds, pump}

started-not-queued : (j : Job) → is_queued (start_job j) ≡ false
unfolding start_job is_queued reset_transfer_metrics
started-not-queued j = refl

none_queued : (js : List Job) → replace_first is_queued start_job js ≡ none → count is_queued js ≡ 0
unfolding replace_first count
none_queued [] h = refl
none_queued (j ∷ js) h = ground (arith, h, none_queued js)

one_started :
    (js ks : List Job) (k : Job)
    → replace_first is_queued start_job js ≡ some (k, ks)
    → count is_queued js ≡ suc (count is_queued ks)
unfolding replace_first count
one_started [] ks k h = absurd (ground (arith, h))
one_started (j ∷ js) ks k h = elim (Bool-cases (is_queued j)) [
  | inl e ↦ ground (arith, h, e, started-not-queued j)
  | inr e ↦ elim (Option-cases (replace_first is_queued start_job js)) [
    | inl f ↦ absurd (ground (arith, h, e, f))
    | inr ((l, ls), f) ↦ ground (arith, h, e, f, one_started js ls l f)
  ]
]

launch_lem :
    (j : Job) (js : List Job) (m : Manager)
    → ((launch j js m).running ≡ m.running + 1) × ((launch j js m).jobs ≡ js)
unfolding launch emit
launch_lem j js m = (refl, refl)

-- A job that runs and has not moved a byte.
abbrev pub running_job : Job → Job
running_job j = record j {
  status = Status.running;
  progress = Percent.zero_percent;
  bytes_transferred = 0;
  bytes_total = 0;
  bytes_per_second = Rate.no_rate;
  eta_seconds = Eta.no_eta;
  started_at = none;
}

-- The list with its first `n` queued jobs running.
unfoldable pub run_first : ℕ → List Job → List Job
run_first zero js = js
run_first (suc n) [] = []
run_first (suc n) (j ∷ js) =
    let next = run_first n js in
    let later = run_first (suc n) js in if is_queued j then running_job j ∷ next else j ∷ later

run_first-none :
    (n : ℕ) (js : List Job) → replace_first is_queued start_job js ≡ none → run_first n js ≡ js
unfolding run_first replace_first
run_first-none zero js h = refl
run_first-none (suc n) [] h = refl
run_first-none (suc n) (j ∷ js) h = ground (arith, h, run_first-none (suc n) js)

run_first-busy :
    (n : ℕ) (j : Job) (js : List Job)
    → is_queued j ≡ false
    → run_first n (j ∷ js) ≡ j ∷ run_first n js
unfolding run_first
run_first-busy zero j js h = refl
run_first-busy (suc n) j js h = rw h

run_first-queued :
    (n : ℕ) (j : Job) (js : List Job)
    → is_queued j ≡ true
    → run_first (suc n) (j ∷ js) ≡ running_job j ∷ run_first n js
unfolding run_first
run_first-queued n j js h = rw h

started_lem : (j : Job) → start_job j ≡ running_job j
unfolding start_job reset_transfer_metrics
started_lem j = refl

run_first-some :
    (n : ℕ) (js ks : List Job) (k : Job)
    → replace_first is_queued start_job js ≡ some (k, ks)
    → run_first n ks ≡ run_first (suc n) js
unfolding replace_first
run_first-some n [] ks k h = absurd (ground (arith, h))
run_first-some n (j ∷ js) ks k h = elim (Bool-cases (is_queued j)) [
  | inl e ↦
      let q : start_job j ∷ js ≡ ks = ground (arith, h, e) in
      ap (run_first n) (sym q)
      ∙ run_first-busy n (start_job j) js (started-not-queued j)
      ∙ ap (λ i. i ∷ run_first n js) (started_lem j)
      ∙ sym (run_first-queued n j js e)
  | inr e ↦ elim (Option-cases (replace_first is_queued start_job js)) [
    | inl f ↦ absurd (ground (arith, h, e, f))
    | inr ((l, ls), f) ↦
        let q : j ∷ ls ≡ ks = ground (arith, h, e, f) in
        ap (run_first n) (sym q)
        ∙ run_first-busy n j ls e
        ∙ ap (◌∷◌ j) (run_first-some n js ls l f)
        ∙ sym (run_first-busy (suc n) j js e)
  ]
]

-- `k` jobs of `m` were started.
record Started (k : ℕ) (m n : Manager) : Type 0 where
  more : n.running ≡ m.running + k
  less : count is_queued m.jobs ≡ count is_queued n.jobs + k

rounds_lem : (n : ℕ) (m : Manager) → Started (min n (count is_queued m.jobs)) m (pump_rounds n m)
unfolding pump_rounds
rounds_lem zero m = record { more = omega arith; less = omega arith }
rounds_lem (suc n) m = elim (Option-cases (replace_first is_queued start_job m.jobs)) [
  | inl e ↦
      let z = none_queued m.jobs e in
      rw (e, pump_rounds) (record { more = omega (arith, z); less = omega (arith, z) })
  | inr ((j, js), e) ↦
      let l = launch_lem j js m in
      let q = one_started m.jobs js j e in
      let w : count is_queued (launch j js m).jobs ≡ count is_queued js =
        ap (count is_queued) l.1 in
      let r = rounds_lem n (launch j js m) in
      rw (e, pump_rounds)
        (record { more = omega (arith, l.0, q, w, r.more); less = omega (arith, q, w, r.less) })
]

rounds_jobs : (n : ℕ) (m : Manager) → (pump_rounds n m).jobs ≡ run_first n m.jobs
unfolding pump_rounds
rounds_jobs zero m = unfold run_first in refl
rounds_jobs (suc n) m = elim (Option-cases (replace_first is_queued start_job m.jobs)) [
  | inl e ↦ rw (e, pump_rounds) (sym (run_first-none (suc n) m.jobs e))
  | inr ((j, js), e) ↦
      rw (e, pump_rounds)
        (rounds_jobs n (launch j js m)
          ∙ ap (run_first n) (launch_lem j js m).1
          ∙ run_first-some n m.jobs js j e)
]

open_pump :
    (limit : ℕ) (m : Manager)
    → m.accepting ≡ true
    → m.closed ≡ false
    → m.paused ≡ false
    → pump limit m ≡ pump_rounds (limit - m.running) m
unfolding pump
open_pump limit m a c p = ground (arith, a, c, p)

-- With transfers enabled and not paused pump starts as many queued jobs as there are free slots
-- under the limit, the first ones in their order, and all of them if they fit: these run, with
-- no progress yet, and every other job stays as it is.
pub pump_starts :
    (limit : ℕ) (m : Manager)
    → m.accepting ≡ true
    → m.closed ≡ false
    → m.paused ≡ false
    → ((pump limit m).running ≡ m.running + min (limit - m.running) (count is_queued m.jobs))
      × (count is_queued (pump limit m).jobs
          ≡ count is_queued m.jobs - min (limit - m.running) (count is_queued m.jobs))
      × ((pump limit m).jobs ≡ run_first (limit - m.running) m.jobs)
pump_starts limit m a c p =
    let r = rounds_lem (limit - m.running) m in
    rw (open_pump limit m a c p) (r.more, omega (arith, r.less), rounds_jobs (limit - m.running) m)
