-- ===== src/Transfer/Selections.antt =====
-- Selections of jobs, which CancelBatch and RetryBatch act on as a whole or not at all:
-- internal/transfer/manager.go.
pub mod Batches
use host_ftp.Base.{
  ℕ, zero, suc, ◌+◌, ◌≤◌, ◌≡◌, refl, sym, ap, subst, ◌∙◌, Bytes, Bool, true, false, not, List, [],
  ◌∷◌, some, none, inl, inr, arith, count, All, All-map, length, text_eq, text_mem, text_eq_refl,
  eq_of_text_eq, Bool-cases, if◌then◌else◌, In, hd, tl, All-In, trim_space, is_blank, Each,
}
use host_ftp.Transfer.Model.{Manager, Job, is_active}
use host_ftp.Transfer.Requests.{
  Result, ok, err, refuse, ◌>>=◌, ◌>>◌, selected_ids, collect_ids, add_id,
}
use host_ftp.Transfer.Frame.{Result-cases, cancel_inv, retry_inv}
use host_ftp.Transfer.Queue.{
  count_wanted, cancel_batch, cancel_one, check_retry, retry_locked, over_jobs, is_retriable,
  connection_of,
}
use host_ftp.Transfer.System.{LacksId}
use host_ftp.Transfer.Binding.{Distinct}
use host_ftp.Transfer.Binding.Counts.{Distinct-count}

-- Each id stands once.
abbrev pub Once : List Bytes → Type 0
Once [] = Unit {0}
Once (s ∷ ss) = (text_mem s ss ≡ false) × Once ss

add_id-Once : (s : Bytes) (ids : List Bytes) → Once ids → Once (add_id s ids)
unfolding add_id
add_id-Once s ids h = elim (Bool-cases (text_mem s ids)) [ inl e ↦ rw e h | inr e ↦ rw e (e, h) ]

collect_ids-Once :
    (ss ids wanted : List Bytes) → Once wanted → collect_ids ss wanted ≡ ok ids → Once ids
unfolding collect_ids
collect_ids-Once [] ids wanted h e = ground (arith, h, e)
collect_ids-Once (s ∷ ss) ids wanted h e =
    collect_ids-Once ss ids (add_id (trim_space s) wanted) (add_id-Once (trim_space s) wanted h)
      (ground (arith, e))

-- What selectedIDs returns has no id twice.
pub selected_ids-Once : (ss ids : List Bytes) → selected_ids ss ≡ ok ids → Once ids
unfolding selected_ids
selected_ids-Once [] ids e = absurd (ground (arith, e))
selected_ids-Once (s ∷ ss) ids e = collect_ids-Once (s ∷ ss) ids [] tt e

text_eq_sym : (s t : Bytes) → text_eq s t ≡ text_eq t s
unfolding text_eq
text_eq_sym [] [] = refl
text_eq_sym [] (b ∷ t) = refl
text_eq_sym (a ∷ s) [] = refl
text_eq_sym (a ∷ s) (b ∷ t) = ground (arith, text_eq_sym s t)

other_id :
    (w i : Bytes) (ws : List Bytes)
    → text_mem w ws ≡ false
    → text_eq w i ≡ true
    → text_mem i ws ≡ false
other_id w i ws h e = subst (λ j. text_mem j ws ≡ false) (eq_of_text_eq w i e) h

mem_cons :
    (w : Bytes) (ws : List Bytes)
    → text_mem w ws ≡ false
    → (js : List Job)
    → count (λ j. text_mem j.id (w ∷ ws)) js
      ≡ count (λ j. text_eq j.id w) js + count (λ j. text_mem j.id ws) js
unfolding count text_mem
mem_cons w ws h [] = refl
mem_cons w ws h (j ∷ js) =
    ground (arith, mem_cons w ws h js, text_eq_sym w j.id, other_id w j.id ws h)

mem_none : (js : List Job) → count (λ j. text_mem j.id []) js ≡ 0
unfolding count text_mem
mem_none [] = refl
mem_none (j ∷ js) = mem_none js

-- No more jobs are selected than ids were given, and as many only if each id names one.
selected_bound :
    (wanted : List Bytes) (js : List Job)
    → Once wanted
    → Distinct js
    → count (λ j. text_mem j.id wanted) js ≤ length wanted
selected_bound [] js h d = omega (arith, mem_none js)
selected_bound (w ∷ ws) js h d =
    omega (arith, mem_cons w ws h.0 js, Distinct-count w js d, selected_bound ws js h.1 d)

each_named :
    (wanted : List Bytes) (js : List Job)
    → Once wanted
    → Distinct js
    → count (λ j. text_mem j.id wanted) js ≡ length wanted
    → All (λ w. count (λ j. text_eq j.id w) js ≡ 1) wanted
each_named [] js h d e = tt
each_named (w ∷ ws) js h d e =
    let c = mem_cons w ws h.0 js in
    let one = Distinct-count w js d in
    let rest = selected_bound ws js h.1 d in
    (omega (arith, c, one, rest, e), each_named ws js h.1 d (omega (arith, c, one, rest, e)))

named_each :
    (wanted : List Bytes) (js : List Job)
    → Once wanted
    → All (λ w. count (λ j. text_eq j.id w) js ≡ 1) wanted
    → count (λ j. text_mem j.id wanted) js ≡ length wanted
named_each [] js h e = mem_none js
named_each (w ∷ ws) js h e = omega (arith, mem_cons w ws h.0 js, e.0, named_each ws js h.1 e.1)

some_job : (p : Job → Bool) (js : List Job) → 1 ≤ count p js → (j : Job) × In j js × (p j ≡ true)
unfolding count
some_job p [] h = absurd (omega arith)
some_job p (j ∷ js) h = elim (Bool-cases (p j)) [
  | inl e ↦ (j, hd, e)
  | inr e ↦ let (k, i, f) = some_job p js (ground (arith, h, e)) in (k, tl j i, f)
]

job_counts : (p : Job → Bool) {j : Job} {js : List Job} → In j js → p j ≡ true → 1 ≤ count p js
unfolding count
job_counts p hd e = ground (arith, e)
job_counts p (tl k i) e = ground (arith, job_counts p i e)

mem_In : (i : Bytes) (ws : List Bytes) → text_mem i ws ≡ true → In i ws
unfolding text_mem
mem_In i [] h = absurd (ground (arith, h))
mem_In i (w ∷ ws) h = elim (Bool-cases (text_eq w i)) [
  | inl e ↦ subst (λ v. In i (v ∷ ws)) (sym (eq_of_text_eq w i e)) hd
  | inr e ↦ tl w (mem_In i ws (ground (arith, h, e)))
]

In-mem : {i : Bytes} {ws : List Bytes} → In i ws → text_mem i ws ≡ true
unfolding text_mem
In-mem {i} hd = ground (arith, text_eq_refl i)
In-mem (tl w h) = ground (arith, In-mem h)

All-from {ℓ κ} : {A : Type ℓ} {P : A → Type κ} (xs : List A) → ((x : A) → In x xs → P x) → All P xs
All-from [] f = tt
All-from (x ∷ xs) f = (f x hd, All-from xs (λ y i. f y (tl x i)))

lacks_In :
    (id : Bytes) {j : Job} {js : List Job} → LacksId id js → In j js → text_eq j.id id ≡ false
lacks_In id h hd = h.0
lacks_In id h (tl k i) = lacks_In id h.1 i

-- Jobs are told apart by their ids.
same_job : {j k : Job} {js : List Job} → Distinct js → In j js → In k js → j.id ≡ k.id → j ≡ k
same_job d hd hd e = refl
same_job {j} {k} d hd (tl h i) e =
    absurd (ground (arith, lacks_In j.id d.0 i, text_eq_refl k.id, e))
same_job {j} {k} d (tl h i) hd e =
    absurd (ground (arith, lacks_In k.id d.0 i, text_eq_refl k.id, e))
same_job d (tl g i) (tl h j) e = same_job d.1 i j e

-- The id names a job that passes the check.
abbrev pub Names : (Job → Type 0) → List Job → Bytes → Type 0
Names P js id = (j : Job) × In j js × (j.id ≡ id) × P j

module _ (check : Job → Result (Unit {0})) (wanted : List Bytes) where
  Passes : Job → Type 0
  Passes j = check j ≡ ok tt

  counts_checked :
      (js : List Job) (n : ℕ)
      → count_wanted check wanted js ≡ ok n
      → (n ≡ count (λ j. text_mem j.id wanted) js)
        × All (λ j. text_mem j.id wanted ≡ true → check j ≡ ok tt) js
  unfolding count_wanted count
  counts_checked [] n h = (ground (arith, h), tt)
  counts_checked (j ∷ js) n h = elim (Bool-cases (text_mem j.id wanted)) [
    | inr e ↦
        let r = counts_checked js n (ground (arith, h, e)) in
        (ground (arith, e, r.0), (λ f. absurd (ground (arith, e, f)), r.1))
    | inl e ↦ elim (Result-cases (check j)) [
      | inr (x, f) ↦ absurd (ground (arith, h, e, f))
      | inl (u, f) ↦ elim (Result-cases (count_wanted check wanted js)) [
        | inr (x, g) ↦ absurd (ground (arith, h, e, f, g))
        | inl (k, g) ↦
            let r = counts_checked js k g in (ground (arith, h, e, f, g, r.0), (λ _. f, r.1))
      ]
    ]
  ]

  checked_counts :
      (js : List Job)
      → All (λ j. text_mem j.id wanted ≡ true → check j ≡ ok tt) js
      → count_wanted check wanted js ≡ ok (count (λ j. text_mem j.id wanted) js)
  unfolding count_wanted count
  checked_counts [] h = refl
  checked_counts (j ∷ js) h = elim (Bool-cases (text_mem j.id wanted)) [
    | inl e ↦ ground (arith, e, h.0 e, checked_counts js h.1)
    | inr e ↦ ground (arith, e, checked_counts js h.1)
  ]

  module _ (js : List Job) (once : Once wanted) (distinct : Distinct js) where
    -- The loop accepts a selection exactly if each id names a job that passes the check.
    pub accepted-Names :
        (n : ℕ)
        → count_wanted check wanted js ≡ ok n
        → n ≡ length wanted
        → All (Names (λ j. check j ≡ ok tt) js) wanted
    accepted-Names n h e =
        let c = counts_checked js n h in
        let named = each_named wanted js once distinct (sym c.0 ∙ e) in
        All-from wanted (λ w i.
          let (j, place, same) =
            some_job (λ j. text_eq j.id w) js
              (omega (arith, All-In (λ v. count (λ j. text_eq j.id v) js ≡ 1) i named)) in
          let id = eq_of_text_eq j.id w same in
          let wanted_j = subst (λ v. text_mem v wanted ≡ true) (sym id) (In-mem i) in
          (
            j,
            place,
            id,
            All-In (λ j. text_mem j.id wanted ≡ true → check j ≡ ok tt) place c.1 wanted_j,
          ))

    pub Names-accepted :
        All (Names (λ j. check j ≡ ok tt) js) wanted
        → count_wanted check wanted js ≡ ok (length wanted)
    Names-accepted h =
        let checks = All-from {P = λ j. text_mem j.id wanted ≡ true → check j ≡ ok tt} js (λ j i e.
          let (k, place, same, good) =
            All-In (Names (λ j. check j ≡ ok tt) js) (mem_In j.id wanted e) h in
          subst (λ l. check l ≡ ok tt) (same_job distinct place i same) good) in
        let single =
          All-map {Q = λ w. count (λ j. text_eq j.id w) js ≡ 1}
            (λ w n.
              let (k, place, same, good) = n in
              let found =
                job_counts (λ j. text_eq j.id w) place
                  (subst (λ v. text_eq k.id v ≡ true) same (text_eq_refl k.id)) in
              omega (arith, found, Distinct-count w js distinct))
            wanted h in
        checked_counts js checks ∙ ap ok (named_each wanted js once single)
