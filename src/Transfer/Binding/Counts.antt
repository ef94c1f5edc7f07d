-- ===== src/Transfer/Binding/Counts.antt =====
-- Binding and distinct ids as counts, and so under a move in the queue:
-- internal/transfer/queue_order.go.
use host_ftp.Base.{
  ◌≤◌, ◌≡◌, refl, sym, ◌∙◌, subst, Bytes, Bool, true, false, ◌||◌, not, List, [], ◌∷◌, Option, none,
  some, arith, count, All, All-map, text_eq, text_eq_refl, eq_of_text_eq, Bool-cases, inl, inr,
}
use host_ftp.Transfer.Model.{Manager, Job, is_queued, emit, emit_state}
use host_ftp.Transfer.Queue.{Reservation, connection_of}
use host_ftp.Transfer.Reorder.{QueuedMove, moved, move_queued}
use host_ftp.Transfer.Slots.{KeepsJobs, move_queued_lem, move_queued_cases}
use host_ftp.Transfer.System.{LacksId, Inquiry}
use host_ftp.Transfer.Binding.{IsBoundTo, Distinct, Binding, SameControl, IsCurrent-kept}

module _ (p : Job → Bool) where
  count_none : (js : List Job) → All (λ j. p j ≡ true) js → count (λ j. not (p j)) js ≡ 0
  unfolding count
  count_none [] h = refl
  count_none (j ∷ js) h = ground (arith, h.0, count_none js h.1)

  all_of_count : (js : List Job) → count (λ j. not (p j)) js ≡ 0 → All (λ j. p j ≡ true) js
  unfolding count
  all_of_count [] h = tt
  all_of_count (j ∷ js) h = elim (Bool-cases (p j)) [
    | inl e ↦ (e, all_of_count js (ground (arith, h, e)))
    | inr e ↦ absurd (ground (arith, h, e))
  ]

  -- What holds of all jobs holds of all jobs when they are kept.
  pub all_kept :
      (js ks : List Job) → KeepsJobs js ks → All (λ j. p j ≡ true) js → All (λ j. p j ≡ true) ks
  unfolding KeepsJobs
  all_kept js ks k h = all_of_count ks (k.0 (λ j. not (p j)) ∙ count_none js h)

lacks_count : (id : Bytes) (js : List Job) → LacksId id js → count (λ j. text_eq j.id id) js ≡ 0
unfolding count
lacks_count id [] h = refl
lacks_count id (j ∷ js) h = ground (arith, h.0, lacks_count id js h.1)

lacks_of_count : (id : Bytes) (js : List Job) → count (λ j. text_eq j.id id) js ≡ 0 → LacksId id js
unfolding count
lacks_of_count id [] h = tt
lacks_of_count id (j ∷ js) h = elim (Bool-cases (text_eq j.id id)) [
  | inl e ↦ absurd (ground (arith, h, e))
  | inr e ↦ (e, lacks_of_count id js (ground (arith, h, e)))
]

pub Distinct-count :
    (id : Bytes) (js : List Job) → Distinct js → count (λ j. text_eq j.id id) js ≤ 1
unfolding count
Distinct-count id [] h = omega arith
Distinct-count id (j ∷ js) h = elim (Bool-cases (text_eq j.id id)) [
  | inl e ↦
      let lacks : LacksId id js = subst (λ i. LacksId i js) (eq_of_text_eq j.id id e) h.0 in
      rw e (omega (arith, lacks_count id js lacks))
  | inr e ↦ rw e (Distinct-count id js h.1)
]

Distinct-of_count :
    (js : List Job) → ((id : Bytes) → count (λ j. text_eq j.id id) js ≤ 1) → Distinct js
unfolding count
Distinct-of_count [] h = tt
Distinct-of_count (j ∷ js) h = (
  lacks_of_count j.id js (ground (arith, h j.id, text_eq_refl j.id)),
  Distinct-of_count js (λ id. ground (arith, h id)),
)

Distinct-kept : (js ks : List Job) → KeepsJobs js ks → Distinct js → Distinct ks
unfolding KeepsJobs
Distinct-kept js ks k h =
    Distinct-of_count ks (λ id. omega (arith, k.0 (λ j. text_eq j.id id), Distinct-count id js h))

-- Binding as a test.
bound_test : Option Bytes → List (Bytes × Bytes) → Job → Bool
bound_test none conns j = not (is_queued j)
bound_test (some c) conns j = not (is_queued j) || text_eq (connection_of j.id conns) c

bound_test_lem :
    (session : Option Bytes) (conns : List (Bytes × Bytes)) (j : Job)
    → IsBoundTo session conns j
    → bound_test session conns j ≡ true
unfolding bound_test
bound_test_lem none conns j h = elim (Bool-cases (is_queued j)) [
  | inl e ↦ let (c, s, k) = h e in absurd (ground (arith, s))
  | inr e ↦ rw e refl
]
bound_test_lem (some d) conns j h = elim (Bool-cases (is_queued j)) [
  | inl e ↦
      let (c, s, k) = h e in
      let same : connection_of j.id conns ≡ d = ground (arith, s, k) in
      rw (e, same) (text_eq_refl d)
  | inr e ↦ rw e refl
]

bound_of_test :
    (session : Option Bytes) (conns : List (Bytes × Bytes)) (j : Job)
    → bound_test session conns j ≡ true
    → IsBoundTo session conns j
unfolding bound_test
bound_of_test none conns j h q = absurd (ground (arith, h, q))
bound_of_test (some d) conns j h q = (d, refl, eq_of_text_eq _ _ (ground (arith, h, q)))

drained_kept :
    (js ks : List Job)
    → KeepsJobs js ks
    → All (λ j. is_queued j ≡ false) js
    → All (λ j. is_queued j ≡ false) ks
drained_kept js ks k h =
    All-map (λ j e. ground (arith, e)) ks
      (all_kept (λ j. not (is_queued j)) js ks k (All-map (λ j e. ground (arith, e)) js h))

reported-SameControl :
    (m : Manager) (js : List Job) → SameControl m (emit_state (record m { jobs = js }))
unfolding emit_state emit
reported-SameControl m js = ground arith

pub move-Binding :
    {session : Option Bytes} {entered : List Manager} {inquiries : List Inquiry}
    {reservations : List Reservation} (id : Bytes) (move : QueuedMove) (m n : Manager)
    → move_queued id move m ≡ moved n
    → Binding m session entered inquiries reservations
    → Binding n session entered inquiries reservations
move-Binding {session} {entered} {inquiries} {reservations} id move m n h v =
    let q : SameControl m n =
      move_queued_cases (SameControl m) id move m n h (ground arith) (reported-SameControl m) in
    let k = move_queued_lem id move m n h in
    let test =
      all_kept (bound_test session m.job_connections) m.jobs n.jobs k
        (All-map (bound_test_lem session m.job_connections) m.jobs v.bound) in
    record {
      bound =
          subst (λ conns. All (IsBoundTo session conns) n.jobs) (sym q.c_connections)
            (All-map (bound_of_test session m.job_connections) n.jobs test);
      distinct = Distinct-kept m.jobs n.jobs k v.distinct;
      drained = λ a. drained_kept m.jobs n.jobs k (v.drained (sym q.c_accepting ∙ a));
      past = All-map (λ p l. omega (arith, l, q.c_generation)) entered v.past;
      inquired =
          All-map
            (λ p. IsCurrent-kept m n p.before.generation p.connection q.c_generation q.c_accepting)
            inquiries v.inquired;
      reserved =
          All-map
            (λ r. IsCurrent-kept m n r.generation r.connection_id q.c_generation q.c_accepting)
            reservations v.reserved;
    }
