-- ===== src/Transfer/Slots.antt =====
-- That moving a queued job loses no job and leaves the others in their slots:
-- internal/transfer/queue_order.go.
mod Copies
use host_ftp.Base.{
  ℕ, zero, suc, ◌+◌, ◌-◌, ◌≤◌, ◌<◌, ◌≡◌, refl, subst, ltb→lt, ◌∙◌, Bytes, Bool, true, false, List,
  [], ◌∷◌, some, arith, ltb, ◌==◌, if◌then◌else◌, length, get_elem?, set, count, Option-cases,
  Bool-cases, inl, inr,
}
use host_ftp.Transfer.Model.{Job, Manager, is_queued, emit, emit_state}
use host_ftp.Transfer.Reorder.{
  QueuedMove, moved, index_of, queued_slots, position_in, destination, copy_slot, shift_down,
  shift_up, put_slot, reordered, move_at, move_queued,
}
use host_ftp.Transfer.Slots.Copies.{IsCovered, copy_slot_lem, put_slot_lem, reordered_lem}

-- No slot is the index k.
IsAway : ℕ → List ℕ → Type 0
IsAway k slots = (p i : ℕ) → get_elem? slots p ≡ some i → (i == k) ≡ false

get-set_other :
    (js : List Job) (i k : ℕ) (y : Job)
    → (i == k) ≡ false
    → get_elem? (set js i y) k ≡ get_elem? js k
get-set_other [] i k y h = refl
get-set_other (j ∷ js) zero zero y h = absurd (ground (arith, h))
get-set_other (j ∷ js) zero (suc k) y h = refl
get-set_other (j ∷ js) (suc i) zero y h = refl
get-set_other (j ∷ js) (suc i) (suc k) y h = get-set_other js i k y (ground (arith, h))

copy_other :
    (k : ℕ) (slots : List ℕ) (target from : ℕ) (js : List Job)
    → IsAway k slots
    → get_elem? (copy_slot slots target from js) k ≡ get_elem? js k
unfolding copy_slot IsAway
copy_other k slots target from js w = elim (Option-cases (get_elem? slots target)) [
  | inl e ↦ ground (arith, e)
  | inr (t, e) ↦ elim (Option-cases (get_elem? slots from)) [
    | inl g ↦ ground (arith, e, g)
    | inr (f, g) ↦ elim (Option-cases (get_elem? js f)) [
      | inl h ↦ ground (arith, e, g, h)
      | inr (j, h) ↦
          rw (copy_slot_lem slots target from t f j js e g h)
            (get-set_other js t k j (w target t e))
    ]
  ]
]

put_other :
    (k : ℕ) (slots : List ℕ) (p : ℕ) (j : Job) (js : List Job)
    → IsAway k slots
    → get_elem? (put_slot slots p j js) k ≡ get_elem? js k
unfolding put_slot IsAway
put_other k slots p j js w = elim (Option-cases (get_elem? slots p)) [
  | inl e ↦ ground (arith, e)
  | inr (t, e) ↦ rw (put_slot_lem slots p t j js e) (get-set_other js t k j (w p t e))
]

shift_down_other :
    (k : ℕ) (slots : List ℕ) (n p : ℕ) (js : List Job)
    → IsAway k slots
    → get_elem? (shift_down slots n p js) k ≡ get_elem? js k
unfolding shift_down
shift_down_other k slots zero p js w = refl
shift_down_other k slots (suc n) p js w =
    shift_down_other k slots n (p - 1) (copy_slot slots p (p - 1) js) w
    ∙ copy_other k slots p (p - 1) js w

shift_up_other :
    (k : ℕ) (slots : List ℕ) (n p : ℕ) (js : List Job)
    → IsAway k slots
    → get_elem? (shift_up slots n p js) k ≡ get_elem? js k
unfolding shift_up
shift_up_other k slots zero p js w = refl
shift_up_other k slots (suc n) p js w =
    shift_up_other k slots n (p + 1) (copy_slot slots p (p + 1) js) w
    ∙ copy_other k slots p (p + 1) js w

reordered_other :
    (k : ℕ) (slots : List ℕ) (p d : ℕ) (sel : Job) (js : List Job)
    → IsAway k slots
    → get_elem? (reordered slots p d sel js) k ≡ get_elem? js k
unfolding reordered
reordered_other k slots p d sel js w = elim (Bool-cases (ltb d p)) [
  | inl e ↦ rw e (put_other k slots d sel _ w ∙ shift_down_other k slots (p - d) p js w)
  | inr e ↦ rw e (put_other k slots d sel _ w ∙ shift_up_other k slots (d - p) p js w)
]

-- A slot is the index of a queued job.
later_slot :
    (j : Job) (js : List Job) (n i : ℕ)
    → (m : ℕ) × (x : Job) × (i ≡ suc n + m) × (get_elem? js m ≡ some x) × (is_queued x ≡ true)
    → (m : ℕ) × (x : Job) × (i ≡ n + m) × (get_elem? (j ∷ js) m ≡ some x) × (is_queued x ≡ true)
later_slot j js n i (m, x, e, g, h) = (suc m, x, omega (arith, e), g, h)

slots_lem :
    (js : List Job) (n p i : ℕ)
    → get_elem? (queued_slots n js) p ≡ some i
    → (m : ℕ) × (x : Job) × (i ≡ n + m) × (get_elem? js m ≡ some x) × (is_queued x ≡ true)
unfolding queued_slots
slots_lem [] n p i h = absurd (ground (arith, h))
slots_lem (j ∷ js) n zero i h = elim (Bool-cases (is_queued j)) [
  | inl e ↦ (0, j, ground (arith, h, e), refl, e)
  | inr e ↦ later_slot j js n i (slots_lem js (suc n) zero i (ground (arith, h, e)))
]
slots_lem (j ∷ js) n (suc p) i h = elim (Bool-cases (is_queued j)) [
  | inl e ↦ later_slot j js n i (slots_lem js (suc n) p i (ground (arith, h, e)))
  | inr e ↦ later_slot j js n i (slots_lem js (suc n) (suc p) i (ground (arith, h, e)))
]

slots-IsCovered : (js : List Job) → IsCovered (queued_slots 0 js) js
unfolding IsCovered
slots-IsCovered js p i g =
    let (m, x, e, h, q) = slots_lem js 0 p i g in
    let same : m ≡ i = omega (arith, e) in (x, subst (λ k. get_elem? js k ≡ some x) same h)

slots-IsAway :
    (js : List Job) (k : ℕ) (x : Job)
    → get_elem? js k ≡ some x
    → is_queued x ≡ false
    → IsAway k (queued_slots 0 js)
unfolding IsAway
slots-IsAway js k x there idle p i g =
    let (m, y, e, h, q) = slots_lem js 0 p i g in
    let same : m ≡ i = omega (arith, e) in
    elim (Bool-cases (i == k)) [
      | inr d ↦ d
      | inl d ↦
          let meet : m ≡ k = ground (arith, d, same) in
          absurd (ground (arith, there, idle, q, subst (λ z. get_elem? js z ≡ some y) meet h))
    ]

position_lem :
    (i : ℕ) (slots : List ℕ) (p : ℕ)
    → position_in i slots ≡ some p
    → (get_elem? slots p ≡ some i) × (p < length slots)
unfolding position_in
position_lem i [] p h = absurd (ground (arith, h))
position_lem i (s ∷ slots) zero h = elim (Bool-cases (s == i)) [
  | inl e ↦ (ground (arith, e), omega arith)
  | inr e ↦ elim (Option-cases (position_in i slots)) [
    | inl f ↦ absurd (ground (arith, h, e, f))
    | inr (r, f) ↦ absurd (ground (arith, h, e, f))
  ]
]
position_lem i (s ∷ slots) (suc p) h = elim (Bool-cases (s == i)) [
  | inl e ↦ absurd (ground (arith, h, e))
  | inr e ↦ elim (Option-cases (position_in i slots)) [
    | inl f ↦ absurd (ground (arith, h, e, f))
    | inr (r, f) ↦
        let same : r ≡ p = ground (arith, h, e, f) in
        let (g, l) = position_lem i slots r f in
        (subst (λ z. get_elem? slots z ≡ some i) same g, omega (arith, l, same))
  ]
]

destination_lem : (move : QueuedMove) (p n : ℕ) → p < n → destination move p n < n
unfolding destination
destination_lem QueuedMove.move_top p n h = omega arith
destination_lem QueuedMove.move_up p n h = ground arith
destination_lem QueuedMove.move_down p n h = ground arith
destination_lem QueuedMove.move_bottom p n h = omega arith

-- The same jobs, and each that is not queued in its old place.
unfoldable pub KeepsJobs : List Job → List Job → Type 0
KeepsJobs old new =
    ((q : Job → Bool) → count q new ≡ count q old)
    × ((k : ℕ) (x : Job)
        → get_elem? old k ≡ some x
        → is_queued x ≡ false
        → get_elem? new k ≡ some x)

move_at_lem :
    (move : QueuedMove) (index : ℕ) (selected : Job) (m m' : Manager)
    → get_elem? m.jobs index ≡ some selected
    → move_at move index selected m ≡ moved m'
    → KeepsJobs m.jobs m'.jobs
unfolding move_at KeepsJobs emit_state emit
move_at_lem move index selected m m' s h =
    let slots = queued_slots 0 m.jobs in
    elim (Option-cases (position_in index slots)) [
      | inl e ↦ absurd (ground (arith, h, e))
      | inr (p, e) ↦
          let (g, l) = position_lem index slots p e in
          let d = destination move p (length slots) in
          elim (Bool-cases (d == p)) [
            | inl f ↦
                let same : m ≡ m' = ground (arith, h, e, f) in
                subst (λ z. KeepsJobs m.jobs z.jobs) same ((λ q. refl), λ k x there idle. there)
            | inr f ↦
                let same : emit_state (record m { jobs = reordered slots p d selected m.jobs })
                    ≡ m' =
                  ground (arith, h, e, f) in
                subst (λ z. KeepsJobs m.jobs z.jobs) same
                  (
                    (λ q.
                        reordered_lem q slots p d index selected m.jobs (slots-IsCovered m.jobs) l
                          (destination_lem move p (length slots) l) g s),
                    λ k x there idle.
                        reordered_other k slots p d selected m.jobs
                          (slots-IsAway m.jobs k x there idle)
                        ∙ there,
                  )
          ]
    ]

-- A move of a queued job that returns nil leaves the same jobs, as often as before, and each job
-- that is not queued in its place.
pub move_queued_lem :
    (id : Bytes) (move : QueuedMove) (m m' : Manager)
    → move_queued id move m ≡ moved m'
    → KeepsJobs m.jobs m'.jobs
unfolding move_queued
move_queued_lem id move m m' h = elim (Option-cases (index_of id m.jobs)) [
  | inl e ↦ absurd (ground (arith, h, e))
  | inr (i, e) ↦ elim (Option-cases (get_elem? m.jobs i)) [
    | inl s ↦ absurd (ground (arith, h, e, s))
    | inr (j, s) ↦ move_at_lem move i j m m' s (ground (arith, h, e, s))
  ]
]

move_at_cases {κ} :
    (P : Manager → Type κ) (move : QueuedMove) (index : ℕ) (selected : Job) (m m' : Manager)
    → move_at move index selected m ≡ moved m'
    → P m
    → ((js : List Job) → P (emit_state (record m { jobs = js })))
    → P m'
unfolding move_at
move_at_cases P move index selected m m' h same new =
    let slots = queued_slots 0 m.jobs in
    elim (Option-cases (position_in index slots)) [
      | inl e ↦ absurd (ground (arith, h, e))
      | inr (p, e) ↦
          let d = destination move p (length slots) in
          elim (Bool-cases (d == p)) [
            | inl f ↦ let eq : m ≡ m' = ground (arith, h, e, f) in subst P eq same
            | inr f ↦
                let eq : emit_state (record m { jobs = reordered slots p d selected m.jobs }) ≡ m' =
                  ground (arith, h, e, f) in
                subst P eq (new _)
          ]
    ]

-- A move changes the list of jobs and reports it, or changes nothing.
pub move_queued_cases {κ} :
    (P : Manager → Type κ) (id : Bytes) (move : QueuedMove) (m m' : Manager)
    → move_queued id move m ≡ moved m'
    → P m
    → ((js : List Job) → P (emit_state (record m { jobs = js })))
    → P m'
unfolding move_queued
move_queued_cases P id move m m' h same new = elim (Option-cases (index_of id m.jobs)) [
  | inl e ↦ absurd (ground (arith, h, e))
  | inr (i, e) ↦ elim (Option-cases (get_elem? m.jobs i)) [
    | inl s ↦ absurd (ground (arith, h, e, s))
    | inr (j, s) ↦ move_at_cases P move i j m m' (ground (arith, h, e, s)) same new
  ]
]

count_all : (js : List Job) → count (λ _. true) js ≡ length js
unfolding count
count_all [] = refl
count_all (j ∷ js) = omega (arith, count_all js)

pub move_queued-length :
    (id : Bytes) (move : QueuedMove) (m m' : Manager)
    → move_queued id move m ≡ moved m'
    → length m'.jobs ≡ length m.jobs
unfolding KeepsJobs
move_queued-length id move m m' h =
    omega
      (arith, (move_queued_lem id move m m' h).0 (λ _. true), count_all m.jobs, count_all m'.jobs)
