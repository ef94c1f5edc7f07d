-- ===== src/Transfer/Slots/Copies.antt =====
-- The copies that a move makes, seen with the moved job in the slot that they leave free:
-- internal/transfer/queue_order.go.
use host_ftp.Base.{
  ℕ, zero, suc, ◌+◌, ◌-◌, ◌≤◌, ◌<◌, ◌≡◌, refl, subst, ltb→lt, ◌∙◌, Bool, List, [], ◌∷◌, some, arith,
  ltb, if◌then◌else◌, length, get_elem?, set, count, Bool-cases, inl, inr,
}
use host_ftp.Transfer.Model.{Job}
use host_ftp.Transfer.Reorder.{copy_slot, shift_down, shift_up, put_slot, reordered}

abbrev one_if : Bool → ℕ
one_if b = if b then 1 else 0

count-set :
    (p : Job → Bool) (js : List Job) (i : ℕ) (x y : Job)
    → get_elem? js i ≡ some x
    → count p (set js i y) + one_if (p x) ≡ count p js + one_if (p y)
unfolding count
count-set p [] i x y h = absurd (ground (arith, h))
count-set p (j ∷ js) zero x y h = ground (arith, h)
count-set p (j ∷ js) (suc i) x y h = ground (arith, count-set p js i x y h)

get-set :
    (js : List Job) (i k : ℕ) (x y : Job)
    → get_elem? js i ≡ some x
    → get_elem? js k ≡ some y
    → get_elem? (set js i y) k ≡ some y
get-set [] i k x y h g = absurd (ground (arith, h))
get-set (j ∷ js) zero zero x y h g = refl
get-set (j ∷ js) zero (suc k) x y h g = g
get-set (j ∷ js) (suc i) zero x y h g = g
get-set (j ∷ js) (suc i) (suc k) x y h g = get-set js i k x y h g

-- Each slot is the index of a job.
unfoldable pub IsCovered : List ℕ → List Job → Type 0
IsCovered slots js = (p i : ℕ) → get_elem? slots p ≡ some i → (j : Job) × (get_elem? js i ≡ some j)

in_range : (slots : List ℕ) (p : ℕ) → p < length slots → (i : ℕ) × (get_elem? slots p ≡ some i)
in_range [] p h = absurd (omega arith)
in_range (s ∷ slots) zero h = (s, refl)
in_range (s ∷ slots) (suc p) h = in_range slots p (omega arith)

set_still_there :
    (js : List Job) (i k : ℕ) (y j : Job)
    → get_elem? js k ≡ some j
    → (x : Job) × (get_elem? (set js i y) k ≡ some x)
set_still_there [] i k y j h = absurd (ground (arith, h))
set_still_there (x ∷ js) zero zero y j h = (y, refl)
set_still_there (x ∷ js) zero (suc k) y j h = (j, h)
set_still_there (x ∷ js) (suc i) zero y j h = (x, refl)
set_still_there (x ∷ js) (suc i) (suc k) y j h = set_still_there js i k y j h

set-IsCovered :
    (slots : List ℕ) (js : List Job) (i : ℕ) (y : Job)
    → IsCovered slots js
    → IsCovered slots (set js i y)
unfolding IsCovered
set-IsCovered slots js i y c p k g = let (j, h) = c p k g in set_still_there js i k y j h

pub copy_slot_lem :
    (slots : List ℕ) (target from t f : ℕ) (j : Job) (js : List Job)
    → get_elem? slots target ≡ some t
    → get_elem? slots from ≡ some f
    → get_elem? js f ≡ some j
    → copy_slot slots target from js ≡ set js t j
unfolding copy_slot
copy_slot_lem slots target from t f j js gt gf g = ground (arith, gt, gf, g)

pub put_slot_lem :
    (slots : List ℕ) (p i : ℕ) (j : Job) (js : List Job)
    → get_elem? slots p ≡ some i
    → put_slot slots p j js ≡ set js i j
unfolding put_slot
put_slot_lem slots p i j js g = ground (arith, g)

-- One copy, seen with the moved job put into the slot that the copy leaves free.
copy_lem :
    (q : Job → Bool) (slots : List ℕ) (target from : ℕ) (sel : Job) (js : List Job)
    → IsCovered slots js
    → target < length slots
    → from < length slots
    → IsCovered slots (copy_slot slots target from js)
      × (count q (put_slot slots from sel (copy_slot slots target from js))
          ≡ count q (put_slot slots target sel js))
unfolding IsCovered
copy_lem q slots target from sel js c ht hf =
    let (t, gt) = in_range slots target ht in
    let (f, gf) = in_range slots from hf in
    let (x, jx) = c target t gt in
    let (y, jy) = c from f gf in
    let a = count-set q js t x y jx in
    let b = count-set q js t x sel jx in
    let d = count-set q (set js t y) f y sel (get-set js t f x y jx jy) in
    let e = copy_slot_lem slots target from t f y js gt gf jy in
    rw (e, put_slot_lem slots from f sel (set js t y) gf, put_slot_lem slots target t sel js gt)
      (set-IsCovered slots js t y c, omega (arith, a, b, d))

shift_down_lem :
    (q : Job → Bool) (slots : List ℕ) (sel : Job) (n p : ℕ) (js : List Job)
    → IsCovered slots js
    → n ≤ p
    → p < length slots
    → count q (put_slot slots (p - n) sel (shift_down slots n p js))
      ≡ count q (put_slot slots p sel js)
unfolding shift_down
shift_down_lem q slots sel zero p js c h k = let i : p - 0 ≡ p = omega arith in rw i refl
shift_down_lem q slots sel (suc n) p js c h k =
    let (c', e) = copy_lem q slots p (p - 1) sel js c k (omega arith) in
    let rest =
      shift_down_lem q slots sel n (p - 1) (copy_slot slots p (p - 1) js) c' (omega arith)
        (omega arith) in
    let i : p - suc n ≡ p - 1 - n = omega (arith, h) in rw i (rest ∙ e)

shift_up_lem :
    (q : Job → Bool) (slots : List ℕ) (sel : Job) (n p : ℕ) (js : List Job)
    → IsCovered slots js
    → p + n < length slots
    → count q (put_slot slots (p + n) sel (shift_up slots n p js))
      ≡ count q (put_slot slots p sel js)
unfolding shift_up
shift_up_lem q slots sel zero p js c k = let i : p + 0 ≡ p = omega arith in rw i refl
shift_up_lem q slots sel (suc n) p js c k =
    let (c', e) = copy_lem q slots p (p + 1) sel js c (omega arith) (omega arith) in
    let rest = shift_up_lem q slots sel n (p + 1) (copy_slot slots p (p + 1) js) c' (omega arith) in
    let i : p + suc n ≡ p + 1 + n = omega arith in rw i (rest ∙ e)

pub reordered_lem :
    (q : Job → Bool) (slots : List ℕ) (p d i : ℕ) (sel : Job) (js : List Job)
    → IsCovered slots js
    → p < length slots
    → d < length slots
    → get_elem? slots p ≡ some i
    → get_elem? js i ≡ some sel
    → count q (reordered slots p d sel js) ≡ count q js
unfolding reordered
reordered_lem q slots p d i sel js c hp hd g s =
    let same : count q (put_slot slots p sel js) ≡ count q js =
      rw (put_slot_lem slots p i sel js g) (omega (arith, count-set q js i sel sel s)) in
    elim (Bool-cases (ltb d p)) [
      | inl e ↦
          let k : p - (p - d) ≡ d = omega (arith, ltb→lt d p e) in
          let r = shift_down_lem q slots sel (p - d) p js c (omega arith) hp in
          rw e (
            subst
              (λ x.
                count q (put_slot slots x sel (shift_down slots (p - d) p js))
                ≡ count q (put_slot slots p sel js))
              k r
            ∙ same)
      | inr e ↦
          let k : p + (d - p) ≡ d = ground (arith, e) in
          let r = shift_up_lem q slots sel (d - p) p js c (ground (arith, k, hd)) in
          rw e (
            subst
              (λ x.
                count q (put_slot slots x sel (shift_up slots (d - p) p js))
                ≡ count q (put_slot slots p sel js))
              k r
            ∙ same)
    ]
