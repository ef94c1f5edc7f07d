-- ===== src/Base/Pointwise.antt =====
-- Lists compared entry by entry, and what the traversals of `Lists` change.
use Prim.Native.Nat.{suc}
use mathlib.Core.Path.{◌≡◌, refl, ap, subst}
use mathlib.Core.Logic.{inl, inr}
use mathlib.Core.Bool.{Bool, true}
use mathlib.Core.List.{List, [], ◌∷◌}
use mathlib.Core.Option.{some}
use native.Mathlib.Omega.{arith}
use host_ftp.Base.Tests.{Bool-cases, Option-cases}
use host_ftp.Base.Lists.{All, length, replace_first, map_accum}

-- Lists of one length whose entries are related in turn.
pub data Each {ℓ κ} {A : Type ℓ} (R : A → A → Type κ) : List A → List A → Type (ℓ ⊔ κ) where
  nil : Each R [] []
  cons : {x y : A} {xs ys : List A} → R x y → Each R xs ys → Each R (x ∷ xs) (y ∷ ys)

pub data In {ℓ} {A : Type ℓ} (x : A) : List A → Type ℓ where
  hd : {xs : List A} → In x (x ∷ xs)
  tl : {xs : List A} (y : A) → In x xs → In x (y ∷ xs)

pub All-In {ℓ κ} : {A : Type ℓ} (P : A → Type κ) {x : A} {xs : List A} → In x xs → All P xs → P x
All-In P hd h = h.0
All-In P (tl y i) h = All-In P i h.1

module _ {ℓ κ μ} {A : Type ℓ} {R : A → A → Type κ} (P Q : A → Type μ) where
  pub All-Each :
      {xs ys : List A} → ((x y : A) → R x y → P x → Q y) → Each R xs ys → All P xs → All Q ys
  All-Each step nil h = tt
  All-Each step (cons r e) h = (step _ _ r h.0, All-Each step e h.1)

module _ {ℓ κ} {A : Type ℓ} {R : A → A → Type κ} where
  pub Each-refl : ((x : A) → R x x) → (xs : List A) → Each R xs xs
  Each-refl r [] = nil
  Each-refl r (x ∷ xs) = cons (r x) (Each-refl r xs)

  -- The loop that changes the first entry that passes its test.
  pub replace_first-Each :
      (p : A → Bool) (f : A → A) (xs : List A) {y : A} {ys : List A}
      → ((x : A) → R x x)
      → ((x : A) → p x ≡ true → R x (f x))
      → replace_first p f xs ≡ some (y, ys)
      → Each R xs ys
  unfolding replace_first
  replace_first-Each p f [] r s h = absurd (cc)
  replace_first-Each p f (x ∷ xs) {y} {ys} r s h = elim (Bool-cases (p x)) [
    | inl e ↦ subst (Each R (x ∷ xs)) (ground arith) (cons (s x e) (Each-refl r xs))
    | inr e ↦ elim (Option-cases (replace_first p f xs)) [
      | inl n ↦ absurd (ground arith)
      | inr ((z, zs), found) ↦
          subst (Each R (x ∷ xs)) (ground arith) (cons (r x) (replace_first-Each p f xs r s found))
    ]
  ]

  -- The loop over a whole list, with a state.
  pub map_accum-Each {μ} :
      {S : Type μ} (f : S → A → S × A)
      → ((s : S) (x : A) → R x (f s x).1)
      → (s : S) (xs : List A) → Each R xs (map_accum f s xs).1
  unfolding map_accum
  map_accum-Each f h s [] = nil
  map_accum-Each f h s (x ∷ xs) = cons (h s x) (map_accum-Each f h (f s x).0 xs)

-- What a step of the loop keeps of the state, the loop keeps.
pub map_accum-state {ℓ μ ν} :
    {A : Type ℓ} {S : Type μ} (P : S → Type ν) (f : S → A → S × A)
    → ((s : S) (x : A) → P s → P (f s x).0)
    → (s : S) (xs : List A) → P s
    → P (map_accum f s xs).0
unfolding map_accum
map_accum-state P f h s [] v = v
map_accum-state P f h s (x ∷ xs) v = map_accum-state P f h (f s x).0 xs (h s x v)

pub length-Each {ℓ κ} :
    {A : Type ℓ} {R : A → A → Type κ} {xs ys : List A} → Each R xs ys → length ys ≡ length xs
length-Each nil = refl
length-Each (cons r e) = ap suc (length-Each e)

pub Each-trans {ℓ κ} :
    {A : Type ℓ} {R : A → A → Type κ}
    → ((x y z : A) → R x y → R y z → R x z)
    → {xs ys zs : List A} → Each R xs ys
    → Each R ys zs
    → Each R xs zs
Each-trans t nil nil = nil
Each-trans t (cons r e) (cons q f) = cons (t _ _ _ r q) (Each-trans t e f)
