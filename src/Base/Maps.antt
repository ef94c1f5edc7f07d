-- ===== src/Base/Maps.antt =====
-- Go maps with string keys as association lists.
use mathlib.Core.Path.{◌≡◌}
use mathlib.Core.List.{List, [], ◌∷◌}
use mathlib.Core.Option.{Option, none, some}
use native.Mathlib.Omega.{arith}
use host_ftp.Base.Tests.{if◌then◌else◌}
use host_ftp.Base.Text.{Bytes, text_eq, text_eq_refl, eq_of_text_eq}

module _ {ℓ} {V : Type ℓ} where
  unfoldable pub lookup : Bytes → List (Bytes × V) → Option V
  lookup k [] = none
  lookup k ((j, v) ∷ m) = if text_eq j k then some v else lookup k m

  -- `delete(m, k)`.
  unfoldable pub delete : Bytes → List (Bytes × V) → List (Bytes × V)
  delete k [] = []
  delete k ((j, v) ∷ m) = if text_eq j k then delete k m else (j, v) ∷ delete k m

  -- `m[k] = v`.
  unfoldable pub put : Bytes → V → List (Bytes × V) → List (Bytes × V)
  put k v m = (k, v) ∷ delete k m

  pub lookup-delete :
      (k j : Bytes) (m : List (Bytes × V))
      → lookup j (delete k m) ≡ (if text_eq k j then none else lookup j m)
  unfolding lookup delete
  lookup-delete k j [] = ground arith
  lookup-delete k j ((i, w) ∷ m) = ground (
    arith,
    eq_of_text_eq i k,
    eq_of_text_eq k j,
    eq_of_text_eq i j,
    text_eq_refl j,
    lookup-delete k j m,
  )

  pub lookup-put :
      (k j : Bytes) (v : V) (m : List (Bytes × V))
      → lookup j (put k v m) ≡ (if text_eq k j then some v else lookup j m)
  unfolding lookup put
  lookup-put k j v m = ground (arith, lookup-delete k j m)
