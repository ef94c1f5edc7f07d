-- ===== src/Update/Versions.antt =====
-- internal/updatecheck/updatecheck.go: version, parseVersion, String and compare.
use host_ftp.Base.{
  ℕ, ◌+◌, ◌*◌, ◌<◌, ◌≤◌, ◌≡◌, ◌≢◌, inl, inr, ℤ, pos, negsuc, Bytes, ◌||◌, not, List, [], ◌∷◌, ◌++◌,
  Option, none, some, arith, ltb, ◌==◌, if◌then◌else◌, Option-cases, is_blank, split, trim_space,
  all_digits, leading_zero, digits_value, digits_from,
}

pub record Version : Type 0 where
  pub major : ℕ
  pub minor : ℕ
  pub patch : ℕ

-- `strconv.Atoi` on digits: what is above its limit is above 999999 too.
unfoldable pub parse_part : Bytes → Option ℕ
unfolding all_digits leading_zero digits_value
parse_part part =
    if is_blank part || leading_zero part || not (all_digits part)
    then none
    else if ltb 999999 (digits_value 0 part)
    then none
    else some (digits_value 0 part)

unfoldable pub parse_parts : List Bytes → Option Version
unfolding parse_part
parse_parts (a ∷ b ∷ c ∷ []) = elim (parse_part a) [
  | none ↦ none
  | some x ↦ elim (parse_part b) [
    | none ↦ none
    | some y ↦ elim (parse_part c) [
      | none ↦ none
      | some z ↦ some (record { major = x; minor = y; patch = z })
    ]
  ]
]
parse_parts _ = none

unfoldable pub parse_version : Bytes → Option Version
unfolding parse_parts
parse_version value = parse_parts (split b'.' (trim_space value))

-- A part has six digits at most.
unfoldable pub format_part : ℕ → Bytes
unfolding digits_from
format_part n = digits_from 7 n

unfoldable pub format_version : Version → Bytes
unfolding format_part
format_version v = format_part v.major ++ b'.' ∷ (format_part v.minor ++ b'.' ∷ format_part v.patch)

unfoldable pub compare_versions : Version → Version → ℤ
compare_versions v w =
    if not (v.major == w.major)
    then if ltb v.major w.major then negsuc 0 else pos 1
    else if not (v.minor == w.minor)
    then if ltb v.minor w.minor then negsuc 0 else pos 1
    else if ltb v.patch w.patch
    then negsuc 0
    else if ltb w.patch v.patch
    then pos 1
    else pos 0

-- The number that a version stands for when each part has six digits.
pub rank : Version → ℕ
rank v = (v.major * 1000000 + v.minor) * 1000000 + v.patch

-- All parts are in the range that parseVersion allows.
unfoldable pub IsSmall : Version → Type 0
IsSmall v = (v.major ≤ 999999) × (v.minor ≤ 999999) × (v.patch ≤ 999999)

-- The comparison is that of numbers: it has the sign of the difference of the ranks.
pub newer_lem :
    (v w : Version) → IsSmall v → IsSmall w → compare_versions v w ≡ pos 1 → rank w < rank v
unfolding compare_versions IsSmall rank
newer_lem v w h k e = ground (arith, h, k, e)

pub not_newer_lem :
    (v w : Version) → IsSmall v → IsSmall w → compare_versions v w ≢ pos 1 → rank v ≤ rank w
unfolding compare_versions IsSmall rank
not_newer_lem v w h k e = ground (arith, h, k, e)

part_small : (s : Bytes) (n : ℕ) → parse_part s ≡ some n → n ≤ 999999
unfolding parse_part
part_small s n h = ground (arith, h)

parts-IsSmall : (ps : List Bytes) (v : Version) → parse_parts ps ≡ some v → IsSmall v
unfolding parse_parts IsSmall
parts-IsSmall (a ∷ b ∷ c ∷ []) v h = elim (Option-cases (parse_part a)) [
  | inl e ↦ absurd (ground (arith, h, e))
  | inr (x, e) ↦ elim (Option-cases (parse_part b)) [
    | inl f ↦ absurd (ground (arith, h, e, f))
    | inr (y, f) ↦ elim (Option-cases (parse_part c)) [
      | inl g ↦ absurd (ground (arith, h, e, f, g))
      | inr (z, g) ↦
          ground (arith, h, e, f, g, part_small a x e, part_small b y f, part_small c z g)
    ]
  ]
]
parts-IsSmall [] v h = absurd (ground (arith, h))
parts-IsSmall (a ∷ []) v h = absurd (ground (arith, h))
parts-IsSmall (a ∷ b ∷ []) v h = absurd (ground (arith, h))
parts-IsSmall (a ∷ b ∷ c ∷ d ∷ ps) v h = absurd (ground (arith, h))

-- What is parsed is in range.
pub parse_version-IsSmall : (s : Bytes) (v : Version) → parse_version s ≡ some v → IsSmall v
unfolding parse_version
parse_version-IsSmall s v h = parts-IsSmall _ v h
