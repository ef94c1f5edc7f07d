-- ===== src/Update/Printing.antt =====
-- internal/updatecheck/updatecheck.go: what `String` prints, parseVersion reads back.
use host_ftp.Base.{
  ℕ, ◌≤◌, ◌<◌, ◌≡◌, refl, Bytes, [], ◌∷◌, ◌++◌, some, arith, All, All-map, All-append, split,
  IsDigit, IsVisible, trim_space-visible, tens, digits_from, digits_from-IsDigit, digits_from-plain,
  all_digits-IsDigit, digits_value-digits_from,
}
use host_ftp.Update.Versions.{
  Version, IsSmall, format_part, format_version, parse_part, parse_parts, parse_version,
}

split_last : (s : Bytes) → All IsDigit s → split b'.' s ≡ s ∷ []
unfolding split
split_last [] h = refl
split_last (c ∷ s) h = ground (arith, split_last s h.1)

split_first : (s t : Bytes) → All IsDigit s → split b'.' (s ++ b'.' ∷ t) ≡ s ∷ split b'.' t
unfolding split
split_first [] t h = ground arith
split_first (c ∷ s) t h = ground (arith, split_first s t h.1)

part-IsDigit : (n : ℕ) → All IsDigit (format_part n)
unfolding format_part
part-IsDigit n = digits_from-IsDigit 7 n

part_back : (n : ℕ) → n ≤ 999999 → parse_part (format_part n) ≡ some n
unfolding parse_part format_part
part_back n h =
    let small : n < tens 7 = omega arith in
    let plain = digits_from-plain 6 n small in
    rw
      (
        plain.0,
        plain.1,
        all_digits-IsDigit (digits_from 7 n) (digits_from-IsDigit 7 n),
        digits_value-digits_from 7 n small,
      )
      (ground arith)

visible : (c : ℕ) → IsDigit c → IsVisible c
visible c h = (omega (arith, h.0), omega (arith, h.1))

-- A digit string, a dot and a visible string.
join-IsVisible : (s t : Bytes) → All IsDigit s → All IsVisible t → All IsVisible (s ++ b'.' ∷ t)
join-IsVisible s t h k =
    All-append IsVisible s (b'.' ∷ t) (All-map visible s h) ((omega arith, omega arith), k)

parts_back :
    (a b c : Bytes) (v : Version)
    → parse_part a ≡ some v.major
    → parse_part b ≡ some v.minor
    → parse_part c ≡ some v.patch
    → parse_parts (a ∷ b ∷ c ∷ []) ≡ some v
unfolding parse_parts
parts_back a b c v e f g = ground (arith, e, f, g)

-- A version whose parts have at most six digits is read back as it was from what is printed.
pub parse_version-format_version :
    (v : Version) → IsSmall v → parse_version (format_version v) ≡ some v
unfolding parse_version format_version IsSmall parse_parts
parse_version-format_version v h =
    let back = format_part v.minor ++ b'.' ∷ format_part v.patch in
    let seen : All IsVisible back =
      join-IsVisible (format_part v.minor) (format_part v.patch) (part-IsDigit v.minor)
        (All-map visible (format_part v.patch) (part-IsDigit v.patch)) in
    rw
      (
        trim_space-visible (format_part v.major ++ b'.' ∷ back)
            (join-IsVisible (format_part v.major) back (part-IsDigit v.major) seen),
        split_first (format_part v.major) back (part-IsDigit v.major),
        split_first (format_part v.minor) (format_part v.patch) (part-IsDigit v.minor),
        split_last (format_part v.patch) (part-IsDigit v.patch),
      )
      (parts_back (format_part v.major) (format_part v.minor) (format_part v.patch) v
        (part_back v.major h.0) (part_back v.minor h.1) (part_back v.patch h.2))
