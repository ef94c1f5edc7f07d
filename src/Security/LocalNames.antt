-- ===== src/Security/LocalNames.antt =====
-- internal/security/validate.go: reservedWindowsStem and ValidateName. `upper` is
-- `strings.ToUpper`.
use host_ftp.Base.{
  ℕ, ◌≡◌, refl, Bytes, codes, Bool, true, false, ◌&&◌, ◌||◌, not, [], ◌∷◌, Option, none, some,
  arith, ltb, leb, ◌==◌, if◌then◌else◌, length, text_eq, text_mem, is_blank, byte_mem, has_suffix,
  trim_space, is_utf8, ◌++◌, ap, split, split-child, Bool-cases, inl, inr, text_eq_refl, ◌≢◌,
}

-- COM and LPT with one more character: a digit from 1 to 9, or one of the superscripts ¹, ² and ³,
-- which UTF-8 encodes in two bytes.
unfoldable pub is_device_number : Bytes → Bool
is_device_number (d ∷ []) = leb b'1' d && leb d b'9'
is_device_number (c ∷ d ∷ []) = c == 0xc2 && (d == 0xb9 || d == 0xb2 || d == 0xb3)
is_device_number _ = false

unfoldable pub numbered_device : Bytes → Bool
unfolding is_device_number
numbered_device (a ∷ b ∷ c ∷ number) =
    (text_eq (a ∷ b ∷ c ∷ []) (codes "COM") || text_eq (a ∷ b ∷ c ∷ []) (codes "LPT"))
    && is_device_number number
numbered_device _ = false

unfoldable pub reserved_windows_stem : Bytes → Bool
unfolding numbered_device
reserved_windows_stem stem =
    text_mem stem (codes "CON" ∷ codes "PRN" ∷ codes "AUX" ∷ codes "NUL" ∷ codes "CLOCK$" ∷ [])
    || numbered_device stem

-- `stem[:strings.IndexByte(stem, '.')]`, all of it where there is no dot.
unfoldable pub before_dot : Bytes → Bytes
before_dot [] = []
before_dot (c ∷ s) = let rest = before_dot s in if c == b'.' then [] else c ∷ rest

unfoldable pub is_safe_char : ℕ → Bool
unfolding byte_mem
is_safe_char c = not (leb c 0x1f || byte_mem c (codes "\\/:*?\"<>|"))

-- `safeName.MatchString`.
unfoldable pub is_safe_name : Bytes → Bool
unfolding is_safe_char
is_safe_name [] = false
is_safe_name (c ∷ []) = is_safe_char c
is_safe_name (c ∷ d ∷ s) = is_safe_char c && is_safe_name (d ∷ s)

pub data NameError : Type 0 where
  invalid_name reserved_name : NameError

unfoldable pub validate_name : (Bytes → Bytes) → Bytes → Option NameError
unfolding is_safe_name reserved_windows_stem before_dot
validate_name upper name =
    if is_blank name
      || not (text_eq name (trim_space name))
      || text_eq name (codes ".")
      || text_eq name (codes "..")
      || ltb 255 (length name)
      || not (is_utf8 name)
      || not (is_safe_name name)
    then some invalid_name
    else if has_suffix name (codes ".") || has_suffix name (codes " ")
    then some invalid_name
    else if reserved_windows_stem (before_dot (upper name))
    then some reserved_name
    else none

safe_lacks :
    (sep : ℕ) (name : Bytes)
    → is_safe_char sep ≡ false
    → is_safe_name name ≡ true
    → byte_mem sep name ≡ false
unfolding is_safe_name byte_mem
safe_lacks sep [] k h = refl
safe_lacks sep (c ∷ []) k h = elim (Bool-cases (c == sep)) [
  | inl e ↦
      let same : c ≡ sep = ground (arith, e) in absurd (ground (arith, h, ap is_safe_char same, k))
  | inr e ↦ ground (arith, e)
]
safe_lacks sep (c ∷ d ∷ s) k h = elim (Bool-cases (c == sep)) [
  | inl e ↦
      let same : c ≡ sep = ground (arith, e) in absurd (ground (arith, h, ap is_safe_char same, k))
  | inr e ↦ ground (arith, e, safe_lacks sep (d ∷ s) k (ground (arith, h)))
]

-- A name that is accepted adds exactly one component to any path, under either separator, and this
-- component is neither "." nor "..".
pub validate_name_lem :
    (upper : Bytes → Bytes) (name : Bytes)
    → validate_name upper name ≡ none
    → ((path : Bytes) → split b'/' (path ++ b'/' ∷ name) ≡ split b'/' path ++ name ∷ [])
      × ((path : Bytes) → split b'\\' (path ++ b'\\' ∷ name) ≡ split b'\\' path ++ name ∷ [])
      × (name ≢ codes ".")
      × (name ≢ codes "..")
unfolding validate_name
validate_name_lem upper name h =
    let safe : is_safe_name name ≡ true = ground (arith, h) in
    let not_dot : text_eq name (codes ".") ≡ false = ground (arith, h) in
    let not_dots : text_eq name (codes "..") ≡ false = ground (arith, h) in
    (
      λ path.
          split-child b'/' path name
            (safe_lacks b'/' name (unfold is_safe_char byte_mem in refl) safe),
      λ path.
          split-child b'\\' path name
            (safe_lacks b'\\' name (unfold is_safe_char byte_mem in refl) safe),
      λ e. ground (arith, not_dot, ap (λ n. text_eq n (codes ".")) e, text_eq_refl (codes ".")),
      λ e. ground (arith, not_dots, ap (λ n. text_eq n (codes "..")) e, text_eq_refl (codes "..")),
    )
