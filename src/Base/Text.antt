-- ===== src/Base/Text.antt =====
-- Go strings as lists of bytes, with the functions of the standard library's `strings` and
-- `unicode/utf8` that the program calls.
use Prim.Native.Nat.{ℕ, ◌-◌, ◌≤◌}
use Prim.Native.Char.{code}
use Prim.Native.String.{String}
use mathlib.Core.Path.{◌≡◌, refl, subst}
use mathlib.Core.Logic.{inl, inr}
use mathlib.Core.Bool.{Bool, true, false, ◌&&◌, ◌||◌}
use mathlib.Core.List.{List, [], ◌∷◌, ◌++◌, reverse, reverse_aux, reverse-reverse}
use mathlib.Core.Option.{Option, none, some}
use native.Mathlib.Omega.{arith}
use host_ftp.Base.Lists.{All}
use host_ftp.Base.Tests.{ltb, leb, ◌==◌, if◌then◌else◌, Bool-cases}

abbrev pub Bytes : Type 0
Bytes = List ℕ

-- The code points of a literal; these are its bytes where the text is ASCII.
abbrev pub codes : String → Bytes
codes String.[] = []
codes (String.◌∷◌ c s) = code c ∷ codes s

unfoldable pub text_eq : Bytes → Bytes → Bool
text_eq [] [] = true
text_eq [] (b ∷ t) = false
text_eq (a ∷ s) [] = false
text_eq (a ∷ s) (b ∷ t) = a == b && text_eq s t

pub text_eq_refl : (s : Bytes) → text_eq s s ≡ true
unfolding text_eq
text_eq_refl [] = refl
text_eq_refl (a ∷ s) = ground (arith, text_eq_refl s)

pub eq_of_text_eq : (s t : Bytes) → text_eq s t ≡ true → s ≡ t
unfolding text_eq
eq_of_text_eq [] [] h = refl
eq_of_text_eq [] (b ∷ t) h = ground arith
eq_of_text_eq (a ∷ s) [] h = ground arith
eq_of_text_eq (a ∷ s) (b ∷ t) h = ground (arith, eq_of_text_eq s t)

unfoldable pub text_mem : Bytes → List Bytes → Bool
text_mem s [] = false
text_mem s (t ∷ ts) = text_eq t s || text_mem s ts

unfoldable pub is_blank : Bytes → Bool
is_blank [] = true
is_blank (c ∷ s) = false

unfoldable pub byte_mem : ℕ → Bytes → Bool
byte_mem c [] = false
byte_mem c (x ∷ xs) = x == c || byte_mem c xs

-- `strings.ContainsAny`, for a set of ASCII characters.
unfoldable pub contains_any : Bytes → Bytes → Bool
unfolding byte_mem
contains_any [] chars = false
contains_any (c ∷ s) chars = byte_mem c chars || contains_any s chars

unfoldable pub has_prefix : Bytes → Bytes → Bool
has_prefix s [] = true
has_prefix [] (p ∷ ps) = false
has_prefix (c ∷ s) (p ∷ ps) = c == p && has_prefix s ps

unfoldable pub has_suffix : Bytes → Bytes → Bool
unfolding has_prefix
has_suffix s t = has_prefix (reverse s) (reverse t)

-- `strings.Contains`.
unfoldable pub contains : Bytes → Bytes → Bool
unfolding has_prefix
contains [] t = has_prefix [] t
contains (c ∷ s) t = has_prefix (c ∷ s) t || contains s t

-- `strings.Split` at one ASCII byte: always at least one part.
cons_head : ℕ → List Bytes → List Bytes
cons_head c [] = (c ∷ []) ∷ []
cons_head c (p ∷ ps) = (c ∷ p) ∷ ps

unfoldable pub split : ℕ → Bytes → List Bytes
unfolding cons_head
split sep [] = [] ∷ []
split sep (c ∷ s) = let rest = split sep s in if c == sep then [] ∷ rest else cons_head c rest

-- `strings.ReplaceAll` of one byte by another.
unfoldable pub replace_byte : ℕ → ℕ → Bytes → Bytes
replace_byte old new [] = []
replace_byte old new (c ∷ s) = (if c == old then new else c) ∷ replace_byte old new s

-- `unicode.IsSpace`, on the UTF-8 encodings of one, two and three bytes.
is_space : ℕ → Bool
is_space c = (leb 9 c && leb c 13) || c == 32

is_space_two : ℕ → ℕ → Bool
is_space_two a b = a == 0xc2 && (b == 0x85 || b == 0xa0)

is_space_three : ℕ → ℕ → ℕ → Bool
is_space_three a b c =
    (a == 0xe1 && b == 0x9a && c == 0x80)
    || (a == 0xe2
        && b == 0x80
        && ((leb 0x80 c && leb c 0x8a) || c == 0xa8 || c == 0xa9 || c == 0xaf))
    || (a == 0xe2 && b == 0x81 && c == 0x9f)
    || (a == 0xe3 && b == 0x80 && c == 0x80)

trim_left : Bytes → Bytes
unfolding is_space is_space_two is_space_three
trim_left [] = []
trim_left (a ∷ []) = if is_space a then [] else a ∷ []
trim_left (a ∷ b ∷ []) = elim (is_space a) [
  | true ↦ trim_left (b ∷ [])
  | false ↦ if is_space_two a b then [] else a ∷ b ∷ []
]
trim_left (a ∷ b ∷ c ∷ s) = elim (is_space a) [
  | true ↦ trim_left (b ∷ c ∷ s)
  | false ↦ elim (is_space_two a b) [
    | true ↦ trim_left (c ∷ s)
    | false ↦ elim (is_space_three a b c) [ true ↦ trim_left s | false ↦ a ∷ b ∷ c ∷ s ]
  ]
]

-- The same from the right end, on the reversed bytes. UTF-8 synchronises itself, so the last
-- encoded character is found from the last bytes alone.
trim_left_reversed : Bytes → Bytes
unfolding is_space is_space_two is_space_three
trim_left_reversed [] = []
trim_left_reversed (a ∷ []) = if is_space a then [] else a ∷ []
trim_left_reversed (a ∷ b ∷ []) = elim (is_space a) [
  | true ↦ trim_left_reversed (b ∷ [])
  | false ↦ if is_space_two b a then [] else a ∷ b ∷ []
]
trim_left_reversed (a ∷ b ∷ c ∷ s) = elim (is_space a) [
  | true ↦ trim_left_reversed (b ∷ c ∷ s)
  | false ↦ elim (is_space_two b a) [
    | true ↦ trim_left_reversed (c ∷ s)
    | false ↦ elim (is_space_three c b a) [ true ↦ trim_left_reversed s | false ↦ a ∷ b ∷ c ∷ s ]
  ]
]

-- `strings.TrimSpace`.
unfoldable pub trim_space : Bytes → Bytes
unfolding trim_left trim_left_reversed
trim_space s = reverse (trim_left_reversed (reverse (trim_left s)))

-- Visible ASCII.
abbrev pub IsVisible : ℕ → Type 0
IsVisible c = (33 ≤ c) × (c ≤ 126)

visible_left : (s : Bytes) → All IsVisible s → trim_left s ≡ s
unfolding trim_left is_space is_space_two is_space_three
visible_left [] h = refl
visible_left (a ∷ []) h = ground (arith, h)
visible_left (a ∷ b ∷ []) h = ground (arith, h)
visible_left (a ∷ b ∷ c ∷ s) h = ground (arith, h)

visible_right : (s : Bytes) → All IsVisible s → trim_left_reversed s ≡ s
unfolding trim_left_reversed is_space is_space_two is_space_three
visible_right [] h = refl
visible_right (a ∷ []) h = ground (arith, h)
visible_right (a ∷ b ∷ []) h = ground (arith, h)
visible_right (a ∷ b ∷ c ∷ s) h = ground (arith, h)

module _ (P : ℕ → Type 0) where
  All-reverse_aux : (s t : Bytes) → All P s → All P t → All P (reverse_aux s t)
  All-reverse_aux [] t h k = k
  All-reverse_aux (a ∷ s) t h k = All-reverse_aux s (a ∷ t) h.1 (h.0, k)

  pub All-reverse : (s : Bytes) → All P s → All P (reverse s)
  All-reverse s h = All-reverse_aux s [] h tt

  All-cons_head : (c : ℕ) (ps : List Bytes) → All (All P) (cons_head c ps) → P c × All (All P) ps
  unfolding cons_head
  All-cons_head c [] h = (h.0.0, tt)
  All-cons_head c (p ∷ ps) h = (h.0.0, (h.0.1, h.1))

  -- What holds of all bytes of the parts and of the separator holds of all bytes.
  pub All-split : (sep : ℕ) (s : Bytes) → P sep → All (All P) (split sep s) → All P s
  unfolding split
  All-split sep [] q h = tt
  All-split sep (c ∷ s) q h = elim (Bool-cases (c == sep)) [
    | inl e ↦
        let same : sep ≡ c = ground (arith, e) in
        let whole : split sep (c ∷ s) ≡ [] ∷ split sep s = ground (arith, e) in
        let parts : All (All P) ([] ∷ split sep s) = subst (All (All P)) whole h in
        (subst P same q, All-split sep s q parts.1)
    | inr e ↦
        let whole : split sep (c ∷ s) ≡ cons_head c (split sep s) = ground (arith, e) in
        let r = All-cons_head c (split sep s) (subst (All (All P)) whole h) in
        (r.0, All-split sep s q r.1)
  ]

-- Text without the separator is one more part behind it.
pub split-last_part : (sep : ℕ) (s : Bytes) → byte_mem sep s ≡ false → split sep s ≡ s ∷ []
unfolding split byte_mem cons_head
split-last_part sep [] h = refl
split-last_part sep (c ∷ s) h = ground (arith, h, split-last_part sep s)

split_one_more :
    (c : ℕ) (ps qs : List Bytes) (p : Bytes)
    → cons_head c ((p ∷ ps) ++ qs) ≡ cons_head c (p ∷ ps) ++ qs
unfolding cons_head
split_one_more c ps qs p = refl

split_some : (sep : ℕ) (s : Bytes) → (p : Bytes) × (ps : List Bytes) × (split sep s ≡ p ∷ ps)
unfolding split cons_head
split_some sep [] = ([], [], refl)
split_some sep (c ∷ s) = elim (Bool-cases (c == sep)) [
  | inl e ↦ ([], split sep s, ground (arith, e))
  | inr e ↦ let (p, ps, f) = split_some sep s in (c ∷ p, ps, ground (arith, e, f))
]

pub split-child :
    (sep : ℕ) (s t : Bytes)
    → byte_mem sep t ≡ false
    → split sep (s ++ sep ∷ t) ≡ split sep s ++ t ∷ []
unfolding split
split-child sep [] t h = ground (arith, split-last_part sep t h)
split-child sep (c ∷ s) t h = elim (Bool-cases (c == sep)) [
  | inl e ↦ ground (arith, e, split-child sep s t h)
  | inr e ↦
      let (p, ps, f) = split_some sep s in
      ground (arith, e, split-child sep s t h, f, split_one_more c ps (t ∷ []) p)
]

-- Visible text is not trimmed.
pub trim_space-visible : (s : Bytes) → All IsVisible s → trim_space s ≡ s
unfolding trim_space
trim_space-visible s h =
    rw (visible_left s h, visible_right (reverse s) (All-reverse IsVisible s h)) (reverse-reverse s)

-- `utf8.ValidString`, as the automaton of Unicode's Table 3-7: how many bytes are still to come,
-- and the range of the next one.
record Utf8State : Type 0 where
  left : ℕ
  lo : ℕ
  hi : ℕ

utf8_start : Utf8State
utf8_start = record { left = 0; lo = 0x80; hi = 0xbf }

expecting : ℕ → ℕ → ℕ → Option Utf8State
expecting n lo hi = some (record { left = n; lo = lo; hi = hi })

utf8_lead : ℕ → Option Utf8State
unfolding expecting
utf8_lead c =
    if ltb c 0x80
    then expecting 0 0x80 0xbf
    else if leb 0xc2 c && leb c 0xdf
    then expecting 1 0x80 0xbf
    else if c == 0xe0
    then expecting 2 0xa0 0xbf
    else if c == 0xed
    then expecting 2 0x80 0x9f
    else if leb 0xe1 c && leb c 0xef
    then expecting 2 0x80 0xbf
    else if c == 0xf0
    then expecting 3 0x90 0xbf
    else if leb 0xf1 c && leb c 0xf3
    then expecting 3 0x80 0xbf
    else if c == 0xf4
    then expecting 3 0x80 0x8f
    else none

utf8_next : Utf8State → ℕ → Option Utf8State
unfolding utf8_lead expecting
utf8_next st c =
    if st.left == 0
    then utf8_lead c
    else if leb st.lo c && leb c st.hi
    then expecting (st.left - 1) 0x80 0xbf
    else none

utf8_from : Utf8State → Bytes → Bool
utf8_from st [] = st.left == 0
utf8_from st (c ∷ s) = elim (utf8_next st c) [ none ↦ false | some st' ↦ utf8_from st' s ]

unfoldable pub is_utf8 : Bytes → Bool
unfolding utf8_from utf8_next utf8_start
is_utf8 s = utf8_from utf8_start s

utf8_accepts : is_utf8 (0x61 ∷ 0xc5 ∷ 0xa1 ∷ 0xe2 ∷ 0x82 ∷ 0xac ∷ []) ≡ true
unfolding is_utf8
utf8_accepts = refl

utf8_refuses : is_utf8 (0x61 ∷ 0xed ∷ 0xa0 ∷ 0x80 ∷ []) ≡ false
unfolding is_utf8
utf8_refuses = refl

trims :
    trim_space (0xe2 ∷ 0x80 ∷ 0x83 ∷ 0x20 ∷ 0x61 ∷ 0x20 ∷ 0x62 ∷ 0xc2 ∷ 0xa0 ∷ 0x0a ∷ [])
    ≡ codes "a b"
unfolding trim_space
trims = refl
