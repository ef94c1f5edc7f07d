-- ===== src/Config/Languages.antt =====
-- internal/i18n/i18n.go: canonical, IsSupported, Normalize, and the codes of its catalogs.
use host_ftp.Base.{
  ◌≡◌, refl, Bytes, codes, Bool, true, false, ◌&&◌, not, List, [], ◌∷◌, ◌⊎◌, inl, inr, arith, leb,
  ◌==◌, ◌||◌, if◌then◌else◌, text_eq, eq_of_text_eq, text_mem, is_blank, subst, replace_byte,
  trim_space, Bool-cases,
}

abbrev pub default_language : Bytes
default_language = codes "en"

-- The keys of `catalogs`, which are the codes of supportedLanguages.
abbrev pub catalogs : List Bytes
catalogs =
    codes "en"
    ∷ codes "hr"
    ∷ codes "de"
    ∷ codes "fr"
    ∷ codes "es"
    ∷ codes "tr"
    ∷ codes "el"
    ∷ codes "pt"
    ∷ codes "zh"
    ∷ codes "ru"
    ∷ codes "hi"
    ∷ codes "ja"
    ∷ codes "it"
    ∷ codes "pl"
    ∷ codes "nl"
    ∷ codes "cs"
    ∷ codes "uk"
    ∷ codes "sv"
    ∷ codes "ro"
    ∷ codes "hu"
    ∷ codes "da"
    ∷ codes "fi"
    ∷ codes "no"
    ∷ codes "ko"
    ∷ []

unfoldable pub language_alias : Bytes → Bytes
language_alias code =
    if text_eq code (codes "nb") || text_eq code (codes "nn")
    then codes "no"
    else if text_eq code (codes "zh-cn")
        || text_eq code (codes "zh-hans")
        || text_eq code (codes "zh-sg")
    then codes "zh"
    else code

-- What stands before the first dash, and nothing where there is none.
unfoldable pub primary : Bytes → Bytes
primary [] = []
primary (c ∷ s) = let rest = primary s in if c == b'-' then [] else c ∷ rest

unfoldable pub has_dash : Bytes → Bool
has_dash [] = false
has_dash (c ∷ s) = c == b'-' || has_dash s

-- Below `strings.ToLower` stands as `lower`. `known` is canonical from the first alias on.
unfoldable pub known : Bytes → Bytes
unfolding primary has_dash
known code =
    let p = language_alias (primary code) in
    if text_mem code catalogs
    then code
    else if has_dash code && not (is_blank (primary code))
    then if text_mem p catalogs then p else []
    else []

unfoldable pub canonical : (Bytes → Bytes) → Bytes → Bytes
unfolding known language_alias
canonical lower code =
    let c = replace_byte b'_' b'-' (lower (trim_space code)) in
    if is_blank c then [] else known (language_alias c)

unfoldable pub is_supported : (Bytes → Bytes) → Bytes → Bool
unfolding canonical
is_supported lower code = not (is_blank (canonical lower code))

unfoldable pub normalize : (Bytes → Bytes) → Bytes → Bytes
unfolding canonical
normalize lower code =
    if is_blank (canonical lower code) then default_language else canonical lower code

unfoldable pub is_lower_ascii : Bytes → Bool
is_lower_ascii [] = true
is_lower_ascii (c ∷ s) = leb b'a' c && leb c b'z' && is_lower_ascii s

-- What is documented of `strings.ToLower`: it leaves lower-case ASCII letters alone.
abbrev pub Lowers : (Bytes → Bytes) → Type 0
Lowers lower = (s : Bytes) → is_lower_ascii s ≡ true → lower s ≡ s

is_stable : Bytes → Bool
is_stable c =
    is_lower_ascii c
    && text_eq (trim_space c) c
    && text_eq (replace_byte b'_' b'-' c) c
    && text_eq (language_alias c) c
    && not (is_blank c)
    && text_mem c catalogs

all_stable : List Bytes → Bool
unfolding is_stable
all_stable [] = true
all_stable (c ∷ cs) = is_stable c && all_stable cs

catalogs_stable : all_stable catalogs ≡ true
unfolding all_stable is_lower_ascii text_eq trim_space replace_byte language_alias is_blank text_mem
catalogs_stable = refl

mem_stable :
    (c : Bytes) (cs : List Bytes) → all_stable cs ≡ true → text_mem c cs ≡ true → is_stable c ≡ true
unfolding all_stable text_mem
mem_stable c [] h k = ground arith
mem_stable c (d ∷ ds) h k = elim (Bool-cases (text_eq d c)) [
  | inl e ↦ subst (λ x. is_stable x ≡ true) (eq_of_text_eq d c e) (ground (arith, h))
  | inr e ↦ mem_stable c ds (ground (arith, h)) (ground (arith, k, e))
]

known_lem : (c : Bytes) → (is_blank (known c) ≡ true) ⊎ (text_mem (known c) catalogs ≡ true)
unfolding known is_blank
known_lem c = ground arith

normalize_stable : (lower : Bytes → Bytes) (code : Bytes) → is_stable (normalize lower code) ≡ true
unfolding normalize is_blank
normalize_stable lower code =
    let c = replace_byte b'_' b'-' (lower (trim_space code)) in
    let english : is_stable default_language ≡ true =
      unfold is_stable is_lower_ascii text_eq trim_space replace_byte language_alias is_blank
        text_mem in
      refl in
    elim (Bool-cases (is_blank c)) [
      | inl e ↦ rw e english
      | inr e ↦ elim (known_lem (language_alias c)) [
        | inl b ↦ rw (e, b) english
        | inr k ↦ elim (Bool-cases (is_blank (known (language_alias c)))) [
          | inl b ↦ rw (e, b) english
          | inr b ↦ rw (e, b) (mem_stable (known (language_alias c)) catalogs catalogs_stable k)
        ]
      ]
    ]

stable_supported :
    (lower : Bytes → Bytes) (c : Bytes)
    → Lowers lower
    → is_stable c ≡ true
    → is_supported lower c ≡ true
unfolding is_supported is_stable known
stable_supported lower c law h =
    let trimmed : trim_space c ≡ c = eq_of_text_eq _ _ (ground (arith, h)) in
    let lowered : lower c ≡ c = law c (ground (arith, h)) in
    let replaced : replace_byte b'_' b'-' c ≡ c = eq_of_text_eq _ _ (ground (arith, h)) in
    let same : language_alias c ≡ c = eq_of_text_eq _ _ (ground (arith, h)) in
    let solid : is_blank c ≡ false = ground (arith, h) in
    let there : text_mem c catalogs ≡ true = ground (arith, h) in
    rw (trimmed, lowered, replaced, solid, same, there, solid) refl

-- A normalized code is a supported one.
pub normalize-is_supported :
    (lower : Bytes → Bytes) (code : Bytes)
    → Lowers lower
    → is_supported lower (normalize lower code) ≡ true
normalize-is_supported lower code law =
    stable_supported lower (normalize lower code) law (normalize_stable lower code)

pub default_language-is_supported :
    (lower : Bytes → Bytes) → Lowers lower → is_supported lower default_language ≡ true
default_language-is_supported lower law = stable_supported lower default_language law (
    unfold is_stable is_lower_ascii text_eq trim_space replace_byte language_alias is_blank
      text_mem in
    refl)
