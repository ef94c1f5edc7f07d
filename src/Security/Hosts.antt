-- ===== src/Security/Hosts.antt =====
-- internal/security/validate.go: ValidateSecret, ValidateHost and ValidateConnection. `ip` is
-- `net.ParseIP(s) != nil`.
use host_ftp.Base.{
  ℕ, ◌-◌, ◌≤◌, ◌≡◌, refl, ap, suc, ◌++◌, ◌⊎◌, Bytes, codes, Bool, true, false, ◌&&◌, ◌||◌, not,
  List, [], ◌∷◌, Option, none, some, inl, inr, arith, ltb, leb, ◌==◌, if◌then◌else◌, length,
  get_elem?, drop, take, count, text_eq, text_mem, is_blank, contains_any, byte_mem, split,
  trim_space, is_utf8, All, All-split, All-reverse, subst, Bool-cases, Option-cases,
}
use mathlib.Core.List.{reverse, reverse-reverse}
use host_ftp.Remote.Endpoints.{trim_dot, drop_dot}

-- The errors of the checks.
pub data Invalid : Type 0 where
  invalid_secret invalid_host invalid_protocol invalid_username invalid_port : Invalid

-- "\x00\r\n".
abbrev pub line_ends : Bytes
line_ends = 0 ∷ 13 ∷ 10 ∷ []

unfoldable pub validate_secret : Bytes → Option Invalid
validate_secret secret =
    if ltb 8192 (length secret) || not (is_utf8 secret) || contains_any secret line_ends
    then some invalid_secret
    else none

-- "\x00\r\n\t /\\@".
abbrev pub host_breaks : Bytes
host_breaks = 0 ∷ 13 ∷ 10 ∷ 9 ∷ b' ' ∷ b'/' ∷ b'\\' ∷ b'@' ∷ []

unfoldable pub is_alnum : ℕ → Bool
is_alnum c = (leb b'A' c && leb c b'Z') || (leb b'a' c && leb c b'z') || (leb b'0' c && leb c b'9')

-- The characters inside a label, and its last one.
unfoldable pub label_rest : Bytes → Bool
unfolding is_alnum
label_rest [] = true
label_rest (c ∷ []) = is_alnum c
label_rest (c ∷ d ∷ s) = (is_alnum c || c == b'-') && label_rest (d ∷ s)

-- `hostnameLabel.MatchString`.
unfoldable pub is_label : Bytes → Bool
unfolding is_alnum label_rest
is_label [] = false
is_label (c ∷ s) = is_alnum c && label_rest s && leb (length s) 62

unfoldable pub all_labels : List Bytes → Bool
unfolding is_label
all_labels [] = true
all_labels (l ∷ ls) = is_label l && all_labels ls

unfoldable pub is_byte : ℕ → ℕ → Bool
is_byte a b = b == a

module _ (ip : Bytes → Bool) where
  -- The branch for `[…]`.
  unfoldable pub bracketed_host : Bytes → Bool
  unfolding is_byte byte_mem count
  bracketed_host host =
      if ltb (length host) 3
        || not (elim (get_elem? host 0) [ none ↦ false | some c ↦ c == b'[' ])
        || not (elim (get_elem? host (length host - 1)) [ none ↦ false | some c ↦ c == b']' ])
        || not (count (is_byte b'[') host == 1)
        || not (count (is_byte b']') host == 1)
      then false
      else byte_mem b':' (drop 1 (take (length host - 1) host))
        && ip (drop 1 (take (length host - 1) host))

  unfoldable pub plain_host : Bytes → Bool
  unfolding all_labels trim_dot split
  plain_host host = all_labels (split b'.' (trim_dot host))

  unfoldable pub validate_host : Bytes → Option Invalid
  unfolding bracketed_host plain_host
  validate_host host =
      if is_blank host
        || not (text_eq host (trim_space host))
        || ltb 253 (length host)
        || not (is_utf8 host)
        || contains_any host host_breaks
      then some invalid_host
      else if contains_any host (b'[' ∷ b']' ∷ [])
      then if bracketed_host host then none else some invalid_host
      else if byte_mem b':' host
      then if ip host then none else some invalid_host
      else if ip host
      then none
      else if plain_host host
      then none
      else some invalid_host

  -- A port below 0, which is refused like 0, is left out.
  unfoldable pub validate_connection : Bytes → Bytes → Bytes → ℕ → Option Invalid
  unfolding validate_host
  validate_connection protocol host username port =
      if not (text_mem protocol (codes "ftp" ∷ codes "ftps" ∷ codes "ftpsi" ∷ codes "sftp" ∷ []))
      then some invalid_protocol
      else elim (validate_host host) [
        | some e ↦ some e
        | none ↦
            if is_blank username
              || ltb 1024 (length username)
              || not (is_utf8 username)
              || contains_any username line_ends
            then some invalid_username
            else if ltb port 1 || ltb 65535 port
            then some invalid_port
            else none
      ]

-- The characters of a host name.
pub IsHostChar : ℕ → Type 0
IsHostChar c = (is_alnum c ≡ true) ⊎ ((c ≡ b'-') ⊎ (c ≡ b'.'))

host_char : (c : ℕ) → (is_alnum c || c == b'-') ≡ true → IsHostChar c
unfolding IsHostChar
host_char c h = elim (Bool-cases (is_alnum c)) [
  | inl e ↦ inl e
  | inr e ↦ inr (inl (ground (arith, h, e)))
]

rest_chars : (s : Bytes) → label_rest s ≡ true → All IsHostChar s
unfolding label_rest
rest_chars [] h = tt
rest_chars (c ∷ []) h = (host_char c (ground (arith, h)), tt)
rest_chars (c ∷ d ∷ s) h = (host_char c (ground (arith, h)), rest_chars (d ∷ s) (ground (arith, h)))

label_chars : (s : Bytes) → is_label s ≡ true → All IsHostChar s
unfolding is_label
label_chars [] h = tt
label_chars (c ∷ s) h = (host_char c (ground (arith, h)), rest_chars s (ground (arith, h)))

labels_chars : (ls : List Bytes) → all_labels ls ≡ true → All (All IsHostChar) ls
unfolding all_labels
labels_chars [] h = tt
labels_chars (l ∷ ls) h = (label_chars l (ground (arith, h)), labels_chars ls (ground (arith, h)))

undrop_chars : (s : Bytes) → All IsHostChar (drop_dot s) → All IsHostChar s
unfolding drop_dot IsHostChar
undrop_chars [] h = tt
undrop_chars (c ∷ s) h = elim (Bool-cases (c == b'.')) [
  | inl e ↦
      let rest : drop_dot (c ∷ s) ≡ s = ground (arith, e) in
      (inr (inr (ground (arith, e))), subst (All IsHostChar) rest h)
  | inr e ↦ let same : drop_dot (c ∷ s) ≡ c ∷ s = ground (arith, e) in subst (All IsHostChar) same h
]

plain_chars : (ip : Bytes → Bool) (host : Bytes) → plain_host ip host ≡ true → All IsHostChar host
unfolding plain_host trim_dot IsHostChar
plain_chars ip host h =
    let trimmed : All IsHostChar (reverse (drop_dot (reverse host))) =
      All-split IsHostChar b'.' (reverse (drop_dot (reverse host))) (inr (inr refl))
        (labels_chars (split b'.' (reverse (drop_dot (reverse host)))) h) in
    let turned : All IsHostChar (drop_dot (reverse host)) =
      subst (All IsHostChar) (reverse-reverse (drop_dot (reverse host)))
        (All-reverse IsHostChar (reverse (drop_dot (reverse host))) trimmed) in
    subst (All IsHostChar) (reverse-reverse host)
      (All-reverse IsHostChar (reverse host) (undrop_chars (reverse host) turned))

-- An address with a colon, in a pair of brackets.
pub IsBracketed : (Bytes → Bool) → Bytes → Type 0
IsBracketed ip host =
    (inner : Bytes) × (host ≡ b'[' ∷ (inner ++ b']' ∷ []))
    × (byte_mem b':' inner ≡ true)
    × (ip inner ≡ true)

is_char : ℕ → Option ℕ → Bool
is_char b o = elim o [ none ↦ false | some c ↦ c == b ]

split_last :
    (b : ℕ) (s : Bytes)
    → is_char b (get_elem? s (length s - 1)) ≡ true
    → s ≡ take (length s - 1) s ++ b ∷ []
unfolding is_char
split_last b [] h = absurd (ground (arith, h))
split_last b (c ∷ []) h = ap (λ x. x ∷ []) (ground (arith, h))
split_last b (c ∷ d ∷ s) h =
    let same : length (c ∷ d ∷ s) - 1 ≡ suc (length (d ∷ s) - 1) = omega arith in
    let h' : is_char b (get_elem? (d ∷ s) (length (d ∷ s) - 1)) ≡ true =
      subst (λ n. is_char b (get_elem? (c ∷ d ∷ s) n) ≡ true) same h in
    rw same (ap (◌∷◌ c) (split_last b (d ∷ s) h'))

bracket_lem :
    (ip : Bytes → Bool) (host : Bytes) → bracketed_host ip host ≡ true → IsBracketed ip host
unfolding bracketed_host IsBracketed is_char
bracket_lem ip [] h = absurd (ground (arith, h))
bracket_lem ip (c ∷ []) h = absurd (ground (arith, h))
bracket_lem ip (c ∷ d ∷ s) h =
    let same : length (c ∷ d ∷ s) - 1 ≡ suc (length (d ∷ s) - 1) = omega arith in
    let first : c ≡ b'[' = ground (arith, h) in
    let h' = subst (λ n. is_char b']' (get_elem? (c ∷ d ∷ s) n) ≡ true) same (ground (arith, h)) in
    let inside : drop 1 (take (length (c ∷ d ∷ s) - 1) (c ∷ d ∷ s))
        ≡ take (length (d ∷ s) - 1) (d ∷ s) =
      ap (λ n. drop 1 (take n (c ∷ d ∷ s))) same in
    (
      take (length (d ∷ s) - 1) (d ∷ s),
      rw first (ap (◌∷◌ b'[') (split_last b']' (d ∷ s) h')),
      subst (λ i. byte_mem b':' i ≡ true) inside (ground (arith, h)),
      subst (λ i. ip i ≡ true) inside (ground (arith, h)),
    )

-- Short, without white space, control characters, slashes and `@`, and an address or a host name.
pub record IsHost (ip : Bytes → Bool) (host : Bytes) : Type 0 where
  pub short : length host ≤ 253
  pub unbroken : contains_any host host_breaks ≡ false
  pub known : (ip host ≡ true) ⊎ (IsBracketed ip host ⊎ All IsHostChar host)

host_known :
    (ip : Bytes → Bool) (host : Bytes)
    → validate_host ip host ≡ none
    → (ip host ≡ true) ⊎ ((bracketed_host ip host ≡ true) ⊎ (plain_host ip host ≡ true))
unfolding validate_host
host_known ip host h = elim (Bool-cases (ip host)) [
  | inl e ↦ inl e
  | inr e ↦ elim (Bool-cases (bracketed_host ip host)) [
    | inl f ↦ inr (inl f)
    | inr f ↦ inr (inr (ground (arith, h, e, f)))
  ]
]

validate_host-IsHost :
    (ip : Bytes → Bool) (host : Bytes) → validate_host ip host ≡ none → IsHost ip host
unfolding validate_host
validate_host-IsHost ip host h = record {
  short = ground (arith, h);
  unbroken = ground (arith, h);
  known = elim (host_known ip host h) [
    | inl e ↦ inl e
    | inr (inl e) ↦ inr (inl (bracket_lem ip host e))
    | inr (inr e) ↦ inr (inr (plain_chars ip host e))
  ];
}

-- A connection that is accepted has one of the four protocols, a short host that is an address or
-- consists of letters, digits, hyphens and dots, a user name that cannot end a line, and a port from
-- 1 to 65535.
pub validate_connection_lem :
    (ip : Bytes → Bool) (protocol host username : Bytes) (port : ℕ)
    → validate_connection ip protocol host username port ≡ none
    → (text_mem protocol (codes "ftp" ∷ codes "ftps" ∷ codes "ftpsi" ∷ codes "sftp" ∷ []) ≡ true)
      × IsHost ip host
      × (contains_any username line_ends ≡ false)
      × (1 ≤ port)
      × (port ≤ 65535)
unfolding validate_connection
validate_connection_lem ip protocol host username port h =
    elim (Option-cases (validate_host ip host)) [
      | inl e ↦ (
        ground (arith, h, e),
        validate_host-IsHost ip host e,
        ground (arith, h, e),
        ground (arith, h, e),
        ground (arith, h, e),
      )
      | inr (x, e) ↦ absurd (ground (arith, h, e))
    ]
