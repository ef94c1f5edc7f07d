-- ===== src/Remote/Endpoints.antt =====
-- internal/profilebinding: which profile belongs to which account. `lower` and `equal_fold` are
-- `strings.ToLower` and `strings.EqualFold`.
use host_ftp.Base.{
  ℕ, ◌<◌, ◌≡◌, refl, sym, ap, ap₂, ◌∙◌, Bytes, Bool, true, false, ◌&&◌, ◌||◌, not, [], ◌∷◌, ◌++◌,
  arith, ◌==◌, if◌then◌else◌, text_eq, text_eq_refl, eq_of_text_eq, byte_mem, is_blank, trim_space,
  tens, digits_from, digits_value, digits_value-digits_from, ◌↔◌,
}
use mathlib.Core.List.{reverse}

-- `strings.Trim(host, "[]")`.
unfoldable drop_brackets : Bytes → Bytes
drop_brackets [] = []
drop_brackets (c ∷ s) = let rest = drop_brackets s in if c == b'[' || c == b']' then rest else c ∷ s

unfoldable trim_brackets : Bytes → Bytes
unfolding drop_brackets
trim_brackets s = reverse (drop_brackets (reverse (drop_brackets s)))

-- `strings.TrimSuffix(host, ".")`.
unfoldable pub drop_dot : Bytes → Bytes
drop_dot [] = []
drop_dot (c ∷ s) = if c == b'.' then s else c ∷ s

unfoldable pub trim_dot : Bytes → Bytes
unfolding drop_dot
trim_dot s = reverse (drop_dot (reverse s))

-- `strconv.Itoa`, for the int64 that are not negative.
unfoldable pub itoa : ℕ → Bytes
unfolding digits_from
itoa n = digits_from 20 n

module _ (lower : Bytes → Bytes) where
  unfoldable pub canonical_protocol : Bytes → Bytes
  canonical_protocol protocol = lower (trim_space protocol)

  unfoldable pub canonical_host : Bytes → Bytes
  unfolding trim_brackets trim_dot
  canonical_host host = lower (trim_dot (trim_brackets (trim_space host)))

  unfoldable pub endpoint_key : Bytes → Bytes → ℕ → Bytes
  unfolding canonical_protocol canonical_host itoa
  endpoint_key protocol host port =
      canonical_protocol protocol ++ 0 ∷ (canonical_host host ++ 0 ∷ itoa port)

  unfoldable pub endpoint_matches : Bytes → Bytes → ℕ → Bytes → Bytes → ℕ → Bool
  unfolding endpoint_key
  endpoint_matches protocol_a host_a port_a protocol_b host_b port_b =
      text_eq (endpoint_key protocol_a host_a port_a) (endpoint_key protocol_b host_b port_b)

  unfoldable pub account_matches : Bytes → Bytes → ℕ → Bytes → Bytes → Bytes → ℕ → Bytes → Bool
  unfolding endpoint_matches
  account_matches protocol_a host_a port_a username_a protocol_b host_b port_b username_b =
      endpoint_matches protocol_a host_a port_a protocol_b host_b port_b
      && text_eq username_a username_b

-- `key_equal` is privateKeyPathEqual, `key_path_equal_fold` or `key_path_equal`.
unfoldable pub private_key_path_matches : (Bytes → Bytes → Bool) → Bytes → Bytes → Bool
private_key_path_matches key_equal key_a key_b =
    if is_blank (trim_space key_a) || is_blank (trim_space key_b)
    then text_eq (trim_space key_a) (trim_space key_b)
    else key_equal (trim_space key_a) (trim_space key_b)

-- privateKeyPathEqual on Windows, and elsewhere.
unfoldable pub key_path_equal_fold : (Bytes → Bytes → Bool) → Bytes → Bytes → Bool
key_path_equal_fold equal_fold a b = equal_fold a b

unfoldable pub key_path_equal : Bytes → Bytes → Bool
key_path_equal a b = text_eq a b

pub record Account : Type 0 where
  pub protocol : Bytes
  pub host : Bytes
  pub port : ℕ
  pub username : Bytes
  pub key : Bytes

unfoldable pub private_key_matches :
    (Bytes → Bytes) → (Bytes → Bytes → Bool) → Account → Account → Bool
unfolding account_matches private_key_path_matches
private_key_matches lower key_equal a b =
    not (is_blank (trim_space a.key))
    && not (is_blank (trim_space b.key))
    && account_matches lower a.protocol a.host a.port a.username b.protocol b.host b.port b.username
    && private_key_path_matches key_equal (trim_space a.key) (trim_space b.key)

-- Up to the first NUL.
cut_at_nul :
    (a b s t : Bytes)
    → byte_mem 0 a ≡ false
    → byte_mem 0 b ≡ false
    → text_eq (a ++ 0 ∷ s) (b ++ 0 ∷ t) ≡ true
    → (a ≡ b) × (text_eq s t ≡ true)
unfolding text_eq byte_mem
cut_at_nul [] [] s t h k e = (refl, ground (arith, e))
cut_at_nul [] (d ∷ b) s t h k e = absurd (ground (arith, k, e))
cut_at_nul (c ∷ a) [] s t h k e = absurd (ground (arith, h, e))
cut_at_nul (c ∷ a) (d ∷ b) s t h k e =
    let r = cut_at_nul a b s t (ground (arith, h)) (ground (arith, k)) (ground (arith, e)) in
    let same : c ≡ d = ground (arith, e) in (ap₂ (λ x y. x ∷ y) same r.0, r.1)

itoa_injective : (m n : ℕ) → m < tens 20 → n < tens 20 → itoa m ≡ itoa n → m ≡ n
unfolding itoa
itoa_injective m n h k e =
    sym (digits_value-digits_from 20 m h) ∙ ap (digits_value 0) e ∙ digits_value-digits_from 20 n k

-- The parts of an endpoint, in the form in which they are compared, have no NUL, and the port is an
-- int64.
pub record IsPlain (lower : Bytes → Bytes) (protocol host : Bytes) (port : ℕ) : Type 0 where
  pub plain_protocol : byte_mem 0 (canonical_protocol lower protocol) ≡ false
  pub plain_host : byte_mem 0 (canonical_host lower host) ≡ false
  pub small_port : port < tens 20

-- Two endpoints without NUL have one key exactly if their canonical protocols, canonical hosts and
-- ports agree.
pub endpoint_matches_lem :
    (lower : Bytes → Bytes) (protocol_a host_a protocol_b host_b : Bytes) (port_a port_b : ℕ)
    → IsPlain lower protocol_a host_a port_a
    → IsPlain lower protocol_b host_b port_b
    → (endpoint_matches lower protocol_a host_a port_a protocol_b host_b port_b ≡ true) ↔ (
        (canonical_protocol lower protocol_a ≡ canonical_protocol lower protocol_b)
        × (canonical_host lower host_a ≡ canonical_host lower host_b)
        × (port_a ≡ port_b))
unfolding endpoint_matches endpoint_key
endpoint_matches_lem lower protocol_a host_a protocol_b host_b port_a port_b u v = (
  λ e.
      let (p, rest) = cut_at_nul _ _ _ _ u.plain_protocol v.plain_protocol e in
      let (q, ports) = cut_at_nul _ _ _ _ u.plain_host v.plain_host rest in
      (p, q, itoa_injective port_a port_b u.small_port v.small_port (eq_of_text_eq _ _ ports)),
  λ (p, q, r). rw (p, q, r) (text_eq_refl _),
)
