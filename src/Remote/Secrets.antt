-- ===== src/Remote/Secrets.antt =====
-- The ownership of protected secrets: internal/remote/manager.go, resolvedConnection,
-- pendingTrustState and the blobs of sessions; ForgetProtectedSecret of
-- internal/security/dpapi_other.go. `live` are the broker's entries.
use host_ftp.Base.{
  ℕ, ◌+◌, ◌≡◌, refl, subst, Bytes, Bool, true, false, ◌&&◌, not, List, [], ◌∷◌, inl, inr, arith,
  keep, if◌then◌else◌, text_eq, text_mem, text_eq_refl, eq_of_text_eq, Bool-cases,
}

pub record Secrets : Type 0 where
  pub password_blob : Bytes
  pub passphrase_blob : Bytes
  pub owns_password : Bool
  pub owns_passphrase : Bool

abbrev pub no_secrets : Secrets
no_secrets = record {
  password_blob = [];
  passphrase_blob = [];
  owns_password = false;
  owns_passphrase = false;
}

-- ForgetProtectedSecret. (There is no entry for an empty blob, where it returns at once.)
unfoldable pub forget : Bytes → List Bytes → List Bytes
unfolding keep
forget blob live = keep (λ b. not (text_eq b blob)) live

-- `if owns { security.ForgetProtectedSecret(blob) }`.
unfoldable pub forget_if : Bool → Bytes → List Bytes → List Bytes
unfolding forget
forget_if owns blob live = if owns then forget blob live else live

unfoldable pub forget_owned : Secrets → List Bytes → List Bytes
unfolding forget_if
forget_owned s live =
    forget_if s.owns_passphrase s.passphrase_blob (forget_if s.owns_password s.password_blob live)

-- How often `b` is live, and how often `s` owns it.
unfoldable pub alive : Bytes → List Bytes → ℕ
alive b live = if text_mem b live then 1 else 0

unfoldable pub one : Bytes → Bytes → ℕ
one blob b = if text_eq blob b then 1 else 0

unfoldable pub one_if : Bool → Bytes → Bytes → ℕ
unfolding one
one_if owns blob b = if owns then one blob b else 0

unfoldable pub owned : Secrets → Bytes → ℕ
unfolding one_if
owned s b = one_if s.owns_password s.password_blob b + one_if s.owns_passphrase s.passphrase_blob b

-- Each live entry has exactly one owner, and what is owned is live; `owners` counts.
abbrev pub Holds : List Bytes → (Bytes → ℕ) → Type 0
Holds live owners = (b : Bytes) → owners b ≡ alive b live

pub mem-forget :
    (blob b : Bytes) (live : List Bytes)
    → text_mem b (forget blob live) ≡ (not (text_eq blob b) && text_mem b live)
unfolding forget keep text_mem
mem-forget blob b [] = ground arith
mem-forget blob b (c ∷ live) = elim (Bool-cases (text_eq c blob)) [
  | inl e ↦
      let same = eq_of_text_eq c blob e in rw (e, same) (ground (arith, mem-forget blob b live))
  | inr e ↦ rw e (elim (Bool-cases (text_eq c b)) [
    | inl f ↦
        let apart : text_eq blob b ≡ false = elim (Bool-cases (text_eq blob b)) [
          | inl g ↦
              absurd
                (ground (arith, e, f, g, eq_of_text_eq c b, eq_of_text_eq blob b, text_eq_refl b))
          | inr g ↦ g
        ] in
        rw (f, apart) refl
    | inr f ↦ rw f (mem-forget blob b live)
  ])
]

pub forget-Holds :
    (blob : Bytes) (live : List Bytes) (f g : Bytes → ℕ)
    → ((b : Bytes) → f b ≡ one blob b + g b)
    → Holds live f
    → Holds (forget blob live) g
unfolding alive one
forget-Holds blob live f g e h b = ground (arith, e b, h b, mem-forget blob b live)

pub protect-Holds :
    (blob : Bytes) (live : List Bytes) (f : Bytes → ℕ)
    → text_mem blob live ≡ false
    → Holds live f
    → Holds (blob ∷ live) (λ b. one blob b + f b)
unfolding alive one text_mem
protect-Holds blob live f e h b = elim (Bool-cases (text_eq blob b)) [
  | inl s ↦
      let lacks : text_mem b live ≡ false =
        subst (λ c. text_mem c live ≡ false) (eq_of_text_eq blob b s) e in
      ground (arith, h b, s, lacks)
  | inr s ↦ ground (arith, h b, s)
]

pub forget_if-Holds :
    (owns : Bool) (blob : Bytes) (live : List Bytes) (f g : Bytes → ℕ)
    → ((b : Bytes) → f b ≡ one_if owns blob b + g b)
    → Holds live f
    → Holds (forget_if owns blob live) g
unfolding forget_if one_if
forget_if-Holds true blob live f g e h b = forget-Holds blob live f g e h b
forget_if-Holds false blob live f g e h b = omega (arith, e b, h b)

pub forget_owned-Holds :
    (s : Secrets) (live : List Bytes) (f g : Bytes → ℕ)
    → ((b : Bytes) → f b ≡ owned s b + g b)
    → Holds live f
    → Holds (forget_owned s live) g
unfolding forget_owned owned
forget_owned-Holds s live f g e h =
    let rest : Bytes → ℕ = λ b. one_if s.owns_passphrase s.passphrase_blob b + g b in
    forget_if-Holds s.owns_passphrase s.passphrase_blob _ rest g (λ b. refl)
      (forget_if-Holds s.owns_password s.password_blob live f rest (λ b. omega (arith, e b)) h)
