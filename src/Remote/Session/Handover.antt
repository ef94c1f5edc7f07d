-- ===== src/Remote/Session/Handover.antt =====
-- How the operations on secrets move their ownership: internal/remote/manager.go.
use host_ftp.Base.{
  ℕ, ◌+◌, ◌≤◌, ◌≡◌, refl, Bytes, Bool, true, false, List, Option, none, some, inl, inr, arith,
  if◌then◌else◌, text_eq, text_mem, text_eq_refl, eq_of_text_eq, Bool-cases, Option-cases, is_blank,
}
use host_ftp.Remote.Secrets.{
  Secrets, Holds, one, one_if, owned, forget, forget_if, forget_owned, mem-forget, protect-Holds,
  forget_if-Holds, forget_owned-Holds,
}
use host_ftp.Remote.Session.{ConnectionConfig}
use host_ftp.Remote.Session.Trust.{Protections, protect}
use host_ftp.Remote.Session.Connect.{
  Outside, new_sftp, new_curl_ftp, with_files, with_passphrase, with_password, curl_with, moves,
  transfer_to_sftp, transfer_to_curl,
}

-- The broker answers with blobs that are not in use.
pub record IsFresh (answers : Protections) (live : List Bytes) : Type 0 where
  pub new_password : (b : Bytes) → answers.password ≡ some b → text_mem b live ≡ false
  pub new_passphrase : (b : Bytes) → answers.passphrase ≡ some b → text_mem b live ≡ false
  pub two_blobs :
      (b c : Bytes) → answers.password ≡ some b → answers.passphrase ≡ some c → text_eq b c ≡ false

forget-fresh :
    (blob b : Bytes) (live : List Bytes)
    → text_mem b live ≡ false
    → text_mem b (forget blob live) ≡ false
forget-fresh blob b live h = ground (arith, h, mem-forget blob b live)

forget_if-fresh :
    (owns : Bool) (blob b : Bytes) (live : List Bytes)
    → text_mem b live ≡ false
    → text_mem b (forget_if owns blob live) ≡ false
unfolding forget_if
forget_if-fresh true blob b live h = forget-fresh blob b live h
forget_if-fresh false blob b live h = h

pub forget_owned-fresh :
    (s : Secrets) (b : Bytes) (live : List Bytes)
    → text_mem b live ≡ false
    → text_mem b (forget_owned s live) ≡ false
unfolding forget_owned
forget_owned-fresh s b live h =
    forget_if-fresh s.owns_passphrase s.passphrase_blob b _
      (forget_if-fresh s.owns_password s.password_blob b live h)

pub forget_owned-IsFresh :
    (s : Secrets) (answers : Protections) (live : List Bytes)
    → IsFresh answers live
    → IsFresh answers (forget_owned s live)
forget_owned-IsFresh s answers live f = record {
  new_password = λ b e. forget_owned-fresh s b live (f.new_password b e);
  new_passphrase = λ b e. forget_owned-fresh s b live (f.new_passphrase b e);
  two_blobs = f.two_blobs;
}

-- A secret of the user becomes an entry with an owner, and what was new beside it stays new.
unfoldable pub Protected :
    (Bytes → ℕ) → List Bytes → Option Bytes → Option (Bytes × Bool × List Bytes) → Type 0
Protected g live answer none = Unit {0}
Protected g live answer (some (b, owns, l)) =
    Holds l (λ c. one_if owns b c + g c)
    × ((d : Bytes)
        → text_mem d live ≡ false
        → ((a : Bytes) → answer ≡ some a → text_eq a d ≡ false)
        → text_mem d l ≡ false)

pub protect-Protected :
    (given : Bytes) (answer : Option Bytes) (blob : Bytes) (owns : Bool) (live : List Bytes)
    (g : Bytes → ℕ)
    → owns ≡ false
    → Holds live g
    → ((b : Bytes) → answer ≡ some b → text_mem b live ≡ false)
    → Protected g live answer (protect given answer blob owns live)
unfolding protect one_if Protected
protect-Protected given answer blob owns live g o h f = elim (Bool-cases (is_blank given)) [
  | inl e ↦ rw (e, o, protect) (λ c. omega (arith, h c), λ d k _. k)
  | inr e ↦ elim (Option-cases answer) [
    | inl n ↦ rw (e, n, protect) tt
    | inr (b, s) ↦
        rw (e, s, protect)
          (
            protect-Holds b live g (f b s) h,
            λ d k other. unfold text_mem in ground (arith, k, other b refl),
          )
  ]
]

-- The entries after a session was made, or was not.
unfoldable pub Built : (Bytes → ℕ) → Option Secrets × List Bytes → Type 0
Built g (none, live) = Holds live g
Built g (some s, live) = Holds live (λ b. owned s b + g b)

with_files-Built :
    (written : Bool) (s : Secrets) (live : List Bytes) (g : Bytes → ℕ)
    → Holds live (λ b. owned s b + g b)
    → Built g (with_files written s live)
unfolding with_files Built
with_files-Built true s live g h = h
with_files-Built false s live g h = forget_owned-Holds s live _ g (λ b. refl) h

with_passphrase-Built :
    (written : Bool) (password : Bytes) (owns : Bool) (before : List Bytes) (answer : Option Bytes)
    (o : Option (Bytes × Bool × List Bytes)) (g : Bytes → ℕ)
    → Holds before (λ b. one_if owns password b + g b)
    → Protected (λ b. one_if owns password b + g b) before answer o
    → Built g (with_passphrase written password owns before o)
unfolding with_passphrase Protected Built owned
with_passphrase-Built written password owns before answer none g h p =
    forget_if-Holds owns password before _ g (λ b. refl) h
with_passphrase-Built written password owns before answer (some (passphrase, owns', live)) g h p =
    with_files-Built written _ live g (λ b. omega (arith, p.0 b))

with_password-Built :
    (out : Outside) (cfg : ConnectionConfig) (r : Secrets) (before : List Bytes)
    (o : Option (Bytes × Bool × List Bytes)) (g : Bytes → ℕ)
    → IsFresh out.protections before
    → Holds before g
    → Protected g before out.protections.password o
    → Built g (with_password out cfg r before o)
unfolding with_password Protected Built
with_password-Built out cfg r before none g f h p = h
with_password-Built out cfg r before (some (password, owns, live)) g f h p =
    with_passphrase-Built out.files_written password owns live out.protections.passphrase _ g p.0 (
      protect-Protected cfg.passphrase out.protections.passphrase r.passphrase_blob false live _
        refl p.0 (λ b e. p.1 b (f.new_passphrase b e) (λ a s. f.two_blobs a b s e)))

pub new_sftp-Built :
    (out : Outside) (cfg : ConnectionConfig) (r : Secrets) (live : List Bytes) (g : Bytes → ℕ)
    → IsFresh out.protections live
    → Holds live g
    → Built g (new_sftp out cfg r live)
unfolding new_sftp Built
new_sftp-Built out cfg r live g f h = elim (Bool-cases out.tool_found) [
  | inr e ↦ rw e h
  | inl e ↦ rw e (
      with_password-Built out cfg r live _ g f h (
        protect-Protected cfg.password out.protections.password r.password_blob false live g refl h
          f.new_password))
]

curl_with-Built :
    (before : List Bytes) (answer : Option Bytes) (o : Option (Bytes × Bool × List Bytes))
    (g : Bytes → ℕ)
    → Holds before g
    → Protected g before answer o
    → Built g (curl_with before o)
unfolding curl_with Protected Built owned
curl_with-Built before answer none g h p = h
curl_with-Built before answer (some (password, owns, live)) g h p =
    λ b. unfold one_if in omega (arith, p.0 b)

pub new_curl_ftp-Built :
    (out : Outside) (cfg : ConnectionConfig) (r : Secrets) (live : List Bytes) (g : Bytes → ℕ)
    → IsFresh out.protections live
    → Holds live g
    → Built g (new_curl_ftp out cfg r live)
unfolding new_curl_ftp Built
new_curl_ftp-Built out cfg r live g f h = elim (Bool-cases out.tool_found) [
  | inr e ↦ rw e h
  | inl e ↦ rw e (
      curl_with-Built live out.protections.password _ g h (
        protect-Protected cfg.password out.protections.password r.password_blob false live g refl h
          f.new_password))
]

-- A blob that moves has one owner before and after.
moves-one :
    (r_owns : Bool) (r_blob : Bytes) (s_owns : Bool) (s_blob : Bytes)
    → one_if r_owns r_blob r_blob + one_if s_owns s_blob r_blob ≤ 1
    → (b : Bytes)
    → one_if (if moves r_owns r_blob s_blob then false else r_owns) r_blob b
        + one_if (if moves r_owns r_blob s_blob then true else s_owns) s_blob b
      ≡ one_if r_owns r_blob b + one_if s_owns s_blob b
unfolding one_if one moves
moves-one r_owns r_blob s_owns s_blob h b =
    ground (arith, h, eq_of_text_eq s_blob r_blob, text_eq_refl r_blob)

-- What a transfer of ownership does.
unfoldable pub Transfers : (Secrets → Secrets → Secrets × Secrets) → Type 0
Transfers t =
    (r s : Secrets)
    → ((b : Bytes) → owned r b + owned s b ≤ 1)
    → (b : Bytes) → owned (t r s).0 b + owned (t r s).1 b ≡ owned r b + owned s b

pub sftp-Transfers : Transfers transfer_to_sftp
unfolding transfer_to_sftp owned Transfers
sftp-Transfers r s h b = omega (
  arith,
  moves-one r.owns_password r.password_blob s.owns_password s.password_blob
      (omega (arith, h r.password_blob)) b,
  moves-one r.owns_passphrase r.passphrase_blob s.owns_passphrase s.passphrase_blob
      (omega (arith, h r.passphrase_blob)) b,
)

pub curl-Transfers : Transfers transfer_to_curl
unfolding transfer_to_curl owned Transfers
curl-Transfers r s h b = omega (
  arith,
  moves-one r.owns_password r.password_blob s.owns_password s.password_blob
      (omega (arith, h r.password_blob)) b,
)
