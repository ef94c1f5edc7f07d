-- ===== src/Remote/Session/Ownership.antt =====
-- Every live secret has exactly one owner: internal/remote/manager.go.
use host_ftp.Base.{
  ℕ, ◌+◌, ◌≤◌, ◌≡◌, refl, sym, ap, ◌∙◌, subst, Bytes, Bool, false, List, Option, none, some, inl,
  inr, arith, Bool-cases,
}
use host_ftp.Remote.Secrets.{
  Secrets, no_secrets, Holds, alive, one_if, owned, forget_if, forget_owned, forget_if-Holds,
  forget_owned-Holds,
}
use host_ftp.Remote.Session.{
  Platform, ConnectionConfig, PendingTrust, no_trust, Manager, Session, Resolved,
}
use host_ftp.Remote.Session.Trust.{
  Protections, clear_pending_trust, hand_over, stash_passphrase, stash_password,
  stash_pending_trust, apply_pending_trust, trust_applies, take_trust, waiting,
}
use host_ftp.Remote.Session.Connect.{
  Outside, Request, Outcome, transfer_to_sftp, probe, start_session, trusted_sftp, stash_or_fail,
  fails, run_deferred,
}
use host_ftp.Remote.Session.Branches.{trusted_cases}
use host_ftp.Remote.Session.Handover.{
  IsFresh, forget_owned-IsFresh, Protected, protect-Protected, Built, new_sftp-Built, Transfers,
  sftp-Transfers,
}

-- How often the blob belongs to a session.
unfoldable pub session_owns : Option Session → Bytes → ℕ
unfolding owned
session_owns none b = 0
session_owns (some s) b = owned s.secrets b

-- … and how often to the manager: to the secrets that wait, to the session and to the one that is
-- being closed.
unfoldable pub owners : Manager → Bytes → ℕ
unfolding session_owns owned
owners m b = owned m.pending_trust.secrets b + session_owns m.session b + session_owns m.closing b

-- Each live entry of the broker has exactly one owner.
abbrev pub IsKept : Manager → Type 0
IsKept m = Holds m.live (owners m)

-- … when `r` is an owner too.
abbrev pub KeptWith : Secrets → Manager → Type 0
KeptWith r m = Holds m.live (λ b. owned r b + owners m b)

pub record OutKept (o : Outcome) : Type 0 where
  pub kept : KeptWith o.secrets o.manager

pub nothing_owned : (b : Bytes) → owned no_secrets b ≡ 0
unfolding owned one_if
nothing_owned b = refl

clear-KeptWith : (r : Secrets) (m : Manager) → KeptWith r m → KeptWith r (clear_pending_trust m)
unfolding owners clear_pending_trust
clear-KeptWith r m h =
    forget_owned-Holds m.pending_trust.secrets m.live _ _ (λ b. omega (arith, nothing_owned b)) h

pub clear-IsKept : (m : Manager) → IsKept m → IsKept (clear_pending_trust m)
unfolding owners clear_pending_trust
clear-IsKept m h =
    forget_owned-Holds m.pending_trust.secrets m.live _ _ (λ b. omega (arith, nothing_owned b)) h

-- The deferred calls leave the manager's owners.
pub run_deferred-IsKept : (o : Outcome) → OutKept o → IsKept (run_deferred o).0
unfolding run_deferred
run_deferred-IsKept o h =
    let m : Manager = record (o.manager) { live = forget_owned o.secrets o.manager.live } in
    let kept : IsKept m =
      unfold owners in
      forget_owned-Holds o.secrets o.manager.live _ (owners o.manager) (λ b. refl) h.kept in
    elim (Bool-cases o.preserve) [ inl e ↦ rw e kept | inr e ↦ rw e (clear-IsKept m kept) ]

alive-le : (b : Bytes) (live : List Bytes) → alive b live ≤ 1
unfolding alive
alive-le b live = ground arith

-- A session is tried out while nobody has one.
probe-OutKept :
    (out : Outside) (cfg : ConnectionConfig) (r s : Secrets) (m : Manager)
    → m.session ≡ none
    → Holds m.live (λ b. owned s b + (owned r b + owners m b))
    → OutKept (probe out cfg r s m)
unfolding probe fails owners session_owns
probe-OutKept out cfg r s m e h = elim (Bool-cases out.listed) [
  | inl l ↦ rw l (record { kept = λ b. omega (arith, h b, ap (λ o. session_owns o b) e) })
  | inr l ↦ rw l (record { kept = forget_owned-Holds s m.live _ _ (λ b. refl) h })
]

pub start_session-OutKept :
    (out : Outside) (cfg : ConnectionConfig) (t : Secrets → Secrets → Secrets × Secrets)
    (built : Option Secrets × List Bytes) (r : Secrets) (m : Manager)
    → m.session ≡ none
    → Transfers t
    → Built (λ b. owned r b + owners m b) built
    → OutKept (start_session out cfg t built r m)
unfolding start_session Built owners fails Transfers
start_session-OutKept out cfg t (none, live) r m e k h = record { kept = h }
start_session-OutKept out cfg t (some s, live) r m e k h =
    let single : (b : Bytes) → owned r b + owned s b ≤ 1 =
      λ b. omega (arith, h b, alive-le b live) in
    probe-OutKept out cfg (t r s).0 (t r s).1 (record m { live = live }) e
      (λ b. unfold owners in omega (arith, h b, k r s single b))

-- The manager has no session, and `r` owns nothing.
pub record IsStart (r : Secrets) (m : Manager) : Type 0 where
  pub no_session : m.session ≡ none
  pub no_password : r.owns_password ≡ false
  pub no_passphrase : r.owns_passphrase ≡ false

pub owns_nothing :
    (r : Secrets)
    → r.owns_password ≡ false
    → r.owns_passphrase ≡ false
    → (b : Bytes) → owned r b ≡ 0
unfolding owned one_if
owns_nothing r p q b = rw (p, q) refl

pub trusted_sftp-OutKept :
    (E : Platform) (out : Outside) (q : Request) (r : Resolved) (fp : Bytes) (m : Manager)
    (s : Secrets)
    → m.session ≡ none
    → IsFresh out.protections m.live
    → KeptWith s m
    → OutKept (trusted_sftp E out q r fp m s)
trusted_sftp-OutKept E out q r fp m s e f h =
    trusted_cases OutKept E out q r fp m s (λ x. record { kept = unfold fails in h })
      (start_session-OutKept out (record (r.config) { fingerprint = fp }) transfer_to_sftp _ s m e
        sftp-Transfers (new_sftp-Built out r.config s m.live _ f h))

-- A stash moves the secrets into the manager.
stash_passphrase-OutKept :
    (r : Resolved) (fp : Bytes) (p : PendingTrust) (password : Bytes) (owns : Bool) (m : Manager)
    (answer : Option Bytes) (o : Option (Bytes × Bool × List Bytes))
    → IsStart r.secrets m
    → ((b : Bytes) → owned m.pending_trust.secrets b ≡ 0)
    → Holds m.live (λ b. one_if owns password b + owners m b)
    → Protected (λ b. one_if owns password b + owners m b) m.live answer o
    → OutKept (stash_or_fail r fp (stash_passphrase p password owns m o))
unfolding stash_passphrase stash_or_fail Protected owners fails
stash_passphrase-OutKept r fp p password owns m answer none v n h k = record {
  kept =
      forget_if-Holds owns password m.live _ _
        (λ b. omega (arith, owns_nothing r.secrets v.no_password v.no_passphrase b)) h;
}
stash_passphrase-OutKept r fp p password owns m answer (some (passphrase, owns', live)) v n h k =
    record { kept = λ b. unfold owned in omega (arith, k.0 b, n b) }

stash_password-OutKept :
    (r : Resolved) (fp : Bytes) (p : PendingTrust) (given : Bytes) (answers : Protections)
    (m : Manager) (o : Option (Bytes × Bool × List Bytes))
    → IsStart r.secrets m
    → ((b : Bytes) → owned m.pending_trust.secrets b ≡ 0)
    → IsFresh answers m.live
    → IsKept m
    → Protected (owners m) m.live answers.password o
    → OutKept (stash_or_fail r fp (stash_password p given r.secrets answers m o))
unfolding stash_password Protected
stash_password-OutKept r fp p given answers m none v n f h k =
    unfold stash_or_fail fails in
    record {
      kept = λ b. omega (arith, h b, owns_nothing r.secrets v.no_password v.no_passphrase b);
    }
stash_password-OutKept r fp p given answers m (some (password, owns, live)) v n f h k =
    stash_passphrase-OutKept r fp p password owns (record m { live = live }) answers.passphrase _
      (ground (arith, v)) n (unfold owners in k.0)
      (unfold owners in
        protect-Protected given answers.passphrase r.secrets.passphrase_blob
          r.secrets.owns_passphrase live _ v.no_passphrase k.0
          (λ b e. k.1 b (f.new_passphrase b e) (λ a s. f.two_blobs a b s e)))

drop_start : (r : Secrets) (m : Manager) → IsStart r m → KeptWith r m → IsKept m
drop_start r m v h b = omega (arith, h b, owns_nothing r v.no_password v.no_passphrase b)

pub stash-OutKept :
    (E : Platform) (cfg : ConnectionConfig) (r : Resolved) (fp : Bytes) (now : ℕ)
    (answers : Protections) (m : Manager)
    → IsStart r.secrets m
    → IsFresh answers m.live
    → IsKept m
    → OutKept (stash_or_fail r fp (stash_pending_trust E cfg r.secrets fp now answers m))
unfolding stash_pending_trust
stash-OutKept E cfg r fp now answers m v f h =
    let c : Manager = clear_pending_trust m in
    let fresh : IsFresh answers c.live =
      unfold clear_pending_trust in forget_owned-IsFresh m.pending_trust.secrets answers m.live f in
    let kept : IsKept c = clear-IsKept m h in
    stash_password-OutKept r fp (waiting E cfg fp now) cfg.passphrase answers c _
      (unfold clear_pending_trust in ground (arith, v))
      (unfold clear_pending_trust in nothing_owned) fresh kept
      (protect-Protected cfg.password answers.password r.secrets.password_blob
        r.secrets.owns_password c.live (owners c) v.no_password kept fresh.new_password)

-- A secret that goes over has one owner before and after.
pub hand_over_lem :
    (given p_blob : Bytes) (p_owns : Bool) (r_blob : Bytes) (r_owns : Bool) (live : List Bytes)
    → r_owns ≡ false
    → ((b : Bytes)
        → one_if
              (hand_over given p_blob p_owns r_blob r_owns live).1
              (hand_over given p_blob p_owns r_blob r_owns live).0
              b
            + one_if (hand_over given p_blob p_owns r_blob r_owns live).2 p_blob b
          ≡ one_if p_owns p_blob b)
      × ((hand_over given p_blob p_owns r_blob r_owns live).3 ≡ live)
unfolding hand_over one_if forget_if
hand_over_lem given p_blob p_owns r_blob r_owns live e = (λ b. ground (arith, e), ground (arith, e))

take_trust-KeptWith :
    (cfg : ConnectionConfig) (p : PendingTrust) (r : Secrets) (m : Manager)
    → IsStart r m
    → Holds m.live (λ b. owned p.secrets b + owners m b)
    → KeptWith (take_trust cfg p r m).1 (take_trust cfg p r m).0
unfolding take_trust
take_trust-KeptWith cfg p r m v h =
    let x =
      hand_over cfg.password p.secrets.password_blob p.secrets.owns_password r.password_blob
        r.owns_password m.live in
    let y =
      hand_over cfg.passphrase p.secrets.passphrase_blob p.secrets.owns_passphrase r.passphrase_blob
        r.owns_passphrase x.3 in
    let first =
      hand_over_lem cfg.password p.secrets.password_blob p.secrets.owns_password r.password_blob
        r.owns_password m.live v.no_password in
    let second =
      hand_over_lem cfg.passphrase p.secrets.passphrase_blob p.secrets.owns_passphrase
        r.passphrase_blob r.owns_passphrase x.3 v.no_passphrase in
    let left : Secrets = record (p.secrets) { owns_password = x.2; owns_passphrase = y.2 } in
    let given : Secrets = record {
      password_blob = x.0;
      passphrase_blob = y.0;
      owns_password = x.1;
      owns_passphrase = y.1;
    } in
    let split : (b : Bytes)
        → owned p.secrets b + owners m b ≡ owned left b + (owned given b + owners m b) =
      λ b. unfold owned in omega (arith, first.0 b, second.0 b) in
    unfold owners in
    forget_owned-Holds left y.3 (λ b. owned p.secrets b + owners m b)
      (λ b. owned given b + owners m b) split
      (subst (λ live. Holds live (λ b. owned p.secrets b + owners m b)) (sym (second.1 ∙ first.1))
        h)

pub apply-KeptWith :
    (E : Platform) (cfg : ConnectionConfig) (r : Secrets) (fp : Bytes) (now : ℕ) (m : Manager)
    → IsStart r m
    → IsKept m
    → KeptWith (apply_pending_trust E cfg r fp now m).1 (apply_pending_trust E cfg r fp now m).0
unfolding apply_pending_trust
apply-KeptWith E cfg r fp now m v h =
    let bare : Manager = record m { pending_trust = no_trust } in
    let split : Holds m.live (λ b. owned m.pending_trust.secrets b + owners bare b) =
      λ b. unfold owners in omega (arith, h b, nothing_owned b) in
    elim (Bool-cases (trust_applies E cfg fp now m.pending_trust)) [
      | inl e ↦ simp e (take_trust-KeptWith cfg m.pending_trust r bare (ground (arith, v)) split)
      | inr e ↦ simp e (
          unfold owners in
          forget_owned-Holds m.pending_trust.secrets m.live _ (λ b. owned r b + owners bare b)
            (λ b. omega (arith, owns_nothing r v.no_password v.no_passphrase b)) split)
    ]

pub apply-session :
    (E : Platform) (cfg : ConnectionConfig) (r : Secrets) (fp : Bytes) (now : ℕ) (m : Manager)
    → (apply_pending_trust E cfg r fp now m).0.session ≡ m.session
unfolding apply_pending_trust take_trust
apply-session E cfg r fp now m = ground arith
