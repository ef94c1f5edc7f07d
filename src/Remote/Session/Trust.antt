-- ===== src/Remote/Session/Trust.antt =====
-- The secrets that wait for the user to confirm a host key: internal/remote/manager.go.
use host_ftp.Base.{
  ℕ, ◌+◌, Bytes, Bool, true, false, ◌&&◌, not, List, ◌∷◌, Option, none, some, ltb, if◌then◌else◌,
  text_eq, is_blank,
}
use host_ftp.Remote.Endpoints.{endpoint_key, private_key_path_matches}
use host_ftp.Remote.Secrets.{Secrets, no_secrets, forget_owned, forget_if}
use host_ftp.Remote.Session.{Platform, ConnectionConfig, PendingTrust, no_trust, Manager}

-- takePendingTrustLocked and forgetOwnedSecrets; CancelPendingTrust is this under the lock.
unfoldable pub clear_pending_trust : Manager → Manager
unfolding forget_owned
clear_pending_trust m = record m {
  pending_trust = no_trust;
  live = forget_owned m.pending_trust.secrets m.live;
}

-- What ProtectString answers for the password and the passphrase: a new blob, or an error.
pub record Protections : Type 0 where
  pub password : Option Bytes
  pub passphrase : Option Bytes

-- One secret: a new blob if the user gave one, else what was there; `none` for an error.
unfoldable pub protect :
    Bytes → Option Bytes → Bytes → Bool → List Bytes → Option (Bytes × Bool × List Bytes)
protect given answer blob owns live =
    if is_blank given
    then some (blob, owns, live)
    else elim answer [ none ↦ none | some b ↦ some (b, true, b ∷ live) ]

-- The rest of stashPendingTrust behind the two calls of ProtectString: the state, and whether it
-- succeeded.
unfoldable pub stash_passphrase :
    PendingTrust → Bytes → Bool → Manager → Option (Bytes × Bool × List Bytes) → Manager × Bool
unfolding forget_if
stash_passphrase p password owns m none =
    (record m { live = forget_if owns password m.live }, false)
stash_passphrase p password owns m (some (passphrase, owns', live)) = (
  record m {
    live = live;
    pending_trust = record p {
      secrets = record {
        password_blob = password;
        passphrase_blob = passphrase;
        owns_password = owns;
        owns_passphrase = owns';
      };
    };
  },
  true,
)

unfoldable pub stash_password :
    PendingTrust
    → Bytes
    → Secrets
    → Protections
    → Manager
    → Option (Bytes × Bool × List Bytes)
    → Manager × Bool
unfolding stash_passphrase protect
stash_password p given secrets answers m none = (m, false)
stash_password p given secrets answers m (some (password, owns, live)) =
    stash_passphrase p password owns (record m { live = live })
      (protect given answers.passphrase secrets.passphrase_blob secrets.owns_passphrase live)

-- The pendingTrustState of stashPendingTrust, without its secrets.
unfoldable pub waiting : Platform → ConnectionConfig → Bytes → ℕ → PendingTrust
waiting E cfg fingerprint now = record {
  endpoint = endpoint_key E.lower cfg.protocol cfg.host cfg.port;
  username = cfg.username;
  key_path = cfg.private_key_path;
  fingerprint = fingerprint;
  secrets = no_secrets;
  expires = now + 120;
}

unfoldable pub stash_pending_trust :
    Platform → ConnectionConfig → Secrets → Bytes → ℕ → Protections → Manager → Manager × Bool
unfolding clear_pending_trust stash_password protect waiting
stash_pending_trust E cfg secrets fingerprint now answers before =
    let m = clear_pending_trust before in
    stash_password (waiting E cfg fingerprint now) cfg.passphrase secrets answers m
      (protect cfg.password answers.password secrets.password_blob secrets.owns_password m.live)

-- The test of applyPendingTrust.
unfoldable pub trust_applies : Platform → ConnectionConfig → Bytes → ℕ → PendingTrust → Bool
trust_applies E cfg fingerprint now p =
    not (ltb p.expires now)
    && text_eq p.endpoint (endpoint_key E.lower cfg.protocol cfg.host cfg.port)
    && text_eq p.username cfg.username
    && private_key_path_matches E.key_equal p.key_path cfg.private_key_path
    && text_eq p.fingerprint fingerprint

-- One secret goes from `p` to `r`, if the user gave none and there is one: what `r` has then, whether
-- `p` still owns its own, and the entries.
unfoldable pub hand_over :
    Bytes → Bytes → Bool → Bytes → Bool → List Bytes → Bytes × Bool × Bool × List Bytes
unfolding forget_if
hand_over given p_blob p_owns r_blob r_owns live =
    if is_blank given && not (is_blank p_blob)
    then (p_blob, p_owns, false, forget_if r_owns r_blob live)
    else (r_blob, r_owns, p_owns, live)

-- applyPendingTrust behind its test, for the taken `p`: what is not handed over is forgotten.
unfoldable pub take_trust : ConnectionConfig → PendingTrust → Secrets → Manager → Manager × Secrets
unfolding hand_over forget_owned
take_trust cfg p r m =
    let (password, owns, left, live) =
      hand_over cfg.password p.secrets.password_blob p.secrets.owns_password r.password_blob
        r.owns_password m.live in
    let (passphrase, owns', left', live') =
      hand_over cfg.passphrase p.secrets.passphrase_blob p.secrets.owns_passphrase r.passphrase_blob
        r.owns_passphrase live in
    (
      record m {
        live =
            forget_owned (record (p.secrets) { owns_password = left; owns_passphrase = left' })
              live';
      },
      record {
        password_blob = password;
        passphrase_blob = passphrase;
        owns_password = owns;
        owns_passphrase = owns';
      },
    )

unfoldable pub apply_pending_trust :
    Platform → ConnectionConfig → Secrets → Bytes → ℕ → Manager → Manager × Secrets
unfolding trust_applies take_trust forget_owned
apply_pending_trust E cfg r fingerprint now before =
    let p = before.pending_trust in
    let m = record before { pending_trust = no_trust } in
    if trust_applies E cfg fingerprint now p
    then take_trust cfg p r m
    else (record m { live = forget_owned p.secrets m.live }, r)
