-- ===== src/Remote/Session/Connect.antt =====
-- Connect, Disconnect and Operation: internal/remote/manager.go.
use host_ftp.Base.{
  ℕ, ◌+◌, ◌-◌, Bytes, Bool, true, false, ◌&&◌, not, List, [], ◌∷◌, Option, none, some,
  if◌then◌else◌, text_eq, is_blank, trim_space,
}
use host_ftp.Remote.Secrets.{Secrets, no_secrets, forget_owned, forget_if}
use host_ftp.Remote.Session.{
  Platform, ConnectionConfig, no_config, Profile, Session, Manager, ConnectError, Resolved, resolve,
  refused, resolved, sftp, profile_endpoint_matches, already_connected, session_closing,
  unsafe_directory, scan_failed, key_changed, not_protected, trust_mismatch, no_known_hosts,
  fingerprint_not_saved, no_session, listing_failed,
}
use host_ftp.Remote.Session.Trust.{
  Protections, protect, clear_pending_trust, stash_pending_trust, apply_pending_trust,
}

-- What the rest of the system answers in the course of one Connect: the lookup of the profile, the
-- directory of known hosts, the scan of the host key, the time, the broker, the files and the
-- program of the session, and the first listing.
pub record Outside : Type 0 where
  pub profile : Option Profile
  pub directory_safe : Bool
  pub scanned : Option Bytes
  pub now : ℕ
  pub protections : Protections
  pub known_hosts_written : Bool
  pub fingerprint_saved : Bool
  pub tool_found : Bool
  pub files_written : Bool
  pub listed : Bool

pub record Request : Type 0 where
  pub profile_id : Bytes
  pub input : ConnectionConfig
  pub trust : Bytes
  pub remember : Bool

pub data Answer : Type 0 where
  connected : Answer
  requires_trust : Bytes → Answer
  failed : ConnectError → Answer

-- The state of Connect at a return: the manager, the resolved secrets that its deferred call
-- forgets, preservePendingTrust, and the result.
pub record Outcome : Type 0 where
  pub manager : Manager
  pub secrets : Secrets
  pub preserve : Bool
  pub answer : Answer

unfoldable pub fails : ConnectError → Secrets → Manager → Outcome
fails e r m = record { manager = m; secrets = r; preserve = false; answer = failed e }

-- The end of newSFTPWithProtectedSecrets: the copy of the key and the configuration.
unfoldable pub with_files : Bool → Secrets → List Bytes → Option Secrets × List Bytes
unfolding forget_owned
with_files true s live = (some s, live)
with_files false s live = (none, forget_owned s live)

unfoldable pub with_passphrase :
    Bool
    → Bytes
    → Bool
    → List Bytes
    → Option (Bytes × Bool × List Bytes)
    → Option Secrets × List Bytes
unfolding with_files forget_if
with_passphrase written password owns before none = (none, forget_if owns password before)
with_passphrase written password owns before (some (passphrase, owns', live)) =
    with_files written
      (record {
        password_blob = password;
        passphrase_blob = passphrase;
        owns_password = owns;
        owns_passphrase = owns';
      })
      live

unfoldable pub with_password :
    Outside
    → ConnectionConfig
    → Secrets
    → List Bytes
    → Option (Bytes × Bool × List Bytes)
    → Option Secrets × List Bytes
unfolding with_passphrase protect
with_password out cfg r before none = (none, before)
with_password out cfg r before (some (password, owns, live)) =
    with_passphrase out.files_written password owns live
      (protect cfg.passphrase out.protections.passphrase r.passphrase_blob false live)

-- newSFTPWithProtectedSecrets, the checks of the input left out, which Resolve has made.
unfoldable pub new_sftp :
    Outside → ConnectionConfig → Secrets → List Bytes → Option Secrets × List Bytes
unfolding with_password protect
new_sftp out cfg r live =
    if out.tool_found
    then with_password out cfg r live
        (protect cfg.password out.protections.password r.password_blob false live)
    else (none, live)

unfoldable pub curl_with :
    List Bytes → Option (Bytes × Bool × List Bytes) → Option Secrets × List Bytes
curl_with before none = (none, before)
curl_with before (some (password, owns, live)) =
    (some (record no_secrets { password_blob = password; owns_password = owns }), live)

-- newCurlFTPWithProtectedSecret.
unfoldable pub new_curl_ftp :
    Outside → ConnectionConfig → Secrets → List Bytes → Option Secrets × List Bytes
unfolding curl_with protect
new_curl_ftp out cfg r live =
    if out.tool_found
    then curl_with live (protect cfg.password out.protections.password r.password_blob false live)
    else (none, live)

-- Whether a blob that `r` owns is the session's, and so becomes the session's.
unfoldable pub moves : Bool → Bytes → Bytes → Bool
moves r_owns r_blob s_blob = r_owns && not (is_blank r_blob) && text_eq s_blob r_blob

-- transferResolvedSecretOwnershipToSFTP, and …ToCurl: `r` and the session's secrets afterwards.
unfoldable pub transfer_to_sftp : Secrets → Secrets → Secrets × Secrets
unfolding moves
transfer_to_sftp r s =
    let password = moves r.owns_password r.password_blob s.password_blob in
    let passphrase = moves r.owns_passphrase r.passphrase_blob s.passphrase_blob in
    (
      record r {
        owns_password = if password then false else r.owns_password;
        owns_passphrase = if passphrase then false else r.owns_passphrase;
      },
      record s {
        owns_password = if password then true else s.owns_password;
        owns_passphrase = if passphrase then true else s.owns_passphrase;
      },
    )

unfoldable pub transfer_to_curl : Secrets → Secrets → Secrets × Secrets
unfolding moves
transfer_to_curl r s =
    let password = moves r.owns_password r.password_blob s.password_blob in
    (
      record r { owns_password = if password then false else r.owns_password },
      record s { owns_password = if password then true else s.owns_password },
    )

-- The end of Connect: the first listing over the new session with secrets `s`.
unfoldable pub probe : Outside → ConnectionConfig → Secrets → Secrets → Manager → Outcome
unfolding fails forget_owned
probe out cfg r s m =
    if out.listed
    then record {
      manager = record m {
        session = some (record { number = m.next_session; secrets = s });
        config = record cfg { password = []; passphrase = [] };
        next_session = m.next_session + 1;
      };
      secrets = r;
      preserve = false;
      answer = connected;
    }
    else fails listing_failed r (record m { live = forget_owned s m.live })

-- The session is made, the secrets that it uses are handed over, and it is tried out.
unfoldable pub start_session :
    Outside
    → ConnectionConfig
    → (Secrets → Secrets → Secrets × Secrets)
    → Option Secrets × List Bytes
    → Secrets
    → Manager
    → Outcome
unfolding probe fails
start_session out cfg transfer (none, live) r m = fails no_session r (record m { live = live })
start_session out cfg transfer (some s, live) r m =
    let (r', s') = transfer r s in probe out cfg r' s' (record m { live = live })

-- The fingerprint that the connection must have.
unfoldable pub expected_fingerprint : Platform → Resolved → Bytes
unfolding profile_endpoint_matches
expected_fingerprint E r =
    if profile_endpoint_matches E r.profile r.config && not (is_blank r.profile.fingerprint)
    then r.profile.fingerprint
    else trim_space r.config.fingerprint

-- The branch for SFTP once the key is trusted.
unfoldable pub trusted_sftp :
    Platform → Outside → Request → Resolved → Bytes → Manager → Secrets → Outcome
unfolding start_session new_sftp transfer_to_sftp fails
trusted_sftp E out q r fp m s =
    if not out.known_hosts_written
    then fails no_known_hosts s m
    else if q.remember
        && not (is_blank q.profile_id)
        && profile_endpoint_matches E r.profile r.config
        && not out.fingerprint_saved
    then fails fingerprint_not_saved s m
    else start_session out (record (r.config) { fingerprint = fp }) transfer_to_sftp
        (new_sftp out r.config s m.live) s m

-- The return behind stashPendingTrust.
unfoldable pub stash_or_fail : Resolved → Bytes → Manager × Bool → Outcome
unfolding fails
stash_or_fail r fp (m, false) = fails not_protected r.secrets m
stash_or_fail r fp (m, true) = record {
  manager = m;
  secrets = record (r.secrets) { owns_password = false; owns_passphrase = false };
  preserve = true;
  answer = requires_trust fp;
}

-- … behind the scan.
unfoldable pub scanned_sftp : Platform → Outside → Request → Resolved → Bytes → Manager → Outcome
unfolding trusted_sftp stash_or_fail expected_fingerprint stash_pending_trust apply_pending_trust
    clear_pending_trust fails
scanned_sftp E out q r fp m =
    let expected = expected_fingerprint E r in
    if not (is_blank expected) && not (text_eq expected fp)
    then fails key_changed r.secrets m
    else if is_blank expected && is_blank q.trust
    then stash_or_fail r fp (stash_pending_trust E r.config r.secrets fp out.now out.protections m)
    else if not (is_blank q.trust) && not (text_eq q.trust fp)
    then fails trust_mismatch r.secrets (clear_pending_trust m)
    else if is_blank q.trust
    then trusted_sftp E out q r fp m r.secrets
    else trusted_sftp E out q r fp applied.0 applied.1
  where
    applied : Manager × Secrets
    applied = apply_pending_trust E r.config r.secrets fp out.now m

unfoldable pub connect_resolved : Platform → Outside → Request → Resolved → Manager → Outcome
unfolding scanned_sftp start_session new_curl_ftp transfer_to_curl fails
connect_resolved E out q r m =
    if text_eq r.config.protocol sftp
    then if not out.directory_safe then fails unsafe_directory r.secrets m else elim out.scanned [
      | none ↦ fails scan_failed r.secrets m
      | some fp ↦ scanned_sftp E out q r fp m
    ]
    else start_session out r.config transfer_to_curl (new_curl_ftp out r.config r.secrets m.live)
        r.secrets m

unfoldable pub connect_body : Platform → Outside → Request → Manager → Outcome
unfolding connect_resolved clear_pending_trust fails
connect_body E out q m = elim m.session [
  | some s ↦ fails already_connected no_secrets m
  | none ↦ elim m.closing [
    | some s ↦ fails session_closing no_secrets m
    | none ↦ elim (resolve E q.profile_id out.profile q.input) [
      | refused e ↦ fails e no_secrets (clear_pending_trust m)
      | resolved r ↦
          connect_resolved E out q r (if is_blank q.trust then clear_pending_trust m else m)
    ]
  ]
]

-- The deferred calls: the resolved secrets are forgotten, then the pending ones.
unfoldable pub run_deferred : Outcome → Manager × Answer
unfolding forget_owned clear_pending_trust
run_deferred o =
    let m = record (o.manager) { live = forget_owned o.secrets o.manager.live } in
    (if o.preserve then m else clear_pending_trust m, o.answer)

unfoldable pub connect : Platform → Outside → Request → Manager → Manager × Answer
unfolding connect_body run_deferred
connect E out q m = run_deferred (connect_body E out q m)

-- Disconnect up to its wait.
unfoldable pub disconnect : Manager → Manager
unfolding clear_pending_trust
disconnect before =
    let m = clear_pending_trust before in
    elim m.session [
      | none ↦ m
      | some s ↦ record m {
        session = none;
        config = no_config;
        closing = some s;
        cancelled = s.number ∷ m.cancelled;
      }
    ]

-- finishSessionClose, once `activeOps.Wait` has returned for the session `s`.
unfoldable pub finish_session_close : Session → Manager → Manager
unfolding forget_owned
finish_session_close s m = record m { closing = none; live = forget_owned s.secrets m.live }

-- Operation: the session that the caller may use until it calls `release`.
unfoldable pub operation : Manager → Option (Session × Manager)
operation m = elim m.session [
  | none ↦ none
  | some s ↦ some (s, record m { active_ops = m.active_ops + 1 })
]

-- The first call of `release`; the later ones do nothing.
unfoldable pub release : Manager → Manager
release m = record m { active_ops = m.active_ops - 1 }
