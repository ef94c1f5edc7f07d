-- ===== src/Remote/Session.antt =====
-- The connection: internal/remote/manager.go. What other parts of the system answer is in
-- `Platform` (functions) and in `Outside` (the course of one Connect).
pub mod Trust
pub mod Connect
pub mod Branches
pub mod Handover
pub mod Ownership
pub mod Owners
pub mod Histories
pub mod Frame
pub mod Lifecycle
pub mod Leaks
pub mod Phases
pub mod HostKeys
use host_ftp.Base.{
  ℕ, suc, ◌+◌, ◌-◌, Bytes, codes, Bool, true, false, ◌&&◌, ◌||◌, not, List, [], ◌∷◌, Option, none,
  some, ltb, ◌==◌, if◌then◌else◌, text_eq, is_blank, trim_space, is_utf8, has_prefix, contains_any,
  drop,
}
use host_ftp.Security.Hosts.{Invalid, validate_connection, validate_secret}
use host_ftp.Remote.Endpoints.{Account, endpoint_matches, account_matches, private_key_matches}
use host_ftp.Remote.Secrets.{Secrets, no_secrets, forget_owned}

-- `strings.ToLower`, `strings.EqualFold`, `net.ParseIP(s) != nil`, privateKeyPathEqual of the
-- platform, and whether the text behind "SHA256:" decodes to 32 bytes.
pub record Platform : Type 0 where
  pub lower : Bytes → Bytes
  pub equal_fold : Bytes → Bytes → Bool
  pub ip : Bytes → Bool
  pub key_equal : Bytes → Bytes → Bool
  pub digest : Bytes → Bool

pub record ConnectionConfig : Type 0 where
  pub protocol : Bytes
  pub host : Bytes
  pub port : ℕ
  pub username : Bytes
  pub password : Bytes
  pub private_key_path : Bytes
  pub passphrase : Bytes
  pub fingerprint : Bytes

abbrev pub no_config : ConnectionConfig
no_config = record {
  protocol = [];
  host = [];
  port = 0;
  username = [];
  password = [];
  private_key_path = [];
  passphrase = [];
  fingerprint = [];
}

-- model.Profile, without its name and its paths.
pub record Profile : Type 0 where
  pub id : Bytes
  pub protocol : Bytes
  pub host : Bytes
  pub port : ℕ
  pub username : Bytes
  pub password_blob : Bytes
  pub private_key_path : Bytes
  pub passphrase_blob : Bytes
  pub fingerprint : Bytes

abbrev pub no_profile : Profile
no_profile = record {
  id = [];
  protocol = [];
  host = [];
  port = 0;
  username = [];
  password_blob = [];
  private_key_path = [];
  passphrase_blob = [];
  fingerprint = [];
}

-- A session: its number, which is that of its context too, and its blobs.
pub record Session : Type 0 where
  pub number : ℕ
  pub secrets : Secrets

pub record PendingTrust : Type 0 where
  pub endpoint : Bytes
  pub username : Bytes
  pub key_path : Bytes
  pub fingerprint : Bytes
  pub secrets : Secrets
  pub expires : ℕ

abbrev pub no_trust : PendingTrust
no_trust = record {
  endpoint = [];
  username = [];
  key_path = [];
  fingerprint = [];
  secrets = no_secrets;
  expires = 0;
}

-- Manager, with the broker's live entries. `closing` is the session that is being closed, and
-- `cancelled` the contexts that were cancelled.
pub record Manager : Type 0 where
  pub session : Option Session
  pub closing : Option Session
  pub active_ops : ℕ
  pub config : ConnectionConfig
  pub pending_trust : PendingTrust
  pub next_session : ℕ
  pub cancelled : List ℕ
  pub live : List Bytes

unfoldable pub new_manager : Manager
new_manager = record {
  session = none;
  closing = none;
  active_ops = 0;
  config = no_config;
  pending_trust = no_trust;
  next_session = 0;
  cancelled = [];
  live = [];
}

abbrev pub sftp : Bytes
sftp = codes "sftp"

pub data ConnectError : Type 0 where
  already_connected session_closing no_such_profile : ConnectError
  invalid : Invalid → ConnectError
  invalid_fingerprint unsafe_directory scan_failed key_changed not_protected : ConnectError
  trust_mismatch no_known_hosts fingerprint_not_saved no_session listing_failed : ConnectError

-- What Resolve returns.
pub record Resolved : Type 0 where
  pub config : ConnectionConfig
  pub secrets : Secrets
  pub profile : Profile

pub data Resolution : Type 0 where
  refused : ConnectError → Resolution
  resolved : Resolved → Resolution

-- PersistentProfileSecretToRuntime, outside macOS: the blob stays the profile's.
unfoldable pub persistent_profile_secret_to_runtime : Bytes → Bytes × Bool
persistent_profile_secret_to_runtime encoded = (encoded, false)

-- ValidateSFTPFingerprint.
unfoldable pub validate_sftp_fingerprint : (Bytes → Bool) → Bytes → Bool
validate_sftp_fingerprint digest fingerprint =
    if not (is_utf8 fingerprint)
      || not (has_prefix fingerprint (codes "SHA256:"))
      || contains_any fingerprint (0 ∷ 13 ∷ 10 ∷ 9 ∷ b' ' ∷ [])
    then false
    else not (is_blank (drop 7 fingerprint)) && digest (drop 7 fingerprint)

module _ (E : Platform) where
  unfoldable pub sanitize_protocol_state : ConnectionConfig → ConnectionConfig
  sanitize_protocol_state cfg =
      if E.equal_fold (trim_space cfg.protocol) sftp
      then cfg
      else record cfg { private_key_path = []; passphrase = []; fingerprint = [] }

  unfoldable pub merge_connection : ConnectionConfig → ConnectionConfig → ConnectionConfig
  unfolding sanitize_protocol_state
  merge_connection base override = sanitize_protocol_state (record base {
    protocol = if is_blank override.protocol then base.protocol else override.protocol;
    host = if is_blank override.host then base.host else override.host;
    port = if override.port == 0 then base.port else override.port;
    username = if is_blank override.username then base.username else override.username;
    private_key_path = override.private_key_path;
    fingerprint = override.fingerprint;
    password = override.password;
    passphrase = override.passphrase;
  })

  unfoldable pub profile_endpoint_matches : Profile → ConnectionConfig → Bool
  profile_endpoint_matches p cfg =
      not (is_blank p.id)
      && endpoint_matches E.lower p.protocol p.host p.port cfg.protocol cfg.host cfg.port

  unfoldable pub profile_account_matches : Profile → ConnectionConfig → Bool
  profile_account_matches p cfg =
      not (is_blank p.id)
      && account_matches E.lower p.protocol p.host p.port p.username cfg.protocol cfg.host cfg.port
          cfg.username

  profile_account : Profile → Account
  profile_account p = record {
    protocol = p.protocol;
    host = p.host;
    port = p.port;
    username = p.username;
    key = p.private_key_path;
  }

  config_account : ConnectionConfig → Account
  config_account cfg = record {
    protocol = cfg.protocol;
    host = cfg.host;
    port = cfg.port;
    username = cfg.username;
    key = cfg.private_key_path;
  }

  unfoldable pub profile_private_key_matches : Profile → ConnectionConfig → Bool
  unfolding profile_account config_account
  profile_private_key_matches p cfg =
      not (is_blank p.id)
      && private_key_matches E.lower E.key_equal (profile_account p) (config_account cfg)

  -- The checks at the end of Resolve.
  unfoldable pub config_error : ConnectionConfig → Option ConnectError
  unfolding validate_sftp_fingerprint
  config_error cfg = elim (validate_connection E.ip cfg.protocol cfg.host cfg.username cfg.port) [
    | some e ↦ some (invalid e)
    | none ↦ elim (validate_secret cfg.password) [
      | some e ↦ some (invalid e)
      | none ↦ elim (validate_secret cfg.passphrase) [
        | some e ↦ some (invalid e)
        | none ↦
            if text_eq cfg.protocol sftp
              && not (is_blank cfg.fingerprint)
              && not (validate_sftp_fingerprint E.digest cfg.fingerprint)
            then some invalid_fingerprint
            else none
      ]
    ]
  ]

  unfoldable pub without_passphrase : Secrets → Secrets
  without_passphrase s = record s { passphrase_blob = []; owns_passphrase = false }

  -- Resolve behind its lookup.
  unfoldable pub check_resolved : Resolved → Resolution
  unfolding sanitize_protocol_state config_error without_passphrase
  check_resolved r =
      let cfg = sanitize_protocol_state r.config in
      let kept = if text_eq cfg.protocol sftp then r.secrets else without_passphrase r.secrets in
      elim (config_error cfg) [
        | some e ↦ refused e
        | none ↦ resolved (record { config = cfg; secrets = kept; profile = r.profile })
      ]

  -- The secrets that a profile lends to a connection.
  unfoldable pub borrowed : ConnectionConfig → ConnectionConfig → Profile → Secrets
  unfolding profile_account_matches profile_private_key_matches persistent_profile_secret_to_runtime
  borrowed input cfg p =
      let (password, owns) =
        if is_blank input.password
          && profile_account_matches p cfg
          && not (is_blank p.password_blob)
        then persistent_profile_secret_to_runtime p.password_blob
        else ([], false) in
      let (passphrase, owns') =
        if is_blank input.passphrase
          && profile_private_key_matches p cfg
          && not (is_blank p.passphrase_blob)
        then persistent_profile_secret_to_runtime p.passphrase_blob
        else ([], false) in
      record {
        password_blob = password;
        passphrase_blob = passphrase;
        owns_password = owns;
        owns_passphrase = owns';
      }

  -- `found` is what `m.profiles.Get(profileID)` returns, `none` for an error.
  unfoldable pub resolve : Bytes → Option Profile → ConnectionConfig → Resolution
  unfolding check_resolved borrowed merge_connection
  resolve profile_id found given =
      let input = sanitize_protocol_state given in
      if is_blank profile_id
      then check_resolved (record { config = input; secrets = no_secrets; profile = no_profile })
      else elim found [
        | none ↦ refused no_such_profile
        | some p ↦
            let cfg =
              merge_connection
                (record no_config {
                  protocol = p.protocol;
                  host = p.host;
                  port = p.port;
                  username = p.username;
                })
                input in
            check_resolved (record { config = cfg; secrets = borrowed input cfg p; profile = p })
      ]
