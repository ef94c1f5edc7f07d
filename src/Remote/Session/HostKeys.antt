-- ===== src/Remote/Session/HostKeys.antt =====
-- Which host key a session rests on: internal/remote/manager.go.
use host_ftp.Base.{
  ◌≡◌, Bytes, true, false, Option, some, if◌then◌else◌, text_eq, is_blank, trim_space,
}
use host_ftp.Remote.Secrets.{Secrets}
use host_ftp.Remote.Session.{
  Profile, ConnectionConfig, sanitize_protocol_state, without_passphrase, Platform, Resolved,
  resolve, resolved, sftp,
}
use host_ftp.Remote.Session.Connect.{Outside, Request, Outcome, connected}
use host_ftp.Remote.Session.Branches.{IsTrusted}

-- What a resolved connection pins comes from the stored profile that was asked for and from the
-- input, if this is about SFTP.
pub record KeepsPins (E : Platform) (id : Bytes) (found : Option Profile) (given : ConnectionConfig)
    (r : Resolved) : Type 0 where
  pub of_profile : is_blank id ≡ false → found ≡ some r.profile
  pub of_input :
      is_blank given.protocol ≡ false
      → E.equal_fold (trim_space given.protocol) sftp ≡ true
      → r.config.fingerprint ≡ given.fingerprint

-- What checkResolved hands on.
accepted_as : Platform → Resolved → Resolved
accepted_as E x = record {
  config = sanitize_protocol_state E x.config;
  secrets =
      if text_eq (sanitize_protocol_state E x.config).protocol sftp
      then x.secrets
      else without_passphrase E x.secrets;
  profile = x.profile;
}

module _ (E : Platform) (out : Outside) (q : Request) where
  -- If the outcome is a connection over SFTP, its key is the one that was scanned, and trusted.
  record IsVerified (r : Resolved) (o : Outcome) : Type 0 where
    verified :
        o.answer ≡ connected
        → text_eq r.config.protocol sftp ≡ true
        → (fp : Bytes) × (out.scanned ≡ some fp)
          × IsTrusted E q r fp
          × (o.manager.config.fingerprint ≡ fp)

  -- What Connect has resolved, if it connects.
  record FromBody (o : Outcome) : Type 0 where
    from_body :
        o.answer ≡ connected
        → (r : Resolved) × (resolve E q.profile_id out.profile q.input ≡ resolved r)
          × IsVerified r o
