-- ===== src/Remote/Session/Branches.antt =====
-- The branches of Connect: internal/remote/manager.go. What holds on each branch, under its
-- conditions, holds of the outcome.
use host_ftp.Remote.Endpoints.{endpoint_matches}
use host_ftp.Base.{
  ◌&&◌, trim_space, Bool, not, ◌≡◌, refl, ◌⊎◌, Bytes, true, false, none, some, inl, inr, arith,
  if◌then◌else◌, Option-cases, is_blank, text_eq,
}
use host_ftp.Remote.Secrets.{Secrets, no_secrets}
use host_ftp.Remote.Session.{
  profile_endpoint_matches, Platform, Manager, Resolved, Resolution, resolve, resolved, refused,
  ConnectError, sftp, already_connected, session_closing, unsafe_directory, scan_failed,
  key_changed, trust_mismatch, no_known_hosts, fingerprint_not_saved,
}
use host_ftp.Remote.Session.Trust.{clear_pending_trust, stash_pending_trust, apply_pending_trust}
use host_ftp.Remote.Session.Connect.{
  Outside, Request, Outcome, new_sftp, new_curl_ftp, transfer_to_sftp, transfer_to_curl,
  start_session, trusted_sftp, scanned_sftp, stash_or_fail, fails, connect_resolved, connect_body,
  expected_fingerprint,
}

Resolution-cases :
    (o : Resolution) → ((e : ConnectError) × (o ≡ refused e)) ⊎ ((r : Resolved) × (o ≡ resolved r))
Resolution-cases (refused e) = inl (e, refl)
Resolution-cases (resolved r) = inr (r, refl)

-- Whether the profile pins a key: it has one, and is a stored profile of this server.
abbrev pub pins : Platform → Resolved → Bool
pins E r =
    not (is_blank r.profile.id)
    && endpoint_matches E.lower r.profile.protocol r.profile.host r.profile.port r.config.protocol
        r.config.host r.config.port
    && not (is_blank r.profile.fingerprint)

-- The key is the profile's where this pins one, else the input's where this has one, else the one
-- that the user confirms; and a key that the user names is this one in any case.
unfoldable pub IsTrusted : Platform → Request → Resolved → Bytes → Type 0
IsTrusted E q r fp =
    (pins E r ≡ true → text_eq r.profile.fingerprint fp ≡ true)
    × (pins E r ≡ false
        → is_blank (trim_space r.config.fingerprint) ≡ false
        → text_eq (trim_space r.config.fingerprint) fp ≡ true)
    × (pins E r ≡ false
        → is_blank (trim_space r.config.fingerprint) ≡ true
        → text_eq q.trust fp ≡ true)
    × (is_blank q.trust ≡ false → text_eq q.trust fp ≡ true)

module _ {κ} (P : Outcome → Type κ) (E : Platform) (out : Outside) (q : Request) where
  pub trusted_cases :
      (r : Resolved) (fp : Bytes) (m : Manager) (s : Secrets)
      → ((e : ConnectError) → P (fails e s m))
      → P (
          start_session out
            (record (r.config) { fingerprint = fp })
            transfer_to_sftp
            (new_sftp out r.config s m.live)
            s
            m)
      → P (trusted_sftp E out q r fp m s)
  unfolding trusted_sftp
  trusted_cases r fp m s failed started =
      ground (arith, failed no_known_hosts, failed fingerprint_not_saved)

  pub scanned_cases :
      (r : Resolved) (fp : Bytes) (m : Manager)
      → ((e : ConnectError) → P (fails e r.secrets m))
      → ((e : ConnectError) → P (fails e r.secrets (clear_pending_trust m)))
      → P (
          stash_or_fail r fp
            (stash_pending_trust E r.config r.secrets fp out.now out.protections m))
      → (IsTrusted E q r fp → P (trusted_sftp E out q r fp m r.secrets))
      → (IsTrusted E q r fp
          → P (
              trusted_sftp E out q r fp
                (apply_pending_trust E r.config r.secrets fp out.now m).0
                (apply_pending_trust E r.config r.secrets fp out.now m).1))
      → P (scanned_sftp E out q r fp m)
  unfolding scanned_sftp expected_fingerprint profile_endpoint_matches IsTrusted
  scanned_cases r fp m failed cleared stashed plain applied =
      ground (arith, failed key_changed, cleared trust_mismatch)

  pub resolved_cases :
      (r : Resolved) (m : Manager)
      → ((e : ConnectError) → P (fails e r.secrets m))
      → ((fp : Bytes)
          → text_eq r.config.protocol sftp ≡ true
          → out.scanned ≡ some fp
          → P (scanned_sftp E out q r fp m))
      → (text_eq r.config.protocol sftp ≡ false
          → P (
              start_session out r.config transfer_to_curl
                (new_curl_ftp out r.config r.secrets m.live)
                r.secrets
                m))
      → P (connect_resolved E out q r m)
  unfolding connect_resolved
  resolved_cases r m failed scanned curl = elim (Option-cases out.scanned) [
    | inl e ↦ ground (arith, e, failed unsafe_directory, failed scan_failed)
    | inr (fp, e) ↦
        let at_key : text_eq r.config.protocol sftp ≡ true → P (scanned_sftp E out q r fp m) =
          λ t. scanned fp t e in
        ground (arith, e, failed unsafe_directory, at_key)
  ]

  pub body_cases :
      (m : Manager)
      → ((e : ConnectError) → P (fails e no_secrets m))
      → ((e : ConnectError) → P (fails e no_secrets (clear_pending_trust m)))
      → ((r : Resolved)
          → m.session ≡ none
          → m.closing ≡ none
          → resolve E q.profile_id out.profile q.input ≡ resolved r
          → P (connect_resolved E out q r (if is_blank q.trust then clear_pending_trust m else m)))
      → P (connect_body E out q m)
  unfolding connect_body
  body_cases m failed cleared went = elim (Option-cases m.session) [
    | inr (s, e) ↦ ground (arith, e, failed already_connected)
    | inl e ↦ elim (Option-cases m.closing) [
      | inr (s, f) ↦ ground (arith, e, f, failed session_closing)
      | inl f ↦ elim (Resolution-cases (resolve E q.profile_id out.profile q.input)) [
        | inl (x, g) ↦ ground (arith, e, f, g, cleared x)
        | inr (r, g) ↦ ground (arith, e, f, g, went r e f g)
      ]
    ]
  ]
