-- ===== src/Remote/Session/Owners.antt =====
-- Connect as a whole keeps each live secret with one owner: internal/remote/manager.go.
use host_ftp.Base.{
  ℕ, ◌≡◌, refl, sym, ◌∙◌, subst, Bytes, false, Option, inl, inr, arith, if_cases, Bool-cases,
  Option-cases, is_blank,
}
use host_ftp.Remote.Secrets.{Secrets, no_secrets}
use host_ftp.Remote.Session.{
  Platform, ConnectionConfig, no_config, Manager, Profile, Resolved, resolve, resolved,
  check_resolved, borrowed, config_error, without_passphrase, persistent_profile_secret_to_runtime,
  sanitize_protocol_state, no_profile, merge_connection,
}
use host_ftp.Remote.Session.Trust.{
  Protections, clear_pending_trust, hand_over, apply_pending_trust, take_trust, trust_applies,
}
use host_ftp.Remote.Session.Connect.{
  Outside, Request, fails, scanned_sftp, connect_resolved, connect_body, connect, transfer_to_curl,
}
use host_ftp.Remote.Session.Branches.{scanned_cases, resolved_cases, body_cases}
use host_ftp.Remote.Session.Handover.{
  IsFresh, forget_owned-IsFresh, new_curl_ftp-Built, curl-Transfers,
}
use host_ftp.Remote.Session.Ownership.{
  IsKept, KeptWith, OutKept, IsStart, nothing_owned, owns_nothing, clear-IsKept,
  trusted_sftp-OutKept, stash-OutKept, apply-KeptWith, apply-session, hand_over_lem,
  start_session-OutKept, run_deferred-IsKept,
}

-- Resolve only borrows.
borrowed-none :
    (E : Platform) (input cfg : ConnectionConfig) (p : Profile)
    → ((borrowed E input cfg p).owns_password ≡ false)
      × ((borrowed E input cfg p).owns_passphrase ≡ false)
unfolding borrowed persistent_profile_secret_to_runtime
borrowed-none E input cfg p = (ground arith, ground arith)

OwnsNone : Secrets → Type 0
OwnsNone s = (s.owns_password ≡ false) × (s.owns_passphrase ≡ false)

checked-none :
    (E : Platform) (given r : Resolved)
    → OwnsNone given.secrets
    → check_resolved E given ≡ resolved r
    → OwnsNone r.secrets
unfolding check_resolved OwnsNone without_passphrase
checked-none E given r n h =
    elim (Option-cases (config_error E (sanitize_protocol_state E given.config))) [
      | inr (x, e) ↦ absurd (ground (arith, h, e))
      | inl e ↦ (ground (arith, h, e, n.0), ground (arith, h, e, n.1))
    ]

resolve-none :
    (E : Platform) (id : Bytes) (found : Option Profile) (given : ConnectionConfig) (r : Resolved)
    → resolve E id found given ≡ resolved r
    → OwnsNone r.secrets
unfolding resolve OwnsNone
resolve-none E id found given r h =
    let input = sanitize_protocol_state E given in
    elim (Bool-cases (is_blank id)) [
      | inl e ↦
          checked-none E (record { config = input; secrets = no_secrets; profile = no_profile }) r
            (refl, refl) (ground (arith, h, e))
      | inr e ↦ elim (Option-cases found) [
        | inl f ↦ absurd (ground (arith, h, e, f))
        | inr (p, f) ↦
            let cfg =
              merge_connection E
                (record no_config {
                  protocol = p.protocol;
                  host = p.host;
                  port = p.port;
                  username = p.username;
                })
                input in
            checked-none E (record { config = cfg; secrets = borrowed E input cfg p; profile = p })
              r (borrowed-none E input cfg p) (ground (arith, h, e, f))
      ]
    ]

apply-IsFresh :
    (E : Platform) (cfg : ConnectionConfig) (r : Secrets) (fp : Bytes) (now : ℕ) (m : Manager)
    (answers : Protections)
    → IsStart r m
    → IsFresh answers m.live
    → IsFresh answers (apply_pending_trust E cfg r fp now m).0.live
unfolding apply_pending_trust take_trust
apply-IsFresh E cfg r fp now m answers v f =
    let p = m.pending_trust in
    let x =
      hand_over cfg.password p.secrets.password_blob p.secrets.owns_password r.password_blob
        r.owns_password m.live in
    let first =
      hand_over_lem cfg.password p.secrets.password_blob p.secrets.owns_password r.password_blob
        r.owns_password m.live v.no_password in
    let second =
      hand_over_lem cfg.passphrase p.secrets.passphrase_blob p.secrets.owns_passphrase
        r.passphrase_blob r.owns_passphrase x.3 v.no_passphrase in
    let y =
      hand_over cfg.passphrase p.secrets.passphrase_blob p.secrets.owns_passphrase r.passphrase_blob
        r.owns_passphrase x.3 in
    let left : Secrets = record (p.secrets) { owns_password = x.2; owns_passphrase = y.2 } in
    elim (Bool-cases (trust_applies E cfg fp now p)) [
      | inl e ↦ simp e (
          forget_owned-IsFresh left answers y.3
            (subst (IsFresh answers) (sym (second.1 ∙ first.1)) f))
      | inr e ↦ simp e (forget_owned-IsFresh p.secrets answers m.live f)
    ]

module _ (E : Platform) (out : Outside) (q : Request) where
  scanned-OutKept :
      (r : Resolved) (fp : Bytes) (m : Manager)
      → IsStart r.secrets m
      → IsFresh out.protections m.live
      → IsKept m
      → OutKept (scanned_sftp E out q r fp m)
  scanned-OutKept r fp m v f h =
      let kept : KeptWith r.secrets m =
        λ b. omega (arith, h b, owns_nothing r.secrets v.no_password v.no_passphrase b) in
      let cleared : KeptWith r.secrets (clear_pending_trust m) = λ b.
        omega (arith, clear-IsKept m h b, owns_nothing r.secrets v.no_password v.no_passphrase b) in
      scanned_cases OutKept E out q r fp m (λ e. record { kept = unfold fails in kept })
        (λ e. record { kept = unfold fails in cleared })
        (stash-OutKept E r.config r fp out.now out.protections m v f h)
        (λ _. trusted_sftp-OutKept E out q r fp m r.secrets v.no_session f kept)
        (λ _.
          trusted_sftp-OutKept E out q r fp _ _
            (apply-session E r.config r.secrets fp out.now m ∙ v.no_session)
            (apply-IsFresh E r.config r.secrets fp out.now m out.protections v f)
            (apply-KeptWith E r.config r.secrets fp out.now m v h))

  resolved-OutKept :
      (r : Resolved) (m : Manager)
      → IsStart r.secrets m
      → IsFresh out.protections m.live
      → IsKept m
      → OutKept (connect_resolved E out q r m)
  resolved-OutKept r m v f h =
      let kept : KeptWith r.secrets m =
        λ b. omega (arith, h b, owns_nothing r.secrets v.no_password v.no_passphrase b) in
      resolved_cases OutKept E out q r m (λ e. record { kept = unfold fails in kept })
        (λ fp _ _. scanned-OutKept r fp m v f h)
        (λ _.
          start_session-OutKept out r.config transfer_to_curl _ r.secrets m v.no_session
            curl-Transfers (new_curl_ftp-Built out r.config r.secrets m.live _ f kept))

  body-OutKept :
      (m : Manager) → IsFresh out.protections m.live → IsKept m → OutKept (connect_body E out q m)
  unfolding OwnsNone
  body-OutKept m f h =
      let cleared = clear-IsKept m h in
      body_cases OutKept E out q m
        (λ e. record { kept = unfold fails in λ b. omega (arith, h b, nothing_owned b) })
        (λ e. record { kept = unfold fails in λ b. omega (arith, cleared b, nothing_owned b) })
        (λ r none_yet _ g.
          let n : OwnsNone r.secrets = resolve-none E q.profile_id out.profile q.input r g in
          if_cases (λ k. OutKept (connect_resolved E out q r k)) (is_blank q.trust)
            (clear_pending_trust m) m
            (λ _.
              unfold clear_pending_trust in
              resolved-OutKept r (clear_pending_trust m)
                (record { no_session = none_yet; no_password = n.0; no_passphrase = n.1 })
                (forget_owned-IsFresh m.pending_trust.secrets out.protections m.live f) cleared)
            (λ _.
              resolved-OutKept r m
                (record { no_session = none_yet; no_password = n.0; no_passphrase = n.1 }) f h))

  pub connect-IsKept :
      (m : Manager) → IsFresh out.protections m.live → IsKept m → IsKept (connect E out q m).0
  unfolding connect
  connect-IsKept m f h = run_deferred-IsKept (connect_body E out q m) (body-OutKept m f h)
