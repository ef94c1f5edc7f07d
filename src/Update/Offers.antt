-- ===== src/Update/Offers.antt =====
-- What an update that is offered has been checked for: internal/updatecheck/updatecheck.go.
use host_ftp.Base.{
  ℕ, ◌<◌, ◌≡◌, refl, sym, subst, pos, Bytes, Bool, true, Option, some, arith, is_blank, trim_space,
  Option-cases, inl, inr, ◌⊎◌,
}
use host_ftp.Update.Versions.{
  Version, parse_version, compare_versions, rank, newer_lem, parse_version-IsSmall,
}
use host_ftp.Update.Manifests.{
  Manifest, Refusal, Offer, Answer, refused, accepted, Url, trusted_url, valid_sha256,
  validate_manifest, offer, check_url,
}

Answer-cases {ℓ} :
    {A : Type ℓ} (x : Answer A) → ((e : Refusal) × (x ≡ refused e)) ⊎ ((a : A) × (x ≡ accepted a))
Answer-cases (refused e) = inl (e, refl)
Answer-cases (accepted a) = inr (a, refl)

module _ (parse : Bytes → Option Url) (is_host : Bytes → Bool) (lower : Bytes → Bytes) where
  -- A manifest that may be acted on: its addresses are trusted and its digests well-formed, the
  -- updater's as well if it has one.
  pub IsTrusted : Manifest → Type 0
  IsTrusted m =
      (trusted_url parse is_host lower m.setup_url ≡ true)
      × (trusted_url parse is_host lower m.portable_url ≡ true)
      × (valid_sha256 m.setup_sha256 ≡ true)
      × (valid_sha256 m.portable_sha256 ≡ true)
      × ((is_blank m.updater_url ≡ true) ⊎ (trusted_url parse is_host lower m.updater_url ≡ true))
      × ((is_blank (trim_space m.updater_url) ≡ true) ⊎ (valid_sha256 m.updater_sha256 ≡ true))

  validated :
      (m : Manifest) (latest : Version)
      → validate_manifest parse is_host lower m true ≡ accepted latest
      → (parse_version m.version ≡ some latest) × IsTrusted m
  unfolding validate_manifest IsTrusted
  validated m latest h = elim (Option-cases (parse_version m.version)) [
    | inl e ↦ absurd (ground (arith, h, e))
    | inr (v, e) ↦
        let same : v ≡ latest = ground (arith, h, e) in (ground (arith, h, e), ground (arith, h, e))
  ]

  offer_newer :
      (current latest : Version) (m : Manifest)
      → (offer parse is_host lower current latest m).available ≡ true
      → compare_versions latest current ≡ pos 1
  unfolding offer compare_versions
  offer_newer current latest m h = ground (arith, h)

  -- An answer to a trusted check is an offer made from a manifest of a trusted address that passed
  -- the checks. Its version is called available only if it is above the current one.
  pub check_url_lem :
      (fetch : Option (ℕ × ℕ × Option Manifest)) (manifest_url current_version : Bytes) (o : Offer)
      → check_url parse is_host lower fetch manifest_url current_version true ≡ accepted o
      → (trusted_url parse is_host lower manifest_url ≡ true)
        × ((current : Version) × (latest : Version) × (m : Manifest) × (parse_version
                current_version
              ≡ some current)
            × (parse_version m.version ≡ some latest)
            × (o ≡ offer parse is_host lower current latest m)
            × IsTrusted m
            × (o.available ≡ true → rank current < rank latest))
  unfolding check_url
  check_url_lem fetch manifest_url current_version o h =
      elim (Option-cases (parse_version current_version)) [
        | inl e ↦ absurd (ground (arith, h, e))
        | inr (current, e) ↦ elim (Option-cases fetch) [
          | inl f ↦ absurd (ground (arith, h, e, f))
          | inr ((status, size, decoded), f) ↦ elim (Option-cases decoded) [
            | inl d ↦ absurd (ground (arith, h, e, f, d))
            | inr (m, d) ↦ elim (Answer-cases (validate_manifest parse is_host lower m true)) [
              | inl (r, v) ↦ absurd (ground (arith, h, e, f, d, v))
              | inr (latest, v) ↦
                  let same : offer parse is_host lower current latest m ≡ o =
                    ground (arith, h, e, f, d, v) in
                  let (parsed, trusted) = validated m latest v in
                  let newer : o.available ≡ true → rank current < rank latest = λ x.
                    newer_lem latest current (parse_version-IsSmall _ latest parsed)
                      (parse_version-IsSmall _ current e)
                      (offer_newer current latest m
                        (subst (λ y. y.available ≡ true) (sym same) x)) in
                  (ground (arith, h, e), (current, latest, m, e, parsed, sym same, trusted, newer))
            ]
          ]
        ]
      ]
