-- ===== src/Update/Manifests.antt =====
-- internal/updatecheck/updatecheck.go: Manifest, validateManifest, TrustedURL, validSHA256 and the
-- end of checkURL.
use host_ftp.Base.{
  ℕ, ℤ, pos, Bytes, codes, Bool, true, false, ◌&&◌, ◌||◌, not, [], ◌∷◌, Option, none, some, ltb,
  leb, ◌==◌, if◌then◌else◌, length, text_eq, is_blank, trim_space,
}
use host_ftp.Update.Versions.{Version, parse_version, format_version, compare_versions}

pub record Manifest : Type 0 where
  pub schema : ℤ
  pub version : Bytes
  pub setup_url : Bytes
  pub setup_sha256 : Bytes
  pub portable_url : Bytes
  pub portable_sha256 : Bytes
  pub updater_url : Bytes
  pub updater_sha256 : Bytes

pub data Refusal : Type 0 where
  invalid_current_version invalid_manifest untrusted_update_url : Refusal
  -- Failures of the request: the connection, the status and the reading of the body.
  request_failed : Refusal

-- UpdateURL, a constant of the brand package, is left out.
pub record Offer : Type 0 where
  pub current_version : Bytes
  pub latest_version : Bytes
  pub setup_url : Bytes
  pub setup_sha256 : Bytes
  pub portable_url : Bytes
  pub portable_sha256 : Bytes
  pub updater_url : Bytes
  pub updater_sha256 : Bytes
  pub available : Bool

pub data Answer {ℓ} (A : Type ℓ) : Type ℓ where
  refused : Refusal → Answer A
  accepted : A → Answer A

-- What `url.Parse` finds: the scheme, whether there is user information, and the host's name.
pub record Url : Type 0 where
  pub scheme : Bytes
  pub has_user : Bool
  pub hostname : Bytes

is_hex : ℕ → Bool
is_hex c = (leb b'0' c && leb c b'9') || (leb b'a' c && leb c b'f') || (leb b'A' c && leb c b'F')

all_hex : Bytes → Bool
unfolding is_hex
all_hex [] = true
all_hex (c ∷ s) = is_hex c && all_hex s

unfoldable pub valid_sha256 : Bytes → Bool
unfolding all_hex
valid_sha256 value = length (trim_space value) == 64 && all_hex (trim_space value)

unfoldable pub trusted_host : Option Url → (Bytes → Bool) → Bool
trusted_host none is_host = false
trusted_host (some u) is_host =
    text_eq u.scheme (codes "https") && not u.has_user && is_host u.hostname

is_one : ℤ → Bool
is_one z = elim z [ pos n ↦ n == 1 | _ ↦ false ]

-- `parse` is `url.Parse`, `is_host` is `strings.EqualFold(_, "update.ghostftp.com")` and `lower` is
-- `strings.ToLower`.
module _ (parse : Bytes → Option Url) (is_host : Bytes → Bool) (lower : Bytes → Bytes) where
  unfoldable pub trusted_url : Bytes → Bool
  unfolding trusted_host
  trusted_url value = trusted_host (parse (trim_space value)) is_host

  unfoldable pub validate_manifest : Manifest → Bool → Answer Version
  unfolding is_one valid_sha256 trusted_url
  validate_manifest m require_trusted =
      if not (is_one m.schema) then refused invalid_manifest else elim (parse_version m.version) [
        | none ↦ refused invalid_manifest
        | some latest ↦
            if not (valid_sha256 m.setup_sha256) || not (valid_sha256 m.portable_sha256)
            then refused invalid_manifest
            else if not (is_blank (trim_space m.updater_url)) && not (valid_sha256 m.updater_sha256)
            then refused invalid_manifest
            else if require_trusted
                && (not (trusted_url m.setup_url) || not (trusted_url m.portable_url))
            then refused untrusted_update_url
            else if require_trusted
                && not (is_blank m.updater_url)
                && not (trusted_url m.updater_url)
            then refused untrusted_update_url
            else if is_blank (trim_space m.setup_url) || is_blank (trim_space m.portable_url)
            then refused invalid_manifest
            else accepted latest
      ]

  unfoldable pub offer : Version → Version → Manifest → Offer
  offer current latest m = record {
    current_version = format_version current;
    latest_version = format_version latest;
    setup_url = m.setup_url;
    setup_sha256 = lower m.setup_sha256;
    portable_url = m.portable_url;
    portable_sha256 = lower m.portable_sha256;
    updater_url = m.updater_url;
    updater_sha256 = lower m.updater_sha256;
    available = elim (compare_versions latest current) [ pos n ↦ ltb 0 n | _ ↦ false ];
  }

  -- checkURL, with what `fetch` makes of the request: the status, and the body's length and
  -- manifest where it decodes to one.
  unfoldable pub check_url : Option (ℕ × ℕ × Option Manifest) → Bytes → Bytes → Bool → Answer Offer
  unfolding validate_manifest offer trusted_url
  check_url fetch manifest_url current_version require_trusted =
      elim (parse_version current_version) [
        | none ↦ refused invalid_current_version
        | some current ↦
            if require_trusted && not (trusted_url manifest_url)
            then refused untrusted_update_url
            else elim fetch [
              | none ↦ refused request_failed
              | some (status, size, decoded) ↦
                  if not (status == 200)
                  then refused request_failed
                  else if size == 0 || ltb 65536 size
                  then refused invalid_manifest
                  else elim decoded [
                    | none ↦ refused invalid_manifest
                    | some m ↦ elim (validate_manifest m require_trusted) [
                      | refused e ↦ refused e
                      | accepted latest ↦ accepted (offer current latest m)
                    ]
                  ]
            ]
      ]
