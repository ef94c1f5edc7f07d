-- ===== src/Config/Validity.antt =====
-- That what SettingsStore hands out is valid: internal/config/settings.go.
use host_ftp.Base.{
  ℤ, pos, ◌≡◌, refl, Bytes, Bool, true, false, Option, none, some, arith, if◌then◌else◌, text_eq,
  subst, Bool-cases, inl, inr,
}
use host_ftp.Config.Languages.{
  normalize, is_supported, Lowers, normalize-is_supported, default_language-is_supported,
}
use host_ftp.Config.Settings.{
  Settings, dark, policy_skip, policy_replace, policy_replace_backup, within, or_default,
  max_bandwidth_limit, valid_appearance, valid_bandwidth_limit, valid_conflict_policy,
  migrated_policy, synchronize, default_settings, migrate_conflict_policy, normalize_fields,
  normalize_settings, validate_settings, agrees,
}
use host_ftp.Config.Store.{SettingsStore, get, effective, write_valid, completed, set_settings}

-- Settings that the program may run with: they pass the checks, and the older fields agree.
pub IsSound : (Bytes → Bytes) → Settings → Type 0
IsSound lower v = (validate_settings lower v ≡ none) × (agrees v ≡ true)

dark_valid : valid_appearance dark ≡ true
unfolding valid_appearance text_eq
dark_valid = refl

within_default :
    (low high fallback v : ℤ)
    → within low high fallback ≡ true
    → within low high (or_default low high fallback v) ≡ true
unfolding or_default
within_default low high fallback v h = ground (arith, h)

migrated_valid : (v : Settings) → valid_conflict_policy (migrated_policy v true) ≡ true
unfolding migrated_policy valid_conflict_policy text_eq
migrated_valid v = ground arith

synchronize-agrees :
    (p : Bytes) (v : Settings) → valid_conflict_policy p ≡ true → agrees (synchronize p v) ≡ true
unfolding synchronize agrees valid_conflict_policy
synchronize-agrees p v h = ground (arith, h)

-- The checks but for the policy's, which `synchronize` leaves alone.
IsPassing : (Bytes → Bytes) → Settings → Type 0
IsPassing lower v =
    (is_supported lower v.language ≡ true)
    × (valid_appearance v.appearance ≡ true)
    × (within (pos 1) (pos 8) v.parallelism ≡ true)
    × (valid_bandwidth_limit v.upload_limit ≡ true)
    × (valid_bandwidth_limit v.download_limit ≡ true)
    × (within (pos 0) (pos 3) v.auto_retry_count ≡ true)
    × (within (pos 1) (pos 30) v.retry_delay_seconds ≡ true)
    × (within (pos 5) (pos 60) v.connection_timeout_seconds ≡ true)

passing :
    (lower : Bytes → Bytes) (v : Settings)
    → IsPassing lower v
    → valid_conflict_policy v.conflict_policy ≡ true
    → validate_settings lower v ≡ none
unfolding IsPassing validate_settings
passing lower v (a, b, c, d, e, f, g, h) p = rw (a, b, c, d, e, f, g, h, p) refl

passed :
    (lower : Bytes → Bytes) (v : Settings)
    → validate_settings lower v ≡ none
    → IsPassing lower v × (valid_conflict_policy v.conflict_policy ≡ true)
unfolding IsPassing validate_settings
passed lower v h = ground (arith, h)

synchronize_valid :
    (lower : Bytes → Bytes) (p : Bytes) (v : Settings)
    → IsPassing lower v
    → valid_conflict_policy p ≡ true
    → validate_settings lower (synchronize p v) ≡ none
unfolding synchronize IsPassing
synchronize_valid lower p v ok h = elim (Bool-cases (text_eq p policy_skip)) [
  | inl e ↦ rw e (passing lower _ ok h)
  | inr e ↦ elim (Bool-cases (text_eq p policy_replace)) [
    | inl f ↦ rw (e, f) (passing lower _ ok h)
    | inr f ↦ elim (Bool-cases (text_eq p policy_replace_backup)) [
      | inl g ↦ rw (e, f, g) (passing lower _ ok h)
      | inr g ↦ rw (e, f, g) (passing lower _ ok h)
    ]
  ]
]

appearance_lem : (a : Bytes) → valid_appearance (if valid_appearance a then a else dark) ≡ true
appearance_lem a = ground (arith, dark_valid)

normalize_fields-IsPassing :
    (lower : Bytes → Bytes) (v : Settings)
    → Lowers lower
    → IsPassing lower (normalize_fields lower v)
unfolding IsPassing normalize_fields within valid_bandwidth_limit
normalize_fields-IsPassing lower v law = (
  normalize-is_supported lower v.language law,
  appearance_lem v.appearance,
  within_default (pos 1) (pos 8) (pos 2) v.parallelism refl,
  within_default (pos 0) max_bandwidth_limit (pos 0) v.upload_limit refl,
  within_default (pos 0) max_bandwidth_limit (pos 0) v.download_limit refl,
  within_default (pos 0) (pos 3) (pos 0) v.auto_retry_count refl,
  within_default (pos 1) (pos 30) (pos 3) v.retry_delay_seconds refl,
  within_default (pos 5) (pos 60) (pos 15) v.connection_timeout_seconds refl,
)

-- Whatever stands in the file, its normalized form passes the checks, and its older fields agree
-- with its policy.
pub normalize_settings-IsSound :
    (lower : Bytes → Bytes) (v : Settings)
    → Lowers lower
    → IsSound lower (normalize_settings lower v)
unfolding IsSound normalize_settings migrate_conflict_policy
normalize_settings-IsSound lower v law =
    let w = normalize_fields lower v in
    (
      synchronize_valid lower (migrated_policy w true) w (normalize_fields-IsPassing lower v law)
          (migrated_valid w),
      synchronize-agrees (migrated_policy w true) w (migrated_valid w),
    )

synchronize_policy : (p : Bytes) (v : Settings) → (synchronize p v).conflict_policy ≡ p
unfolding synchronize
synchronize_policy p v = ground arith

default_settings-IsSound : (lower : Bytes → Bytes) → Lowers lower → IsSound lower default_settings
unfolding IsSound default_settings IsPassing valid_appearance valid_conflict_policy within
    valid_bandwidth_limit agrees text_eq
default_settings-IsSound lower law = (
  passing lower default_settings
      (default_language-is_supported lower law, refl, refl, refl, refl, refl, refl, refl) refl,
  refl,
)

-- A store whose value, if it is loaded, may be run with.
abbrev pub HasSound : (Bytes → Bytes) → SettingsStore → Type 0
HasSound lower s = s.loaded ≡ true → IsSound lower s.value

relabelled :
    (lower : Bytes → Bytes) (w : Settings)
    → Lowers lower
    → IsPassing lower w
    → IsPassing lower (record w { language = normalize lower w.language })
unfolding IsPassing
relabelled lower w law (a, b, c, d, e, f, g, h) =
    (normalize-is_supported lower w.language law, b, c, d, e, f, g, h)

-- What Set accepts.
accepted-IsSound :
    (lower : Bytes → Bytes) (v : Settings)
    → Lowers lower
    → validate_settings lower (migrate_conflict_policy v false) ≡ none
    → let w = migrate_conflict_policy v false in
      IsSound lower (record w { language = normalize lower w.language })
unfolding IsSound migrate_conflict_policy
accepted-IsSound lower v law h =
    let p = migrated_policy v false in
    let (ok, valid) = passed lower (synchronize p v) h in
    let same : (synchronize p v).conflict_policy ≡ p = synchronize_policy p v in
    let q : valid_conflict_policy p ≡ true =
      subst (λ x. valid_conflict_policy x ≡ true) same valid in
    (
      passing lower _ (relabelled lower (synchronize p v) law ok) valid,
      unfold agrees in synchronize-agrees p v q,
    )

written_lem :
    (lower : Bytes → Bytes) (o : Option Bytes) (w u : Settings) (writable : Bool)
    (s : SettingsStore)
    → HasSound lower s
    → (o ≡ none → IsSound lower u)
    → let t = write_valid o w u writable s in HasSound lower t.0 × (t.2 ≡ true → IsSound lower t.1)
unfolding write_valid
written_lem lower (some e) w u writable s h k = (h, λ x. absurd (ground (arith, x)))
written_lem lower none w u true s h k = ((λ _. k refl), λ _. k refl)
written_lem lower none w u false s h k = (h, λ x. absurd (ground (arith, x)))

-- Set keeps the store sound, and what it returns with no error may be run with.
pub set_settings-IsSound :
    (lower : Bytes → Bytes) (v : Settings) (writable : Bool) (s : SettingsStore)
    → Lowers lower
    → HasSound lower s
    → let t = set_settings lower v writable s in
      HasSound lower t.0 × (t.2 ≡ true → IsSound lower t.1)
unfolding set_settings
set_settings-IsSound lower v writable s law h =
    let w = migrate_conflict_policy (completed lower v) false in
    written_lem lower (validate_settings lower w) w
      (record w { language = normalize lower w.language }) writable s h
      (accepted-IsSound lower (completed lower v) law)

-- Get and Effective keep the store sound; Effective returns settings that may be run with,
-- whatever the file holds and whether or not it can be read.
pub effective-IsSound :
    (lower : Bytes → Bytes) (decoded : Settings) (readable : Bool) (s : SettingsStore)
    → Lowers lower
    → HasSound lower s
    → let t = effective lower decoded readable s in HasSound lower t.0 × IsSound lower t.1
unfolding effective
effective-IsSound lower decoded readable s law h =
    let fine = normalize_settings-IsSound lower decoded law in
    elim (Bool-cases s.loaded) [
      | inl e ↦ rw (e, get) ((λ _. h e), h e)
      | inr e ↦ elim (Bool-cases readable) [
        | inl r ↦ rw (e, get, r) ((λ _. fine), fine)
        | inr r ↦
            rw (e, get, r) ((λ x. absurd (ground (arith, x))), default_settings-IsSound lower law)
      ]
    ]
