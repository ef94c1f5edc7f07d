-- ===== src/Config/Settings.antt =====
-- internal/model/types.go (Settings) and the pure part of internal/config/settings.go: defaults,
-- migration, normalization and validation. An `int` is an integer here; nothing is added to one.
use host_ftp.Base.{
  ℤ, pos, leb_ℤ, Bytes, codes, Bool, true, false, ◌&&◌, ◌||◌, not, Option, none, some,
  if◌then◌else◌, text_eq, is_blank,
}
use host_ftp.Config.Languages.{default_language, is_supported, normalize}

pub record Settings : Type 0 where
  pub language : Bytes
  pub appearance : Bytes
  pub parallelism : ℤ
  pub upload_limit : ℤ
  pub download_limit : ℤ
  pub conflict_policy : Bytes
  pub backup_before_overwrite : Bool
  pub confirm_delete : Bool
  pub auto_retry_count : ℤ
  pub retry_delay_seconds : ℤ
  pub skip_existing : Bool
  pub connection_timeout_seconds : ℤ

abbrev pub dark : Bytes
dark = codes "dark"

abbrev pub light : Bytes
light = codes "light"

abbrev pub policy_skip : Bytes
policy_skip = codes "skip"

abbrev pub policy_replace : Bytes
policy_replace = codes "replace"

abbrev pub policy_replace_backup : Bytes
policy_replace_backup = codes "replace_backup"

unfoldable pub default_settings : Settings
default_settings = record {
  language = default_language;
  appearance = dark;
  parallelism = pos 2;
  upload_limit = pos 0;
  download_limit = pos 0;
  conflict_policy = policy_replace_backup;
  backup_before_overwrite = true;
  confirm_delete = true;
  auto_retry_count = pos 0;
  retry_delay_seconds = pos 3;
  skip_existing = false;
  connection_timeout_seconds = pos 15;
}

unfoldable pub valid_appearance : Bytes → Bool
valid_appearance a = text_eq a dark || text_eq a light

unfoldable pub valid_conflict_policy : Bytes → Bool
valid_conflict_policy p =
    text_eq p policy_skip || text_eq p policy_replace || text_eq p policy_replace_backup

abbrev pub max_bandwidth_limit : ℤ
max_bandwidth_limit = pos 1048576

-- `v >= low && v <= high`.
unfoldable pub within : ℤ → ℤ → ℤ → Bool
within low high v = leb_ℤ low v && leb_ℤ v high

unfoldable pub valid_bandwidth_limit : ℤ → Bool
unfolding within
valid_bandwidth_limit v = within (pos 0) max_bandwidth_limit v

unfoldable pub migrated_policy : Settings → Bool → Bytes
migrated_policy v persisted =
    if is_blank v.conflict_policy
    then if v.skip_existing
      then policy_skip
      else if v.backup_before_overwrite
      then policy_replace_backup
      else policy_replace
    else if not (valid_conflict_policy v.conflict_policy) && persisted
    then policy_replace_backup
    else v.conflict_policy

-- The second switch of migrateConflictPolicy.
unfoldable pub synchronize : Bytes → Settings → Settings
synchronize p v =
    if text_eq p policy_skip
    then record v { conflict_policy = p; skip_existing = true; backup_before_overwrite = true }
    else if text_eq p policy_replace
    then record v { conflict_policy = p; skip_existing = false; backup_before_overwrite = false }
    else if text_eq p policy_replace_backup
    then record v { conflict_policy = p; skip_existing = false; backup_before_overwrite = true }
    else record v { conflict_policy = p }

unfoldable pub migrate_conflict_policy : Settings → Bool → Settings
unfolding migrated_policy synchronize
migrate_conflict_policy v persisted = synchronize (migrated_policy v persisted) v

unfoldable pub or_default : ℤ → ℤ → ℤ → ℤ → ℤ
or_default low high fallback v = if within low high v then v else fallback

module _ (lower : Bytes → Bytes) where
  -- normalizeSettings up to its last line.
  unfoldable pub normalize_fields : Settings → Settings
  unfolding or_default
  normalize_fields v = record v {
    language = normalize lower v.language;
    appearance = if valid_appearance v.appearance then v.appearance else dark;
    parallelism = or_default (pos 1) (pos 8) (pos 2) v.parallelism;
    upload_limit = or_default (pos 0) max_bandwidth_limit (pos 0) v.upload_limit;
    download_limit = or_default (pos 0) max_bandwidth_limit (pos 0) v.download_limit;
    auto_retry_count = or_default (pos 0) (pos 3) (pos 0) v.auto_retry_count;
    retry_delay_seconds = or_default (pos 1) (pos 30) (pos 3) v.retry_delay_seconds;
    connection_timeout_seconds = or_default (pos 5) (pos 60) (pos 15) v.connection_timeout_seconds;
  }

  unfoldable pub normalize_settings : Settings → Settings
  unfolding normalize_fields migrate_conflict_policy
  normalize_settings v = migrate_conflict_policy (normalize_fields v) true

  -- `none` is the error nil.
  unfoldable pub validate_settings : Settings → Option Bytes
  unfolding within valid_bandwidth_limit
  validate_settings v =
      if not (is_supported lower v.language)
      then some (codes "unsupported language")
      else if not (valid_appearance v.appearance)
      then some (codes "appearance must be dark or light")
      else if not (within (pos 1) (pos 8) v.parallelism)
      then some (codes "parallel transfers must be between 1 and 8")
      else if not (valid_bandwidth_limit v.upload_limit)
      then some
          (codes "upload bandwidth limit must be between 0 and 1048576 KiB/s; 0 means unlimited")
      else if not (valid_bandwidth_limit v.download_limit)
      then some
          (codes "download bandwidth limit must be between 0 and 1048576 KiB/s; 0 means unlimited")
      else if not (valid_conflict_policy v.conflict_policy)
      then some (codes "conflict policy must be skip, replace, or replace_backup")
      else if not (within (pos 0) (pos 3) v.auto_retry_count)
      then some (codes "automatic retries must be between 0 and 3")
      else if not (within (pos 1) (pos 30) v.retry_delay_seconds)
      then some (codes "retry delay must be between 1 and 30 seconds")
      else if not (within (pos 5) (pos 60) v.connection_timeout_seconds)
      then some (codes "connection timeout must be between 5 and 60 seconds")
      else none

-- The two older fields say the same as the policy.
unfoldable pub agrees : Settings → Bool
agrees v =
    if text_eq v.conflict_policy policy_skip
    then v.skip_existing
    else not v.skip_existing
      && (if text_eq v.conflict_policy policy_replace
          then not v.backup_before_overwrite
          else v.backup_before_overwrite)
