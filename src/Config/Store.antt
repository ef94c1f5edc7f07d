-- ===== src/Config/Store.antt =====
-- internal/config/settings.go, SettingsStore. The files behind it are internal/config/store.go: what
-- `Read` decodes and whether it and `Write` return nil are arguments.
use host_ftp.Base.{
  ℤ, pos, Bytes, Bool, true, false, Option, none, some, if◌then◌else◌, ◌==◌, is_blank,
}
use host_ftp.Config.Languages.{default_language, normalize}
use host_ftp.Config.Settings.{
  Settings, dark, default_settings, migrate_conflict_policy, normalize_settings, validate_settings,
}

-- `loaded` and `value`: the value is read only where `loaded` is set.
pub record SettingsStore : Type 0 where
  pub loaded : Bool
  pub value : Settings

is_zero : ℤ → Bool
is_zero v = elim v [ pos n ↦ n == 0 | _ ↦ false ]

-- The end of Set, from the answer of validateSettings on.
unfoldable pub write_valid :
    Option Bytes → Settings → Settings → Bool → SettingsStore → SettingsStore × Settings × Bool
write_valid (some e) w u writable s = (s, w, false)
write_valid none w u true s = (record s { loaded = true; value = u }, u, true)
write_valid none w u false s = (s, u, false)

module _ (lower : Bytes → Bytes) where
  -- Get: the settings, whether the error is nil, and the store.
  unfoldable pub get : Settings → Bool → SettingsStore → SettingsStore × Settings × Bool
  get decoded readable s =
      let v = normalize_settings lower decoded in
      if s.loaded
      then (s, s.value, true)
      else if readable
      then (record s { loaded = true; value = v }, v, true)
      else (s, v, false)

  -- Effective, on a store that is there.
  unfoldable pub effective : Settings → Bool → SettingsStore → SettingsStore × Settings
  unfolding get
  effective decoded readable s =
      let (s', v, fine) = get decoded readable s in (s', if fine then v else default_settings)

  -- What Set makes of missing values.
  unfoldable pub completed : Settings → Settings
  unfolding is_zero
  completed v = record v {
    language = if is_blank v.language then default_language else v.language;
    appearance = if is_blank v.appearance then dark else v.appearance;
    parallelism = if is_zero v.parallelism then pos 2 else v.parallelism;
    connection_timeout_seconds =
        if is_zero v.connection_timeout_seconds then pos 15 else v.connection_timeout_seconds;
    retry_delay_seconds = if is_zero v.retry_delay_seconds then pos 3 else v.retry_delay_seconds;
  }

  -- Set: the error is nil where the last component is true.
  unfoldable pub set_settings : Settings → Bool → SettingsStore → SettingsStore × Settings × Bool
  unfolding completed write_valid
  set_settings v writable s =
      let w = migrate_conflict_policy (completed v) false in
      let u = record w { language = normalize lower w.language } in
      write_valid (validate_settings lower w) w u writable s
