-- ===== src/Examples/Values.antt =====
-- Examples on concrete values: internal/remote, internal/config, internal/transfer,
-- internal/directorycompare and internal/updatecheck.
use host_ftp.Base.{
  ℕ, pos, zero, suc, ◌≤◌, ◌<◌, ◌≡◌, refl, ◌⊎◌, Bytes, codes, Bool, true, false, List, [], ◌∷◌,
  Option, none, some, arith, length, count, All, split, trim_space, text_eq, is_utf8, if◌then◌else◌,
  contains, is_blank, ◌||◌,
}
use host_ftp.Remote.Errors.{
  GoError, nil, is_nil, is_skipped, is_retryable, is_canceled, is_deadline, is_residual,
  as_tool_error, contains_marker, error_text, tool_error, text,
}
use host_ftp.Remote.Names.{Item, remote_entry, backup_name, truncate_utf8_bytes, truncate_bound}
use host_ftp.Remote.Output.{new_bounded_output, write_all, write_all_lem, Holds}
use host_ftp.Remote.Commit.{Remote, Apart, commit_remote_temp, commit_replaces}
use host_ftp.Config.Languages.{Lowers}
use host_ftp.Config.Settings.{Settings, default_settings}
use host_ftp.Config.Store.{SettingsStore, set_settings, effective}
use host_ftp.Config.Validity.{IsSound, HasSound, set_settings-IsSound, effective-IsSound}
use host_ftp.Transfer.Bandwidth.{bandwidth_limit_bytes_per_second, aggregate_bound, IsShare}
use host_ftp.Transfer.Attempts.{Course, execute, IsCautious, execute_lem}
use host_ftp.Compare.Entries.{Entry, compare_directories, normalized_tolerance}
use host_ftp.Compare.Sameness.{IsHonest, in_item, compare-IsHonest, compare_lists_each_name_once}
use host_ftp.Update.Versions.{Version, parse_version, rank}
use host_ftp.Update.Manifests.{Manifest, Url, Offer, accepted, offer, check_url, trusted_url}
use host_ftp.Update.Offers.{IsTrusted, check_url_lem}

-- Lower case on ASCII, where `strings.ToLower` is a parameter.
abbrev keep_case : Bytes → Bytes
keep_case s = s

keep_case-Lowers : Lowers keep_case
keep_case-Lowers s h = refl

truncate_bound_example :
    (length (truncate_utf8_bytes (codes "file.txt") 4) ≤ 4)
    × (is_utf8 (truncate_utf8_bytes (codes "file.txt") 4) ≡ true)
truncate_bound_example = truncate_bound (codes "file.txt") 4 (unfold is_utf8 in refl)

portions : List Bytes
portions = codes "abc" ∷ codes "def" ∷ codes "g" ∷ []

write_all_lem_example :
    Holds
      (codes "abcdefg")
      (write_all (codes "abc" ∷ codes "def" ∷ codes "g" ∷ []) (new_bounded_output 4))
write_all_lem_example = write_all_lem (codes "abc" ∷ codes "def" ∷ codes "g" ∷ []) 4 (omega arith)

-- Four tries, the first two of which run into a failure of the connection.
flaky : Course
flaky = record {
  before = λ n. nil;
  run = λ n. elim n [
    | zero ↦ nil
    | suc zero ↦
        tool_error
          (record { tool = codes "curl"; code = pos 7; kind = codes "network"; retryable = true })
    | suc (suc zero) ↦ text (codes "connection reset")
    | _ ↦ nil
  ];
  ended = λ n. false;
  wait = λ n. nil;
}

execute_lem_example :
    (length (execute keep_case flaky 3).0 ≤ 4)
    × IsCautious keep_case flaky (execute keep_case flaky 3).0
execute_lem_example = execute_lem keep_case flaky 3

three_attempts : (execute keep_case flaky 3).0 ≡ 1 ∷ 2 ∷ 3 ∷ []
unfolding flaky execute is_nil is_skipped is_retryable is_canceled is_deadline is_residual
    as_tool_error contains_marker contains error_text
three_attempts = refl

wide : Settings
wide = record default_settings {
  parallelism = pos 3;
  upload_limit = pos 100;
  download_limit = pos 7;
}

aggregate_bound_example :
    IsShare 100 3 2 (bandwidth_limit_bytes_per_second wide (codes "upload"))
    × IsShare 7 3 2 (bandwidth_limit_bytes_per_second wide (codes "download"))
unfolding wide
aggregate_bound_example =
    aggregate_bound wide 100 7 3 2 refl refl refl (omega arith) (omega arith) (omega arith)
      (omega arith) (omega arith) (omega arith) (omega arith)

fresh_store : SettingsStore
fresh_store = record { loaded = false; value = default_settings }

fresh_store-HasSound : HasSound keep_case fresh_store
unfolding fresh_store
fresh_store-HasSound h = absurd (ground (arith, h))

set_settings-IsSound_example :
    HasSound keep_case (set_settings keep_case wide true fresh_store).0
    × ((set_settings keep_case wide true fresh_store).2 ≡ true
        → IsSound keep_case (set_settings keep_case wide true fresh_store).1)
set_settings-IsSound_example =
    set_settings-IsSound keep_case wide true fresh_store keep_case-Lowers fresh_store-HasSound

effective-IsSound_example :
    HasSound keep_case (effective keep_case wide true fresh_store).0
    × IsSound keep_case (effective keep_case wide true fresh_store).1
effective-IsSound_example =
    effective-IsSound keep_case wide true fresh_store keep_case-Lowers fresh_store-HasSound

abbrev file_at : ℕ → Item
file_at t = record {
  name = codes "a";
  size = 10;
  is_directory = false;
  is_symlink = false;
  modified = some t;
  permissions = [];
}

compared : List Entry
compared = elim (compare_directories (file_at 5 ∷ []) (file_at 9 ∷ []) (pos 0)) [
  | none ↦ []
  | some es ↦ es
]

compared_lem : compare_directories (file_at 5 ∷ []) (file_at 9 ∷ []) (pos 0) ≡ some compared
unfolding compared compare_directories
compared_lem = refl

compare-IsHonest_example : All (IsHonest (file_at 5 ∷ []) (file_at 9 ∷ []) 2000000000) compared
compare-IsHonest_example =
    compare-IsHonest (file_at 5 ∷ []) (file_at 9 ∷ []) (pos 0) 2000000000 compared
      (unfold normalized_tolerance in refl) compared_lem

compare_lists_each_name_once_example : count (λ e. text_eq e.name (codes "a")) compared ≡ (
    if in_item (codes "a") (file_at 5 ∷ []) || in_item (codes "a") (file_at 9 ∷ []) then 1 else 0)
compare_lists_each_name_once_example =
    compare_lists_each_name_once (file_at 5 ∷ []) (file_at 9 ∷ []) (pos 0) (codes "a") compared
      compared_lem

never_fails {ℓ} : (A : Type ℓ) → is_nil nil ≡ false → A
unfolding is_nil
never_fails A h = absurd (ground (arith, h))

-- A server without failures.
plain_remote : Remote (Bytes → Option Bytes)
plain_remote = record {
  rename =
      λ dir a b s. ((λ n. if text_eq n b then s a else if text_eq n a then none else s n), nil);
  delete = λ dir a s. ((λ n. if text_eq n a then none else s n), nil);
  join = λ dir name. name;
  file = λ s n. s n;
  rename_moves = λ dir a b n s h. refl;
  rename_fails = λ dir a b n s h. never_fails _ h;
  delete_leaves = λ dir a n s h. rw h refl;
}

abbrev part : Bytes
part = codes ".part"

abbrev rollback : Bytes
rollback = codes ".GhostFTP-rollback-1"

on_server : Bytes → Option Bytes
on_server n =
    if text_eq n (codes "a")
    then some (codes "old")
    else if text_eq n part
    then some (codes "new")
    else none

apart : Apart plain_remote (codes "a") part (backup_name (codes "a") rollback false)
unfolding backup_name text_eq
apart = record {
  base_temp = refl;
  base_saved = refl;
  saved_temp = refl;
  saved_base = refl;
  temp_saved = refl;
  temp_base = refl;
}

after_commit : (Bytes → Option Bytes) × GoError
after_commit =
    commit_remote_temp plain_remote (file_at 5 ∷ []) [] (codes "a") part rollback false on_server

commit_replaces_example :
    (is_nil after_commit.1 ≡ true
      → (plain_remote.file after_commit.0 (codes "a") ≡ some (codes "new"))
        × (false ≡ true
            → plain_remote.file after_commit.0 (backup_name (codes "a") rollback false)
              ≡ some (codes "old")))
    × ((plain_remote.file after_commit.0 (codes "a") ≡ some (codes "new"))
        ⊎ ((plain_remote.file after_commit.0 (codes "a") ≡ some (codes "old"))
            ⊎ (plain_remote.file after_commit.0 (backup_name (codes "a") rollback false)
                ≡ some (codes "old"))))
unfolding after_commit
commit_replaces_example =
    commit_replaces plain_remote (file_at 5 ∷ []) (file_at 5) [] (codes "a") part rollback false
      on_server (codes "old") (codes "new") (unfold remote_entry text_eq in refl) refl refl apart
      (unfold plain_remote on_server text_eq in refl)
      (unfold plain_remote on_server text_eq in refl)

-- A manifest of a newer version.
hash : Bytes
hash = codes "0123456789abcdef0123456789abcdef0123456789abcdef0123456789abcdef"

newer_manifest : Manifest
newer_manifest = record {
  schema = pos 1;
  version = codes "1.2.10";
  setup_url = codes "https://update.ghostftp.com/setup";
  setup_sha256 = hash;
  portable_url = codes "https://update.ghostftp.com/portable";
  portable_sha256 = hash;
  updater_url = [];
  updater_sha256 = [];
}

-- An address is split at its host, which is the only one here.
parse_url : Bytes → Option Url
parse_url s =
    if is_blank s
    then none
    else some (record {
      scheme = codes "https";
      has_user = false;
      hostname = codes "update.ghostftp.com";
    })

is_update_host : Bytes → Bool
is_update_host h = text_eq h (codes "update.ghostftp.com")

offered : Offer
offered =
    offer parse_url is_update_host keep_case (record { major = 1; minor = 2; patch = 9 })
      (record { major = 1; minor = 2; patch = 10 }) newer_manifest

offered_lem :
    check_url parse_url is_update_host keep_case
      (some (200, 900, some newer_manifest))
      (codes "https://update.ghostftp.com/m.json")
      (codes "1.2.9")
      true
    ≡ accepted offered
unfolding check_url offered parse_version split trim_space is_blank parse_url text_eq is_update_host
    newer_manifest hash
offered_lem = refl

check_url_lem_example :
    (trusted_url parse_url is_update_host keep_case (codes "https://update.ghostftp.com/m.json")
      ≡ true)
    × ((current : Version) × (latest : Version) × (m : Manifest) × (parse_version (codes "1.2.9")
          ≡ some current)
        × (parse_version m.version ≡ some latest)
        × (offered ≡ offer parse_url is_update_host keep_case current latest m)
        × IsTrusted parse_url is_update_host keep_case m
        × (offered.available ≡ true → rank current < rank latest))
check_url_lem_example =
    check_url_lem parse_url is_update_host keep_case (some (200, 900, some newer_manifest))
      (codes "https://update.ghostftp.com/m.json") (codes "1.2.9") offered offered_lem
