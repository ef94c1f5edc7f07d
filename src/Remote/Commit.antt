-- ===== src/Remote/Commit.antt =====
-- internal/remote/util.go (commitRemoteTemp) and remote_cleanup_hardening.go (cleanupRemoteArtifact,
-- cleanupFailure, committedCleanupFailure): how an uploaded part takes the place of a file.
use host_ftp.Base.{
  ℤ, pos, ◌≡◌, ◌∙◌, ◌⊎◌, inl, inr, Bytes, codes, Bool, true, false, ◌&&◌, ◌||◌, not, List, ◌++◌,
  Option, none, some, arith, ◌==◌, if◌then◌else◌, text_eq, text_eq_refl, Bool-cases,
}
use host_ftp.Remote.Errors.{GoError, nil, text, wrapped, residual, is_nil, as_tool_error}
use host_ftp.Remote.Names.{Item, remote_entry, backup_name}

is_78 : ℤ → Bool
is_78 c = elim c [ pos n ↦ n == 78 | _ ↦ false ]

-- remoteCleanupConfirmsMissing.
unfoldable pub cleanup_confirms_missing : GoError → Bool
unfolding is_78
cleanup_confirms_missing e = if is_nil e then true else elim (as_tool_error e) [
  | none ↦ false
  | some t ↦ text_eq t.tool (codes "curl") && is_78 t.code
]

-- The server, as the session's operations see it. `rename dir from to` and `delete dir name` are the
-- operations of a session; `file` is what a name of the directory holds. A rename that returns nil
-- moves the file, and one that fails leaves all names as they were; a deletion touches no other
-- name. `join` is path.Clean(path.Join(...)), for the texts of errors.
pub record Remote (S : Type 0) : Type 0 where
  pub rename : Bytes → Bytes → Bytes → S → S × GoError
  pub delete : Bytes → Bytes → S → S × GoError
  pub join : Bytes → Bytes → Bytes
  pub file : S → Bytes → Option Bytes
  pub rename_moves :
      (dir a b n : Bytes) (s : S)
      → is_nil (rename dir a b s).1 ≡ true
      → file (rename dir a b s).0 n
        ≡ (if text_eq n b then file s a else if text_eq n a then none else file s n)
  pub rename_fails :
      (dir a b n : Bytes) (s : S)
      → is_nil (rename dir a b s).1 ≡ false
      → file (rename dir a b s).0 n ≡ file s n
  pub delete_leaves :
      (dir a n : Bytes) (s : S) → text_eq n a ≡ false → file (delete dir a s).0 n ≡ file s n

module _ {S : Type 0} (r : Remote S) where
  unfoldable pub cleanup_remote_artifact : Bytes → Bytes → S → S × GoError
  cleanup_remote_artifact dir name s =
      let (s', e) = r.delete dir name s in if cleanup_confirms_missing e then (s', nil) else (s', e)

  -- cleanupFailure, and committedCleanupFailure with `committed`.
  unfoldable pub cleanup_failure : Bool → GoError → Bytes → Bytes → S → S × GoError
  unfolding cleanup_remote_artifact
  cleanup_failure committed e dir name s =
      let (s', c) = cleanup_remote_artifact dir name s in
      if is_nil c then (s', e) else (s', residual (r.join dir name) e c committed)

  -- What commitRemoteTemp does where the part could not be given its name: the old file, if there
  -- is one, gets its name back.
  unfoldable pub activation_failed :
      Bool → GoError → Bytes → Bytes → Bytes → Bytes → S → S × GoError
  unfolding cleanup_failure
  activation_failed existed e dir base temp saved s =
      let failure = wrapped (codes "nije moguce aktivirati prenesenu datoteku: ") e in
      let (s₂, f) = r.rename dir saved base s in
      let lost =
        wrapped
          (codes
              "aktivacija nove datoteke nije uspjela, a vracanje izvorne datoteke iz sigurnosne kopije "
            ++ (saved ++ codes " takoder nije uspjelo: "))
          f in
      if existed
      then if is_nil f
        then cleanup_failure false failure dir temp s₂
        else cleanup_failure false lost dir temp s₂
      else cleanup_failure false failure dir temp s

  -- The second half of commitRemoteTemp: the part is given the file's name.
  unfoldable pub activate : Bool → Bytes → Bytes → Bytes → Bytes → Bool → S → S × GoError
  unfolding cleanup_failure activation_failed
  activate existed dir base temp saved keep_backup s =
      let (s₁, e) = r.rename dir temp base s in
      if is_nil e
      then if existed && not keep_backup then cleanup_failure true nil dir saved s₁ else (s₁, nil)
      else activation_failed existed e dir base temp saved s₁

  is_special : Option Item → Bool
  is_special o = elim o [ none ↦ false | some i ↦ i.is_directory || i.is_symlink ]

  is_there : Option Item → Bool
  is_there o = elim o [ none ↦ false | some i ↦ true ]

  -- The texts of errors are spelled in ASCII here. (That `rename` and `delete` are there is a
  -- matter of types.)
  unfoldable pub commit_remote_temp :
      List Item → Bytes → Bytes → Bytes → Bytes → Bool → S → S × GoError
  unfolding cleanup_failure activate is_special is_there
  commit_remote_temp items dir base temp rollback keep_backup s =
      let saved = backup_name base rollback keep_backup in
      let existing = remote_entry items base in
      let special = text (codes "odrediste nije obicna datoteka i nece biti prepisano") in
      let (s₁, e) = r.rename dir base saved s in
      let failure = wrapped (codes "nije moguce zastititi postojecu remote datoteku: ") e in
      if is_special existing
      then cleanup_failure false special dir temp s
      else if is_there existing
      then if is_nil e
        then activate true dir base temp saved keep_backup s₁
        else cleanup_failure false failure dir temp s₁
      else activate false dir base temp saved keep_backup s

  cleanup_leaves :
      (committed : Bool) (e : GoError) (dir a n : Bytes) (s : S)
      → text_eq n a ≡ false
      → r.file (cleanup_failure committed e dir a s).0 n ≡ r.file s n
  unfolding cleanup_failure
  cleanup_leaves committed e dir a n s h = ground (arith, r.delete_leaves dir a n s)

  failure_error :
      (t : Bytes) (e : GoError) (dir n : Bytes) (s : S)
      → is_nil (cleanup_failure false (wrapped t e) dir n s).1 ≡ false
  unfolding cleanup_failure is_nil
  failure_error t e dir n s = ground arith

  -- The three names of one replacement are different.
  pub record Apart (base temp saved : Bytes) : Type 0 where
    pub base_temp : text_eq base temp ≡ false
    pub base_saved : text_eq base saved ≡ false
    pub saved_temp : text_eq saved temp ≡ false
    pub saved_base : text_eq saved base ≡ false
    pub temp_saved : text_eq temp saved ≡ false
    pub temp_base : text_eq temp base ≡ false

  failed_keeps :
      (e : GoError) (dir base temp saved : Bytes) (s : S) (old : Bytes)
      → Apart base temp saved
      → r.file s saved ≡ some old
      → let t = (activation_failed true e dir base temp saved s).0 in
        (r.file t base ≡ some old) ⊎ (r.file t saved ≡ some old)
  unfolding activation_failed
  failed_keeps e dir base temp saved s old a o =
      elim (Bool-cases (is_nil (r.rename dir saved base s).1)) [
        | inl back ↦ rw back (
            inl (
              cleanup_leaves false _ dir temp base _ a.base_temp
              ∙ (r.rename_moves dir saved base base s back ∙ (rw (text_eq_refl base) o))))
        | inr lost ↦ rw lost (
            inr (
              cleanup_leaves false _ dir temp saved _ a.saved_temp
              ∙ (r.rename_fails dir saved base saved s lost ∙ o)))
      ]

  failed_error :
      (existed : Bool) (e : GoError) (dir base temp saved : Bytes) (s : S)
      → is_nil (activation_failed existed e dir base temp saved s).1 ≡ false
  unfolding activation_failed cleanup_failure is_nil
  failed_error existed e dir base temp saved s = ground arith

  moved_lem :
      (keep_backup : Bool) (dir base saved : Bytes) (s : S) (old new : Bytes)
      → text_eq base saved ≡ false
      → r.file s base ≡ some new
      → r.file s saved ≡ some old
      → let t = if not keep_backup then cleanup_failure true nil dir saved s else (s, nil) in
        (r.file t.0 base ≡ some new) × (keep_backup ≡ true → r.file t.0 saved ≡ some old)
  moved_lem true dir base saved s old new a b o = (b, λ _. o)
  moved_lem false dir base saved s old new a b o =
      (cleanup_leaves true nil dir saved base s a ∙ b, λ e. absurd (cc))

  -- Where the activation starts, the old file has stepped aside.
  activate_lem :
      (keep_backup : Bool) (dir base temp saved : Bytes) (s : S) (old new : Bytes)
      → Apart base temp saved
      → r.file s saved ≡ some old
      → r.file s temp ≡ some new
      → let t = activate true dir base temp saved keep_backup s in
        (is_nil t.1 ≡ true
          → (r.file t.0 base ≡ some new) × (keep_backup ≡ true → r.file t.0 saved ≡ some old))
        × ((r.file t.0 base ≡ some new)
            ⊎ ((r.file t.0 base ≡ some old) ⊎ (r.file t.0 saved ≡ some old)))
  unfolding activate
  activate_lem keep_backup dir base temp saved s old new a o n =
      elim (Bool-cases (is_nil (r.rename dir temp base s).1)) [
        | inl moved ↦
            let b : r.file (r.rename dir temp base s).0 base ≡ some new =
              r.rename_moves dir temp base base s moved ∙ rw (text_eq_refl base) n in
            let k : r.file (r.rename dir temp base s).0 saved ≡ some old =
              r.rename_moves dir temp base saved s moved ∙ rw (a.saved_base, a.saved_temp) o in
            let d =
              moved_lem keep_backup dir base saved (r.rename dir temp base s).0 old new a.base_saved
                b k in
            rw moved ((λ _. d), inl d.0)
        | inr failed ↦ rw failed (
          (λ z. absurd (
              ground (
                arith,
                z,
                failed_error true (r.rename dir temp base s).1 dir base temp saved
                    (r.rename dir temp base s).0,
              ))),
          inr (
              failed_keeps _ dir base temp saved _ old a
                (r.rename_fails dir temp base saved s failed ∙ o)),
        )
      ]

  -- An ordinary file is replaced. If nil is returned, the name holds the new file, and the backup
  -- the old one if it was asked for. Whatever is returned, the new file is in place or the old
  -- one is still there, under its name or under the saved one.
  pub commit_replaces :
      (items : List Item) (item : Item) (dir base temp rollback : Bytes) (keep_backup : Bool)
      (s : S) (old new : Bytes)
      → remote_entry items base ≡ some item
      → item.is_directory ≡ false
      → item.is_symlink ≡ false
      → Apart base temp (backup_name base rollback keep_backup)
      → r.file s base ≡ some old
      → r.file s temp ≡ some new
      → let t = commit_remote_temp items dir base temp rollback keep_backup s in
        (is_nil t.1 ≡ true
          → (r.file t.0 base ≡ some new)
            × (keep_backup ≡ true → r.file t.0 (backup_name base rollback keep_backup) ≡ some old))
        × ((r.file t.0 base ≡ some new)
            ⊎ ((r.file t.0 base ≡ some old)
                ⊎ (r.file t.0 (backup_name base rollback keep_backup) ≡ some old)))
  unfolding commit_remote_temp
  commit_replaces items item dir base temp rollback keep_backup s old new e d l a o n =
      let saved = backup_name base rollback keep_backup in
      elim (Bool-cases (is_nil (r.rename dir base saved s).1)) [
        | inl aside ↦
            rw (e, commit_remote_temp, d, l, aside)
              (activate_lem keep_backup dir base temp saved (r.rename dir base saved s).0 old new a
                (r.rename_moves dir base saved saved s aside ∙ rw (text_eq_refl saved) o)
                (r.rename_moves dir base saved temp s aside ∙ rw (a.temp_saved, a.temp_base) n))
        | inr failed ↦
            rw (e, commit_remote_temp, d, l, failed)
              (
                (λ z. absurd (
                    ground (
                      arith,
                      z,
                      failure_error (codes "nije moguce zastititi postojecu remote datoteku: ")
                          (r.rename dir base saved s).1 dir temp (r.rename dir base saved s).0,
                    ))),
                inr (
                    inl (
                      cleanup_leaves false _ dir temp base _ a.base_temp
                      ∙ (r.rename_fails dir base saved base s failed ∙ o))),
              )
      ]
