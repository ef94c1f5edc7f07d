-- ===== src/Remote/Delete.antt =====
-- internal/remote/util.go: deleteGuard, remoteJoin and recursiveDelete. The server's answers may
-- depend on all calls so far, which the state records, the last one first.
pub mod Bounds
use host_ftp.Base.{
  ℕ, zero, suc, ◌+◌, ◌-◌, Bytes, codes, Bool, true, false, ◌&&◌, ◌||◌, not, List, [], ◌∷◌, Option,
  none, some, ltb, if◌then◌else◌, text_eq, is_blank,
}
use host_ftp.Transfer.Requests.{Result, ok, err, validate_remote_name}
use host_ftp.Remote.Names.{Item}

abbrev pub max_remote_delete_depth : ℕ
max_remote_delete_depth = 64

abbrev pub max_remote_delete_items : ℕ
max_remote_delete_items = 10000

pub data Call : Type 0 where
  lists removes_file removes_dir : Bytes → Call

pub data DeleteError : Type 0 where
  invalid_name too_deep too_many is_root listing_failed removal_failed : DeleteError

-- The guard's counter and the calls of the server.
pub record Progress : Type 0 where
  pub items : ℕ
  pub calls : List Call

-- deleteGuard.step.
unfoldable pub step : ℕ → Progress → Progress × Option DeleteError
step depth s =
    let counted : Progress = record s { items = s.items + 1 } in
    if ltb max_remote_delete_depth depth
    then (s, some too_deep)
    else if ltb max_remote_delete_items (s.items + 1)
    then (counted, some too_many)
    else (counted, none)

-- What the server answers to a call, after the calls before it. `clean_join` is
-- `path.Clean(path.Join(…))`.
pub record Server : Type 0 where
  pub clean_join : Bytes → Bytes → Bytes
  pub lists_as : List Call → Bytes → Option (List Item)
  pub removes : List Call → Call → Bool

module _ (V : Server) where
  unfoldable pub remote_join : Bytes → Bytes → Bytes
  remote_join base name = V.clean_join (if is_blank base then codes "/" else base) name

  unfoldable pub remove : Call → Progress → Progress × Option DeleteError
  remove c s =
      (record s { calls = c ∷ s.calls }, if V.removes s.calls c then none else some removal_failed)

  -- A loop that ends at the first error.
  unfoldable pub each_item :
      (Item → Progress → Progress × Option DeleteError)
      → List Item
      → Progress
      → Progress × Option DeleteError
  each_item f [] s = (s, none)
  each_item f (i ∷ is) s =
      let (s', e) = f i s in elim e [ some x ↦ (s', some x) | none ↦ each_item f is s' ]

  -- `childIsDir`.
  unfoldable pub child_is_dir : Item → Bool
  child_is_dir i = i.is_directory && not i.is_symlink

  unfoldable pub then_remove_dir :
      Bytes → Progress × Option DeleteError → Progress × Option DeleteError
  unfolding remove
  then_remove_dir target (s, some e) = (s, some e)
  then_remove_dir target (s, none) = remove (removes_dir target) s

  -- The part for a directory, behind its listing; `inside` deletes an item of it.
  unfoldable pub delete_listed :
      (Bytes → Item → Progress → Progress × Option DeleteError)
      → Bytes
      → Option (List Item)
      → Progress
      → Progress × Option DeleteError
  unfolding each_item then_remove_dir
  delete_listed inside target none s = (s, some listing_failed)
  delete_listed inside target (some items) s =
      then_remove_dir target (each_item (inside target) items s)

  -- The part behind the guard.
  unfoldable pub delete_target :
      (Bytes → Item → Progress → Progress × Option DeleteError)
      → Bytes
      → Bool
      → Progress
      → Progress × Option DeleteError
  unfolding delete_listed remove
  delete_target inside target is_dir s =
      if text_eq target (codes "/") || text_eq target (codes ".")
      then (s, some is_root)
      else if not is_dir
      then remove (removes_file target) s
      else delete_listed inside target (V.lists_as s.calls target)
          (record s { calls = lists target ∷ s.calls })

  unfoldable pub guarded :
      (Progress → Progress × Option DeleteError)
      → Progress × Option DeleteError
      → Progress × Option DeleteError
  guarded rest (s, some e) = (s, some e)
  guarded rest (s, none) = rest s

  unfoldable pub named :
      Bytes → Progress → Progress × Option DeleteError → Progress × Option DeleteError
  named name s rest = elim (validate_remote_name name) [
    | err e ↦ (s, some invalid_name)
    | ok u ↦ rest
  ]

  -- recursiveDelete at the depth `max_remote_delete_depth + 1 - room`: with no room left the guard
  -- refuses, and what would come after it does not matter.
  unfoldable pub recursive_delete :
      ℕ → Bytes → Bytes → Bool → Progress → Progress × Option DeleteError
  unfolding step delete_target guarded named child_is_dir remote_join
  recursive_delete zero base name is_dir s =
      named name s (guarded (λ t. (t, some too_deep)) (step (max_remote_delete_depth + 1) s))
  recursive_delete (suc room) base name is_dir s = named name s (
      guarded
        (delete_target (λ target i. recursive_delete room target i.name (child_is_dir i))
          (remote_join base name) is_dir)
        (step (max_remote_delete_depth - room) s))

-- As the sessions call it: from depth 0, with a new guard.
unfoldable pub delete_from : Server → Bytes → Bytes → Bool → Progress × Option DeleteError
unfolding recursive_delete
delete_from V base name is_dir =
    recursive_delete V (max_remote_delete_depth + 1) base name is_dir
      (record { items = 0; calls = [] })
