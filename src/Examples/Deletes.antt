-- ===== src/Examples/Deletes.antt =====
-- Examples on deletions: internal/remote/util.go.
use host_ftp.Base.{
  ◌≤◌, ◌≡◌, refl, Bytes, codes, Bool, true, false, ◌++◌, List, [], ◌∷◌, none, some, All, count,
  text_eq, if◌then◌else◌, is_blank, is_utf8, contains_any,
}
use host_ftp.Transfer.Requests.{validate_remote_name}
use host_ftp.Remote.Names.{Item}
use host_ftp.Remote.Delete.{
  Call, lists, removes_file, removes_dir, Server, remote_join, delete_from,
}
use host_ftp.Remote.Delete.Bounds.{IsAllowed, is_removal, removal, delete_from_lem}

abbrev item : Bytes → Bool → Bool → Item
item name is_directory is_symlink = record {
  name = name;
  size = 1;
  is_directory = is_directory;
  is_symlink = is_symlink;
  modified = none;
  permissions = [];
}

-- A directory with a file, and with a link that points to a directory.
abbrev tree : Server
tree = record {
  clean_join = λ base name. base ++ b'/' ∷ name;
  lists_as = λ calls p. some (
      if text_eq p (codes "/a/d")
      then item (codes "f") false false ∷ item (codes "l") true true ∷ []
      else []);
  removes = λ calls c. true;
}

link_not_followed :
    (delete_from tree (codes "/a") (codes "d") true).0.calls
    ≡ removes_dir (codes "/a/d")
      ∷ removes_file (codes "/a/d/l")
      ∷ removes_file (codes "/a/d/f")
      ∷ lists (codes "/a/d")
      ∷ []
unfolding delete_from validate_remote_name text_eq is_blank is_utf8 contains_any
link_not_followed = refl

delete_from_lem_example :
    All
      (IsAllowed tree (remote_join tree (codes "/a") (codes "d")) true)
      (delete_from tree (codes "/a") (codes "d") true).0.calls
    × (count is_removal (delete_from tree (codes "/a") (codes "d") true).0.calls ≤ 10000)
    × ((delete_from tree (codes "/a") (codes "d") true).1 ≡ none
        → (rest : List Call) × ((delete_from tree (codes "/a") (codes "d") true).0.calls
            ≡ removal true (remote_join tree (codes "/a") (codes "d")) ∷ rest)
          × (tree.removes rest (removal true (remote_join tree (codes "/a") (codes "d"))) ≡ true))
delete_from_lem_example = delete_from_lem tree (codes "/a") (codes "d") true
