-- ===== src/Examples/Lists.antt =====
-- Examples on the order of items: internal/itemlist/sort_test.go, in small.
use host_ftp.Base.{
  ℕ, ◌+◌, leb, ◌&&◌, ◌≡◌, refl, Bytes, codes, Bool, true, false, List, [], ◌∷◌, ◌++◌, none, map,
  count, keep, if◌then◌else◌,
}
use host_ftp.Remote.Names.{Item}
use host_ftp.Items.{Spec, field_size, sort_by, sort}
use host_ftp.Items.Order.{is_dir, is_other, sort_by_lem}
use host_ftp.Items.Ranks.{IsSorted}
use host_ftp.Items.Stable.{is_alike, sort_stable}

-- On ASCII: `strings.ToLower`.
abbrev to_lower : Bytes → Bytes
to_lower = map (λ c. if leb 65 c && leb c 90 then c + 32 else c)

abbrev item : Bytes → Bool → ℕ → Item
item name is_directory size = record {
  name = name;
  size = size;
  is_directory = is_directory;
  is_symlink = false;
  modified = none;
  permissions = [];
}

abbrev pane : List Item
pane =
    item (codes "b") false 7
    ∷ item (codes "a") false 7
    ∷ item (codes "Z") true 0
    ∷ item (codes "B") false 9
    ∷ []

abbrev largest_first : Spec
largest_first = record { field = field_size; descending = true }

sorted_pane :
    map (λ i. i.name) (sort_by to_lower pane largest_first)
    ≡ codes "Z" ∷ codes "B" ∷ codes "a" ∷ codes "b" ∷ []
unfolding sort_by
sorted_pane = refl

sort_by_lem_example :
    (count is_dir (sort_by to_lower pane largest_first) ≡ count is_dir pane)
    × IsSorted to_lower largest_first (sort_by to_lower pane largest_first)
    × (keep is_dir (sort_by to_lower pane largest_first)
          ++ keep is_other (sort_by to_lower pane largest_first)
        ≡ sort_by to_lower pane largest_first)
sort_by_lem_example = sort_by_lem to_lower pane largest_first is_dir

sort_stable_example :
    keep (is_alike to_lower false (codes "b")) (sort to_lower pane)
    ≡ keep (is_alike to_lower false (codes "b")) pane
sort_stable_example = sort_stable to_lower pane false (codes "b")
