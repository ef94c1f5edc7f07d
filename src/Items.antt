-- ===== src/Items.antt =====
-- The sort order of file panes: internal/itemlist/sort.go. `strings.ToLower` is the parameter
-- `to_lower`; `sort.SliceStable` is an insertion sort, since any stable sort has its result.
use host_ftp.Base.{
  ℕ, ◌≡◌, Bytes, codes, Bool, true, false, ◌&&◌, not, List, [], ◌∷◌, map, Option, none, some,
  if◌then◌else◌, ltb, ◌==◌, text_eq, is_blank, trim_space,
}
use host_ftp.Remote.Names.{Item}
mod Less
pub mod Ranks
pub mod Order
pub mod Stable

-- A `Field` is a byte, so a value above FieldPermissions is possible.
pub data Field : Type 0 where
  field_name field_type field_size field_modified field_permissions : Field
  other_field : ℕ → Field

pub record Spec : Type 0 where
  pub field : Field
  pub descending : Bool

pub record KeyedItem : Type 0 where
  pub item : Item
  pub name_key : Bytes
  pub type_key : Bytes
  pub permissions_key : Bytes

-- The three results of a comparison: -1, 0 and 1.
pub data Cmp : Type 0 where
  below equal above : Cmp

-- Go's `<` on strings.
unfoldable pub text_lt : Bytes → Bytes → Bool
text_lt s [] = false
text_lt [] (b ∷ t) = true
text_lt (a ∷ s) (b ∷ t) = let rest = text_lt s t in if a == b then rest else ltb a b

unfoldable pub compare_string : Bytes → Bytes → Cmp
unfolding text_lt
compare_string a b = if text_lt a b then below else if text_lt b a then above else equal

-- compareInt64, and the comparison of two times by Before and After.
unfoldable pub compare_number : ℕ → ℕ → Cmp
compare_number a b = if ltb a b then below else if ltb b a then above else equal

unfoldable pub compare_modified : Option ℕ → Option ℕ → Cmp × Bool
unfolding compare_number
compare_modified none none = (equal, false)
compare_modified none (some b) = (above, false)
compare_modified (some a) none = (below, false)
compare_modified (some a) (some b) = (compare_number a b, true)

unfoldable pub compare_permissions : Bytes → Bytes → Cmp × Bool
unfolding compare_string is_blank
compare_permissions a b =
    if is_blank a
    then (if is_blank b then (compare_string a b, true) else (above, false))
    else if is_blank b
    then (below, false)
    else (compare_string a b, true)

unfoldable pub compare_primary : KeyedItem → KeyedItem → Field → Cmp × Bool
unfolding compare_string compare_number compare_modified compare_permissions
compare_primary a b field_type = (compare_string a.type_key b.type_key, true)
compare_primary a b field_size = (compare_number a.item.size b.item.size, true)
compare_primary a b field_modified = compare_modified a.item.modified b.item.modified
compare_primary a b field_permissions = compare_permissions a.permissions_key b.permissions_key
compare_primary a b field_name = (compare_string a.name_key b.name_key, true)
compare_primary a b (other_field n) = (compare_string a.name_key b.name_key, true)

-- The name breaks a tie of any other field.
unfoldable pub tie_less : Field → KeyedItem → KeyedItem → Bool
unfolding text_lt text_eq
tie_less field_name a b = false
tie_less field a b = if text_eq a.name_key b.name_key then false else text_lt a.name_key b.name_key

unfoldable pub sign_less : Cmp × Bool → Bool → Bool → Bool
sign_less (equal, reversible) descending tie = tie
sign_less (below, reversible) descending tie = not (reversible && descending)
sign_less (above, reversible) descending tie = reversible && descending

-- `if a.IsDirectory != b.IsDirectory { return a.IsDirectory }`, with what follows.
unfoldable pub directory_less : Bool → Bool → Bool → Bool
directory_less true true rest = rest
directory_less false false rest = rest
directory_less true false rest = true
directory_less false true rest = false

-- The function that `sort.SliceStable` is given.
unfoldable pub less : Spec → KeyedItem → KeyedItem → Bool
unfolding compare_primary tie_less sign_less directory_less
less spec a b =
    directory_less a.item.is_directory b.item.is_directory
      (sign_less (compare_primary a b spec.field) spec.descending (tie_less spec.field a b))

unfoldable pub insert : Spec → KeyedItem → List KeyedItem → List KeyedItem
unfolding less
insert spec x [] = x ∷ []
insert spec x (y ∷ ys) =
    let rest = insert spec x ys in if less spec y x then y ∷ rest else x ∷ y ∷ ys

unfoldable pub sort_keyed : Spec → List KeyedItem → List KeyedItem
unfolding insert
sort_keyed spec [] = []
sort_keyed spec (x ∷ xs) = insert spec x (sort_keyed spec xs)

unfoldable pub after_last_dot : Bytes → Option Bytes
after_last_dot [] = none
after_last_dot (c ∷ s) = elim (after_last_dot s) [
  | some t ↦ some t
  | none ↦ if c == b'.' then some s else none
]

unfoldable pub extension : Option Bytes → Bytes
extension (some (c ∷ t)) = c ∷ t
extension o = codes "file"

unfoldable pub checked_spec : Spec → Spec
checked_spec spec = elim spec.field [
  | other_field n ↦ record { field = field_name; descending = spec.descending }
  | _ ↦ spec
]

module _ (to_lower : Bytes → Bytes) where
  unfoldable pub item_type_key : Item → Bytes
  unfolding after_last_dot extension
  item_type_key i =
      if i.is_directory
      then codes "folder"
      else if i.is_symlink
      then codes "link"
      else extension (after_last_dot (to_lower i.name))

  unfoldable pub keyed : Item → KeyedItem
  unfolding item_type_key trim_space
  keyed i = record {
    item = i;
    name_key = to_lower i.name;
    type_key = item_type_key i;
    permissions_key = to_lower (trim_space i.permissions);
  }

  unfoldable pub sort_by : List Item → Spec → List Item
  unfolding keyed checked_spec sort_keyed
  sort_by [] spec = []
  sort_by (i ∷ []) spec = i ∷ []
  sort_by items spec = map (λ k. k.item) (sort_keyed (checked_spec spec) (map keyed items))

  unfoldable pub sort : List Item → List Item
  unfolding sort_by
  sort items = sort_by items (record { field = field_name; descending = false })
