-- ===== src/Compare/Entries.antt =====
-- internal/directorycompare/compare.go and sync.go.
use host_ftp.Base.{
  ℕ, ℤ, pos, ◌-◌, ◌^◌, Bytes, Bool, true, false, ◌&&◌, ◌||◌, not, List, [], ◌∷◌, map, Option, none,
  some, min, ltb, ◌==◌, if◌then◌else◌, keep, text_eq, text_mem,
}
use host_ftp.Remote.Names.{Item}

pub data Status : Type 0 where
  same local_only remote_only newer_local newer_remote conflict unknown : Status

-- The zero items of an entry with one side are not kept: `local` is there where HasLocal is set.
pub record Entry : Type 0 where
  pub name : Bytes
  pub status : Status
  pub local : Option Item
  pub remote : Option Item

-- Durations in nanoseconds.
abbrev pub default_timestamp_tolerance : ℕ
default_timestamp_tolerance = 2000000000

abbrev pub max_timestamp_tolerance : ℕ
max_timestamp_tolerance = 300000000000

unfoldable pub normalized_tolerance : ℤ → Option ℕ
normalized_tolerance (pos n) =
    let t = if n == 0 then default_timestamp_tolerance else n in
    if ltb max_timestamp_tolerance t then none else some t
normalized_tolerance _ = none

-- `a.Sub(b)` where a is not before b: it stops at the largest duration. Times count from the zero
-- time.
unfoldable pub sub_time : ℕ → ℕ → ℕ
sub_time a b = min (a - b) (2 ^ 63 - 1)

-- The end of classifyPair, for files with known times.
unfoldable pub classify_times : ℕ → ℕ → ℕ → ℕ → ℕ → Status
unfolding sub_time
classify_times tolerance local_time remote_time local_size remote_size =
    if ltb remote_time local_time && ltb tolerance (sub_time local_time remote_time)
    then newer_local
    else if ltb local_time remote_time && ltb tolerance (sub_time remote_time local_time)
    then newer_remote
    else if not (local_size == remote_size)
    then conflict
    else if local_size == 0
    then unknown
    else same

unfoldable pub classify_files : ℕ → Item → Item → Status
unfolding classify_times
classify_files tolerance l r = elim l.modified [
  | none ↦ if l.size == r.size then unknown else conflict
  | some a ↦ elim r.modified [
    | none ↦ if l.size == r.size then unknown else conflict
    | some b ↦ classify_times tolerance a b l.size r.size
  ]
]

unfoldable pub bool_eq : Bool → Bool → Bool
bool_eq true b = b
bool_eq false b = not b

unfoldable pub classify_pair : Item → Item → ℕ → Status
unfolding bool_eq classify_files
classify_pair l r tolerance =
    if l.is_symlink || r.is_symlink
    then unknown
    else if not (bool_eq l.is_directory r.is_directory)
    then conflict
    else if l.is_directory
    then same
    else classify_files tolerance l r

-- `groupByExactName(items)[name]`.
unfoldable pub named : List Item → Bytes → List Item
named items name = keep (λ i. text_eq i.name name) items

-- The keys of the two maps, once each. A map has no order; the sort below gives them one.
unfoldable pub add_name : Bytes → List Bytes → List Bytes
add_name n ns = if text_mem n ns then ns else n ∷ ns

unfoldable pub add_names : List Item → List Bytes → List Bytes
unfolding add_name
add_names [] ns = ns
add_names (i ∷ items) ns = add_name i.name (add_names items ns)

-- `<` on strings, byte by byte.
unfoldable pub text_lt : Bytes → Bytes → Bool
text_lt s [] = false
text_lt [] (b ∷ t) = true
text_lt (a ∷ s) (b ∷ t) = let rest = text_lt s t in if a == b then rest else ltb a b

-- `sort.Strings`.
unfoldable pub insert_name : Bytes → List Bytes → List Bytes
insert_name n [] = n ∷ []
insert_name n (m ∷ ms) = let rest = insert_name n ms in if text_lt m n then m ∷ rest else n ∷ m ∷ ms

unfoldable pub sort_names : List Bytes → List Bytes
unfolding insert_name
sort_names [] = []
sort_names (n ∷ ns) = insert_name n (sort_names ns)

unfoldable pub first : List Item → Option Item
first [] = none
first (i ∷ items) = some i

-- The switch of Compare. (Both lists empty does not occur: a name comes from one of them.)
unfoldable pub classify_groups : List Item → List Item → ℕ → Status
unfolding classify_pair
classify_groups [] [] tolerance = remote_only
classify_groups [] (r ∷ []) tolerance = remote_only
classify_groups (l ∷ []) [] tolerance = local_only
classify_groups (l ∷ []) (r ∷ []) tolerance = classify_pair l r tolerance
classify_groups _ _ tolerance = conflict

unfoldable pub entry_for : List Item → List Item → ℕ → Bytes → Entry
unfolding named first classify_groups
entry_for local remote tolerance n = record {
  name = n;
  status = classify_groups (named local n) (named remote n) tolerance;
  local = first (named local n);
  remote = first (named remote n);
}

-- Compare: `none` where the tolerance is refused.
unfoldable pub compare_directories : List Item → List Item → ℤ → Option (List Entry)
unfolding normalized_tolerance entry_for sort_names add_names
compare_directories local remote tolerance = elim (normalized_tolerance tolerance) [
  | none ↦ none
  | some t ↦
      some (map (entry_for local remote t) (sort_names (add_names local (add_names remote []))))
]

is_same : Status → Bool
is_same s = elim s [ same ↦ true | _ ↦ false ]

plain_directory : Option Item → Bool
plain_directory o = elim o [ none ↦ false | some i ↦ i.is_directory && not i.is_symlink ]

-- SynchronizedDirectoryName: `none` is "", false.
unfoldable pub synchronized_directory_name : List Entry → Bytes → Option Bytes
unfolding is_same plain_directory
synchronized_directory_name [] name = none
synchronized_directory_name (e ∷ es) name =
    let rest = synchronized_directory_name es name in
    if not (text_eq e.name name)
    then rest
    else if is_same e.status && plain_directory e.local && plain_directory e.remote
    then some e.name
    else none
