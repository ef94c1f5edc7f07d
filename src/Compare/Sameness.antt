-- ===== src/Compare/Sameness.antt =====
-- What "same" stands for, and that each name is listed once: internal/directorycompare/compare.go.
use host_ftp.Base.{
  ℕ, ℤ, ◌+◌, ◌<◌, ◌≤◌, ◌≡◌, refl, sym, ◌⊎◌, inl, inr, Bytes, subst, Bool, true, false, ◌||◌, List,
  [], ◌∷◌, map, some, arith, if◌then◌else◌, count, All, text_eq, text_eq_refl, eq_of_text_eq, leb,
  ◌∙◌, text_mem, Option-cases, Bool-cases,
}
use host_ftp.Remote.Names.{Item}
use host_ftp.Compare.Entries.{
  same, Entry, normalized_tolerance, max_timestamp_tolerance, sub_time, classify_times,
  classify_files, classify_pair, named, add_name, add_names, insert_name, sort_names, entry_for,
  classify_groups, compare_directories, bool_eq,
}

-- What makes a pair the same: two directories, or two files of one size, which is not 0, whose
-- times are known and differ by the tolerance at most. Neither is a link.
pub IsAlike : ℕ → Item → Item → Type 0
IsAlike tolerance l r =
    (l.is_symlink ≡ false)
    × (r.is_symlink ≡ false)
    × (((l.is_directory ≡ true) × (r.is_directory ≡ true))
        ⊎ ((l.is_directory ≡ false)
            × (r.is_directory ≡ false)
            × (l.size ≡ r.size)
            × (0 < l.size)
            × ((a : ℕ) × (b : ℕ) × (l.modified ≡ some a)
                × (r.modified ≡ some b)
                × (a ≤ b + tolerance)
                × (b ≤ a + tolerance))))

times_lem :
    (t a b n m : ℕ)
    → t ≤ max_timestamp_tolerance
    → classify_times t a b n m ≡ same
    → (n ≡ m) × (0 < n) × (a ≤ b + t) × (b ≤ a + t)
unfolding classify_times sub_time
times_lem t a b n m h e = ground (arith, h, e)

files_lem :
    (t : ℕ) (l r : Item)
    → t ≤ max_timestamp_tolerance
    → classify_files t l r ≡ same
    → (l.size ≡ r.size)
      × (0 < l.size)
      × ((a : ℕ) × (b : ℕ) × (l.modified ≡ some a)
          × (r.modified ≡ some b)
          × (a ≤ b + t)
          × (b ≤ a + t))
unfolding classify_files
files_lem t l r h e = elim (Option-cases l.modified) [
  | inl p ↦ absurd (ground (arith, e, p))
  | inr (a, p) ↦ elim (Option-cases r.modified) [
    | inl q ↦ absurd (ground (arith, e, p, q))
    | inr (b, q) ↦
        let c : classify_times t a b l.size r.size ≡ same = ground (arith, e, p, q) in
        let (n, z, u, v) = times_lem t a b l.size r.size h c in (n, z, (a, b, p, q, u, v))
  ]
]

pair_lem :
    (t : ℕ) (l r : Item) → t ≤ max_timestamp_tolerance → classify_pair l r t ≡ same → IsAlike t l r
unfolding classify_pair IsAlike bool_eq
pair_lem t l r h e =
    let a : l.is_symlink ≡ false = ground (arith, e) in
    let b : r.is_symlink ≡ false = ground (arith, e) in
    elim (Bool-cases l.is_directory) [
      | inl d ↦ (a, b, inl (d, ground (arith, e, d)))
      | inr d ↦
          let k : classify_files t l r ≡ same = ground (arith, e, d) in
          let (n, z, times) = files_lem t l r h k in
          (a, b, inr (d, ground (arith, e, d), n, z, times))
    ]

groups_lem :
    (t : ℕ) (ls rs : List Item)
    → t ≤ max_timestamp_tolerance
    → classify_groups ls rs t ≡ same
    → (l : Item) × (r : Item) × (ls ≡ l ∷ []) × (rs ≡ r ∷ []) × IsAlike t l r
unfolding classify_groups
groups_lem t [] [] h e = absurd (ground (arith, e))
groups_lem t [] (r ∷ []) h e = absurd (ground (arith, e))
groups_lem t [] (r ∷ r' ∷ rs) h e = absurd (ground (arith, e))
groups_lem t (l ∷ []) [] h e = absurd (ground (arith, e))
groups_lem t (l ∷ []) (r ∷ []) h e = (l, r, refl, refl, pair_lem t l r h e)
groups_lem t (l ∷ []) (r ∷ r' ∷ rs) h e = absurd (ground (arith, e))
groups_lem t (l ∷ l' ∷ ls) [] h e = absurd (ground (arith, e))
groups_lem t (l ∷ l' ∷ ls) (r ∷ rs) h e = absurd (ground (arith, e))

-- An entry is called the same only for one item on each side, and these are alike.
pub IsHonest : List Item → List Item → ℕ → Entry → Type 0
IsHonest local remote t e =
    e.status ≡ same
    → (l : Item) × (r : Item) × (named local e.name ≡ l ∷ [])
      × (named remote e.name ≡ r ∷ [])
      × IsAlike t l r

-- How often a name stands in a list.
occurs : Bytes → List Bytes → ℕ
occurs n ns = count (λ m. text_eq m n) ns

honest :
    (local remote : List Item) (t : ℕ) (ns : List Bytes)
    → t ≤ max_timestamp_tolerance
    → All (IsHonest local remote t) (map (entry_for local remote t) ns)
unfolding IsHonest entry_for
honest local remote t [] h = tt
honest local remote t (n ∷ ns) h =
    ((λ e. groups_lem t (named local n) (named remote n) h e), honest local remote t ns h)

occurs-insert : (n m : Bytes) (ms : List Bytes) → occurs n (insert_name m ms) ≡ occurs n (m ∷ ms)
unfolding occurs insert_name count
occurs-insert n m [] = refl
occurs-insert n m (k ∷ ms) = ground (arith, occurs-insert n m ms)

occurs-sort : (n : Bytes) (ns : List Bytes) → occurs n (sort_names ns) ≡ occurs n ns
unfolding occurs sort_names count
occurs-sort n [] = refl
occurs-sort n (m ∷ ns) = ground (arith, occurs-insert n m (sort_names ns), occurs-sort n ns)

-- The tolerance that was asked for is one that is allowed.
tolerance_lem : (z : ℤ) (t : ℕ) → normalized_tolerance z ≡ some t → t ≤ max_timestamp_tolerance
unfolding normalized_tolerance
tolerance_lem (ℤ.pos n) t h = ground (arith, h)
tolerance_lem (ℤ.negsuc n) t h = absurd (ground (arith, h))

-- Every entry of a comparison that calls a pair the same says so of one local and one remote item
-- of that name: two directories that are no links, or two files of one size above 0 with known
-- times, no further apart than the tolerance.
pub compare-IsHonest :
    (local remote : List Item) (z : ℤ) (t : ℕ) (es : List Entry)
    → normalized_tolerance z ≡ some t
    → compare_directories local remote z ≡ some es
    → All (IsHonest local remote t) es
unfolding compare_directories
compare-IsHonest local remote z t es h e =
    let ns = sort_names (add_names local (add_names remote [])) in
    let same_list : map (entry_for local remote t) ns ≡ es = ground (arith, h, e) in
    subst (All (IsHonest local remote t)) same_list (honest local remote t ns (tolerance_lem z t h))

pub in_item : Bytes → List Item → Bool
in_item n [] = false
in_item n (i ∷ items) = text_eq i.name n || in_item n items

mem_occurs : (n : Bytes) (ns : List Bytes) → text_mem n ns ≡ leb 1 (occurs n ns)
unfolding occurs text_mem count
mem_occurs n [] = refl
mem_occurs n (m ∷ ns) = ground (arith, mem_occurs n ns)

add_name_other :
    (n m : Bytes) (ns : List Bytes) → text_eq m n ≡ false → occurs n (add_name m ns) ≡ occurs n ns
unfolding occurs add_name count
add_name_other n m ns e = ground (arith, e)

add_name_same : (n : Bytes) (ns : List Bytes) → occurs n ns ≤ 1 → occurs n (add_name n ns) ≡ 1
unfolding occurs add_name count
add_name_same n ns h = ground (arith, h, mem_occurs n ns, text_eq_refl n)

occurs-add_names :
    (n : Bytes) (items : List Item) (ns : List Bytes)
    → occurs n ns ≤ 1
    → occurs n (add_names items ns) ≡ (if in_item n items then 1 else occurs n ns)
unfolding add_names in_item
occurs-add_names n [] ns h = refl
occurs-add_names n (i ∷ items) ns h =
    let ms = add_names items ns in
    let rest = occurs-add_names n items ns h in
    elim (Bool-cases (text_eq i.name n)) [
      | inl e ↦
          let same_name : n ≡ i.name = sym (eq_of_text_eq i.name n e) in
          let once : occurs n (add_name n ms) ≡ 1 = add_name_same n ms (ground (arith, rest, h)) in
          rw e (subst (λ x. occurs n (add_name x ms) ≡ 1) same_name once)
      | inr e ↦ rw e (add_name_other n i.name ms e ∙ rest)
    ]

listed_count :
    (local remote : List Item) (t : ℕ) (n : Bytes) (ns : List Bytes)
    → count (λ e. text_eq e.name n) (map (entry_for local remote t) ns) ≡ occurs n ns
unfolding occurs count entry_for
listed_count local remote t n [] = refl
listed_count local remote t n (m ∷ ns) = ground (arith, listed_count local remote t n ns)

-- A comparison has one entry for a name that an item of either side has, and none for another.
pub compare_lists_each_name_once :
    (local remote : List Item) (z : ℤ) (n : Bytes) (es : List Entry)
    → compare_directories local remote z ≡ some es
    → count (λ e. text_eq e.name n) es ≡ (if in_item n local || in_item n remote then 1 else 0)
unfolding compare_directories
compare_lists_each_name_once local remote z n es e =
    let ms = add_names remote [] in
    let ns = add_names local ms in
    let none_yet : occurs n [] ≡ 0 = unfold occurs count in refl in
    let b = occurs-add_names n remote [] (omega (arith, none_yet)) in
    let a = occurs-add_names n local ms (ground (arith, b, none_yet)) in
    elim (Option-cases (normalized_tolerance z)) [
      | inl h ↦ absurd (ground (arith, h, e))
      | inr (t, h) ↦
          let same_list : map (entry_for local remote t) (sort_names ns) ≡ es =
            ground (arith, h, e) in
          subst
            (λ x.
              count (λ e. text_eq e.name n) x
              ≡ (if in_item n local || in_item n remote then 1 else 0))
            same_list
            (listed_count local remote t n (sort_names ns)
              ∙ (occurs-sort n ns ∙ ground (arith, a, b, none_yet)))
    ]
