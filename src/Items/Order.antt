-- ===== src/Items/Order.antt =====
-- What sorting does to a list: internal/itemlist/sort.go.
use host_ftp.Base.{
  ◌≡◌, refl, sym, ap, ap₂, subst, ◌∙◌, inl, inr, Bytes, Bool, true, false, not, List, [], ◌∷◌, ◌++◌,
  map, All, count, keep, if◌then◌else◌, Bool-cases, arith,
}
use host_ftp.Remote.Names.{Item}
use host_ftp.Items.{
  Spec, KeyedItem, compare_primary, tie_less, sign_less, less, insert, sort_keyed, keyed,
  checked_spec, directory_less, sort_by,
}
use host_ftp.Items.Less.{less_asym, Follows, IsOrdered}
use host_ftp.Items.Ranks.{IsSorted, IsOrdered-IsSorted}

insert-Follows :
    (spec : Spec) (z x : KeyedItem) (ys : List KeyedItem)
    → Follows spec z ys
    → less spec x z ≡ false
    → Follows spec z (insert spec x ys)
unfolding insert
insert-Follows spec z x [] f h = h
insert-Follows spec z x (y ∷ ys) f h = elim (Bool-cases (less spec y x)) [
  | inl e ↦ rw e f
  | inr e ↦ rw e h
]

insert-IsOrdered :
    (spec : Spec) (x : KeyedItem) (ys : List KeyedItem)
    → IsOrdered spec ys
    → IsOrdered spec (insert spec x ys)
unfolding insert
insert-IsOrdered spec x [] h = (tt, tt)
insert-IsOrdered spec x (y ∷ ys) h = elim (Bool-cases (less spec y x)) [
  | inl e ↦
      rw e (insert-Follows spec y x ys h.0 (less_asym spec y x e), insert-IsOrdered spec x ys h.1)
  | inr e ↦ rw e (e, h)
]

sort_keyed-IsOrdered : (spec : Spec) (xs : List KeyedItem) → IsOrdered spec (sort_keyed spec xs)
unfolding sort_keyed
sort_keyed-IsOrdered spec [] = tt
sort_keyed-IsOrdered spec (x ∷ xs) =
    insert-IsOrdered spec x (sort_keyed spec xs) (sort_keyed-IsOrdered spec xs)

abbrev pub items_of : List KeyedItem → List Item
items_of = map (λ k. k.item)

count-insert :
    (spec : Spec) (p : Item → Bool) (x : KeyedItem) (ys : List KeyedItem)
    → count p (items_of (insert spec x ys)) ≡ count p (x.item ∷ items_of ys)
unfolding insert count
count-insert spec p x [] = refl
count-insert spec p x (y ∷ ys) = ground (arith, count-insert spec p x ys)

count-sort_keyed :
    (spec : Spec) (p : Item → Bool) (xs : List KeyedItem)
    → count p (items_of (sort_keyed spec xs)) ≡ count p (items_of xs)
unfolding sort_keyed count
count-sort_keyed spec p [] = refl
count-sort_keyed spec p (x ∷ xs) =
    count-insert spec p x (sort_keyed spec xs) ∙ ground (arith, count-sort_keyed spec p xs)

-- What holds of each entry holds after sorting.
All-insert {ℓ} :
    (P : KeyedItem → Type ℓ) (spec : Spec) (x : KeyedItem) (ys : List KeyedItem)
    → P x
    → All P ys
    → All P (insert spec x ys)
unfolding insert
All-insert P spec x [] h k = (h, tt)
All-insert P spec x (y ∷ ys) h k = elim (Bool-cases (less spec y x)) [
  | inl e ↦ rw e (k.0, All-insert P spec x ys h k.1)
  | inr e ↦ rw e (h, k)
]

pub All-sort_keyed {ℓ} :
    (P : KeyedItem → Type ℓ) (spec : Spec) (xs : List KeyedItem)
    → All P xs
    → All P (sort_keyed spec xs)
unfolding sort_keyed
All-sort_keyed P spec [] h = tt
All-sort_keyed P spec (x ∷ xs) h =
    All-insert P spec x (sort_keyed spec xs) h.0 (All-sort_keyed P spec xs h.1)

module _ {ℓ} {A : Type ℓ} (p : A → Bool) where
  keep_head : (x : A) (xs : List A) → p x ≡ true → keep p (x ∷ xs) ≡ x ∷ keep p xs
  unfolding keep
  keep_head x xs h = rw h refl

  pub keep_tail : (x : A) (xs : List A) → p x ≡ false → keep p (x ∷ xs) ≡ keep p xs
  unfolding keep
  keep_tail x xs h = rw h refl

  pub keep_cong :
      (x : A) (xs ys : List A) → keep p xs ≡ keep p ys → keep p (x ∷ xs) ≡ keep p (x ∷ ys)
  unfolding keep
  keep_cong x xs ys h = ap (λ r. if p x then x ∷ r else r) h

abbrev pub is_dir : Item → Bool
is_dir i = i.is_directory

abbrev pub is_other : Item → Bool
is_other i = not i.is_directory

directory_first : (a b x : Bool) → a ≡ true → b ≡ false → directory_less a b x ≡ true
unfolding directory_less
directory_first a b x h k = rw (h, k) refl

-- Behind a file there are files only.
files_follow :
    (spec : Spec) (x : KeyedItem) (ys : List KeyedItem)
    → x.item.is_directory ≡ false
    → Follows spec x ys
    → IsOrdered spec ys
    → (keep is_dir (items_of ys) ≡ []) × (keep is_other (items_of ys) ≡ items_of ys)
unfolding keep
files_follow spec x [] h f o = (refl, refl)
files_follow spec x (y ∷ ys) h f o = elim (Bool-cases y.item.is_directory) [
  | inl e ↦ absurd (
      let k : less spec y x ≡ true =
        unfold less in
        directory_first y.item.is_directory x.item.is_directory
          (sign_less (compare_primary y x spec.field) spec.descending (tie_less spec.field y x)) e
          h in
      cc)
  | inr e ↦
      let (a, b) = files_follow spec y ys e o.0 o.1 in
      (
        keep_tail is_dir y.item (items_of ys) e ∙ a,
        keep_head is_other y.item (items_of ys) (ap not e) ∙ ap (◌∷◌ y.item) b,
      )
]

directories_lead :
    (spec : Spec) (xs : List KeyedItem)
    → IsOrdered spec xs
    → keep is_dir (items_of xs) ++ keep is_other (items_of xs) ≡ items_of xs
unfolding keep
directories_lead spec [] o = refl
directories_lead spec (x ∷ xs) o = elim (Bool-cases x.item.is_directory) [
  | inl e ↦
      ap₂ ◌++◌ (keep_head is_dir x.item (items_of xs) e)
        (keep_tail is_other x.item (items_of xs) (ap not e))
      ∙ ap (◌∷◌ x.item) (directories_lead spec xs o.1)
  | inr e ↦
      let (a, b) = files_follow spec x xs e o.0 o.1 in
      ap₂ ◌++◌ (keep_tail is_dir x.item (items_of xs) e ∙ a)
        (keep_head is_other x.item (items_of xs) (ap not e) ∙ ap (◌∷◌ x.item) b)
]

module _ (to_lower : Bytes → Bytes) where
  -- The keys are those of the item.
  unfoldable pub IsKeyed : KeyedItem → Type 0
  IsKeyed k = keyed to_lower k.item ≡ k

  pub map-keyed-IsKeyed : (items : List Item) → All IsKeyed (map (keyed to_lower) items)
  unfolding IsKeyed keyed
  map-keyed-IsKeyed [] = tt
  map-keyed-IsKeyed (i ∷ items) = (refl, map-keyed-IsKeyed items)

  keyed-items_of : (ks : List KeyedItem) → All IsKeyed ks → map (keyed to_lower) (items_of ks) ≡ ks
  unfolding IsKeyed
  keyed-items_of [] h = refl
  keyed-items_of (k ∷ ks) h = ap₂ ◌∷◌ h.0 (keyed-items_of ks h.1)

  pub items_of-keyed : (items : List Item) → items_of (map (keyed to_lower) items) ≡ items
  unfolding keyed
  items_of-keyed [] = refl
  items_of-keyed (i ∷ items) = ap (◌∷◌ i) (items_of-keyed items)

  pub sort_by_general :
      (items : List Item) (spec : Spec)
      → sort_by to_lower items spec
        ≡ items_of (sort_keyed (checked_spec spec) (map (keyed to_lower) items))
  unfolding sort_by sort_keyed insert keyed checked_spec
  sort_by_general [] spec = refl
  sort_by_general (i ∷ []) spec = refl
  sort_by_general (i ∷ j ∷ items) spec = refl

  -- Sorting keeps every item as often as it was there and puts the directories before the rest
  -- whatever the order. Of two neighbours of one kind the first is below the second in the chosen
  -- field, or above it in descending order, or the same with a name that is not above; unknown times and
  -- permissions stand at the end in both orders.
  pub sort_by_lem :
      (items : List Item) (spec : Spec) (p : Item → Bool)
      → (count p (sort_by to_lower items spec) ≡ count p items)
        × IsSorted to_lower spec (sort_by to_lower items spec)
        × (keep is_dir (sort_by to_lower items spec) ++ keep is_other (sort_by to_lower items spec)
            ≡ sort_by to_lower items spec)
  sort_by_lem items spec p =
      let ks = map (keyed to_lower) items in
      let c = checked_spec spec in
      let o = sort_keyed-IsOrdered c ks in
      let all = All-sort_keyed IsKeyed c ks (map-keyed-IsKeyed items) in
      let ordered = subst (IsOrdered c) (sym (keyed-items_of (sort_keyed c ks) all)) o in
      subst
        (λ out.
          (count p out ≡ count p items)
          × IsSorted to_lower spec out
          × (keep is_dir out ++ keep is_other out ≡ out))
        (sym (sort_by_general items spec))
        (
          count-sort_keyed c p ks ∙ ap (count p) (items_of-keyed items),
          IsOrdered-IsSorted to_lower spec.field spec.descending (items_of (sort_keyed c ks))
              ordered,
          directories_lead c (sort_keyed c ks) o,
        )
