-- ===== src/Items/Stable.antt =====
-- Items with one name in a sorted list: internal/itemlist/sort.go.
use host_ftp.Base.{
  ◌≡◌, refl, sym, ap, ◌∙◌, inl, inr, Bytes, Bool, true, false, ◌&&◌, not, List, [], ◌∷◌, map, All,
  keep, if◌then◌else◌, text_eq, eq_of_text_eq, Bool-cases, arith,
}
use host_ftp.Remote.Names.{Item}
use host_ftp.Items.{
  field_name, Spec, KeyedItem, less, insert, sort_keyed, keyed, checked_spec, sort,
}
use host_ftp.Items.Less.{same_unordered}
use host_ftp.Items.Order.{
  items_of, keep_tail, keep_cong, IsKeyed, All-sort_keyed, map-keyed-IsKeyed, items_of-keyed,
  sort_by_general,
}

module _ (to_lower : Bytes → Bytes) where
  -- The entries of one class, none of which belongs before another, keep their order.
  keep-insert :
      (spec : Spec) (p : Item → Bool)
      → ((a b : KeyedItem)
          → IsKeyed to_lower a
          → IsKeyed to_lower b
          → p a.item ≡ true
          → p b.item ≡ true
          → less spec a b ≡ false)
      → (x : KeyedItem) (ys : List KeyedItem) → IsKeyed to_lower x
      → All (IsKeyed to_lower) ys
      → keep p (items_of (insert spec x ys)) ≡ keep p (x.item ∷ items_of ys)
  unfolding insert
  keep-insert spec p l x [] h k = refl
  keep-insert spec p l x (y ∷ ys) h k = elim (Bool-cases (less spec y x)) [
    | inr e ↦ rw e refl
    | inl e ↦ elim (Bool-cases (p y.item)) [
      | inr py ↦ rw e (
          keep_tail p y.item (items_of (insert spec x ys)) py
          ∙ keep-insert spec p l x ys h k.1
          ∙ sym (
              keep_cong p x.item (y.item ∷ items_of ys) (items_of ys)
                (keep_tail p y.item (items_of ys) py)))
      | inl py ↦ elim (Bool-cases (p x.item)) [
        | inl px ↦ absurd (let q = l y x k.0 h py px in cc)
        | inr px ↦ rw e (
            keep_cong p y.item (items_of (insert spec x ys)) (items_of ys)
              (keep-insert spec p l x ys h k.1 ∙ keep_tail p x.item (items_of ys) px)
            ∙ sym (keep_tail p x.item (y.item ∷ items_of ys) px))
      ]
    ]
  ]

  keep-sort_keyed :
      (spec : Spec) (p : Item → Bool)
      → ((a b : KeyedItem)
          → IsKeyed to_lower a
          → IsKeyed to_lower b
          → p a.item ≡ true
          → p b.item ≡ true
          → less spec a b ≡ false)
      → (xs : List KeyedItem) → All (IsKeyed to_lower) xs
      → keep p (items_of (sort_keyed spec xs)) ≡ keep p (items_of xs)
  unfolding sort_keyed
  keep-sort_keyed spec p l [] h = refl
  keep-sort_keyed spec p l (x ∷ xs) h =
      keep-insert spec p l x (sort_keyed spec xs) h.0
        (All-sort_keyed (IsKeyed to_lower) spec xs h.1)
      ∙ keep_cong p x.item (items_of (sort_keyed spec xs)) (items_of xs)
          (keep-sort_keyed spec p l xs h.1)

  -- The directories, or the rest, whose names fold to `name`.
  unfoldable pub is_alike : Bool → Bytes → Item → Bool
  unfolding text_eq
  is_alike d name i =
      let folded = text_eq (to_lower i.name) name in
      if i.is_directory then d && folded else not d && folded

  alike_lem :
      (d : Bool) (name : Bytes) (i : Item)
      → is_alike d name i ≡ true
      → (i.is_directory ≡ d) × (to_lower i.name ≡ name)
  unfolding is_alike
  alike_lem d name i h = ground (arith, eq_of_text_eq (to_lower i.name) name)

  alike_unordered :
      (d down : Bool) (name : Bytes) (a b : KeyedItem)
      → IsKeyed to_lower a
      → IsKeyed to_lower b
      → is_alike d name a.item ≡ true
      → is_alike d name b.item ≡ true
      → less (record { field = field_name; descending = down }) a b ≡ false
  unfolding IsKeyed keyed
  alike_unordered d down name a b ka kb ha hb =
      let (da, na) = alike_lem d name a.item ha in
      let (db, nb) = alike_lem d name b.item hb in
      same_unordered down a b (da ∙ sym db)
        (sym (ap (λ k. k.name_key) ka) ∙ na ∙ sym nb ∙ ap (λ k. k.name_key) kb)

  -- Sort leaves the directories whose names fold to the same text in their order, and the other
  -- items likewise.
  pub sort_stable :
      (items : List Item) (d : Bool) (name : Bytes)
      → keep (is_alike d name) (sort to_lower items) ≡ keep (is_alike d name) items
  unfolding sort checked_spec
  sort_stable items d name =
      let spec : Spec = record { field = field_name; descending = false } in
      ap (keep (is_alike d name)) (sort_by_general to_lower items spec)
      ∙ keep-sort_keyed spec (is_alike d name) (alike_unordered d false name)
          (map (keyed to_lower) items) (map-keyed-IsKeyed to_lower items)
      ∙ ap (keep (is_alike d name)) (items_of-keyed to_lower items)
