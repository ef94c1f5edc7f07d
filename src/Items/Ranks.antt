-- ===== src/Items/Ranks.antt =====
-- The order of a sorted list in terms of its items: internal/itemlist/sort.go.
use host_ftp.Base.{
  ℕ, ◌<◌, ◌≡◌, refl, subst, ◌⊎◌, inl, inr, Bytes, Bool, true, false, List, [], ◌∷◌, map, Option,
  none, some, if◌then◌else◌, ltb, is_blank, trim_space, text_eq, eq_of_text_eq, Bool-cases, arith,
}
use host_ftp.Remote.Names.{Item}
use host_ftp.Items.{
  Field, field_name, field_type, field_size, field_modified, field_permissions, other_field, Spec,
  text_lt, compare_string, compare_number, compare_modified, compare_permissions, compare_primary,
  tie_less, sign_less, directory_less, less, keyed, item_type_key, checked_spec,
}
use host_ftp.Items.Less.{text_lt_irrefl, Follows, IsOrdered}

-- `a` stands in front of `b`: in ascending order (`false`) it is less, in descending order greater,
-- and where they are the same the tie decides.
abbrev pub ByNumber : Bool → ℕ → ℕ → Type 0 → Type 0
ByNumber false a b Tie = (a < b) ⊎ ((a ≡ b) × Tie)
ByNumber true a b Tie = (b < a) ⊎ ((a ≡ b) × Tie)

abbrev pub ByText : Bool → Bytes → Bytes → Type 0 → Type 0
ByText false a b Tie = (text_lt a b ≡ true) ⊎ ((a ≡ b) × Tie)
ByText true a b Tie = (text_lt b a ≡ true) ⊎ ((a ≡ b) × Tie)

-- Unknown times and permissions stand at the end in both orders.
abbrev pub ByTime : Bool → Option ℕ → Option ℕ → Type 0 → Type 0
ByTime down none none Tie = Tie
ByTime down none (some b) Tie = true ≡ false
ByTime down (some a) none Tie = true ≡ true
ByTime down (some a) (some b) Tie = ByNumber down a b Tie

abbrev pub ByPermissions : Bool → Bytes → Bytes → Type 0 → Type 0
ByPermissions down [] [] Tie = Tie
ByPermissions down [] (b ∷ t) Tie = true ≡ false
ByPermissions down (a ∷ s) [] Tie = true ≡ true
ByPermissions down (a ∷ s) (b ∷ t) Tie = ByText down (a ∷ s) (b ∷ t) Tie

text_lt_total : (a b : Bytes) → text_lt a b ≡ false → text_lt b a ≡ false → a ≡ b
unfolding text_lt
text_lt_total [] [] h k = refl
text_lt_total [] (b ∷ t) h k = absurd (ground (arith, h))
text_lt_total (a ∷ s) [] h k = absurd (ground (arith, k))
text_lt_total (a ∷ s) (b ∷ t) h k = ground (arith, h, k, text_lt_total s t)

module _ (Tie : Type 0) (tie : Bool) (decides : tie ≡ false → Tie) where
  number_rank :
      (down : Bool) (a b : ℕ)
      → sign_less (compare_number b a, true) down tie ≡ false
      → ByNumber down a b Tie
  unfolding sign_less compare_number
  number_rank false a b h = elim (Bool-cases (ltb a b)) [
    | inl e ↦ inl (ground (arith, e))
    | inr e ↦ inr (ground (arith, h, e), decides (ground (arith, h, e)))
  ]
  number_rank true a b h = elim (Bool-cases (ltb b a)) [
    | inl e ↦ inl (ground (arith, e))
    | inr e ↦ inr (ground (arith, h, e), decides (ground (arith, h, e)))
  ]

  text_rank :
      (down : Bool) (a b : Bytes)
      → sign_less (compare_string b a, true) down tie ≡ false
      → ByText down a b Tie
  unfolding sign_less compare_string
  text_rank false a b h = elim (Bool-cases (text_lt a b)) [
    | inl e ↦ inl e
    | inr e ↦ inr (text_lt_total a b e (ground (arith, h, e)), decides (ground (arith, h, e)))
  ]
  text_rank true a b h = elim (Bool-cases (text_lt b a)) [
    | inl e ↦ inl e
    | inr e ↦ inr (text_lt_total a b (ground (arith, h, e)) e, decides (ground (arith, h, e)))
  ]

  time_rank :
      (down : Bool) (a b : Option ℕ)
      → sign_less (compare_modified b a) down tie ≡ false
      → ByTime down a b Tie
  unfolding sign_less compare_modified
  time_rank down none none h = decides h
  time_rank down none (some b) h = absurd (ground (arith, h))
  time_rank down (some a) none h = refl
  time_rank down (some a) (some b) h = number_rank down a b h

  permissions_rank :
      (down : Bool) (a b : Bytes)
      → sign_less (compare_permissions b a) down tie ≡ false
      → ByPermissions down a b Tie
  unfolding sign_less compare_permissions is_blank compare_string text_lt
  permissions_rank down [] [] h = decides h
  permissions_rank down [] (b ∷ t) h = absurd (ground (arith, h))
  permissions_rank down (a ∷ s) [] h = refl
  permissions_rank down (a ∷ s) (b ∷ t) h = text_rank down (a ∷ s) (b ∷ t) h

module _ (to_lower : Bytes → Bytes) where
  -- The names in ascending order.
  abbrev NameTie : Item → Item → Type 0
  NameTie a b = text_lt (to_lower b.name) (to_lower a.name) ≡ false

  -- `a` may stand in front of `b`, if they are two directories or two other items.
  abbrev pub Ranked : Field → Bool → Item → Item → Type 0
  Ranked field_name down a b = ByText down (to_lower a.name) (to_lower b.name) (true ≡ true)
  Ranked (other_field n) down a b = ByText down (to_lower a.name) (to_lower b.name) (true ≡ true)
  Ranked field_type down a b =
      ByText down (item_type_key to_lower a) (item_type_key to_lower b) (NameTie a b)
  Ranked field_size down a b = ByNumber down a.size b.size (NameTie a b)
  Ranked field_modified down a b = ByTime down a.modified b.modified (NameTie a b)
  Ranked field_permissions down a b =
      ByPermissions down (to_lower (trim_space a.permissions)) (to_lower (trim_space b.permissions))
        (NameTie a b)

  tie_NameTie :
      (a b : Item)
      → (if text_eq (to_lower b.name) (to_lower a.name)
          then false
          else text_lt (to_lower b.name) (to_lower a.name))
        ≡ false
      → NameTie a b
  tie_NameTie a b h = elim (Bool-cases (text_eq (to_lower b.name) (to_lower a.name))) [
    | inl e ↦
        subst (λ t. text_lt (to_lower b.name) t ≡ false)
          (eq_of_text_eq (to_lower b.name) (to_lower a.name) e) (text_lt_irrefl (to_lower b.name))
    | inr e ↦ ground (arith, h, e)
  ]

  tie_of : Item → Item → Bool
  tie_of a b =
      if text_eq (to_lower b.name) (to_lower a.name)
      then false
      else text_lt (to_lower b.name) (to_lower a.name)

  field_rank :
      (f : Field) (down : Bool) (a b : Item)
      → sign_less
          (compare_primary (keyed to_lower b) (keyed to_lower a) f)
          down
          (tie_less f (keyed to_lower b) (keyed to_lower a))
        ≡ false
      → Ranked f down a b
  unfolding compare_primary tie_less keyed tie_of
  field_rank field_name down a b h =
      text_rank (true ≡ true) false (λ _. refl) down (to_lower a.name) (to_lower b.name) h
  field_rank (other_field n) down a b h =
      text_rank (true ≡ true) (tie_of a b) (λ _. refl) down (to_lower a.name) (to_lower b.name) h
  field_rank field_type down a b h =
      text_rank (NameTie a b) (tie_of a b) (tie_NameTie a b) down (item_type_key to_lower a)
        (item_type_key to_lower b) h
  field_rank field_size down a b h =
      number_rank (NameTie a b) (tie_of a b) (tie_NameTie a b) down a.size b.size h
  field_rank field_modified down a b h =
      time_rank (NameTie a b) (tie_of a b) (tie_NameTie a b) down a.modified b.modified h
  field_rank field_permissions down a b h =
      permissions_rank (NameTie a b) (tie_of a b) (tie_NameTie a b) down
        (to_lower (trim_space a.permissions)) (to_lower (trim_space b.permissions)) h

  -- `a` may stand in front of `b`: directories before the rest, and by the field within these.
  abbrev pub StandsBefore : Spec → Item → Item → Type 0
  StandsBefore spec a b =
      ((a.is_directory ≡ true) × (b.is_directory ≡ false))
      ⊎ ((a.is_directory ≡ b.is_directory) × Ranked spec.field spec.descending a b)

  split_directories :
      (a b rest : Bool)
      → directory_less b a rest ≡ false
      → ((a ≡ true) × (b ≡ false)) ⊎ ((a ≡ b) × (rest ≡ false))
  unfolding directory_less
  split_directories true true rest h = inr (refl, h)
  split_directories false false rest h = inr (refl, h)
  split_directories true false rest h = inl (refl, refl)
  split_directories false true rest h = absurd (ground (arith, h))

  rest_of : Field → Bool → Item → Item → Bool
  rest_of f down a b =
      sign_less (compare_primary (keyed to_lower b) (keyed to_lower a) f) down
        (tie_less f (keyed to_lower b) (keyed to_lower a))

  less_cases :
      (f g : Field) (down : Bool) (a b : Item)
      → (rest_of g down a b ≡ false → Ranked f down a b)
      → directory_less b.is_directory a.is_directory (rest_of g down a b) ≡ false
      → StandsBefore (record { field = f; descending = down }) a b
  less_cases f g down a b k h =
      elim (split_directories a.is_directory b.is_directory (rest_of g down a b) h) [
        | inl e ↦ inl e
        | inr (e, r) ↦ inr (e, k r)
      ]

  pub less-StandsBefore :
      (f : Field) (down : Bool) (a b : Item)
      → less
          (checked_spec (record { field = f; descending = down }))
          (keyed to_lower b)
          (keyed to_lower a)
        ≡ false
      → StandsBefore (record { field = f; descending = down }) a b
  unfolding less keyed rest_of checked_spec
  less-StandsBefore field_name down a b h =
      less_cases field_name field_name down a b (field_rank field_name down a b) h
  less-StandsBefore field_type down a b h =
      less_cases field_type field_type down a b (field_rank field_type down a b) h
  less-StandsBefore field_size down a b h =
      less_cases field_size field_size down a b (field_rank field_size down a b) h
  less-StandsBefore field_modified down a b h =
      less_cases field_modified field_modified down a b (field_rank field_modified down a b) h
  less-StandsBefore field_permissions down a b h =
      less_cases field_permissions field_permissions down a b
        (field_rank field_permissions down a b) h
  less-StandsBefore (other_field n) down a b h =
      less_cases (other_field n) field_name down a b (field_rank field_name down a b) h

  -- Of two neighbours the first may stand in front of the second.
  abbrev Leads : Spec → Item → List Item → Type 0
  Leads spec a [] = true ≡ true
  Leads spec a (b ∷ bs) = StandsBefore spec a b

  abbrev pub IsSorted : Spec → List Item → Type 0
  IsSorted spec [] = true ≡ true
  IsSorted spec (a ∷ is) = Leads spec a is × IsSorted spec is

  leads_lem :
      (f : Field) (down : Bool) (a : Item) (bs : List Item)
      → Follows
          (checked_spec (record { field = f; descending = down }))
          (keyed to_lower a)
          (map (keyed to_lower) bs)
      → Leads (record { field = f; descending = down }) a bs
  leads_lem f down a [] h = refl
  leads_lem f down a (b ∷ bs) h = less-StandsBefore f down a b h

  pub IsOrdered-IsSorted :
      (f : Field) (down : Bool) (is : List Item)
      → IsOrdered (checked_spec (record { field = f; descending = down })) (map (keyed to_lower) is)
      → IsSorted (record { field = f; descending = down }) is
  IsOrdered-IsSorted f down [] h = refl
  IsOrdered-IsSorted f down (a ∷ is) h =
      (leads_lem f down a is h.0, IsOrdered-IsSorted f down is h.1)
