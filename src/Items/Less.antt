-- ===== src/Items/Less.antt =====
-- The comparison that sorting is given: internal/itemlist/sort.go.
use host_ftp.Base.{
  List, [], ◌∷◌, ◌≡◌, refl, ap, ◌∙◌, inl, inr, Bytes, Bool, true, false, Option, none, some,
  is_blank, ℕ, Bool-cases, arith,
}
use host_ftp.Items.{
  Field, field_name, field_type, field_size, field_modified, field_permissions, other_field, Spec,
  KeyedItem, Cmp, below, equal, above, text_lt, compare_string, compare_number, compare_modified,
  compare_permissions, compare_primary, tie_less, sign_less, less, directory_less,
}

text_lt_asym : (a b : Bytes) → text_lt a b ≡ true → text_lt b a ≡ false
unfolding text_lt
text_lt_asym s [] h = ground arith
text_lt_asym [] (b ∷ t) h = refl
text_lt_asym (a ∷ s) (b ∷ t) h = ground (arith, text_lt_asym s t)

-- A text is not below itself.
pub text_lt_irrefl : (a : Bytes) → text_lt a a ≡ false
unfolding text_lt
text_lt_irrefl [] = refl
text_lt_irrefl (a ∷ s) = ground (arith, text_lt_irrefl s)

abbrev flip : Cmp → Cmp
flip below = above
flip equal = equal
flip above = below

abbrev swap : Cmp × Bool → Cmp × Bool
swap c = (flip c.0, c.1)

swap_string : (a b : Bytes) → compare_string b a ≡ flip (compare_string a b)
unfolding compare_string
swap_string a b = elim (Bool-cases (text_lt a b)) [
  | inl e ↦ rw (e, text_lt_asym a b e)
  | inr e ↦ rw e (elim (Bool-cases (text_lt b a)) [ inl k ↦ rw k | inr k ↦ rw k ])
]

swap_number : (a b : ℕ) → compare_number b a ≡ flip (compare_number a b)
unfolding compare_number
swap_number a b = ground arith

swap_modified : (a b : Option ℕ) → compare_modified b a ≡ swap (compare_modified a b)
unfolding compare_modified
swap_modified none none = refl
swap_modified none (some b) = refl
swap_modified (some a) none = refl
swap_modified (some a) (some b) = ap (λ c. (c, true)) (swap_number a b)

swap_permissions : (a b : Bytes) → compare_permissions b a ≡ swap (compare_permissions a b)
unfolding compare_permissions is_blank
swap_permissions [] [] = ap (λ c. (c, true)) (swap_string [] [])
swap_permissions [] (b ∷ t) = refl
swap_permissions (a ∷ s) [] = refl
swap_permissions (a ∷ s) (b ∷ t) = ap (λ c. (c, true)) (swap_string (a ∷ s) (b ∷ t))

swap_primary : (a b : KeyedItem) (f : Field) → compare_primary b a f ≡ swap (compare_primary a b f)
unfolding compare_primary
swap_primary a b field_type = ap (λ c. (c, true)) (swap_string a.type_key b.type_key)
swap_primary a b field_size = ap (λ c. (c, true)) (swap_number a.item.size b.item.size)
swap_primary a b field_modified = swap_modified a.item.modified b.item.modified
swap_primary a b field_permissions = swap_permissions a.permissions_key b.permissions_key
swap_primary a b field_name = ap (λ c. (c, true)) (swap_string a.name_key b.name_key)
swap_primary a b (other_field n) = ap (λ c. (c, true)) (swap_string a.name_key b.name_key)

tie_asym : (f : Field) (a b : KeyedItem) → tie_less f a b ≡ true → tie_less f b a ≡ false
unfolding tie_less
tie_asym field_name a b h = refl
tie_asym field_type a b h = ground (arith, text_lt_asym a.name_key b.name_key)
tie_asym field_size a b h = ground (arith, text_lt_asym a.name_key b.name_key)
tie_asym field_modified a b h = ground (arith, text_lt_asym a.name_key b.name_key)
tie_asym field_permissions a b h = ground (arith, text_lt_asym a.name_key b.name_key)
tie_asym (other_field n) a b h = ground (arith, text_lt_asym a.name_key b.name_key)

sign_asym :
    (c : Cmp × Bool) (d t u : Bool)
    → (t ≡ true → u ≡ false)
    → sign_less c d t ≡ true
    → sign_less (swap c) d u ≡ false
unfolding sign_less
sign_asym (below, r) d t u k h = ground arith
sign_asym (equal, r) d t u k h = k h
sign_asym (above, r) d t u k h = ground arith

directory_asym :
    (a b x y : Bool)
    → (x ≡ true → y ≡ false)
    → directory_less a b x ≡ true
    → directory_less b a y ≡ false
unfolding directory_less
directory_asym true true x y k h = k h
directory_asym false false x y k h = k h
directory_asym true false x y k h = refl
directory_asym false true x y k h = ground arith

pub less_asym : (spec : Spec) (a b : KeyedItem) → less spec a b ≡ true → less spec b a ≡ false
unfolding less
less_asym spec a b =
    directory_asym a.item.is_directory b.item.is_directory
      (sign_less (compare_primary a b spec.field) spec.descending (tie_less spec.field a b))
      (sign_less (compare_primary b a spec.field) spec.descending (tie_less spec.field b a))
      (λ h. rw (
        swap_primary a b spec.field,
        sign_asym (compare_primary a b spec.field) spec.descending (tie_less spec.field a b)
            (tie_less spec.field b a) (tie_asym spec.field a b) h,
      ))

string_same : (a b : Bytes) → a ≡ b → compare_string a b ≡ equal
unfolding compare_string
string_same a b h = rw (h, text_lt_irrefl b) refl

directory_same : (a b x : Bool) → a ≡ b → directory_less a b x ≡ x
unfolding directory_less
directory_same true b x h = rw⁻¹ h refl
directory_same false b x h = rw⁻¹ h refl

-- Of two directories, or two other items, with one name key neither belongs before the other.
pub same_unordered :
    (down : Bool) (a b : KeyedItem)
    → a.item.is_directory ≡ b.item.is_directory
    → a.name_key ≡ b.name_key
    → less (record { field = field_name; descending = down }) a b ≡ false
unfolding less compare_primary tie_less sign_less
same_unordered down a b h k =
    directory_same a.item.is_directory b.item.is_directory
      (sign_less (compare_string a.name_key b.name_key, true) down false) h
    ∙ ap (λ c. sign_less (c, true) down false) (string_same a.name_key b.name_key k)

-- The head of `xs` does not belong before `z`.
abbrev pub Follows : Spec → KeyedItem → List KeyedItem → Type 0
Follows spec z [] = Unit
Follows spec z (x ∷ xs) = less spec x z ≡ false

-- No entry belongs before the one in front of it.
abbrev pub IsOrdered : Spec → List KeyedItem → Type 0
IsOrdered spec [] = Unit
IsOrdered spec (x ∷ xs) = Follows spec x xs × IsOrdered spec xs
