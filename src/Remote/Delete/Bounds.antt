-- ===== src/Remote/Delete/Bounds.antt =====
-- What recursiveDelete may touch, and how much: internal/remote/util.go.
use host_ftp.Base.{
  ℕ, zero, suc, ◌+◌, ◌-◌, ◌≤◌, ◌≡◌, refl, Bytes, codes, Bool, true, false, ◌&&◌, ◌||◌, not, List,
  [], ◌∷◌, Option, none, some, inl, inr, arith, ltb, if◌then◌else◌, count, All, In, hd, tl, text_eq,
  Bool-cases, Option-cases,
}
use host_ftp.Transfer.Requests.{ok, validate_remote_name}
use host_ftp.Transfer.Frame.{Result-cases}
use host_ftp.Remote.Names.{Item}
use host_ftp.Remote.Delete.{
  Call, lists, removes_file, removes_dir, DeleteError, Progress, Server, step, remote_join, remove,
  each_item, child_is_dir, then_remove_dir, delete_listed, delete_target, guarded, named,
  recursive_delete, delete_from, max_remote_delete_depth, max_remote_delete_items, too_deep,
}

unfoldable pub is_removal : Call → Bool
is_removal (lists p) = false
is_removal (removes_file p) = true
is_removal (removes_dir p) = true

module _ (V : Server) (root : Bytes) (root_is_dir : Bool) where
  -- The target, and what a listing of a directory under it names, where a link counts as a file.
  pub data Reached : Bool → Bytes → Type 0 where
    itself : Reached root_is_dir root
    inside :
        {p : Bytes} {items : List Item} (h : List Call) (i : Item)
        → Reached true p
        → V.lists_as h p ≡ some items
        → In i items
        → validate_remote_name i.name ≡ ok tt
        → Reached (i.is_directory && not i.is_symlink) (remote_join V p i.name)

  abbrev pub NotTop : Bytes → Type 0
  NotTop p = (text_eq p (codes "/") ≡ false) × (text_eq p (codes ".") ≡ false)

  -- Directories are listed and removed as such, all else is removed as a file, and the root of the
  -- server is left alone.
  unfoldable pub IsAllowed : Call → Type 0
  IsAllowed (lists p) = Reached true p × NotTop p
  IsAllowed (removes_file p) = Reached false p × NotTop p
  IsAllowed (removes_dir p) = Reached true p × NotTop p

  -- With `d` directories that are still to be removed.
  pub record Holds (d : ℕ) (s : Progress) : Type 0 where
    pub allowed : All IsAllowed s.calls
    pub paid : count is_removal s.calls + d ≤ s.items
    pub bounded : count is_removal s.calls + d ≤ max_remote_delete_items

  fewer : (d : ℕ) (s : Progress) → Holds (d + 1) s → Holds d s
  fewer d s v = record {
    allowed = v.allowed;
    paid = omega (arith, v.paid);
    bounded = omega (arith, v.bounded);
  }

  remove-Holds :
      (d : ℕ) (c : Call) (s : Progress)
      → is_removal c ≡ true
      → IsAllowed c
      → Holds (d + 1) s
      → Holds d (remove V c s).0
  unfolding remove count
  remove-Holds d c s e a v = record {
    allowed = (a, v.allowed);
    paid = ground (arith, e, v.paid);
    bounded = ground (arith, e, v.bounded);
  }

  each-Holds :
      (d : ℕ) (f : Item → Progress → Progress × Option DeleteError) (is : List Item)
      → ((i : Item) → In i is → (s : Progress) → Holds d s → Holds d (f i s).0)
      → (s : Progress) → Holds d s
      → Holds d (each_item V f is s).0
  unfolding each_item
  each-Holds d f [] k s v = v
  each-Holds d f (i ∷ is) k s v = elim (Option-cases (f i s).1) [
    | inr (x, e) ↦ rw (e, each_item) (k i hd s v)
    | inl e ↦ rw (e, each_item) (each-Holds d f is (λ j n. k j (tl i n)) (f i s).0 (k i hd s v))
  ]

  then_remove-Holds :
      (d : ℕ) (p : Bytes) (r : Progress × Option DeleteError)
      → Reached true p
      → NotTop p
      → Holds (d + 1) r.0
      → Holds d (then_remove_dir V p r).0
  unfolding then_remove_dir IsAllowed is_removal
  then_remove-Holds d p (s, some e) a n v = fewer d s v
  then_remove-Holds d p (s, none) a n v = remove-Holds d (removes_dir p) s refl (a, n) v

  listed-Holds :
      (d : ℕ) (p : Bytes) (s : Progress)
      → Reached true p
      → NotTop p
      → Holds d s
      → Holds d (record s { calls = lists p ∷ s.calls })
  unfolding IsAllowed is_removal count
  listed-Holds d p s a n v = record {
    allowed = ((a, n), v.allowed);
    paid = v.paid;
    bounded = v.bounded;
  }

  Deletes : (Bytes → Item → Progress → Progress × Option DeleteError) → ℕ → Bytes → Type 0
  Deletes f d p =
      (h : List Call) (items : List Item) (i : Item)
      → Reached true p
      → V.lists_as h p ≡ some items
      → In i items
      → (t : Progress) → Holds d t
      → Holds d (f p i t).0

  delete_listed-Holds :
      (d : ℕ) (f : Bytes → Item → Progress → Progress × Option DeleteError) (p : Bytes)
      (h : List Call) (answer : Option (List Item)) (s : Progress)
      → Deletes f (d + 1) p
      → Reached true p
      → NotTop p
      → V.lists_as h p ≡ answer
      → Holds (d + 1) s
      → Holds d (delete_listed V f p answer s).0
  unfolding delete_listed Deletes
  delete_listed-Holds d f p h none s k a n e v = fewer d s v
  delete_listed-Holds d f p h (some items) s k a n e v =
      then_remove-Holds d p (each_item V (f p) items s) a n
        (each-Holds (d + 1) (f p) items (λ i m. k h items i a e m) s v)

  target-Holds :
      (d : ℕ) (f : Bytes → Item → Progress → Progress × Option DeleteError) (p : Bytes)
      (is_dir : Bool) (s : Progress)
      → Deletes f (d + 1) p
      → Reached is_dir p
      → Holds (d + 1) s
      → Holds d (delete_target V f p is_dir s).0
  unfolding delete_target IsAllowed is_removal
  target-Holds d f p is_dir s k a v =
      elim (Bool-cases (text_eq p (codes "/") || text_eq p (codes "."))) [
        | inl e ↦ rw e (fewer d s v)
        | inr e ↦ rw e (below e is_dir a)
      ]
    where
      apart : (text_eq p (codes "/") || text_eq p (codes ".")) ≡ false → NotTop p
      apart clear = (ground (arith, clear), ground (arith, clear))

      below :
          (text_eq p (codes "/") || text_eq p (codes ".")) ≡ false
          → (b : Bool) → Reached b p
          → Holds d
              (if not b
                then remove V (removes_file p) s
                else delete_listed V f p
                    (V.lists_as s.calls p)
                    (record s { calls = lists p ∷ s.calls })).0
      below e false r = remove-Holds d (removes_file p) s refl (r, apart e) v
      below e true r =
          delete_listed-Holds d f p s.calls _ _ k r (apart e) refl
            (listed-Holds (d + 1) p s r (apart e) v)

  step-Holds :
      (d depth : ℕ) (s : Progress)
      → Holds d s
      → ((step depth s).1 ≡ none → Holds (d + 1) (step depth s).0) × Holds d (step depth s).0
  unfolding step
  step-Holds d depth s v = elim (Bool-cases (ltb max_remote_delete_depth depth)) [
    | inl e ↦ rw e ((λ n. absurd (ground (arith, n))), v)
    | inr e ↦ elim (Bool-cases (ltb max_remote_delete_items (s.items + 1))) [
      | inl f ↦ rw (e, f) ((λ n. absurd (ground (arith, n))), more)
      | inr f ↦
          rw (e, f)
            (
              (λ n. record {
                allowed = v.allowed;
                paid = omega (arith, v.paid);
                bounded = ground (arith, f, v.paid);
              }),
              more,
            )
    ]
  ]
    where
      more : Holds d (record s { items = s.items + 1 })
      more = record { allowed = v.allowed; paid = omega (arith, v.paid); bounded = v.bounded }

  guarded-Holds :
      (d : ℕ) (rest : Progress → Progress × Option DeleteError) (r : Progress × Option DeleteError)
      → ((s : Progress) → Holds (d + 1) s → Holds d (rest s).0)
      → (r.1 ≡ none → Holds (d + 1) r.0)
      → Holds d r.0
      → Holds d (guarded V rest r).0
  unfolding guarded
  guarded-Holds d rest (s, some e) k a v = v
  guarded-Holds d rest (s, none) k a v = k s (a refl)

  -- A valid name goes on.
  named-Holds :
      (d : ℕ) (name : Bytes) (s : Progress) (rest : Progress × Option DeleteError)
      → Holds d s
      → (validate_remote_name name ≡ ok tt → Holds d rest.0)
      → Holds d (named V name s rest).0
  unfolding named
  named-Holds d name s rest v k = elim (Result-cases (validate_remote_name name)) [
    | inl (u, e) ↦ rw (e, named) (k e)
    | inr (x, e) ↦ rw (e, named) v
  ]

  -- The target itself, or an item of a listing.
  delete-Holds :
      (d room : ℕ) (base name : Bytes) (is_dir : Bool) (s : Progress)
      → (validate_remote_name name ≡ ok tt → Reached is_dir (remote_join V base name))
      → Holds d s
      → Holds d (recursive_delete V room base name is_dir s).0
  unfolding recursive_delete Deletes child_is_dir
  delete-Holds d zero base name is_dir s r v =
      let t = step-Holds d (max_remote_delete_depth + 1) s v in
      named-Holds d name s _ v
        (λ _. guarded-Holds d (λ u. (u, some too_deep)) _ (λ u w. fewer d u w) t.0 t.1)
  delete-Holds d (suc room) base name is_dir s r v =
      let t = step-Holds d (max_remote_delete_depth - room) s v in
      let f : Bytes → Item → Progress → Progress × Option DeleteError =
        λ target i. recursive_delete V room target i.name (child_is_dir V i) in
      named-Holds d name s _ v (λ e.
        guarded-Holds d (delete_target V f (remote_join V base name) is_dir) _
          (λ u w.
            target-Holds d f (remote_join V base name) is_dir u
              (λ h items i a l m t' w'.
                delete-Holds (d + 1) room (remote_join V base name) i.name (child_is_dir V i) t'
                  (inside h i a l m) w')
              (r e) w)
          t.0 t.1)

-- A removal that succeeds is the last call.
EndsWith : Server → Call → Progress × Option DeleteError → Type 0
EndsWith V c r =
    r.1 ≡ none → (rest : List Call) × (r.0.calls ≡ c ∷ rest) × (V.removes rest c ≡ true)

remove-EndsWith : (V : Server) (c : Call) (s : Progress) → EndsWith V c (remove V c s)
unfolding EndsWith remove
remove-EndsWith V c s n = (s.calls, refl, ground (arith, n))

then_remove-EndsWith :
    (V : Server) (p : Bytes) (r : Progress × Option DeleteError)
    → EndsWith V (removes_dir p) (then_remove_dir V p r)
unfolding then_remove_dir
then_remove-EndsWith V p (s, some e) = unfold EndsWith in λ n. absurd (ground (arith, n))
then_remove-EndsWith V p (s, none) = remove-EndsWith V (removes_dir p) s

listed-EndsWith :
    (V : Server) (f : Bytes → Item → Progress → Progress × Option DeleteError) (p : Bytes)
    (answer : Option (List Item)) (s : Progress)
    → EndsWith V (removes_dir p) (delete_listed V f p answer s)
unfolding delete_listed
listed-EndsWith V f p none s = unfold EndsWith in λ n. absurd (ground (arith, n))
listed-EndsWith V f p (some items) s = then_remove-EndsWith V p (each_item V (f p) items s)

-- The call that removes the target.
unfoldable pub removal : Bool → Bytes → Call
removal true p = removes_dir p
removal false p = removes_file p

target-EndsWith :
    (V : Server) (f : Bytes → Item → Progress → Progress × Option DeleteError) (p : Bytes)
    (is_dir : Bool) (s : Progress)
    → EndsWith V (removal is_dir p) (delete_target V f p is_dir s)
unfolding delete_target removal
target-EndsWith V f p is_dir s =
    elim (Bool-cases (text_eq p (codes "/") || text_eq p (codes "."))) [
      | inl e ↦ rw e (unfold EndsWith in λ n. absurd (ground (arith, n)))
      | inr e ↦ rw e (ends is_dir)
    ]
  where
    ends :
        (b : Bool)
        → EndsWith V (removal b p) (
            if not b
            then remove V (removes_file p) s
            else delete_listed V f p
                (V.lists_as s.calls p)
                (record s { calls = lists p ∷ s.calls }))
    ends false = remove-EndsWith V (removes_file p) s
    ends true =
        listed-EndsWith V f p (V.lists_as s.calls p) (record s { calls = lists p ∷ s.calls })

guarded-EndsWith :
    (V : Server) (c : Call) (rest : Progress → Progress × Option DeleteError)
    (r : Progress × Option DeleteError)
    → ((s : Progress) → EndsWith V c (rest s))
    → EndsWith V c (guarded V rest r)
unfolding guarded
guarded-EndsWith V c rest (s, some e) k = unfold EndsWith in λ n. absurd (ground (arith, n))
guarded-EndsWith V c rest (s, none) k = k s

named-EndsWith :
    (V : Server) (c : Call) (name : Bytes) (s : Progress) (rest : Progress × Option DeleteError)
    → EndsWith V c rest
    → EndsWith V c (named V name s rest)
unfolding named
named-EndsWith V c name s rest k = elim (Result-cases (validate_remote_name name)) [
  | inl (u, e) ↦ rw (e, named) k
  | inr (x, e) ↦ rw (e, named) (unfold EndsWith in λ n. absurd (ground (arith, n)))
]

deleted-EndsWith :
    (V : Server) (room : ℕ) (base name : Bytes) (is_dir : Bool) (s : Progress)
    → EndsWith V
        (removal is_dir (remote_join V base name))
        (recursive_delete V (suc room) base name is_dir s)
unfolding recursive_delete
deleted-EndsWith V room base name is_dir s =
    let f : Bytes → Item → Progress → Progress × Option DeleteError =
      λ target i. recursive_delete V room target i.name (child_is_dir V i) in
    let rest = delete_target V f (remote_join V base name) is_dir in
    let counted = step (max_remote_delete_depth - room) s in
    named-EndsWith V (removal is_dir (remote_join V base name)) name s (guarded V rest counted) (
      guarded-EndsWith V (removal is_dir (remote_join V base name)) rest counted
        (target-EndsWith V f (remote_join V base name) is_dir))

started :
    (V : Server) (p : Bytes) (is_dir : Bool) → Holds V p is_dir 0 (record { items = 0; calls = [] })
unfolding count
started V p is_dir = record { allowed = tt; paid = omega arith; bounded = omega arith }

-- Whatever the server answers, a deletion lists and removes only its target and what it has found in
-- the listings of directories under it, removes a link as a file and never follows it, leaves the
-- root of the server alone, and removes 10000 items at most; and if it succeeds, its last call is the
-- successful removal of the target.
pub delete_from_lem :
    (V : Server) (base name : Bytes) (is_dir : Bool)
    → All (IsAllowed V (remote_join V base name) is_dir) (delete_from V base name is_dir).0.calls
      × (count is_removal (delete_from V base name is_dir).0.calls ≤ 10000)
      × ((delete_from V base name is_dir).1 ≡ none
          → (rest : List Call) × ((delete_from V base name is_dir).0.calls
              ≡ removal is_dir (remote_join V base name) ∷ rest)
            × (V.removes rest (removal is_dir (remote_join V base name)) ≡ true))
unfolding delete_from EndsWith
delete_from_lem V base name is_dir =
    let p = remote_join V base name in
    let v =
      delete-Holds V p is_dir 0 (max_remote_delete_depth + 1) base name is_dir
        (record { items = 0; calls = [] }) (λ _. itself) (started V p is_dir) in
    (
      v.allowed,
      omega (arith, v.bounded),
      deleted-EndsWith V 64 base name is_dir (record { items = 0; calls = [] }),
    )
