-- ===== src/Remote/Names.antt =====
-- internal/remote/util.go: remoteEntry, truncateUTF8Bytes, backupName, validateChmod; and
-- internal/model/types.go (Item).
use host_ftp.Base.{
  ℕ, zero, suc, ◌-◌, ◌≤◌, ◌≡◌, refl, Bytes, codes, Bool, true, ◌&&◌, ◌||◌, List, [], ◌∷◌, ◌++◌,
  Option, none, some, inl, inr, arith, leb, ◌==◌, if◌then◌else◌, length, take, drop, text_eq,
  is_blank, has_prefix, is_utf8, Bool-cases, length-take,
}

-- `Modified` in nanoseconds; `none` is the zero time.
pub record Item : Type 0 where
  pub name : Bytes
  pub size : ℕ
  pub is_directory : Bool
  pub is_symlink : Bool
  pub modified : Option ℕ
  pub permissions : Bytes

unfoldable pub remote_entry : List Item → Bytes → Option Item
remote_entry [] name = none
remote_entry (i ∷ items) name = if text_eq i.name name then some i else remote_entry items name

-- The loop that cuts bytes off until the rest is valid: `n` is `len(b)`.
unfoldable pub cut_to_valid : ℕ → Bytes → Bytes
cut_to_valid zero s = []
cut_to_valid (suc n) s =
    let rest = cut_to_valid n s in if is_utf8 (take (suc n) s) then take (suc n) s else rest

-- A negative `max` is 0 here already.
unfoldable pub truncate_utf8_bytes : Bytes → ℕ → Bytes
unfolding cut_to_valid
truncate_utf8_bytes value max =
    if max == 0 then [] else if leb (length value) max then value else cut_to_valid max value

unfoldable pub trim_prefix : Bytes → Bytes → Bytes
trim_prefix s p = if has_prefix s p then drop (length p) s else s

abbrev pub rollback_prefix : Bytes
rollback_prefix = codes ".GhostFTP-rollback-"

abbrev pub backup_infix : Bytes
backup_infix = codes ".GhostFTP-backup-"

unfoldable pub backup_token : Bytes → Bytes → Bytes
unfolding trim_prefix
backup_token base rollback =
    if text_eq (trim_prefix rollback rollback_prefix) rollback
    then trim_prefix rollback (base ++ rollback_prefix)
    else trim_prefix rollback rollback_prefix

unfoldable pub backup_name : Bytes → Bytes → Bool → Bytes
unfolding backup_token truncate_utf8_bytes
backup_name base rollback keep_backup =
    let suffix = backup_infix ++ backup_token base rollback in
    let prefix = truncate_utf8_bytes base (240 - length suffix) in
    if keep_backup
    then if is_blank prefix then codes "datoteka" ++ suffix else prefix ++ suffix
    else rollback

unfoldable pub all_octal : Bytes → Bool
all_octal [] = true
all_octal (c ∷ s) = leb b'0' c && leb c b'7' && all_octal s

-- validateChmod: `true` where it returns nil.
unfoldable pub validate_chmod : Bytes → Bool
unfolding all_octal
validate_chmod mode = (length mode == 3 || length mode == 4) && all_octal mode

cut_to_valid_bound :
    (n : ℕ) (s : Bytes) → (length (cut_to_valid n s) ≤ n) × (is_utf8 (cut_to_valid n s) ≡ true)
unfolding cut_to_valid
cut_to_valid_bound zero s = (omega arith, unfold is_utf8 in refl)
cut_to_valid_bound (suc n) s = elim (Bool-cases (is_utf8 (take (suc n) s))) [
  | inl e ↦ rw e (omega (arith, length-take (suc n) s), e)
  | inr e ↦ rw e (let (l, u) = cut_to_valid_bound n s in (omega (arith, l), u))
]

-- The cut text has at most `max` bytes, and it is valid UTF-8 if the text was.
pub truncate_bound :
    (value : Bytes) (max : ℕ)
    → is_utf8 value ≡ true
    → (length (truncate_utf8_bytes value max) ≤ max)
      × (is_utf8 (truncate_utf8_bytes value max) ≡ true)
unfolding truncate_utf8_bytes
truncate_bound value max h =
    let empty : is_utf8 [] ≡ true = unfold is_utf8 in refl in
    ground (arith, cut_to_valid_bound max value, empty)
