-- ===== src/Transfer/Bandwidth.antt =====
-- internal/transfer/bandwidth.go: the share of the bandwidth that one worker gets.
use native.Mathlib.Nat.{mul-div-le, lt-mul-div-succ, mul-le-mul_right}
use host_ftp.Base.{
  ℕ, suc, ℤ, pos, negsuc, pos_part, leb_ℤ, ◌-◌, ◌*◌, ◌/◌, ◌%◌, ◌^◌, ◌+◌, zero, ◌<◌, ◌≤◌, ◌≡◌, refl,
  subst, Bytes, codes, arith, ltb, if◌then◌else◌, text_eq, true,
}
use host_ftp.Config.Settings.{Settings, within}

-- What a product of two `int64` that is not negative wraps around to.
unfoldable pub wrap_int64 : ℕ → ℤ
wrap_int64 n = let r = n % 2 ^ 64 in if ltb r (2 ^ 63) then pos r else negsuc (2 ^ 64 - 1 - r)

-- Division of an `int64` by a positive number: it cuts towards 0.
unfoldable pub quot : ℤ → ℕ → ℤ
quot (pos n) d = pos (n / d)
quot (negsuc n) d = if ltb (suc n) d then pos 0 else negsuc (suc n / d - 1)

unfoldable pub limit_kib : Settings → Bytes → ℤ
limit_kib s direction =
    if text_eq direction (codes "upload")
    then s.upload_limit
    else if text_eq direction (codes "download")
    then s.download_limit
    else pos 0

-- The number of workers that the budget is divided among.
unfoldable pub slots : Settings → ℕ
slots s = if within (pos 1) (pos 8) s.parallelism then pos_part s.parallelism else 8

-- A direction of another name has the limit 0 here, which gives the same 0.
unfoldable pub bandwidth_limit_bytes_per_second : Settings → Bytes → ℤ
unfolding wrap_int64 quot limit_kib slots
bandwidth_limit_bytes_per_second s direction =
    if leb_ℤ (limit_kib s direction) (pos 0)
    then pos 0
    else quot (wrap_int64 (pos_part (limit_kib s direction) * 1024)) (slots s)

product_fits : (l : ℕ) → l ≤ 1048576 → wrap_int64 (l * 1024) ≡ pos (l * 1024)
unfolding wrap_int64
product_fits l h =
    let small : l * 1024 % 2 ^ 64 ≡ l * 1024 = omega (arith, h) in
    let below : ltb (l * 1024) (2 ^ 63) ≡ true = ground (arith, h) in rw (small, below) refl

share_lem : (n d b : ℕ) → n ≤ d → n * (b / d) ≤ b
share_lem n d b h = grind (arith, mul-div-le d b, mul-le-mul_right (b / d) h)

share_bound :
    (l d n : ℕ) → l ≤ 1048576 → n ≤ d → n * pos_part (quot (wrap_int64 (l * 1024)) d) ≤ l * 1024
unfolding quot
share_bound l d n h k = rw (product_fits l h) (share_lem n d (l * 1024) k)

share_floor :
    (l d : ℕ) → l ≤ 1048576 → 0 < d → l * 1024 < d * (pos_part (quot (wrap_int64 (l * 1024)) d) + 1)
unfolding quot
share_floor l d h k = rw (product_fits l h) (lt-mul-div-succ (l * 1024) k)

share_positive : (b d x : ℕ) → d ≤ b → b < d * (x + 1) → 0 < x
share_positive b d zero h k = absurd (omega (arith, h, k))
share_positive b d (suc x) h k = omega arith

-- One worker's share of a limit of `l` KiB/s among `k` workers: a limit above 0, which `n` workers
-- keep together, and of which less than a byte per second and worker is lost.
abbrev pub IsShare : ℕ → ℕ → ℕ → ℤ → Type 0
IsShare l k n share =
    (0 < pos_part share) × (n * pos_part share ≤ l * 1024) × (l * 1024 < k * (pos_part share + 1))

quot-IsShare :
    (l k n : ℕ)
    → 1 ≤ l
    → l ≤ 1048576
    → 1 ≤ k
    → k ≤ 8
    → n ≤ k
    → IsShare l k n (quot (wrap_int64 (l * 1024)) k)
quot-IsShare l k n pos_l h pos_k k8 nk =
    let floor = share_floor l k h pos_k in
    (share_positive (l * 1024) k _ (omega (arith, pos_l, k8)) floor, share_bound l k n h nk, floor)

slots_lem : (s : Settings) (k : ℕ) → s.parallelism ≡ pos k → 1 ≤ k → k ≤ 8 → slots s ≡ k
unfolding slots within
slots_lem s k e h l = ground (arith, e)

bandwidth-IsShare :
    (s : Settings) (direction : Bytes) (l k n : ℕ)
    → limit_kib s direction ≡ pos l
    → slots s ≡ k
    → 1 ≤ l
    → l ≤ 1048576
    → 1 ≤ k
    → k ≤ 8
    → n ≤ k
    → IsShare l k n (bandwidth_limit_bytes_per_second s direction)
unfolding bandwidth_limit_bytes_per_second
bandwidth-IsShare s direction l k n e f pos_l h pos_k k8 nk =
    let same : quot (wrap_int64 (l * 1024)) k ≡ bandwidth_limit_bytes_per_second s direction =
      ground (arith, e, f, pos_l) in
    subst (IsShare l k n) same (quot-IsShare l k n pos_l h pos_k k8 nk)

-- A limit of a direction that is set, which in valid settings is from 1 to 1048576 KiB/s, limits each
-- worker, and the workers up to the number that the settings allow, 1 to 8, stay within it
-- together; of the limit less than one byte per second is lost for each of them.
pub aggregate_bound :
    (s : Settings) (u d k n : ℕ)
    → s.upload_limit ≡ pos u
    → s.download_limit ≡ pos d
    → s.parallelism ≡ pos k
    → 1 ≤ u
    → u ≤ 1048576
    → 1 ≤ d
    → d ≤ 1048576
    → 1 ≤ k
    → k ≤ 8
    → n ≤ k
    → IsShare u k n (bandwidth_limit_bytes_per_second s (codes "upload"))
      × IsShare d k n (bandwidth_limit_bytes_per_second s (codes "download"))
unfolding limit_kib text_eq
aggregate_bound s u d k n eu ed ek pu hu pd hd pk k8 nk =
    let sl = slots_lem s k ek pk k8 in
    (
      bandwidth-IsShare s (codes "upload") u k n eu sl pu hu pk k8 nk,
      bandwidth-IsShare s (codes "download") d k n ed sl pd hd pk k8 nk,
    )
