-- ===== src/Base/Decimal.antt =====
-- Decimal numbers: what `strconv.Atoi` reads and `strconv.Itoa` and `%d` write.
use Prim.Native.Nat.{ℕ, zero, suc, ◌+◌, ◌-◌, ◌*◌, ◌/◌, ◌%◌, ◌≤◌, ◌<◌}
use mathlib.Core.Path.{◌≡◌, refl}
use mathlib.Core.Logic.{inl, inr}
use mathlib.Core.Bool.{Bool, true, false, not, ◌&&◌}
use mathlib.Core.List.{[], ◌∷◌, ◌++◌}
use native.Mathlib.Omega.{arith}
use host_ftp.Base.Tests.{ltb, leb, ◌==◌, if◌then◌else◌, Bool-cases}
use host_ftp.Base.Text.{Bytes, is_blank}
use host_ftp.Base.Lists.{All, All-append}

unfoldable pub all_digits : Bytes → Bool
all_digits [] = true
all_digits (c ∷ s) = leb b'0' c && leb c b'9' && all_digits s

unfoldable pub leading_zero : Bytes → Bool
leading_zero [] = false
leading_zero (c ∷ s) = c == b'0' && not (is_blank s)

-- `strconv.Atoi` on digits, without its limit.
unfoldable pub digits_value : ℕ → Bytes → ℕ
digits_value acc [] = acc
digits_value acc (c ∷ s) = digits_value (acc * 10 + (c - b'0')) s

-- Decimal digits, as `%d` writes them; numbers below 10 ^ fuel.
unfoldable pub digits_from : ℕ → ℕ → Bytes
digits_from zero n = []
digits_from (suc fuel) n =
    let rest = digits_from fuel (n / 10) in
    if ltb n 10 then (b'0' + n) ∷ [] else rest ++ (b'0' + n % 10) ∷ []

-- 10 ^ fuel.
abbrev pub tens : ℕ → ℕ
tens zero = 1
tens (suc fuel) = 10 * tens fuel

abbrev pub IsDigit : ℕ → Type 0
IsDigit c = (b'0' ≤ c) × (c ≤ b'9')

digits_value-append :
    (acc : ℕ) (s t : Bytes) → digits_value acc (s ++ t) ≡ digits_value (digits_value acc s) t
unfolding digits_value
digits_value-append acc [] t = refl
digits_value-append acc (c ∷ s) t = digits_value-append (acc * 10 + (c - b'0')) s t

-- What is written is read back.
pub digits_value-digits_from :
    (fuel n : ℕ) → n < tens fuel → digits_value 0 (digits_from fuel n) ≡ n
unfolding digits_value digits_from
digits_value-digits_from zero n h = omega arith
digits_value-digits_from (suc fuel) n h = elim (Bool-cases (ltb n 10)) [
  | inl e ↦ rw e (omega arith)
  | inr e ↦
      let front = digits_from fuel (n / 10) in
      let smaller : n / 10 < tens fuel = omega arith in
      let value = digits_value-digits_from fuel (n / 10) smaller in
      rw (e, digits_value-append 0 front ((b'0' + n % 10) ∷ []), value) (omega arith)
]

pub digits_from-IsDigit : (fuel n : ℕ) → All IsDigit (digits_from fuel n)
unfolding digits_from
digits_from-IsDigit zero n = tt
digits_from-IsDigit (suc fuel) n = elim (Bool-cases (ltb n 10)) [
  | inl e ↦ rw e ((omega arith, ground (arith, e)), tt)
  | inr e ↦ rw e (
      All-append IsDigit (digits_from fuel (n / 10)) ((b'0' + n % 10) ∷ [])
        (digits_from-IsDigit fuel (n / 10)) ((omega arith, omega arith), tt))
]

pub all_digits-IsDigit : (s : Bytes) → All IsDigit s → all_digits s ≡ true
unfolding all_digits
all_digits-IsDigit [] h = refl
all_digits-IsDigit (c ∷ s) h = ground (arith, all_digits-IsDigit s h.1)

starts_nonzero : Bytes → Bool
starts_nonzero [] = false
starts_nonzero (c ∷ s) = not (c == b'0')

starts_nonzero-append : (s t : Bytes) → starts_nonzero s ≡ true → starts_nonzero (s ++ t) ≡ true
unfolding starts_nonzero
starts_nonzero-append [] t h = absurd (ground arith)
starts_nonzero-append (c ∷ s) t h = h

digits_from-starts :
    (fuel n : ℕ) → 1 ≤ n → n < tens fuel → starts_nonzero (digits_from fuel n) ≡ true
unfolding starts_nonzero digits_from
digits_from-starts zero n l h = absurd (omega arith)
digits_from-starts (suc fuel) n l h = elim (Bool-cases (ltb n 10)) [
  | inl e ↦ rw e (ground arith)
  | inr e ↦
      let some_left : 1 ≤ n / 10 = ground (arith, e) in
      let smaller : n / 10 < tens fuel = omega arith in
      rw e (
        starts_nonzero-append (digits_from fuel (n / 10)) ((b'0' + n % 10) ∷ [])
          (digits_from-starts fuel (n / 10) some_left smaller))
]

plain_start :
    (s : Bytes) → starts_nonzero s ≡ true → (is_blank s ≡ false) × (leading_zero s ≡ false)
unfolding starts_nonzero leading_zero is_blank
plain_start [] h = absurd (ground arith)
plain_start (c ∷ s) h = ground arith

zero_digit : (fuel : ℕ) → digits_from (suc fuel) 0 ≡ b'0' ∷ []
unfolding digits_from
zero_digit fuel = refl

pub digits_from-plain :
    (fuel n : ℕ)
    → n < tens (suc fuel)
    → (is_blank (digits_from (suc fuel) n) ≡ false)
      × (leading_zero (digits_from (suc fuel) n) ≡ false)
unfolding leading_zero is_blank
digits_from-plain fuel zero h = rw (zero_digit fuel) (refl, refl)
digits_from-plain fuel (suc n) h =
    plain_start (digits_from (suc fuel) (suc n))
      (digits_from-starts (suc fuel) (suc n) (omega arith) h)
