-- ===== src/Base/Bits.antt =====
-- Python's `|` and `&` on non-negative integers, as arithmetic: fields that do not overlap add up, and
-- a mask of low bits keeps a remainder.
use Prim.Native.Nat.{
  ℕ, zero, suc, ◌+◌, ◌*◌, ◌/◌, ◌^◌, ◌≤◌, ◌<◌, min, max, digits, bit_and, bit_or, bit_and-bitwise,
  bit_or-bitwise,
}
use mathlib.Core.Path.{◌≡◌, refl, ap, ◌∙◌}
use native.Mathlib.Nat.{pow-suc}
use native.Mathlib.Omega.{arith}

-- x << k
infixl 60 ◌<<<◌
abbrev pub ◌<<<◌ : ℕ → ℕ → ℕ
x <<< k = x * 2 ^ k

double : (q k : ℕ) → q * 2 ^ suc k ≡ 2 * (q * 2 ^ k)
double q k = omega (arith, ap (λ (t : ℕ). q * t) (pow-suc 2 k))

abbrev or_digits : ℕ → ℕ → ℕ → ℕ
or_digits n a b = digits (λ y. y) max n a b

or_digits-zero : (n a : ℕ) → a ≤ n → or_digits n a 0 ≡ a
or_digits-zero zero a h = omega arith
or_digits-zero (suc n) zero h = refl
or_digits-zero (suc n) (suc a) h = omega (arith, or_digits-zero n (suc a / 2) (omega arith))

-- `a` has no digit below the k-th, and `r` none from there on.
or_digits_sum : (n k q a r : ℕ) → a ≡ q * 2 ^ k → a ≤ n → r < 2 ^ k → or_digits n a r ≡ a + r
or_digits_sum zero k q a r e h fits = omega arith
or_digits_sum (suc n) k q zero r e h fits = omega arith
or_digits_sum (suc n) zero q (suc a) r e h fits =
    let none_left : r ≡ 0 = omega arith in
    rw none_left (omega (arith, or_digits-zero (suc n) (suc a) h))
or_digits_sum (suc n) (suc k) q (suc a) r e h fits =
    let half = double q k in
    omega (
      arith,
      half,
      or_digits_sum n k q (suc a / 2) (r / 2) (omega (arith, e, half)) (omega arith)
          (omega (arith, fits, pow-suc 2 k)),
    )

pub bit_or_sum : (k q r : ℕ) → r < 2 ^ k → bit_or (q <<< k) r ≡ (q <<< k) + r
bit_or_sum k q r fits =
    bit_or-bitwise (q <<< k) r ∙ or_digits_sum (q <<< k) k q (q <<< k) r refl (omega arith) fits

and_digits-zero : (n a : ℕ) → a ≤ n → digits (λ y. zero) min n a 0 ≡ 0
and_digits-zero zero a h = refl
and_digits-zero (suc n) zero h = refl
and_digits-zero (suc n) (suc a) h = omega (arith, and_digits-zero n (suc a / 2) (omega arith))

and_digits_mask :
    (n k q r a m : ℕ)
    → a ≡ q * 2 ^ k + r
    → a ≤ n
    → r < 2 ^ k
    → suc m ≡ 2 ^ k
    → digits (λ y. zero) min n a m ≡ r
and_digits_mask zero k q r a m e h fits ones = omega arith
and_digits_mask (suc n) k q r zero m e h fits ones = omega arith
and_digits_mask (suc n) zero q r (suc a) m e h fits ones =
    let no_mask : m ≡ 0 = omega arith in
    rw no_mask (omega (arith, and_digits-zero (suc n) (suc a) h))
and_digits_mask (suc n) (suc k) q r (suc a) m e h fits ones =
    let half = double q k in
    omega (
      arith,
      half,
      and_digits_mask n k q (r / 2) (suc a / 2) (m / 2) (omega (arith, e, half)) (omega arith)
          (omega (arith, fits, pow-suc 2 k)) (omega (arith, ones, pow-suc 2 k)),
    )

-- `a` with r below the k-th digit, and a mask of k ones
pub bit_and_mask : (k q r m : ℕ) → r < 2 ^ k → suc m ≡ 2 ^ k → bit_and ((q <<< k) + r) m ≡ r
bit_and_mask k q r m fits ones =
    bit_and-bitwise ((q <<< k) + r) m
    ∙ and_digits_mask ((q <<< k) + r) k q r ((q <<< k) + r) m refl (omega arith) fits ones
