-- ===== src/Prelude/Bits.antt =====
-- Bit operations as arithmetic: on one byte by a table, on fields of any width by the lowest digit.
use Prim.Native.Nat.{
  ℕ, zero, suc, ◌+◌, ◌*◌, ◌/◌, ◌%◌, ◌^◌, ◌≤◌, ◌<◌, min, max, bit_and, bit_or, digits, bitwise,
  bit_or-bitwise, bit_and-bitwise,
}
use mathlib.Core.Path.{◌≡◌, refl, sym, ap, ◌∙◌}
use mathlib.Core.Bool.{Bool, true, false}
use minimq.Prelude.Tests.{if◌then◌else◌, ◌==◌}
use native.Mathlib.Omega.{arith}
use native.Mathlib.Nat.{pow-suc}

module _ (f g : ℕ → ℕ) where
  same_below : ℕ → Bool
  same_below zero = true
  same_below (suc n) = if f n == g n then same_below n else false

  same_below→eq : (n : ℕ) → same_below n ≡ true → (i : ℕ) → i < n → f i ≡ g i
  unfolding same_below
  same_below→eq zero e i h = absurd (omega arith)
  same_below→eq (suc n) e i h = ground (arith, same_below→eq n (ground arith) i)

pub top_bit : (b : ℕ) → b < 256 → bit_and b 128 ≡ b / 128 * 128
unfolding same_below
top_bit = same_below→eq _ _ 256 refl

pub set_top_bit : (b : ℕ) → b < 128 → bit_or b 128 ≡ b + 128
unfolding same_below
set_top_bit = same_below→eq _ _ 128 refl

-- A bitwise operation with the digit function `digit`, and `rest` where the first argument is used up.
module _ (rest : ℕ → ℕ) (digit : ℕ → ℕ → ℕ) where
  used_up : (fuel b : ℕ) → digits rest digit fuel zero b ≡ rest b
  used_up zero b = refl
  used_up (suc fuel) b = refl

  -- More fuel than the first argument changes nothing.
  same_digits :
      (a fuel more b : ℕ)
      → a ≤ fuel
      → a ≤ more
      → digits rest digit fuel a b ≡ digits rest digit more a b
  same_digits zero fuel more b enough = λ also. used_up fuel b ∙ sym (used_up more b)
  same_digits (suc a) zero more b enough = absurd (omega arith)
  same_digits (suc a) (suc fuel) zero b enough = λ also. absurd (omega arith)
  same_digits (suc a) (suc fuel) (suc more) b enough = λ also.
      ap (λ d. d * 2 + digit (suc a % 2) (b % 2))
        (same_digits (suc a / 2) fuel more (b / 2) (omega arith) (omega arith))

  -- The lowest digit, where `rest` keeps the digits as `digit` at 0 does.
  bitwise_low :
      ((b : ℕ) → rest b ≡ rest (b / 2) * 2 + digit 0 (b % 2))
      → (a b : ℕ)
      → bitwise rest digit a b ≡ bitwise rest digit (a / 2) (b / 2) * 2 + digit (a % 2) (b % 2)
  bitwise_low keeps zero b = keeps b
  bitwise_low keeps (suc a) b =
      ap (λ d. d * 2 + digit (suc a % 2) (b % 2))
        (same_digits (suc a / 2) a (suc a / 2) (b / 2) (omega arith) (omega arith))

bit_or_low : (a b : ℕ) → bit_or a b ≡ bit_or (a / 2) (b / 2) * 2 + max (a % 2) (b % 2)
bit_or_low a b = simp bit_or-bitwise (bitwise_low (λ y. y) max (λ y. omega arith) a b)

bit_and_low : (a b : ℕ) → bit_and a b ≡ bit_and (a / 2) (b / 2) * 2 + min (a % 2) (b % 2)
bit_and_low a b = simp bit_and-bitwise (bitwise_low (λ y. 0) min (λ y. omega arith) a b)

zero-bit_or : (b : ℕ) → bit_or 0 b ≡ b
zero-bit_or b = bit_or-bitwise 0 b

bit_and-zero : (n a : ℕ) → a ≤ n → bit_and a 0 ≡ 0
bit_and-zero n zero h = refl
bit_and-zero zero (suc a) h = absurd (omega arith)
bit_and-zero (suc n) (suc a) h =
    omega (arith, bit_and_low (suc a) 0, bit_and-zero n (suc a / 2) (omega arith))

-- The mask of seven ones, on a word of any width: one digit at a time.
low_three : (a : ℕ) → bit_and a 7 ≡ a % 8
low_three a = omega (
  arith,
  bit_and_low a 7,
  bit_and_low (a / 2) 3,
  bit_and_low (a / 2 / 2) 1,
  bit_and-zero (a / 2 / 2 / 2) (a / 2 / 2 / 2) (omega arith),
)

pub low_seven : (a : ℕ) → bit_and a 127 ≡ a % 128
low_seven a = omega (
  arith,
  bit_and_low a 127,
  bit_and_low (a / 2) 63,
  bit_and_low (a / 2 / 2) 31,
  bit_and_low (a / 2 / 2 / 2) 15,
  low_three (a / 2 / 2 / 2 / 2),
)

-- Two fields that do not overlap: the low one of `k` bits.
pub bit_or-fields : (k low high : ℕ) → low < 2 ^ k → bit_or low (high * 2 ^ k) ≡ low + high * 2 ^ k
bit_or-fields zero low high h = ground (arith, zero-bit_or (high * 1))
bit_or-fields (suc k) low high h =
    let half = bit_or-fields k (low / 2) high (omega (arith, pow-suc 2 k)) in
    let whole : high * 2 ^ suc k ≡ high * 2 ^ k * 2 = rw (pow-suc 2 k) (grind arith) in
    let cut : high * 2 ^ k * 2 / 2 ≡ high * 2 ^ k = omega arith in
    let low_digit = rw cut at (bit_or_low low (high * 2 ^ k * 2)) in
    rw whole (omega (arith, low_digit, half))

bit_or-zero : (n a : ℕ) → a ≤ n → bit_or a 0 ≡ a
bit_or-zero n zero h = refl
bit_or-zero zero (suc a) h = absurd (omega arith)
bit_or-zero (suc n) (suc a) h =
    omega (arith, bit_or_low (suc a) 0, bit_or-zero n (suc a / 2) (omega arith))

-- The bit of value 8 is set and the others stay.
pub set_bit_three : (a : ℕ) → bit_or a 8 ≡ a / 16 * 16 + 8 + a % 8
set_bit_three a = omega (
  arith,
  bit_or_low a 8,
  bit_or_low (a / 2) 4,
  bit_or_low (a / 2 / 2) 2,
  bit_or_low (a / 2 / 2 / 2) 1,
  bit_or-zero (a / 2 / 2 / 2 / 2) (a / 2 / 2 / 2 / 2) (omega arith),
)
