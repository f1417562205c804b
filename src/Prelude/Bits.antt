-- ===== src/Prelude/Bits.antt =====
-- The masks and shifts of the variable-length integers as arithmetic: `& 0x7f`, `& 0x80`,
-- `| 0x80`, and the `|` of a value with bits above its own.
use Prim.Native.Nat.{
  ℕ, zero, suc, ◌+◌, ◌*◌, ◌/◌, ◌%◌, ◌^◌, ◌≤◌, ◌<◌, min, max, bit_and, bit_or, digits,
  bit_and-bitwise, bit_or-bitwise,
}
use mathlib.Core.Path.{◌≡◌, refl, ◌∙◌}
use native.Mathlib.Omega.{arith}
use native.Mathlib.Nat.{pow-suc}

abbrev and_with : ℕ → ℕ → ℕ → ℕ
and_with = digits (λ b. zero) min

abbrev or_with : ℕ → ℕ → ℕ → ℕ
or_with = digits (λ b. b) max

-- The digit count given does not matter, if it is enough.
and_with_enough : (n m a b : ℕ) → a ≤ n → a ≤ m → and_with n a b ≡ and_with m a b
and_with_enough zero zero a b p q = refl
and_with_enough (suc n) zero zero b p q = refl
and_with_enough zero (suc m) zero b p q = refl
and_with_enough (suc n) (suc m) zero b p q = refl
and_with_enough zero (suc m) (suc a) b p q = absurd (omega arith)
and_with_enough (suc n) zero (suc a) b p q = absurd (omega arith)
and_with_enough (suc n) (suc m) (suc a) b p q =
    omega (arith, and_with_enough n m (suc a / 2) (b / 2) (omega arith) (omega arith))

or_with_enough : (n m a b : ℕ) → a ≤ n → a ≤ m → or_with n a b ≡ or_with m a b
or_with_enough zero zero a b p q = refl
or_with_enough (suc n) zero zero b p q = refl
or_with_enough zero (suc m) zero b p q = refl
or_with_enough (suc n) (suc m) zero b p q = refl
or_with_enough zero (suc m) (suc a) b p q = absurd (omega arith)
or_with_enough (suc n) zero (suc a) b p q = absurd (omega arith)
or_with_enough (suc n) (suc m) (suc a) b p q =
    omega (arith, or_with_enough n m (suc a / 2) (b / 2) (omega arith) (omega arith))

and_none : (b : ℕ) → bit_and 0 b ≡ 0
and_none b = bit_and-bitwise 0 b

or_none : (b : ℕ) → bit_or 0 b ≡ b
or_none b = bit_or-bitwise 0 b

and_lowest : (a b : ℕ) → bit_and a b ≡ bit_and (a / 2) (b / 2) * 2 + min (a % 2) (b % 2)
and_lowest zero b = omega (arith, and_none b, and_none (b / 2))
and_lowest (suc a) b = omega (
  arith,
  bit_and-bitwise (suc a) b,
  bit_and-bitwise (suc a / 2) (b / 2),
  and_with_enough a (suc a / 2) (suc a / 2) (b / 2) (omega arith) (omega arith),
)

or_lowest : (a b : ℕ) → bit_or a b ≡ bit_or (a / 2) (b / 2) * 2 + max (a % 2) (b % 2)
or_lowest zero b = omega (arith, or_none b, or_none (b / 2))
or_lowest (suc a) b = omega (
  arith,
  bit_or-bitwise (suc a) b,
  bit_or-bitwise (suc a / 2) (b / 2),
  or_with_enough a (suc a / 2) (suc a / 2) (b / 2) (omega arith) (omega arith),
)

and_zero_below : (n a : ℕ) → a ≤ n → bit_and a 0 ≡ 0
and_zero_below n zero h = refl
and_zero_below zero (suc a) h = absurd (omega arith)
and_zero_below (suc n) (suc a) h =
    omega (arith, and_lowest (suc a) 0, and_zero_below n (suc a / 2) (omega arith))

and_zero : (a : ℕ) → bit_and a 0 ≡ 0
and_zero a = and_zero_below a a (omega arith)

and_three : (a : ℕ) → bit_and a 7 ≡ a % 8
and_three a = omega (
  arith,
  and_lowest a 7,
  and_lowest (a / 2) 3,
  and_lowest (a / 2 / 2) 1,
  and_zero (a / 2 / 2 / 2),
)

and_five : (a : ℕ) → bit_and a 31 ≡ a % 32
and_five a = omega (arith, and_lowest a 31, and_lowest (a / 2) 15, and_three (a / 2 / 2))

pub low_seven : (a : ℕ) → bit_and a 0x7f ≡ a % 128
low_seven a = omega (arith, and_lowest a 127, and_lowest (a / 2) 63, and_five (a / 2 / 2))

and_eight : (a : ℕ) → bit_and a 8 ≡ a / 8 % 2 * 8
and_eight a = omega (
  arith,
  and_lowest a 8,
  and_lowest (a / 2) 4,
  and_lowest (a / 2 / 2) 2,
  and_lowest (a / 2 / 2 / 2) 1,
  and_zero (a / 2 / 2 / 2 / 2),
)

pub high_bit : (a : ℕ) → bit_and a 0x80 ≡ a / 128 % 2 * 128
high_bit a = omega (
  arith,
  and_lowest a 128,
  and_lowest (a / 2) 64,
  and_lowest (a / 2 / 2) 32,
  and_lowest (a / 2 / 2 / 2) 16,
  and_eight (a / 2 / 2 / 2 / 2),
)

or_zero_below : (n a : ℕ) → a ≤ n → bit_or a 0 ≡ a
or_zero_below n zero h = refl
or_zero_below zero (suc a) h = absurd (omega arith)
or_zero_below (suc n) (suc a) h =
    omega (arith, or_lowest (suc a) 0, or_zero_below n (suc a / 2) (omega arith))

double_shift : (k c : ℕ) → c * 2 ^ suc k ≡ c * 2 ^ k * 2
double_shift k c = rw pow-suc (omega arith)

or_even : (a p : ℕ) → bit_or a (p * 2) ≡ bit_or (a / 2) p * 2 + a % 2
or_even a p = let half : p * 2 / 2 ≡ p = omega arith in or_lowest a (p * 2) ∙ rw half (omega arith)

-- A number below 2 ^ k joined with a multiple of 2 ^ k is their sum.
pub or_above : (k a c : ℕ) → a < 2 ^ k → bit_or a (c * 2 ^ k) ≡ a + c * 2 ^ k
or_above zero zero c h = or_none (c * 1) ∙ omega arith
or_above zero (suc a) c h = absurd (omega arith)
or_above (suc k) a c h =
    let small : a < 2 ^ k * 2 = rw pow-suc at h in
    rw (double_shift k c) (omega (arith, or_even a (c * 2 ^ k), or_above k (a / 2) c (omega arith)))

pub set_high_bit : (a : ℕ) → a < 128 → bit_or a 0x80 ≡ a + 128
set_high_bit a h = or_above 7 a 1 h
