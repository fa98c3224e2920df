-- ===== src/Prelude/Bits.antt =====
-- The masks of the varint code as arithmetic: `& 0x7F` and `& 0x80` on a byte, `| 0x80` on seven
-- bits, and `x | d` where the low seven bits of `x` are clear.
use Prim.Native.Nat.{
  ℕ, zero, suc, ◌+◌, ◌*◌, ◌/◌, ◌%◌, ◌≤◌, ◌<◌, max, min, bit_and, bit_or, digits, bit_or-bitwise,
  bit_and-bitwise,
}
use mathlib.Core.Path.{◌≡◌, refl}
use mathlib.Core.Bool.{Bool, true, ◌&&◌}
use native.Mathlib.Omega.{arith}
use negentropy.Prelude.Tests.{◌==◌}

same_below : ℕ → (ℕ → ℕ) → (ℕ → ℕ) → Bool
same_below zero f g = true
same_below (suc n) f g = (f n == g n) && same_below n f g

same_below_sound : (n : ℕ) (f g : ℕ → ℕ) (x : ℕ) → same_below n f g ≡ true → x < n → f x ≡ g x
unfolding same_below
same_below_sound zero f g x e h = absurd (omega arith)
same_below_sound (suc n) f g x e h = ground (arith, same_below_sound n f g x)

pub bit_and_top : (b : ℕ) → b < 256 → bit_and b 0x80 ≡ b / 128 * 128
unfolding same_below
bit_and_top b h = same_below_sound 256 (λ x. bit_and x 0x80) (λ x. x / 128 * 128) b refl h

pub bit_or_top : (b : ℕ) → b < 128 → bit_or b 0x80 ≡ b + 128
unfolding same_below
bit_or_top b h = same_below_sound 128 (λ x. bit_or x 0x80) (λ x. x + 128) b refl h

or_digits_enough :
    (n m a b : ℕ) → a ≤ n → a ≤ m → digits (λ b. b) max n a b ≡ digits (λ b. b) max m a b
or_digits_enough zero zero a b p q = refl
or_digits_enough zero (suc m) zero b p q = refl
or_digits_enough zero (suc m) (suc a) b p q = absurd (omega arith)
or_digits_enough (suc n) zero zero b p q = refl
or_digits_enough (suc n) zero (suc a) b p q = absurd (omega arith)
or_digits_enough (suc n) (suc m) zero b p q = refl
or_digits_enough (suc n) (suc m) (suc a) b p q =
    omega (arith, or_digits_enough n m (suc a / 2) (b / 2) (omega arith) (omega arith))

zero-bit_or : (b : ℕ) → bit_or 0 b ≡ b
zero-bit_or b = bit_or-bitwise 0 b

bit_or_lowest : (a b : ℕ) → bit_or a b ≡ bit_or (a / 2) (b / 2) * 2 + max (a % 2) (b % 2)
bit_or_lowest zero b = omega (arith, zero-bit_or b, zero-bit_or (b / 2))
bit_or_lowest (suc a) b = omega (
  arith,
  bit_or-bitwise (suc a) b,
  bit_or-bitwise (suc a / 2) (b / 2),
  or_digits_enough a (suc a / 2) (suc a / 2) (b / 2) (omega arith) (omega arith),
)

bit_or-zero_below : (n a : ℕ) → a ≤ n → bit_or a 0 ≡ a
bit_or-zero_below n zero h = refl
bit_or-zero_below zero (suc a) h = absurd (omega arith)
bit_or-zero_below (suc n) (suc a) h =
    omega (arith, bit_or_lowest (suc a) 0, bit_or-zero_below n (suc a / 2) (omega arith))

-- one more clear bit below `x`
bit_or_double : (x r : ℕ) → bit_or x (r / 2) ≡ x + r / 2 → bit_or (2 * x) r ≡ 2 * x + r
bit_or_double x r e = ground (arith, bit_or_lowest (2 * x) r)

bit_or_seven :
    (q r : ℕ)
    → r < 128
    → bit_or (2 * (2 * (2 * (2 * (2 * (2 * (2 * q))))))) r
      ≡ 2 * (2 * (2 * (2 * (2 * (2 * (2 * q)))))) + r
bit_or_seven q r h = bit_or_double _ _ (
    bit_or_double _ _ (
      bit_or_double _ _
        (bit_or_double _ _ (bit_or_double _ _ (bit_or_double _ _ (bit_or_double _ _ last))))))
  where
    last : bit_or q (r / 2 / 2 / 2 / 2 / 2 / 2 / 2) ≡ q + r / 2 / 2 / 2 / 2 / 2 / 2 / 2
    last = ground (arith, bit_or-zero_below q q)

-- `|` of a multiple of 128 and seven bits is their sum.
pub bit_or_septet : (q r : ℕ) → r < 128 → bit_or (q * 128) r ≡ q * 128 + r
bit_or_septet q r h = ground (arith, bit_or_seven q r h)

and_digits_enough :
    (n m a b : ℕ) → a ≤ n → a ≤ m → digits (λ b. zero) min n a b ≡ digits (λ b. zero) min m a b
and_digits_enough zero zero a b p q = refl
and_digits_enough zero (suc m) zero b p q = refl
and_digits_enough zero (suc m) (suc a) b p q = absurd (omega arith)
and_digits_enough (suc n) zero zero b p q = refl
and_digits_enough (suc n) zero (suc a) b p q = absurd (omega arith)
and_digits_enough (suc n) (suc m) zero b p q = refl
and_digits_enough (suc n) (suc m) (suc a) b p q =
    omega (arith, and_digits_enough n m (suc a / 2) (b / 2) (omega arith) (omega arith))

zero-bit_and : (b : ℕ) → bit_and 0 b ≡ 0
zero-bit_and b = bit_and-bitwise 0 b

bit_and_lowest : (a b : ℕ) → bit_and a b ≡ bit_and (a / 2) (b / 2) * 2 + min (a % 2) (b % 2)
bit_and_lowest zero b = omega (arith, zero-bit_and b, zero-bit_and (b / 2))
bit_and_lowest (suc a) b = omega (
  arith,
  bit_and-bitwise (suc a) b,
  bit_and-bitwise (suc a / 2) (b / 2),
  and_digits_enough a (suc a / 2) (suc a / 2) (b / 2) (omega arith) (omega arith),
)

bit_and-zero_below : (n a : ℕ) → a ≤ n → bit_and a 0 ≡ 0
bit_and-zero_below n zero h = refl
bit_and-zero_below zero (suc a) h = absurd (omega arith)
bit_and-zero_below (suc n) (suc a) h =
    omega (arith, bit_and_lowest (suc a) 0, bit_and-zero_below n (suc a / 2) (omega arith))

bit_and-one : (a : ℕ) → bit_and a 1 ≡ a % 2
bit_and-one a = omega (arith, bit_and_lowest a 1, bit_and-zero_below (a / 2) (a / 2) (omega arith))

bit_and-seven : (a : ℕ) → bit_and a 7 ≡ a % 8
bit_and-seven a =
    omega (arith, bit_and_lowest a 7, bit_and_lowest (a / 2) 3, bit_and-one (a / 2 / 2))

-- `& 0x7F` keeps the low seven bits, of a number of any width.
pub bit_and_septet : (a : ℕ) → bit_and a 0x7f ≡ a % 128
bit_and_septet a = omega (
  arith,
  bit_and_lowest a 127,
  bit_and_lowest (a / 2) 63,
  bit_and_lowest (a / 2 / 2) 31,
  bit_and_lowest (a / 2 / 2 / 2) 15,
  bit_and-seven (a / 2 / 2 / 2 / 2),
)
