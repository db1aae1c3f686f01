-- ===== src/Prelude/Bits.antt =====
-- Binary digits of native numbers, and what `&` and `|` do to them, at every width.
use Prim.Native.Nat.{
  ℕ, zero, suc, ◌+◌, ◌-◌, ◌*◌, ◌/◌, ◌%◌, ◌^◌, ◌≤◌, min, max, bit_and, bit_or, digits,
  bit_and-bitwise, bit_or-bitwise,
}
use mathlib.Core.Path.{◌≡◌, refl, ap, ◌∙◌, subst}
use native.Mathlib.Nat.{pow-suc}
use native.Mathlib.Omega.{arith}

-- The digit of weight 2 ^ i.
abbrev pub bit : ℕ → ℕ → ℕ
bit a zero = a % 2
bit a (suc i) = bit (a / 2) i

-- A digit-wise operation stands for `n` with any fuel from `n` on.
module _ (last : ℕ → ℕ) (op : ℕ → ℕ → ℕ) where
  one_more : (fuel x y : ℕ) → x ≤ fuel → digits last op fuel x y ≡ digits last op (suc fuel) x y
  one_more (suc fuel) (suc x) y h = omega (arith, one_more fuel (suc x / 2) (y / 2) (omega arith))
  one_more (suc fuel) zero y h = refl
  one_more zero (suc x) y h = absurd (omega arith)
  one_more zero zero y h = refl

  climb :
      (extra fuel more x y : ℕ)
      → more ≡ extra + fuel
      → x ≤ fuel
      → digits last op fuel x y ≡ digits last op more x y
  climb zero fuel more x y e h = ap (λ n. digits last op n x y) (omega (arith, e))
  climb (suc extra) fuel zero x y e h = absurd (omega (arith, e))
  climb (suc extra) fuel (suc more) x y e h =
      climb extra fuel more x y (omega (arith, e)) h ∙ one_more more x y (omega (arith, e))

  -- Half of a positive number needs no more fuel than its predecessor.
  at_half :
      (x y : ℕ)
      → digits last op (suc x / 2) (suc x / 2) (y / 2) ≡ digits last op x (suc x / 2) (y / 2)
  at_half x y = climb (x - suc x / 2) (suc x / 2) x (suc x / 2) (y / 2) (omega arith) (omega arith)

-- `&` and `|` from the digits above the lowest, and the lowest.
pub bit_and-step : (a b : ℕ) → bit_and a b ≡ bit_and (a / 2) (b / 2) * 2 + min (a % 2) (b % 2)
bit_and-step zero b = omega (arith, bit_and-bitwise 0 b, bit_and-bitwise 0 (b / 2))
bit_and-step (suc a) b = omega (
  arith,
  at_half (λ y. zero) min a b,
  bit_and-bitwise (suc a) b,
  bit_and-bitwise (suc a / 2) (b / 2),
)

pub bit_or-step : (a b : ℕ) → bit_or a b ≡ bit_or (a / 2) (b / 2) * 2 + max (a % 2) (b % 2)
bit_or-step zero b = omega (arith, bit_or-bitwise 0 b, bit_or-bitwise 0 (b / 2))
bit_or-step (suc a) b =
    omega (
      arith,
      at_half (λ y. y) max a b,
      bit_or-bitwise (suc a) b,
      bit_or-bitwise (suc a / 2) (b / 2),
    )

-- Each digit of `a & b` is the smaller of the two digits, and of `a | b` the larger.
pub bit-bit_and : (i a b : ℕ) → bit (bit_and a b) i ≡ min (bit a i) (bit b i)
bit-bit_and zero a b = omega (arith, bit_and-step a b)
bit-bit_and (suc i) a b =
    subst (λ n. bit n i ≡ min (bit (a / 2) i) (bit (b / 2) i)) (halve_lem a b)
      (bit-bit_and i (a / 2) (b / 2))
  where
    halve_lem : (a b : ℕ) → bit_and (a / 2) (b / 2) ≡ bit_and a b / 2
    halve_lem a b = omega (arith, bit_and-step a b)

pub bit-bit_or : (i a b : ℕ) → bit (bit_or a b) i ≡ max (bit a i) (bit b i)
bit-bit_or zero a b = omega (arith, bit_or-step a b)
bit-bit_or (suc i) a b =
    subst (λ n. bit n i ≡ max (bit (a / 2) i) (bit (b / 2) i)) (halve_lem a b)
      (bit-bit_or i (a / 2) (b / 2))
  where
    halve_lem : (a b : ℕ) → bit_or (a / 2) (b / 2) ≡ bit_or a b / 2
    halve_lem a b = omega (arith, bit_or-step a b)

pub bit-le : (i a : ℕ) → bit a i ≤ 1
bit-le zero a = omega arith
bit-le (suc i) a = bit-le i (a / 2)

-- Numbers with the same digits are equal.
bit_ext_fuel : (n a b : ℕ) → a ≤ n → b ≤ n → ((i : ℕ) → bit a i ≡ bit b i) → a ≡ b
bit_ext_fuel zero a b p q h = omega arith
bit_ext_fuel (suc n) a b p q h =
    let low : a % 2 ≡ b % 2 = h 0 in
    omega (arith, low, bit_ext_fuel n (a / 2) (b / 2) (omega arith) (omega arith) (λ i. h (suc i)))

pub bit_ext : (a b : ℕ) → ((i : ℕ) → bit a i ≡ bit b i) → a ≡ b
bit_ext a b h = bit_ext_fuel (a + b) a b (omega arith) (omega arith) h

pub bit-zero : (i : ℕ) → bit 0 i ≡ 0
bit-zero zero = refl
bit-zero (suc i) = bit-zero i

bit_and-zero : (a : ℕ) → bit_and a 0 ≡ 0
bit_and-zero a = bit_ext _ _ (λ i. omega (arith, bit-bit_and i a 0, bit-zero i))

-- The mask of one bit picks that digit.
pub bit_and-two_pow : (i a : ℕ) → bit_and a (2 ^ i) ≡ bit a i * 2 ^ i
bit_and-two_pow zero a = omega (arith, bit_and-step a 1, bit_and-zero (a / 2))
bit_and-two_pow (suc i) a = omega (
  arith,
  bit_and-step a (2 ^ suc i),
  pow-suc 2 i,
  bit_and-two_pow i (a / 2),
  half,
  ap (λ (t : ℕ). bit (a / 2) i * t) (pow-suc 2 i),
)
  where
    half : bit_and (a / 2) (2 ^ suc i / 2) ≡ bit_and (a / 2) (2 ^ i)
    half = ap (bit_and (a / 2)) (omega (arith, pow-suc 2 i))
