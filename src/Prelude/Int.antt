-- ===== src/Prelude/Int.antt =====
-- Signed integers over the native numbers, and Rust's `i32` and `i64`, each kept as its
-- two's complement bit pattern, a number below 2 ^ 32 or 2 ^ 64.
use Prim.Native.Nat.{ℕ, suc, ◌+◌, ◌-◌, ◌*◌, ◌/◌, ◌%◌, ◌^◌, ◌<◌}
use mathlib.Core.Path.{◌≡◌}
use mathlib.Core.Bool.{Bool, xor}
use native.Mathlib.Omega.{arith}
use bytecode_vm.Prelude.Tests.{ltb, leb, if◌then◌else◌}

-- `negsuc n` is -(n + 1).
pub data ℤ : Type 0 where
  pos : ℕ → ℤ
  negsuc : ℕ → ℤ

abbrev pub pos_part : ℤ → ℕ
pos_part (pos n) = n
pos_part (negsuc n) = 0

abbrev pub neg_part : ℤ → ℕ
neg_part (pos n) = 0
neg_part (negsuc n) = suc n

-- a - b, as an integer.
abbrev pub sub_ℕ : ℕ → ℕ → ℤ
sub_ℕ a b = if leb b a then pos (a - b) else negsuc (b - a - 1)

infixl 65 ◌+ℤ◌
abbrev pub ◌+ℤ◌ : ℤ → ℤ → ℤ
a +ℤ b = sub_ℕ (pos_part a + pos_part b) (neg_part a + neg_part b)

abbrev pub ltb_ℤ : ℤ → ℤ → Bool
ltb_ℤ a b = ltb (pos_part a + neg_part b) (pos_part b + neg_part a)

abbrev pub leb_ℤ : ℤ → ℤ → Bool
leb_ℤ a b = leb (pos_part a + neg_part b) (pos_part b + neg_part a)

abbrev pub u32_mod : ℕ
u32_mod = 2 ^ 32

abbrev pub u64_mod : ℕ
u64_mod = 2 ^ 64

-- The number that the pattern of an `i32` or an `i64` stands for.
abbrev pub i32_val : ℕ → ℤ
i32_val w = if ltb w (2 ^ 31) then pos w else negsuc (u32_mod - w - 1)

abbrev pub i64_val : ℕ → ℤ
i64_val w = if ltb w (2 ^ 63) then pos w else negsuc (u64_mod - w - 1)

-- The pattern of an integer, modulo 2 ^ 64: Rust's `as i64` and `as usize`.
abbrev pub to_u64 : ℤ → ℕ
to_u64 (pos n) = n % u64_mod
to_u64 (negsuc n) = u64_mod - 1 - n % u64_mod

-- `imm as i64` for `imm : i32`: sign extension of the pattern.
abbrev pub i32_as_i64 : ℕ → ℕ
i32_as_i64 w = if ltb w (2 ^ 31) then w else w + (u64_mod - u32_mod)

abbrev pub is_neg64 : ℕ → Bool
is_neg64 w = leb (2 ^ 63) w

abbrev pub wrapping_add : ℕ → ℕ → ℕ
wrapping_add x y = (x + y) % u64_mod

abbrev pub wrapping_neg : ℕ → ℕ
wrapping_neg x = (u64_mod - x) % u64_mod

abbrev pub wrapping_sub : ℕ → ℕ → ℕ
wrapping_sub x y = (x + u64_mod - y) % u64_mod

abbrev pub wrapping_mul : ℕ → ℕ → ℕ
wrapping_mul x y = x * y % u64_mod

abbrev pub abs64 : ℕ → ℕ
abs64 x = if is_neg64 x then u64_mod - x else x

-- Division rounds towards zero, and the remainder takes the sign of the dividend.
abbrev pub wrapping_div : ℕ → ℕ → ℕ
wrapping_div x y =
    let q = abs64 x / abs64 y in if xor (is_neg64 x) (is_neg64 y) then wrapping_neg q else q

abbrev pub wrapping_rem : ℕ → ℕ → ℕ
wrapping_rem x y = let r = abs64 x % abs64 y in if is_neg64 x then wrapping_neg r else r

-- A pattern and its sign extension stand for the same number.
pub i64_val-i32_as_i64 : (w : ℕ) → w < u32_mod → i64_val (i32_as_i64 w) ≡ i32_val w
i64_val-i32_as_i64 w h = ground arith
