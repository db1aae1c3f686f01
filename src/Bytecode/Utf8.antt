-- ===== src/Bytecode/Utf8.antt =====
-- Rust's `from_utf8`, which the decoder calls on names and strings: whether bytes are UTF-8.
-- The table is that of the Unicode standard: no overlong form, no surrogate, at most U+10FFFF.
use bytecode_vm.Prelude.{
  ℕ, Bool, true, false, ◌&&◌, List, [], ◌∷◌, ltb, leb, ◌==◌, if◌then◌else◌, ◌≡◌, refl,
}

-- What may come next: a first byte, or so many continuation bytes, the first of them perhaps
-- in a narrower range.
pub data Utf8State : Type 0 where
  start need₁ need₂ need₃ after_e0 after_ed after_f0 after_f4 bad : Utf8State

in_range : ℕ → ℕ → ℕ → Bool
in_range lo hi b = leb lo b && leb b hi

first_byte : ℕ → Utf8State
unfolding in_range
first_byte b =
    if ltb b 0x80
    then start
    else if in_range 0xc2 0xdf b
    then need₁
    else if b == 0xe0
    then after_e0
    else if b == 0xed
    then after_ed
    else if in_range 0xe1 0xef b
    then need₂
    else if b == 0xf0
    then after_f0
    else if in_range 0xf1 0xf3 b
    then need₃
    else if b == 0xf4
    then after_f4
    else bad

next_byte : Utf8State → ℕ → Utf8State
unfolding first_byte
next_byte start b = first_byte b
next_byte need₁ b = if in_range 0x80 0xbf b then start else bad
next_byte need₂ b = if in_range 0x80 0xbf b then need₁ else bad
next_byte need₃ b = if in_range 0x80 0xbf b then need₂ else bad
next_byte after_e0 b = if in_range 0xa0 0xbf b then need₁ else bad
next_byte after_ed b = if in_range 0x80 0x9f b then need₁ else bad
next_byte after_f0 b = if in_range 0x90 0xbf b then need₂ else bad
next_byte after_f4 b = if in_range 0x80 0x8f b then need₂ else bad
next_byte bad b = bad

run_bytes : Utf8State → List ℕ → Utf8State
run_bytes s [] = s
run_bytes s (b ∷ bs) = run_bytes (next_byte s b) bs

unfoldable pub is_utf8 : List ℕ → Bool
unfolding run_bytes next_byte
is_utf8 bs = elim (run_bytes start bs) [ start ↦ true | _ ↦ false ]

-- "é€" and a lone surrogate
accents : is_utf8 (0xc3 ∷ 0xa9 ∷ 0xe2 ∷ 0x82 ∷ 0xac ∷ []) ≡ true
unfolding is_utf8
accents = refl

surrogate : is_utf8 (0xed ∷ 0xa0 ∷ 0x80 ∷ []) ≡ false
unfolding is_utf8
surrogate = refl
