-- ===== src/Bytecode/Cap/Attenuate.antt =====
-- Attenuation never adds authority.
use native.Mathlib.Nat.{one-le-pow}
use mathlib.Core.Bool.{and-eq-true_iff}
use bytecode_vm.Prelude.{
  ℕ, zero, suc, ◌*◌, ◌/◌, ◌%◌, ◌^◌, ◌≤◌, ◌≡◌, ◌↔◌, refl, Bool, true, false, not, ◌&&◌, Option, none,
  some, [], ◌∷◌, get_elem?, bit_and, ◌==◌, ==_iff, min, arith, ap, sym, subst,
}
use bytecode_vm.Prelude.Bits.{bit, bit-bit_and, bit-le, bit_ext, bit_and-two_pow}
use bytecode_vm.Bytecode.Cap.{
  intersect, contains, NativeMask, slot_allows, allows, intersect_mask, Cap, attenuate_mask,
  attenuate,
}

-- One set of rights contains another exactly when each bit of the other is a bit of it.
pub contains_iff : (a b : ℕ) → (contains a b ≡ true) ↔ ((i : ℕ) → bit b i ≤ bit a i)
unfolding contains
contains_iff a b = (
  λ h i. omega (arith, bit-bit_and i a b, ap (λ n. bit n i) ((==_iff _ b).0 h)),
  λ h. (==_iff _ b).1 (bit_ext _ b (λ i. omega (arith, bit-bit_and i a b, h i))),
)

pub contains-intersect : (a b : ℕ) → contains a (intersect a b) ≡ true
unfolding intersect
contains-intersect a b = (contains_iff a _).1 (λ i. omega (arith, bit-bit_and i a b))

-- Whether one word allows an index, and whether a mask does at a word and a bit.
unfoldable pub word_allows : ℕ → ℕ → Bool
word_allows word b = not (bit_and word (2 ^ b) == 0)

allows_at : NativeMask → ℕ → ℕ → Bool
allows_at mask k b = slot_allows (get_elem? mask k) b

digit_test : (d p : ℕ) → d ≤ 1 → 1 ≤ p → not (d * p == 0) ≡ (d == 1)
digit_test zero p h k = ground arith
digit_test (suc zero) p h k = ground arith
digit_test (suc (suc d)) p h k = absurd (omega arith)

pub word_allows_lem : (w b : ℕ) → word_allows w b ≡ (bit w b == 1)
unfolding word_allows
word_allows_lem w b =
    rw (bit_and-two_pow b w)
      (digit_test (bit w b) (2 ^ b) (bit-le b w) (one-le-pow b 2 (omega arith)))

word_allows-and : (v w b : ℕ) → word_allows (bit_and v w) b ≡ (word_allows v b && word_allows w b)
word_allows-and v w b =
    simp word_allows_lem (ground (arith, bit-bit_and b v w, bit-le b v, bit-le b w))

and_false : (b : Bool) → (b && false) ≡ false
and_false true = refl
and_false false = refl

allows_at-intersect_mask :
    (m r : NativeMask) (k b : ℕ)
    → allows_at (intersect_mask m r) k b ≡ (allows_at m k b && allows_at r k b)
unfolding allows_at intersect_mask word_allows
allows_at-intersect_mask [] r k b = refl
allows_at-intersect_mask (v ∷ m) [] k b = sym (and_false _)
allows_at-intersect_mask (v ∷ m) (w ∷ r) zero b = word_allows-and v w b
allows_at-intersect_mask (v ∷ m) (w ∷ r) (suc k) b = allows_at-intersect_mask m r k b

-- A mask after intersection allows an index exactly when both masks do.
pub allows-intersect_mask :
    (m r : NativeMask) (idx : ℕ) → allows (intersect_mask m r) idx ≡ (allows m idx && allows r idx)
unfolding allows allows_at word_allows
allows-intersect_mask m r idx = allows_at-intersect_mask m r (idx / 64) (idx % 64)

-- The natives that a capability lets a flow call.
abbrev pub permits : Option NativeMask → ℕ → Bool
permits (some mask) idx = allows mask idx
permits none idx = false

permits-attenuate_mask :
    (m w : Option NativeMask) (idx : ℕ)
    → permits (attenuate_mask m w) idx ≡ true
    → (permits m idx ≡ true) × ((r : NativeMask) → w ≡ some r → allows r idx ≡ true)
unfolding attenuate_mask
permits-attenuate_mask (some m) (some r) idx h =
    let both =
      (and-eq-true_iff (allows m idx) (allows r idx)).0 (rw (allows-intersect_mask m r idx) at h) in
    (both.0, λ s e. subst (λ (x : NativeMask). allows x idx ≡ true) (cc) both.1)
permits-attenuate_mask (some m) none idx h = (h, λ r e. cc)
permits-attenuate_mask none w idx h = cc

-- Attenuation keeps the target and the epoch, has exactly the rights that both the parent and the
-- request have, and permits a native only if the parent does and the request, if it names natives,
-- does too.
pub attenuate_lem :
    (cap : Cap) (want : ℕ) (want_native : Option NativeMask)
    → ((attenuate cap want want_native).target ≡ cap.target)
      × ((attenuate cap want want_native).epoch ≡ cap.epoch)
      × ((i : ℕ)
          → bit (attenuate cap want want_native).rights i ≡ min (bit cap.rights i) (bit want i))
      × ((idx : ℕ)
          → permits (attenuate cap want want_native).native_mask idx ≡ true
          → (permits cap.native_mask idx ≡ true)
            × ((r : NativeMask) → want_native ≡ some r → allows r idx ≡ true))
unfolding attenuate intersect
attenuate_lem cap want want_native = (
  refl,
  refl,
  λ i. bit-bit_and i cap.rights want,
  λ idx h. permits-attenuate_mask cap.native_mask want_native idx h,
)
