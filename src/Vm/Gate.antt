-- ===== src/Vm/Gate.antt =====
-- vm/native.rs: when the gate lets a native call through.
use mathlib.Core.Bool.{and-eq-true_iff}
use bytecode_vm.Prelude.{
  ℕ, zero, suc, ◌%◌, ◌/◌, ◌^◌, ◌<◌, ◌≡◌, ◌↔◌, refl, ap, sym, ◌∙◌, Bool, true, false, not, ltb,
  ==_iff, ◌==◌, Option, none, some, length, get_elem?, replicate, bit_and, inl, inr, ◌⊎◌, arith,
  subst,
}
use bytecode_vm.Prelude.Bits.{bit, bit-zero, bit_ext, bit-bit_and}
use bytecode_vm.Prelude.Result.{ok, ensure, ensure-eq-ok, >>-eq-ok}
use bytecode_vm.Bytecode.Cap.{
  Cap, NativeMask, slot_allows, allows, empty, mask_words, contains, native_right, is_valid,
  attenuate,
}
use bytecode_vm.Bytecode.Cap.Attenuate.{
  contains_iff, word_allows, word_allows_lem, permits, attenuate_lem,
}
use bytecode_vm.Vm.Native.{
  NativeTable, NativeGate, from_authority, is_live, check_native_call, check_native_gate,
}

-- The tests of the gate, one by one.
check_native_gate-tests :
    (gate : NativeGate) (table : NativeTable) (idx : ℕ)
    → (check_native_gate gate table idx ≡ ok tt) ↔ (
        (idx < length table)
        × (is_live gate ≡ true)
        × (gate.has_native ≡ true)
        × (allows gate.mask idx ≡ true))
unfolding check_native_gate
check_native_gate-tests gate table idx = (
  λ h.
      let (h₀, h') = >>-eq-ok (ensure (ltb idx (length table)) _) _ h in
      let (h₁, h'') = >>-eq-ok (ensure (is_live gate) _) _ h' in
      let (h₂, h₃) = >>-eq-ok (ensure gate.has_native _) _ h'' in
      (
        ground (arith, ensure-eq-ok _ _ h₀),
        ensure-eq-ok _ _ h₁,
        ensure-eq-ok _ _ h₂,
        ensure-eq-ok _ _ h₃,
      ),
  λ (in_table, live, right, listed).
      let e : ltb idx (length table) ≡ true = ground (arith, in_table) in
      rw (e, live, right, listed) refl,
)

is_live_iff :
    (gate : NativeGate)
    → (is_live gate ≡ true)
      ↔ ((gate.flow_cell ≡ gate.authority_epoch) × (gate.native_cell ≡ gate.native_epoch))
unfolding is_live
is_live_iff gate = (
  λ h.
      let (flow, native) =
        (and-eq-true_iff (gate.flow_cell == gate.authority_epoch)
            (gate.native_cell == gate.native_epoch)).0
          h in
      (
        (==_iff gate.flow_cell gate.authority_epoch).0 flow,
        (==_iff gate.native_cell gate.native_epoch).0 native,
      ),
  λ (flow, native).
      (and-eq-true_iff (gate.flow_cell == gate.authority_epoch)
          (gate.native_cell == gate.native_epoch)).1
        (
          (==_iff gate.flow_cell gate.authority_epoch).1 flow,
          (==_iff gate.native_cell gate.native_epoch).1 native,
        ),
)

-- Bit `idx % 64` of word `idx / 64` of a mask that has that word is one.
abbrev pub IsListed : NativeMask → ℕ → Type 0
IsListed mask idx = (word : ℕ) × (get_elem? mask (idx / 64) ≡ some word) × (bit word (idx % 64) ≡ 1)

allows_iff : (mask : NativeMask) (idx : ℕ) → (allows mask idx ≡ true) ↔ IsListed mask idx
unfolding allows word_allows
allows_iff mask idx = at_word (get_elem? mask (idx / 64)) refl
  where
    at_word :
        (o : Option ℕ)
        → get_elem? mask (idx / 64) ≡ o
        → (slot_allows o (idx % 64) ≡ true) ↔ IsListed mask idx
    at_word none e = (λ h. cc, λ (word, found, _). cc (e, found))
    at_word (some w) e = (
      λ h. (w, e, (==_iff (bit w (idx % 64)) 1).0 (sym (word_allows_lem w (idx % 64)) ∙ h)),
      λ (word, found, one).
          let same : word ≡ w = cc (e, found) in
          word_allows_lem w (idx % 64)
          ∙ (==_iff (bit w (idx % 64)) 1).1 (subst (λ x. bit x (idx % 64) ≡ 1) same one),
    )

-- What the gate asks of a call: an index of the table, a flow whose counter is still that of its
-- authority, natives whose counter is still that of the gate, the native right, and the index's bit.
pub record IsOpen (gate : NativeGate) (table : NativeTable) (idx : ℕ) : Type 0 where
  pub in_table : idx < length table
  pub flow_live : gate.flow_cell ≡ gate.authority_epoch
  pub native_live : gate.native_cell ≡ gate.native_epoch
  pub right : gate.has_native ≡ true
  pub listed : IsListed gate.mask idx

-- The gate lets a call through exactly when the index is in the table, the flow's revocation
-- counter is the authority's epoch, the natives' counter is the one the gate was built with, the
-- native right is held, and the index's bit of the allowlist is one.
pub check_native_gate-eq-ok :
    (gate : NativeGate) (table : NativeTable) (idx : ℕ)
    → (check_native_gate gate table idx ≡ ok tt) ↔ IsOpen gate table idx
check_native_gate-eq-ok gate table idx = (
  λ h.
      let (in_table, live, right, listed) = (check_native_gate-tests gate table idx).0 h in
      let (flow_live, native_live) = (is_live_iff gate).0 live in
      record {
        in_table = in_table;
        flow_live = flow_live;
        native_live = native_live;
        right = right;
        listed = (allows_iff gate.mask idx).0 listed;
      },
  λ o. (check_native_gate-tests gate table idx).1 (
    o.in_table,
    (is_live_iff gate).1 (o.flow_live, o.native_live),
    o.right,
    (allows_iff gate.mask idx).1 o.listed,
  ),
)

zero_and : (p : ℕ) → bit_and 0 p ≡ 0
zero_and p = bit_ext (bit_and 0 p) 0 (λ i. omega (arith, bit-bit_and i 0 p, bit-zero i))

get_elem?-zeros :
    (k i : ℕ)
    → (get_elem? {A = ℕ} (replicate k 0) i ≡ none) ⊎ (get_elem? {A = ℕ} (replicate k 0) i ≡ some 0)
get_elem?-zeros zero i = inl refl
get_elem?-zeros (suc k) zero = inr refl
get_elem?-zeros (suc k) (suc i) = get_elem?-zeros k i

-- The allowlist of nobody allows nothing.
allows-empty : (n idx : ℕ) → allows (empty n) idx ≡ false
unfolding allows empty
allows-empty n idx = elim (get_elem?-zeros (mask_words n) (idx / 64)) [
  | inl e ↦ ap (λ o. slot_allows o (idx % 64)) e
  | inr e ↦
      ap (λ o. slot_allows o (idx % 64)) e ∙ ap (λ n. not (n == 0)) (zero_and (2 ^ (idx % 64)))
]

allows-authority :
    (o : Option NativeMask) (n idx : ℕ)
    → allows (elim o as (λ _. NativeMask) [ some m ↦ m | none ↦ empty n ]) idx ≡ permits o idx
allows-authority (some m) n idx = refl
allows-authority none n idx = allows-empty n idx

check_native_call-eq-ok :
    (cap : Cap) (table : NativeTable) (idx : ℕ)
    → (check_native_call cap table idx ≡ ok tt) ↔ (
        (idx < length table)
        × (contains cap.rights native_right ≡ true)
        × (permits cap.native_mask idx ≡ true))
unfolding check_native_call
check_native_call-eq-ok cap table idx = (
  λ h.
      let (h₀, h') = >>-eq-ok (ensure (ltb idx (length table)) _) _ h in
      let (h₁, h₂) = >>-eq-ok (ensure (contains cap.rights native_right) _) _ h' in
      (
        ground (arith, ensure-eq-ok _ _ h₀),
        ensure-eq-ok _ _ h₁,
        listed cap.native_mask (ensure-eq-ok _ _ h₂),
      ),
  λ o.
      let e : ltb idx (length table) ≡ true = ground (arith, o.0) in
      rw (e, o.1, unlisted cap.native_mask o.2) refl,
)
  where
    listed :
        (o : Option NativeMask)
        → elim o as (λ _. Bool) [ some mask ↦ allows mask idx | none ↦ false ] ≡ true
        → permits o idx ≡ true
    listed (some mask) h = h
    listed none h = h

    unlisted :
        (o : Option NativeMask)
        → permits o idx ≡ true
        → elim o as (λ _. Bool) [ some mask ↦ allows mask idx | none ↦ false ] ≡ true
    unlisted (some mask) h = h
    unlisted none h = h

-- The gate that is built from a capability lets a call through exactly when the full check of the
-- capability does and the capability is still valid at the flow's revocation counter.
pub check_native_gate-from_authority :
    (cap : Cap) (flow_cell native_cell : ℕ) (table : NativeTable) (idx : ℕ)
    → (check_native_gate (from_authority cap flow_cell native_cell (length table)) table idx
        ≡ ok tt)
      ↔ ((check_native_call cap table idx ≡ ok tt) × (is_valid cap flow_cell ≡ true))
unfolding from_authority is_live is_valid
check_native_gate-from_authority cap flow_cell native_cell table idx =
    let gate = from_authority cap flow_cell native_cell (length table) in
    (
      λ h.
          let (in_table, live, right, listed) = (check_native_gate-tests gate table idx).0 h in
          (
            (check_native_call-eq-ok cap table idx).1 (
              in_table,
              right,
              sym (allows-authority cap.native_mask (length table) idx) ∙ listed,
            ),
            (==_iff cap.epoch flow_cell).1 (
                sym (
                  (==_iff flow_cell cap.epoch).0
                    ((and-eq-true_iff (flow_cell == cap.epoch) (native_cell == native_cell)).0
                      live).0)),
          ),
      λ both.
          let c = (check_native_call-eq-ok cap table idx).0 both.0 in
          (check_native_gate-tests gate table idx).1 (
            c.0,
            (and-eq-true_iff (flow_cell == cap.epoch) (native_cell == native_cell)).1 (
              (==_iff flow_cell cap.epoch).1 (sym ((==_iff cap.epoch flow_cell).0 both.1)),
              (==_iff native_cell native_cell).1 refl,
            ),
            c.1,
            allows-authority cap.native_mask (length table) idx ∙ c.2,
          ),
    )

-- A capability that was attenuated lets no native call through that its parent does not.
pub check_native_call-attenuate :
    (cap : Cap) (want : ℕ) (want_native : Option NativeMask) (table : NativeTable) (idx : ℕ)
    → check_native_call (attenuate cap want want_native) table idx ≡ ok tt
    → check_native_call cap table idx ≡ ok tt
check_native_call-attenuate cap want want_native table idx h =
    let (hi, hr, hm) = (check_native_call-eq-ok (attenuate cap want want_native) table idx).0 h in
    let (_, _, rights, natives) = attenuate_lem cap want want_native in
    (check_native_call-eq-ok cap table idx).1 (
      hi,
      (contains_iff cap.rights native_right).1 (λ i. omega (
        arith,
        (contains_iff (attenuate cap want want_native).rights native_right).0 hr i,
        rights i,
      )),
      (natives idx hm).0,
    )
