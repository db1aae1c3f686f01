-- ===== src/Bytecode/Builder/Pool.antt =====
-- The constant pool of the builder.
use bytecode_vm.Prelude.{
  ℕ, suc, ◌+◌, ◌≡◌, ◌⊎◌, inl, inr, refl, Bool, true, false, ==_iff, Option, none, some, List, [],
  ◌∷◌, length, get_elem?, get_elem?-lt, get_elem?-snoc, if◌then◌else◌, arith,
}
use bytecode_vm.Bytecode.Value.{Value}
use bytecode_vm.Bytecode.Builder.{ChunkBuilder, position_from, pooled, const_}

position_from-some :
    (same : Value → Value → Bool) (v : Value) (i k : ℕ) (cs : List Value)
    → position_from same v i cs ≡ some k
    → (j : ℕ) × (w : Value) × (k ≡ i + j) × (get_elem? cs j ≡ some w) × (same w v ≡ true)
unfolding position_from
position_from-some same v i k [] h = cc
position_from-some same v i k (c ∷ cs) h =
    at_head (same c v) refl h (position_from-some same v (suc i) k cs)
  where
    at_head :
        (b : Bool)
        → same c v ≡ b
        → (if b then some i else position_from same v (suc i) cs) ≡ some k
        → (position_from same v (suc i) cs ≡ some k
            → (j : ℕ) × (w : Value) × (k ≡ suc i + j)
              × (get_elem? cs j ≡ some w)
              × (same w v ≡ true))
        → (j : ℕ) × (w : Value) × (k ≡ i + j) × (get_elem? (c ∷ cs) j ≡ some w) × (same w v ≡ true)
    at_head true e p rest = (0, c, ground arith, refl, e)
    at_head false e p rest =
        let (j, w, sum, found, eq) = rest p in (suc j, w, omega (arith, sum), found, eq)

-- The index that a constant gets is that of the constant itself, or of one that is equal to it by
-- the equality given, and every constant in the pool before keeps its index.
const_-pooled :
    (same : Value → Value → Bool) (v : Value) (b : ChunkBuilder)
    → ((w : Value) × (get_elem? (const_ same v b).1.constants (const_ same v b).0 ≡ some w)
        × ((w ≡ v) ⊎ (same w v ≡ true)))
      × ((i : ℕ) (c : Value)
          → get_elem? b.constants i ≡ some c
          → get_elem? (const_ same v b).1.constants i ≡ some c)
unfolding const_
const_-pooled same v b = at_position (position_from same v 0 b.constants) refl
  where
    at_position :
        (o : Option ℕ)
        → position_from same v 0 b.constants ≡ o
        → ((w : Value) × (get_elem? (pooled v b o).1.constants (pooled v b o).0 ≡ some w)
            × ((w ≡ v) ⊎ (same w v ≡ true)))
          × ((i : ℕ) (c : Value)
              → get_elem? b.constants i ≡ some c
              → get_elem? (pooled v b o).1.constants i ≡ some c)
    at_position (some k) e =
        let (j, w, sum, found, eq) = position_from-some same v 0 k b.constants e in
        let here_ : k ≡ j = omega (arith, sum) in ((w, rw here_ found, inr eq), λ i c h. h)
    at_position none e = (
      (v, ground (arith, get_elem?-snoc b.constants v (length b.constants)), inl refl),
      λ i c h.
          let below = get_elem?-lt b.constants i c h in
          ground (arith, get_elem?-snoc b.constants v i, below, ==_iff i (length b.constants)),
    )
