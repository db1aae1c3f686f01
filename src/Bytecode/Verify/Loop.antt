-- ===== src/Bytecode/Verify/Loop.antt =====
-- The loops of the verifier: a check of every item with its index, which stops at the first error.
use bytecode_vm.Prelude.{ℕ, zero, suc, ◌+◌, ◌≡◌, refl, List, [], ◌∷◌, get_elem?, some, arith, subst}
use bytecode_vm.Prelude.Result.{Result, ok, ◌>>◌, >>-eq-ok}

module _ {ℓ κ} {E : Type ℓ} {A : Type κ} where
  unfoldable pub for_each : (ℕ → A → Result E (Unit {0})) → ℕ → List A → Result E (Unit {0})
  for_each check i [] = ok tt
  for_each check i (x ∷ xs) = check i x >> for_each check (suc i) xs

  -- The loop succeeds exactly when every check does.
  pub for_each-eq-ok :
      (check : ℕ → A → Result E (Unit {0})) (i : ℕ) (xs : List A)
      → for_each check i xs ≡ ok tt
      → (k : ℕ) (x : A) → get_elem? xs k ≡ some x
      → check (i + k) x ≡ ok tt
  unfolding for_each
  for_each-eq-ok check i [] h k x e = cc
  for_each-eq-ok check i (y ∷ ys) h zero x e =
      subst (λ n. check n x ≡ ok tt) (omega arith)
        (subst (λ z. check i z ≡ ok tt) (cc) (>>-eq-ok (check i y) _ h).0)
  for_each-eq-ok check i (y ∷ ys) h (suc k) x e =
      subst (λ n. check n x ≡ ok tt) (omega arith)
        (for_each-eq-ok check (suc i) ys (>>-eq-ok (check i y) _ h).1 k x e)

  pub for_each_ok :
      (check : ℕ → A → Result E (Unit {0})) (i : ℕ) (xs : List A)
      → ((k : ℕ) (x : A) → get_elem? xs k ≡ some x → check (i + k) x ≡ ok tt)
      → for_each check i xs ≡ ok tt
  unfolding for_each
  for_each_ok check i [] h = refl
  for_each_ok check i (y ∷ ys) h =
      let first : check i y ≡ ok tt =
        subst (λ n. check n y ≡ ok tt) {x = i + 0} {y = i} (omega arith) (h 0 y refl) in
      let rest = for_each_ok check (suc i) ys (λ k x e.
        subst (λ n. check n x ≡ ok tt) {x = i + suc k} {y = suc i + k} (omega arith)
          (h (suc k) x e)) in
      rw first rest
