-- ===== src/Prelude/Maps.antt =====
-- `HashMap` as an association list with distinct keys: its operations and their laws.
use Prim.Native.Nat.{ℕ}
use mathlib.Core.Path.{subst, ◌≡◌, refl, sym, ◌∙◌}
use mathlib.Core.Logic.{◌↔◌, ◌⊎◌, ◌≢◌, inl, inr}
use mathlib.Core.Bool.{Bool, true, false, ◌&&◌}
use mathlib.Core.Option.{Option, none, some}
use mathlib.Core.List.{List, [], ◌∷◌, ◌++◌}
use native.Mathlib.Omega.{arith}
use bytecode_vm.Prelude.Bytes.{same_bytes, same_bytes_refl, same_bytes→eq}
use bytecode_vm.Prelude.Tests.{◌==◌, ==_iff, if◌then◌else◌}

-- Equality of keys, the `Eq` of Rust.
pub record Key (K : Type 0) : Type 0 where
  pub same : K → K → Bool
  pub same_iff : (a b : K) → (same a b ≡ true) ↔ (a ≡ b)

instance abbrev pub nat_key : Key ℕ
nat_key = record { same = ◌==◌; same_iff = ==_iff }

-- Of two pairs, by components.
abbrev pub same_pair : ℕ × ℕ → ℕ × ℕ → Bool
same_pair (a, b) (c, d) = a == c && b == d

pub same_pair_iff : (p q : ℕ × ℕ) → (same_pair p q ≡ true) ↔ (p ≡ q)
same_pair_iff (a, b) (c, d) =
    (λ h. ground (arith, ==_iff a c, ==_iff b d), λ h. ground (arith, ==_iff a c, ==_iff b d))

instance abbrev pub pair_key : Key (ℕ × ℕ)
pair_key = record { same = same_pair; same_iff = same_pair_iff }

-- A text is its bytes.
pub same_bytes_iff : (s t : List ℕ) → (same_bytes s t ≡ true) ↔ (s ≡ t)
same_bytes_iff s t =
    (same_bytes→eq s t, λ e. subst (λ x. same_bytes s x ≡ true) e (same_bytes_refl s))

instance abbrev pub bytes_key : Key (List ℕ)
bytes_key = record { same = same_bytes; same_iff = same_bytes_iff }

abbrev pub is_some {ℓ} : {A : Type ℓ} → Option A → Bool
is_some none = false
is_some (some a) = true

module _ {ℓ} {K : Type 0} ⦃key : Key K⦄ {V : Type ℓ} where
  unfoldable pub get : K → List (K × V) → Option V
  get k [] = none
  get k ((j, v) ∷ m) = if key.same j k then some v else get k m

  abbrev pub contains_key : K → List (K × V) → Bool
  contains_key k m = is_some (get k m)

  unfoldable pub remove : K → List (K × V) → List (K × V)
  remove k [] = []
  remove k ((j, v) ∷ m) = let rest = remove k m in if key.same j k then rest else (j, v) ∷ rest

  unfoldable pub insert : K → V → List (K × V) → List (K × V)
  unfolding remove
  insert k v m = (k, v) ∷ remove k m

  unfoldable pub retain : (K → V → Bool) → List (K × V) → List (K × V)
  retain p [] = []
  retain p ((j, v) ∷ m) = let rest = retain p m in if p j v then (j, v) ∷ rest else rest

  -- No entry is hidden by another with its key.
  unfoldable pub HasDistinctKeys : List (K × V) → Type ℓ
  unfolding get
  HasDistinctKeys [] = Unit {ℓ}
  HasDistinctKeys ((j, v) ∷ m) = (get j m ≡ none) × HasDistinctKeys m

module _ {ℓ} {K : Type 0} ⦃key : Key K⦄ {V : Type ℓ} where
  pub get-remove :
      (k j : K) (m : List (K × V)) → get j (remove k m) ≡ (if key.same k j then none else get j m)
  unfolding get remove
  get-remove k j [] = ground arith
  get-remove k j ((i, v) ∷ m) =
      ground (arith, get-remove k j m, key.same_iff i k, key.same_iff i j, key.same_iff k j)

  pub get-insert :
      (k j : K) (v : V) (m : List (K × V))
      → get j (insert k v m) ≡ (if key.same k j then some v else get j m)
  unfolding get insert
  get-insert k j v m = ground (arith, get-remove k j m)

  -- What a map keeps it keeps unchanged, and all of it passes the test.
  pub get-retain :
      (p : K → V → Bool) (j : K) (v : V) (m : List (K × V))
      → get j m ≡ some v
      → p j v ≡ true
      → get j (retain p m) ≡ some v
  unfolding get retain
  get-retain p j v [] h hp = cc
  get-retain p j v ((i, w) ∷ m) h hp = ground (arith, get-retain p j v m, key.same_iff i j)

  pub retain-passes :
      (p : K → V → Bool) (j : K) (v : V) (m : List (K × V))
      → get j (retain p m) ≡ some v
      → p j v ≡ true
  unfolding get retain
  retain-passes p j v [] h = cc
  retain-passes p j v ((i, w) ∷ m) h = ground (arith, retain-passes p j v m, key.same_iff i j)

  pub retain-none :
      (p : K → V → Bool) (j : K) (m : List (K × V)) → get j m ≡ none → get j (retain p m) ≡ none
  unfolding get retain
  retain-none p j [] h = refl
  retain-none p j ((i, w) ∷ m) h = ground (arith, retain-none p j m)

  pub retain-of :
      (p : K → V → Bool) (j : K) (v : V) (m : List (K × V))
      → HasDistinctKeys m
      → get j (retain p m) ≡ some v
      → get j m ≡ some v
  unfolding get retain HasDistinctKeys
  retain-of p j v [] d h = h
  retain-of p j v ((i, w) ∷ m) (new, d) h =
      let ih = retain-of p j v m d in ground (arith, ih, retain-none p i m new, key.same_iff i j)

  abbrev pub kept_if : (K → V → Bool) → K → Option V → Option V
  kept_if p j none = none
  kept_if p j (some v) = if p j v then some v else none

  -- A map keeps exactly the entries that pass the test.
  pub retain_lem :
      (p : K → V → Bool) (j : K) (m : List (K × V))
      → HasDistinctKeys m
      → get j (retain p m) ≡ kept_if p j (get j m)
  retain_lem p j m d = at_old (get j m) (get j (retain p m)) refl refl
    where
      at_test :
          (passes : Bool) (v : V) (new : Option V)
          → p j v ≡ passes
          → get j m ≡ some v
          → get j (retain p m) ≡ new
          → new ≡ (if passes then some v else none)
      at_test true v new k e h = sym h ∙ get-retain p j v m e k
      at_test false v none k e h = refl
      at_test false v (some w) k e h = cc (retain-passes p j w m h, retain-of p j w m d h, e, k)

      at_old :
          (old new : Option V)
          → get j m ≡ old
          → get j (retain p m) ≡ new
          → get j (retain p m) ≡ kept_if p j old
      at_old none new e h = retain-none p j m e
      at_old (some v) new e h = h ∙ at_test (p j v) v new refl e h

  pub retain-HasDistinctKeys :
      (p : K → V → Bool) (m : List (K × V)) → HasDistinctKeys m → HasDistinctKeys (retain p m)
  unfolding retain HasDistinctKeys
  retain-HasDistinctKeys p [] d = tt
  retain-HasDistinctKeys p ((i, w) ∷ m) (new, d) =
      kept (p i w) (retain-none p i m new) (retain-HasDistinctKeys p m d)
    where
      kept :
          (b : Bool)
          → get i (retain p m) ≡ none
          → HasDistinctKeys (retain p m)
          → HasDistinctKeys (if b then (i, w) ∷ retain p m else retain p m)
      kept true none_there rest = (none_there, rest)
      kept false none_there rest = rest

  pub remove-HasDistinctKeys :
      (k : K) (m : List (K × V)) → HasDistinctKeys m → HasDistinctKeys (remove k m)
  unfolding remove HasDistinctKeys
  remove-HasDistinctKeys k [] d = tt
  remove-HasDistinctKeys k ((i, w) ∷ m) (new, d) =
      kept (key.same i k) (rw (get-remove k i m, new) (ground arith)) (remove-HasDistinctKeys k m d)
    where
      kept :
          (b : Bool)
          → get i (remove k m) ≡ none
          → HasDistinctKeys (remove k m)
          → HasDistinctKeys (if b then remove k m else (i, w) ∷ remove k m)
      kept true none_there rest = rest
      kept false none_there rest = (none_there, rest)

  pub insert-HasDistinctKeys :
      (k : K) (v : V) (m : List (K × V)) → HasDistinctKeys m → HasDistinctKeys (insert k v m)
  unfolding insert HasDistinctKeys
  insert-HasDistinctKeys k v m d =
      (ground (arith, get-remove k k m, key.same_iff k k), remove-HasDistinctKeys k m d)

  -- What a map holds after an insertion is the new value, or was there before.
  pub insert-cases :
      (k j : K) (v w : V) (m : List (K × V))
      → get j (insert k v m) ≡ some w
      → ((k ≡ j) × (v ≡ w)) ⊎ ((k ≢ j) × (get j m ≡ some w))
  insert-cases k j v w m h = at_key (key.same k j) refl (sym (get-insert k j v m) ∙ h)
    where
      at_key :
          (b : Bool)
          → key.same k j ≡ b
          → (if b then some v else get j m) ≡ some w
          → ((k ≡ j) × (v ≡ w)) ⊎ ((k ≢ j) × (get j m ≡ some w))
      at_key true e found = inl ((key.same_iff k j).0 e, cc)
      at_key false e found = inr (λ p. cc (e, (key.same_iff k j).1 p), found)

  -- An entry put behind the others.
  pub get-append :
      (k j : K) (v : V) (m : List (K × V))
      → get j (m ++ (k, v) ∷ [])
        ≡ elim (get j m) [ some w ↦ some w | none ↦ if key.same k j then some v else none ]
  unfolding get
  get-append k j v [] = refl
  get-append k j v ((i, w) ∷ m) = ground (arith, get-append k j v m)

  pub append-HasDistinctKeys :
      (k : K) (v : V) (m : List (K × V))
      → HasDistinctKeys m
      → get k m ≡ none
      → HasDistinctKeys (m ++ (k, v) ∷ [])
  unfolding get HasDistinctKeys
  append-HasDistinctKeys k v [] d new = (refl, tt)
  append-HasDistinctKeys k v ((i, w) ∷ m) (none_there, d) new = (
    rw (get-append k i v m, none_there) (ground (arith, new, key.same_iff i k, key.same_iff k i)),
    append-HasDistinctKeys k v m d (ground (arith, new)),
  )
