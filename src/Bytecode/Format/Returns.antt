-- ===== src/Bytecode/Format/Returns.antt =====
-- A postcondition of readers over inputs that consist of bytes, with a rule for each way to build
-- a reader and for each primitive one.
use Prim.Native.String.{String}
use native.Mathlib.Nat.{pow-suc}
use bytecode_vm.Prelude.{
  ℕ, zero, suc, ◌^◌, ◌≤◌, ◌<◌, ◌≡◌, refl, Bool, true, false, List, [], ◌∷◌, length, arith, take,
  drop, subst, All, if◌then◌else◌, ltb,
}
use bytecode_vm.Prelude.Result.{Result, ok, err}
use bytecode_vm.Prelude.Bytes.{from_le_bytes}
use bytecode_vm.Bytecode.Trust.{TrustLevel, trusted, untrusted, ConstantKind}
use bytecode_vm.Bytecode.Utf8.{is_utf8}
use bytecode_vm.Bytecode.Format.Reader.{
  FormatError, Reader, ◌>>=◌, succeed, fail, take_bytes, read_uint, read_u8, bind-eq-ok,
}
use bytecode_vm.Bytecode.Format.Decode.{check_limit, check_utf8, check_trust}
use bytecode_vm.Bytecode.Format.WellFormed.{IsTrusted}

abbrev pub IsByte : ℕ → Type 0
IsByte b = b < 256

-- Whatever bytes `m` reads, `P` holds of its result, and the rest are bytes too.
pub record Returns {A : Type 0} (P : A → Type 0) (m : Reader A) : Type 0 where
  pub apply :
      (r : List ℕ) (a : A) (r' : List ℕ) → All IsByte r → m r ≡ ok (a, r') → P a × All IsByte r'

module _ {A : Type 0} {P : A → Type 0} where
  pub Returns-succeed : (a : A) → P a → Returns P (succeed a)
  Returns-succeed a h = record {
    apply = λ r x r' hr e. (subst P (cc) h, subst (All IsByte) (cc) hr);
  }

  pub Returns-fail : (e : FormatError) → Returns P (fail e)
  Returns-fail e = record { apply = λ r x r' hr h. cc }

  pub Returns-if :
      (b : Bool) {m n : Reader A}
      → (b ≡ true → Returns P m)
      → (b ≡ false → Returns P n)
      → Returns P (if b then m else n)
  Returns-if true h k = h refl
  Returns-if false h k = k refl

  pub Returns-map :
      {Q : A → Type 0} {m : Reader A} → Returns P m → ((a : A) → P a → Q a) → Returns Q m
  Returns-map hm hf = record {
    apply = λ r x r' hr e. let (px, hs) = hm.apply r x r' hr e in (hf x px, hs);
  }

  pub Returns-bind :
      {B : Type 0} {Q : B → Type 0} {m : Reader A} {f : A → Reader B}
      → Returns P m
      → ((a : A) → P a → Returns Q (f a))
      → Returns Q (m >>= f)
  Returns-bind {m} {f} hm hf = record {
    apply = λ r x r' hr e.
        let (a, s, e₁, e₂) = bind-eq-ok m f r e in
        let (pa, hs) = hm.apply r a s hr e₁ in (hf a pa).apply s x r' hs e₂;
  }

All-take : (n : ℕ) (xs : List ℕ) → All IsByte xs → All IsByte (take n xs)
All-take zero xs h = tt
All-take (suc n) [] h = tt
All-take (suc n) (x ∷ xs) (h, hs) = (h, All-take n xs hs)

All-drop : (n : ℕ) (xs : List ℕ) → All IsByte xs → All IsByte (drop n xs)
All-drop zero xs h = h
All-drop (suc n) [] h = tt
All-drop (suc n) (x ∷ xs) (h, hs) = All-drop n xs hs

length-take : (n : ℕ) (xs : List ℕ) → ltb (length xs) n ≡ false → length (take n xs) ≡ n
length-take zero xs h = refl
length-take (suc n) [] h = ground arith
length-take (suc n) (x ∷ xs) h = ground (arith, length-take n xs)

from_le_bytes-lt : (bs : List ℕ) → All IsByte bs → from_le_bytes bs < 256 ^ length bs
unfolding from_le_bytes
from_le_bytes-lt [] h = omega arith
from_le_bytes-lt (b ∷ bs) (h, hs) = omega (arith, pow-suc 256 (length bs), from_le_bytes-lt bs hs)

take_enough :
    (n : ℕ) (r a r' : List ℕ) (short : Bool)
    → All IsByte r
    → ltb (length r) n ≡ short
    → if◌then◌else◌ {A = Result FormatError (List ℕ × List ℕ)} short
        (err FormatError.truncated)
        (ok (take n r, drop n r))
      ≡ ok (a, r')
    → ((length a ≡ n) × All IsByte a) × All IsByte r'
take_enough n r a r' true hr h e = cc
take_enough n r a r' false hr h e = (
  subst (λ x. (length x ≡ n) × All IsByte x) (cc e) (length-take n r h, All-take n r hr),
  subst (All IsByte) (cc e) (All-drop n r hr),
)

pub take_bytes-Returns : (n : ℕ) → Returns (λ bs. (length bs ≡ n) × All IsByte bs) (take_bytes n)
unfolding take_bytes
take_bytes-Returns n = record {
  apply = λ r a r' hr e. take_enough n r a r' (ltb (length r) n) hr refl e;
}

pub read_uint-Returns : (w : ℕ) → Returns (λ v. v < 256 ^ w) (read_uint w)
unfolding read_uint
read_uint-Returns w =
    Returns-bind (take_bytes-Returns w)
      λ bs h. Returns-succeed _ (rw (← h.0) (from_le_bytes-lt bs h.1))

pub read_u8-Returns : Returns (λ b. b < 256) read_u8
unfolding read_u8
read_u8-Returns = read_uint-Returns 1

pub check_limit-Returns :
    (what : String) (limit n : ℕ) → Returns (λ _. n ≤ limit) (check_limit what limit n)
unfolding check_limit
check_limit-Returns what limit n =
    Returns-if (ltb limit n) (λ h. Returns-fail _) (λ h. Returns-succeed tt (ground arith))

pub check_utf8-Returns :
    (bs : List ℕ) → Returns (λ s. (s ≡ bs) × (is_utf8 s ≡ true)) (check_utf8 bs)
unfolding check_utf8
check_utf8-Returns bs =
    Returns-if (is_utf8 bs) (λ h. Returns-succeed bs (refl, h)) (λ h. Returns-fail _)

pub check_trust-Returns :
    (trust : TrustLevel) (kind : ConstantKind)
    → Returns (λ _. IsTrusted trust) (check_trust trust kind)
unfolding check_trust
check_trust-Returns trusted kind = Returns-succeed tt tt
check_trust-Returns untrusted kind = Returns-fail _
