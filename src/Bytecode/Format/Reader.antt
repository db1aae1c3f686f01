-- ===== src/Bytecode/Format/Reader.antt =====
-- format.rs, `Reader`: a cursor over the input. Where the source keeps the whole slice and a
-- position, the model keeps the bytes from that position on, and returns them with the result.
use Prim.Native.String.{String}
use bytecode_vm.Prelude.{
  ℕ, ◌<◌, ◌^◌, ◌≡◌, refl, List, [], ◌∷◌, ◌++◌, arith, ltb, if◌then◌else◌, length, take, drop,
  take-append, drop-append, length-append, ◌∙◌,
}
use bytecode_vm.Prelude.Result.{Result, ok, err}
use bytecode_vm.Prelude.Bytes.{
  to_le_bytes, from_le_bytes, length-to_le_bytes, from_le_bytes-to_le_bytes,
}
use bytecode_vm.Bytecode.Trust.{ConstantKind}

pub data FormatError : Type 0 where
  bad_magic : List ℕ → FormatError
  unsupported_abi : ℕ → FormatError
  truncated : FormatError
  limit_exceeded : String → ℕ → FormatError
  bad_utf8 : FormatError
  unknown_value_tag : ℕ → FormatError
  unknown_opcode : ℕ → ℕ → FormatError
  forbidden_constant : ConstantKind → FormatError
  value_too_nested : FormatError

abbrev pub Reader {ℓ} : Type ℓ → Type ℓ
Reader A = List ℕ → Result FormatError (A × List ℕ)

infixl 5 ◌>>=◌
abbrev pub ◌>>=◌ {ℓ κ} : {A : Type ℓ} {B : Type κ} → Reader A → (A → Reader B) → Reader B
◌>>=◌ m f r = elim (m r) [ ok (a, r') ↦ f a r' | err e ↦ err e ]

abbrev pub succeed {ℓ} : {A : Type ℓ} → A → Reader A
succeed a r = ok (a, r)

abbrev pub fail {ℓ} : {A : Type ℓ} → FormatError → Reader A
fail e r = err e

-- `Reader::take`
unfoldable pub take_bytes : ℕ → List ℕ → Result FormatError (List ℕ × List ℕ)
take_bytes n r = if ltb (length r) n then err truncated else ok (take n r, drop n r)

-- `read_u16`, `read_u32`, `read_i32`, … of so many bytes
unfoldable pub read_uint : ℕ → Reader ℕ
read_uint w = do bs ← take_bytes w; succeed (from_le_bytes bs)

unfoldable pub read_u8 : Reader ℕ
read_u8 = read_uint 1

pub take_bytes-append :
    (n : ℕ) (xs r : List ℕ) → length xs ≡ n → take_bytes n (xs ++ r) ≡ ok (xs, r)
unfolding take_bytes
take_bytes-append n xs r e = rw (← e, take-append, drop-append) (ground (arith, length-append xs r))

-- One successful step of a chain, and one that fails.
pub bind-ok {ℓ κ} :
    {A : Type ℓ} {B : Type κ} (m : Reader A) (f : A → Reader B) (r : List ℕ) {a : A} {r' : List ℕ}
    → m r ≡ ok (a, r')
    → (m >>= f) r ≡ f a r'
bind-ok m f r e = rw (e, ◌>>=◌)

pub bind-err {ℓ κ} :
    {A : Type ℓ} {B : Type κ} (m : Reader A) (f : A → Reader B) (r : List ℕ) {e : FormatError}
    → m r ≡ err e
    → (m >>= f) r ≡ err e
bind-err m f r e = rw (e, ◌>>=◌)

after-eq-ok {ℓ κ} :
    {A : Type ℓ} {B : Type κ} (res : Result FormatError (A × List ℕ)) (f : A → Reader B)
    {p : B × List ℕ}
    → elim res as (λ _. Result FormatError (B × List ℕ)) [ ok (a, r') ↦ f a r' | err e ↦ err e ]
      ≡ ok p
    → (a : A) × (r' : List ℕ) × (res ≡ ok (a, r')) × (f a r' ≡ ok p)
after-eq-ok (ok (a, r')) f h = (a, r', refl, h)
after-eq-ok (err e) f h = cc

-- Inversion of a chain that succeeds.
pub bind-eq-ok {ℓ κ} :
    {A : Type ℓ} {B : Type κ} (m : Reader A) (f : A → Reader B) (r : List ℕ) {p : B × List ℕ}
    → (m >>= f) r ≡ ok p
    → (a : A) × (r' : List ℕ) × (m r ≡ ok (a, r')) × (f a r' ≡ ok p)
bind-eq-ok m f r h = after-eq-ok (m r) f h

pub read_uint-to_le_bytes :
    (w v : ℕ) (r : List ℕ) → v < 256 ^ w → read_uint w (to_le_bytes w v ++ r) ≡ ok (v, r)
unfolding read_uint
read_uint-to_le_bytes w v r h =
    bind-ok (take_bytes w) _ _ (take_bytes-append w (to_le_bytes w v) r (length-to_le_bytes w v))
    ∙ rw (from_le_bytes-to_le_bytes w v h)

pub read_u8-cons : (b : ℕ) (r : List ℕ) → read_u8 (b ∷ r) ≡ ok (b, r)
unfolding read_u8 read_uint from_le_bytes
read_u8-cons b r =
    bind-ok (take_bytes 1) _ _ (take_bytes-append 1 (b ∷ []) r (omega arith)) ∙ ground arith
