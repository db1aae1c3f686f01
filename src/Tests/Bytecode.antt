-- ===== src/Tests/Bytecode.antt =====
-- Instances of the theorems on modules, the verifier and capabilities.
use bytecode_vm.Prelude.{
  ℕ, ◌≡◌, ◌↔◌, refl, Bool, true, min, some, List, [], ◌∷◌, ◌++◌, All, ◌&&◌, ltb, arith,
}
use bytecode_vm.Prelude.Bits.{bit}
use bytecode_vm.Prelude.Bytes.{to_le_bytes}
use bytecode_vm.Prelude.Result.{ok}
use bytecode_vm.Bytecode.Trust.{untrusted}
use bytecode_vm.Bytecode.Opcode.{as_u8}
use bytecode_vm.Bytecode.Utf8.{is_utf8}
use mathlib.Core.Bool.{and-eq-true_iff}
use bytecode_vm.Bytecode.Format.Write.{
  encode, write_string, write_blob, write_function, write_instruction, write_items, write_value,
  write_all,
}
use bytecode_vm.Bytecode.Format.Decode.{decode_with}
use bytecode_vm.Bytecode.Format.WellFormed.{IsEncodableChunk}
use bytecode_vm.Bytecode.Format.RoundTrip.{decode_with-encode}
use bytecode_vm.Bytecode.Format.Returns.{IsByte}
use bytecode_vm.Bytecode.Format.Accepted.{decode_with-IsEncodableChunk}
use bytecode_vm.Bytecode.Verify.{verify_with}
use bytecode_vm.Bytecode.Verify.Sound.{IsVerified, verify_with-eq-ok}
use bytecode_vm.Bytecode.Cap.{Cap, CapTarget, attenuate, allows, flow_rights, send_ask_rights}
use bytecode_vm.Bytecode.Cap.Attenuate.{permits, attenuate_lem}
use bytecode_vm.Tests.Program.{doubling}

doubling-IsEncodableChunk : IsEncodableChunk untrusted doubling
unfolding is_utf8
doubling-IsEncodableChunk = record {
  name_fits = (omega arith, refl);
  constants_count = omega arith;
  constants_fit = (omega arith, ((omega arith, refl), tt));
  functions_count = omega arith;
  functions_fit = (((omega arith, refl), omega arith), (((omega arith, refl), omega arith), tt));
  code_count = omega arith;
  code_fits =
      (omega arith, (omega arith, (omega arith, (omega arith, (omega arith, (omega arith, tt))))));
}

decode_with-encode_example : decode_with (encode doubling ++ (7 ∷ [])) untrusted ≡ ok doubling
decode_with-encode_example =
    decode_with-encode untrusted doubling (7 ∷ []) doubling-IsEncodableChunk

verify_with-eq-ok_example : (verify_with doubling untrusted ≡ ok tt) ↔ IsVerified doubling untrusted
verify_with-eq-ok_example = verify_with-eq-ok doubling untrusted

all_bytes : List ℕ → Bool
all_bytes [] = true
all_bytes (b ∷ bs) = ltb b 256 && all_bytes bs

all_bytes-IsByte : (bs : List ℕ) → all_bytes bs ≡ true → All IsByte bs
unfolding all_bytes
all_bytes-IsByte [] h = tt
all_bytes-IsByte (b ∷ bs) h =
    (ground arith, all_bytes-IsByte bs ((and-eq-true_iff (ltb b 256) (all_bytes bs)).0 h).1)

encoded_bytes : All IsByte (encode doubling ++ (7 ∷ []))
unfolding all_bytes encode write_string write_blob write_function write_instruction write_items
    write_value write_all as_u8 to_le_bytes
encoded_bytes = all_bytes-IsByte (encode doubling ++ (7 ∷ [])) refl

decode_with-IsEncodableChunk_example : IsEncodableChunk untrusted doubling
decode_with-IsEncodableChunk_example =
    decode_with-IsEncodableChunk untrusted (encode doubling ++ (7 ∷ [])) doubling encoded_bytes
      (decode_with-encode untrusted doubling (7 ∷ []) doubling-IsEncodableChunk)

-- A capability for sending and asking, and the natives 0, 3 and 64.
parent : Cap
parent = record {
  target = CapTarget.flow 7;
  rights = send_ask_rights;
  native_mask = some (9 ∷ 1 ∷ []);
  epoch = 2;
}

attenuate_lem_example :
    ((attenuate parent flow_rights (some (8 ∷ []))).target ≡ parent.target)
    × ((attenuate parent flow_rights (some (8 ∷ []))).epoch ≡ parent.epoch)
    × ((i : ℕ)
        → bit (attenuate parent flow_rights (some (8 ∷ []))).rights i
          ≡ min (bit parent.rights i) (bit flow_rights i))
    × ((idx : ℕ)
        → permits (attenuate parent flow_rights (some (8 ∷ []))).native_mask idx ≡ true
        → (permits parent.native_mask idx ≡ true)
          × ((r : List ℕ) → some (8 ∷ []) ≡ some r → allows r idx ≡ true))
attenuate_lem_example = attenuate_lem parent flow_rights (some (8 ∷ []))
