-- ===== src/Bytecode/Cap.antt =====
-- bytecode/cap.rs: capability records, rights, native allowlists and their attenuation.
--
-- A rights set is a `u32` bit pattern, an allowlist a list of `u64` words. The tokens of `CapId`
-- come from the operating system and are plain numbers here. A `RevocationCell` is an atomic
-- counter that is shared; an operation that reads one takes its value as an argument.
pub mod Attenuate
use bytecode_vm.Prelude.{
  ℕ, zero, suc, ◌+◌, ◌-◌, ◌*◌, ◌/◌, ◌%◌, ◌^◌, Bool, true, false, not, ◌&&◌, Option, none, some,
  List, [], ◌∷◌, length, get_elem?, set, replicate, bit_and, bit_or, ltb, ◌==◌, if◌then◌else◌, min,
}
use bytecode_vm.Prelude.Int.{u32_mod, u64_mod}

-- `CapRights(1 << k)`
abbrev pub send_right : ℕ
send_right = 1

abbrev pub ask_right : ℕ
ask_right = 2

abbrev pub recv_right : ℕ
recv_right = 4

abbrev pub spawn_right : ℕ
spawn_right = 8

abbrev pub link_right : ℕ
link_right = 16

abbrev pub monitor_right : ℕ
monitor_right = 32

abbrev pub admin_right : ℕ
admin_right = 64

abbrev pub native_right : ℕ
native_right = 128

unfoldable pub union : ℕ → ℕ → ℕ
union a b = bit_or a b

unfoldable pub intersect : ℕ → ℕ → ℕ
intersect a b = bit_and a b

-- `self.0 & other.0 == other.0`
unfoldable pub contains : ℕ → ℕ → Bool
contains a b = bit_and a b == b

-- `self.0 & !other.0 == 0`
unfoldable pub is_subset_of : ℕ → ℕ → Bool
is_subset_of a b = bit_and a (u32_mod - 1 - b) == 0

abbrev pub addressing_rights : ℕ
addressing_rights = send_right + ask_right + link_right + monitor_right

abbrev pub flow_rights : ℕ
flow_rights =
    send_right + ask_right + recv_right + spawn_right + link_right + monitor_right + native_right

abbrev pub send_ask_rights : ℕ
send_ask_rights = send_right + ask_right

-- `bits_u8`
abbrev pub bits_u8 : ℕ → ℕ
bits_u8 r = r % 256

abbrev pub NativeMask : Type 0
NativeMask = List ℕ

-- `native_count.div_ceil(64)`
abbrev pub mask_words : ℕ → ℕ
mask_words native_count = (native_count + 63) / 64

unfoldable pub empty : ℕ → NativeMask
empty native_count = replicate (mask_words native_count) 0

-- The loop over the indices: a bit outside the table is ignored.
unfoldable pub set_bits : ℕ → NativeMask → List ℕ → NativeMask
set_bits native_count v [] = v
set_bits native_count v (i ∷ idxs) =
    set_bits native_count
      (elim (get_elem? v (i / 64)) [
        | some w ↦ if ltb i native_count then set v (i / 64) (bit_or w (2 ^ (i % 64))) else v
        | none ↦ v
      ])
      idxs

unfoldable pub from_indices : ℕ → List ℕ → NativeMask
unfolding set_bits empty
from_indices native_count idxs = set_bits native_count (empty native_count) idxs

-- A word that is there allows an index by its bit.
abbrev pub slot_allows : Option ℕ → ℕ → Bool
slot_allows (some word) b = not (bit_and word (2 ^ b) == 0)
slot_allows none b = false

unfoldable pub allows : NativeMask → ℕ → Bool
allows mask idx = slot_allows (get_elem? mask (idx / 64)) (idx % 64)

-- Word by word, over the shorter of the two masks.
unfoldable pub intersect_mask : NativeMask → NativeMask → NativeMask
intersect_mask [] requested = []
intersect_mask (a ∷ mask) [] = []
intersect_mask (a ∷ mask) (b ∷ requested) = bit_and a b ∷ intersect_mask mask requested

pub data CapTarget : Type 0 where
  flow : ℕ → CapTarget
  native_table : CapTarget
  scheduler : CapTarget

unfoldable pub flow_id : CapTarget → Option ℕ
flow_id (flow id) = some id
flow_id native_table = none
flow_id scheduler = none

pub record Cap : Type 0 where
  pub target : CapTarget
  pub rights : ℕ
  pub native_mask : Option NativeMask
  pub epoch : ℕ

unfoldable pub root : CapTarget → ℕ → Option NativeMask → ℕ → Cap
root target rights native_mask cell = record {
  target = target;
  rights = rights;
  native_mask = native_mask;
  epoch = cell;
}

-- Valid while the issuer's counter has not moved on.
unfoldable pub is_valid : Cap → ℕ → Bool
is_valid cap cell = cap.epoch == cell

-- `fetch_add(1)`
unfoldable pub revoke : ℕ → ℕ
revoke cell = (cell + 1) % u64_mod

unfoldable pub attenuate_mask : Option NativeMask → Option NativeMask → Option NativeMask
attenuate_mask (some cur) (some req) = some (intersect_mask cur req)
attenuate_mask (some cur) none = some cur
attenuate_mask none _ = none

unfoldable pub attenuate : Cap → ℕ → Option NativeMask → Cap
unfolding intersect attenuate_mask intersect_mask
attenuate cap want_rights want_native = record cap {
  rights = intersect cap.rights want_rights;
  native_mask = attenuate_mask cap.native_mask want_native;
}
