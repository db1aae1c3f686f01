-- ===== src/Scheduler/Spawn.antt =====
-- scheduler/spawn.rs: the authority that a flow is born with.
--
-- The parent's quota changes by the check of its spawn bucket; the child's capability is bound to the
-- counter of the child's own revocation cell, which is an argument.
pub mod Confined
use bytecode_vm.Prelude.{ℕ, ◌≡◌, refl, ap, sym, Bool, true, false, Option, min, bit_and, ==_iff}
use bytecode_vm.Prelude.Bits.{bit}
use bytecode_vm.Prelude.Int.{ℤ}
use bytecode_vm.Prelude.Result.{Result, ok, err, ◌>>=◌, ◌>>◌, ensure}
use bytecode_vm.Bytecode.Cap.{
  NativeMask, Cap, CapTarget, flow, contains, root, is_valid, attenuate, intersect, attenuate_mask,
  intersect_mask, spawn_right,
}
use bytecode_vm.Bytecode.Cap.Attenuate.{permits, attenuate_lem}
use bytecode_vm.Scheduler.Quota.{QuotaError, FlowQuota, check_spawn}

pub data ConfinedSpawnError : Type 0 where
  rate_limited : ConfinedSpawnError
  source_cap_revoked : ConfinedSpawnError
  missing_spawn_right : ConfinedSpawnError

-- The child's capability, whatever the checks say.
unfoldable pub child_cap : Cap → ℕ → ℕ → Option NativeMask → ℕ → Cap
unfolding root attenuate
child_cap parent_cap new_child_id requested_rights requested_native child_cell =
    let attenuated = attenuate parent_cap requested_rights requested_native in
    root (flow new_child_id) attenuated.rights attenuated.native_mask child_cell

-- `map_err`, and the capability when the bucket gave a token.
abbrev pub rate_checked :
    Cap → Result QuotaError (Unit {0}) × FlowQuota → Result ConfinedSpawnError Cap × FlowQuota
rate_checked child (ok u, q) = (ok child, q)
rate_checked child (err e, q) = (err rate_limited, q)

abbrev pub refused_or :
    Result ConfinedSpawnError (Unit {0})
    → FlowQuota
    → Result ConfinedSpawnError Cap × FlowQuota
    → Result ConfinedSpawnError Cap × FlowQuota
refused_or (ok u) q next = next
refused_or (err e) q next = (err e, q)

unfoldable pub exec_spawn_authority :
    (ℕ → ℤ → ℤ)
    → ℕ
    → Cap
    → ℕ
    → FlowQuota
    → ℕ
    → ℕ
    → Option NativeMask
    → ℕ
    → Result ConfinedSpawnError Cap × FlowQuota
unfolding is_valid check_spawn child_cap
exec_spawn_authority grow now parent_cap parent_cell q new_child_id rights native child_cell =
    refused_or
      (ensure (is_valid parent_cap parent_cell) source_cap_revoked
        >> ensure (contains parent_cap.rights spawn_right) missing_spawn_right)
      q
      (rate_checked (child_cap parent_cap new_child_id rights native child_cell)
        (check_spawn grow now q))
