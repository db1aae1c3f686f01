-- ===== src/Scheduler/CapTable/Reach.antt =====
-- Every table that the operations reach is sound.
use bytecode_vm.Prelude.{ℕ, Option}
use bytecode_vm.Prelude.Maps.{nat_key, pair_key}
use bytecode_vm.Bytecode.Cap.{Cap, NativeMask}
use bytecode_vm.Scheduler.CapTable.{
  CapTable, Draws, new, bind_flow, grant, mint, mint_or_reuse, attenuate, delegate, reissue_for,
  revoke_flow,
}
use bytecode_vm.Scheduler.CapTable.Sound.{
  IsSound, new-IsSound, bind_flow-IsSound, grant-IsSound, mint-IsSound, mint_or_reuse-IsSound,
  grant_narrowed-IsSound, delegate_as-IsSound, reissue-IsSound, revoke_flow-IsSound,
}

-- The operations of the table, one after another.
pub data Reaches : CapTable → Type 0 where
  started : Reaches new
  bound : {t : CapTable} → Reaches t → (id : ℕ) → Reaches (bind_flow t id).1
  granted_to :
      {t : CapTable}
      → Reaches t
      → (draws : Draws) (holder : ℕ) (cap : Cap) → Reaches (grant draws t holder cap).1
  minted :
      {t : CapTable}
      → Reaches t
      → (draws : Draws) (holder to rights : ℕ) → Reaches (mint draws t holder to rights).1
  replied :
      {t : CapTable}
      → Reaches t
      → (draws : Draws) (holder to rights : ℕ) → Reaches (mint_or_reuse draws t holder to rights).1
  attenuated :
      {t : CapTable}
      → Reaches t
      → (draws : Draws) (id from_holder to_holder want : ℕ) (native : Option NativeMask)
      → Reaches (attenuate draws t id from_holder to_holder want native).1
  delegated_on :
      {t : CapTable}
      → Reaches t
      → (draws : Draws) (id from_holder to_holder : ℕ)
      → Reaches (delegate draws t id from_holder to_holder).1
  reissued :
      {t : CapTable}
      → Reaches t
      → (draws : Draws) (id holder : ℕ) → Reaches (reissue_for draws t id holder).1
  revoked : {t : CapTable} → Reaches t → (dead : ℕ) → Reaches (revoke_flow t dead).2

-- In every table that any sequence of operations reaches from a new one, whatever tokens are drawn:
-- the tokens are distinct and none is the null token, and the reply token that the index gives for
-- a pair of flows is in the table, held by the first flow and addressing the second.
pub reached_table-IsSound : (t : CapTable) → Reaches t → IsSound t
unfolding attenuate delegate reissue_for
reached_table-IsSound _ started = new-IsSound
reached_table-IsSound _ (bound {t} r id) = bind_flow-IsSound t id (reached_table-IsSound t r)
reached_table-IsSound _ (granted_to {t} r draws holder cap) =
    grant-IsSound draws t holder cap (reached_table-IsSound t r)
reached_table-IsSound _ (minted {t} r draws holder to rights) =
    mint-IsSound draws t holder to rights (reached_table-IsSound t r)
reached_table-IsSound _ (replied {t} r draws holder to rights) =
    mint_or_reuse-IsSound draws t holder to rights (reached_table-IsSound t r)
reached_table-IsSound _ (attenuated {t} r draws id from_holder to_holder want native) =
    grant_narrowed-IsSound draws t to_holder _ (reached_table-IsSound t r)
reached_table-IsSound _ (delegated_on {t} r draws id from_holder to_holder) =
    delegate_as-IsSound draws t id from_holder to_holder _ (reached_table-IsSound t r)
reached_table-IsSound _ (reissued {t} r draws id holder) =
    reissue-IsSound draws t holder _ (reached_table-IsSound t r)
reached_table-IsSound _ (revoked {t} r dead) =
    revoke_flow-IsSound t dead (reached_table-IsSound t r)
