-- ===== src/Scheduler/Delegate.antt =====
-- scheduler/delegate.rs and scheduler/link_admin.rs: what a capability is checked for before it is
-- narrowed, or used for a link, a monitor or an administrative operation.
use bytecode_vm.Prelude.{ℕ, Bool, true, false, not, ◌&&◌, ◌==◌, Option}
use bytecode_vm.Prelude.Maps.{is_some}
use bytecode_vm.Prelude.Result.{Result, ok, ◌>>=◌, ◌>>◌, ensure}
use bytecode_vm.Bytecode.Cap.{
  NativeMask, Cap, CapTarget, flow, native_table, scheduler, contains, is_valid, attenuate,
  native_right, link_right, monitor_right, admin_right,
}

pub data DelegateError : Type 0 where
  source_revoked : DelegateError
  source_lacks_native : DelegateError

unfoldable pub exec_delegate : Cap → ℕ → ℕ → Option NativeMask → Result DelegateError Cap
unfolding is_valid
exec_delegate src src_cell want_rights want_native =
    ensure (is_valid src src_cell) source_revoked
    >> ensure (not (is_some want_native && not (contains src.rights native_right)))
        source_lacks_native
    >>= λ _. ok (attenuate src want_rights want_native)

-- `target == CapTarget::Flow(id)`
unfoldable pub is_flow : CapTarget → ℕ → Bool
is_flow (flow target) id = target == id
is_flow native_table id = false
is_flow scheduler id = false

unfoldable pub is_scheduler : CapTarget → Bool
is_scheduler scheduler = true
is_scheduler native_table = false
is_scheduler (flow target) = false

pub data LinkError : Type 0 where
  wrong_target : LinkError
  missing_right : LinkError
  cap_revoked : LinkError

pub data AdminError : Type 0 where
  missing_right : AdminError
  cap_revoked : AdminError
  wrong_target : AdminError

unfoldable pub check_link : Cap → ℕ → ℕ → Result LinkError (Unit {0})
check_link cap cell target =
    ensure (is_valid cap cell) LinkError.cap_revoked
    >> ensure (is_flow cap.target target) LinkError.wrong_target
    >> ensure (contains cap.rights link_right) LinkError.missing_right

unfoldable pub check_monitor : Cap → ℕ → ℕ → Result LinkError (Unit {0})
check_monitor cap cell target =
    ensure (is_valid cap cell) LinkError.cap_revoked
    >> ensure (is_flow cap.target target) LinkError.wrong_target
    >> ensure (contains cap.rights monitor_right) LinkError.missing_right

unfoldable pub check_admin : Cap → ℕ → Result AdminError (Unit {0})
check_admin cap cell =
    ensure (is_valid cap cell) AdminError.cap_revoked
    >> ensure (is_scheduler cap.target) AdminError.wrong_target
    >> ensure (contains cap.rights admin_right) AdminError.missing_right
