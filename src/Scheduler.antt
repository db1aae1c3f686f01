-- ===== src/Scheduler.antt =====
-- crates/byteflow/src/scheduler: the budgets and the inbox of a flow.
pub mod Error
pub mod Delegate
pub mod CapTable
pub mod Oneshot
pub mod Registry
pub mod Monitor
pub mod Link
pub mod Supervisor
pub mod Quota
pub mod Spawn
pub mod Outgoing
pub mod Process
pub mod Mailbox
