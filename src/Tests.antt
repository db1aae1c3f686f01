-- ===== src/Tests.antt =====
-- Concrete runs, and concrete instances of the theorems.
pub mod Program
pub mod Bytecode
pub mod Vm
pub mod Budget
pub mod Groups
pub mod Hops
pub mod Inbox
pub mod Tables
pub mod Relations
