-- ===== src/Vm/Safety.antt =====
-- vm/machine.rs: a machine that runs verified code stays sound.
pub mod Post
pub mod Frames
pub mod Reads
pub mod Control
pub mod Calls
pub mod Execute
pub mod Run
pub mod Start
