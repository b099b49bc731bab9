-- ===== src/Binding.antt =====
-- datanode/runtime_fsm/binding.py: the persisted state machine of one freeze or rebuild.
pub mod State
pub mod Node
pub mod Chart
pub mod Machine
pub mod Steps
pub mod Atomic
pub mod Sound
pub mod Run
pub mod Restore
pub mod Commit
mod Examples
