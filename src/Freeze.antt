-- ===== src/Freeze.antt =====
-- src/dual_tmux/binding.py and datanode/runtime_fsm/hooks.py: a freeze proves a session on a working
-- copy of the tunnel's record, and commits it through a binding attempt.
pub mod Payload
pub mod Hook
pub mod Attempt
pub mod Missing
pub mod Ending
pub mod Whole
pub mod Binds
mod Examples
