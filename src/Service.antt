-- ===== src/Service.antt =====
-- `ControlService.resume` of src/dual_tmux/control.py and the worker that it reports through.
pub mod Errors
pub mod Attempt
pub mod Workers
pub mod Resume
pub mod Start
pub mod Sends
pub mod Reports
pub mod Endings
pub mod Outcome
pub mod Begun
pub mod Whole
mod Examples
pub mod Snapshots
pub mod Atomic
pub mod Pruned
