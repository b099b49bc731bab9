-- ===== src/Activity.antt =====
-- The samples of a side's activity, of src/dual_tmux/activity.py.
pub mod Sample
pub mod Stalled
pub mod Source
pub mod Newest
mod Examples
