-- ===== src/Recovery.antt =====
-- src/dual_tmux/recovery.py: when a tunnel is recovered or rebuilt without its user.
pub mod State
pub mod Observe
pub mod Rebuild
mod Examples
