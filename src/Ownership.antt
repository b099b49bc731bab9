-- ===== src/Ownership.antt =====
-- src/dual_tmux/ownership.py: whether a tunnel may be resumed here, from the collected facts.
pub mod Takeover
pub mod Allowed
pub mod Decision
mod Examples
