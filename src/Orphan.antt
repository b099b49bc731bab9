-- ===== src/Orphan.antt =====
-- src/dual_tmux/orphan.py: the agent processes in a tunnel's container, and which of them may die.
pub mod Scan
pub mod Patrol
pub mod Safe
pub mod Legal
pub mod Interval
mod Examples
