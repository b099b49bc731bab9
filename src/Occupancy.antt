-- ===== src/Occupancy.antt =====
-- src/dual_tmux/occupancy.py: which Client holds a tunnel, in two files of the hub; and the claim and
-- the verification of a resume in src/dual_tmux/ownership.py.
pub mod Hub
pub mod Client
pub mod Resume
pub mod Fence
pub mod Reissue
mod Examples
