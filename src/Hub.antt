-- ===== src/Hub.antt =====
-- The merge of the local and the hub's bindings, of src/dual_tmux/hub.py.
pub mod Files
pub mod Merge
pub mod Step
pub mod Converge
pub mod Snapshot
pub mod Ranks
pub mod Latest
pub mod Order
mod Examples
pub mod Local
