-- ===== src/Fsm.antt =====
-- datanode/fsm_core: the declarative graph, the machine that executes it, and the snapshot store.
pub mod Graph
pub mod Machine
pub mod Store
