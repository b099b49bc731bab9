-- ===== src/Connector.antt =====
-- `ConnectorManager` of src/dual_tmux/daemon.py: the one process that serves the messenger. The clock
-- is read in whole seconds.
pub mod Manager
pub mod Backoff
mod Examples
