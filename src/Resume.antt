-- ===== src/Resume.antt =====
-- datanode/runtime_fsm/resume.py: the persisted state machine of one resume attempt.
pub mod State
pub mod Node
pub mod Event
pub mod Chart
pub mod Machine
pub mod Steps
pub mod Atomic
pub mod Sound
pub mod Run
pub mod Restore
pub mod Traces
pub mod Outcomes
mod Examples
pub mod Accepted
pub mod Legal
