-- ===== src/Manager.antt =====
-- src/gg_relay/session/manager.py: the orchestrator of sessions. Its state and small helpers stand in
-- `State`, the optimistic write in `Locked`, the operations in `Submit`, `Pause` and `Run`, and the
-- whole machine in `Machine`; the other children are about them.
pub mod State
pub mod Locked
pub mod Submit
pub mod Pause
pub mod Run
pub mod Frames
pub mod Retry
pub mod Machine
pub mod Shutdown
pub mod Slots
