-- ===== src/Project/Laws.antt =====
-- What single operations and their compositions do: modes, plans, signatures, snapshots.
pub mod Modes
pub mod Signing
pub mod GoalRound
pub mod Snapshots
pub mod Reports
pub mod StepRound
pub mod Queues
