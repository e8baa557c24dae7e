-- ===== src/Project.antt =====
-- internal/project: the domain state of a session and the four workflow policies over it.
pub mod Agent
pub mod Mode
pub mod Verification
pub mod Steps
pub mod LoopState
pub mod State
pub mod Workflow
pub mod Snapshot
pub mod Session
pub mod Switch
pub mod Restore
pub mod Loop
pub mod Valid
pub mod Operation
pub mod Kept
pub mod Gates
pub mod Laws
