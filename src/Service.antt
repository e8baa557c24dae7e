-- ===== src/Service.antt =====
-- internal/session: the hand-over of a session's artifact to the user's repository.
pub mod World
pub mod Head
pub mod Gates
pub mod Transact
pub mod Persist
pub mod Reconcile
pub mod Landing
pub mod Approved
pub mod Trimmed
pub mod Attempts
pub mod Safe
pub mod Crash
pub mod Settled
pub mod Kept
pub mod Outcome
pub mod Retried
pub mod Resumed
pub mod Settle
