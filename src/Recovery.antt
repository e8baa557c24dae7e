-- ===== src/Recovery.antt =====
-- internal/recovery: what a resumed session may still trust. Git is the ground truth.
pub mod Report
pub mod Evidence
pub mod Merge
pub mod Gates
pub mod Signatures
pub mod Reconcile
pub mod Verdicts
pub mod Safe
pub mod Again
pub mod Compose
pub mod Resume
pub mod Modes
pub mod Durable
