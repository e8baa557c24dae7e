-- ===== src/Harness.antt =====
-- internal/harness: what the agents are seen to do, and when one of them is nudged.
pub mod Runtime
pub mod Tracker
pub mod Targets
pub mod Monitor
pub mod Fast
pub mod Wake
pub mod Due
pub mod Accepted
pub mod Sound
pub mod Watched
pub mod Diagnosis
