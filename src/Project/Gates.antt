-- ===== src/Project/Gates.antt =====
-- What has to be true before work counts as done: the gates of DONE, of delivery and of a landing.
pub mod Done
pub mod Delivery
pub mod Landing
pub mod History
pub mod Landed
pub mod Gaps
