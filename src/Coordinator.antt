-- ===== src/Coordinator.antt =====
-- internal/coordinator/coordinator.go: the pause of a session, and the messages that it holds.
pub mod Message
pub mod State
pub mod Send
pub mod Pause
pub mod Wake
pub mod Operation
pub mod Frame
pub mod Invisible
pub mod Silent
pub mod Quiet
pub mod Begun
pub mod Consistent
pub mod Followed
pub mod Framed
pub mod Reached
