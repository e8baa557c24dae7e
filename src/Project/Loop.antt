-- ===== src/Project/Loop.antt =====
-- internal/project/loop.go: the durable inbox of a LOOP session, and the owner's finish.
pub mod Inbox
pub mod Consult
pub mod Turn
pub mod Round
pub mod Blocked
pub mod Finish
