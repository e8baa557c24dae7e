-- ===== src/Workspace.antt =====
-- internal/workspace: what a session owns on disk, and its removal.
pub mod Paths
pub mod Discard
pub mod Recall
pub mod Removed
pub mod Unused
pub mod Inside
