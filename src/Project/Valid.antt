-- ===== src/Project/Valid.antt =====
-- The invariant of the domain state: the phase belongs to the mode, and the cursor to the queue.
pub mod Defs
pub mod Policies
pub mod Run
pub mod StepPolicy
