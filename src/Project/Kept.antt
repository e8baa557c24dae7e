-- ===== src/Project/Kept.antt =====
-- What is to be shown of each operation, so that a relation holds between the states before and after
-- any operation. The obligations stand at the policies; the dispatch on the mode is done here once.
pub mod Frame
pub mod Defs
pub mod Lift
