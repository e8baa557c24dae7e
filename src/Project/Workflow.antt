-- ===== src/Project/Workflow.antt =====
-- internal/project/workflow.go: one policy for each mode, behind the dispatch on the mode.
-- A policy's method returns the new state and its transition, or an error; every method checks
-- before it writes, so an error leaves the state as it was.
pub mod Goal
pub mod Fast
pub mod Step
pub mod Dispatch
