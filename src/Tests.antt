-- ===== src/Tests.antt =====
-- Sessions on concrete input, and the theorems applied to them.
mod Sessions
mod Checkpoints
mod Resume
mod Deliveries
mod Watch
mod Landings
mod Pauses
mod Discards
mod Gates
mod Laws
mod Loop
