-- ===== src/Store.antt =====
-- internal/sessionstore: the durable checkpoint of a session, its migration, and what it says about
-- delivery.
pub mod Record
pub mod Migrate
pub mod Needs
