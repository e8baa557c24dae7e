-- ===== src/Delivery.antt =====
-- internal/delivery: the hand-over of the final artifact to the user's repository.
pub mod Git
pub mod Check
pub mod Changes
pub mod Deliver
pub mod Push
pub mod Checked
pub mod Applied
pub mod Safety
pub mod Again
pub mod Pushed
pub mod Listing
