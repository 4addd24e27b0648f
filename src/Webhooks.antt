-- ===== src/Webhooks.antt =====
-- The webhooks of src/services/webhooks.
mod Rotation
pub mod Backoff
pub mod Razorpay
mod Tests
