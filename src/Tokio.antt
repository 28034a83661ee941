-- ===== src/Tokio.antt =====
-- The asynchronous half of the crate, as far as it differs from the other one.
pub mod Reaper
