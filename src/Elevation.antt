-- ===== src/Elevation.antt =====
-- Privilege elevation (src/elevation.rs and src/elevation/).
pub mod Common
pub mod Argv
pub mod Plan
pub mod Sanitize
pub mod Rewrite
