-- ===== src/Containment.antt =====
-- Process-tree containment (src/containment.rs and src/containment/).
pub mod Windows
pub mod Cgroup
pub mod Treewalk
pub mod Kill
pub mod Group
pub mod Fdmarker
pub mod Dispatch
