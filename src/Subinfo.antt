-- ===== src/Subinfo.antt =====
-- The package internal/subinfo.
pub mod UserInfo
pub mod Catalog
pub mod Floats
pub mod Vars
