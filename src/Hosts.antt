-- ===== src/Hosts.antt =====
-- The package internal/hosts.
pub mod Shuffle
pub mod Links
pub mod Json
pub mod Documents
pub mod Clash
pub mod Apply
pub mod Unchanged
pub mod Placeholder
