-- ===== src/Config.antt =====
-- The package internal/config.
pub mod Patterns
pub mod UserAgents
pub mod File
pub mod Validate
pub mod Env
pub mod Settings
pub mod Files
pub mod Load
