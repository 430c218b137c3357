-- ===== src/Proxy.antt =====
-- The package internal/proxy.
pub mod Route
pub mod Block
pub mod Body
pub mod Outside
pub mod UserAgent
pub mod Stages
pub mod Serve
