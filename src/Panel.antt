-- ===== src/Panel.antt =====
-- The package internal/panel.
pub mod Info
pub mod Cache
pub mod Client
