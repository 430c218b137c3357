-- ===== src/Rewrite.antt =====
-- The package internal/rewrite.
pub mod Codec
pub mod Header
pub mod Engine
