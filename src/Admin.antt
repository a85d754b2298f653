-- ===== src/Admin.antt =====
-- admin.rs: the admin HTTP surface.
pub mod Edits
pub mod Handlers
pub mod Http
pub mod Route
pub mod Service
