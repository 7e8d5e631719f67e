-- ===== src/Admin/Config.antt =====
-- web/app/admin/config/page.tsx.
pub mod Redact
pub mod Fields
pub mod Patch
pub mod Handlers
pub mod Every
pub mod Sent
pub mod Ending
pub mod Untouched
pub mod Tests
