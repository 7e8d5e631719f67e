-- ===== src/Docs.antt =====
-- web/app/api/page.tsx, the page that documents the API and tries its endpoints.
pub mod Endpoints
pub mod Url
pub mod Wire
pub mod Payload
pub mod Run
pub mod Escaping
pub mod Tried
pub mod Ending
pub mod Tests
