-- ===== src/Admin.antt =====
-- web/lib/admin-api.ts, and the admin panel's sign-in under web/app/admin.
pub mod Tests
pub mod Types
pub mod Requests
pub mod Client
pub mod Display
pub mod Login
pub mod Layout
pub mod Panel
pub mod Config
pub mod Listing
pub mod Domains
pub mod Cleanup
pub mod PageTests
pub mod Dashboard
pub mod Mailboxes
