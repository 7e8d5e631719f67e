-- ===== src/Mailbox.antt =====
-- web/app/mailbox/page.tsx: the page of the permanent mailbox.
pub mod State
pub mod Handlers
pub mod Events
pub mod Keeping
pub mod Answers
pub mod Tests
