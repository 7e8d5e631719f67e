-- ===== src/Home.antt =====
-- web/app/page.tsx: the page of the temporary address. A handler is given the render whose closure
-- it is (`env`), as its JavaScript captures that render's state; it writes the page as it is when
-- it runs.
pub mod State
pub mod Handlers
pub mod Keeping
pub mod Inbox
pub mod Refresh
pub mod Tests
pub mod Events
pub mod Rotation
