-- ===== src/DemoSession.antt =====
-- The demo sessions of src/modules/demo-session.
pub mod Errors
pub mod Maps
pub mod Context
pub mod Cookies
pub mod Service
pub mod Coordinator
pub mod Reset
pub mod ResetOutcome
pub mod ResetSafety
pub mod Maintenance
pub mod StartUp
pub mod Pages
pub mod PageLimits
pub mod PageOrder
pub mod PageLaws
pub mod PageCursors
pub mod Queues
pub mod CookieRoundTrip
pub mod Sessions
pub mod Credentials
