-- ===== src/Tests.antt =====
-- The theorems at concrete inputs, on the plain platform.
pub mod Failures
pub mod Races
pub mod Rows
pub mod Platforms
pub mod Feeds
pub mod Handlers
pub mod Sockets
pub mod Counters
pub mod Services
pub mod Journeys
pub mod Dialogues
pub mod EarlyLists
pub mod Resend
pub mod Accounts
pub mod Programs
