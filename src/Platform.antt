-- ===== src/Platform.antt =====
-- The services and libraries that the program calls and does not implement: each is a record of
-- operations with their documented laws, and has a concrete value that shows the laws can hold.
pub mod Uuids
pub mod Json
pub mod Connections
pub mod Lists
pub mod Posts
pub mod PlainPosts
pub mod Broker
pub mod Http
pub mod Mailbox
pub mod Hashes
pub mod PlainQueues
pub mod Scans
