-- ===== src/Feed.antt =====
-- The post feed of the monolith (src/post and src/friend): the Redis cache of each user's feed and
-- the handlers that read it and keep it up to date.
pub mod Cache
pub mod Messages
pub mod Posts
pub mod Reading
