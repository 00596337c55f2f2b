-- ===== src/Feed/Cache/Failures.antt =====
-- The commands of src/post/post_feed_cache.cpp where one of them is not answered: `.Get()` throws, and
-- what was run before stays, the command itself too where only its answer is lost. The consumer hands the message back, and gets it again.
pub mod Reading
pub mod Loop
pub mod Redelivery
use otus_highload_architect.Prelude.{
  ◌-◌, List, [], ◌∷◌, ltb, if◌then◌else◌, Text, Uuid, database_error, Outcome, ok, throw,
}
use otus_highload_architect.Prelude.Int.{pos}
use otus_highload_architect.Platform.Connections.{Connection, up, down, lost}
use otus_highload_architect.Platform.Posts.{FeedPost}
use otus_highload_architect.Feed.Cache.{
  FeedPlatform, FeedState, make_key, serialize_post, max_feed_size, get_followers,
}

-- The connections of the commands that one follower takes.
pub record Commands : Type 0 where
  pub exists : Connection
  pub lpush : Connection
  pub ltrim : Connection

module _ (p : FeedPlatform) where
  -- LPUSH and LTRIM of one feed.
  try_add :
      Connection
      → Connection
      → p.json.Document
      → p.redis.Store
      → Text
      → p.redis.Store × Outcome (Unit {0})
  try_add down trim serialized cache key = (cache, throw database_error)
  try_add lost trim serialized cache key =
      (p.redis.lpush cache key serialized, throw database_error)
  try_add up lost serialized cache key = (
    p.redis.ltrim (p.redis.lpush cache key serialized) key (pos 0) (pos (max_feed_size - 1)),
    throw database_error,
  )
  try_add up down serialized cache key = (p.redis.lpush cache key serialized, throw database_error)
  try_add up up serialized cache key = (
    p.redis.ltrim (p.redis.lpush cache key serialized) key (pos 0) (pos (max_feed_size - 1)),
    ok tt,
  )

  try_checked :
      Connection
      → Commands
      → p.json.Document
      → p.redis.Store
      → Text
      → p.redis.Store × Outcome (Unit {0})
  unfolding try_add
  try_checked down c serialized cache key = (cache, throw database_error)
  try_checked lost c serialized cache key = (cache, throw database_error)
  try_checked up c serialized cache key =
      if ltb 0 (p.redis.exists cache key)
      then try_add c.lpush c.ltrim serialized cache key
      else (cache, ok tt)

  -- One round of the loop over the followers.
  unfoldable pub try_push_to_follower :
      Commands → p.json.Document → p.redis.Store → Uuid → p.redis.Store × Outcome (Unit {0})
  unfolding try_checked
  try_push_to_follower c serialized cache follower_id =
      try_checked c.exists c serialized cache (make_key p follower_id)

  -- The loop, which an exception leaves.
  unfoldable pub try_push_to_followers :
      (Uuid → Commands)
      → p.json.Document
      → p.redis.Store
      → List Uuid
      → p.redis.Store × Outcome (Unit {0})
  try_push_to_followers links serialized cache [] = (cache, ok tt)
  try_push_to_followers links serialized cache (f ∷ fs) =
      let pushed = try_push_to_follower (links f) serialized cache f in
      elim pushed.1 [
        | ok done ↦ try_push_to_followers links serialized pushed.0 fs
        | throw e ↦ (pushed.0, throw e)
      ]

  -- `PostFeedCache::OnPostCreated`, with the connection of the SELECT and those of each follower.
  unfoldable pub try_on_post_created :
      Connection
      → (Uuid → Commands)
      → FeedState p
      → Uuid
      → Uuid
      → Text
      → FeedState p × Outcome (Unit {0})
  unfolding get_followers
  try_on_post_created down links s author_id post_id text = (s, throw database_error)
  try_on_post_created lost links s author_id post_id text = (s, throw database_error)
  try_on_post_created up links s author_id post_id text =
      let new_post : FeedPost = record {
        post_id = post_id;
        text = text;
        author_user_id = author_id;
      } in
      let (cache, outcome) =
        try_push_to_followers links (serialize_post p new_post) s.cache
          (get_followers p s author_id) in
      (record s { cache = cache }, outcome)
