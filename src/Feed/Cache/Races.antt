-- ===== src/Feed/Cache/Races.antt =====
-- `PostFeedCache::GetFeed` as the commands that it sends, one at a time: other requests, the consumer of
-- the feed and the handlers that drop feeds run between them.
pub mod Overlaps
pub mod Steps
pub mod Schedules
pub mod Bounds
use otus_highload_architect.Prelude.{
  ◌-◌, List, [], ◌∷◌, map, ltb, if◌then◌else◌, Text, Uuid, Outcome,
}
use otus_highload_architect.Prelude.Int.{ℤ, pos}
use otus_highload_architect.Platform.Posts.{FeedPost}
use otus_highload_architect.Feed.Cache.{
  FeedPlatform, FeedState, make_key, serialize_post, max_feed_size, slice, cached_page,
  load_feed_from_db, on_post_created, invalidate_feeds_of_followers_of, invalidate_feed,
}

-- What a request has done: nothing; EXISTS, which found the feed or not; the SELECT; RPUSH; all of it.
pub data Reader : Type 0 where
  asking hit missed : Reader
  loaded pushed : List FeedPost → Reader
  finished : Outcome (List FeedPost) → Reader

module _ (p : FeedPlatform) where
  -- The next command of a request.
  unfoldable pub read_step : FeedState p → Uuid → ℤ → ℤ → Reader → FeedState p × Reader
  unfolding cached_page slice load_feed_from_db
  read_step s user_id offset limit asking =
      if ltb 0 (p.redis.exists s.cache (make_key p user_id)) then (s, hit) else (s, missed)
  read_step s user_id offset limit hit =
      (s, finished (cached_page p s (make_key p user_id) offset limit))
  read_step s user_id offset limit missed = (s, loaded (load_feed_from_db p s user_id))
  read_step s user_id offset limit (loaded []) = (s, finished (slice p [] offset limit))
  read_step s user_id offset limit (loaded (post ∷ rest)) = (
    record s {
      cache = p.redis.rpush s.cache (make_key p user_id) (map (serialize_post p) (post ∷ rest));
    },
    pushed (post ∷ rest),
  )
  read_step s user_id offset limit (pushed db_feed) = (
    record s {
      cache = p.redis.ltrim s.cache (make_key p user_id) (pos 0) (pos (max_feed_size - 1));
    },
    finished (slice p db_feed offset limit),
  )
  read_step s user_id offset limit (finished page) = (s, finished page)

  -- Two requests for the same feed, and what goes on beside them.
  pub record Race : Type 0 where
    pub feed : FeedState p
    pub first : Reader
    pub second : Reader

  -- Who is next: one of the requests, the replica, the consumer with a new post, or a handler that drops
  -- the feeds of an author's followers or the feed of one user.
  pub data Turn : Type 0 where
    of_first of_second : Turn
    replica : p.db.Db → Turn
    consumer : Uuid → Uuid → Text → Turn
    post_changed : Uuid → Turn
    friends_changed : Uuid → Turn

  module _ (user_id : Uuid) (offset limit : ℤ) where
    unfoldable pub turn : Race → Turn → Race
    turn r of_first =
        let next = read_step r.feed user_id offset limit r.first in
        record r { feed = next.0; first = next.1 }
    turn r of_second =
        let next = read_step r.feed user_id offset limit r.second in
        record r { feed = next.0; second = next.1 }
    turn r (replica db) = record r { feed = record r.feed { slave = db } }
    turn r (consumer author post text) = record r {
      feed = on_post_created p r.feed author post text;
    }
    turn r (post_changed author) = record r {
      feed = invalidate_feeds_of_followers_of p r.feed author;
    }
    turn r (friends_changed user) = record r { feed = invalidate_feed p r.feed user }

    unfoldable pub turns : Race → List Turn → Race
    turns r [] = r
    turns r (t ∷ ts) = turns (turn r t) ts

  abbrev pub start : FeedState p → Race
  start s = record { feed = s; first = asking; second = asking }
