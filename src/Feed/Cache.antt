-- ===== src/Feed/Cache.antt =====
-- src/post/post_feed_cache.hpp and src/post/post_feed_cache.cpp: the cache of post feeds.
pub mod Races
pub mod Failures
pub mod Keys
pub mod Pages
pub mod Fanout
pub mod Bounds
pub mod Refinement
use otus_highload_architect.Prelude.{
  ◌>>=◌, Text, Uuid, ℕ, ◌+◌, ◌-◌, ◌%◌, ◌^◌, min, List, [], ◌∷◌, ◌++◌, map, foldl, leb, ltb,
  is_empty, if◌then◌else◌, length, take, drop, codes, Outcome, ok, throw, undefined, invalid_uuid,
  or_throw, traverse, ◌&&◌,
}
use otus_highload_architect.Prelude.Int.{ℤ, pos, negsuc, pos_part, neg_part, ◌+ℤ◌, ◌-ℤ◌}
use otus_highload_architect.Platform.Uuids.{UuidText}
use otus_highload_architect.Platform.Json.{JsonText, make_object, str, text_at, parse}
use otus_highload_architect.Platform.Lists.{ListStore}
use otus_highload_architect.Platform.Posts.{PostDb, FeedPost}

-- What the cache is built on: the two clients of `PostFeedCache` and the libraries it calls.
pub record FeedPlatform : Type 1 where
  pub uuids : UuidText
  pub json : JsonText
  pub redis : ListStore json.Document
  pub db : PostDb

-- The Redis store, and the two hosts of the cluster that statements are sent to.
pub record FeedState (p : FeedPlatform) : Type 0 where
  pub cache : p.redis.Store
  pub master : p.db.Db
  pub slave : p.db.Db

-- `kMaxFeedSize`
abbrev pub max_feed_size : ℕ
max_feed_size = 1000

-- A 32-bit `int` result: outside its range the behaviour is undefined.
unfoldable pub to_int : ℤ → Outcome ℤ
to_int z = if ltb (pos_part z) (2 ^ 31) && leb (neg_part z) (2 ^ 31) then ok z else throw undefined

-- `static_cast<std::size_t>` of an `int`.
unfoldable pub to_size : ℤ → ℕ
to_size (pos n) = n
to_size (negsuc n) = 2 ^ 64 - (n + 1)

module _ (p : FeedPlatform) where
  unfoldable pub make_key : Uuid → Text
  make_key user_id = codes "feed:" ++ p.uuids.to_string user_id

  unfoldable pub serialize_post : FeedPost → p.json.Document
  serialize_post post = p.json.to_string (
      make_object (
        ("post_id", str (p.uuids.to_string post.post_id))
        ∷ ("text", str post.text)
        ∷ ("author_user_id", str (p.uuids.to_string post.author_user_id))
        ∷ []))

  unfoldable pub deserialize_post : p.json.Document → Outcome FeedPost
  deserialize_post document = do
    json ← parse p.json document
    id_text ← text_at "post_id" json
    post_id ← or_throw (p.uuids.generator id_text) invalid_uuid
    text ← text_at "text" json
    author_text ← text_at "author_user_id" json
    author_user_id ← or_throw (p.uuids.generator author_text) invalid_uuid
    ok (record { post_id = post_id; text = text; author_user_id = author_user_id })

  unfoldable pub load_feed_from_db : FeedState p → Uuid → List FeedPost
  load_feed_from_db s user_id = p.db.feed_rows s.slave user_id

  unfoldable pub get_followers : FeedState p → Uuid → List Uuid
  get_followers s author_id = p.db.followers s.slave author_id

  -- The cache hit: LRANGE of `offset` to `offset + limit - 1`, the sum taken in `int`.
  pub cached_page : FeedState p → Text → ℤ → ℤ → Outcome (List FeedPost)
  unfolding to_int
  cached_page s key offset limit = do
    end ← to_int (offset +ℤ limit)
    stop ← to_int (end -ℤ pos 1)
    traverse (deserialize_post) (p.redis.lrange s.cache key offset stop)

  -- RPUSH of the whole feed and LTRIM to the largest size, unless there is nothing to keep.
  pub populate : FeedState p → Text → List FeedPost → FeedState p
  populate s key [] = s
  populate s key (post ∷ rest) =
      let pushed = p.redis.rpush s.cache key (map (serialize_post) (post ∷ rest)) in
      record s { cache = p.redis.ltrim pushed key (pos 0) (pos (max_feed_size - 1)) }

  -- The requested slice of a loaded feed. `assign` from a range that ends before it begins is
  -- undefined.
  pub slice : List FeedPost → ℤ → ℤ → Outcome (List FeedPost)
  unfolding to_size
  slice db_feed offset limit =
      let begin = to_size offset in
      let end = min ((begin + to_size limit) % 2 ^ 64) (length db_feed) in
      if leb (length db_feed) begin
      then ok []
      else if ltb end begin
      then throw undefined
      else ok (take (end - begin) (drop begin db_feed))

  unfoldable pub get_feed : FeedState p → Uuid → ℤ → ℤ → FeedState p × Outcome (List FeedPost)
  unfolding cached_page populate slice load_feed_from_db
  get_feed s user_id offset limit =
      let key = make_key user_id in
      let db_feed = load_feed_from_db s user_id in
      if ltb 0 (p.redis.exists s.cache key)
      then (s, cached_page s key offset limit)
      else (populate s key db_feed, slice db_feed offset limit)

  -- One round of the loop over the followers: LPUSH and LTRIM where the feed is cached.
  unfoldable pub push_to_follower : p.json.Document → p.redis.Store → Uuid → p.redis.Store
  push_to_follower serialized cache follower_id =
      let key = make_key follower_id in
      if ltb 0 (p.redis.exists cache key)
      then p.redis.ltrim (p.redis.lpush cache key serialized) key (pos 0) (pos (max_feed_size - 1))
      else cache

  unfoldable pub on_post_created : FeedState p → Uuid → Uuid → Text → FeedState p
  unfolding get_followers
  on_post_created s author_id post_id text =
      let new_post : FeedPost = record {
        post_id = post_id;
        text = text;
        author_user_id = author_id;
      } in
      let pushed =
        foldl (push_to_follower (serialize_post new_post)) s.cache (get_followers s author_id) in
      record s { cache = pushed }

  unfoldable pub invalidate_feeds_of_followers_of : FeedState p → Uuid → FeedState p
  unfolding get_followers
  invalidate_feeds_of_followers_of s author_id =
      let followers = get_followers s author_id in
      if is_empty followers
      then s
      else record s { cache = p.redis.del s.cache (map make_key followers) }

  unfoldable pub invalidate_feed : FeedState p → Uuid → FeedState p
  invalidate_feed s user_id = record s { cache = p.redis.del s.cache (make_key user_id ∷ []) }
