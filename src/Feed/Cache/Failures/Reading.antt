-- ===== src/Feed/Cache/Failures/Reading.antt =====
-- `PostFeedCache::GetFeed` where a command or the SELECT may not be answered.
use otus_highload_architect.Prelude.{
  ℕ, suc, ◌+◌, ◌-◌, ◌^◌, ◌≤◌, ◌<◌, ◌≡◌, refl, sym, ap, ◌∙◌, ◌⊎◌, inl, inr, List, [], ◌∷◌, map, ltb,
  if◌then◌else◌, length, Text, Uuid, bytes_eq_refl, database_error, Outcome, ok, throw, ◌>>=◌, ◌>>◌,
  traverse,
}
use mathlib.Core.Path.{subst}
use otus_highload_architect.Prelude.Int.{ℤ, pos, ◌+ℤ◌, ◌-ℤ◌}
use otus_highload_architect.Platform.Connections.{Connection, up, down, lost, call}
use otus_highload_architect.Platform.Posts.{FeedPost}
use otus_highload_architect.Feed.Cache.{
  FeedPlatform, FeedState, make_key, serialize_post, deserialize_post, max_feed_size, to_int, slice,
  populate, cached_page, load_feed_from_db, get_feed,
}
use otus_highload_architect.Feed.Cache.Keys.{make_key-eq, traverse-serialize}
use otus_highload_architect.Feed.Cache.Pages.{
  int_end, page_of_range, populate_lem, populate-other, Caches, page, exists-absent, exists-cached,
  slice_lem,
}
use otus_highload_architect.Feed.Cache.Refinement.{Shows, filled-Shows}

-- The connections of the commands of one call.
pub record ReadLinks : Type 0 where
  pub exists : Connection
  pub lrange : Connection
  pub select : Connection
  pub rpush : Connection
  pub ltrim : Connection

module _ (p : FeedPlatform) where
  try_cached_page : Connection → FeedState p → Text → ℤ → ℤ → Outcome (List FeedPost)
  unfolding to_int
  try_cached_page c s key offset limit = do
    end ← to_int (offset +ℤ limit)
    stop ← to_int (end -ℤ pos 1)
    raw ← call c (p.redis.lrange s.cache key offset stop)
    traverse (deserialize_post p) raw

  -- RPUSH and LTRIM, unless there is nothing to keep.
  try_populate :
      Connection
      → Connection
      → FeedState p
      → Text
      → List FeedPost
      → FeedState p × Outcome (Unit {0})
  try_populate push trim s key [] = (s, ok tt)
  try_populate down trim s key (post ∷ rest) = (s, throw database_error)
  try_populate lost trim s key (post ∷ rest) = (
    record s { cache = p.redis.rpush s.cache key (map (serialize_post p) (post ∷ rest)) },
    throw database_error,
  )
  try_populate up lost s key (post ∷ rest) =
      let pushed = p.redis.rpush s.cache key (map (serialize_post p) (post ∷ rest)) in
      (
        record s { cache = p.redis.ltrim pushed key (pos 0) (pos (max_feed_size - 1)) },
        throw database_error,
      )
  try_populate up down s key (post ∷ rest) = (
    record s { cache = p.redis.rpush s.cache key (map (serialize_post p) (post ∷ rest)) },
    throw database_error,
  )
  try_populate up up s key (post ∷ rest) =
      let pushed = p.redis.rpush s.cache key (map (serialize_post p) (post ∷ rest)) in
      (record s { cache = p.redis.ltrim pushed key (pos 0) (pos (max_feed_size - 1)) }, ok tt)

  try_miss :
      Connection → ReadLinks → FeedState p → Uuid → ℤ → ℤ → FeedState p × Outcome (List FeedPost)
  unfolding try_populate slice load_feed_from_db
  try_miss down c s user_id offset limit = (s, throw database_error)
  try_miss lost c s user_id offset limit = (s, throw database_error)
  try_miss up c s user_id offset limit =
      let db_feed = load_feed_from_db p s user_id in
      let (filled, done) = try_populate c.rpush c.ltrim s (make_key p user_id) db_feed in
      (filled, done >> slice p db_feed offset limit)

  try_looked_up :
      Connection → ReadLinks → FeedState p → Uuid → ℤ → ℤ → FeedState p × Outcome (List FeedPost)
  unfolding try_cached_page try_miss
  try_looked_up down c s user_id offset limit = (s, throw database_error)
  try_looked_up lost c s user_id offset limit = (s, throw database_error)
  try_looked_up up c s user_id offset limit =
      let key = make_key p user_id in
      if ltb 0 (p.redis.exists s.cache key)
      then (s, try_cached_page c.lrange s key offset limit)
      else try_miss c.select c s user_id offset limit

  unfoldable pub try_get_feed :
      ReadLinks → FeedState p → Uuid → ℤ → ℤ → FeedState p × Outcome (List FeedPost)
  unfolding try_looked_up
  try_get_feed c s user_id offset limit = try_looked_up c.exists c s user_id offset limit

  -- The page, or an exception.
  abbrev PageOrThrow : List FeedPost → Outcome (List FeedPost) → Type 0
  PageOrThrow wanted outcome = (outcome ≡ ok wanted) ⊎ (outcome ≡ throw database_error)

  hit_lem :
      (c : Connection) (s : FeedState p) (user : Uuid) (o l : ℕ) (feed : List FeedPost)
      → o + suc l < 2 ^ 31
      → Caches p s user feed
      → PageOrThrow
          (page o (suc l) feed)
          (try_cached_page c s (make_key p user) (pos o) (pos (suc l)))
  unfolding try_cached_page
  hit_lem up s user o l feed h e = inl (
      rw (
        (int_end o l h).0,
        (int_end o l h).1,
        p.redis.lrange_lem,
        e,
        page_of_range,
        traverse-serialize p,
      ))
  hit_lem down s user o l feed h e = inr (rw ((int_end o l h).0, (int_end o l h).1))
  hit_lem lost s user o l feed h e = inr (rw ((int_end o l h).0, (int_end o l h).1))

  -- The rows are in the cache, not cut yet.
  pushed_lem :
      (s : FeedState p) (user v : Uuid) (feed other : List FeedPost)
      → feed ≡ p.db.feed_rows s.slave user
      → Caches p s user []
      → Shows p s v other
      → Shows p
          (record s {
            cache = p.redis.rpush s.cache (make_key p user) (map (serialize_post p) feed);
          })
          v
          other
  pushed_lem s user v feed other rows c w =
      let t : FeedState p = record s {
        cache = p.redis.rpush s.cache (make_key p user) (map (serialize_post p) feed);
      } in
      let all : Caches p t user feed = rw (p.redis.contents-rpush, bytes_eq_refl, c) refl in
      filled-Shows p s t user v other c (all ∙ ap (map (serialize_post p)) rows) refl
        (λ apart. rw (p.redis.contents-rpush, make_key-eq, apart)) w

  trimmed_lem :
      (s : FeedState p) (user v : Uuid) (post : FeedPost) (rest other : List FeedPost)
      → post ∷ rest ≡ p.db.feed_rows s.slave user
      → Caches p s user []
      → Shows p s v other
      → Shows p (populate p s (make_key p user) (post ∷ rest)) v other
  unfolding populate
  trimmed_lem s user v post rest other rows c w =
      let small : length (post ∷ rest) ≤ 1000 =
        subst (λ x. length x ≤ 1000) (sym rows) (p.db.feed_rows-le s.slave user) in
      let t : FeedState p = populate p s (make_key p user) (post ∷ rest) in
      let all : Caches p t user (post ∷ rest) = populate_lem p s user (post ∷ rest) small c in
      filled-Shows p s t user v other c (all ∙ ap (map (serialize_post p)) rows) refl
        (populate-other p s user v (post ∷ rest)) w

  populated_lem :
      (push trim : Connection) (s : FeedState p) (user v : Uuid) (feed other : List FeedPost)
      → feed ≡ p.db.feed_rows s.slave user
      → Caches p s user []
      → Shows p s v other
      → let r = try_populate push trim s (make_key p user) feed in
        ((r.1 ≡ ok tt) ⊎ (r.1 ≡ throw database_error)) × Shows p r.0 v other
  unfolding try_populate populate
  populated_lem push trim s user v [] other rows c w = (inl refl, w)
  populated_lem down trim s user v (post ∷ rest) other rows c w = (inr refl, w)
  populated_lem up down s user v (post ∷ rest) other rows c w =
      (inr refl, pushed_lem s user v (post ∷ rest) other rows c w)
  populated_lem lost trim s user v (post ∷ rest) other rows c w =
      (inr refl, pushed_lem s user v (post ∷ rest) other rows c w)
  populated_lem up lost s user v (post ∷ rest) other rows c w =
      (inr refl, trimmed_lem s user v post rest other rows c w)
  populated_lem up up s user v (post ∷ rest) other rows c w =
      (inl refl, trimmed_lem s user v post rest other rows c w)

  miss_lem :
      (select : Connection) (c : ReadLinks) (s : FeedState p) (user v : Uuid) (o l : ℕ)
      (feed other : List FeedPost)
      → o + suc l < 2 ^ 31
      → Caches p s user []
      → feed ≡ p.db.feed_rows s.slave user
      → Shows p s v other
      → let r = try_miss select c s user (pos o) (pos (suc l)) in
        PageOrThrow (page o (suc l) feed) r.1 × Shows p r.0 v other
  unfolding try_miss load_feed_from_db
  miss_lem down c s user v o l feed other h e rows w = (inr refl, w)
  miss_lem lost c s user v o l feed other h e rows w = (inr refl, w)
  miss_lem up c s user v o l feed other h e rows w =
      let (ends, shown) =
        populated_lem c.rpush c.ltrim s user v (p.db.feed_rows s.slave user) other refl e w in
      (
        elim ends [
          | inl fine ↦ inl (rw (fine, rows) (slice_lem p (p.db.feed_rows s.slave user) o (suc l) h))
          | inr failed ↦ inr (rw failed refl)
        ],
        shown,
      )

  looked_up_lem :
      (exists : Connection) (c : ReadLinks) (s : FeedState p) (user v : Uuid) (o l : ℕ)
      (feed other : List FeedPost)
      → o + suc l < 2 ^ 31
      → Shows p s user feed
      → Shows p s v other
      → let r = try_looked_up exists c s user (pos o) (pos (suc l)) in
        PageOrThrow (page o (suc l) feed) r.1 × Shows p r.0 v other
  unfolding try_looked_up
  looked_up_lem down c s user v o l feed other h shown w = (inr refl, w)
  looked_up_lem lost c s user v o l feed other h shown w = (inr refl, w)
  looked_up_lem up c s user v o l feed other h (inl (post, rest, f, e)) w =
      let key = exists-cached p s user post rest (e ∙ ap (map (serialize_post p)) f) in
      rw key (hit_lem c.lrange s user o l feed h e, w)
  looked_up_lem up c s user v o l feed other h (inr (e, rows)) w =
      rw (exists-absent p s user e) (miss_lem c.select c s user v o l feed other h e rows w)

  -- Whichever commands are not answered, a request with an offset that is not negative, a positive limit
  -- and an end that fits an `int` either answers with the page of the feed that is shown to the user, or
  -- throws; and the feed that is shown to any user afterwards is the one shown before.
  pub try_get_feed-Shows :
      (c : ReadLinks) (s : FeedState p) (user v : Uuid) (o l : ℕ) (feed other : List FeedPost)
      → o + suc l < 2 ^ 31
      → Shows p s user feed
      → Shows p s v other
      → let r = try_get_feed c s user (pos o) (pos (suc l)) in
        ((r.1 ≡ ok (page o (suc l) feed)) ⊎ (r.1 ≡ throw database_error)) × Shows p r.0 v other
  unfolding try_get_feed
  try_get_feed-Shows c s user v o l feed other h shown w =
      looked_up_lem c.exists c s user v o l feed other h shown w

  abbrev pub all_answer : ReadLinks
  all_answer = record { exists = up; lrange = up; select = up; rpush = up; ltrim = up }

  populate-up :
      (s : FeedState p) (key : Text) (feed : List FeedPost)
      → try_populate up up s key feed ≡ (populate p s key feed, ok tt)
  unfolding try_populate populate
  populate-up s key [] = refl
  populate-up s key (post ∷ rest) = refl

  -- Where every command is answered this is `get_feed`.
  pub try_get_feed-all_answer :
      (s : FeedState p) (user : Uuid) (offset limit : ℤ)
      → try_get_feed all_answer s user offset limit ≡ get_feed p s user offset limit
  unfolding try_get_feed get_feed cached_page
  try_get_feed-all_answer s user offset limit =
      rw (populate-up s (make_key p user) (load_feed_from_db p s user)) refl
