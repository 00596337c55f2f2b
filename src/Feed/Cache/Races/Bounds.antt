-- ===== src/Feed/Cache/Races/Bounds.antt =====
-- What is cached for a user while two requests for the feed, the replica, the consumer and the handlers
-- that drop feeds take turns.
use otus_highload_architect.Prelude.{
  ◌∙◌, if◌then◌else◌, ◌≤◌, ◌≡◌, refl, inl, inr, Bool, true, false, List, [], ◌∷◌, ◌++◌, arith, ltb,
  Bool-cases, length, take, length-take, Uuid, mem_bytes,
}
use otus_highload_architect.Prelude.Int.{ℤ}
use otus_highload_architect.Platform.Posts.{FeedPost}
use otus_highload_architect.Feed.Cache.{
  invalidate_feed, invalidate_feeds_of_followers_of, FeedPlatform, FeedState, make_key,
  max_feed_size,
}
use otus_highload_architect.Feed.Cache.Pages.{Caches}
use otus_highload_architect.Feed.Cache.Bounds.{bumped-le}
use otus_highload_architect.Feed.Cache.Fanout.{
  on_post_created-Caches, invalidate_feeds-contents, invalidate_feed-contents,
}
use otus_highload_architect.Feed.Cache.Races.{
  friends_changed, post_changed, Reader, asking, hit, missed, loaded, pushed, finished, read_step,
  Race, Turn, of_first, of_second, replica, consumer, turn, turns,
}
use otus_highload_architect.Feed.Cache.Races.Steps.{contents-push, contents-trim}

-- Between RPUSH and LTRIM.
unfoldable pub is_filling : Reader → Bool
is_filling asking = false
is_filling hit = false
is_filling missed = false
is_filling (loaded feed) = false
is_filling (pushed feed) = true
is_filling (finished page) = false

module _ (p : FeedPlatform) (user : Uuid) where
  -- The user's list can be read back, and is no longer than `max_feed_size` unless one of the two readers is
  -- between RPUSH and LTRIM.
  abbrev pub IsKept : FeedState p → Reader → Reader → Type 0
  IsKept s x y =
      (feed : List FeedPost) × Caches p s user feed
      × (is_filling x ≡ false → is_filling y ≡ false → length feed ≤ max_feed_size)

  IsKept-swap : (s : FeedState p) (x y : Reader) → IsKept s x y → IsKept s y x
  IsKept-swap s x y (feed, c, h) = (feed, c, λ j i. h i j)

  IsKept-emptied :
      (s t : FeedState p) (x y : Reader) (b : Bool)
      → p.redis.contents t.cache (make_key p user)
        ≡ (if b then [] else p.redis.contents s.cache (make_key p user))
      → IsKept s x y
      → IsKept t x y
  IsKept-emptied s t x y true e k = ([], e, λ i j. omega arith)
  IsKept-emptied s t x y false e (feed, c, h) = (feed, e ∙ c, h)

module _ (p : FeedPlatform) (user : Uuid) (offset limit : ℤ) where
  step-IsKept :
      (s : FeedState p) (x y : Reader)
      → IsKept p user s x y
      → let next = read_step p s user offset limit x in IsKept p user next.0 next.1 y
  unfolding read_step is_filling
  step-IsKept s asking y (feed, c, h) =
      elim (Bool-cases (ltb 0 (p.redis.exists s.cache (make_key p user)))) [
        | inl e ↦ rw e (feed, c, λ i. h refl)
        | inr e ↦ rw e (feed, c, λ i. h refl)
      ]
  step-IsKept s hit y (feed, c, h) = (feed, c, λ i. h refl)
  step-IsKept s missed y (feed, c, h) = (feed, c, λ i. h refl)
  step-IsKept s (loaded []) y (feed, c, h) = (feed, c, λ i. h refl)
  step-IsKept s (loaded (post ∷ rest)) y (feed, c, h) = (
    feed ++ post ∷ rest,
    contents-push p user s feed (post ∷ rest) c,
    λ i j. absurd (ground (arith, i)),
  )
  step-IsKept s (pushed rows) y (feed, c, h) =
      (take 1000 feed, contents-trim p user s feed c, λ i j. omega (arith, length-take 1000 feed))
  step-IsKept s (finished page) y (feed, c, h) = (feed, c, h)

  pub turn-IsKept :
      (r : Race p) (t : Turn p)
      → IsKept p user r.feed r.first r.second
      → let next = turn p user offset limit r t in IsKept p user next.feed next.first next.second
  unfolding turn
  turn-IsKept r of_first k = step-IsKept r.feed r.first r.second k
  turn-IsKept r of_second k =
      let next = read_step p r.feed user offset limit r.second in
      IsKept-swap p user next.0 next.1 r.first
        (step-IsKept r.feed r.second r.first (IsKept-swap p user r.feed r.first r.second k))
  turn-IsKept r (replica db) k = k
  turn-IsKept r (consumer author post_id text) (feed, c, h) = (
    _,
    on_post_created-Caches p r.feed author post_id text user feed c,
    λ i j. bumped-le p (mem_bytes user (p.db.followers r.feed.slave author)) _ feed (h i j),
  )
  turn-IsKept r (post_changed author) k =
      IsKept-emptied p user r.feed (invalidate_feeds_of_followers_of p r.feed author) r.first
        r.second _ (invalidate_feeds-contents p r.feed author user) k
  turn-IsKept r (friends_changed v) k =
      IsKept-emptied p user r.feed (invalidate_feed p r.feed v) r.first r.second _
        (invalidate_feed-contents p r.feed v user) k

  -- Whatever the order of the turns: where the user's cached list could be read back before, and was within
  -- `max_feed_size` unless a request was between its RPUSH and its LTRIM, it is so afterwards.
  pub turns-IsKept :
      (r : Race p) (ts : List (Turn p))
      → IsKept p user r.feed r.first r.second
      → let t = turns p user offset limit r ts in IsKept p user t.feed t.first t.second
  unfolding turns
  turns-IsKept r [] k = k
  turns-IsKept r (t ∷ ts) k = turns-IsKept (turn p user offset limit r t) ts (turn-IsKept r t k)
