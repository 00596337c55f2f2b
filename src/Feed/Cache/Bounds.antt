-- ===== src/Feed/Cache/Bounds.antt =====
-- The invariant of the feed cache, over any sequence of operations: every cached list is a feed of at
-- most `max_feed_size` entries that can be read back.
use otus_highload_architect.Prelude.{
  ℕ, suc, ◌+◌, ◌^◌, ◌≤◌, ◌<◌, ◌≡◌, refl, ◌∙◌, inl, inr, Bool, true, false, List, [], ◌∷◌, arith,
  if◌then◌else◌, Bool-cases, length, drop, length-take, Text, Uuid, bytes_eq, bytes_eq_iff,
  mem_bytes, ok,
}
use mathlib.Core.Path.{subst}
use otus_highload_architect.Prelude.Int.{ℤ, pos}
use otus_highload_architect.Platform.Posts.{FeedPost}
use otus_highload_architect.Feed.Cache.{
  FeedPlatform, FeedState, make_key, get_feed, on_post_created, invalidate_feeds_of_followers_of,
  invalidate_feed, max_feed_size,
}
use otus_highload_architect.Feed.Cache.Pages.{
  Caches, page, get_feed-fills, get_feed-keeps, get_feed-other,
}
use otus_highload_architect.Feed.Cache.Fanout.{
  bump, on_post_created-Caches, invalidate_feeds-contents, invalidate_feed-contents,
}
use otus_highload_architect.Feed.Cache.Refinement.{Shows, get_feed-refines}

module _ (p : FeedPlatform) where
  -- A user's cached list is the serialised form of a feed of bounded length.
  abbrev pub IsFeed : FeedState p → Uuid → Type 0
  IsFeed s user = (feed : List FeedPost) × Caches p s user feed × (length feed ≤ max_feed_size)

  pub record IsWellFormed (s : FeedState p) : Type 0 where
    pub feed_of : (user : Uuid) → IsFeed s user

  -- What can happen to the cache: a reader, an event of a new post, the two invalidations, and a
  -- change of either host of the database.
  pub data Operation : Type 0 where
    reads : Uuid → ℤ → ℤ → Operation
    created : Uuid → Uuid → Text → Operation
    invalidates_followers_of : Uuid → Operation
    invalidates : Uuid → Operation
    writes : p.db.Db → Operation
    replicates : p.db.Db → Operation

  unfoldable pub perform : FeedState p → Operation → FeedState p
  perform s (reads user offset limit) = (get_feed p s user offset limit).0
  perform s (created author post_id text) = on_post_created p s author post_id text
  perform s (invalidates_followers_of author) = invalidate_feeds_of_followers_of p s author
  perform s (invalidates user) = invalidate_feed p s user
  perform s (writes db) = record s { master = db }
  perform s (replicates db) = record s { slave = db }

  unfoldable pub run : FeedState p → List Operation → FeedState p
  run s [] = s
  run s (o ∷ os) = run (perform s o) os

  length-bump :
      (post : FeedPost) (feed : List FeedPost) → length feed ≤ 1000 → length (bump post feed) ≤ 1000
  length-bump post [] h = h
  length-bump post (x ∷ xs) h = omega (arith, length-take 1000 (post ∷ x ∷ xs))

  IsFeed-of_contents :
      (s t : FeedState p) (v : Uuid)
      → p.redis.contents t.cache (make_key p v) ≡ p.redis.contents s.cache (make_key p v)
      → IsFeed s v
      → IsFeed t v
  IsFeed-of_contents s t v e (feed, c, h) = (feed, e ∙ c, h)

  IsFeed-emptied :
      (s t : FeedState p) (v : Uuid) (b : Bool)
      → p.redis.contents t.cache (make_key p v)
        ≡ (if b then [] else p.redis.contents s.cache (make_key p v))
      → IsFeed s v
      → IsFeed t v
  IsFeed-emptied s t v true e w = ([], e, omega arith)
  IsFeed-emptied s t v false e w = IsFeed-of_contents s t v e w

  read-IsFeed :
      (s : FeedState p) (user v : Uuid) (offset limit : ℤ)
      → IsFeed s user
      → IsFeed s v
      → IsFeed (get_feed p s user offset limit).0 v
  read-IsFeed s user v offset limit (post ∷ rest, c, h) w =
      rw (get_feed-keeps p s user offset limit post rest c) w
  read-IsFeed s user v offset limit ([], c, h) w = elim (Bool-cases (bytes_eq user v)) [
    | inl e ↦
        subst (IsFeed (get_feed p s user offset limit).0) ((bytes_eq_iff user v).0 e)
          (_, get_feed-fills p s user offset limit c, p.db.feed_rows-le s.slave user)
    | inr e ↦
        IsFeed-of_contents s (get_feed p s user offset limit).0 v
          (get_feed-other p s user v offset limit e) w
  ]

  pub bumped-le :
      (b : Bool) (post : FeedPost) (feed : List FeedPost)
      → length feed ≤ 1000
      → length (if b then bump post feed else feed) ≤ 1000
  bumped-le true post feed h = length-bump post feed h
  bumped-le false post feed h = h

  -- Every operation keeps every cached list a feed of at most `max_feed_size` entries, where it
  -- was one before.
  pub perform-IsWellFormed :
      (s : FeedState p) (o : Operation) → IsWellFormed s → IsWellFormed (perform s o)
  unfolding perform
  perform-IsWellFormed s (reads user offset limit) w = record {
    feed_of = λ v. read-IsFeed s user v offset limit (w.feed_of user) (w.feed_of v);
  }
  perform-IsWellFormed s (created author post_id text) w = record {
    feed_of = λ v.
        let (feed, c, h) = w.feed_of v in
        (
          _,
          on_post_created-Caches p s author post_id text v feed c,
          bumped-le (mem_bytes v (p.db.followers s.slave author)) _ feed h,
        );
  }
  perform-IsWellFormed s (invalidates_followers_of author) w = record {
    feed_of = λ v.
        IsFeed-emptied s (invalidate_feeds_of_followers_of p s author) v _
          (invalidate_feeds-contents p s author v) (w.feed_of v);
  }
  perform-IsWellFormed s (invalidates user) w = record {
    feed_of = λ v.
        IsFeed-emptied s (invalidate_feed p s user) v _ (invalidate_feed-contents p s user v)
          (w.feed_of v);
  }
  perform-IsWellFormed s (writes db) w = record { feed_of = w.feed_of }
  perform-IsWellFormed s (replicates db) w = record { feed_of = w.feed_of }

  pub run-IsWellFormed :
      (s : FeedState p) (os : List Operation) → IsWellFormed s → IsWellFormed (run s os)
  unfolding run
  run-IsWellFormed s [] w = w
  run-IsWellFormed s (o ∷ os) w = run-IsWellFormed (perform s o) os (perform-IsWellFormed s o w)

  shown :
      (s : FeedState p) (user : Uuid) → IsFeed s user → (feed : List FeedPost) × Shows p s user feed
  shown s user ([], c, h) = (p.db.feed_rows s.slave user, inr (c, refl))
  shown s user (post ∷ rest, c, h) = (post ∷ rest, inl (post, rest, refl, c))

  -- After any operations on a well-formed cache, a request for a page of at least one post whose end
  -- fits an `int` raises no exception and returns at most as many posts as it asked for.
  pub get_feed-total :
      (s : FeedState p) (os : List Operation) (user : Uuid) (o l : ℕ)
      → IsWellFormed s
      → o + suc l < 2 ^ 31
      → (posts : List FeedPost) × ((get_feed p (run s os) user (pos o) (pos (suc l))).1 ≡ ok posts)
        × (length posts ≤ suc l)
  get_feed-total s os user o l w h =
      let (feed, v) = shown (run s os) user ((run-IsWellFormed s os w).feed_of user) in
      (
        page o (suc l) feed,
        (get_feed-refines p (run s os) user o l feed h v).0,
        omega (arith, length-take (suc l) (drop o feed)),
      )
