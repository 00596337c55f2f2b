-- ===== src/Feed/Cache/Refinement.antt =====
-- The contract of the feed: what the service shows to each user, and that reading a page is an
-- implementation of it which nobody can tell from reading the database.
use otus_highload_architect.Prelude.{
  false, ℕ, suc, ◌+◌, ◌^◌, ◌<◌, ◌≡◌, refl, ap, ◌∙◌, ◌⊎◌, inl, inr, List, [], ◌∷◌, map, arith,
  Bool-cases, Text, Uuid, bytes_eq, bytes_eq_iff, ok,
}
use mathlib.Core.Path.{subst}
use otus_highload_architect.Prelude.Int.{ℤ, pos}
use otus_highload_architect.Platform.Posts.{FeedPost}
use otus_highload_architect.Feed.Cache.{
  FeedPlatform, FeedState, make_key, serialize_post, get_feed, load_feed_from_db, populate,
}
use otus_highload_architect.Feed.Cache.Pages.{
  Caches, page, get_feed-hit, get_feed-miss, get_feed-other,
}

module _ (p : FeedPlatform) where
  -- The feed that the service shows to a user: the cached one, or the rows of the replica where
  -- nothing is cached.
  abbrev pub Shows : FeedState p → Uuid → List FeedPost → Type 0
  Shows s user feed =
      ((post : FeedPost) × (rest : List FeedPost) × (feed ≡ post ∷ rest) × Caches p s user feed)
      ⊎ (Caches p s user [] × (feed ≡ p.db.feed_rows s.slave user))

  pub Shows-Caches :
      (s : FeedState p) (user : Uuid) (feed : List FeedPost)
      → Caches p s user feed
      → feed ≡ p.db.feed_rows s.slave user
      → Shows s user feed
  Shows-Caches s user [] c e = inr (c, e)
  Shows-Caches s user (post ∷ rest) c e = inl (post, rest, refl, c)

  populate-hosts :
      (s : FeedState p) (key : Text) (feed : List FeedPost)
      → ((populate p s key feed).slave ≡ s.slave) × ((populate p s key feed).master ≡ s.master)
  unfolding populate
  populate-hosts s key [] = (refl, refl)
  populate-hosts s key (post ∷ rest) = (refl, refl)

  pub get_feed-slave :
      (s : FeedState p) (user : Uuid) (offset limit : ℤ)
      → (get_feed p s user offset limit).0.slave ≡ s.slave
  unfolding get_feed
  get_feed-slave s user offset limit =
      ground (arith, populate-hosts s (make_key p user) (load_feed_from_db p s user))

  pub get_feed-master :
      (s : FeedState p) (user : Uuid) (offset limit : ℤ)
      → (get_feed p s user offset limit).0.master ≡ s.master
  unfolding get_feed
  get_feed-master s user offset limit =
      ground (arith, populate-hosts s (make_key p user) (load_feed_from_db p s user))

  Shows-transfer :
      (s t : FeedState p) (user : Uuid) (feed : List FeedPost)
      → p.redis.contents t.cache (make_key p user) ≡ p.redis.contents s.cache (make_key p user)
      → t.slave ≡ s.slave
      → Shows s user feed
      → Shows t user feed
  Shows-transfer s t user feed c e (inl (post, rest, f, k)) = inl (post, rest, f, c ∙ k)
  Shows-transfer s t user feed c e (inr (k, f)) = inr (c ∙ k, rw e f)

  -- Nothing cached, and the rows of the replica cached, show one feed.
  Shows-filled :
      (s t : FeedState p) (user : Uuid) (feed : List FeedPost)
      → Caches p s user []
      → Caches p t user (p.db.feed_rows s.slave user)
      → t.slave ≡ s.slave
      → Shows s user feed
      → Shows t user feed
  Shows-filled s t user feed c d e (inl (post, rest, f, k)) = cc
  Shows-filled s t user feed c d e (inr (k, f)) =
      rw f (Shows-Caches t user (p.db.feed_rows s.slave user) d (rw e))

  -- Where nothing was cached for a user and the rows of the replica are now, and no other feed has
  -- changed, everybody is shown the same feed as before.
  pub filled-Shows :
      (s t : FeedState p) (user v : Uuid) (feed : List FeedPost)
      → Caches p s user []
      → Caches p t user (p.db.feed_rows s.slave user)
      → t.slave ≡ s.slave
      → (bytes_eq user v ≡ false
          → p.redis.contents t.cache (make_key p v) ≡ p.redis.contents s.cache (make_key p v))
      → Shows s v feed
      → Shows t v feed
  filled-Shows s t user v feed c d e others w = elim (Bool-cases (bytes_eq user v)) [
    | inl same_bytes ↦
        let same : user ≡ v = (bytes_eq_iff user v).0 same_bytes in
        Shows-filled s t v feed (rw same at c)
          (subst (λ x. Caches p t x (p.db.feed_rows s.slave x)) same d) e w
    | inr apart ↦ Shows-transfer s t v feed (others apart) e w
  ]

  miss-Shows :
      (s : FeedState p) (user v : Uuid) (o l : ℕ) (feed : List FeedPost)
      → o + l < 2 ^ 31
      → Caches p s user []
      → Shows s v feed
      → Shows (get_feed p s user (pos o) (pos l)).0 v feed
  miss-Shows s user v o l feed h c w =
      filled-Shows s (get_feed p s user (pos o) (pos l)).0 user v feed c
        (get_feed-miss p s user o l h c).1 (get_feed-slave s user (pos o) (pos l))
        (get_feed-other p s user v (pos o) (pos l)) w

  -- `get_feed` returns the requested page of the feed that the service shows to the user, and changes
  -- what it shows to nobody, whether the cache was hit or not.
  pub get_feed-refines :
      (s : FeedState p) (user : Uuid) (o l : ℕ) (feed : List FeedPost)
      → o + suc l < 2 ^ 31
      → Shows s user feed
      → ((get_feed p s user (pos o) (pos (suc l))).1 ≡ ok (page o (suc l) feed))
        × ((v : Uuid) (other : List FeedPost)
            → Shows s v other
            → Shows (get_feed p s user (pos o) (pos (suc l))).0 v other)
  get_feed-refines s user o l feed h (inl (post, rest, e, c)) =
      let hit = get_feed-hit p s user o l post rest h (c ∙ ap (map (serialize_post p)) e) in
      rw (hit, e) (refl, λ v other w. w)
  get_feed-refines s user o l feed h (inr (c, e)) = rw e (
    (get_feed-miss p s user o (suc l) h c).0,
    λ v other w. miss-Shows s user v o (suc l) other h c w,
  )

  -- The cache refines the plain view of one feed per user: a request with an offset that is not
  -- negative, a positive limit and an end that fits an `int` answers with that page of the feed
  -- shown to the user, cached or not, and the feed shown to any user afterwards is the one shown
  -- before.
  pub get_feed-Shows :
      (s : FeedState p) (user v : Uuid) (o l : ℕ) (feed other : List FeedPost)
      → o + suc l < 2 ^ 31
      → Shows s user feed
      → Shows s v other
      → ((get_feed p s user (pos o) (pos (suc l))).1 ≡ ok (page o (suc l) feed))
        × Shows (get_feed p s user (pos o) (pos (suc l))).0 v other
  get_feed-Shows s user v o l feed other h shown kept =
      let both = get_feed-refines s user o l feed h shown in (both.0, both.1 v other kept)
