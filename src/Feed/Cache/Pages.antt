-- ===== src/Feed/Cache/Pages.antt =====
-- What `get_feed` returns: the same page from the cache as from the database.

use otus_highload_architect.Prelude.{
  false, bytes_eq, Uuid, ℕ, suc, ◌+◌, ◌-◌, ◌^◌, ◌≤◌, ◌<◌, List, [], ◌∷◌, map, ◌≡◌, refl, ◌∙◌, arith,
  ok, length, take, drop, take_of_length-le, take-map, drop-map, length-drop, drop_of_length-le,
  take-nil, take-min-length, leb, leb→le, min, length-map, bytes_eq_refl, Bool-cases, inl, inr,
}
use otus_highload_architect.Prelude.Int.{ℤ, pos, negsuc, ◌+ℤ◌, ◌-ℤ◌}
use otus_highload_architect.Platform.Lists.{range}
use otus_highload_architect.Platform.Posts.{FeedPost}
use otus_highload_architect.Feed.Cache.{
  undefined, throw, FeedPlatform, FeedState, make_key, serialize_post, to_int, to_size, cached_page,
  populate, slice, get_feed,
}
use otus_highload_architect.Feed.Cache.Keys.{make_key-eq, traverse-serialize}

module _ {A : Type 0} where
  -- LRANGE between two indices that are not negative is a slice.
  pub range-pos : (a e : ℕ) (xs : List A) → range (pos a) (pos e) xs ≡ take (e + 1 - a) (drop a xs)
  unfolding range
  range-pos a e xs = refl

  -- LTRIM 0 999 keeps the first thousand items.
  pub range-trim : (xs : List A) → range (pos 0) (pos 999) xs ≡ take 1000 xs
  unfolding range
  range-trim xs = refl

  pub range-whole : (xs : List A) → length xs ≤ 1000 → range (pos 0) (pos 999) xs ≡ xs
  range-whole xs h = range-trim xs ∙ take_of_length-le 1000 xs h

  range-to_last : (x : A) (xs : List A) → range (pos 0) (negsuc 0) (x ∷ xs) ≡ x ∷ xs
  unfolding range
  range-to_last x xs = ground (arith, take_of_length-le (suc (length xs)) (x ∷ xs) (omega arith))

-- The page of a list that a request for `limit` items from `offset` means.
abbrev pub page : ℕ → ℕ → List FeedPost → List FeedPost
page offset limit feed = take limit (drop offset feed)

page_clipped :
    (feed : List FeedPost) (o l : ℕ)
    → o < length feed
    → take (min (o + l) (length feed) - o) (drop o feed) ≡ page o l feed
page_clipped feed o l h =
    let e : min (o + l) (length feed) - o ≡ min l (length (drop o feed)) =
      omega (arith, length-drop o feed) in
    rw e (take-min-length l (drop o feed))

pub int_end :
    (o l : ℕ)
    → o + suc l < 2 ^ 31
    → (to_int (pos o +ℤ pos (suc l)) ≡ ok (pos (o + suc l)))
      × (to_int (pos (o + suc l) -ℤ pos 1) ≡ ok (pos (o + l)))
unfolding to_int ◌+ℤ◌ ◌-ℤ◌
int_end o l h = ground arith

module _ (p : FeedPlatform) where
  -- The cache holds this feed for the user.
  abbrev pub Caches : FeedState p → Uuid → List FeedPost → Type 0
  Caches s user feed = p.redis.contents s.cache (make_key p user) ≡ map (serialize_post p) feed

  pub exists-cached :
      (s : FeedState p) (user : Uuid) (post : FeedPost) (rest : List FeedPost)
      → Caches s user (post ∷ rest)
      → p.redis.exists s.cache (make_key p user) ≡ 1
  exists-cached s user post rest c = rw (p.redis.exists_lem, c)

  pub exists-absent :
      (s : FeedState p) (user : Uuid)
      → Caches s user []
      → p.redis.exists s.cache (make_key p user) ≡ 0
  exists-absent s user c = rw (p.redis.exists_lem, c)

  pub page_of_range :
      (o l : ℕ) (feed : List FeedPost)
      → range (pos o) (pos (o + l)) (map (serialize_post p) feed)
        ≡ map (serialize_post p) (page o (suc l) feed)
  page_of_range o l feed =
      let e : o + l + 1 - o ≡ suc l = omega arith in
      rw (range-pos, e, drop-map (serialize_post p), take-map (serialize_post p))

  pub cached_page_lem :
      (s : FeedState p) (user : Uuid) (o l : ℕ) (feed : List FeedPost)
      → o + suc l < 2 ^ 31
      → Caches s user feed
      → cached_page p s (make_key p user) (pos o) (pos (suc l)) ≡ ok (page o (suc l) feed)
  unfolding cached_page
  cached_page_lem s user o l feed h c = rw (
    (int_end o l h).0,
    (int_end o l h).1,
    p.redis.lrange_lem,
    c,
    page_of_range,
    traverse-serialize p,
  )

  -- A hit returns the requested page of the cached feed, and changes nothing.
  pub get_feed-hit :
      (s : FeedState p) (user : Uuid) (o l : ℕ) (post : FeedPost) (rest : List FeedPost)
      → o + suc l < 2 ^ 31
      → Caches s user (post ∷ rest)
      → get_feed p s user (pos o) (pos (suc l)) ≡ (s, ok (page o (suc l) (post ∷ rest)))
  unfolding get_feed
  get_feed-hit s user o l post rest h c =
      rw (exists-cached s user post rest c, cached_page_lem s user o l (post ∷ rest) h c)

  pub slice_lem :
      (feed : List FeedPost) (o l : ℕ)
      → o + l < 2 ^ 31
      → slice p feed (pos o) (pos l) ≡ ok (page o l feed)
  unfolding slice to_size
  slice_lem feed o l h = elim (Bool-cases (leb (length feed) o)) [
    | inl past ↦ rw (past, drop_of_length-le o feed (leb→le _ _ past), take-nil l)
    | inr inside ↦ ground (arith, page_clipped feed o l)
  ]

  pub populate_lem :
      (s : FeedState p) (user : Uuid) (feed : List FeedPost)
      → length feed ≤ 1000
      → Caches s user []
      → Caches (populate p s (make_key p user) feed) user feed
  unfolding populate
  populate_lem s user [] h c = c
  populate_lem s user (post ∷ rest) h c =
      rw (p.redis.contents-ltrim, bytes_eq_refl, p.redis.contents-rpush, bytes_eq_refl, c)
        (range-whole (map (serialize_post p) (post ∷ rest))
          (omega (arith, length-map (serialize_post p) rest)))

  -- A miss returns the requested page of the rows in the database, and caches all of them.
  pub get_feed-miss :
      (s : FeedState p) (user : Uuid) (o l : ℕ)
      → o + l < 2 ^ 31
      → Caches s user []
      → ((get_feed p s user (pos o) (pos l)).1 ≡ ok (page o l (p.db.feed_rows s.slave user)))
        × Caches (get_feed p s user (pos o) (pos l)).0 user (p.db.feed_rows s.slave user)
  unfolding get_feed
  get_feed-miss s user o l h c = rw (exists-absent s user c) (
    slice_lem (p.db.feed_rows s.slave user) o l h,
    populate_lem s user (p.db.feed_rows s.slave user) (p.db.feed_rows-le s.slave user) c,
  )

  pub populate-other :
      (s : FeedState p) (user other : Uuid) (feed : List FeedPost)
      → bytes_eq user other ≡ false
      → p.redis.contents (populate p s (make_key p user) feed).cache (make_key p other)
        ≡ p.redis.contents s.cache (make_key p other)
  unfolding populate
  populate-other s user other [] h = refl
  populate-other s user other (post ∷ rest) h =
      rw (p.redis.contents-ltrim, make_key-eq, h, p.redis.contents-rpush, make_key-eq, h)

  -- Whatever page is asked for, a miss caches the rows and a hit keeps the state.
  pub get_feed-fills :
      (s : FeedState p) (user : Uuid) (offset limit : ℤ)
      → Caches s user []
      → Caches (get_feed p s user offset limit).0 user (p.db.feed_rows s.slave user)
  unfolding get_feed
  get_feed-fills s user offset limit c =
      rw (exists-absent s user c)
        (populate_lem s user (p.db.feed_rows s.slave user) (p.db.feed_rows-le s.slave user) c)

  pub get_feed-keeps :
      (s : FeedState p) (user : Uuid) (offset limit : ℤ) (post : FeedPost) (rest : List FeedPost)
      → Caches s user (post ∷ rest)
      → (get_feed p s user offset limit).0 ≡ s
  unfolding get_feed
  get_feed-keeps s user offset limit post rest c = rw (exists-cached s user post rest c)

  -- A request for one feed leaves the cached feed of every other user alone.
  pub get_feed-other :
      (s : FeedState p) (user other : Uuid) (offset limit : ℤ)
      → bytes_eq user other ≡ false
      → p.redis.contents (get_feed p s user offset limit).0.cache (make_key p other)
        ≡ p.redis.contents s.cache (make_key p other)
  unfolding get_feed
  get_feed-other s user other offset limit h =
      ground (arith, populate-other s user other (p.db.feed_rows s.slave user) h)

  full_hit :
      (s : FeedState p) (user : Uuid) (post : FeedPost) (rest : List FeedPost)
      → Caches s user (post ∷ rest)
      → cached_page p s (make_key p user) (pos 0) (pos 0) ≡ ok (post ∷ rest)
  unfolding cached_page to_int ◌+ℤ◌ ◌-ℤ◌
  full_hit s user post rest c =
      rw (p.redis.lrange_lem, c, range-to_last, traverse-serialize p (post ∷ rest))

  -- With offset zero and limit zero a hit asks for the items up to the index `-1`, which means the last
  -- one, so the whole feed comes back; a miss gives the empty page.
  pub get_feed-zero_limit :
      (s t : FeedState p) (user : Uuid) (post : FeedPost) (rest : List FeedPost)
      → Caches s user (post ∷ rest)
      → Caches t user []
      → ((get_feed p s user (pos 0) (pos 0)).1 ≡ ok (post ∷ rest))
        × ((get_feed p t user (pos 0) (pos 0)).1 ≡ ok [])
  unfolding get_feed
  get_feed-zero_limit s t user post rest c d = (
    rw (exists-cached s user post rest c) (full_hit s user post rest c),
    (get_feed-miss t user 0 0 (omega arith) d).0,
  )

  -- A miss with a negative limit that ends the slice before it begins is undefined.
  pub get_feed-negative_limit :
      (s : FeedState p) (user : Uuid) (o k : ℕ)
      → Caches s user []
      → k < o
      → o < length (p.db.feed_rows s.slave user)
      → (get_feed p s user (pos o) (negsuc k)).1 ≡ throw undefined
  unfolding get_feed slice to_size
  get_feed-negative_limit s user o k c below inside =
      rw (exists-absent s user c) (ground (arith, p.db.feed_rows-le s.slave user))
