-- ===== src/Feed/Cache/Fanout.antt =====
-- What a new post and an invalidation do to the cached feeds, follower by follower.
use otus_highload_architect.Prelude.{
  ℕ, ◌+◌, ◌^◌, ◌<◌, ◌≡◌, refl, ◌∙◌, inl, inr, Bool, true, false, List, [], ◌∷◌, map, foldl, arith,
  ltb, if◌then◌else◌, Bool-cases, is_empty, take, take-map, Text, Uuid, bytes_eq, bytes_eq_iff,
  bytes_eq_refl, mem_bytes, IsDistinct,
}
use mathlib.Core.Path.{subst}
use otus_highload_architect.Prelude.Int.{pos}
use otus_highload_architect.Platform.Posts.{FeedPost}
use otus_highload_architect.Feed.Cache.{
  FeedPlatform, FeedState, make_key, serialize_post, get_feed, push_to_follower, on_post_created,
  invalidate_feeds_of_followers_of, invalidate_feed, max_feed_size,
}
use otus_highload_architect.Feed.Cache.Keys.{make_key-eq}
use otus_highload_architect.Feed.Cache.Refinement.{get_feed-slave}
use otus_highload_architect.Feed.Cache.Pages.{Caches, range-trim, get_feed-miss}

-- A cached feed with one more entry in front, cut to the largest size; no feed stays no feed.
abbrev pub bump {ℓ} : {A : Type ℓ} → A → List A → List A
bump x [] = []
bump x (y ∷ ys) = take max_feed_size (x ∷ y ∷ ys)

bump-map {ℓ κ} :
    {A : Type ℓ} {B : Type κ} (f : A → B) (x : A) (xs : List A)
    → bump (f x) (map f xs) ≡ map f (bump x xs)
bump-map f x [] = refl
bump-map f x (y ∷ ys) = take-map f max_feed_size (x ∷ y ∷ ys)

module _ (p : FeedPlatform) where
  pub mem_bytes-make_key :
      (v : Uuid) (fs : List Uuid) → mem_bytes (make_key p v) (map (make_key p) fs) ≡ mem_bytes v fs
  unfolding mem_bytes
  mem_bytes-make_key v [] = refl
  mem_bytes-make_key v (f ∷ fs) = rw (make_key-eq p f v, mem_bytes-make_key v fs)

  push_same :
      (d : p.json.Document) (cache : p.redis.Store) (f : Uuid) (xs : List p.json.Document)
      → p.redis.contents cache (make_key p f) ≡ xs
      → p.redis.contents (push_to_follower p d cache f) (make_key p f) ≡ bump d xs
  unfolding push_to_follower
  push_same d cache f [] e = rw (p.redis.exists_lem, e) e
  push_same d cache f (y ∷ ys) e =
      rw (p.redis.exists_lem, e)
        (rw (p.redis.contents-ltrim, bytes_eq_refl, p.redis.contents-lpush, bytes_eq_refl, e)
          (range-trim _))

  push_other :
      (d : p.json.Document) (cache : p.redis.Store) (f v : Uuid)
      → bytes_eq f v ≡ false
      → p.redis.contents (push_to_follower p d cache f) (make_key p v)
        ≡ p.redis.contents cache (make_key p v)
  unfolding push_to_follower
  push_other d cache f v h = elim (Bool-cases (ltb 0 (p.redis.exists cache (make_key p f)))) [
    | inl e ↦ rw (
      e,
      p.redis.contents-ltrim,
      make_key-eq p f v,
      h,
      p.redis.contents-lpush,
      make_key-eq p f v,
      h,
    )
    | inr e ↦ rw e
  ]

  pub push_lem :
      (d : p.json.Document) (cache : p.redis.Store) (f v : Uuid)
      → p.redis.contents (push_to_follower p d cache f) (make_key p v) ≡ (
          if bytes_eq f v
          then bump d (p.redis.contents cache (make_key p v))
          else p.redis.contents cache (make_key p v))
  push_lem d cache f v = elim (Bool-cases (bytes_eq f v)) [
    | inl e ↦ rw e (
        subst
          (λ x.
            p.redis.contents (push_to_follower p d cache f) (make_key p x)
            ≡ bump d (p.redis.contents cache (make_key p x)))
          ((bytes_eq_iff f v).0 e) (push_same d cache f _ refl))
    | inr e ↦ rw e (push_other d cache f v e)
  ]

  pub fan_out_lem :
      (d : p.json.Document) (cache : p.redis.Store) (fs : List Uuid) (v : Uuid)
      → IsDistinct fs
      → p.redis.contents (foldl (push_to_follower p d) cache fs) (make_key p v) ≡ (
          if mem_bytes v fs
          then bump d (p.redis.contents cache (make_key p v))
          else p.redis.contents cache (make_key p v))
  unfolding mem_bytes
  fan_out_lem d cache [] v h = refl
  fan_out_lem d cache (f ∷ fs) v h = ground (
    arith,
    fan_out_lem d (push_to_follower p d cache f) fs v h.1,
    push_lem d cache f v,
    bytes_eq_iff f v,
  )

  bump_if :
      (b : Bool) (post : FeedPost) (feed : List FeedPost)
      → (if b
          then bump (serialize_post p post) (map (serialize_post p) feed)
          else map (serialize_post p) feed)
        ≡ map (serialize_post p) (if b then bump post feed else feed)
  bump_if true post feed = bump-map (serialize_post p) post feed
  bump_if false post feed = refl

  -- A new post goes to the front of the cached feed of every follower of its author, cut to
  -- `max_feed_size` entries; a follower with nothing cached and every other user keep what they had.
  pub on_post_created-Caches :
      (s : FeedState p) (author post_id : Uuid) (text : Text) (v : Uuid) (feed : List FeedPost)
      → Caches p s v feed
      → Caches p (on_post_created p s author post_id text) v (
          if mem_bytes v (p.db.followers s.slave author)
          then bump (record { post_id = post_id; text = text; author_user_id = author }) feed
          else feed)
  unfolding on_post_created
  on_post_created-Caches s author post_id text v feed c =
      fan_out_lem _ s.cache (p.db.followers s.slave author) v
        (p.db.followers-IsDistinct s.slave author)
      ∙ rw c (bump_if (mem_bytes v (p.db.followers s.slave author)) _ feed)

  invalidated :
      (s : FeedState p) (fs : List Uuid) (v : Uuid)
      → p.redis.contents
          (if is_empty fs then s.cache else p.redis.del s.cache (map (make_key p) fs))
          (make_key p v)
        ≡ (if mem_bytes v fs then [] else p.redis.contents s.cache (make_key p v))
  unfolding mem_bytes
  invalidated s [] v = refl
  invalidated s (f ∷ fs) v = rw (p.redis.contents-del, mem_bytes-make_key v (f ∷ fs))

  -- After an update or a deletion nothing is cached for the followers of the author, and what is
  -- cached for everybody else is as before.
  pub invalidate_feeds-contents :
      (s : FeedState p) (author v : Uuid)
      → p.redis.contents (invalidate_feeds_of_followers_of p s author).cache (make_key p v) ≡ (
          if mem_bytes v (p.db.followers s.slave author)
          then []
          else p.redis.contents s.cache (make_key p v))
  unfolding invalidate_feeds_of_followers_of
  invalidate_feeds-contents s author v =
      ground (arith, invalidated s (p.db.followers s.slave author) v)

  pub invalidate_feed-contents :
      (s : FeedState p) (user v : Uuid)
      → p.redis.contents (invalidate_feed p s user).cache (make_key p v)
        ≡ (if bytes_eq user v then [] else p.redis.contents s.cache (make_key p v))
  unfolding invalidate_feed mem_bytes
  invalidate_feed-contents s user v = rw (p.redis.contents-del, make_key-eq p user v) (ground arith)

  -- Where nothing is cached for a follower and the replica already lists the post first, a read
  -- before the event of the post is handled makes the cached feed hold the post twice once it is
  -- handled.
  pub on_post_created-twice :
      (s : FeedState p) (post : FeedPost) (rest : List FeedPost) (v : Uuid) (o l : ℕ)
      → p.db.feed_rows s.slave v ≡ post ∷ rest
      → mem_bytes v (p.db.followers s.slave post.author_user_id) ≡ true
      → Caches p s v []
      → o + l < 2 ^ 31
      → Caches p
          (on_post_created p
            (get_feed p s v (pos o) (pos l)).0
            post.author_user_id
            post.post_id
            post.text)
          v
          (post ∷ post ∷ take 998 rest)
  on_post_created-twice s post rest v o l rows follows c h =
      let t : FeedState p = (get_feed p s v (pos o) (pos l)).0 in
      let loaded = get_feed-miss p s v o l h c in
      let pushed =
        on_post_created-Caches t post.author_user_id post.post_id post.text v
          (p.db.feed_rows s.slave v) loaded.1 in
      rw (get_feed-slave p s v (pos o) (pos l), follows, rows) at pushed
