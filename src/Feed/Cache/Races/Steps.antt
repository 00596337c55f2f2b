-- ===== src/Feed/Cache/Races/Steps.antt =====
-- The commands of a request one by one: what a turn of either request makes of the race.
use otus_highload_architect.Prelude.{
  ◌-◌, ◌≡◌, refl, sym, ap, ◌∙◌, List, [], ◌∷◌, ◌++◌, map, take, take-map, Uuid, bytes_eq_refl,
}
use otus_highload_architect.Prelude.Int.{ℤ, pos}
use otus_highload_architect.Platform.Posts.{FeedPost}
use otus_highload_architect.Feed.Cache.{
  FeedPlatform, FeedState, make_key, serialize_post, max_feed_size, slice, load_feed_from_db,
}
use otus_highload_architect.Feed.Cache.Pages.{Caches, range-trim, exists-absent}
use mathlib.Core.List.{map-append}
use otus_highload_architect.Feed.Cache.Races.{
  Reader, asking, missed, loaded, pushed, finished, read_step, Race, Turn, of_first, of_second,
  turn, turns,
}

module _ (p : FeedPlatform) where
  abbrev pub race : FeedState p → Reader → Reader → Race p
  race s x y = record { feed = s; first = x; second = y }

module _ (p : FeedPlatform) (user : Uuid) where
  abbrev pub push : FeedState p → List FeedPost → FeedState p
  push s feed = record s {
    cache = p.redis.rpush s.cache (make_key p user) (map (serialize_post p) feed);
  }

  abbrev pub trim : FeedState p → FeedState p
  trim s = record s {
    cache = p.redis.ltrim s.cache (make_key p user) (pos 0) (pos (max_feed_size - 1));
  }

  pub contents-push :
      (s : FeedState p) (feed more : List FeedPost)
      → Caches p s user feed
      → Caches p (push s more) user (feed ++ more)
  contents-push s feed more c =
      rw (p.redis.contents-rpush, bytes_eq_refl, c) (sym (map-append _ feed more))

  pub contents-trim :
      (s : FeedState p) (feed : List FeedPost)
      → Caches p s user feed
      → Caches p (trim s) user (take 1000 feed)
  contents-trim s feed c =
      rw (p.redis.contents-ltrim, bytes_eq_refl, c)
        (range-trim (map (serialize_post p) feed) ∙ take-map (serialize_post p) 1000 feed)

module _ (p : FeedPlatform) (user : Uuid) (offset limit : ℤ) where
  pub asked :
      (s : FeedState p) → Caches p s user [] → read_step p s user offset limit asking ≡ (s, missed)
  unfolding read_step
  asked s c = rw (exists-absent p s user c) refl

  pub selected :
      (s : FeedState p) (feed : List FeedPost)
      → p.db.feed_rows s.slave user ≡ feed
      → read_step p s user offset limit missed ≡ (s, loaded feed)
  unfolding read_step load_feed_from_db
  selected s feed rows = ap (λ l. (s, loaded l)) rows

  pub turns-first :
      (s t : FeedState p) (x next y : Reader) (ts : List (Turn p))
      → read_step p s user offset limit x ≡ (t, next)
      → turns p user offset limit (race p s x y) (of_first ∷ ts)
        ≡ turns p user offset limit (race p t next y) ts
  unfolding turns turn
  turns-first s t x next y ts e = ap (λ n. turns p user offset limit (race p n.0 n.1 y) ts) e

  pub turns-second :
      (s t : FeedState p) (x y next : Reader) (ts : List (Turn p))
      → read_step p s user offset limit y ≡ (t, next)
      → turns p user offset limit (race p s x y) (of_second ∷ ts)
        ≡ turns p user offset limit (race p t x next) ts
  unfolding turns turn
  turns-second s t x y next ts e = ap (λ n. turns p user offset limit (race p n.0 x n.1) ts) e

  pub pushed_step :
      (s : FeedState p) (post : FeedPost) (rest : List FeedPost)
      → read_step p s user offset limit (loaded (post ∷ rest))
        ≡ (push p user s (post ∷ rest), pushed (post ∷ rest))
  unfolding read_step
  pushed_step s post rest = refl

  pub trimmed_step :
      (s : FeedState p) (feed : List FeedPost)
      → read_step p s user offset limit (pushed feed)
        ≡ (trim p user s, finished (slice p feed offset limit))
  unfolding read_step
  trimmed_step s feed = refl
