-- ===== src/Feed/Cache/Races/Overlaps.antt =====
-- How requests that run side by side can end.
use otus_highload_architect.Prelude.{
  take-take, ℕ, suc, ◌+◌, ◌^◌, ◌≤◌, ◌<◌, ◌≡◌, refl, ap, ◌∙◌, inl, inr, List, [], ◌∷◌, ◌++◌, map,
  arith, ltb, Bool-cases, length, take, take_of_length-le, Text, Uuid, ok,
}
use otus_highload_architect.Prelude.Int.{ℤ, pos}
use otus_highload_architect.Platform.Posts.{FeedPost}
use otus_highload_architect.Feed.Cache.{
  FeedPlatform, FeedState, make_key, serialize_post, slice, populate, load_feed_from_db, get_feed,
  on_post_created,
}
use otus_highload_architect.Feed.Cache.Pages.{Caches, page, get_feed-hit}
use otus_highload_architect.Feed.Cache.Fanout.{on_post_created-Caches}
use mathlib.Core.Path.{subst}
use otus_highload_architect.Feed.Cache.Races.{
  Reader, asking, missed, loaded, pushed, finished, read_step, Race, Turn, of_first, of_second,
  replica, consumer, turn, turns, start,
}
use otus_highload_architect.Feed.Cache.Races.Steps.{
  asked, selected, race, turns-first, turns-second, push, trim, pushed_step, trimmed_step,
  contents-push, contents-trim,
}

module _ (p : FeedPlatform) (user : Uuid) (offset limit : ℤ) where
  loaded-alone :
      (s : FeedState p) (other : Reader) (feed : List FeedPost)
      → let r : Race p = record { feed = s; first = loaded feed; second = other } in
        let t = turns p user offset limit r (of_first ∷ of_first ∷ []) in
        (t.feed ≡ populate p s (make_key p user) feed)
        × (t.first ≡ finished (slice p feed offset limit))
  unfolding turns turn read_step populate
  loaded-alone s other [] = (refl, refl)
  loaded-alone s other (post ∷ rest) = (refl, refl)

  -- A request that runs alone is `get_feed`: after four commands it has finished with the outcome of
  -- `get_feed`, and has left the state of `get_feed`.
  pub turns-alone :
      (s : FeedState p)
      → let t =
          turns p user offset limit (start p s) (of_first ∷ of_first ∷ of_first ∷ of_first ∷ []) in
        (t.feed ≡ (get_feed p s user offset limit).0)
        × (t.first ≡ finished (get_feed p s user offset limit).1)
  unfolding turns turn read_step get_feed
  turns-alone s = elim (Bool-cases (ltb 0 (p.redis.exists s.cache (make_key p user)))) [
    | inl e ↦ rw e (refl, refl)
    | inr e ↦ rw e (loaded-alone s asking (load_feed_from_db p s user))
  ]

  -- Both requests ask, and load the rows, before either has filled the cache.
  abbrev pub both_miss : List (Turn p)
  both_miss =
      of_first ∷ of_second ∷ of_first ∷ of_second ∷ of_first ∷ of_second ∷ of_first ∷ of_second ∷ []

  both_miss_lem :
      (s : FeedState p) (post : FeedPost) (rest : List FeedPost)
      → Caches p s user []
      → p.db.feed_rows s.slave user ≡ post ∷ rest
      → let page = finished (slice p (post ∷ rest) offset limit) in
        turns p user offset limit (start p s) both_miss
        ≡ race p
            (trim p user (trim p user (push p user (push p user s (post ∷ rest)) (post ∷ rest))))
            page
            page
  unfolding turns
  both_miss_lem s post rest c rows =
      let feed : List FeedPost = post ∷ rest in
      let page : Reader = finished (slice p feed offset limit) in
      let once = push p user s feed in
      let twice = push p user once feed in
      let e1 : List (Turn p) = of_second ∷ [] in
      let e2 : List (Turn p) = of_first ∷ e1 in
      let e3 : List (Turn p) = of_second ∷ e2 in
      let e4 : List (Turn p) = of_first ∷ e3 in
      let e5 : List (Turn p) = of_second ∷ e4 in
      let e6 : List (Turn p) = of_first ∷ e5 in
      let e7 : List (Turn p) = of_second ∷ e6 in
      turns-first p user offset limit s s asking missed asking e7 (asked p user offset limit s c)
      ∙ turns-second p user offset limit s s missed asking missed e6 (asked p user offset limit s c)
      ∙ turns-first p user offset limit s s missed (loaded feed) missed e5
          (selected p user offset limit s feed rows)
      ∙ turns-second p user offset limit s s (loaded feed) missed (loaded feed) e4
          (selected p user offset limit s feed rows)
      ∙ turns-first p user offset limit s once (loaded feed) (pushed feed) (loaded feed) e3
          (pushed_step p user offset limit s post rest)
      ∙ turns-second p user offset limit once twice (pushed feed) (loaded feed) (pushed feed) e2
          (pushed_step p user offset limit once post rest)
      ∙ turns-first p user offset limit twice (trim p user twice) (pushed feed) page (pushed feed)
          e1 (trimmed_step p user offset limit twice feed)
      ∙ turns-second p user offset limit (trim p user twice) (trim p user (trim p user twice)) page
          (pushed feed) page [] (trimmed_step p user offset limit (trim p user twice) feed)

  -- Two requests for a feed that is not cached, both of which look for it and load its rows before either has
  -- filled the cache, answer each as if alone, and leave the rows in the cache twice, one copy behind the
  -- other, cut to the largest size.
  pub both_miss-doubles :
      (s : FeedState p) (post : FeedPost) (rest : List FeedPost)
      → Caches p s user []
      → p.db.feed_rows s.slave user ≡ post ∷ rest
      → let t = turns p user offset limit (start p s) both_miss in
        Caches p t.feed user (take 1000 ((post ∷ rest) ++ (post ∷ rest)))
        × (t.first ≡ finished (slice p (post ∷ rest) offset limit))
        × (t.second ≡ finished (slice p (post ∷ rest) offset limit))
  both_miss-doubles s post rest c rows =
      let feed : List FeedPost = post ∷ rest in
      let twice = push p user (push p user s feed) feed in
      let held =
        contents-push p user (push p user s feed) feed feed (contents-push p user s [] feed c) in
      let cut =
        contents-trim p user (trim p user twice) (take 1000 (feed ++ feed))
          (contents-trim p user twice (feed ++ feed) held) in
      rw (both_miss_lem s post rest c rows) (
        cut ∙ ap (map (serialize_post p)) (take-take 1000 1000 (feed ++ feed) (omega arith)),
        refl,
        refl,
      )

  -- The request has loaded the rows when the replica takes over a new post and the consumer handles its
  -- event; then it fills the cache.
  abbrev pub overtaken : p.db.Db → Uuid → Uuid → Text → List (Turn p)
  overtaken db author post_id text =
      of_first ∷ of_first ∷ replica db ∷ consumer author post_id text ∷ of_first ∷ of_first ∷ []

  -- The state at the time when the request has loaded its rows, and the post is in the replica and handled.
  abbrev ahead : FeedState p → p.db.Db → Uuid → Uuid → Text → FeedState p
  ahead s db author post_id text = on_post_created p (record s { slave = db }) author post_id text

  overtaken_lem :
      (s : FeedState p) (post : FeedPost) (rest : List FeedPost) (db : p.db.Db)
      (author post_id : Uuid) (text : Text)
      → Caches p s user []
      → p.db.feed_rows s.slave user ≡ post ∷ rest
      → turns p user offset limit (start p s) (overtaken db author post_id text)
        ≡ race p
            (trim p user (push p user (ahead s db author post_id text) (post ∷ rest)))
            (finished (slice p (post ∷ rest) offset limit))
            asking
  unfolding turns turn
  overtaken_lem s post rest db author post_id text c rows =
      let feed : List FeedPost = post ∷ rest in
      let page : Reader = finished (slice p feed offset limit) in
      let late = ahead s db author post_id text in
      let filling : List (Turn p) = of_first ∷ of_first ∷ [] in
      let beside : List (Turn p) = replica db ∷ consumer author post_id text ∷ filling in
      turns-first p user offset limit s s asking missed asking (of_first ∷ beside)
        (asked p user offset limit s c)
      ∙ turns-first p user offset limit s s missed (loaded feed) asking beside
          (selected p user offset limit s feed rows)
      ∙ turns-first p user offset limit late (push p user late feed) (loaded feed) (pushed feed)
          asking (of_first ∷ []) (pushed_step p user offset limit late post rest)
      ∙ turns-first p user offset limit (push p user late feed)
          (trim p user (push p user late feed)) (pushed feed) page asking []
          (trimmed_step p user offset limit (push p user late feed) feed)

  -- A post that the replica takes over and whose event is handled after a request has loaded the rows, and
  -- before it fills the cache, stays out of the feed: from then on a page comes from the rows of before,
  -- whatever the replica holds.
  pub overtaken-lost :
      (s : FeedState p) (post : FeedPost) (rest : List FeedPost) (db : p.db.Db)
      (author post_id : Uuid) (text : Text) (o l : ℕ)
      → Caches p s user []
      → p.db.feed_rows s.slave user ≡ post ∷ rest
      → o + suc l < 2 ^ 31
      → let t = turns p user offset limit (start p s) (overtaken db author post_id text) in
        (t.feed.slave ≡ db)
        × (get_feed p t.feed user (pos o) (pos (suc l))
            ≡ (t.feed, ok (page o (suc l) (post ∷ rest))))
  unfolding on_post_created
  overtaken-lost s post rest db author post_id text o l c rows small =
      let feed : List FeedPost = post ∷ rest in
      let late = ahead s db author post_id text in
      let none_there : Caches p late user [] =
        on_post_created-Caches p (record s { slave = db }) author post_id text user [] c
        ∙ ground arith in
      let fits : take 1000 feed ≡ feed =
        take_of_length-le 1000 feed
          (subst (λ x. length x ≤ 1000) rows (p.db.feed_rows-le s.slave user)) in
      let held : Caches p (trim p user (push p user late feed)) user feed =
        contents-trim p user (push p user late feed) feed
          (contents-push p user late [] feed none_there)
        ∙ ap (map (serialize_post p)) fits in
      rw (overtaken_lem s post rest db author post_id text c rows)
        (refl, get_feed-hit p (trim p user (push p user late feed)) user o l post rest small held)
