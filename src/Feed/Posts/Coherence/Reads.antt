-- ===== src/Feed/Posts/Coherence/Reads.antt =====
-- A read of any page, and a new post, keep the cached feeds a view of the database.
use otus_highload_architect.Prelude.{
  Outcome-cases, ◌≡◌, refl, sym, ap, ◌∙◌, inl, inr, [], ◌∷◌, map, arith, Bool-cases, Text, Uuid,
  bytes_eq, bytes_eq_iff, ok,
}
use mathlib.Core.Path.{subst}
use otus_highload_architect.Prelude.Int.{ℤ}
use otus_highload_architect.Platform.Posts.{FeedPost}
use otus_highload_architect.Feed.Cache.{
  FeedPlatform, FeedState, serialize_post, get_feed, on_post_created,
}
use otus_highload_architect.Feed.Cache.Pages.{
  Caches, get_feed-fills, get_feed-keeps, get_feed-other,
}
use otus_highload_architect.Feed.Cache.Fanout.{on_post_created-Caches}
use otus_highload_architect.Feed.Cache.Refinement.{
  Shows, Shows-Caches, get_feed-slave, get_feed-master,
}
use otus_highload_architect.Feed.Posts.Coherence.{
  FeedRows, created, read, after_insert, take_step, IsCoherent, Shows-drop, Shows-keep,
}

module _ (p : FeedPlatform) where
  own_read :
      (s : FeedState p) (v : Uuid) (offset limit : ℤ)
      → Shows p s v (p.db.feed_rows s.slave v)
      → Shows p
          (get_feed p s v offset limit).0
          v
          (p.db.feed_rows (get_feed p s v offset limit).0.slave v)
  own_read s v offset limit (inl (post, rest, e, c)) =
      rw (get_feed-keeps p s v offset limit post rest (c ∙ ap (map (serialize_post p)) e))
        (inl (post, rest, e, c))
  own_read s v offset limit (inr (c, e)) =
      Shows-Caches p (get_feed p s v offset limit).0 v _
        (rw (get_feed-slave p s v offset limit) (get_feed-fills p s v offset limit c)) refl

  read-Shows :
      (s : FeedState p) (user v : Uuid) (offset limit : ℤ)
      → Shows p s v (p.db.feed_rows s.slave v)
      → Shows p
          (get_feed p s user offset limit).0
          v
          (p.db.feed_rows (get_feed p s user offset limit).0.slave v)
  read-Shows s user v offset limit w = elim (Bool-cases (bytes_eq user v)) [
    | inl e ↦ rw ((bytes_eq_iff user v).0 e) (own_read s v offset limit w)
    | inr e ↦
        Shows-keep p s (get_feed p s user offset limit).0 v
          (get_feed-other p s user v offset limit e)
          (ap (λ d. p.db.feed_rows d v) (get_feed-slave p s user offset limit)) w
  ]

  pub read-IsCoherent :
      (s : FeedState p) (user : Uuid) (offset limit : ℤ)
      → IsCoherent p s
      → IsCoherent p (take_step p s (read user offset limit))
  unfolding take_step
  read-IsCoherent s user offset limit h = record {
    level =
        get_feed-slave p s user offset limit
        ∙ h.level
        ∙ sym (get_feed-master p s user offset limit);
    view = λ v. read-Shows s user v offset limit (h.view v);
  }

module _ (p : FeedPlatform) (g : FeedRows p.db) where
  created-Shows :
      (s : FeedState p) (author : Uuid) (text : Text) (db : p.db.Db) (id v : Uuid)
      → s.slave ≡ s.master
      → p.db.insert_post s.master author text ≡ ok (db, id)
      → Shows p s v (p.db.feed_rows s.slave v)
      → Shows p
          (on_post_created p (record s { master = db; slave = db }) author id text)
          v
          (p.db.feed_rows db v)
  unfolding on_post_created
  created-Shows s author text db id v level inserted (inl (post, rest, e, c)) =
      let new : FeedPost = record { post_id = id; text = text; author_user_id = author } in
      let pushed =
        on_post_created-Caches p (record s { master = db; slave = db }) author id text v
          (p.db.feed_rows s.slave v) c in
      let cached : p.db.feed_rows s.master v ≡ post ∷ rest = rw level at e in
      let law = rw cached at (g.feed_rows-insert_post s.master db author text id v inserted) in
      let follow = g.followers-insert_post s.master db author text id inserted author in
      Shows-Caches p (on_post_created p (record s { master = db; slave = db }) author id text) v
        (p.db.feed_rows db v)
        (subst
          (Caches p (on_post_created p (record s { master = db; slave = db }) author id text) v)
          (rw (level, cached, follow) (sym law)) pushed)
        refl
  created-Shows s author text db id v level inserted (inr (c, e)) =
      let pushed =
        on_post_created-Caches p (record s { master = db; slave = db }) author id text v [] c in
      Shows-drop p (on_post_created p (record s { master = db; slave = db }) author id text) v
        (pushed ∙ ground arith)

  pub created-IsCoherent :
      (s : FeedState p) (author : Uuid) (text : Text)
      → IsCoherent p s
      → IsCoherent p (take_step p s (created author text))
  unfolding take_step after_insert on_post_created
  created-IsCoherent s author text h =
      elim (Outcome-cases (p.db.insert_post s.master author text)) [
        | inl ((db, id), inserted) ↦ rw inserted (record {
          level = refl;
          view = λ v. created-Shows s author text db id v h.level inserted (h.view v);
        })
        | inr (x, failed) ↦ rw failed h
      ]
