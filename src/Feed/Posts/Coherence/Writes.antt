-- ===== src/Feed/Posts/Coherence/Writes.antt =====
-- Every edit of a post and every change of a friendship keeps the cached feeds a view of the database.
use otus_highload_architect.Prelude.{
  Outcome-cases, ◌≡◌, refl, sym, ap, ◌∙◌, inl, inr, Option, none, some, Text, Uuid, bytes_eq, ok,
}
use otus_highload_architect.Platform.Http.{HttpRequest}
use otus_highload_architect.Platform.Posts.{FeedPost}
use otus_highload_architect.Feed.Cache.{FeedPlatform, FeedState, invalidate_feed}
use otus_highload_architect.Feed.Posts.Friends.{friend_add_lem, friend_delete_lem}
use otus_highload_architect.Feed.Posts.{
  path_uuid, post_update, post_delete, friend_add, friend_delete, befriend,
}
use otus_highload_architect.Feed.Posts.Laws.{
  drops, post_update_run, post_delete_run, invalidate_author-master, post_update-drops,
  post_delete_lem,
}
use otus_highload_architect.Feed.Posts.Coherence.{
  follows_author, FeedRows, updated, deleted, befriended, unfriended, replicate, edit_request,
  id_request, take_step, IsCoherent, Shows-keep, Shows-write,
}

module _ (p : FeedPlatform) where
  friend_add-master :
      (s : FeedState p) (user : Uuid) (request : HttpRequest) (friend : Uuid) (db : p.db.Db)
      → path_uuid p request ≡ some friend
      → p.db.insert_friendship s.master user friend ≡ ok db
      → (friend_add p s user request).0.master ≡ db
  unfolding friend_add invalidate_feed
  friend_add-master s user request friend db found added =
      rw (found, friend_add, added, befriend) refl

  friend_delete-master :
      (s : FeedState p) (user : Uuid) (request : HttpRequest) (friend : Uuid)
      → path_uuid p request ≡ some friend
      → (friend_delete p s user request).0.master ≡ p.db.delete_friendship s.master user friend
  unfolding friend_delete invalidate_feed
  friend_delete-master s user request friend found = rw (found, friend_delete) refl

module _ (p : FeedPlatform) (g : FeedRows p.db) where
  -- The replica is level, so that it drops the feeds of the master's followers.
  drops-level :
      (s : FeedState p) (row : Option FeedPost) (v : Uuid)
      → s.slave ≡ s.master
      → drops p s row v ≡ follows_author p.db s.master row v
  drops-level s none v h = refl
  drops-level s (some post) v h = rw h refl

  pub updated-IsCoherent :
      (s : FeedState p) (id : Uuid) (text : Text)
      → IsCoherent p s
      → IsCoherent p (take_step p s (updated id text))
  unfolding take_step
  updated-IsCoherent s id text h =
      let request : HttpRequest = edit_request p id text in
      let found = p.uuids.generator-to_string id in
      let run = post_update_run p s request (p.uuids.to_string id) id text refl found refl in
      let master : (post_update p s request).0.master ≡ (p.db.update_post s.master id text).0 =
        rw run (invalidate_author-master p _ _) in
      let row = p.db.select_post s.master id in
      record {
        level = refl;
        view = λ v.
            Shows-write p s (replicate p (post_update p s request).0) v (drops p s row v)
              ((post_update-drops p s request (p.uuids.to_string id) id text refl found refl).1 v)
              (λ kept.
                rw (master, h.level)
                  (g.feed_rows-update_post s.master id text v
                    (sym (drops-level s row v h.level) ∙ kept)))
              (h.view v);
      }

  pub deleted-IsCoherent :
      (s : FeedState p) (id : Uuid) → IsCoherent p s → IsCoherent p (take_step p s (deleted id))
  unfolding take_step
  deleted-IsCoherent s id h =
      let request : HttpRequest = id_request p id in
      let found = p.uuids.generator-to_string id in
      let master : (post_delete p s request).0.master ≡ (p.db.delete_post s.master id).0 =
        rw (post_delete_run p s request id found) (invalidate_author-master p _ _) in
      let row = p.db.select_post s.master id in
      record {
        level = refl;
        view = λ v.
            Shows-write p s (replicate p (post_delete p s request).0) v (drops p s row v)
              ((post_delete_lem p s request id found).1 v)
              (λ kept.
                rw (master, h.level)
                  (g.feed_rows-delete_post s.master id v
                    (sym (drops-level s row v h.level) ∙ kept)))
              (h.view v);
      }

  pub befriended-IsCoherent :
      (s : FeedState p) (user friend : Uuid)
      → IsCoherent p s
      → IsCoherent p (take_step p s (befriended user friend))
  unfolding take_step
  befriended-IsCoherent s user friend h =
      let found = p.uuids.generator-to_string friend in
      let both = friend_add_lem p s user (id_request p friend) friend found in
      elim (Outcome-cases (p.db.insert_friendship s.master user friend)) [
        | inl (db, added) ↦ record {
          level = refl;
          view = λ v.
              Shows-write p s (replicate p (friend_add p s user (id_request p friend)).0) v
                (bytes_eq user v) ((both.0 db added).2 v)
                (λ other.
                  rw
                    (
                      friend_add-master p s user (id_request p friend) friend db found added,
                      h.level,
                    )
                    (g.feed_rows-insert_friendship s.master db user friend v added other))
                (h.view v);
        }
        | inr (x, failed) ↦ record {
          level = refl;
          view = λ v. rw (both.1 x failed) (
              Shows-keep p s (replicate p s) v refl (ap (λ d. p.db.feed_rows d v) (sym h.level))
                (h.view v));
        }
      ]

  pub unfriended-IsCoherent :
      (s : FeedState p) (user friend : Uuid)
      → IsCoherent p s
      → IsCoherent p (take_step p s (unfriended user friend))
  unfolding take_step
  unfriended-IsCoherent s user friend h =
      let found = p.uuids.generator-to_string friend in
      record {
        level = refl;
        view = λ v.
            Shows-write p s (replicate p (friend_delete p s user (id_request p friend)).0) v
              (bytes_eq user v)
              ((friend_delete_lem p s user (id_request p friend) friend found).2 v)
              (λ other.
                rw (friend_delete-master p s user (id_request p friend) friend found, h.level)
                  (g.feed_rows-delete_friendship s.master user friend v other))
              (h.view v);
      }
