-- ===== src/Feed/Posts/Retry.antt =====
-- PUT of a post (src/post/post_update_handler.cpp) where the SELECT of the followers or the DEL of their
-- feeds is not answered, and the client sends the request again.
use otus_highload_architect.Prelude.{
  ◌&&◌, database_error, ◌≡◌, refl, ap, ◌∙◌, ◌⊎◌, inl, inr, Option, none, some, List, [], arith,
  if◌then◌else◌, Bool-cases, is_empty, Text, Uuid, bytes_eq_refl, Outcome, ok, throw,
}
use mathlib.Core.Option
use otus_highload_architect.Platform.Connections.{Connection, up, down, lost, is_answered, is_run}
use otus_highload_architect.Platform.Json.{make_object, text_at}
use otus_highload_architect.Platform.Http.{HttpRequest, status_ok, value}
use otus_highload_architect.Platform.Posts.{FeedPost, retext}
use otus_highload_architect.Feed.Cache.{
  invalidate_feeds_of_followers_of, FeedPlatform, FeedState, make_key, get_followers,
}
use otus_highload_architect.Feed.Posts.{path_uuid, post_get, invalidate_author}
use otus_highload_architect.Feed.Posts.Laws.{
  invalidate_author-contents, invalidate_author-master, invalidate_author-slave, has_member_of_text,
  shown_post, drops, post_get_lem, post_update-drops,
}
use otus_highload_architect.Feed.Posts.Failures.{
  try_del, try_invalidate_author, answer_updated, try_update_text, try_update_id, try_post_update,
  try_post_update-up,
}

module _ (p : FeedPlatform) where
  del_ends :
      (del : Connection) (x : FeedState p) (followers : List Uuid)
      → let r = try_del p del x followers in (r.1 ≡ ok tt) ⊎ (r.1 ≡ throw database_error)
  unfolding try_del
  del_ends down x followers = inr refl
  del_ends lost x followers = inr refl
  del_ends up x followers = inl refl

  -- The feeds are dropped where the SELECT is answered and the DEL is run.
  invalidated_state :
      (select del : Connection) (x : FeedState p) (author : Option Uuid)
      → (try_invalidate_author p select del x author).0
        ≡ (if is_answered select && is_run del then invalidate_author p x author else x)
  unfolding try_invalidate_author try_del invalidate_author invalidate_feeds_of_followers_of
  invalidated_state select del x none = ground arith
  invalidated_state down del x (some author) = refl
  invalidated_state lost del x (some author) = refl
  invalidated_state up down x (some author) = ground arith
  invalidated_state up lost x (some author) = ground arith
  invalidated_state up up x (some author) = ground arith

  invalidated_ends :
      (select del : Connection) (x : FeedState p) (author : Option Uuid)
      → let r = try_invalidate_author p select del x author in
        (r.1 ≡ ok tt) ⊎ (r.1 ≡ throw database_error)
  unfolding try_invalidate_author try_del
  invalidated_ends select del x none = inl refl
  invalidated_ends down del x (some author) = inr refl
  invalidated_ends lost del x (some author) = inr refl
  invalidated_ends up del x (some author) =
      elim (Bool-cases (is_empty (get_followers p x author))) [
        | inl nobody ↦ rw nobody (inl refl)
        | inr followed ↦ rw followed (del_ends del x (get_followers p x author))
      ]

  answered-state : (r : FeedState p × Outcome (Unit {0})) → (answer_updated p r).0 ≡ r.0
  unfolding answer_updated
  answered-state (s, throw e) = refl
  answered-state (s, ok done) = refl

  answered-ends :
      (r : FeedState p × Outcome (Unit {0}))
      → (r.1 ≡ ok tt) ⊎ (r.1 ≡ throw database_error)
      → ((answer_updated p r).1 ≡ ok (record { status = status_ok; body = value (make_object []) }))
        ⊎ ((answer_updated p r).1 ≡ throw database_error)
  unfolding answer_updated
  answered-ends (s, throw x) (inl h) = absurd (ground (arith, h))
  answered-ends (s, throw x) (inr h) = inr (ground (arith, h))
  answered-ends (s, ok done) h = inl refl

  drops-retext :
      (s t : FeedState p) (row : Option FeedPost) (text : Text) (v : Uuid)
      → t.slave ≡ s.slave
      → drops p t (Option.map (retext text) row) v ≡ drops p s row v
  drops-retext s t none text v h = refl
  drops-retext s t (some post) text v h = rw h refl

  module _ (select del : Connection) (s : FeedState p) (request : HttpRequest) (t : Text)
      (id : Uuid) (text : Text) (sent_id : text_at "id" request.json_body ≡ ok t)
      (valid : p.uuids.generator t ≡ some id)
      (sent_text : text_at "text" request.json_body ≡ ok text) where
    try_run :
        try_post_update p select del s request
        ≡ answer_updated p (
            try_invalidate_author p select del
              (record s { master = (p.db.update_post s.master id text).0 })
              (p.db.update_post s.master id text).1)
    unfolding try_post_update
    try_run = rw (
      has_member_of_text "id" request.json_body t sent_id,
      has_member_of_text "text" request.json_body text sent_text,
      sent_id,
      try_update_id,
      valid,
      sent_text,
      try_update_text,
    )

    -- What the first request leaves behind.
    left_master :
        (try_post_update p select del s request).0.master ≡ (p.db.update_post s.master id text).0
    left_master =
        rw (try_run, answered-state, invalidated_state)
          (elim (Bool-cases (is_answered select && is_run del)) [
            | inl e ↦ rw (e, invalidate_author-master) refl
            | inr e ↦ rw e refl
          ])

    left_slave : (try_post_update p select del s request).0.slave ≡ s.slave
    left_slave =
        rw (try_run, answered-state, invalidated_state)
          (elim (Bool-cases (is_answered select && is_run del)) [
            | inl e ↦ rw (e, invalidate_author-slave) refl
            | inr e ↦ rw e refl
          ])

    left_contents :
        (v : Uuid)
        → p.redis.contents (try_post_update p select del s request).0.cache (make_key p v) ≡ (
            if is_answered select && is_run del && drops p s (p.db.select_post s.master id) v
            then []
            else p.redis.contents s.cache (make_key p v))
    left_contents v =
        rw (try_run, answered-state, invalidated_state, p.db.update_post-author)
          (elim (Bool-cases (is_answered select && is_run del)) [
            | inl e ↦ rw e (
                invalidate_author-contents p s (p.db.update_post s.master id text).0
                  (p.db.select_post s.master id) v
                ∙ ground (arith, e))
            | inr e ↦ rw e (ground (arith, e))
          ])

    -- Whichever of the commands that drop the feeds fail, before they are run or after, the update answers
    -- 200 or throws, and the row is changed: a GET has the new text. The feeds that it is to drop are
    -- dropped where the SELECT is answered and the DEL is run, and every other feed is what it was. The
    -- same request once more, with success, answers 200 and drops the feeds that the first was to drop,
    -- and no other.
    pub try_post_update-retried :
        (get : HttpRequest) (v : Uuid)
        → path_uuid p get ≡ some id
        → let first = try_post_update p select del s request in
          let second = try_post_update p up up first.0 request in
          let dropped = drops p s (p.db.select_post s.master id) v in
          ((first.1 ≡ ok (record { status = status_ok; body = value (make_object []) }))
            ⊎ (first.1 ≡ throw database_error))
          × (post_get p first.0 get
              ≡ shown_post p (Option.map (retext text) (p.db.select_post s.master id)))
          × (p.redis.contents first.0.cache (make_key p v) ≡ (
              if is_answered select && is_run del && dropped
              then []
              else p.redis.contents s.cache (make_key p v)))
          × (second.1 ≡ ok (record { status = status_ok; body = value (make_object []) }))
          × (p.redis.contents second.0.cache (make_key p v)
              ≡ (if dropped then [] else p.redis.contents s.cache (make_key p v)))
    try_post_update-retried get v wanted =
        let r = (try_post_update p select del s request).0 in
        let row : p.db.select_post r.master id
            ≡ Option.map (retext text) (p.db.select_post s.master id) =
          rw (left_master, p.db.select-update_post, bytes_eq_refl id) refl in
        let (answered, dropped) = post_update-drops p r request t id text sent_id valid sent_text in
        let same : drops p r (p.db.select_post r.master id) v
            ≡ drops p s (p.db.select_post s.master id) v =
          ap (λ x. drops p r x v) row
          ∙ drops-retext s r (p.db.select_post s.master id) text v left_slave in
        (
          rw try_run (
              answered-ends
                (try_invalidate_author p select del
                  (record s { master = (p.db.update_post s.master id text).0 })
                  (p.db.update_post s.master id text).1)
                (invalidated_ends select del
                  (record s { master = (p.db.update_post s.master id text).0 })
                  (p.db.update_post s.master id text).1)),
          post_get_lem p r get id wanted ∙ ap (shown_post p) row,
          left_contents v,
          rw try_post_update-up answered,
          rw try_post_update-up (dropped v ∙ ground (arith, same, left_contents v)),
        )
