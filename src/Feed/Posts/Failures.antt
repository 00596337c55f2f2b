-- ===== src/Feed/Posts/Failures.antt =====
-- PUT of a post (src/post/post_update_handler.cpp) where the SELECT of the followers or the DEL of their
-- feeds is not answered: the handler throws with the row already changed.
use otus_highload_architect.Prelude.{
  ◌≡◌, refl, ap, inl, inr, ◌&&◌, Option, none, some, List, [], map, arith, if◌then◌else◌,
  Option-cases, is_empty, Text, Uuid, database_error, Outcome, ok, throw,
}
use otus_highload_architect.Platform.Connections.{Connection, up, down, lost}
use otus_highload_architect.Platform.Json.{Json, make_object, text_at, has_member}
use otus_highload_architect.Platform.Http.{
  HttpRequest, Response, status_ok, bad_request, value, respond,
}
use otus_highload_architect.Feed.Cache.{
  invalidate_feeds_of_followers_of, FeedPlatform, FeedState, make_key, get_followers,
}
use otus_highload_architect.Feed.Posts.{
  invalidate_author, update_text, update_id, error_body, post_update,
}

module _ (p : FeedPlatform) where
  -- The feeds of some users are dropped, or the DEL is not answered.
  unfoldable pub try_del : Connection → FeedState p → List Uuid → FeedState p × Outcome (Unit {0})
  try_del down s followers = (s, throw database_error)
  try_del lost s followers =
      (record s { cache = p.redis.del s.cache (map (make_key p) followers) }, throw database_error)
  try_del up s followers =
      (record s { cache = p.redis.del s.cache (map (make_key p) followers) }, ok tt)

  -- `PostFeedCache::InvalidateFeedsOfFollowersOf`
  unfoldable pub try_invalidate_feeds_of_followers_of :
      Connection → Connection → FeedState p → Uuid → FeedState p × Outcome (Unit {0})
  unfolding try_del get_followers
  try_invalidate_feeds_of_followers_of down del s author_id = (s, throw database_error)
  try_invalidate_feeds_of_followers_of lost del s author_id = (s, throw database_error)
  try_invalidate_feeds_of_followers_of up del s author_id =
      let followers = get_followers p s author_id in
      if is_empty followers then (s, ok tt) else try_del del s followers

  unfoldable pub try_invalidate_author :
      Connection → Connection → FeedState p → Option Uuid → FeedState p × Outcome (Unit {0})
  unfolding try_invalidate_feeds_of_followers_of
  try_invalidate_author select del s none = (s, ok tt)
  try_invalidate_author select del s (some author) =
      try_invalidate_feeds_of_followers_of select del s author

  unfoldable pub answer_updated :
      FeedState p × Outcome (Unit {0}) → FeedState p × Outcome (Response p.json.Document)
  answer_updated (s, throw e) = (s, throw e)
  answer_updated (s, ok done) = respond s status_ok (value (make_object []))

  unfoldable pub try_update_text :
      Connection
      → Connection
      → FeedState p
      → Uuid
      → Outcome Text
      → FeedState p × Outcome (Response p.json.Document)
  unfolding try_invalidate_author answer_updated
  try_update_text select del s post_id (throw e) = (s, throw e)
  try_update_text select del s post_id (ok text) =
      let (db, author) = p.db.update_post s.master post_id text in
      answer_updated (try_invalidate_author select del (record s { master = db }) author)

  unfoldable pub try_update_id :
      Connection
      → Connection
      → FeedState p
      → Json
      → Outcome Text
      → FeedState p × Outcome (Response p.json.Document)
  unfolding try_update_text
  try_update_id select del s body (throw e) = (s, throw e)
  try_update_id select del s body (ok id_text) = elim (p.uuids.generator id_text) [
    | none ↦ respond s bad_request (value (error_body "Invalid UUID format"))
    | some post_id ↦ try_update_text select del s post_id (text_at "text" body)
  ]

  -- `PostUpdateHandler::HandleRequestJsonThrow`
  unfoldable pub try_post_update :
      Connection
      → Connection
      → FeedState p
      → HttpRequest
      → FeedState p × Outcome (Response p.json.Document)
  unfolding try_update_id
  try_post_update select del s request =
      let body = request.json_body in
      if has_member "id" body && has_member "text" body
      then try_update_id select del s body (text_at "id" body)
      else respond s bad_request (value (error_body "Expected body has `id` and `text` fields"))

  try_invalidate_author-up :
      (s : FeedState p) (author : Option Uuid)
      → try_invalidate_author up up s author ≡ (invalidate_author p s author, ok tt)
  unfolding try_invalidate_author invalidate_author invalidate_feeds_of_followers_of
  try_invalidate_author-up s none = refl
  try_invalidate_author-up s (some author) = ground arith

  try_update_text-up :
      (s : FeedState p) (id : Uuid) (text : Outcome Text)
      → try_update_text up up s id text ≡ update_text p s id text
  unfolding try_update_text update_text
  try_update_text-up s id (throw e) = refl
  try_update_text-up s id (ok text) = ap answer_updated (
      try_invalidate_author-up (record s { master = (p.db.update_post s.master id text).0 })
        (p.db.update_post s.master id text).1)

  try_update_id-up :
      (s : FeedState p) (body : Json) (id : Outcome Text)
      → try_update_id up up s body id ≡ update_id p s body id
  unfolding try_update_id update_id
  try_update_id-up s body (throw e) = refl
  try_update_id-up s body (ok id) = elim (Option-cases (p.uuids.generator id)) [
    | inl e ↦ rw (try_update_id, update_id, e) refl
    | inr (post_id, e) ↦
        rw (try_update_id, update_id, e) (try_update_text-up s post_id (text_at "text" body))
  ]

  -- With both commands answered this is `post_update`.
  pub try_post_update-up :
      (s : FeedState p) (request : HttpRequest)
      → try_post_update up up s request ≡ post_update p s request
  unfolding try_post_update post_update
  try_post_update-up s request = rw try_update_id-up refl
