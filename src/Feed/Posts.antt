-- ===== src/Feed/Posts.antt =====
-- The handlers that write posts and friendships: src/post/post_create_handler.cpp,
-- src/post/post_update_handler.cpp, src/post/post_delete_handler.cpp, src/post/post_get_handler.cpp,
-- src/friend/friend_add_handler.cpp and src/friend/friend_delete_handler.cpp.
pub mod Laws
pub mod Friends
pub mod Lag
pub mod Failures
pub mod Retry
pub mod Coherence
use otus_highload_architect.Prelude.{
  String, ◌&&◌, Option, none, some, [], ◌∷◌, if◌then◌else◌, Text, Uuid, codes, Outcome, ok, throw,
}
use otus_highload_architect.Platform.Json.{Json, make_object, str, text_at, has_member}
use otus_highload_architect.Platform.Http.{
  HttpRequest, Response, status_ok, bad_request, not_found, empty, document, value, respond,
}
use otus_highload_architect.Platform.Broker.{Broker}
use otus_highload_architect.Platform.Posts.{FeedPost}
use otus_highload_architect.Feed.Cache.{
  FeedPlatform, FeedState, invalidate_feeds_of_followers_of, invalidate_feed,
}
use otus_highload_architect.Feed.Messages.{App, PostEvent, publish_created}

abbrev pub error_body : String → Json
error_body message = make_object (("error", str (codes message)) ∷ [])

module _ (p : FeedPlatform) where
  -- `generator(request.GetPathArg(0))`, whose exception the handlers catch.
  abbrev pub path_uuid : HttpRequest → Option Uuid
  path_uuid request = p.uuids.generator request.path_arg

  abbrev pub post_json : FeedPost → Json
  post_json post = make_object (
      ("id", str (p.uuids.to_string post.post_id))
      ∷ ("text", str post.text)
      ∷ ("author_user_id", str (p.uuids.to_string post.author_user_id))
      ∷ [])

  unfoldable pub post_get : FeedState p → HttpRequest → Outcome (Response p.json.Document)
  post_get s request = elim (path_uuid request) [
    | none ↦ ok (record { status = bad_request; body = empty })
    | some post_id ↦ elim (p.db.select_post s.master post_id) [
      | none ↦ ok (record { status = not_found; body = empty })
      | some post ↦
          ok (record { status = status_ok; body = document (p.json.to_string (post_json post)) })
    ]
  ]

  -- `if (!result.IsEmpty())`: the feeds of the author's followers are dropped.
  unfoldable pub invalidate_author : FeedState p → Option Uuid → FeedState p
  invalidate_author s none = s
  invalidate_author s (some author) = invalidate_feeds_of_followers_of p s author

  update_text : FeedState p → Uuid → Outcome Text → FeedState p × Outcome (Response p.json.Document)
  unfolding invalidate_author
  update_text s post_id (throw e) = (s, throw e)
  update_text s post_id (ok text) =
      let (db, author) = p.db.update_post s.master post_id text in
      respond (invalidate_author (record s { master = db }) author) status_ok
        (value (make_object []))

  update_id : FeedState p → Json → Outcome Text → FeedState p × Outcome (Response p.json.Document)
  unfolding update_text
  update_id s body (throw e) = (s, throw e)
  update_id s body (ok id_text) = elim (p.uuids.generator id_text) [
    | none ↦ respond s bad_request (value (error_body "Invalid UUID format"))
    | some post_id ↦ update_text s post_id (text_at "text" body)
  ]

  unfoldable pub post_update :
      FeedState p → HttpRequest → FeedState p × Outcome (Response p.json.Document)
  unfolding update_id
  post_update s request =
      let body = request.json_body in
      if has_member "id" body && has_member "text" body
      then update_id s body (text_at "id" body)
      else respond s bad_request (value (error_body "Expected body has `id` and `text` fields"))

  unfoldable pub post_delete :
      FeedState p → HttpRequest → FeedState p × Outcome (Response p.json.Document)
  unfolding invalidate_author
  post_delete s request = elim (path_uuid request) [
    | none ↦ respond s bad_request empty
    | some post_id ↦
        let (db, author) = p.db.delete_post s.master post_id in
        respond (invalidate_author (record s { master = db }) author) status_ok empty
  ]

  befriend : FeedState p → Uuid → Outcome p.db.Db → FeedState p × Outcome (Response p.json.Document)
  befriend s user_id (throw e) = (s, throw e)
  befriend s user_id (ok db) =
      respond (invalidate_feed p (record s { master = db }) user_id) status_ok empty

  unfoldable pub friend_add :
      FeedState p → Uuid → HttpRequest → FeedState p × Outcome (Response p.json.Document)
  unfolding befriend
  friend_add s user_id request = elim (path_uuid request) [
    | none ↦ respond s bad_request empty
    | some friend_id ↦ befriend s user_id (p.db.insert_friendship s.master user_id friend_id)
  ]

  unfoldable pub friend_delete :
      FeedState p → Uuid → HttpRequest → FeedState p × Outcome (Response p.json.Document)
  friend_delete s user_id request = elim (path_uuid request) [
    | none ↦ respond s bad_request empty
    | some friend_id ↦
        let db = p.db.delete_friendship s.master user_id friend_id in
        respond (invalidate_feed p (record s { master = db }) user_id) status_ok empty
  ]

  module _ (b : Broker p.json.Document) (exchange : Text) where
    announce : App p b → Uuid → Outcome b.State → App p b × Outcome (Response p.json.Document)
    announce s post_id (throw e) = (s, throw e)
    announce s post_id (ok broker) =
        respond (record s { broker = broker }) status_ok
          (value (make_object (("id", str (p.uuids.to_string post_id)) ∷ [])))

    insert_and_publish :
        App p b
        → Uuid
        → Text
        → Outcome (p.db.Db × Uuid)
        → App p b × Outcome (Response p.json.Document)
    unfolding announce
    insert_and_publish s author_id text (throw e) = (s, throw e)
    insert_and_publish s author_id text (ok (db, post_id)) =
        let event : PostEvent = record { author_id = author_id; post_id = post_id; text = text } in
        announce (record s { feed = record s.feed { master = db } }) post_id
          (publish_created p b exchange s.broker event)

    create_text : App p b → Uuid → Outcome Text → App p b × Outcome (Response p.json.Document)
    unfolding insert_and_publish
    create_text s author_id (throw e) = (s, throw e)
    create_text s author_id (ok text) =
        insert_and_publish s author_id text (p.db.insert_post s.feed.master author_id text)

    unfoldable pub post_create :
        App p b → Uuid → HttpRequest → App p b × Outcome (Response p.json.Document)
    unfolding create_text
    post_create s author_id request =
        if has_member "text" request.json_body
        then create_text s author_id (text_at "text" request.json_body)
        else respond s bad_request (value (error_body "Expected body has `text` field"))
