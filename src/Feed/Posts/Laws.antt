-- ===== src/Feed/Posts/Laws.antt =====
-- What the handlers of posts do to the table and to the cached feeds.
use otus_highload_architect.Prelude.{
  String, ◌≡◌, refl, Bool, true, false, Option, none, some, [], arith, if◌then◌else◌, Text, Uuid,
  bytes_eq_refl, mem_bytes, Outcome, ok,
}
use mathlib.Core.Option
use otus_highload_architect.Platform.Json.{Json, make_object, text_at, has_member}
use otus_highload_architect.Platform.Http.{
  HttpRequest, Response, status_ok, not_found, empty, document, value, respond,
}
use otus_highload_architect.Platform.Posts.{FeedPost, retext, author_of}
use otus_highload_architect.Feed.Cache.{
  FeedPlatform, FeedState, make_key, invalidate_feeds_of_followers_of,
}
use otus_highload_architect.Feed.Cache.Fanout.{invalidate_feeds-contents}
use otus_highload_architect.Feed.Posts.{
  post_json, path_uuid, post_get, post_update, post_delete, invalidate_author, update_id,
  update_text,
}

pub has_member_of_text :
    (k : String) (body : Json) (t : Text) → text_at k body ≡ ok t → has_member k body ≡ true
has_member_of_text k body t h = ground arith

module _ (p : FeedPlatform) where
  -- What GET answers for a row, or for none.
  abbrev pub shown_post : Option FeedPost → Outcome (Response p.json.Document)
  shown_post none = ok (record { status = not_found; body = empty })
  shown_post (some post) =
      ok (record { status = status_ok; body = document (p.json.to_string (post_json p post)) })

  pub post_get_lem :
      (s : FeedState p) (request : HttpRequest) (id : Uuid)
      → path_uuid p request ≡ some id
      → post_get p s request ≡ shown_post (p.db.select_post s.master id)
  unfolding post_get
  post_get_lem s request id h = rw (h, post_get) (ground arith)

  -- Whether the feed of `v` is dropped for a row: `v` follows its author, as the replica has it.
  abbrev pub drops : FeedState p → Option FeedPost → Uuid → Bool
  drops s none v = false
  drops s (some post) v = mem_bytes v (p.db.followers s.slave post.author_user_id)

  pub invalidate_author-contents :
      (s : FeedState p) (db : p.db.Db) (row : Option FeedPost) (v : Uuid)
      → p.redis.contents
          (invalidate_author p (record s { master = db }) (Option.map author_of row)).cache
          (make_key p v)
        ≡ (if drops s row v then [] else p.redis.contents s.cache (make_key p v))
  unfolding invalidate_author
  invalidate_author-contents s db none v = refl
  invalidate_author-contents s db (some post) v =
      invalidate_feeds-contents p (record s { master = db }) post.author_user_id v

  pub invalidate_author-slave :
      (s : FeedState p) (author : Option Uuid) → (invalidate_author p s author).slave ≡ s.slave
  unfolding invalidate_author invalidate_feeds_of_followers_of
  invalidate_author-slave s none = refl
  invalidate_author-slave s (some author) = ground arith

  pub invalidate_author-master :
      (s : FeedState p) (author : Option Uuid) → (invalidate_author p s author).master ≡ s.master
  unfolding invalidate_author invalidate_feeds_of_followers_of
  invalidate_author-master s none = refl
  invalidate_author-master s (some author) = ground arith

  module _ (s : FeedState p) (request : HttpRequest) (t : Text) (id : Uuid) (text : Text)
      (sent_id : text_at "id" request.json_body ≡ ok t) (valid : p.uuids.generator t ≡ some id)
      (sent_text : text_at "text" request.json_body ≡ ok text) where
    pub post_update_run :
        post_update p s request
        ≡ respond
            (invalidate_author p
              (record s { master = (p.db.update_post s.master id text).0 })
              (p.db.update_post s.master id text).1)
            status_ok
            (value (make_object []))
    unfolding post_update update_text
    post_update_run = rw (
      has_member_of_text "id" request.json_body t sent_id,
      has_member_of_text "text" request.json_body text sent_text,
      sent_id,
      update_id,
      valid,
      sent_text,
      update_text,
    )

    -- A valid update answers 200 whether the post is there or not, drops the cached feed of each
    -- follower of the post's author, and leaves all other feeds.
    pub post_update-drops :
        ((post_update p s request).1
          ≡ ok (record { status = status_ok; body = value (make_object []) }))
        × ((v : Uuid)
            → p.redis.contents (post_update p s request).0.cache (make_key p v) ≡ (
                if drops s (p.db.select_post s.master id) v
                then []
                else p.redis.contents s.cache (make_key p v)))
    post_update-drops =
        rw (post_update_run, p.db.update_post-author)
          (refl, λ v. invalidate_author-contents s _ (p.db.select_post s.master id) v)

    -- A GET after a valid update answers with the new text, and with 404 where there was no such
    -- post.
    pub post_get-post_update :
        (get : HttpRequest)
        → path_uuid p get ≡ some id
        → post_get p (post_update p s request).0 get
          ≡ shown_post (Option.map (retext text) (p.db.select_post s.master id))
    post_get-post_update get h = rw (
      post_update_run,
      post_get_lem _ get id h,
      invalidate_author-master,
      p.db.select-update_post,
      bytes_eq_refl id,
    )

  module _ (s : FeedState p) (request : HttpRequest) (id : Uuid)
      (valid : path_uuid p request ≡ some id) where
    pub post_delete_run :
        post_delete p s request
        ≡ respond
            (invalidate_author p
              (record s { master = (p.db.delete_post s.master id).0 })
              (p.db.delete_post s.master id).1)
            status_ok
            empty
    unfolding post_delete
    post_delete_run = rw (valid, post_delete)

    -- A deletion with a valid identifier answers 200, drops the cached feed of each follower of
    -- the post's author and no other, and the same identifier is answered with 404 by GET from
    -- then on.
    pub post_delete_lem :
        ((post_delete p s request).1 ≡ ok (record { status = status_ok; body = empty }))
        × ((v : Uuid)
            → p.redis.contents (post_delete p s request).0.cache (make_key p v) ≡ (
                if drops s (p.db.select_post s.master id) v
                then []
                else p.redis.contents s.cache (make_key p v)))
        × (post_get p (post_delete p s request).0 request
            ≡ ok (record { status = not_found; body = empty }))
    post_delete_lem = (
      rw post_delete_run,
      rw (post_delete_run, p.db.delete_post-author)
          (λ v. invalidate_author-contents s _ (p.db.select_post s.master id) v),
      rw (
        post_delete_run,
        post_get_lem _ request id valid,
        invalidate_author-master,
        p.db.select-delete_post,
        bytes_eq_refl id,
      ),
    )
