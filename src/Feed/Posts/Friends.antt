-- ===== src/Feed/Posts/Friends.antt =====
-- Publishing a post, and adding and removing friends.
use otus_highload_architect.Prelude.{
  ◌≡◌, refl, ◌∙◌, true, false, some, [], ◌∷◌, if◌then◌else◌, Text, Uuid, bytes_eq, bytes_eq_refl,
  mem_bytes, Exception, ok, throw,
}
use otus_highload_architect.Platform.Json.{make_object, str, text_at}
use otus_highload_architect.Platform.Http.{HttpRequest, status_ok, empty, value, respond}
use otus_highload_architect.Platform.Broker.{Broker}
use otus_highload_architect.Feed.Cache.{FeedPlatform, FeedState, make_key, invalidate_feed}
use otus_highload_architect.Feed.Cache.Fanout.{invalidate_feed-contents}
use otus_highload_architect.Feed.Messages.{App, publish_created}
use otus_highload_architect.Feed.Posts.{
  path_uuid, post_get, post_create, friend_add, friend_delete, create_text, insert_and_publish,
  announce, befriend,
}
use otus_highload_architect.Feed.Posts.Laws.{has_member_of_text, shown_post, post_get_lem}

module _ (p : FeedPlatform) (b : Broker p.json.Document) (exchange : Text) where
  -- A post whose message is confirmed is answered with its identifier, is found by GET with its text
  -- and author, and leaves the cache and the replica alone; the broker is as the publisher left it.
  pub post_create_lem :
      (s : App p b) (author : Uuid) (request get : HttpRequest) (text : Text) (db : p.db.Db)
      (id : Uuid) (t : b.State)
      → text_at "text" request.json_body ≡ ok text
      → p.db.insert_post s.feed.master author text ≡ ok (db, id)
      → publish_created p b exchange s.broker
          (record { author_id = author; post_id = id; text = text })
        ≡ ok t
      → path_uuid p get ≡ some id
      → (post_create p b exchange s author request
          ≡ respond
              (record { feed = record s.feed { master = db }; broker = t })
              status_ok
              (value (make_object (("id", str (p.uuids.to_string id)) ∷ []))))
        × (post_get p (post_create p b exchange s author request).0.feed get
            ≡ shown_post p (some (record { post_id = id; text = text; author_user_id = author })))
  unfolding post_create
  post_create_lem s author request get text db id t sent inserted published wanted =
      rw
        (
          has_member_of_text "text" request.json_body text sent,
          sent,
          create_text,
          inserted,
          insert_and_publish,
          published,
          announce,
        )
        (
          refl,
          post_get_lem p (record s.feed { master = db }) get id wanted
              ∙ rw (
                p.db.select-insert_post s.feed.master db author text id id inserted,
                bytes_eq_refl id,
              ),
        )

  -- Where the broker does not confirm the message the request fails, and the post is stored all the
  -- same: GET finds it, and no message about it was published.
  pub post_create-unpublished :
      (s : App p b) (author : Uuid) (request get : HttpRequest) (text : Text) (db : p.db.Db)
      (id : Uuid) (x : Exception)
      → text_at "text" request.json_body ≡ ok text
      → p.db.insert_post s.feed.master author text ≡ ok (db, id)
      → publish_created p b exchange s.broker
          (record { author_id = author; post_id = id; text = text })
        ≡ throw x
      → path_uuid p get ≡ some id
      → ((post_create p b exchange s author request).1 ≡ throw x)
        × ((post_create p b exchange s author request).0.broker ≡ s.broker)
        × (post_get p (post_create p b exchange s author request).0.feed get
            ≡ shown_post p (some (record { post_id = id; text = text; author_user_id = author })))
  unfolding post_create
  post_create-unpublished s author request get text db id x sent inserted failed wanted =
      rw
        (
          has_member_of_text "text" request.json_body text sent,
          sent,
          create_text,
          inserted,
          insert_and_publish,
          failed,
          announce,
        )
        (
          refl,
          refl,
          post_get_lem p (record s.feed { master = db }) get id wanted
              ∙ rw (
                p.db.select-insert_post s.feed.master db author text id id inserted,
                bytes_eq_refl id,
              ),
        )

module _ (p : FeedPlatform) (s : FeedState p) (user : Uuid) (request : HttpRequest) where
  dropped_own :
      (db : p.db.Db) (v : Uuid)
      → p.redis.contents (invalidate_feed p (record s { master = db }) user).cache (make_key p v)
        ≡ (if bytes_eq user v then [] else p.redis.contents s.cache (make_key p v))
  dropped_own db v = invalidate_feed-contents p (record s { master = db }) user v

  invalidate_feed-master :
      (db : p.db.Db) → (invalidate_feed p (record s { master = db }) user).master ≡ db
  unfolding invalidate_feed
  invalidate_feed-master db = refl

  -- Adding a friend makes the user a follower in the master database and drops the user's cached feed
  -- and no other; where the statement fails, nothing has changed.
  pub friend_add_lem :
      (friend : Uuid)
      → path_uuid p request ≡ some friend
      → ((db : p.db.Db)
          → p.db.insert_friendship s.master user friend ≡ ok db
          → ((friend_add p s user request).1 ≡ ok (record { status = status_ok; body = empty }))
            × (mem_bytes user (p.db.followers (friend_add p s user request).0.master friend) ≡ true)
            × ((v : Uuid)
                → p.redis.contents (friend_add p s user request).0.cache (make_key p v)
                  ≡ (if bytes_eq user v then [] else p.redis.contents s.cache (make_key p v))))
        × ((x : Exception)
            → p.db.insert_friendship s.master user friend ≡ throw x
            → friend_add p s user request ≡ (s, throw x))
  unfolding friend_add
  friend_add_lem friend valid = (
    λ db h.
        rw (valid, friend_add, h, befriend)
          (
            refl,
            rw (
              invalidate_feed-master,
              p.db.followers-insert_friendship s.master db user friend h,
              bytes_eq_refl friend,
              bytes_eq_refl user,
            ),
            dropped_own db,
          ),
    λ x h. rw (valid, friend_add, h, befriend),
  )

  -- Removing a friend ends the friendship in the master database and drops the user's cached feed and
  -- no other.
  pub friend_delete_lem :
      (friend : Uuid)
      → path_uuid p request ≡ some friend
      → ((friend_delete p s user request).1 ≡ ok (record { status = status_ok; body = empty }))
        × (mem_bytes user (p.db.followers (friend_delete p s user request).0.master friend) ≡ false)
        × ((v : Uuid)
            → p.redis.contents (friend_delete p s user request).0.cache (make_key p v)
              ≡ (if bytes_eq user v then [] else p.redis.contents s.cache (make_key p v)))
  unfolding friend_delete
  friend_delete_lem friend valid =
      rw (valid, friend_delete)
        (
          refl,
          rw (
            invalidate_feed-master,
            p.db.followers-delete_friendship,
            bytes_eq_refl friend,
            bytes_eq_refl user,
          ),
          dropped_own _,
        )

  -- Adding a friend makes the user a follower in the master database and drops the user's cached feed
  -- and no other, where the statement succeeds.
  pub friend_add-ok :
      (friend : Uuid) (db : p.db.Db)
      → path_uuid p request ≡ some friend
      → p.db.insert_friendship s.master user friend ≡ ok db
      → ((friend_add p s user request).1 ≡ ok (record { status = status_ok; body = empty }))
        × (mem_bytes user (p.db.followers (friend_add p s user request).0.master friend) ≡ true)
        × ((v : Uuid)
            → p.redis.contents (friend_add p s user request).0.cache (make_key p v)
              ≡ (if bytes_eq user v then [] else p.redis.contents s.cache (make_key p v)))
  friend_add-ok friend db valid h = (friend_add_lem friend valid).0 db h
