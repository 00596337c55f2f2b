-- ===== src/Feed/Posts/Coherence.antt =====
-- The cached feeds as a view of the database, under a replica that keeps up: what the handlers of posts
-- and friendships and the consumer of the feed do to it together.
pub mod Reads
pub mod Writes
pub mod Steps
use otus_highload_architect.Prelude.{
  ◌≡◌, refl, sym, ap, ◌∙◌, inl, inr, Bool, true, false, Option, none, some, List, [], ◌∷◌, map,
  if◌then◌else◌, take, Text, Uuid, bytes_eq, mem_bytes, Outcome, ok, throw,
}
use otus_highload_architect.Prelude.Int.{ℤ}
use otus_highload_architect.Platform.Json.{null, make_object, str}
use otus_highload_architect.Platform.Http.{HttpRequest}
use otus_highload_architect.Platform.Posts.{FeedPost, PostDb}
use otus_highload_architect.Feed.Cache.{
  FeedPlatform, FeedState, make_key, serialize_post, get_feed, on_post_created,
}
use otus_highload_architect.Feed.Cache.Pages.{Caches}
use otus_highload_architect.Feed.Cache.Refinement.{Shows}
use otus_highload_architect.Feed.Posts.{post_update, post_delete, friend_add, friend_delete}

-- Whether a user follows the author of a row.
abbrev pub follows_author : (d : PostDb) → d.Db → Option FeedPost → Uuid → Bool
follows_author d db none v = false
follows_author d db (some post) v = mem_bytes v (d.followers db post.author_user_id)

-- What the statements do to the rows that SELECT gives for the feed of a user: a new post is the latest
-- (`created_at` is NOW()) and stands first, and a statement about a post or a friendship that is not the
-- user's to see leaves the rows alone.
pub record FeedRows (d : PostDb) : Type 0 where
  pub followers-insert_post :
      (db after : d.Db) (author : Uuid) (text : Text) (id : Uuid)
      → d.insert_post db author text ≡ ok (after, id)
      → (other : Uuid) → d.followers after other ≡ d.followers db other
  pub feed_rows-insert_post :
      (db after : d.Db) (author : Uuid) (text : Text) (id v : Uuid)
      → d.insert_post db author text ≡ ok (after, id)
      → d.feed_rows after v ≡ (
          if mem_bytes v (d.followers db author)
          then take 1000
              (record { post_id = id; text = text; author_user_id = author } ∷ d.feed_rows db v)
          else d.feed_rows db v)
  pub feed_rows-update_post :
      (db : d.Db) (id : Uuid) (text : Text) (v : Uuid)
      → follows_author d db (d.select_post db id) v ≡ false
      → d.feed_rows (d.update_post db id text).0 v ≡ d.feed_rows db v
  pub feed_rows-delete_post :
      (db : d.Db) (id v : Uuid)
      → follows_author d db (d.select_post db id) v ≡ false
      → d.feed_rows (d.delete_post db id).0 v ≡ d.feed_rows db v
  pub feed_rows-insert_friendship :
      (db after : d.Db) (user friend v : Uuid)
      → d.insert_friendship db user friend ≡ ok after
      → bytes_eq user v ≡ false
      → d.feed_rows after v ≡ d.feed_rows db v
  pub feed_rows-delete_friendship :
      (db : d.Db) (user friend v : Uuid)
      → bytes_eq user v ≡ false
      → d.feed_rows (d.delete_friendship db user friend) v ≡ d.feed_rows db v

-- A write with all that follows it, or a read of any page.
pub data FeedStep : Type 0 where
  created : Uuid → Text → FeedStep
  updated : Uuid → Text → FeedStep
  deleted : Uuid → FeedStep
  befriended unfriended : Uuid → Uuid → FeedStep
  read : Uuid → ℤ → ℤ → FeedStep

module _ (p : FeedPlatform) where
  -- The replica takes over what the master holds.
  abbrev pub replicate : FeedState p → FeedState p
  replicate s = record s { slave = s.master }

  abbrev pub edit_request : Uuid → Text → HttpRequest
  edit_request id text = record {
    path_arg = [];
    args = [];
    json_body = make_object (("id", str (p.uuids.to_string id)) ∷ ("text", str text) ∷ []);
  }

  abbrev pub id_request : Uuid → HttpRequest
  id_request id = record { path_arg = p.uuids.to_string id; args = []; json_body = null }

  after_insert : FeedState p → Uuid → Text → Outcome (p.db.Db × Uuid) → FeedState p
  after_insert s author text (throw e) = s
  after_insert s author text (ok (db, id)) =
      on_post_created p (record s { master = db; slave = db }) author id text

  -- The replica takes over each write before anything else happens; the event of a new post is handled
  -- after that.
  unfoldable pub take_step : FeedState p → FeedStep → FeedState p
  unfolding after_insert
  take_step s (created author text) =
      after_insert s author text (p.db.insert_post s.master author text)
  take_step s (updated id text) = replicate (post_update p s (edit_request id text)).0
  take_step s (deleted id) = replicate (post_delete p s (id_request id)).0
  take_step s (befriended user friend) = replicate (friend_add p s user (id_request friend)).0
  take_step s (unfriended user friend) = replicate (friend_delete p s user (id_request friend)).0
  take_step s (read user offset limit) = (get_feed p s user offset limit).0

  unfoldable pub take_steps : FeedState p → List FeedStep → FeedState p
  take_steps s [] = s
  take_steps s (step ∷ steps) = take_steps (take_step s step) steps

  -- The replica is level with the master, and every user is shown the rows of the database.
  pub record IsCoherent (s : FeedState p) : Type 0 where
    pub level : s.slave ≡ s.master
    pub view : (v : Uuid) → Shows p s v (p.db.feed_rows s.slave v)

  pub Shows-drop :
      (t : FeedState p) (v : Uuid) → Caches p t v [] → Shows p t v (p.db.feed_rows t.slave v)
  Shows-drop t v c = inr (c, refl)

  pub Shows-keep :
      (s t : FeedState p) (v : Uuid)
      → p.redis.contents t.cache (make_key p v) ≡ p.redis.contents s.cache (make_key p v)
      → p.db.feed_rows t.slave v ≡ p.db.feed_rows s.slave v
      → Shows p s v (p.db.feed_rows s.slave v)
      → Shows p t v (p.db.feed_rows t.slave v)
  Shows-keep s t v same rows (inl (post, rest, e, c)) =
      inl (post, rest, rows ∙ e, same ∙ c ∙ ap (map (serialize_post p)) (sym rows))
  Shows-keep s t v same rows (inr (c, e)) = inr (same ∙ c, refl)

  -- A write that drops the feeds of some users, and leaves the rows of all others as they were.
  pub Shows-write :
      (s t : FeedState p) (v : Uuid) (dropped : Bool)
      → p.redis.contents t.cache (make_key p v)
        ≡ (if dropped then [] else p.redis.contents s.cache (make_key p v))
      → (dropped ≡ false → p.db.feed_rows t.slave v ≡ p.db.feed_rows s.slave v)
      → Shows p s v (p.db.feed_rows s.slave v)
      → Shows p t v (p.db.feed_rows t.slave v)
  Shows-write s t v true same rows h = Shows-drop t v same
  Shows-write s t v false same rows h = Shows-keep s t v same (rows refl) h
