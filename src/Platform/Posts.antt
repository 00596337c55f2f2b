-- ===== src/Platform/Posts.antt =====
-- PostgreSQL, as far as posts and friendships go: one operation for each SQL statement that the
-- program sends, with what the statement is documented to return. A `Db` is what one host of the
-- cluster holds; the master and a replica are two values of it.
use otus_highload_architect.Prelude.{
  ◌≤◌, ◌≡◌, not, ◌&&◌, ◌||◌, Option, none, some, List, if◌then◌else◌, length, Text, Uuid, bytes_eq,
  mem_bytes, IsDistinct, Outcome, ok,
}
use mathlib.Core.Option

-- A row of `posts`, as the feed keeps it.
pub record FeedPost : Type 0 where
  pub post_id : Uuid
  pub text : Text
  pub author_user_id : Uuid

abbrev pub retext : Text → FeedPost → FeedPost
retext text post = record post { text = text }

abbrev pub author_of : FeedPost → Uuid
author_of post = post.author_user_id

pub record PostDb : Type 1 where
  pub Db : Type 0
  -- SELECT user_id FROM friendships WHERE friend_id = $1
  pub followers : Db → Uuid → List Uuid
  -- SELECT ... FROM posts INNER JOIN friendships ... ORDER BY created_at DESC LIMIT 1000
  pub feed_rows : Db → Uuid → List FeedPost
  -- SELECT post_id, text, author_user_id FROM posts WHERE post_id = $1
  pub select_post : Db → Uuid → Option FeedPost
  -- INSERT INTO posts (author_user_id, text) VALUES ($1, $2) RETURNING post_id
  pub insert_post : Db → Uuid → Text → Outcome (Db × Uuid)
  -- UPDATE posts SET text = $2 WHERE post_id = $1 RETURNING author_user_id
  pub update_post : Db → Uuid → Text → Db × Option Uuid
  -- DELETE FROM posts WHERE post_id = $1 RETURNING author_user_id
  pub delete_post : Db → Uuid → Db × Option Uuid
  -- INSERT INTO friendships (user_id, friend_id) VALUES ($1, $2) ON CONFLICT DO NOTHING
  pub insert_friendship : Db → Uuid → Uuid → Outcome Db
  -- DELETE FROM friendships WHERE user_id = $1 AND friend_id = $2
  pub delete_friendship : Db → Uuid → Uuid → Db
  -- the primary key of `friendships` is the pair of its columns
  pub followers-IsDistinct : (d : Db) (author : Uuid) → IsDistinct (followers d author)
  -- LIMIT 1000
  pub feed_rows-le : (d : Db) (user : Uuid) → length (feed_rows d user) ≤ 1000
  pub followers-insert_friendship :
      (d d' : Db) (user friend : Uuid)
      → insert_friendship d user friend ≡ ok d'
      → (author follower : Uuid)
      → mem_bytes follower (followers d' author) ≡ (
          (bytes_eq friend author && bytes_eq user follower)
          || mem_bytes follower (followers d author))
  pub followers-delete_friendship :
      (d : Db) (user friend author follower : Uuid)
      → mem_bytes follower (followers (delete_friendship d user friend) author) ≡ (
          not (bytes_eq friend author && bytes_eq user follower)
          && mem_bytes follower (followers d author))
  pub select-insert_post :
      (d d' : Db) (author : Uuid) (text : Text) (id j : Uuid)
      → insert_post d author text ≡ ok (d', id)
      → select_post d' j ≡ (
          if bytes_eq id j
          then some (record { post_id = id; text = text; author_user_id = author })
          else select_post d j)
  pub select-update_post :
      (d : Db) (id : Uuid) (new_text : Text) (j : Uuid)
      → select_post (update_post d id new_text).0 j ≡ (
          if bytes_eq id j then Option.map (retext new_text) (select_post d j) else select_post d j)
  pub update_post-author :
      (d : Db) (id : Uuid) (new_text : Text)
      → (update_post d id new_text).1 ≡ Option.map author_of (select_post d id)
  pub select-delete_post :
      (d : Db) (id j : Uuid)
      → select_post (delete_post d id).0 j ≡ (if bytes_eq id j then none else select_post d j)
  pub delete_post-author :
      (d : Db) (id : Uuid) → (delete_post d id).1 ≡ Option.map author_of (select_post d id)
