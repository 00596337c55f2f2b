-- ===== src/Feed/Posts/Lag.antt =====
-- What a replica that is behind does to a feed, and a friendship that is made and ended again.
use otus_highload_architect.Prelude.{
  ℕ, suc, ◌+◌, ◌^◌, ◌<◌, ◌≡◌, refl, ap, ◌∙◌, true, false, some, List, [], ◌∷◌, arith, if◌then◌else◌,
  Uuid, bytes_eq, bytes_eq_refl, mem_bytes, ok,
}
use otus_highload_architect.Prelude.Int.{pos}
use otus_highload_architect.Platform.Http.{HttpRequest, status_ok, empty}
use otus_highload_architect.Platform.Posts.{FeedPost}
use otus_highload_architect.Feed.Cache.{
  FeedPlatform, FeedState, make_key, get_feed, invalidate_feed,
}
use otus_highload_architect.Feed.Cache.Pages.{Caches, page, get_feed-miss, get_feed-hit}
use otus_highload_architect.Feed.Posts.{path_uuid, friend_add, friend_delete, befriend}
use otus_highload_architect.Feed.Posts.Friends.{friend_add-ok, friend_delete_lem}

module _ (p : FeedPlatform) (s : FeedState p) (user : Uuid) where
  friend_add-slave :
      (request : HttpRequest) (friend : Uuid) (db : p.db.Db)
      → path_uuid p request ≡ some friend
      → p.db.insert_friendship s.master user friend ≡ ok db
      → (friend_add p s user request).0.slave ≡ s.slave
  unfolding friend_add invalidate_feed
  friend_add-slave request friend db valid h = rw (valid, friend_add, h, befriend) refl

  -- After a friend is added, a reader whose request comes while the replica does not have the
  -- friendship yet fills the cache with the feed of before; from then on the same page comes from
  -- that feed, whatever the replica holds, where that feed was not empty.
  pub friend_add-stale :
      (request : HttpRequest) (friend : Uuid) (db later : p.db.Db) (post : FeedPost)
      (rest : List FeedPost) (o l : ℕ)
      → path_uuid p request ≡ some friend
      → p.db.insert_friendship s.master user friend ≡ ok db
      → p.db.feed_rows s.slave user ≡ post ∷ rest
      → o + suc l < 2 ^ 31
      → let read = (get_feed p (friend_add p s user request).0 user (pos o) (pos (suc l))).0 in
        get_feed p (record read { slave = later }) user (pos o) (pos (suc l))
        ≡ (record read { slave = later }, ok (page o (suc l) (post ∷ rest)))
  friend_add-stale request friend db later post rest o l valid h rows small =
      let added : FeedState p = (friend_add p s user request).0 in
      let read : FeedState p = (get_feed p added user (pos o) (pos (suc l))).0 in
      let dropped : Caches p added user [] =
        rw (bytes_eq_refl user) at ((friend_add-ok p s user request friend db valid h).2 user) in
      let filled : Caches p read user (p.db.feed_rows added.slave user) =
        (get_feed-miss p added user o (suc l) small dropped).1 in
      let same : p.db.feed_rows added.slave user ≡ post ∷ rest =
        ap (λ d. p.db.feed_rows d user) (friend_add-slave request friend db valid h) ∙ rows in
      get_feed-hit p (record read { slave = later }) user o l post rest small (rw same at filled)

  -- A friend who is added and removed again: both requests answer 200, the user is a follower in the
  -- master database after the first and is not after the second, and in the end the user's cached feed is
  -- dropped and no other.
  pub friend_delete-friend_add :
      (request removal : HttpRequest) (friend : Uuid) (db : p.db.Db) (v : Uuid)
      → path_uuid p request ≡ some friend
      → path_uuid p removal ≡ some friend
      → p.db.insert_friendship s.master user friend ≡ ok db
      → let added = (friend_add p s user request).0 in
        let removed = (friend_delete p added user removal).0 in
        ((friend_add p s user request).1 ≡ ok (record { status = status_ok; body = empty }))
        × (mem_bytes user (p.db.followers added.master friend) ≡ true)
        × ((friend_delete p added user removal).1
            ≡ ok (record { status = status_ok; body = empty }))
        × (mem_bytes user (p.db.followers removed.master friend) ≡ false)
        × (p.redis.contents removed.cache (make_key p v)
            ≡ (if bytes_eq user v then [] else p.redis.contents s.cache (make_key p v)))
  friend_delete-friend_add request removal friend db v valid again h =
      let (answered, follows, dropped) = friend_add-ok p s user request friend db valid h in
      let (gone, left, cleared) =
        friend_delete_lem p (friend_add p s user request).0 user removal friend again in
      (answered, follows, gone, left, ground (arith, cleared v, dropped v))
