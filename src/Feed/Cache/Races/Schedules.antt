-- ===== src/Feed/Cache/Races/Schedules.antt =====
-- Every order in which two requests, the replica, the consumer and the handlers that drop feeds can take
-- their turns.
use otus_highload_architect.Feed.Cache.Pages.{Caches, page}
use otus_highload_architect.Prelude.{
  ◌+◌, ◌^◌, ◌<◌, ok, ℕ, suc, ◌≡◌, ◌⊎◌, List, [], ◌∷◌, Uuid, Outcome,
}
use otus_highload_architect.Prelude.Int.{ℤ}
use otus_highload_architect.Platform.Posts.{FeedPost}
use otus_highload_architect.Feed.Cache.{FeedPlatform, FeedState, slice}
use otus_highload_architect.Feed.Cache.Races.{
  post_changed, friends_changed, Reader, asking, hit, missed, loaded, pushed, finished, Race, Turn,
  of_first, of_second, replica, consumer, turn,
}

-- The commands that a request has left, at most.
unfoldable pub commands_left : Reader → ℕ
commands_left asking = 4
commands_left missed = 3
commands_left (loaded feed) = 2
commands_left hit = 1
commands_left (pushed feed) = 1
commands_left (finished page) = 0

module _ (p : FeedPlatform) where
  -- The turns of the first request.
  unfoldable pub first_turns : List (Turn p) → ℕ
  first_turns [] = 0
  first_turns (of_first ∷ ts) = suc (first_turns ts)
  first_turns (of_second ∷ ts) = first_turns ts
  first_turns (replica db ∷ ts) = first_turns ts
  first_turns (consumer author post_id text ∷ ts) = first_turns ts
  first_turns (post_changed author ∷ ts) = first_turns ts
  first_turns (friends_changed user ∷ ts) = first_turns ts

module _ (p : FeedPlatform) (user : Uuid) (offset limit : ℤ) where
  -- It holds in some state of the run.
  abbrev pub Seen : (FeedState p → Type 0) → Race p → List (Turn p) → Type 0
  Seen P r [] = P r.feed
  Seen P r (t ∷ ts) = P r.feed ⊎ Seen P (turn p user offset limit r t) ts

  -- What is known of the answer already.
  Origin : Reader → Outcome (List FeedPost) → Type 0
  Origin asking a = ⊥
  Origin hit a = ⊥
  Origin missed a = ⊥
  Origin (loaded feed) a = a ≡ slice p feed offset limit
  Origin (pushed feed) a = a ≡ slice p feed offset limit
  Origin (finished page) a = a ≡ page

module _ (p : FeedPlatform) (user : Uuid) (o l : ℕ) (fits : o + suc l < 2 ^ 31) where
  -- The page of the feed that is cached for the user, or of the rows that the replica has.
  abbrev pub Answers : Outcome (List FeedPost) → FeedState p → Type 0
  Answers a s =
      (feed : List FeedPost) × (Caches p s user feed ⊎ (feed ≡ p.db.feed_rows s.slave user))
      × (a ≡ ok (page o (suc l) feed))
