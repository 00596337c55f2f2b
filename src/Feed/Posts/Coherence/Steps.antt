-- ===== src/Feed/Posts/Coherence/Steps.antt =====
-- After any steps the cached feeds are a view of the database.
use otus_highload_architect.Prelude.{ℕ, suc, ◌+◌, ◌^◌, ◌<◌, ◌≡◌, ap, ◌∙◌, List, [], ◌∷◌, Uuid, ok}
use otus_highload_architect.Prelude.Int.{pos}
use otus_highload_architect.Feed.Cache.{FeedPlatform, FeedState, get_feed}
use otus_highload_architect.Feed.Cache.Pages.{Caches, page}
use otus_highload_architect.Feed.Cache.Refinement.{get_feed-refines}
use otus_highload_architect.Feed.Posts.Coherence.{
  FeedRows, FeedStep, created, updated, deleted, befriended, unfriended, read, take_step,
  take_steps, IsCoherent, Shows-drop,
}
use otus_highload_architect.Feed.Posts.Coherence.Reads.{created-IsCoherent, read-IsCoherent}
use otus_highload_architect.Feed.Posts.Coherence.Writes.{
  updated-IsCoherent, deleted-IsCoherent, befriended-IsCoherent, unfriended-IsCoherent,
}

module _ (p : FeedPlatform) (g : FeedRows p.db) where
  step-IsCoherent :
      (s : FeedState p) (step : FeedStep) → IsCoherent p s → IsCoherent p (take_step p s step)
  step-IsCoherent s (created author text) h = created-IsCoherent p g s author text h
  step-IsCoherent s (updated id text) h = updated-IsCoherent p g s id text h
  step-IsCoherent s (deleted id) h = deleted-IsCoherent p g s id h
  step-IsCoherent s (befriended user friend) h = befriended-IsCoherent p g s user friend h
  step-IsCoherent s (unfriended user friend) h = unfriended-IsCoherent p g s user friend h
  step-IsCoherent s (read user offset limit) h = read-IsCoherent p s user offset limit h

  take_steps-IsCoherent :
      (steps : List FeedStep) (s : FeedState p)
      → IsCoherent p s
      → IsCoherent p (take_steps p s steps)
  unfolding take_steps
  take_steps-IsCoherent [] s h = h
  take_steps-IsCoherent (step ∷ steps) s h =
      take_steps-IsCoherent steps (take_step p s step) (step-IsCoherent s step h)

  -- The cached feeds refine the database, where its statements keep the rows of a feed as `FeedRows` says.
  -- The replica is level with the master and takes over each write at once, and the event of a new post
  -- is handled before anything else happens. Then, from a state where nothing is cached, after any posts
  -- created, updated and deleted, friends added and removed and pages read, a request with an offset
  -- that is not negative, a positive limit and an end that fits an `int` answers with that page of the
  -- rows that the database has for the user.
  pub take_steps-refines :
      (s : FeedState p) (steps : List FeedStep) (user : Uuid) (o l : ℕ)
      → s.slave ≡ s.master
      → ((v : Uuid) → Caches p s v [])
      → o + suc l < 2 ^ 31
      → let t = take_steps p s steps in
        (get_feed p t user (pos o) (pos (suc l))).1
        ≡ ok (page o (suc l) (p.db.feed_rows t.master user))
  take_steps-refines s steps user o l level empty small =
      let t : FeedState p = take_steps p s steps in
      let h : IsCoherent p t =
        take_steps-IsCoherent steps s
          (record { level = level; view = λ v. Shows-drop p s v (empty v) }) in
      (get_feed-refines p t user o l (p.db.feed_rows t.slave user) small (h.view user)).0
      ∙ ap (λ d. ok (page o (suc l) (p.db.feed_rows d user))) h.level
