-- ===== src/Feed/Cache/Failures/Redelivery.antt =====
-- A new post whose run fails, and is handled again.
use otus_highload_architect.Prelude.{
  take-take, ◌≡◌, refl, ap, ◌∙◌, ◌⊎◌, inl, inr, true, false, ◌||◌, List, [], ◌∷◌, ◌++◌, arith,
  if◌then◌else◌, is_empty, Text, Uuid, bytes_eq, bytes_eq_refl, mem_bytes, database_error, ok,
  throw,
}
use otus_highload_architect.Platform.Connections.{up}
use otus_highload_architect.Feed.Cache.{
  FeedPlatform, FeedState, serialize_post, on_post_created, get_followers,
}
use otus_highload_architect.Feed.Cache.Fanout.{bump, fan_out_lem}
use otus_highload_architect.Feed.Cache.Failures.{Commands, try_on_post_created}
use otus_highload_architect.Feed.Cache.Failures.Loop.{cached, LeftBehind, Stopped, loop_lem}

module _ (p : FeedPlatform) where
  -- The document that is put into the feeds for a post.
  abbrev pub created_document : Uuid → Uuid → Text → p.json.Document
  created_document author post_id text =
      serialize_post p (record { post_id = post_id; text = text; author_user_id = author })

  mem-split :
      (v failed : Uuid) (done rest : List Uuid)
      → mem_bytes v (done ++ failed ∷ rest)
        ≡ (mem_bytes v done || (bytes_eq failed v || mem_bytes v rest))
  unfolding mem_bytes
  mem-split v failed [] rest = refl
  mem-split v failed (x ∷ done) rest = ground (arith, mem-split v failed done rest)

  module _ (links : Uuid → Commands) (s : FeedState p) (author post_id : Uuid) (text : Text) where
    -- A new post where any command may fail. Without an exception every follower that has a feed in the
    -- cache has the post at its front, cut to the largest size, and nobody else's feed has changed. With
    -- one, the followers in front of the one whose command failed have the post, those behind it and
    -- all other users do not, and that one has the old feed, or the post in front of the old feed, which
    -- is whole or cut to the largest size.
    pub try_on_post_created_lem :
        let r = try_on_post_created p up links s author post_id text in
        let d = created_document author post_id text in
        let fs = p.db.followers s.slave author in
        ((r.1 ≡ ok tt)
          × ((v : Uuid)
              → cached p r.0.cache v
                ≡ (if mem_bytes v fs then bump d (cached p s.cache v) else cached p s.cache v)))
        ⊎ ((r.1 ≡ throw database_error) × Stopped p d s.cache fs r.0.cache)
    unfolding try_on_post_created get_followers
    try_on_post_created_lem =
        loop_lem p links (created_document author post_id text) s.cache
          (p.db.followers s.slave author) (p.db.followers-IsDistinct s.slave author)

    -- What is cached p once the message of a failed run has been handled again, with success: twice the
    -- post for the followers that had it, once for the others, and for the one that it failed at once or
    -- twice.
    abbrev pub Redelivered : FeedState p → Type 0
    Redelivered t =
        let d = created_document author post_id text in
        (done : List Uuid) × (failed : Uuid) × (rest : List Uuid) × (p.db.followers s.slave author
          ≡ done ++ failed ∷ rest)
        × ((cached p t.cache failed ≡ bump d (cached p s.cache failed))
            ⊎ ((is_empty (cached p s.cache failed) ≡ false)
                × (cached p t.cache failed ≡ bump d (d ∷ cached p s.cache failed))))
        × ((v : Uuid)
            → bytes_eq failed v ≡ false
            → cached p t.cache v ≡ (
                if mem_bytes v done
                then bump d (bump d (cached p s.cache v))
                else if mem_bytes v rest
                then bump d (cached p s.cache v)
                else cached p s.cache v))

    again :
        (v : Uuid)
        → let t : FeedState p = (try_on_post_created p up links s author post_id text).0 in
          cached p (on_post_created p t author post_id text).cache v ≡ (
            if mem_bytes v (p.db.followers s.slave author)
            then bump (created_document author post_id text) (cached p t.cache v)
            else cached p t.cache v)
    unfolding try_on_post_created get_followers on_post_created
    again v =
        fan_out_lem p (created_document author post_id text) _ (p.db.followers s.slave author) v
          (p.db.followers-IsDistinct s.slave author)

    -- The list behind the new post may be cut before or after the next one is put in front of it.
    bump-bumped :
        (d : p.json.Document) (before : List p.json.Document)
        → is_empty before ≡ false
        → bump d (bump d before) ≡ bump d (d ∷ before)
    bump-bumped d [] full = absurd (ground (arith, full))
    bump-bumped d (x ∷ xs) full = ap (λ l. d ∷ l) (take-take 999 1000 (d ∷ x ∷ xs) (omega arith))

    after_left :
        (d : p.json.Document) (before left after : List p.json.Document)
        → LeftBehind p d before left
        → after ≡ bump d left
        → (after ≡ bump d before) ⊎ ((is_empty before ≡ false) × (after ≡ bump d (d ∷ before)))
    after_left d before left after (inl e) h = inl (h ∙ ap (bump d) e)
    after_left d before left after (inr (full, inl e)) h = inr (full, h ∙ ap (bump d) e)
    after_left d before left after (inr (full, inr e)) h =
        inr (full, h ∙ ap (bump d) e ∙ bump-bumped d before full)

    Stopped-Redelivered :
        (t : FeedState p)
        → Stopped p
            (created_document author post_id text)
            s.cache
            (p.db.followers s.slave author)
            t.cache
        → (u : FeedState p)
        → ((v : Uuid)
            → cached p u.cache v ≡ (
                if mem_bytes v (p.db.followers s.slave author)
                then bump (created_document author post_id text) (cached p t.cache v)
                else cached p t.cache v))
        → Redelivered u
    Stopped-Redelivered t (done, failed, rest, e, left, seen) u twice =
        let there : mem_bytes failed (p.db.followers s.slave author) ≡ true = ground (
          arith,
          ap (mem_bytes failed) e,
          mem-split failed failed done rest,
          bytes_eq_refl failed,
        ) in
        (
          done,
          failed,
          rest,
          e,
          after_left (created_document author post_id text) (cached p s.cache failed)
              (cached p t.cache failed) (cached p u.cache failed) left (rw there at (twice failed)),
          λ v other. ground (
            arith,
            twice v,
            seen v other,
            ap (mem_bytes v) e,
            mem-split v failed done rest,
            other,
          ),
        )

    -- Where a run fails at a command, and the message is then handled again with success, the followers
    -- that had the post have it twice, cut to the largest size; those behind the one that it failed at
    -- have it once, that one has it once or twice, and nobody else's feed has changed.
    pub try_on_post_created-Redelivered :
        (try_on_post_created p up links s author post_id text).1 ≡ throw database_error
        → Redelivered (
            on_post_created p
              (try_on_post_created p up links s author post_id text).0
              author
              post_id
              text)
    try_on_post_created-Redelivered h = elim try_on_post_created_lem [
      | inl (fine, view) ↦ absurd (ground (arith, h, fine))
      | inr (failed_run, there) ↦
          let t : FeedState p = (try_on_post_created p up links s author post_id text).0 in
          let u : FeedState p = on_post_created p t author post_id text in
          Stopped-Redelivered t there u again
    ]
