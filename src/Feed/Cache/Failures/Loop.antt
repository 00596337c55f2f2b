-- ===== src/Feed/Cache/Failures/Loop.antt =====
-- What a run of the loop over the followers leaves in the cache, and where it stops.
use otus_highload_architect.Prelude.{
  ◌≡◌, refl, ap, ◌⊎◌, inl, inr, false, List, [], ◌∷◌, ◌++◌, arith, if◌then◌else◌, Bool-cases,
  is_empty, Uuid, bytes_eq, bytes_eq_iff, bytes_eq_refl, mem_bytes, IsDistinct, database_error,
  Outcome, ok, throw,
}
use mathlib.Core.Path.{subst}
use otus_highload_architect.Platform.Connections.{Connection, up, down, lost}
use otus_highload_architect.Feed.Cache.{FeedPlatform, make_key}
use otus_highload_architect.Feed.Cache.Keys.{make_key-eq}
use otus_highload_architect.Feed.Cache.Pages.{range-trim}
use otus_highload_architect.Feed.Cache.Fanout.{bump}
use otus_highload_architect.Feed.Cache.Failures.{
  Commands, try_add, try_checked, try_push_to_follower, try_push_to_followers,
}

module _ (p : FeedPlatform) where
  abbrev pub cached : p.redis.Store → Uuid → List p.json.Document
  cached cache v = p.redis.contents cache (make_key p v)

  -- What a command that fails leaves behind for its follower: the feed as it was, or the post in front of
  -- it, with nothing cut off yet or, where only the answer of LTRIM was lost, cut to the largest size.
  abbrev pub LeftBehind : p.json.Document → List p.json.Document → List p.json.Document → Type 0
  LeftBehind d before after =
      (after ≡ before)
      ⊎ ((is_empty before ≡ false) × ((after ≡ d ∷ before) ⊎ (after ≡ bump d before)))

  -- One round succeeds with the feed bumped, or throws; other feeds are left alone.
  abbrev Round :
      p.json.Document → p.redis.Store → Uuid → p.redis.Store × Outcome (Unit {0}) → Type 0
  Round d cache f r =
      ((v : Uuid) → bytes_eq f v ≡ false → cached r.0 v ≡ cached cache v)
      × (((r.1 ≡ ok tt) × (cached r.0 f ≡ bump d (cached cache f)))
          ⊎ ((r.1 ≡ throw database_error) × LeftBehind d (cached cache f) (cached r.0 f)))

  added_lem :
      (push trim : Connection) (d : p.json.Document) (cache : p.redis.Store) (f : Uuid)
      (y : p.json.Document) (ys : List p.json.Document)
      → cached cache f ≡ y ∷ ys
      → Round d cache f (try_add p push trim d cache (make_key p f))
  unfolding try_add
  added_lem down trim d cache f y ys e = (λ v h. refl, inr (refl, inl refl))
  added_lem up down d cache f y ys e = (
    λ v h. rw (p.redis.contents-lpush, make_key-eq, h),
    inr (refl, inr (rw e refl, inl (rw (p.redis.contents-lpush, bytes_eq_refl)))),
  )
  added_lem lost trim d cache f y ys e = (
    λ v h. rw (p.redis.contents-lpush, make_key-eq, h),
    inr (refl, inr (rw e refl, inl (rw (p.redis.contents-lpush, bytes_eq_refl)))),
  )
  added_lem up lost d cache f y ys e = (
    λ v h. rw (p.redis.contents-ltrim, make_key-eq, h, p.redis.contents-lpush, make_key-eq, h),
    inr (
      refl,
      inr (
        rw e refl,
        inr (
            rw (p.redis.contents-ltrim, bytes_eq_refl, p.redis.contents-lpush, bytes_eq_refl, e)
              (range-trim _)),
      ),
    ),
  )
  added_lem up up d cache f y ys e = (
    λ v h. rw (p.redis.contents-ltrim, make_key-eq, h, p.redis.contents-lpush, make_key-eq, h),
    inl (
      refl,
      rw (p.redis.contents-ltrim, bytes_eq_refl, p.redis.contents-lpush, bytes_eq_refl, e)
          (range-trim _),
    ),
  )

  checked_lem :
      (first : Connection) (c : Commands) (d : p.json.Document) (cache : p.redis.Store) (f : Uuid)
      (xs : List p.json.Document)
      → cached cache f ≡ xs
      → Round d cache f (try_checked p first c d cache (make_key p f))
  unfolding try_checked
  checked_lem down c d cache f xs e = (λ v h. refl, inr (refl, inl refl))
  checked_lem lost c d cache f xs e = (λ v h. refl, inr (refl, inl refl))
  checked_lem up c d cache f [] e = rw (p.redis.exists_lem, e) (λ v h. refl, inl (refl, e))
  checked_lem up c d cache f (y ∷ ys) e =
      let added = added_lem c.lpush c.ltrim d cache f y ys e in
      rw (p.redis.exists_lem, e) (rw e at added)

  round_lem :
      (c : Commands) (d : p.json.Document) (cache : p.redis.Store) (f : Uuid)
      → Round d cache f (try_push_to_follower p c d cache f)
  unfolding try_push_to_follower
  round_lem c d cache f = checked_lem c.exists c d cache f _ refl

  -- The followers before the one whose command fails have the post, those after it do not.
  abbrev pub Stopped : p.json.Document → p.redis.Store → List Uuid → p.redis.Store → Type 0
  Stopped d cache fs after =
      (done : List Uuid) × (failed : Uuid) × (rest : List Uuid) × (fs ≡ done ++ failed ∷ rest)
      × LeftBehind d (cached cache failed) (cached after failed)
      × ((v : Uuid)
          → bytes_eq failed v ≡ false
          → cached after v ≡ (if mem_bytes v done then bump d (cached cache v) else cached cache v))

  -- A round that succeeds, as one equation for every feed.
  bumped_view :
      (d : p.json.Document) (cache after : p.redis.Store) (f v : Uuid)
      → (bytes_eq f v ≡ false → cached after v ≡ cached cache v)
      → cached after f ≡ bump d (cached cache f)
      → cached after v ≡ (if bytes_eq f v then bump d (cached cache v) else cached cache v)
  bumped_view d cache after f v others bumped = elim (Bool-cases (bytes_eq f v)) [
    | inl e ↦
        rw e (subst (λ x. cached after x ≡ bump d (cached cache x)) ((bytes_eq_iff f v).0 e) bumped)
    | inr e ↦ rw e (others e)
  ]

  kept_before :
      (f g : Uuid) (done rest : List Uuid)
      → mem_bytes f (done ++ g ∷ rest) ≡ false
      → (bytes_eq g f ≡ false) × (mem_bytes f done ≡ false)
  unfolding mem_bytes
  kept_before f g [] rest h = ground arith
  kept_before f g (x ∷ done) rest h = ground (arith, kept_before f g done rest)

  later_Stopped :
      (d : p.json.Document) (cache middle after : p.redis.Store) (f : Uuid) (fs : List Uuid)
      → ((v : Uuid)
          → cached middle v ≡ (if bytes_eq f v then bump d (cached cache v) else cached cache v))
      → mem_bytes f fs ≡ false
      → Stopped d middle fs after
      → Stopped d cache (f ∷ fs) after
  unfolding mem_bytes
  later_Stopped d cache middle after f fs view fresh (done, g, rest, e, left, seen) =
      let (apart, before) = kept_before f g done rest (rw e at fresh) in
      let same : cached middle g ≡ cached cache g =
        ground (arith, view g, apart, bytes_eq_iff f g, bytes_eq_iff g f) in
      (
        f ∷ done,
        g,
        rest,
        ap (λ l. f ∷ l) e,
        rw same at left,
        λ v other. ground (arith, seen v other, view v, before, bytes_eq_iff f v),
      )

  pub loop_lem :
      (links : Uuid → Commands) (d : p.json.Document) (cache : p.redis.Store) (fs : List Uuid)
      → IsDistinct fs
      → let r = try_push_to_followers p links d cache fs in
        ((r.1 ≡ ok tt)
          × ((v : Uuid)
              → cached r.0 v
                ≡ (if mem_bytes v fs then bump d (cached cache v) else cached cache v)))
        ⊎ ((r.1 ≡ throw database_error) × Stopped d cache fs r.0)
  unfolding try_push_to_followers mem_bytes
  loop_lem links d cache [] h = inl (refl, λ v. refl)
  loop_lem links d cache (f ∷ fs) h =
      let (others, ends) = round_lem (links f) d cache f in
      let middle = (try_push_to_follower p (links f) d cache f).0 in
      elim ends [
        | inl (fine, bumped) ↦
            let view = λ (v : Uuid). bumped_view d cache middle f v (others v) bumped in
            rw (try_push_to_followers, fine)
              (elim (loop_lem links d middle fs h.1) [
                | inl (all, seen) ↦
                    inl (all, λ v. ground (arith, seen v, view v, bytes_eq_iff f v, h.0))
                | inr (stopped, there) ↦
                    inr (stopped, later_Stopped d cache middle _ f fs view h.0 there)
              ])
        | inr (failed, left) ↦
            rw (try_push_to_followers, failed) (inr (refl, ([], f, fs, refl, left, others)))
      ]
