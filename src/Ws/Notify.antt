-- ===== src/Ws/Notify.antt =====
-- Who is sent a notification: every live session of a follower, once, and nobody else.
use otus_highload_architect.Prelude.{
  ℕ, zero, suc, ◌+◌, ◌≡◌, refl, ap, ◌∙◌, inl, inr, Bool, true, false, List, [], ◌∷◌, ◌++◌, foldl,
  arith, ◌==◌, if◌then◌else◌, Bool-cases, Option-cases, Uuid, bytes_eq_iff, mem_bytes, IsDistinct,
}
use mathlib.Core.List.{append_assoc, append-nil}
use otus_highload_architect.Prelude.Maps.{lookup}
use otus_highload_architect.Platform.Mailbox.{Mailbox}
use otus_highload_architect.Feed.Cache.{FeedPlatform}
use otus_highload_architect.Feed.Messages.{PostEvent, created_message}
use otus_highload_architect.Ws.{
  Manager, sessions_of, push, notify_user, notify_all, notify_followers,
}
use otus_highload_architect.Ws.Registry.{count, IsTidy}

abbrev pub replicate {ℓ} : {A : Type ℓ} → ℕ → A → List A
replicate zero a = []
replicate (suc n) a = a ∷ replicate n a

replicate-add {ℓ} :
    {A : Type ℓ} (m n : ℕ) (a : A) → replicate m a ++ replicate n a ≡ replicate (m + n) a
replicate-add zero n a = ap (λ k. replicate k a) (omega arith)
replicate-add (suc m) n a =
    let e : suc m + n ≡ suc (m + n) = omega arith in rw e (ap (◌∷◌ a) (replicate-add m n a))

module _ {M : Type 0} {box : Mailbox M} (msg : M) where
  -- The queue of a session after `n` pushes, if the session is alive.
  abbrev Gets : Manager box → Manager box → ℕ → ℕ → Type 0
  Gets w t id n =
      box.contents (t.queue id)
      ≡ box.contents (w.queue id) ++ replicate (if w.alive id then n else 0) msg

  pub record Same (w t : Manager box) : Type 0 where
    pub sessions : t.sessions ≡ w.sessions
    pub alive : t.alive ≡ w.alive
    pub next : t.next ≡ w.next

  push-Same : (w : Manager box) (wp : ℕ) → Same w (push msg w wp)
  unfolding push
  push-Same w wp = record { sessions = ground arith; alive = ground arith; next = ground arith }

  push-Gets : (w : Manager box) (wp id : ℕ) → Gets w (push msg w wp) id (if wp == id then 1 else 0)
  unfolding push
  push-Gets w wp id = ground (
    arith,
    box.contents-push_noblock (w.queue wp) msg,
    append-nil (box.contents (w.queue id)),
    λ (e : wp ≡ id). ap w.alive e,
    λ (e : wp ≡ id). ap (λ x. box.contents (w.queue x)) e,
  )

  Same-trans : {w t u : Manager box} → Same w t → Same t u → Same w u
  Same-trans a b = record {
    sessions = b.sessions ∙ a.sessions;
    alive = b.alive ∙ a.alive;
    next = b.next ∙ a.next;
  }

  Gets-trans :
      (w t u : Manager box) (id m n : ℕ)
      → Same w t
      → Gets w t id m
      → Gets t u id n
      → Gets w u id (m + n)
  Gets-trans w t u id m n s g h = elim (Bool-cases (w.alive id)) [
    | inl e ↦
        let e' : t.alive id ≡ true = ap (λ f. f id) s.alive ∙ e in
        let g' = rw e at g in
        let h' = rw e' at h in rw (e, h', g', append_assoc, replicate-add m n msg)
    | inr e ↦
        let e' : t.alive id ≡ false = ap (λ f. f id) s.alive ∙ e in
        let g' = rw e at g in let h' = rw e' at h in rw (e, h', g') (append-nil _)
  ]

  push_all-Same : (w : Manager box) (l : List ℕ) → Same w (foldl (push msg) w l)
  push_all-Same w [] = record { sessions = refl; alive = refl; next = refl }
  push_all-Same w (x ∷ l) = Same-trans (push-Same w x) (push_all-Same (push msg w x) l)

  push_all-Gets :
      (w : Manager box) (l : List ℕ) (id : ℕ) → Gets w (foldl (push msg) w l) id (count id l)
  push_all-Gets w [] id = ground (arith, append-nil (box.contents (w.queue id)))
  push_all-Gets w (x ∷ l) id =
      Gets-trans w (push msg w x) (foldl (push msg) (push msg w x) l) id _ (count id l)
        (push-Same w x) (push-Gets w x id) (push_all-Gets (push msg w x) l id)

  notify_user-Same : (w : Manager box) (f : Uuid) → Same w (notify_user msg w f)
  unfolding notify_user
  notify_user-Same w f = elim (Option-cases (lookup f w.sessions)) [
    | inl e ↦ rw (e, notify_user) (record { sessions = refl; alive = refl; next = refl })
    | inr (l, e) ↦ rw (e, notify_user) (push_all-Same w l)
  ]

  notify_user-Gets :
      (w : Manager box) (f : Uuid) (id : ℕ)
      → Gets w (notify_user msg w f) id (count id (sessions_of w f))
  unfolding notify_user sessions_of
  notify_user-Gets w f id = elim (Option-cases (lookup f w.sessions)) [
    | inl e ↦ rw (e, notify_user) (ground (arith, append-nil (box.contents (w.queue id))))
    | inr (l, e) ↦ rw (e, notify_user) (push_all-Gets w l id)
  ]

  -- How often the loop over the followers meets a session.
  abbrev times : Manager box → ℕ → List Uuid → ℕ
  times w id [] = 0
  times w id (f ∷ fs) = count id (sessions_of w f) + times w id fs

  times-Same :
      (w t : Manager box) (id : ℕ) (fs : List Uuid) → Same w t → times t id fs ≡ times w id fs
  unfolding sessions_of
  times-Same w t id [] s = refl
  times-Same w t id (f ∷ fs) s = rw (times-Same w t id fs s, s.sessions)

  notify_all-Gets :
      (w : Manager box) (fs : List Uuid) (id : ℕ) → Gets w (notify_all msg w fs) id (times w id fs)
  unfolding notify_all
  notify_all-Gets w [] id = ground (arith, append-nil (box.contents (w.queue id)))
  notify_all-Gets w (f ∷ fs) id =
      Gets-trans w (notify_user msg w f) (foldl (notify_user msg) (notify_user msg w f) fs) id _
        (times w id fs) (notify_user-Same w f) (notify_user-Gets w f id)
        (rw (← times-Same w (notify_user msg w f) id fs (notify_user-Same w f))
          (notify_all-Gets (notify_user msg w f) fs id))

  pub notify_all-Same : (w : Manager box) (fs : List Uuid) → Same w (notify_all msg w fs)
  unfolding notify_all
  notify_all-Same w [] = record { sessions = refl; alive = refl; next = refl }
  notify_all-Same w (f ∷ fs) =
      Same-trans (notify_user-Same w f) (notify_all-Same (notify_user msg w f) fs)

  times-owned :
      (w : Manager box) (id : ℕ) (u : Uuid) (fs : List Uuid)
      → IsTidy w
      → IsDistinct fs
      → count id (sessions_of w u) ≡ 1
      → times w id fs ≡ (if mem_bytes u fs then 1 else 0)
  unfolding mem_bytes
  times-owned w id u [] t d h = refl
  times-owned w id u (f ∷ fs) t d h = ground (
    arith,
    times-owned w id u fs t d.1 h,
    bytes_eq_iff f u,
    t.owner f u id,
    λ (e : f ≡ u). ap (λ x. count id (sessions_of w x)) e,
    λ (e : f ≡ u). ap (λ x. mem_bytes x fs) e,
  )

  times-none :
      (w : Manager box) (id : ℕ) (fs : List Uuid)
      → ((v : Uuid) → count id (sessions_of w v) ≡ 0)
      → times w id fs ≡ 0
  times-none w id [] h = refl
  times-none w id (f ∷ fs) h = omega (arith, h f, times-none w id fs h)

one_or_none {ℓ} :
    {A : Type ℓ} (b : Bool) (xs : List A) (m : A)
    → xs ++ replicate (if b then 1 else 0) m ≡ (if b then xs ++ m ∷ [] else xs)
one_or_none true xs m = refl
one_or_none false xs m = append-nil xs

nothing {ℓ} :
    {A : Type ℓ} (b : Bool) (xs : List A) (m : A) → xs ++ replicate (if b then 0 else 0) m ≡ xs
nothing true xs m = append-nil xs
nothing false xs m = append-nil xs

module _ (p : FeedPlatform) (box : Mailbox p.json.Document) (slave : p.db.Db) (w : Manager box)
    (e : PostEvent) (id : ℕ) where
  -- A live session that is registered for a user has the event's message added to the end of its
  -- queue once if the user follows the author, and nothing otherwise. A session that has expired or is
  -- registered for nobody gets nothing. The registry stays as it is.
  pub notify_followers_lem :
      IsTidy w
      → let t = notify_followers p box slave w e in
        ((u : Uuid)
          → count id (sessions_of w u) ≡ 1
          → w.alive id ≡ true
          → box.contents (t.queue id) ≡ (
              if mem_bytes u (p.db.followers slave e.author_id)
              then box.contents (w.queue id) ++ created_message p e ∷ []
              else box.contents (w.queue id)))
        × (w.alive id ≡ false → box.contents (t.queue id) ≡ box.contents (w.queue id))
        × (((v : Uuid) → count id (sessions_of w v) ≡ 0)
            → box.contents (t.queue id) ≡ box.contents (w.queue id))
        × (t.sessions ≡ w.sessions)
  unfolding notify_followers
  notify_followers_lem tidy =
      let followers = p.db.followers slave e.author_id in
      let distinct = p.db.followers-IsDistinct slave e.author_id in
      let message = created_message p e in
      let got = notify_all-Gets message w followers id in
      (
        λ u once live.
            rw (live, times-owned message w id u followers tidy distinct once) at got
            ∙ one_or_none (mem_bytes u followers) (box.contents (w.queue id)) message,
        λ dead. rw dead at got ∙ append-nil (box.contents (w.queue id)),
        λ nobody.
            rw (times-none message w id followers nobody) at got ∙ nothing (w.alive id) _ message,
        (notify_all-Same (created_message p e) w (p.db.followers slave e.author_id)).sessions,
      )

  -- In a tidy registry a live session that is registered for a user has the event's message added
  -- to the end of its queue once if the user follows the author, and nothing otherwise; the
  -- registry stays as it is.
  pub notify-once :
      (u : Uuid)
      → IsTidy w
      → count id (sessions_of w u) ≡ 1
      → w.alive id ≡ true
      → (box.contents ((notify_followers p box slave w e).queue id) ≡ (
          if mem_bytes u (p.db.followers slave e.author_id)
          then box.contents (w.queue id) ++ created_message p e ∷ []
          else box.contents (w.queue id)))
        × ((notify_followers p box slave w e).sessions ≡ w.sessions)
  notify-once u t one alive = let all = notify_followers_lem t in (all.0 u one alive, all.3)
