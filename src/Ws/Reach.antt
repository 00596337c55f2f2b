-- ===== src/Ws/Reach.antt =====
-- The registry over any sequence of connections, ends of connections and notifications.
use otus_highload_architect.Prelude.{
  ℕ, ◌≡◌, refl, sym, ap, ◌∙◌, ◌⊎◌, inl, inr, true, false, List, [], ◌∷◌, ◌++◌, arith, ltb, ◌==◌,
  if◌then◌else◌, ltb→lt, ltb→ge, ==_iff, Bool-cases, Uuid, bytes_eq_refl, mem_bytes,
}
use otus_highload_architect.Prelude.Maps.{lookup}
use otus_highload_architect.Platform.Mailbox.{Mailbox}
use otus_highload_architect.Feed.Cache.{FeedPlatform}
use otus_highload_architect.Feed.Messages.{PostEvent, created_message}
use otus_highload_architect.Ws.{
  Manager, sessions_of, subscribe, unsubscribe, release, notify_all, notify_followers,
}
use otus_highload_architect.Ws.Registry.{
  count, IsTidy, subscribe-IsTidy, unsubscribe-IsTidy, subscribe-count, unsubscribe-count,
  alive-subscribe,
}
use otus_highload_architect.Ws.Notify.{notify_all-Same, notify-once}

module _ {M : Type 0} (box : Mailbox M) where
  -- The manager when it is constructed.
  abbrev pub no_sessions : Manager box
  no_sessions = record { next = 0; alive = λ s. false; queue = λ s. box.create; sessions = [] }

  -- A connection comes, one ends (`Unsubscribe`, and the pointer of the handler goes out of scope), or
  -- the sessions of some followers are notified.
  pub data Step (w : Manager box) : Manager box → Type 0 where
    connect : (user_id : Uuid) → Step w (subscribe w user_id).0
    leave :
        (user_id : Uuid) (session : ℕ) → Step w (release (unsubscribe w user_id session) session)
    notify : (msg : M) (followers : List Uuid) → Step w (notify_all msg w followers)

  pub data Reachable : Manager box → Type 0 where
    start : Reachable no_sessions
    next : {w t : Manager box} → Reachable w → Step w t → Reachable t

  -- A tidy registry in which every live session is registered for a user.
  record IsServed (w : Manager box) : Type 0 where
    tidy : IsTidy w
    registered : (id : ℕ) → w.alive id ≡ true → (u : Uuid) × (count id (sessions_of w u) ≡ 1)

  pub start-IsTidy : IsTidy no_sessions
  unfolding sessions_of lookup
  start-IsTidy = record {
    fresh = λ v id h. refl;
    once = λ v id. omega arith;
    owner = λ u v id h k. absurd (omega arith);
    nonempty = λ v h. ground (arith, h);
  }

  start-IsServed : IsServed no_sessions
  start-IsServed = record { tidy = start-IsTidy; registered = λ id h. absurd (ground (arith, h)) }

  same-sessions :
      (w t : Manager box) → t.sessions ≡ w.sessions → (v : Uuid) → sessions_of t v ≡ sessions_of w v
  unfolding sessions_of
  same-sessions w t h v = rw h refl

  same-IsTidy :
      (w t : Manager box) → t.sessions ≡ w.sessions → t.next ≡ w.next → IsTidy w → IsTidy t
  same-IsTidy w t same counter h =
      let eq = same-sessions w t same in
      record {
        fresh = λ v id le. rw (eq v) (h.fresh v id (omega (arith, counter)));
        once = λ v id. rw (eq v) (h.once v id);
        owner = λ u v id a b. h.owner u v id (rw (eq u) at a) (rw (eq v) at b);
        nonempty = λ v e. h.nonempty v (rw same at e);
      }

  connect-IsServed : (w : Manager box) (u : Uuid) → IsServed w → IsServed (subscribe w u).0
  connect-IsServed w u h = record {
    tidy = subscribe-IsTidy w u h.tidy;
    registered = λ id live. elim (Bool-cases (w.next == id)) [
      | inl e ↦ (
        u,
        ground (
          arith,
          subscribe-count w u u id,
          bytes_eq_refl u,
          h.tidy.fresh u id,
          ==_iff w.next id,
          e,
        ),
      )
      | inr e ↦
          let (v, once) = h.registered id (ground (arith, alive-subscribe w u id, live, e)) in
          (v, ground (arith, subscribe-count w u v id, e, once))
    ];
  }

  leave-fields :
      (w : Manager box) (u : Uuid) (s : ℕ)
      → ((release (unsubscribe w u s) s).sessions ≡ (unsubscribe w u s).sessions)
        × ((release (unsubscribe w u s) s).next ≡ (unsubscribe w u s).next)
        × ((id : ℕ)
            → (release (unsubscribe w u s) s).alive id ≡ (if s == id then false else w.alive id))
  unfolding release unsubscribe
  leave-fields w u s = (refl, refl, λ id. ground arith)

  leave-IsServed :
      (w : Manager box) (u : Uuid) (s : ℕ) → IsServed w → IsServed (release (unsubscribe w u s) s)
  leave-IsServed w u s h =
      let (same, counter, alive) = leave-fields w u s in
      record {
        tidy = same-IsTidy (unsubscribe w u s) _ same counter (unsubscribe-IsTidy w u s h.tidy);
        registered = λ id live.
            let was : w.alive id ≡ true = ground (arith, alive id, live) in
            let (v, once) = h.registered id was in
            (
              v,
              rw (same-sessions (unsubscribe w u s) (release (unsubscribe w u s) s) same v) (
                  ground (
                    arith,
                    unsubscribe-count w u v s id,
                    alive id,
                    live,
                    was,
                    once,
                    ==_iff s id,
                    ==_iff id s,
                  )),
            );
      }

  notify-IsServed :
      (msg : M) (w : Manager box) (followers : List Uuid)
      → IsServed w
      → IsServed (notify_all msg w followers)
  notify-IsServed msg w followers h =
      let same = notify_all-Same msg w followers in
      record {
        tidy = same-IsTidy w _ same.sessions same.next h.tidy;
        registered = λ id live.
            let (v, once) = h.registered id (ap (λ f. f id) (sym same.alive) ∙ live) in
            (v, rw (same-sessions w (notify_all msg w followers) same.sessions v) once);
      }

  step-IsServed : (w t : Manager box) → Step w t → IsServed w → IsServed t
  step-IsServed w t (connect u) h = connect-IsServed w u h
  step-IsServed w t (leave u s) h = leave-IsServed w u s h
  step-IsServed w t (notify msg followers) h = notify-IsServed msg w followers h

  Reachable-IsServed : (w : Manager box) → Reachable w → IsServed w
  Reachable-IsServed w start = start-IsServed
  Reachable-IsServed w (next {w = v} before step) =
      step-IsServed v w step (Reachable-IsServed v before)

-- After any connections, ends of connections and notifications since the manager was constructed,
-- each live session is registered once, for one user; an event adds its message once to the end of
-- the session's queue if that user follows the author, and otherwise leaves the queue as it is.
pub Reachable-notified :
    (p : FeedPlatform) (box : Mailbox p.json.Document) (slave : p.db.Db) (w : Manager box)
    (e : PostEvent) (session : ℕ)
    → Reachable box w
    → w.alive session ≡ true
    → (u : Uuid) × (count session (sessions_of w u) ≡ 1)
      × ((v : Uuid) → v ≡ u ⊎ count session (sessions_of w v) ≡ 0)
      × (box.contents ((notify_followers p box slave w e).queue session) ≡ (
          if mem_bytes u (p.db.followers slave e.author_id)
          then box.contents (w.queue session) ++ created_message p e ∷ []
          else box.contents (w.queue session)))
Reachable-notified p box slave w e session reach live =
    let served = Reachable-IsServed box w reach in
    let (u, once) = served.registered session live in
    (
      u,
      once,
      λ v. elim (Bool-cases (ltb 0 (count session (sessions_of w v)))) [
        | inl e ↦ inl (served.tidy.owner v u session (ltb→lt 0 _ e) (omega (arith, once)))
        | inr e ↦ inr (omega (arith, ltb→ge 0 (count session (sessions_of w v)) e))
      ],
      (notify-once p box slave w e session u served.tidy once live).0,
    )
