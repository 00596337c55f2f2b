-- ===== src/Ws/Registry.antt =====
-- The registry of sessions: who is registered after a subscription and after its end.
use otus_highload_architect.Prelude.{
  ℕ, ◌+◌, ◌≤◌, ◌<◌, ◌≡◌, refl, ap, ◌≢◌, inl, inr, Bool, true, not, ◌&&◌, ◌||◌, some, List, [], ◌∷◌,
  ◌++◌, arith, ◌==◌, if◌then◌else◌, Option-cases, Uuid, bytes_eq, bytes_eq_iff, bytes_eq_refl,
}
use otus_highload_architect.Prelude.Maps.{lookup, lookup-insert, lookup-remove}
use otus_highload_architect.Platform.Mailbox.{Mailbox}
use otus_highload_architect.Ws.{Manager, sessions_of, subscribe, unsubscribe, without_session}

-- How often a session stands in a list.
abbrev pub count : ℕ → List ℕ → ℕ
count id [] = 0
count id (x ∷ xs) = (if x == id then 1 else 0) + count id xs

count-append : (id : ℕ) (xs ys : List ℕ) → count id (xs ++ ys) ≡ count id xs + count id ys
count-append id [] ys = omega arith
count-append id (x ∷ xs) ys = omega (arith, count-append id xs ys)

count-without_session :
    (alive : ℕ → Bool) (session id : ℕ) (xs : List ℕ)
    → count id (without_session alive session xs)
      ≡ (if not (alive id) || id == session then 0 else count id xs)
unfolding without_session
count-without_session alive session id [] = ground arith
count-without_session alive session id (x ∷ xs) =
    ground (arith, count-without_session alive session id xs, λ (e : x ≡ id). ap alive e)

not-empty : (xs : List ℕ) (x : ℕ) → (xs ++ x ∷ []) ≢ []
not-empty [] x e = cc
not-empty (y ∷ ys) x e = cc

module _ {M : Type 0} {box : Mailbox M} where
  -- Every session is registered at most once, for one user, under an address that was handed out;
  -- no user has an entry without a session.
  pub record IsTidy (w : Manager box) : Type 0 where
    pub fresh : (v : Uuid) (id : ℕ) → w.next ≤ id → count id (sessions_of w v) ≡ 0
    pub once : (v : Uuid) (id : ℕ) → count id (sessions_of w v) ≤ 1
    pub owner :
        (u v : Uuid) (id : ℕ)
        → 0 < count id (sessions_of w u)
        → 0 < count id (sessions_of w v)
        → u ≡ v
    pub nonempty : (v : Uuid) → lookup v w.sessions ≢ some []

  pub sessions_of-subscribe :
      (w : Manager box) (u v : Uuid)
      → sessions_of (subscribe w u).0 v
        ≡ (if bytes_eq u v then sessions_of w v ++ w.next ∷ [] else sessions_of w v)
  unfolding subscribe
  sessions_of-subscribe w u v =
      rw (lookup-insert u v (sessions_of w u ++ w.next ∷ []) w.sessions)
        (ground (arith, bytes_eq_iff u v))

  pub sessions_of-unsubscribe :
      (w : Manager box) (u v : Uuid) (id : ℕ)
      → sessions_of (unsubscribe w u id) v
        ≡ (if bytes_eq u v then without_session w.alive id (sessions_of w v) else sessions_of w v)
  unfolding unsubscribe sessions_of
  sessions_of-unsubscribe w u v id = elim (Option-cases (lookup u w.sessions)) [
    | inl e ↦
        rw (e, unsubscribe)
          (ground (arith, bytes_eq_iff u v, λ (h : u ≡ v). ap (λ x. lookup x w.sessions) h))
    | inr (l, e) ↦
        rw (e, unsubscribe)
          (ground (
            arith,
            bytes_eq_iff u v,
            λ (h : u ≡ v). ap (λ x. lookup x w.sessions) h,
            lookup-remove u v w.sessions,
            lookup-insert u v (without_session w.alive id l) w.sessions,
          ))
  ]

  pub subscribe-count :
      (w : Manager box) (u v : Uuid) (id : ℕ)
      → count id (sessions_of (subscribe w u).0 v) ≡ (
          if bytes_eq u v
          then count id (sessions_of w v) + (if w.next == id then 1 else 0)
          else count id (sessions_of w v))
  subscribe-count w u v id =
      rw (sessions_of-subscribe w u v)
        (ground (arith, count-append id (sessions_of w v) (w.next ∷ [])))

  next-subscribe : (w : Manager box) (u : Uuid) → (subscribe w u).0.next ≡ w.next + 1
  unfolding subscribe
  next-subscribe w u = refl

  subscribe-nonempty :
      (w : Manager box) (u v : Uuid)
      → lookup v w.sessions ≢ some []
      → lookup v (subscribe w u).0.sessions ≢ some []
  unfolding subscribe
  subscribe-nonempty w u v h =
      rw (lookup-insert u v (sessions_of w u ++ w.next ∷ []) w.sessions)
        (ground (arith, not-empty (sessions_of w u) w.next))

  pub unsubscribe-count :
      (w : Manager box) (u v : Uuid) (s id : ℕ)
      → count id (sessions_of (unsubscribe w u s) v) ≡ (
          if bytes_eq u v
          then (if not (w.alive id) || id == s then 0 else count id (sessions_of w v))
          else count id (sessions_of w v))
  unsubscribe-count w u v s id =
      rw (sessions_of-unsubscribe w u v s)
        (ground (arith, count-without_session w.alive s id (sessions_of w v)))

  unsubscribe-count-le :
      (w : Manager box) (u v : Uuid) (s id : ℕ)
      → count id (sessions_of (unsubscribe w u s) v) ≤ count id (sessions_of w v)
  unsubscribe-count-le w u v s id = ground (arith, unsubscribe-count w u v s id)

  next-unsubscribe : (w : Manager box) (u : Uuid) (s : ℕ) → (unsubscribe w u s).next ≡ w.next
  unfolding unsubscribe
  next-unsubscribe w u s = ground arith

  unsubscribe-nonempty :
      (w : Manager box) (u v : Uuid) (s : ℕ)
      → lookup v w.sessions ≢ some []
      → lookup v (unsubscribe w u s).sessions ≢ some []
  unfolding unsubscribe
  unsubscribe-nonempty w u v s h = elim (Option-cases (lookup u w.sessions)) [
    | inl e ↦ rw (e, unsubscribe) h
    | inr (l, e) ↦
        rw (e, unsubscribe)
          (ground (
            arith,
            lookup-remove u v w.sessions,
            lookup-insert u v (without_session w.alive s l) w.sessions,
          ))
  ]

  -- The end of a subscription keeps the registry tidy.
  pub unsubscribe-IsTidy :
      (w : Manager box) (u : Uuid) (s : ℕ) → IsTidy w → IsTidy (unsubscribe w u s)
  unsubscribe-IsTidy w u s t = record {
    fresh = λ v id h. omega (
      arith,
      next-unsubscribe w u s,
      unsubscribe-count-le w u v s id,
      t.fresh v id (omega (arith, next-unsubscribe w u s)),
    );
    once = λ v id. omega (arith, unsubscribe-count-le w u v s id, t.once v id);
    owner = λ a v id ha hv.
        t.owner a v id (omega (arith, unsubscribe-count-le w u a s id))
          (omega (arith, unsubscribe-count-le w u v s id));
    nonempty = λ v. unsubscribe-nonempty w u v s (t.nonempty v);
  }

  -- A subscription keeps the registry tidy.
  pub subscribe-IsTidy : (w : Manager box) (u : Uuid) → IsTidy w → IsTidy (subscribe w u).0
  subscribe-IsTidy w u t = record {
    fresh = λ v id h. ground (arith, subscribe-count w u v id, next-subscribe w u, t.fresh v id);
    once = λ v id. ground (arith, subscribe-count w u v id, t.fresh v id, t.once v id);
    owner = λ a v id ha hv. ground (
      arith,
      subscribe-count w u a id,
      subscribe-count w u v id,
      bytes_eq_iff u a,
      bytes_eq_iff u v,
      t.fresh a id,
      t.fresh v id,
      t.owner a v id,
    );
    nonempty = λ v. subscribe-nonempty w u v (t.nonempty v);
  }

  pub session-subscribe : (w : Manager box) (u : Uuid) → (subscribe w u).1 ≡ w.next
  unfolding subscribe
  session-subscribe w u = refl

  pub alive-subscribe :
      (w : Manager box) (u : Uuid) (id : ℕ)
      → (subscribe w u).0.alive id ≡ (if w.next == id then true else w.alive id)
  unfolding subscribe
  alive-subscribe w u id = refl

  -- In a tidy registry a new session is registered once, for its user. Its end takes it out
  -- again, and with it every expired session of that user; live sessions and those of other users
  -- stay as they were.
  pub unsubscribe-subscribe :
      (w : Manager box) (u v : Uuid) (id : ℕ)
      → IsTidy w
      → (count (subscribe w u).1 (sessions_of (subscribe w u).0 u) ≡ 1)
        × (count id (sessions_of (unsubscribe (subscribe w u).0 u (subscribe w u).1) v)
            ≡ (if bytes_eq u v && not (w.alive id) then 0 else count id (sessions_of w v)))
  unsubscribe-subscribe w u v id t = (
    ground (
      arith,
      session-subscribe w u,
      subscribe-count w u u (subscribe w u).1,
      bytes_eq_refl u,
      t.fresh u w.next,
    ),
    ground (
      arith,
      session-subscribe w u,
      alive-subscribe w u id,
      unsubscribe-count (subscribe w u).0 u v (subscribe w u).1 id,
      subscribe-count w u v id,
      t.fresh v id,
    ),
  )
