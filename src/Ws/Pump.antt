-- ===== src/Ws/Pump.antt =====
-- src/post/post_feed_ws_handler.cpp: the loop that sends a session's queue to its client, and the life
-- of a session around it.
use otus_highload_architect.Prelude.{
  ◌+◌, ◌-◌, length, length-append, All, ℕ, ◌≡◌, refl, sym, ap, ◌∙◌, inl, inr, Bool, true, false,
  not, ◌&&◌, ◌||◌, none, some, List, [], ◌∷◌, ◌++◌, foldl, arith, if◌then◌else◌, Bool-cases,
  Option-cases, Uuid, bytes_eq,
}
use mathlib.Core.List.{append_assoc, append-nil}
use otus_highload_architect.Prelude.Maps.{lookup}
use otus_highload_architect.Platform.Mailbox.{Mailbox}
use otus_highload_architect.Ws.{Manager, update, sessions_of, subscribe, unsubscribe, release}
use otus_highload_architect.Ws.Registry.{count, session-subscribe, IsTidy, unsubscribe-subscribe}

-- What the loop meets in one round: the messages that have been pushed since the last one, the flag
-- that the receiving task sets, the cancellation of the task, and whether `SendText` throws.
pub record Round (M : Type 0) : Type 0 where
  pub arrivals : List M
  pub disconnected : Bool
  pub cancelled : Bool
  pub send_fails : Bool

-- What the client was sent, the queue as it is left, and whether the loop was left.
pub record Pumped {M : Type 0} (box : Mailbox M) : Type 0 where
  pub sent : List M
  pub queue : box.Queue
  pub ended : Bool

module _ {M : Type 0} (box : Mailbox M) where
  unfoldable pub arrive : box.Queue → List M → box.Queue
  arrive q ms = foldl box.push_noblock q ms

  unfoldable pub pump : List (Round M) → box.Queue → List M → Pumped box
  unfolding arrive
  pump [] q sent = record { sent = sent; queue = q; ended = false }
  pump (r ∷ rs) q sent =
      let q' = arrive q r.arrivals in
      elim (r.disconnected || r.cancelled) [
        | true ↦ record { sent = sent; queue = q'; ended = true }
        | false ↦ elim (box.pop q') [
          | none ↦ pump rs q' sent
          | some (msg, rest) ↦ elim r.send_fails [
            | true ↦ record { sent = sent; queue = rest; ended = true }
            | false ↦ pump rs rest (sent ++ msg ∷ [])
          ]
        ]
      ]

  abbrev pub arrivals_of : List (Round M) → List M
  arrivals_of [] = []
  arrivals_of (r ∷ rs) = r.arrivals ++ arrivals_of rs

  contents-arrive :
      (q : box.Queue) (ms : List M) → box.contents (arrive q ms) ≡ box.contents q ++ ms
  unfolding arrive
  contents-arrive q [] = sym (append-nil (box.contents q))
  contents-arrive q (m ∷ ms) =
      contents-arrive (box.push_noblock q m) ms ∙ rw (box.contents-push_noblock, append_assoc)

  -- What was sent is an initial part of what was in the queue and what arrived, in that order.
  abbrev pub InOrder : List M → Pumped box → Type 0
  InOrder due t =
      (rest : List M) × (t.sent ++ rest ≡ due) × (t.ended ≡ false → rest ≡ box.contents t.queue)

  arrived :
      (r : Round M) (rs : List (Round M)) (q : box.Queue)
      → box.contents (arrive q r.arrivals) ++ arrivals_of rs
        ≡ box.contents q ++ arrivals_of (r ∷ rs)
  arrived r rs q = rw (contents-arrive q r.arrivals, append_assoc)

  popped :
      (r : Round M) (rs : List (Round M)) (q : box.Queue) (msg : M) (rest : box.Queue)
      → box.pop (arrive q r.arrivals) ≡ some (msg, rest)
      → msg ∷ (box.contents rest ++ arrivals_of rs) ≡ box.contents q ++ arrivals_of (r ∷ rs)
  popped r rs q msg rest f = rw (← arrived r rs q, box.pop-some (arrive q r.arrivals) rest msg f)

  -- The client is sent the messages of its queue in the order in which they were pushed, none twice and
  -- none left out in between; while the loop runs, all that was not sent yet is still in the queue.
  pub pump-InOrder :
      (rs : List (Round M)) (q : box.Queue) (sent : List M)
      → InOrder (sent ++ (box.contents q ++ arrivals_of rs)) (pump rs q sent)
  unfolding pump
  pump-InOrder [] q sent = (box.contents q, rw append-nil, λ h. refl)
  pump-InOrder (r ∷ rs) q sent = elim (Bool-cases (r.disconnected || r.cancelled)) [
    | inl e ↦ rw (e, pump) ((box.contents q ++ arrivals_of (r ∷ rs)), refl, λ h. cc)
    | inr e ↦
        rw (e, pump)
          (elim (Option-cases (box.pop (arrive q r.arrivals))) [
            | inl f ↦
                let ih = pump-InOrder rs (arrive q r.arrivals) sent in
                rw (f, pump) (ih.0, ih.1 ∙ ap (◌++◌ sent) (arrived r rs q), ih.2)
            | inr ((msg, rest), f) ↦
                let ih = pump-InOrder rs rest (sent ++ msg ∷ []) in
                let due = popped r rs q msg rest f in
                rw (f, pump)
                  (elim (Bool-cases r.send_fails) [
                    | inl g ↦
                        rw (g, pump)
                          (msg ∷ (box.contents rest ++ arrivals_of rs), ap (◌++◌ sent) due, λ h. cc)
                    | inr g ↦
                        rw (g, pump)
                          (
                            ih.0,
                            ih.1
                                ∙ append_assoc sent (msg ∷ []) (box.contents rest ++ arrivals_of rs)
                                ∙ ap (◌++◌ sent) due,
                            ih.2,
                          )
                  ])
          ])
  ]

  -- A round in which nothing goes wrong.
  abbrev pub IsCalm : Round M → Type 0
  IsCalm r = ((r.disconnected || r.cancelled) ≡ false) × (r.send_fails ≡ false)

  -- How many messages are left after the rounds if each takes one.
  unfoldable pub backlog : ℕ → List (Round M) → ℕ
  backlog n [] = n
  backlog n (r ∷ rs) = backlog (n + length r.arrivals - 1) rs

  empty-length : (ms : List M) → length ms ≡ 0 → ms ≡ []
  empty-length ms h = ground (arith, h)

  length-arrive :
      (q : box.Queue) (r : Round M)
      → length (box.contents (arrive q r.arrivals)) ≡ length (box.contents q) + length r.arrivals
  length-arrive q r =
      ap length (contents-arrive q r.arrivals) ∙ length-append (box.contents q) r.arrivals

  -- While nothing goes wrong the loop takes one message each round, so rounds enough for what was in the
  -- queue and what arrives get all of it to the client, in order.
  pub pump-drains :
      (rs : List (Round M)) (q : box.Queue) (sent : List M)
      → All IsCalm rs
      → backlog (length (box.contents q)) rs ≡ 0
      → (pump rs q sent).sent ≡ sent ++ (box.contents q ++ arrivals_of rs)
  unfolding pump backlog
  pump-drains [] q sent calm enough =
      rw (empty-length (box.contents q) enough) (sym (append-nil sent))
  pump-drains (r ∷ rs) q sent calm enough =
      rw (calm.0.0, pump)
        (elim (Option-cases (box.pop (arrive q r.arrivals))) [
          | inl f ↦
              let left : length (box.contents (arrive q r.arrivals))
                  ≡ length (box.contents q) + length r.arrivals - 1 =
                omega
                  (arith, length-arrive q r, ap length (box.pop-none (arrive q r.arrivals) f)) in
              rw (f, pump)
                (pump-drains rs (arrive q r.arrivals) sent calm.1
                    (ap (λ n. backlog n rs) left ∙ enough)
                  ∙ ap (◌++◌ sent) (arrived r rs q))
          | inr ((msg, rest), f) ↦
              let left : length (box.contents rest)
                  ≡ length (box.contents q) + length r.arrivals - 1 =
                omega (
                  arith,
                  length-arrive q r,
                  ap length (box.pop-some (arrive q r.arrivals) rest msg f),
                ) in
              rw (f, pump, calm.0.1, pump)
                (pump-drains rs rest (sent ++ msg ∷ []) calm.1
                    (ap (λ n. backlog n rs) left ∙ enough)
                  ∙ append_assoc sent (msg ∷ []) (box.contents rest ++ arrivals_of rs)
                  ∙ ap (◌++◌ sent) (popped r rs q msg rest f))
        ])

  -- The whole of `Handle`, over the rounds of its loop: what is sent, and the manager afterwards. What
  -- other connections do to the manager meanwhile is left out but for the messages that arrive.
  unfoldable pub handle : Manager box → Uuid → List (Round M) → Manager box × List M
  handle w user_id rounds =
      let (opened, session) = subscribe w user_id in
      let pumped = pump rounds (opened.queue session) [] in
      let drained : Manager box = record opened {
        queue = update opened.queue session pumped.queue;
      } in
      (release (unsubscribe drained user_id session) session, pumped.sent)

  unsubscribe-queue :
      (w : Manager box) (f : ℕ → box.Queue) (u : Uuid) (s : ℕ)
      → (unsubscribe (record w { queue = f }) u s).sessions ≡ (unsubscribe w u s).sessions
  unfolding unsubscribe
  unsubscribe-queue w f u s = elim (Option-cases (lookup u w.sessions)) [
    | inl e ↦ rw (e, unsubscribe)
    | inr (l, e) ↦ rw (e, unsubscribe)
  ]

  opened_queue :
      (w : Manager box) (u : Uuid) → box.contents ((subscribe w u).0.queue (subscribe w u).1) ≡ []
  unfolding subscribe
  opened_queue w u = ground (arith, box.contents-create)

  -- With a tidy registry, a connection that is served to its end is sent an initial part of the
  -- messages that arrived while it was open, in order; afterwards its session is dead, the
  -- expired sessions of its user are gone, and the live ones and those of other users are
  -- registered as before.
  pub handle_lem :
      (w : Manager box) (u v : Uuid) (rounds : List (Round M)) (id : ℕ)
      → IsTidy w
      → ((rest : List M) × ((handle w u rounds).1 ++ rest ≡ arrivals_of rounds))
        × ((handle w u rounds).0.alive w.next ≡ false)
        × (count id (sessions_of (handle w u rounds).0 v)
            ≡ (if bytes_eq u v && not (w.alive id) then 0 else count id (sessions_of w v)))
  unfolding handle release sessions_of
  handle_lem w u v rounds id t =
      let sent = pump-InOrder rounds ((subscribe w u).0.queue (subscribe w u).1) [] in
      (
        (sent.0, sent.1 ∙ ap (λ x. x ++ arrivals_of rounds) (opened_queue w u)),
        rw (session-subscribe w u) (ground arith),
        rw (unsubscribe-queue (subscribe w u).0 _ u (subscribe w u).1)
            (unsubscribe-subscribe w u v id t).1,
      )
