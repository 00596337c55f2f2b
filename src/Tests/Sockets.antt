-- ===== src/Tests/Sockets.antt =====
-- The theorems on the WebSocket registry and the pump at concrete inputs.
use otus_highload_architect.Prelude.{
  All, ◌⊎◌, Uuid, ◌≡◌, refl, true, false, not, ◌&&◌, List, [], ◌∷◌, ◌++◌, if◌then◌else◌, codes,
  bytes_eq, mem_bytes,
}
use otus_highload_architect.Prelude.Maps.{insert, lookup}
use otus_highload_architect.Platform.Json.{Json, null, str}
use otus_highload_architect.Platform.Mailbox.{plain_mailbox}
use otus_highload_architect.Feed.Messages.{PostEvent, created_message}
use otus_highload_architect.Ws.{Manager, sessions_of, subscribe, unsubscribe, notify_followers}
use otus_highload_architect.Ws.Registry.{IsTidy, count, subscribe-IsTidy, unsubscribe-subscribe}
use otus_highload_architect.Ws.Reach.{
  no_sessions, start-IsTidy, Reachable, start, next, connect, Reachable-notified,
}
use otus_highload_architect.Ws.Notify.{notify-once}
use otus_highload_architect.Ws.Pump.{
  Round, pump, arrivals_of, pump-drains, IsCalm, backlog, handle, handle_lem,
}
use otus_highload_architect.Tests.Platforms.{platform, ann, bob, small_db}

abbrev pub one_session : Manager (plain_mailbox Json)
one_session = (subscribe (no_sessions (plain_mailbox Json)) bob).0

pub one_session-IsTidy : IsTidy one_session
one_session-IsTidy =
    subscribe-IsTidy (no_sessions (plain_mailbox Json)) bob (start-IsTidy (plain_mailbox Json))

unsubscribe-subscribe_example :
    (count (subscribe one_session bob).1 (sessions_of (subscribe one_session bob).0 bob) ≡ 1)
    × (count 0 (
          sessions_of
            (unsubscribe (subscribe one_session bob).0 bob (subscribe one_session bob).1)
            bob)
        ≡ (if bytes_eq bob bob && not (one_session.alive 0)
            then 0
            else count 0 (sessions_of one_session bob)))
unsubscribe-subscribe_example = unsubscribe-subscribe one_session bob bob 0 one_session-IsTidy

abbrev event : PostEvent
event = record { author_id = ann; post_id = 12 ∷ []; text = codes "x" }

pub bob-registered : count 0 (sessions_of one_session bob) ≡ 1
unfolding sessions_of subscribe lookup insert bytes_eq
bob-registered = refl

pub bob-alive : one_session.alive 0 ≡ true
unfolding subscribe
bob-alive = refl

notify-once_example :
    (((notify_followers platform (plain_mailbox Json) small_db one_session event).queue 0) ≡ (
      if mem_bytes bob (platform.db.followers small_db ann)
      then one_session.queue 0 ++ created_message platform event ∷ []
      else one_session.queue 0))
    × ((notify_followers platform (plain_mailbox Json) small_db one_session event).sessions
        ≡ one_session.sessions)
notify-once_example =
    notify-once platform (plain_mailbox Json) small_db one_session event 0 bob one_session-IsTidy
      bob-registered bob-alive

abbrev rounds : List (Round Json)
rounds =
    record {
      arrivals = null ∷ str (codes "a") ∷ [];
      disconnected = false;
      cancelled = false;
      send_fails = false;
    }
    ∷ record { arrivals = []; disconnected = false; cancelled = false; send_fails = false }
    ∷ record { arrivals = []; disconnected = true; cancelled = false; send_fails = false }
    ∷ []

handle_lem_example :
    ((rest : List Json) × ((handle (plain_mailbox Json) one_session bob rounds).1 ++ rest
        ≡ arrivals_of (plain_mailbox Json) rounds))
    × ((handle (plain_mailbox Json) one_session bob rounds).0.alive one_session.next ≡ false)
    × (count 0 (sessions_of (handle (plain_mailbox Json) one_session bob rounds).0 bob) ≡ (
        if bytes_eq bob bob && not (one_session.alive 0)
        then 0
        else count 0 (sessions_of one_session bob)))
handle_lem_example = handle_lem (plain_mailbox Json) one_session bob bob rounds 0 one_session-IsTidy

abbrev calm_rounds : List (Round Json)
calm_rounds =
    record {
      arrivals = null ∷ str (codes "a") ∷ [];
      disconnected = false;
      cancelled = false;
      send_fails = false;
    }
    ∷ record { arrivals = []; disconnected = false; cancelled = false; send_fails = false }
    ∷ []

rounds-IsCalm : All (IsCalm (plain_mailbox Json)) calm_rounds
rounds-IsCalm = ((refl, refl), ((refl, refl), tt))

rounds_are_enough : backlog (plain_mailbox Json) 0 calm_rounds ≡ 0
unfolding backlog
rounds_are_enough = refl

pump-drains_example :
    (pump (plain_mailbox Json) calm_rounds [] []).sent
    ≡ [] ++ ([] ++ arrivals_of (plain_mailbox Json) calm_rounds)
pump-drains_example =
    pump-drains (plain_mailbox Json) calm_rounds [] [] rounds-IsCalm rounds_are_enough

one-Reachable : Reachable (plain_mailbox Json) one_session
one-Reachable = next start (connect bob)

Reachable-notified_example :
    (u : Uuid) × (count 0 (sessions_of one_session u) ≡ 1)
    × ((v : Uuid) → v ≡ u ⊎ count 0 (sessions_of one_session v) ≡ 0)
    × ((notify_followers platform (plain_mailbox Json) small_db one_session event).queue 0 ≡ (
        if mem_bytes u (platform.db.followers small_db ann)
        then one_session.queue 0 ++ created_message platform event ∷ []
        else one_session.queue 0))
Reachable-notified_example =
    Reachable-notified platform (plain_mailbox Json) small_db one_session event 0 one-Reachable
      bob-alive
