-- ===== src/Dialogs/Pipeline.antt =====
-- From chat-service to counter-service: the event of a message that was sent is counted for its
-- recipient, whichever of the two services started first.
use otus_highload_architect.Prelude.{◌≡◌, refl, ◌∙◌, true, ◌++◌, Text, codes, ok}
use otus_highload_architect.Platform.Broker.{Broker, topic}
use otus_highload_architect.Platform.Hashes.{Hashes}
use otus_highload_architect.Counter.{Connection, read_sent, count_message, counter_process}
use otus_highload_architect.Counter.Consumer.{
  message_counters, counter_consumer_start, counter_consumer_start-routes, counter_process-read,
}
use otus_highload_architect.Dialogs.Chat.{
  ChatPlatform, sent_event, messages_exchange, dialog_service_start,
}

module _ (p : ChatPlatform) (r : Hashes) where
  read-sent_event : (from to : Text) → read_sent r p.json (sent_event p from to) ≡ ok (to, from)
  unfolding read_sent sent_event
  read-sent_event from to = rw (p.json.from_string-to_string _) refl

  -- What the consumer does with the event of a message.
  pub process-sent_event :
      (s : r.Store) (first second : Connection) (from to : Text)
      → counter_process r p.json s first second (sent_event p from to)
        ≡ count_message r s first second to from
  process-sent_event s first second from to =
      counter_process-read r p.json s first second (sent_event p from to) to from
        (read-sent_event from to)

  module _ (b : Broker p.json.Document) where
    -- The queue of the counters takes the events of all messages.
    abbrev pub Routed : b.State → Type 0
    Routed s =
        (to : Text)
        → b.routes s (messages_exchange p) (codes "message.sent." ++ to) message_counters ≡ true

    -- The two services have started, in one of the two orders.
    pub data Started (s : b.State) : b.State → Type 0 where
      chat_first : Started s (counter_consumer_start p.json.Document b (dialog_service_start p b s))
      counter_first :
          Started s (dialog_service_start p b (counter_consumer_start p.json.Document b s))

    pub Started-Routed : (s t : b.State) → Started s t → Routed t
    unfolding dialog_service_start
    Started-Routed s t chat_first to = counter_consumer_start-routes p.json.Document b _ to
    Started-Routed s t counter_first to =
        b.routes-declare_exchange _ _ topic _ _ _
        ∙ counter_consumer_start-routes p.json.Document b s to
