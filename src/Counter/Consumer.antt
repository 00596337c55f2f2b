-- ===== src/Counter/Consumer.antt =====
-- What the consumer of counter-service declares when it is constructed:
-- counter-service/src/counter/counter_consumer.cpp.
use otus_highload_architect.Prelude.{
  ◌≡◌, Bool, true, ◌||◌, ◌++◌, ◌∙◌, arith, ok, refl, Text, codes, bytes_eq_refl,
}
use otus_highload_architect.Platform.Hashes.{Hashes}
use otus_highload_architect.Platform.Json.{JsonText}
use otus_highload_architect.Counter.{
  Connection, read_sent, count_read, count_message, counter_process,
}
use otus_highload_architect.Platform.Broker.{Broker, topic}

abbrev pub message_counters : Text
message_counters = codes "message-counters"

module _ (M : Type 0) (b : Broker M) where
  -- `CounterConsumer::CounterConsumer`: the exchange, the queue and the binding.
  unfoldable pub counter_consumer_start : b.State → b.State
  counter_consumer_start s =
      let declared = b.declare_exchange s (codes "messages-exchange") topic in
      let with_queue = b.declare_queue declared message_counters in
      b.bind with_queue (codes "messages-exchange") message_counters (codes "message.sent.#")

  or_true : (x : Bool) → (x || true) ≡ true
  or_true x = ground arith

  -- Events of messages to anybody go to the queue of the counters.
  pub counter_consumer_start-routes :
      (s : b.State) (to : Text)
      → b.routes
          (counter_consumer_start s)
          (codes "messages-exchange")
          (codes "message.sent." ++ to)
          message_counters
        ≡ true
  unfolding counter_consumer_start
  counter_consumer_start-routes s to =
      b.routes-bind_topic _ (codes "messages-exchange") message_counters (codes "message.sent.#")
        (codes "messages-exchange") (codes "message.sent." ++ to) message_counters
        (rw (b.kind-declare_queue, b.kind-declare_exchange, bytes_eq_refl))
      ∙ rw
          (
            bytes_eq_refl (codes "messages-exchange"),
            bytes_eq_refl message_counters,
            b.matches-hash (codes "message.sent") to,
          )
          (or_true _)

-- An event that can be read is counted.
pub counter_process-read :
    (r : Hashes) (json : JsonText) (s : r.Store) (first second : Connection)
    (message : json.Document) (to from : Text)
    → read_sent r json message ≡ ok (to, from)
    → counter_process r json s first second message ≡ count_message r s first second to from
unfolding counter_process
counter_process-read r json s first second message to from h = rw (h, count_read) refl
