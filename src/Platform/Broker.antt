-- ===== src/Platform/Broker.antt =====
-- RabbitMQ: exchanges, queues and bindings. A queue is the list of the messages that it holds, and
-- `routes` says whether a message under a key goes from an exchange to a queue.
use otus_highload_architect.Prelude.{
  ◌≡◌, Bool, true, ◌&&◌, ◌||◌, Option, some, List, [], ◌∷◌, ◌++◌, if◌then◌else◌, Text, codes,
  bytes_eq, Outcome, ok,
}

pub data Kind : Type 0 where
  topic fanout : Kind

pub record Broker (M : Type 0) : Type 1 where
  pub State : Type 0
  pub kind : State → Text → Option Kind
  pub queue : State → Text → List M
  pub routes : State → Text → Text → Text → Bool
  -- the AMQP test of a routing key against a binding pattern
  pub matches : Text → Text → Bool
  pub declare_exchange : State → Text → Kind → State
  pub declare_queue : State → Text → State
  pub bind : State → Text → Text → Text → State
  -- `PublishReliable`: it throws where the broker does not confirm the message
  pub publish_reliable : State → Text → Text → M → Outcome State
  -- `Publish`: it throws where the message cannot be sent
  pub publish : State → Text → Text → M → Outcome State
  -- `#` stands for any number of words
  pub matches-hash :
      (prefix rest : Text) → matches (prefix ++ codes ".#") (prefix ++ codes "." ++ rest) ≡ true
  pub kind-declare_exchange :
      (s : State) (e : Text) (k : Kind) (f : Text)
      → kind (declare_exchange s e k) f ≡ (if bytes_eq e f then some k else kind s f)
  pub kind-declare_queue : (s : State) (q e : Text) → kind (declare_queue s q) e ≡ kind s e
  pub kind-bind : (s : State) (e q pattern f : Text) → kind (bind s e q pattern) f ≡ kind s f
  pub routes-declare_exchange :
      (s : State) (e : Text) (k : Kind) (f key q : Text)
      → routes (declare_exchange s e k) f key q ≡ routes s f key q
  pub routes-declare_queue :
      (s : State) (r e key q : Text) → routes (declare_queue s r) e key q ≡ routes s e key q
  pub routes-bind_topic :
      (s : State) (e q pattern f key r : Text)
      → kind s e ≡ some topic
      → routes (bind s e q pattern) f key r
        ≡ (routes s f key r || (bytes_eq e f && (bytes_eq q r && matches pattern key)))
  pub routes-bind_fanout :
      (s : State) (e q pattern f key r : Text)
      → kind s e ≡ some fanout
      → routes (bind s e q pattern) f key r ≡ (routes s f key r || (bytes_eq e f && bytes_eq q r))
  pub queue-publish_reliable :
      (s t : State) (e key : Text) (m : M)
      → publish_reliable s e key m ≡ ok t
      → (q : Text) → queue t q ≡ (if routes s e key q then queue s q ++ m ∷ [] else queue s q)
  pub queue-publish :
      (s t : State) (e key : Text) (m : M)
      → publish s e key m ≡ ok t
      → (q : Text) → queue t q ≡ (if routes s e key q then queue s q ++ m ∷ [] else queue s q)
  pub routes-publish_reliable :
      (s t : State) (e key : Text) (m : M)
      → publish_reliable s e key m ≡ ok t
      → (f k q : Text) → routes t f k q ≡ routes s f k q
