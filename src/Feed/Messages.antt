-- ===== src/Feed/Messages.antt =====
-- The messages about new posts: src/post/post_feed_publisher.cpp, src/post/post_feed_consumer.cpp and
-- the decoding of src/post/ws_fanout_consumer.cpp.
pub mod Delivery
pub mod Redelivery
use otus_highload_architect.Prelude.{
  ◌>>=◌, [], ◌∷◌, ◌++◌, Text, Uuid, codes, invalid_uuid, Outcome, ok, throw, or_throw,
}
use otus_highload_architect.Platform.Json.{make_object, str, text_at, parse}
use otus_highload_architect.Platform.Broker.{Broker, topic, fanout}
use otus_highload_architect.Feed.Cache.{FeedPlatform, FeedState, on_post_created}

-- What an event of a new post says.
pub record PostEvent : Type 0 where
  pub author_id : Uuid
  pub post_id : Uuid
  pub text : Text

-- The monolith: the feed cache and database, and the broker.
pub record App (p : FeedPlatform) (b : Broker p.json.Document) : Type 0 where
  pub feed : FeedState p
  pub broker : b.State

abbrev pub feed_queue : Text
feed_queue = codes "feed-materialization"

abbrev pub ws_fanout : Text
ws_fanout = codes "ws-fanout"

module _ (p : FeedPlatform) where
  unfoldable pub created_message : PostEvent → p.json.Document
  created_message e = p.json.to_string (
      make_object (
        ("postId", str (p.uuids.to_string e.post_id))
        ∷ ("postText", str e.text)
        ∷ ("author_user_id", str (p.uuids.to_string e.author_id))
        ∷ []))

  -- The head of `PostFeedConsumer::Process`.
  unfoldable pub read_created : p.json.Document → Outcome PostEvent
  read_created message = do
    json ← parse p.json message
    id_text ← text_at "postId" json
    post_id ← or_throw (p.uuids.generator id_text) invalid_uuid
    author_text ← text_at "author_user_id" json
    author_id ← or_throw (p.uuids.generator author_text) invalid_uuid
    text ← text_at "postText" json
    ok (record { author_id = author_id; post_id = post_id; text = text })

  -- The head of `WsFanoutConsumer::Impl::Process`, which reads the author first.
  unfoldable pub read_fanout : p.json.Document → Outcome PostEvent
  read_fanout message = do
    json ← parse p.json message
    author_text ← text_at "author_user_id" json
    author_id ← or_throw (p.uuids.generator author_text) invalid_uuid
    id_text ← text_at "postId" json
    post_id ← or_throw (p.uuids.generator id_text) invalid_uuid
    text ← text_at "postText" json
    ok (record { author_id = author_id; post_id = post_id; text = text })

  module _ (b : Broker p.json.Document) where
    -- The constructor of `PostFeedPublisher`, with `exchange` from the configuration.
    unfoldable pub publisher_start : Text → b.State → b.State
    publisher_start exchange s =
        let declared = b.declare_exchange s exchange topic in
        let with_queue = b.declare_queue declared feed_queue in
        b.bind with_queue exchange feed_queue (codes "post.created.#")

    unfoldable pub routing_key : Uuid → Text
    routing_key author_id = codes "post.created." ++ p.uuids.to_string author_id

    unfoldable pub publish_created : Text → b.State → PostEvent → Outcome b.State
    unfolding routing_key
    publish_created exchange s e =
        b.publish_reliable s exchange (routing_key e.author_id) (created_message e)

    -- The constructor of `WsFanoutConsumer`, with the random name of its queue.
    unfoldable pub fanout_start : Text → b.State → b.State
    fanout_start queue_name s =
        let declared = b.declare_exchange s ws_fanout fanout in
        let with_queue = b.declare_queue declared queue_name in
        b.bind with_queue ws_fanout queue_name []

    pub fan_out : App p b → p.json.Document → Outcome b.State → App p b × Outcome (Unit {0})
    fan_out s message (ok broker) = (record s { broker = broker }, ok tt)
    fan_out s message (throw e) = (s, throw e)

    consume : App p b → p.json.Document → Outcome PostEvent → App p b × Outcome (Unit {0})
    unfolding fan_out
    consume s message (throw e) = (s, throw e)
    consume s message (ok e) =
        let pushed : App p b = record s {
          feed = on_post_created p s.feed e.author_id e.post_id e.text;
        } in
        fan_out pushed message (b.publish s.broker ws_fanout [] message)

    -- `PostFeedConsumer::Process`: the caches of the followers first, then the same message to every
    -- instance.
    unfoldable pub consumer_process : App p b → p.json.Document → App p b × Outcome (Unit {0})
    unfolding consume
    consumer_process s message = consume s message (read_created message)
