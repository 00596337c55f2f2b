-- ===== src/Feed/Messages/Redelivery.antt =====
-- `PostFeedConsumer::Process` (src/post/post_feed_consumer.cpp) where a command of the feed cache is not
-- answered: the exception hands the message back to the broker, which delivers it again.
use otus_highload_architect.Prelude.{
  ◌≡◌, refl, ap, ◌∙◌, true, [], ◌∷◌, ◌++◌, arith, Text, Uuid, Exception, database_error, Outcome,
  ok, throw,
}
use otus_highload_architect.Platform.Connections.{Connection, up}
use otus_highload_architect.Platform.Broker.{Broker}
use otus_highload_architect.Feed.Cache.{FeedPlatform, FeedState}
use otus_highload_architect.Feed.Cache.Failures.{Commands, try_on_post_created}
use otus_highload_architect.Feed.Cache.Failures.Redelivery.{
  Redelivered, try_on_post_created-Redelivered,
}
use otus_highload_architect.Feed.Messages.{
  PostEvent, App, ws_fanout, created_message, read_created, consumer_process, fan_out,
}
use otus_highload_architect.Feed.Messages.Delivery.{read-created_message, consumer_process-ok}

module _ (p : FeedPlatform) (b : Broker p.json.Document) where
  try_fan_out :
      App p b → p.json.Document → FeedState p × Outcome (Unit {0}) → App p b × Outcome (Unit {0})
  try_fan_out s message (feed, throw e) = (record s { feed = feed }, throw e)
  try_fan_out s message (feed, ok done) =
      fan_out p b (record s { feed = feed }) message (b.publish s.broker ws_fanout [] message)

  try_consume :
      Connection
      → (Uuid → Commands)
      → App p b
      → p.json.Document
      → Outcome PostEvent
      → App p b × Outcome (Unit {0})
  unfolding try_fan_out
  try_consume select links s message (throw e) = (s, throw e)
  try_consume select links s message (ok e) =
      try_fan_out s message (try_on_post_created p select links s.feed e.author_id e.post_id e.text)

  -- `PostFeedConsumer::Process`
  unfoldable pub try_consumer_process :
      Connection → (Uuid → Commands) → App p b → p.json.Document → App p b × Outcome (Unit {0})
  unfolding try_consume
  try_consumer_process select links s message =
      try_consume select links s message (read_created p message)

  fan_out_thrown :
      (s : App p b) (message : p.json.Document) (r : FeedState p × Outcome (Unit {0}))
      (e : Exception)
      → r.1 ≡ throw e
      → try_fan_out s message r ≡ (record s { feed = r.0 }, throw e)
  unfolding try_fan_out
  fan_out_thrown s message (feed, ok done) e h = absurd (ground (arith, h))
  fan_out_thrown s message (feed, throw x) e h = ap (λ o. (record s { feed = feed }, o)) h

  module _ (links : Uuid → Commands) (s : App p b) (e : PostEvent)
      (failed : (try_on_post_created p up links s.feed e.author_id e.post_id e.text).1
        ≡ throw database_error) where
    abbrev stopped : App p b
    stopped = record s {
      feed = (try_on_post_created p up links s.feed e.author_id e.post_id e.text).0;
    }

    first_run :
        try_consumer_process up links s (created_message p e) ≡ (stopped, throw database_error)
    unfolding try_consumer_process
    first_run =
        rw ((read-created_message p e).0, try_consume)
          (fan_out_thrown s (created_message p e)
            (try_on_post_created p up links s.feed e.author_id e.post_id e.text) database_error
            failed)

    -- Where a command for a follower fails under the consumer, it throws and sends nothing on. Once the
    -- message is handled again, with success, it stands once at the end of the queue of each bound instance,
    -- and the feeds hold the post as `Redelivered` says: twice for the followers in front of the failure,
    -- once or twice for the one it failed at, once for those behind it, and nobody else's feed has changed.
    pub try_consumer_process-Redelivered :
        (t : b.State) (q : Text)
        → b.publish s.broker ws_fanout [] (created_message p e) ≡ ok t
        → b.routes s.broker ws_fanout [] q ≡ true
        → let first = try_consumer_process up links s (created_message p e) in
          let second = consumer_process p b first.0 (created_message p e) in
          (first.1 ≡ throw database_error)
          × (first.0.broker ≡ s.broker)
          × (second.1 ≡ ok tt)
          × (b.queue second.0.broker q ≡ b.queue s.broker q ++ created_message p e ∷ [])
          × Redelivered p links s.feed e.author_id e.post_id e.text second.0.feed
    try_consumer_process-Redelivered t q taken bound =
        rw (first_run, consumer_process-ok p b stopped e t taken)
          (
            refl,
            refl,
            refl,
            b.queue-publish s.broker t ws_fanout [] (created_message p e) taken q ∙ rw bound refl,
            try_on_post_created-Redelivered p links s.feed e.author_id e.post_id e.text failed,
          )
