-- ===== src/Feed/Messages/Delivery.antt =====
-- A published post reaches the feed queue and every instance, and is decoded to what was published.
use otus_highload_architect.Prelude.{
  ◌≡◌, refl, ◌∙◌, Bool, true, ◌||◌, some, List, [], ◌∷◌, ◌++◌, arith, Text, Uuid, codes,
  bytes_eq_refl, mem_bytes, Exception, ok, throw,
}
use otus_highload_architect.Platform.Broker.{Broker, Kind, topic, fanout}
use otus_highload_architect.Platform.Posts.{FeedPost}
use otus_highload_architect.Feed.Cache.{FeedPlatform, FeedState, on_post_created}
use otus_highload_architect.Feed.Cache.Pages.{Caches}
use otus_highload_architect.Feed.Cache.Fanout.{bump, on_post_created-Caches}
use otus_highload_architect.Feed.Messages.{
  PostEvent, App, feed_queue, ws_fanout, created_message, read_created, read_fanout,
  publisher_start, routing_key, publish_created, fanout_start, consumer_process, consume, fan_out,
}

module _ (p : FeedPlatform) where
  pub read-created_message :
      (e : PostEvent)
      → (read_created p (created_message p e) ≡ ok e) × (read_fanout p (created_message p e) ≡ ok e)
  unfolding read_created read_fanout created_message
  read-created_message e = (
    rw (
      p.json.from_string-to_string _,
      p.uuids.generator-to_string e.post_id,
      p.uuids.generator-to_string e.author_id,
    ),
    rw (
      p.json.from_string-to_string _,
      p.uuids.generator-to_string e.post_id,
      p.uuids.generator-to_string e.author_id,
    ),
  )

  module _ (b : Broker p.json.Document) where
    declared :
        (s : b.State) (e q : Text) (k : Kind)
        → b.kind (b.declare_queue (b.declare_exchange s e k) q) e ≡ some k
    declared s e q k = rw (b.kind-declare_queue, b.kind-declare_exchange, bytes_eq_refl)

    or_true : (x : Bool) → (x || true) ≡ true
    or_true x = ground arith

    publisher_start-routes :
        (exchange : Text) (s : b.State) (author : Uuid)
        → b.routes (publisher_start p b exchange s) exchange (routing_key p b author) feed_queue
          ≡ true
    unfolding publisher_start routing_key
    publisher_start-routes exchange s author =
        b.routes-bind_topic _ exchange feed_queue _ exchange _ feed_queue
          (declared s exchange feed_queue topic)
        ∙ rw
            (
              bytes_eq_refl exchange,
              bytes_eq_refl feed_queue,
              b.matches-hash (codes "post.created") (p.uuids.to_string author),
            )
            (or_true _)

    -- A post that is published with success after the publisher has started stands last in the feed
    -- queue, and both consumers decode its message to the author, the post and the text published.
    pub publish-delivers :
        (exchange : Text) (s t : b.State) (e : PostEvent)
        → publish_created p b exchange (publisher_start p b exchange s) e ≡ ok t
        → (b.queue t feed_queue
            ≡ b.queue (publisher_start p b exchange s) feed_queue ++ created_message p e ∷ [])
          × (read_created p (created_message p e) ≡ ok e)
          × (read_fanout p (created_message p e) ≡ ok e)
    unfolding publish_created
    publish-delivers exchange s t e h = (
      b.queue-publish_reliable _ t exchange (routing_key p b e.author_id) (created_message p e) h
            feed_queue
          ∙ rw (publisher_start-routes exchange s e.author_id),
      (read-created_message e).0,
      (read-created_message e).1,
    )

    fanout_start-routes :
        (q : Text) (s : b.State) → b.routes (fanout_start p b q s) ws_fanout [] q ≡ true
    unfolding fanout_start
    fanout_start-routes q s =
        b.routes-bind_fanout _ ws_fanout q [] ws_fanout [] q (declared s ws_fanout q fanout)
        ∙ rw (bytes_eq_refl ws_fanout, bytes_eq_refl q) (or_true _)

    -- An instance that starts later takes no message from one that is bound already.
    pub fanout_start-keeps :
        (q r : Text) (s : b.State)
        → b.routes s ws_fanout [] r ≡ true
        → b.routes (fanout_start p b q s) ws_fanout [] r ≡ true
    unfolding fanout_start
    fanout_start-keeps q r s h =
        b.routes-bind_fanout _ ws_fanout q [] ws_fanout [] r (declared s ws_fanout q fanout)
        ∙ rw (b.routes-declare_queue, b.routes-declare_exchange, h)

    -- Once two instances have started, a message that the broker takes for the fanout exchange
    -- goes to the queues of both.
    pub fanout-reaches_all :
        (q r : Text) (s t : b.State) (m : p.json.Document)
        → b.publish (fanout_start p b r (fanout_start p b q s)) ws_fanout [] m ≡ ok t
        → let u = fanout_start p b r (fanout_start p b q s) in
          (b.queue t q ≡ b.queue u q ++ m ∷ []) × (b.queue t r ≡ b.queue u r ++ m ∷ [])
    fanout-reaches_all q r s t m h =
        let u : b.State = fanout_start p b r (fanout_start p b q s) in
        let first = fanout_start-keeps r q (fanout_start p b q s) (fanout_start-routes q s) in
        (
          b.queue-publish u t ws_fanout [] m h q ∙ rw first,
          b.queue-publish u t ws_fanout [] m h r
              ∙ rw (fanout_start-routes r (fanout_start p b q s)),
        )

    -- The consumer updates the caches as `on_post_created` does for the published post, and then sends
    -- the message on; where that fails it throws with the caches updated already.
    pub consumer_process_lem :
        (s : App p b) (e : PostEvent)
        → let pushed : App p b = record s {
          feed = on_post_created p s.feed e.author_id e.post_id e.text;
        } in
          ((t : b.State)
            → b.publish s.broker ws_fanout [] (created_message p e) ≡ ok t
            → consumer_process p b s (created_message p e) ≡ (record pushed { broker = t }, ok tt))
          × ((x : Exception)
              → b.publish s.broker ws_fanout [] (created_message p e) ≡ throw x
              → consumer_process p b s (created_message p e) ≡ (pushed, throw x))
    unfolding consumer_process
    consumer_process_lem s e = (
      λ t h. rw ((read-created_message e).0, consume, h, fan_out),
      λ x h. rw ((read-created_message e).0, consume, h, fan_out),
    )

    on_post_created-slave :
        (s : FeedState p) (e : PostEvent)
        → (on_post_created p s e.author_id e.post_id e.text).slave ≡ s.slave
    unfolding on_post_created
    on_post_created-slave s e = refl

    -- A message whose sending on fails leaves the caches updated, so that its second delivery
    -- puts the post in front of the cached feed of a follower once more.
    pub redelivery-twice :
        (s : App p b) (e : PostEvent) (x : Exception) (v : Uuid) (post : FeedPost)
        (rest : List FeedPost)
        → b.publish s.broker ws_fanout [] (created_message p e) ≡ throw x
        → mem_bytes v (p.db.followers s.feed.slave e.author_id) ≡ true
        → Caches p s.feed v (post ∷ rest)
        → let again =
            (consumer_process p b
              (consumer_process p b s (created_message p e)).0
              (created_message p e)).0 in
          let new_post : FeedPost = record {
            post_id = e.post_id;
            text = e.text;
            author_user_id = e.author_id;
          } in
          Caches p again.feed v (bump new_post (bump new_post (post ∷ rest)))
    unfolding on_post_created
    redelivery-twice s e x v post rest h follows c =
        let pushed : App p b = record s {
          feed = on_post_created p s.feed e.author_id e.post_id e.text;
        } in
        let new_post : FeedPost = record {
          post_id = e.post_id;
          text = e.text;
          author_user_id = e.author_id;
        } in
        let same : pushed.feed.slave ≡ s.feed.slave = on_post_created-slave s.feed e in
        let first = (consumer_process_lem s e).1 x h in
        let second = (consumer_process_lem pushed e).1 x h in
        let once = on_post_created-Caches p s.feed e.author_id e.post_id e.text v (post ∷ rest) c in
        let twice =
          on_post_created-Caches p pushed.feed e.author_id e.post_id e.text v
            (bump new_post (post ∷ rest)) (rw follows at once) in
        rw (first, second) (rw (same, follows) at twice)

    -- The consumer updates the caches as `on_post_created` does for the published post and sends the
    -- message on to the instances, where the broker takes it.
    pub consumer_process-ok :
        (s : App p b) (e : PostEvent) (t : b.State)
        → b.publish s.broker ws_fanout [] (created_message p e) ≡ ok t
        → consumer_process p b s (created_message p e) ≡ (
          record s { feed = on_post_created p s.feed e.author_id e.post_id e.text; broker = t },
          ok tt,
        )
    consumer_process-ok s e t h = (consumer_process_lem s e).0 t h
