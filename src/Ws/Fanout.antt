-- ===== src/Ws/Fanout.antt =====
-- A new post on its way to its readers: from the handler through the two queues of RabbitMQ into the
-- cached feeds and the WebSocket sessions. The last step is `Process` of src/post/ws_fanout_consumer.cpp.
use otus_highload_architect.Prelude.{
  ℕ, ◌≡◌, refl, ap, ◌∙◌, true, List, [], ◌∷◌, ◌++◌, Text, Uuid, mem_bytes, Exception, Outcome, ok,
  throw,
}
use otus_highload_architect.Platform.Broker.{Broker}
use otus_highload_architect.Platform.Mailbox.{Mailbox}
use otus_highload_architect.Platform.Posts.{FeedPost}
use otus_highload_architect.Platform.Json.{null, make_object, str, text_at}
use otus_highload_architect.Platform.Http.{HttpRequest, status_ok, value, respond}
use otus_highload_architect.Feed.Cache.{FeedPlatform, on_post_created}
use otus_highload_architect.Feed.Cache.Pages.{Caches}
use otus_highload_architect.Feed.Cache.Fanout.{bump, on_post_created-Caches}
use otus_highload_architect.Feed.Messages.{
  PostEvent, App, feed_queue, ws_fanout, created_message, read_fanout, routing_key, publish_created,
  consumer_process,
}
use otus_highload_architect.Feed.Messages.Delivery.{read-created_message, consumer_process-ok}
use otus_highload_architect.Feed.Posts.{post_create}
use otus_highload_architect.Feed.Posts.Friends.{post_create_lem}
use otus_highload_architect.Ws.{Manager, sessions_of, notify_followers}
use otus_highload_architect.Ws.Registry.{count, IsTidy}
use otus_highload_architect.Ws.Notify.{notify-once}

abbrev pub new_post : PostEvent → FeedPost
new_post e = record { post_id = e.post_id; text = e.text; author_user_id = e.author_id }

module _ (p : FeedPlatform) (b : Broker p.json.Document) where
  -- The monolith after a post is created, and after its event is handled by the consumer of the feeds.
  abbrev pub after_create : App p b → p.db.Db → b.State → App p b
  after_create s db confirmed = record s {
    feed = record s.feed { master = db };
    broker = confirmed;
  }

  abbrev pub after_consume : App p b → p.db.Db → b.State → PostEvent → App p b
  after_consume s db sent e = record s {
    feed = on_post_created p (record s.feed { master = db }) e.author_id e.post_id e.text;
    broker = sent;
  }

module _ (p : FeedPlatform) (box : Mailbox p.json.Document) where
  notify_read : p.db.Db → Manager box → Outcome PostEvent → Manager box × Outcome (Unit {0})
  notify_read slave w (throw e) = (w, throw e)
  notify_read slave w (ok e) = (notify_followers p box slave w e, ok tt)

  -- `WsFanoutConsumer::Impl::Process`
  unfoldable pub fanout_process :
      p.db.Db → Manager box → p.json.Document → Manager box × Outcome (Unit {0})
  unfolding notify_read
  fanout_process slave w message = notify_read slave w (read_fanout p message)

  -- A message that cannot be read notifies nobody.
  pub fanout_process-unreadable :
      (slave : p.db.Db) (w : Manager box) (message : p.json.Document) (x : Exception)
      → read_fanout p message ≡ throw x
      → fanout_process slave w message ≡ (w, throw x)
  unfolding fanout_process
  fanout_process-unreadable slave w message x h = rw (h, notify_read) refl

  fanout_process-created :
      (slave : p.db.Db) (w : Manager box) (e : PostEvent)
      → fanout_process slave w (created_message p e) ≡ (notify_followers p box slave w e, ok tt)
  unfolding fanout_process
  fanout_process-created slave w e = rw ((read-created_message p e).1, notify_read) refl

  module _ (b : Broker p.json.Document) (exchange : Text) where
    -- Where the queues are bound and the broker takes both messages, a post that is created by POST goes
    -- all the way to a follower that the replica knows: its event stands last in the feed queue, the
    -- consumer of that queue puts it in front of what is cached for the follower and leaves it last in the
    -- queue of the instance, and the instance pushes it once to a live session of the follower.
    pub post-reaches_follower :
        (s : App p b) (e : PostEvent) (request : HttpRequest) (db : p.db.Db)
        (confirmed sent : b.State) (q : Text) (w : Manager box) (session : ℕ) (u : Uuid)
        (feed : List FeedPost)
        → text_at "text" request.json_body ≡ ok e.text
        → p.db.insert_post s.feed.master e.author_id e.text ≡ ok (db, e.post_id)
        → b.routes s.broker exchange (routing_key p b e.author_id) feed_queue ≡ true
        → b.routes s.broker ws_fanout [] q ≡ true
        → publish_created p b exchange s.broker e ≡ ok confirmed
        → b.publish confirmed ws_fanout [] (created_message p e) ≡ ok sent
        → mem_bytes u (p.db.followers s.feed.slave e.author_id) ≡ true
        → Caches p s.feed u feed
        → IsTidy w
        → count session (sessions_of w u) ≡ 1
        → w.alive session ≡ true
        → let message = created_message p e in
          let notified = (fanout_process s.feed.slave w message).0 in
          (post_create p b exchange s e.author_id request
            ≡ respond
                (after_create p b s db confirmed)
                status_ok
                (value (make_object (("id", str (p.uuids.to_string e.post_id)) ∷ []))))
          × (b.queue confirmed feed_queue ≡ b.queue s.broker feed_queue ++ message ∷ [])
          × (consumer_process p b (after_create p b s db confirmed) message
              ≡ (after_consume p b s db sent e, ok tt))
          × Caches p (after_consume p b s db sent e).feed u (bump (new_post e) feed)
          × (b.queue sent q ≡ b.queue confirmed q ++ message ∷ [])
          × (box.contents (notified.queue session) ≡ box.contents (w.queue session) ++ message ∷ [])
    unfolding publish_created
    post-reaches_follower s e request db confirmed sent q w session u feed body inserted bound
          listening confirmation fanned follows cached tidy once alive =
        let message = created_message p e in
        let get : HttpRequest = record {
          path_arg = p.uuids.to_string e.post_id;
          args = [];
          json_body = null;
        } in
        (
          (post_create_lem p b exchange s e.author_id request get e.text db e.post_id confirmed body
              inserted confirmation (p.uuids.generator-to_string e.post_id)).0,
          b.queue-publish_reliable s.broker confirmed exchange (routing_key p b e.author_id) message
                confirmation feed_queue
              ∙ rw bound refl,
          consumer_process-ok p b (after_create p b s db confirmed) e sent fanned,
          rw follows at (
              on_post_created-Caches p (record s.feed { master = db }) e.author_id e.post_id e.text
                u feed cached),
          b.queue-publish confirmed sent ws_fanout [] message fanned q
              ∙ rw
                  (
                    b.routes-publish_reliable s.broker confirmed exchange
                        (routing_key p b e.author_id) message confirmation ws_fanout [] q,
                    listening,
                  )
                  refl,
          ap (λ x. box.contents (x.0.queue session)) (fanout_process-created s.feed.slave w e)
              ∙ (rw follows at (notify-once p box s.feed.slave w e session u tidy once alive).0),
        )
