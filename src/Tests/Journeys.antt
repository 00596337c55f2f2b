-- ===== src/Tests/Journeys.antt =====
-- The theorems on a post and a message on their way through the services, at concrete inputs.
use otus_highload_architect.Platform.PlainPosts.{find_post, PlainDb}
use otus_highload_architect.Prelude.{
  ◌≡◌, refl, true, [], ◌∷◌, ◌++◌, if◌then◌else◌, Text, codes, bytes_eq, ok,
}
use otus_highload_architect.Platform.Json.{Json, make_object, str}
use otus_highload_architect.Platform.Http.{HttpRequest, status_ok, value, respond}
use otus_highload_architect.Platform.Mailbox.{plain_mailbox}
use otus_highload_architect.Platform.PlainQueues.{PlainBroker, plain_broker}
use otus_highload_architect.Feed.Cache.Pages.{Caches}
use otus_highload_architect.Feed.Cache.Fanout.{bump}
use otus_highload_architect.Feed.Messages.{
  App, PostEvent, feed_queue, ws_fanout, created_message, publisher_start, publish_created,
  routing_key, fanout_start, consumer_process,
}
use otus_highload_architect.Feed.Posts.{post_create}
use otus_highload_architect.Ws.Fanout.{
  fanout_process, after_create, after_consume, new_post, post-reaches_follower,
}
use otus_highload_architect.Tests.Platforms.{
  platform, ann, bob, post_one, post_two, small_db, warm-Caches, bob-follows, quiet, app,
}
use otus_highload_architect.Tests.Sockets.{
  one_session, one_session-IsTidy, bob-registered, bob-alive,
}

abbrev exchange : Text
exchange = codes "feed"

abbrev event : PostEvent
event = record { author_id = ann; post_id = 2 ∷ []; text = codes "x" }

abbrev write : HttpRequest
write = record {
  path_arg = [];
  args = [];
  json_body = make_object (("text", str (codes "x")) ∷ []);
}

abbrev grown_db : PlainDb
grown_db = record small_db { posts = new_post event ∷ post_two ∷ post_one ∷ [] }

-- The publisher and one instance have started.
abbrev started : PlainBroker Json
started =
    fanout_start platform (plain_broker Json) (codes "q")
      (publisher_start platform (plain_broker Json) exchange quiet)

abbrev app_started : App platform (plain_broker Json)
app_started = record app { broker = started }

abbrev with_message : PlainBroker Json → Text → Text → Json → PlainBroker Json
with_message s e key m = record s {
  queues = λ q. if s.bound e key q then s.queues q ++ m ∷ [] else s.queues q;
}

abbrev confirmed : PlainBroker Json
confirmed =
    with_message started exchange (routing_key platform (plain_broker Json) ann)
      (created_message platform event)

abbrev fanned : PlainBroker Json
fanned = with_message confirmed ws_fanout [] (created_message platform event)

feed-bound :
    (plain_broker Json).routes started exchange
      (routing_key platform (plain_broker Json) ann)
      feed_queue
    ≡ true
unfolding publisher_start fanout_start bytes_eq
feed-bound = refl

instance-bound : (plain_broker Json).routes started ws_fanout [] (codes "q") ≡ true
unfolding publisher_start fanout_start bytes_eq
instance-bound = refl

event-confirmed : publish_created platform (plain_broker Json) exchange started event ≡ ok confirmed
unfolding publish_created publisher_start fanout_start
event-confirmed = refl

event-fanned :
    (plain_broker Json).publish confirmed ws_fanout [] (created_message platform event) ≡ ok fanned
unfolding publisher_start fanout_start
event-fanned = refl

post-reaches_follower_example :
    (post_create platform (plain_broker Json) exchange app_started ann write
      ≡ respond
          (after_create platform (plain_broker Json) app_started grown_db confirmed)
          status_ok
          (value (make_object (("id", str (2 ∷ [])) ∷ []))))
    × (confirmed.queues feed_queue
        ≡ started.queues feed_queue ++ created_message platform event ∷ [])
    × (consumer_process platform
          (plain_broker Json)
          (after_create platform (plain_broker Json) app_started grown_db confirmed)
          (created_message platform event)
        ≡ (after_consume platform (plain_broker Json) app_started grown_db fanned event, ok tt))
    × Caches platform
        (after_consume platform (plain_broker Json) app_started grown_db fanned event).feed
        bob
        (bump (new_post event) (post_one ∷ []))
    × (fanned.queues (codes "q")
        ≡ confirmed.queues (codes "q") ++ created_message platform event ∷ [])
    × ((fanout_process platform
            (plain_mailbox Json)
            small_db
            one_session
            (created_message platform event)).0.queue
          0
        ≡ one_session.queue 0 ++ created_message platform event ∷ [])
unfolding find_post bytes_eq
post-reaches_follower_example =
    post-reaches_follower platform (plain_mailbox Json) (plain_broker Json) exchange app_started
      event write grown_db confirmed fanned (codes "q") one_session 0 bob (post_one ∷ []) refl refl
      feed-bound instance-bound event-confirmed event-fanned bob-follows warm-Caches
      one_session-IsTidy bob-registered bob-alive
