-- ===== src/Tests/Failures.antt =====
-- The theorems on commands that are not answered, at concrete inputs.
use otus_highload_architect.Platform.Json.{Json, make_object, str}
use otus_highload_architect.Platform.PlainQueues.{PlainBroker, plain_broker}
use otus_highload_architect.Feed.Messages.{
  App, PostEvent, ws_fanout, created_message, fanout_start, consumer_process,
}
use otus_highload_architect.Feed.Messages.Redelivery.{
  try_consumer_process, try_consumer_process-Redelivered,
}
use otus_highload_architect.Tests.Platforms.{
  quiet, platform, ann, bob, eve, post_one, small_db, cold, cold-Caches, warm,
}
use otus_highload_architect.Prelude.{
  ◌&&◌, true, ◌++◌, ◌≡◌, refl, ◌⊎◌, inr, ◌||◌, [], ◌∷◌, map, arith, if◌then◌else◌, Uuid, codes,
  bytes_eq, mem_bytes, database_error, Outcome, ok, throw,
}
use otus_highload_architect.Platform.Connections.{up, down, lost, is_answered, is_run}
use otus_highload_architect.Platform.PlainPosts.{PlainDb, dedup}
use otus_highload_architect.Feed.Cache.{FeedState, make_key, serialize_post}
use otus_highload_architect.Feed.Cache.Fanout.{bump}
use otus_highload_architect.Feed.Cache.Failures.{
  Commands, try_push_to_follower, try_push_to_followers, try_on_post_created,
}
use otus_highload_architect.Feed.Cache.Failures.Loop.{cached, Stopped}
use otus_highload_architect.Feed.Cache.Failures.Redelivery.{
  created_document, try_on_post_created_lem, Redelivered,
}
use otus_highload_architect.Prelude.Int.{pos}
use otus_highload_architect.Platform.Http.{HttpRequest, Response, status_ok, value}
use otus_highload_architect.Platform.Posts.{retext}
use otus_highload_architect.Feed.Cache.Pages.{page}
use otus_highload_architect.Feed.Cache.Refinement.{Shows}
use otus_highload_architect.Feed.Cache.Failures.Reading.{
  ReadLinks, try_get_feed, try_get_feed-Shows,
}
use otus_highload_architect.Feed.Posts.{post_get}
use otus_highload_architect.Feed.Posts.Laws.{drops, shown_post}
use otus_highload_architect.Feed.Posts.Failures.{try_post_update}
use otus_highload_architect.Feed.Posts.Retry.{try_post_update-retried}
use mathlib.Core.Option

-- Bob and Eve follow Ann, and both have a feed in the cache.
abbrev followed_db : PlainDb
followed_db = record small_db { friends = λ a. if bytes_eq a ann then bob ∷ eve ∷ [] else [] }

abbrev both_cached : FeedState platform
both_cached = record {
  cache = λ k.
      if bytes_eq (make_key platform bob) k || bytes_eq (make_key platform eve) k
      then map (serialize_post platform) (post_one ∷ [])
      else [];
  master = followed_db;
  slave = followed_db;
}

-- The LTRIM of Eve's feed is not answered.
abbrev eve_untrimmed : Uuid → Commands
eve_untrimmed v = record { exists = up; lpush = up; ltrim = if bytes_eq v eve then down else up }

abbrev broken_run : FeedState platform × Outcome (Unit {0})
broken_run = try_on_post_created platform up eve_untrimmed both_cached ann (12 ∷ []) (codes "x")

broken_run-throws : broken_run.1 ≡ throw database_error
unfolding try_on_post_created try_push_to_followers try_push_to_follower make_key bytes_eq dedup
    mem_bytes
broken_run-throws = refl

-- One instance is bound, and the message says what the broken run was for.
abbrev bound : PlainBroker Json
bound = fanout_start platform (plain_broker Json) (codes "q") quiet

abbrev new_event : PostEvent
new_event = record { author_id = ann; post_id = 12 ∷ []; text = codes "x" }

abbrev consuming : App platform (plain_broker Json)
consuming = record { feed = both_cached; broker = bound }

abbrev sent_on : PlainBroker Json
sent_on = record bound {
  queues = λ q.
      if bound.bound ws_fanout [] q
      then bound.queues q ++ created_message platform new_event ∷ []
      else bound.queues q;
}

sent_on-taken :
    (plain_broker Json).publish bound ws_fanout [] (created_message platform new_event) ≡ ok sent_on
unfolding fanout_start
sent_on-taken = refl

instance-bound : (plain_broker Json).routes bound ws_fanout [] (codes "q") ≡ true
unfolding fanout_start bytes_eq
instance-bound = refl

abbrev first : App platform (plain_broker Json) × Outcome (Unit {0})
first =
    try_consumer_process platform (plain_broker Json) up eve_untrimmed consuming
      (created_message platform new_event)

abbrev second : App platform (plain_broker Json) × Outcome (Unit {0})
second = consumer_process platform (plain_broker Json) first.0 (created_message platform new_event)

try_consumer_process-Redelivered_example :
    (first.1 ≡ throw database_error)
    × (first.0.broker ≡ bound)
    × (second.1 ≡ ok tt)
    × (second.0.broker.queues (codes "q")
        ≡ bound.queues (codes "q") ++ created_message platform new_event ∷ [])
    × Redelivered platform eve_untrimmed both_cached ann (12 ∷ []) (codes "x") second.0.feed
try_consumer_process-Redelivered_example =
    try_consumer_process-Redelivered platform (plain_broker Json) eve_untrimmed consuming new_event
      broken_run-throws sent_on (codes "q") sent_on-taken instance-bound

try_on_post_created_lem_example :
    ((broken_run.1 ≡ ok tt)
      × ((v : Uuid)
          → cached platform broken_run.0.cache v ≡ (
              if mem_bytes v (platform.db.followers followed_db ann)
              then bump
                  (created_document platform ann (12 ∷ []) (codes "x"))
                  (cached platform both_cached.cache v)
              else cached platform both_cached.cache v)))
    ⊎ ((broken_run.1 ≡ throw database_error)
        × Stopped platform
            (created_document platform ann (12 ∷ []) (codes "x"))
            both_cached.cache
            (platform.db.followers followed_db ann)
            broken_run.0.cache)
try_on_post_created_lem_example =
    try_on_post_created_lem platform eve_untrimmed both_cached ann (12 ∷ []) (codes "x")

-- The RPUSH of Bob's feed is sent, and the LTRIM is not answered.
abbrev untrimmed : ReadLinks
untrimmed = record { exists = up; lrange = up; select = up; rpush = up; ltrim = down }

try_get_feed-Shows_example :
    (((try_get_feed platform untrimmed cold bob (pos 0) (pos 5)).1
        ≡ ok (page 0 5 (platform.db.feed_rows small_db bob)))
      ⊎ ((try_get_feed platform untrimmed cold bob (pos 0) (pos 5)).1 ≡ throw database_error))
    × Shows platform
        (try_get_feed platform untrimmed cold bob (pos 0) (pos 5)).0
        bob
        (platform.db.feed_rows small_db bob)
try_get_feed-Shows_example =
    try_get_feed-Shows platform untrimmed cold bob bob 0 4 (platform.db.feed_rows small_db bob)
      (platform.db.feed_rows small_db bob) (omega arith) (inr (cold-Caches bob, refl))
      (inr (cold-Caches bob, refl))

abbrev edit : HttpRequest
edit = record {
  path_arg = 10 ∷ [];
  args = [];
  json_body = make_object (("id", str (10 ∷ [])) ∷ ("text", str (codes "new")) ∷ []);
}

-- The DEL is run, and its answer is lost.
abbrev half_edited : FeedState platform × Outcome (Response Json)
half_edited = try_post_update platform up lost warm edit

abbrev edited : FeedState platform × Outcome (Response Json)
edited = try_post_update platform up up half_edited.0 edit

try_post_update-retried_example :
    ((half_edited.1 ≡ ok (record { status = status_ok; body = value (make_object []) }))
      ⊎ (half_edited.1 ≡ throw database_error))
    × (post_get platform half_edited.0 edit
        ≡ shown_post platform
            (Option.map (retext (codes "new")) (platform.db.select_post small_db (10 ∷ []))))
    × (platform.redis.contents half_edited.0.cache (make_key platform bob) ≡ (
        if is_answered up
          && is_run lost
          && drops platform warm (platform.db.select_post small_db (10 ∷ [])) bob
        then []
        else platform.redis.contents warm.cache (make_key platform bob)))
    × (edited.1 ≡ ok (record { status = status_ok; body = value (make_object []) }))
    × (platform.redis.contents edited.0.cache (make_key platform bob) ≡ (
        if drops platform warm (platform.db.select_post small_db (10 ∷ [])) bob
        then []
        else platform.redis.contents warm.cache (make_key platform bob)))
try_post_update-retried_example =
    try_post_update-retried platform up lost warm edit (10 ∷ []) (10 ∷ []) (codes "new") refl refl
      refl edit bob refl
