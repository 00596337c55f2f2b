-- ===== src/Tests/Platforms.antt =====
-- A platform, users, posts and states for the tests.
use otus_highload_architect.Prelude.{
  ◌≡◌, refl, true, false, none, [], ◌∷◌, map, if◌then◌else◌, Uuid, codes, bytes_eq, mem_bytes,
}
use otus_highload_architect.Platform.Uuids.{plain_uuids}
use otus_highload_architect.Platform.Json.{Json, plain_json}
use otus_highload_architect.Platform.Lists.{plain_lists}
use otus_highload_architect.Platform.Posts.{FeedPost}
use otus_highload_architect.Platform.PlainPosts.{PlainDb, plain_posts, dedup, followed}
use otus_highload_architect.Platform.PlainQueues.{PlainBroker, plain_broker}
use otus_highload_architect.Feed.Cache.{FeedPlatform, FeedState, make_key, serialize_post}
use otus_highload_architect.Feed.Cache.Pages.{Caches}
use otus_highload_architect.Feed.Messages.{App}

abbrev pub platform : FeedPlatform
platform = record {
  uuids = plain_uuids;
  json = plain_json;
  redis = plain_lists Json;
  db = plain_posts;
}

abbrev pub ann : Uuid
ann = 1 ∷ []

abbrev pub bob : Uuid
bob = 2 ∷ []

abbrev pub eve : Uuid
eve = 3 ∷ []

abbrev pub post_one : FeedPost
post_one = record { post_id = 10 ∷ []; text = codes "first"; author_user_id = ann }

abbrev pub post_two : FeedPost
post_two = record { post_id = 11 ∷ []; text = codes "second"; author_user_id = ann }

-- Bob follows Ann, who wrote two posts.
abbrev pub small_db : PlainDb
small_db = record {
  posts = post_two ∷ post_one ∷ [];
  friends = λ a. if bytes_eq a ann then bob ∷ [] else [];
}

abbrev pub cold : FeedState platform
cold = record { cache = λ k. []; master = small_db; slave = small_db }

-- Bob's feed is cached as it was before the second post.
abbrev pub warm : FeedState platform
warm = record cold {
  cache = λ k.
      if bytes_eq (make_key platform bob) k
      then map (serialize_post platform) (post_one ∷ [])
      else [];
}

pub cold-Caches : (v : Uuid) → Caches platform cold v []
cold-Caches v = refl

pub warm-Caches : Caches platform warm bob (post_one ∷ [])
unfolding make_key bytes_eq
warm-Caches = refl

pub bob-follows : mem_bytes bob (platform.db.followers small_db ann) ≡ true
unfolding dedup mem_bytes bytes_eq
bob-follows = refl

pub bob-rows : platform.db.feed_rows small_db bob ≡ post_two ∷ post_one ∷ []
unfolding followed mem_bytes bytes_eq
bob-rows = refl

abbrev pub quiet : PlainBroker Json
quiet = record { kinds = λ e. none; queues = λ q. []; bound = λ e key q. false; reachable = true }

abbrev pub broken : PlainBroker Json
broken = record quiet { reachable = false }

abbrev pub app : App platform (plain_broker Json)
app = record { feed = warm; broker = quiet }
