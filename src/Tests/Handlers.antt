-- ===== src/Tests/Handlers.antt =====
-- The theorems on handlers and messages at concrete inputs.
use otus_highload_architect.Prelude.{
  arith, ◌≡◌, refl, [], ◌∷◌, if◌then◌else◌, Uuid, codes, bytes_eq, ok,
}
use otus_highload_architect.Prelude.Int.{pos}
use otus_highload_architect.Feed.Cache.{FeedState, get_feed, make_key}
use otus_highload_architect.Feed.Cache.Pages.{page}
use otus_highload_architect.Platform.Json.{Json, make_object, str}
use otus_highload_architect.Platform.Http.{HttpRequest, status_ok, not_found, empty}
use otus_highload_architect.Platform.PlainPosts.{PlainDb}
use otus_highload_architect.Platform.PlainQueues.{plain_broker}
use otus_highload_architect.Feed.Messages.{App, PostEvent}
use otus_highload_architect.Feed.Posts.{post_get, post_delete, friend_add}
use otus_highload_architect.Feed.Posts.Laws.{drops, post_delete_lem}
use otus_highload_architect.Feed.Posts.Lag.{friend_add-stale}
use otus_highload_architect.Tests.Platforms.{
  bob-rows, post_two, platform, ann, bob, eve, post_one, small_db, warm, broken, app,
}

abbrev event : PostEvent
event = record { author_id = ann; post_id = 12 ∷ []; text = codes "x" }

abbrev edit : HttpRequest
edit = record {
  path_arg = 10 ∷ [];
  args = [];
  json_body = make_object (("id", str (10 ∷ [])) ∷ ("text", str (codes "new")) ∷ []);
}

abbrev to_ann : HttpRequest
to_ann = record { path_arg = ann; args = []; json_body = make_object [] }

post_delete_lem_example :
    ((post_delete platform warm edit).1 ≡ ok (record { status = status_ok; body = empty }))
    × ((v : Uuid)
        → platform.redis.contents (post_delete platform warm edit).0.cache (make_key platform v) ≡ (
            if drops platform warm (platform.db.select_post small_db (10 ∷ [])) v
            then []
            else platform.redis.contents warm.cache (make_key platform v)))
    × (post_get platform (post_delete platform warm edit).0 edit
        ≡ ok (record { status = not_found; body = empty }))
post_delete_lem_example = post_delete_lem platform warm edit (10 ∷ []) refl

abbrev broken_app : App platform (plain_broker Json)
broken_app = record app { broker = broken }

abbrev followed_db : PlainDb
followed_db = record small_db {
  friends = λ a. if bytes_eq ann a then eve ∷ small_db.friends a else small_db.friends a;
}

-- Bob befriends Eve, and the replica does not know it when Bob reads his feed.
abbrev to_eve : HttpRequest
to_eve = record { path_arg = eve; args = []; json_body = make_object [] }

abbrev befriended_db : PlainDb
befriended_db = record small_db {
  friends = λ a. if bytes_eq eve a then bob ∷ small_db.friends a else small_db.friends a;
}

abbrev read_early : FeedState platform
read_early = (get_feed platform (friend_add platform warm bob to_eve).0 bob (pos 0) (pos 10)).0

friend_add-stale_example :
    get_feed platform (record read_early { slave = befriended_db }) bob (pos 0) (pos 10)
    ≡ (record read_early { slave = befriended_db }, ok (page 0 10 (post_two ∷ post_one ∷ [])))
friend_add-stale_example =
    friend_add-stale platform warm bob to_eve eve befriended_db befriended_db post_two
      (post_one ∷ []) 0 9 refl refl bob-rows (omega arith)
