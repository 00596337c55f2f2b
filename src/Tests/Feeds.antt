-- ===== src/Tests/Feeds.antt =====
-- The theorems on the feed cache at concrete inputs.
use otus_highload_architect.Prelude.{
  ◌≡◌, refl, inl, [], ◌∷◌, arith, if◌then◌else◌, codes, mem_bytes, ok,
}
use otus_highload_architect.Prelude.Int.{pos}
use otus_highload_architect.Feed.Cache.{get_feed, on_post_created}
use otus_highload_architect.Feed.Cache.Pages.{Caches, page, get_feed-zero_limit}
use otus_highload_architect.Feed.Cache.Fanout.{bump, on_post_created-Caches}
use otus_highload_architect.Feed.Cache.Refinement.{Shows, get_feed-Shows}
use otus_highload_architect.Platform.Json.{null}
use otus_highload_architect.Platform.Http.{HttpRequest}
use otus_highload_architect.Feed.Reading.{post_feed}
use otus_highload_architect.Feed.Reading.Laws.{post_feed-page, AnswersWith}
use otus_highload_architect.Feed.Cache.Bounds.{IsWellFormed, reads, perform, perform-IsWellFormed}
use otus_highload_architect.Tests.Platforms.{
  platform, ann, bob, post_one, small_db, cold, warm, cold-Caches, warm-Caches,
}

cold-IsWellFormed : IsWellFormed platform cold
cold-IsWellFormed = record { feed_of = λ v. ([], cold-Caches v, omega arith) }

get_feed-Shows_example :
    ((get_feed platform warm bob (pos 0) (pos 5)).1 ≡ ok (page 0 5 (post_one ∷ [])))
    × Shows platform (get_feed platform warm bob (pos 0) (pos 5)).0 bob (post_one ∷ [])
get_feed-Shows_example =
    get_feed-Shows platform warm bob bob 0 4 (post_one ∷ []) (post_one ∷ []) (omega arith)
      (inl (post_one, [], refl, warm-Caches)) (inl (post_one, [], refl, warm-Caches))

abbrev first_page : HttpRequest
first_page = record { path_arg = []; args = []; json_body = null }

post_feed-page_example :
    AnswersWith platform (post_feed platform warm bob first_page).1 (page 0 10 (post_one ∷ []))
    × Shows platform (post_feed platform warm bob first_page).0 bob (post_one ∷ [])
post_feed-page_example =
    post_feed-page platform warm bob first_page (post_one ∷ []) (post_one ∷ []) bob 0 9
      (inl (post_one, [], refl, warm-Caches)) (inl (post_one, [], refl, warm-Caches))
      (inl (refl, refl)) (inl (refl, refl)) (omega arith)

perform-IsWellFormed_example :
    IsWellFormed platform (perform platform cold (reads bob (pos 0) (pos 10)))
perform-IsWellFormed_example =
    perform-IsWellFormed platform cold (reads bob (pos 0) (pos 10)) cold-IsWellFormed

on_post_created-Caches_example :
    Caches platform (on_post_created platform warm ann (12 ∷ []) (codes "x")) bob (
      if mem_bytes bob (platform.db.followers small_db ann)
      then bump
          (record { post_id = 12 ∷ []; text = codes "x"; author_user_id = ann })
          (post_one ∷ [])
      else post_one ∷ [])
on_post_created-Caches_example =
    on_post_created-Caches platform warm ann (12 ∷ []) (codes "x") bob (post_one ∷ []) warm-Caches

get_feed-zero_limit_example :
    ((get_feed platform warm bob (pos 0) (pos 0)).1 ≡ ok (post_one ∷ []))
    × ((get_feed platform cold bob (pos 0) (pos 0)).1 ≡ ok [])
get_feed-zero_limit_example =
    get_feed-zero_limit platform warm cold bob post_one [] warm-Caches (cold-Caches bob)
