-- ===== src/Tests/Races.antt =====
-- The theorems on requests that run side by side, at concrete inputs.
use otus_highload_architect.Prelude.{List, ◌≡◌, [], ◌∷◌, ◌++◌, arith, take, codes, ok}
use otus_highload_architect.Prelude.Int.{pos}
use otus_highload_architect.Feed.Cache.{get_feed, slice}
use otus_highload_architect.Feed.Cache.Pages.{Caches, page}
use otus_highload_architect.Feed.Cache.Races.{
  post_changed, friends_changed, Race, finished, of_first, turns, start, Turn, of_second, replica,
  consumer,
}
use otus_highload_architect.Feed.Cache.Races.Bounds.{IsKept, turns-IsKept}
use otus_highload_architect.Feed.Cache.Races.Overlaps.{
  both_miss, both_miss-doubles, overtaken, overtaken-lost,
}
use otus_highload_architect.Tests.Platforms.{
  platform, ann, bob, post_one, post_two, small_db, cold, cold-Caches, bob-rows,
}

abbrev raced : Race platform
raced =
    turns platform bob (pos 0) (pos 5) (start platform cold)
      (both_miss platform bob (pos 0) (pos 5))

both_miss-doubles_example :
    Caches platform raced.feed bob
      (take 1000 ((post_two ∷ post_one ∷ []) ++ (post_two ∷ post_one ∷ [])))
    × (raced.first ≡ finished (slice platform (post_two ∷ post_one ∷ []) (pos 0) (pos 5)))
    × (raced.second ≡ finished (slice platform (post_two ∷ post_one ∷ []) (pos 0) (pos 5)))
both_miss-doubles_example =
    both_miss-doubles platform bob (pos 0) (pos 5) cold post_two (post_one ∷ []) (cold-Caches bob)
      bob-rows

abbrev late : Race platform
late =
    turns platform bob (pos 0) (pos 5) (start platform cold)
      (overtaken platform bob (pos 0) (pos 5) small_db ann (12 ∷ []) (codes "x"))

overtaken-lost_example :
    (late.feed.slave ≡ small_db)
    × (get_feed platform late.feed bob (pos 0) (pos 5)
        ≡ (late.feed, ok (page 0 5 (post_two ∷ post_one ∷ []))))
overtaken-lost_example =
    overtaken-lost platform bob (pos 0) (pos 5) cold post_two (post_one ∷ []) small_db ann (12 ∷ [])
      (codes "x") 0 4 (cold-Caches bob) bob-rows (omega arith)

-- Both requests, the replica, the consumer and the handlers that drop feeds in turn.
abbrev mixed : List (Turn platform)
mixed =
    of_first
    ∷ of_second
    ∷ of_first
    ∷ replica small_db
    ∷ of_first
    ∷ consumer ann (12 ∷ []) (codes "x")
    ∷ of_second
    ∷ post_changed ann
    ∷ of_first
    ∷ friends_changed bob
    ∷ of_second
    ∷ []

abbrev mixed_end : Race platform
mixed_end = turns platform bob (pos 0) (pos 5) (start platform cold) mixed

turns-IsKept_example : IsKept platform bob mixed_end.feed mixed_end.first mixed_end.second
turns-IsKept_example =
    turns-IsKept platform bob (pos 0) (pos 5) (start platform cold) mixed
      ([], cold-Caches bob, λ i j. omega arith)
