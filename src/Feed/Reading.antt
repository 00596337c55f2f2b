-- ===== src/Feed/Reading.antt =====
-- src/post/post_feed_handler.cpp: a page of the reader's own feed.
pub mod Laws
use otus_highload_architect.Prelude.{◌>>=◌, String, none, some, List, map, Uuid, Outcome, ok, throw}
use otus_highload_architect.Prelude.Int.{ℤ, pos}
use otus_highload_architect.Prelude.Numerals.{parse_integer}
use otus_highload_architect.Platform.Json.{Json, make_array}
use otus_highload_architect.Platform.Http.{
  HttpRequest, Response, status_ok, bad_request, empty, document, respond, find_arg,
}
use otus_highload_architect.Platform.Posts.{FeedPost}
use otus_highload_architect.Feed.Cache.{FeedPlatform, FeedState, get_feed}
use otus_highload_architect.Feed.Posts.{post_json}

-- `if (HasArg(k)) n = stoi(GetArg(k))`, with the value that `n` has before.
unfoldable pub int_arg : String → ℤ → HttpRequest → Outcome ℤ
int_arg k default request = elim (find_arg k request.args) [
  | none ↦ ok default
  | some t ↦ parse_integer 32 t
]

-- The two arguments, under one `try`.
unfoldable pub page_args : HttpRequest → Outcome (ℤ × ℤ)
unfolding int_arg
page_args request = do
  offset ← int_arg "offset" (pos 0) request
  limit ← int_arg "limit" (pos 10) request
  ok (offset, limit)

module _ (p : FeedPlatform) where
  abbrev pub feed_json : List FeedPost → Json
  feed_json feed = make_array (map (post_json p) feed)

  answer : Outcome (List FeedPost) → Outcome (Response p.json.Document)
  answer (throw e) = throw e
  answer (ok feed) =
      ok (record { status = status_ok; body = document (p.json.to_string (feed_json feed)) })

  read_page :
      FeedState p → Uuid → Outcome (ℤ × ℤ) → FeedState p × Outcome (Response p.json.Document)
  unfolding answer
  read_page s user_id (throw e) = respond s bad_request empty
  read_page s user_id (ok (offset, limit)) =
      let (t, feed) = get_feed p s user_id offset limit in (t, answer feed)

  unfoldable pub post_feed :
      FeedState p → Uuid → HttpRequest → FeedState p × Outcome (Response p.json.Document)
  unfolding read_page
  post_feed s user_id request = read_page s user_id (page_args request)
