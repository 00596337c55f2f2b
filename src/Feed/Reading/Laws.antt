-- ===== src/Feed/Reading/Laws.antt =====
-- What the feed handler answers.
use otus_highload_architect.Prelude.{
  String, some, Text, Outcome, ◌⊎◌, inl, inr, refl, sym, ap, [], ◌∷◌, map, ℕ, suc, ◌+◌, ◌^◌, ◌<◌,
  ◌≡◌, none, List, Uuid, Exception, ok, throw,
}
use otus_highload_architect.Prelude.Int.{pos}
use otus_highload_architect.Prelude.Numerals.{parse_integer}
use otus_highload_architect.Platform.Json.{Json, make_array, text_at}
use otus_highload_architect.Feed.Posts.{post_json}
use otus_highload_architect.Platform.Http.{
  Response, HttpRequest, status_ok, bad_request, empty, document, respond, find_arg,
}
use otus_highload_architect.Platform.Posts.{FeedPost}
use otus_highload_architect.Feed.Cache.{FeedPlatform, FeedState}
use otus_highload_architect.Feed.Cache.Pages.{page}
use otus_highload_architect.Feed.Cache.Refinement.{Shows, get_feed-refines}
use otus_highload_architect.Feed.Reading.{
  int_arg, page_args, feed_json, post_feed, read_page, answer,
}

module _ (p : FeedPlatform) (s : FeedState p) (user : Uuid) (request : HttpRequest) where
  -- With arguments that denote a page of at least one post the handler answers 200 with that page of
  -- the feed shown to the user, and changes the feed shown to nobody. With an argument that `stoi`
  -- refuses it answers 400 and leaves the state alone.
  pub post_feed_lem :
      (feed : List FeedPost)
      → Shows p s user feed
      → ((o l : ℕ)
          → page_args request ≡ ok (pos o, pos (suc l))
          → o + suc l < 2 ^ 31
          → ((post_feed p s user request).1
              ≡ ok (record {
                status = status_ok;
                body = document (p.json.to_string (feed_json p (page o (suc l) feed)));
              }))
            × ((v : Uuid) (other : List FeedPost)
                → Shows p s v other
                → Shows p (post_feed p s user request).0 v other))
        × ((x : Exception)
            → page_args request ≡ throw x
            → post_feed p s user request ≡ respond s bad_request empty)
  unfolding post_feed
  post_feed_lem feed shown = (
    λ o l h fits.
        let (r, keeps) = get_feed-refines p s user o l feed fits shown in
        rw (h, read_page) (rw (r, answer), keeps),
    λ x h. rw (h, read_page),
  )

-- A number of the request: the argument that `stoi` reads, or the default where it is not given.
abbrev pub Asks : String → ℕ → HttpRequest → ℕ → Type 0
Asks name default request n =
    ((find_arg name request.args ≡ none) × (n ≡ default))
    ⊎ ((t : Text) × (find_arg name request.args ≡ some t) × (parse_integer 32 t ≡ ok (pos n)))

int_arg-Asks :
    (name : String) (default n : ℕ) (request : HttpRequest)
    → Asks name default request n
    → int_arg name (pos default) request ≡ ok (pos n)
unfolding int_arg
int_arg-Asks name default n request (inl (absent, same)) =
    rw (absent, int_arg) (ap (λ k. ok (pos k)) (sym same))
int_arg-Asks name default n request (inr (t, there, read)) = rw (there, int_arg) read

page_args-Asks :
    (request : HttpRequest) (offset limit : ℕ)
    → Asks "offset" 0 request offset
    → Asks "limit" 10 request limit
    → page_args request ≡ ok (pos offset, pos limit)
unfolding page_args
page_args-Asks request offset limit o l =
    rw (int_arg-Asks "offset" 0 offset request o, int_arg-Asks "limit" 10 limit request l) refl

module _ (p : FeedPlatform) where
  -- One item of the answer for each post, in order, with its three texts.
  abbrev pub Renders : List Json → List FeedPost → Type 0
  Renders [] [] = Unit {0}
  Renders [] (post ∷ feed) = ⊥
  Renders (item ∷ items) [] = ⊥
  Renders (item ∷ items) (post ∷ feed) =
      (text_at "id" item ≡ ok (p.uuids.to_string post.post_id))
      × (text_at "text" item ≡ ok post.text)
      × (text_at "author_user_id" item ≡ ok (p.uuids.to_string post.author_user_id))
      × Renders items feed

  Renders-post_json : (feed : List FeedPost) → Renders (map (post_json p) feed) feed
  Renders-post_json [] = tt
  Renders-post_json (post ∷ feed) = (refl, refl, refl, Renders-post_json feed)

  -- The answer is 200 with a text that reads as an array of these posts.
  abbrev pub AnswersWith : Outcome (Response p.json.Document) → List FeedPost → Type 0
  AnswersWith outcome feed =
      (text : p.json.Document) × (items : List Json) × (outcome
        ≡ ok (record { status = status_ok; body = document text }))
      × (p.json.from_string text ≡ some (make_array items))
      × Renders items feed

  -- Where `offset`, or 0, and `limit`, or 10, ask for a page of at least one post whose end fits an `int`,
  -- the handler answers 200 with a text that reads as the array of that page of the feed shown to the
  -- user, each post with its identifier, text and author; and the feed shown to any user afterwards is
  -- the one shown before.
  pub post_feed-page :
      (s : FeedState p) (user : Uuid) (request : HttpRequest) (feed other : List FeedPost)
      (v : Uuid) (o l : ℕ)
      → Shows p s user feed
      → Shows p s v other
      → Asks "offset" 0 request o
      → Asks "limit" 10 request (suc l)
      → o + suc l < 2 ^ 31
      → AnswersWith (post_feed p s user request).1 (page o (suc l) feed)
        × Shows p (post_feed p s user request).0 v other
  post_feed-page s user request feed other v o l shown kept first many fits =
      let both =
        (post_feed_lem p s user request feed shown).0 o l
          (page_args-Asks request o (suc l) first many) fits in
      (
        (
          p.json.to_string (feed_json p (page o (suc l) feed)),
          map (post_json p) (page o (suc l) feed),
          both.0,
          p.json.from_string-to_string (feed_json p (page o (suc l) feed)),
          Renders-post_json (page o (suc l) feed),
        ),
        both.1 v other kept,
      )
