-- ===== src/Platform/PlainPosts.antt =====
-- A small database, broker and hash store that meet the laws of the platform.
use otus_highload_architect.Prelude.{
  database_error, ℕ, ◌≤◌, ◌≡◌, refl, sym, ap, not, ◌&&◌, ◌||◌, Option, none, some, List, [], ◌∷◌,
  arith, if◌then◌else◌, length, take, length-take, Text, Uuid, bytes_eq, bytes_eq_iff, mem_bytes,
  IsDistinct, Outcome, ok, throw,
}
use mathlib.Core.Option
use otus_highload_architect.Platform.Posts.{FeedPost, PostDb, retext, author_of}

pub record PlainDb : Type 0 where
  -- newest first
  pub posts : List FeedPost
  -- the followers of an author, with repetitions
  pub friends : Uuid → List Uuid

unfoldable pub dedup : List Uuid → List Uuid
unfolding mem_bytes
dedup [] = []
dedup (x ∷ l) = let r = dedup l in if mem_bytes x r then r else x ∷ r

pub mem-dedup : (y : Uuid) (l : List Uuid) → mem_bytes y (dedup l) ≡ mem_bytes y l
unfolding dedup mem_bytes
mem-dedup y [] = refl
mem-dedup y (x ∷ l) = ground (
  arith,
  mem-dedup y l,
  mem-dedup x l,
  bytes_eq_iff x y,
  λ (e : x ≡ y). ap (λ z. mem_bytes z (dedup l)) e,
)

pub dedup-IsDistinct : (l : List Uuid) → IsDistinct (dedup l)
unfolding dedup
dedup-IsDistinct [] = tt
dedup-IsDistinct (x ∷ l) = ground (arith, dedup-IsDistinct l)

unfoldable pub leave : Uuid → List Uuid → List Uuid
leave u [] = []
leave u (x ∷ l) = let r = leave u l in if bytes_eq u x then r else x ∷ r

pub mem-leave :
    (u y : Uuid) (l : List Uuid) → mem_bytes y (leave u l) ≡ (not (bytes_eq u y) && mem_bytes y l)
unfolding leave mem_bytes
mem-leave u y [] = ground arith
mem-leave u y (x ∷ l) = ground (
  arith,
  mem-leave u y l,
  bytes_eq_iff x y,
  bytes_eq_iff u x,
  bytes_eq_iff u y,
  λ (e : x ≡ y). ap (bytes_eq u) e,
)

unfoldable pub find_post : Uuid → List FeedPost → Option FeedPost
find_post j [] = none
find_post j (q ∷ l) = if bytes_eq q.post_id j then some q else find_post j l

unfoldable pub set_text : Uuid → Text → List FeedPost → List FeedPost
set_text id t [] = []
set_text id t (q ∷ l) = (if bytes_eq q.post_id id then retext t q else q) ∷ set_text id t l

unfoldable pub erase : Uuid → List FeedPost → List FeedPost
erase id [] = []
erase id (q ∷ l) = let r = erase id l in if bytes_eq q.post_id id then r else q ∷ r

pub find-set_text :
    (id : Uuid) (t : Text) (j : Uuid) (l : List FeedPost)
    → find_post j (set_text id t l)
      ≡ (if bytes_eq id j then Option.map (retext t) (find_post j l) else find_post j l)
unfolding find_post set_text
find-set_text id t j [] = ground arith
find-set_text id t j (q ∷ l) = ground (
  arith,
  find-set_text id t j l,
  bytes_eq_iff q.post_id j,
  bytes_eq_iff q.post_id id,
  bytes_eq_iff id j,
  λ (e : id ≡ j). ap (bytes_eq q.post_id) e,
)

pub find-erase :
    (id j : Uuid) (l : List FeedPost)
    → find_post j (erase id l) ≡ (if bytes_eq id j then none else find_post j l)
unfolding find_post erase
find-erase id j [] = ground arith
find-erase id j (q ∷ l) = ground (
  arith,
  find-erase id j l,
  bytes_eq_iff q.post_id j,
  bytes_eq_iff q.post_id id,
  bytes_eq_iff id j,
)

-- The posts of the authors that a user follows, one for each identifier that is not seen yet.
unfoldable pub followed : (Uuid → List Uuid) → Uuid → List Uuid → List FeedPost → List FeedPost
unfolding dedup mem_bytes
followed friends user seen [] = []
followed friends user seen (q ∷ l) =
    let r = followed friends user (q.post_id ∷ seen) l in
    if not (mem_bytes q.post_id seen) && mem_bytes user (friends q.author_user_id) then q ∷ r else r

from_ok {ℓ} : {A : Type ℓ} → A → Outcome A → A
from_ok a (ok b) = b
from_ok a (throw e) = a

pub length-take-le : (n : ℕ) (l : List FeedPost) → length (take n l) ≤ n
length-take-le n l = omega (arith, length-take n l)

abbrev insert_row : PlainDb → Uuid → Uuid → Text → Option FeedPost → Outcome (PlainDb × Uuid)
insert_row d id a t (some clash) = throw database_error
insert_row d id a t none =
    ok (record d { posts = record { post_id = id; text = t; author_user_id = a } ∷ d.posts }, id)

-- The primary key of `posts` is its identifier.
abbrev pub plain_insert : PlainDb → Uuid → Text → Outcome (PlainDb × Uuid)
plain_insert d a t = let id = length d.posts ∷ [] in insert_row d id a t (find_post id d.posts)

insert_row-ok :
    (d d' : PlainDb) (j id a : Uuid) (t : Text) (found : Option FeedPost)
    → insert_row d j a t found ≡ ok (d', id)
    → (found ≡ none)
      × (j ≡ id)
      × (d' ≡ record d { posts = record { post_id = j; text = t; author_user_id = a } ∷ d.posts })
insert_row-ok d d' j id a t none h = ground (arith, h)
insert_row-ok d d' j id a t (some clash) h = ground (arith, h)

abbrev pub join_friends : PlainDb → Uuid → Uuid → Outcome PlainDb
join_friends d u f =
    ok (record d { friends = λ a. if bytes_eq f a then u ∷ d.friends a else d.friends a })

pub followers-insert :
    (d d' : PlainDb) (u f : Uuid)
    → join_friends d u f ≡ ok d'
    → (a v : Uuid)
    → mem_bytes v (dedup (d'.friends a))
      ≡ ((bytes_eq f a && bytes_eq u v) || mem_bytes v (dedup (d.friends a)))
unfolding mem_bytes from_ok
followers-insert d d' u f h a v =
    let same : d'
        ≡ record d { friends = λ x. if bytes_eq f x then u ∷ d.friends x else d.friends x } =
      sym (ap (from_ok d) h) in
    rw same (ground (arith, mem-dedup v (d.friends a), mem-dedup v (u ∷ d.friends a)))

pub followers-delete :
    (d : PlainDb) (u f a v : Uuid)
    → mem_bytes v (dedup (if bytes_eq f a then leave u (d.friends a) else d.friends a))
      ≡ (not (bytes_eq f a && bytes_eq u v) && mem_bytes v (dedup (d.friends a)))
followers-delete d u f a v = ground (
  arith,
  mem-leave u v (d.friends a),
  mem-dedup v (d.friends a),
  mem-dedup v (leave u (d.friends a)),
)

-- A row that is inserted has an identifier of its own, and stands first.
pub plain_insert-ok :
    (d d' : PlainDb) (a : Uuid) (t : Text) (id : Uuid)
    → plain_insert d a t ≡ ok (d', id)
    → (find_post id d.posts ≡ none)
      × (d' ≡ record d { posts = record { post_id = id; text = t; author_user_id = a } ∷ d.posts })
plain_insert-ok d d' a t id h =
    let both =
      insert_row-ok d d' (length d.posts ∷ []) id a t (find_post (length d.posts ∷ []) d.posts) h in
    let fresh : find_post id d.posts ≡ none = rw both.1 at both.0 in
    let row : d'
        ≡ record d { posts = record { post_id = id; text = t; author_user_id = a } ∷ d.posts } =
      rw both.1 at both.2 in
    (fresh, row)

pub find-insert :
    (d d' : PlainDb) (a : Uuid) (t : Text) (id j : Uuid)
    → plain_insert d a t ≡ ok (d', id)
    → find_post j d'.posts ≡ (
        if bytes_eq id j
        then some (record { post_id = id; text = t; author_user_id = a })
        else find_post j d.posts)
unfolding find_post
find-insert d d' a t id j h = rw ((plain_insert-ok d d' a t id h).1) refl

abbrev pub plain_posts : PostDb
plain_posts = record {
  Db = PlainDb;
  followers = λ d a. dedup (d.friends a);
  feed_rows = λ d u. take 1000 (followed d.friends u [] d.posts);
  select_post = λ d j. find_post j d.posts;
  insert_post = plain_insert;
  update_post = λ d j t.
      (record d { posts = set_text j t d.posts }, Option.map author_of (find_post j d.posts));
  delete_post =
      λ d j. (record d { posts = erase j d.posts }, Option.map author_of (find_post j d.posts));
  insert_friendship = join_friends;
  delete_friendship = λ d u f. record d {
    friends = λ a. if bytes_eq f a then leave u (d.friends a) else d.friends a;
  };
  followers-IsDistinct = λ d a. dedup-IsDistinct (d.friends a);
  feed_rows-le = λ d u. length-take-le 1000 (followed d.friends u [] d.posts);
  followers-insert_friendship = followers-insert;
  followers-delete_friendship = followers-delete;
  select-insert_post = find-insert;
  select-update_post = λ d id t j. find-set_text id t j d.posts;
  update_post-author = λ d id t. refl;
  select-delete_post = λ d id j. find-erase id j d.posts;
  delete_post-author = λ d id. refl;
}
