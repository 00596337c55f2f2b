-- ===== src/Tests/Rows.antt =====
-- The statements of the small database meet the laws of the feed's rows.
use otus_highload_architect.Prelude.{
  ◌≡◌, refl, ap, ◌⊎◌, inl, inr, Bool, true, false, not, ◌||◌, Option, none, some, List, [], ◌∷◌,
  arith, if◌then◌else◌, Bool-cases, take, take-take, Text, Uuid, codes, bytes_eq, bytes_eq_iff,
  bytes_eq_refl, mem_bytes, ok,
}
use otus_highload_architect.Platform.Posts.{FeedPost}
use otus_highload_architect.Platform.PlainPosts.{
  PlainDb, plain_posts, plain_insert, plain_insert-ok, find_post, set_text, erase, followed,
  join_friends, dedup, mem-dedup, mem-leave, find-erase,
}
use otus_highload_architect.Prelude.Int.{pos}
use otus_highload_architect.Feed.Cache.{get_feed}
use otus_highload_architect.Feed.Cache.Pages.{page}
use otus_highload_architect.Feed.Posts.Coherence.{
  FeedRows, FeedStep, befriended, created, read, updated, deleted, unfriended, take_steps,
  follows_author,
}
use otus_highload_architect.Feed.Posts.Coherence.Steps.{take_steps-refines}
use otus_highload_architect.Tests.Platforms.{platform, ann, bob, eve, cold, cold-Caches}

agree_step :
    (id x : Uuid) (seen other : List Uuid) (q : FeedPost) (l : List FeedPost)
    → (mem_bytes x seen ≡ mem_bytes x other) ⊎ (find_post x (q ∷ l) ≡ none)
    → (mem_bytes x (id ∷ seen) ≡ mem_bytes x (id ∷ other)) ⊎ (find_post x l ≡ none)
unfolding find_post mem_bytes
agree_step id x seen other q l (inl same) = inl (ap (λ b. bytes_eq id x || b) same)
agree_step id x seen other q l (inr gone) = inr (ground (arith, gone))

-- Two lists of seen identifiers which differ only in what the table does not hold.
followed-agree :
    (friends : Uuid → List Uuid) (user : Uuid) (seen other : List Uuid) (l : List FeedPost)
    → ((x : Uuid) → (mem_bytes x seen ≡ mem_bytes x other) ⊎ (find_post x l ≡ none))
    → followed friends user seen l ≡ followed friends user other l
unfolding followed find_post mem_bytes
followed-agree friends user seen other [] h = refl
followed-agree friends user seen other (q ∷ l) h =
    let rest =
      followed-agree friends user (q.post_id ∷ seen) (q.post_id ∷ other) l
        (λ x. agree_step q.post_id x seen other q l (h x)) in
    ground (arith, rest, h q.post_id, bytes_eq_refl q.post_id)

-- Whether the first row with an identifier has its author followed.
shown : (Uuid → List Uuid) → Uuid → Option FeedPost → Bool
shown friends user none = false
shown friends user (some q) = mem_bytes user (friends q.author_user_id)

followed-set_text :
    (friends : Uuid → List Uuid) (user id : Uuid) (text : Text) (seen : List Uuid)
    (l : List FeedPost)
    → mem_bytes id seen || not (shown friends user (find_post id l)) ≡ true
    → followed friends user seen (set_text id text l) ≡ followed friends user seen l
unfolding followed find_post mem_bytes set_text shown
followed-set_text friends user id text seen [] h = refl
followed-set_text friends user id text seen (q ∷ l) h = ground (
  arith,
  followed-set_text friends user id text (q.post_id ∷ seen) l,
  bytes_eq_iff q.post_id id,
  λ (e : q.post_id ≡ id). ap (λ x. mem_bytes x seen) e,
  h,
)

unseen :
    (j id x : Uuid) (seen : List Uuid) (l : List FeedPost)
    → bytes_eq j id ≡ true
    → (mem_bytes x seen ≡ mem_bytes x (j ∷ seen)) ⊎ (find_post x (erase id l) ≡ none)
unfolding mem_bytes
unseen j id x seen l same = elim (Bool-cases (bytes_eq j x)) [
  | inl e ↦ inr (
      ground
        (arith, find-erase id x l, same, e, bytes_eq_iff j id, bytes_eq_iff j x, bytes_eq_iff id x))
  | inr e ↦ inl (rw e refl)
]

followed-erase :
    (friends : Uuid → List Uuid) (user id : Uuid) (seen : List Uuid) (l : List FeedPost)
    → mem_bytes id seen || not (shown friends user (find_post id l)) ≡ true
    → followed friends user seen (erase id l) ≡ followed friends user seen l
unfolding followed find_post mem_bytes erase shown
followed-erase friends user id seen [] h = refl
followed-erase friends user id seen (q ∷ l) h = elim (Bool-cases (bytes_eq q.post_id id)) [
  | inl same ↦
      let gone =
        followed-agree friends user seen (q.post_id ∷ seen) (erase id l)
          (λ x. unseen q.post_id id x seen l same) in
      ground (
        arith,
        same,
        gone,
        followed-erase friends user id (q.post_id ∷ seen) l,
        h,
        bytes_eq_iff q.post_id id,
        λ (e : q.post_id ≡ id). ap (λ x. mem_bytes x seen) e,
      )
  | inr other ↦ ground (arith, other, followed-erase friends user id (q.post_id ∷ seen) l, h)
]

followed-friends :
    (friends others : Uuid → List Uuid) (user : Uuid) (seen : List Uuid) (l : List FeedPost)
    → ((a : Uuid) → mem_bytes user (friends a) ≡ mem_bytes user (others a))
    → followed friends user seen l ≡ followed others user seen l
unfolding followed
followed-friends friends others user seen [] h = refl
followed-friends friends others user seen (q ∷ l) h =
    ground (arith, h q.author_user_id, followed-friends friends others user (q.post_id ∷ seen) l h)

shown-follows :
    (d : PlainDb) (found : Option FeedPost) (v : Uuid)
    → follows_author plain_posts d found v ≡ false
    → not (shown d.friends v found) ≡ true
unfolding shown
shown-follows d none v h = refl
shown-follows d (some q) v h = ground (arith, h, mem-dedup v (d.friends q.author_user_id))

only :
    (id x : Uuid) (l : List FeedPost)
    → find_post id l ≡ none
    → (mem_bytes x (id ∷ []) ≡ mem_bytes x []) ⊎ (find_post x l ≡ none)
unfolding mem_bytes
only id x l fresh = elim (Bool-cases (bytes_eq id x)) [
  | inl e ↦ inr (rw ((bytes_eq_iff id x).0 e) at fresh)
  | inr e ↦ inl (rw e refl)
]

join_friends-ok :
    (d after : PlainDb) (u f : Uuid)
    → join_friends d u f ≡ ok after
    → after ≡ record d { friends = λ a. if bytes_eq f a then u ∷ d.friends a else d.friends a }
join_friends-ok d after u f h = ground (arith, h)

friendship_rows :
    (d after : PlainDb) (u f v : Uuid)
    → join_friends d u f ≡ ok after
    → bytes_eq u v ≡ false
    → take 1000 (followed after.friends v [] after.posts)
      ≡ take 1000 (followed d.friends v [] d.posts)
unfolding mem_bytes
friendship_rows d after u f v h other =
    rw (join_friends-ok d after u f h)
      (ap (take 1000) (followed-friends _ d.friends v [] d.posts (λ a. ground (arith, other))))

insert_rows :
    (d after : PlainDb) (a : Uuid) (t : Text) (id v : Uuid)
    → plain_insert d a t ≡ ok (after, id)
    → take 1000 (followed after.friends v [] after.posts) ≡ (
        if mem_bytes v (dedup (d.friends a))
        then take 1000 (
            record { post_id = id; text = t; author_user_id = a }
            ∷ take 1000 (followed d.friends v [] d.posts))
        else take 1000 (followed d.friends v [] d.posts))
unfolding followed mem_bytes
insert_rows d after a t id v h =
    let (fresh, next) = plain_insert-ok d after a t id h in
    let rest = followed-agree d.friends v (id ∷ []) [] d.posts (λ x. only id x d.posts fresh) in
    let cut = take-take 999 1000 (followed d.friends v [] d.posts) (omega arith) in
    rw (next, rest, cut) (ground (arith, mem-dedup v (d.friends a)))

pub plain_rows : FeedRows plain_posts
unfolding mem_bytes shown
plain_rows = record {
  followers-insert_post = λ db after a t id h other.
      ap (λ d. dedup (d.friends other)) (plain_insert-ok db after a t id h).1;
  feed_rows-insert_post = insert_rows;
  feed_rows-update_post = λ db id t v h. ap (take 1000) (
      followed-set_text db.friends v id t [] db.posts
        (shown-follows db (find_post id db.posts) v h));
  feed_rows-delete_post = λ db id v h.
      ap (take 1000)
        (followed-erase db.friends v id [] db.posts (shown-follows db (find_post id db.posts) v h));
  feed_rows-insert_friendship = friendship_rows;
  feed_rows-delete_friendship = λ db u f v h. ap (take 1000) (
      followed-friends _ db.friends v [] db.posts
        (λ a. ground (arith, h, mem-leave u v (db.friends a))));
}

-- Bob follows Eve, who writes; he reads his feed, Eve writes again and changes her first post, he reads
-- again, and her second post is deleted.
abbrev life : List FeedStep
life =
    befriended bob eve
    ∷ created eve (codes "hello")
    ∷ read bob (pos 0) (pos 10)
    ∷ created eve (codes "again")
    ∷ updated (2 ∷ []) (codes "changed")
    ∷ read bob (pos 0) (pos 2)
    ∷ deleted (3 ∷ [])
    ∷ unfriended bob ann
    ∷ []

take_steps-refines_example :
    (get_feed platform (take_steps platform cold life) bob (pos 0) (pos 10)).1
    ≡ ok (page 0 10 (platform.db.feed_rows (take_steps platform cold life).master bob))
take_steps-refines_example =
    take_steps-refines platform plain_rows cold life bob 0 9 refl cold-Caches (omega arith)
