-- ===== src/Feed/Cache/Keys.antt =====
-- The keys and the entries of the feed cache: no two users share a key, and what is written is read
-- back.
use otus_highload_architect.Prelude.{
  Text, Uuid, List, [], ◌∷◌, ◌++◌, map, ◌≡◌, refl, ap, ◌∙◌, arith, codes, ok, traverse, bytes_eq,
  bytes_eq_iff,
}
use otus_highload_architect.Platform.Posts.{FeedPost}
use otus_highload_architect.Feed.Cache.{FeedPlatform, make_key, serialize_post, deserialize_post}

module _ (p : FeedPlatform) where
  bytes_eq-prefix : (c x y : Text) → bytes_eq (c ++ x) (c ++ y) ≡ bytes_eq x y
  unfolding bytes_eq
  bytes_eq-prefix [] x y = refl
  bytes_eq-prefix (c ∷ cs) x y = ground (arith, bytes_eq-prefix cs x y)

  to_string-injective : (a b : Uuid) → p.uuids.to_string a ≡ p.uuids.to_string b → a ≡ b
  to_string-injective a b e =
      cc (p.uuids.generator-to_string a, p.uuids.generator-to_string b, ap p.uuids.generator e)

  bytes_eq-to_string :
      (a b : Uuid) → bytes_eq (p.uuids.to_string a) (p.uuids.to_string b) ≡ bytes_eq a b
  bytes_eq-to_string a b = ground (
    arith,
    bytes_eq_iff a b,
    bytes_eq_iff (p.uuids.to_string a) (p.uuids.to_string b),
    to_string-injective a b,
    λ (e : a ≡ b). ap p.uuids.to_string e,
  )

  -- Two keys are equal exactly when the users are.
  pub make_key-eq : (a b : Uuid) → bytes_eq (make_key p a) (make_key p b) ≡ bytes_eq a b
  unfolding make_key
  make_key-eq a b =
      bytes_eq-prefix (codes "feed:") (p.uuids.to_string a) (p.uuids.to_string b)
      ∙ bytes_eq-to_string a b

  pub deserialize-serialize :
      (post : FeedPost) → deserialize_post p (serialize_post p post) ≡ ok post
  unfolding deserialize_post serialize_post
  deserialize-serialize post = rw (
    p.json.from_string-to_string _,
    p.uuids.generator-to_string post.post_id,
    p.uuids.generator-to_string post.author_user_id,
  )

  -- A list of entries that `serialize_post` wrote is read back whole, with no exception.
  pub traverse-serialize :
      (posts : List FeedPost)
      → traverse (deserialize_post p) (map (serialize_post p) posts) ≡ ok posts
  unfolding traverse
  traverse-serialize [] = refl
  traverse-serialize (post ∷ posts) = rw deserialize-serialize (rw (traverse-serialize posts))
