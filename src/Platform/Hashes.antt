-- ===== src/Platform/Hashes.antt =====
-- The hash commands of Redis, as the counters use them. Redis keeps a field's value as decimal text;
-- the counters write integers only, and `fields` gives the integer that the text stands for.
use otus_highload_architect.Prelude.{
  ◌≡◌, ◌&&◌, Option, none, some, List, [], ◌∷◌, if◌then◌else◌, Text, bytes_eq, IsDistinct,
}
use otus_highload_architect.Prelude.Int.{ℤ, pos, ◌+ℤ◌}
use otus_highload_architect.Prelude.Maps.{lookup}

abbrev pub names : List (Text × ℤ) → List Text
names [] = []
names ((f, v) ∷ l) = f ∷ names l

-- HINCRBY counts a missing field as 0.
abbrev pub value_or_zero : Option ℤ → ℤ
value_or_zero none = pos 0
value_or_zero (some v) = v

pub record Hashes : Type 1 where
  pub Store : Type 0
  -- HGETALL: the order of the fields is not specified, and no two have one name
  pub fields : Store → Text → List (Text × ℤ)
  pub hset : Store → Text → Text → ℤ → Store
  pub hincrby : Store → Text → Text → ℤ → Store
  -- SCAN cursor MATCH counters:* COUNT 100: the next cursor and some keys
  pub scan : Store → Text → Text × List Text
  pub fields-IsDistinct : (s : Store) (k : Text) → IsDistinct (names (fields s k))
  pub lookup-hset :
      (s : Store) (k f : Text) (v : ℤ) (j g : Text)
      → lookup g (fields (hset s k f v) j)
        ≡ (if bytes_eq k j && bytes_eq f g then some v else lookup g (fields s j))
  pub lookup-hincrby :
      (s : Store) (k f : Text) (d : ℤ) (j g : Text)
      → lookup g (fields (hincrby s k f d) j) ≡ (
          if bytes_eq k j && bytes_eq f g
          then some (value_or_zero (lookup g (fields s j)) +ℤ d)
          else lookup g (fields s j))

-- HGET, and the integer that HINCRBY replies.
abbrev pub hget : (r : Hashes) → r.Store → Text → Text → Option ℤ
hget r s k f = lookup f (r.fields s k)
