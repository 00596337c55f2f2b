-- ===== src/Platform/Lists.antt =====
-- The list commands of Redis (EXISTS, LRANGE, RPUSH, LPUSH, LTRIM, DEL). `contents s k` is the list
-- at the key, and `[]` for a key that is not there: Redis removes a key with its last item.
use otus_highload_architect.Prelude.{
  Text, ℕ, suc, ◌+◌, ◌-◌, List, [], ◌∷◌, ◌++◌, ◌≡◌, refl, if◌then◌else◌, length, take, drop,
  is_empty, bytes_eq, mem_bytes,
}
use otus_highload_architect.Prelude.Int.{ℤ, pos, negsuc, pos_part, sub_ℕ}

-- An index below zero counts from the end.
abbrev pub from_end : ℕ → ℤ → ℤ
from_end n (pos i) = pos i
from_end n (negsuc i) = sub_ℕ n (suc i)

module _ {ℓ} {A : Type ℓ} where
  abbrev between : ℤ → ℤ → List A → List A
  between start (negsuc e) xs = []
  between start (pos e) xs = take (e + 1 - pos_part start) (drop (pos_part start) xs)

  -- The items from `start` to `stop`, both included: what LRANGE returns and LTRIM keeps.
  unfoldable pub range : ℤ → ℤ → List A → List A
  range start stop xs = between (from_end (length xs) start) (from_end (length xs) stop) xs

pub record ListStore (V : Type 0) : Type 1 where
  pub Store : Type 0
  pub contents : Store → Text → List V
  pub exists : Store → Text → ℕ
  pub lrange : Store → Text → ℤ → ℤ → List V
  pub rpush : Store → Text → List V → Store
  pub lpush : Store → Text → V → Store
  pub ltrim : Store → Text → ℤ → ℤ → Store
  pub del : Store → List Text → Store
  pub exists_lem : (s : Store) (k : Text) → exists s k ≡ (if is_empty (contents s k) then 0 else 1)
  pub lrange_lem : (s : Store) (k : Text) (a b : ℤ) → lrange s k a b ≡ range a b (contents s k)
  pub contents-rpush :
      (s : Store) (k : Text) (vs : List V) (j : Text)
      → contents (rpush s k vs) j ≡ (if bytes_eq k j then contents s j ++ vs else contents s j)
  pub contents-lpush :
      (s : Store) (k : Text) (v : V) (j : Text)
      → contents (lpush s k v) j ≡ (if bytes_eq k j then v ∷ contents s j else contents s j)
  pub contents-ltrim :
      (s : Store) (k : Text) (a b : ℤ) (j : Text)
      → contents (ltrim s k a b) j
        ≡ (if bytes_eq k j then range a b (contents s j) else contents s j)
  pub contents-del :
      (s : Store) (ks : List Text) (j : Text)
      → contents (del s ks) j ≡ (if mem_bytes j ks then [] else contents s j)

-- A store that meets the laws: a function from keys to lists.
abbrev pub plain_lists : (V : Type 0) → ListStore V
plain_lists V = record {
  Store = Text → List V;
  contents = λ s k. s k;
  exists = λ s k. if is_empty (s k) then 0 else 1;
  lrange = λ s k a b. range a b (s k);
  rpush = λ s k vs j. if bytes_eq k j then s j ++ vs else s j;
  lpush = λ s k v j. if bytes_eq k j then v ∷ s j else s j;
  ltrim = λ s k a b j. if bytes_eq k j then range a b (s j) else s j;
  del = λ s ks j. if mem_bytes j ks then [] else s j;
  exists_lem = λ s k. refl;
  lrange_lem = λ s k a b. refl;
  contents-rpush = λ s k vs j. refl;
  contents-lpush = λ s k v j. refl;
  contents-ltrim = λ s k a b j. refl;
  contents-del = λ s ks j. refl;
}
