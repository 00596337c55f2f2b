-- ===== src/Prelude/Outcomes.antt =====
-- What a call gives: a value, or an exception that leaves it.
use mathlib.Core.List.{List, [], ◌∷◌, ◌++◌}
use mathlib.Core.Path.{◌≡◌, refl, ap, ◌∙◌}
use mathlib.Core.Option.{Option, none, some}
use mathlib.Core.Logic.{◌⊎◌, inl, inr}

-- `invalid_uuid` is the `std::runtime_error` of `boost::uuids::string_generator`, `bad_json` any
-- exception of `formats::json`, `database_error` any of the storage drivers, `invalid_argument` and
-- `out_of_range` those of the standard library, `unauthenticated` the gRPC status. `undefined` is no
-- exception: it marks a step whose behaviour the C++ standard leaves undefined.
pub data Exception : Type 0 where
  invalid_uuid bad_json database_error invalid_argument out_of_range rpc_error : Exception
  unauthenticated undefined : Exception

pub data Outcome {ℓ} (A : Type ℓ) : Type ℓ where
  ok : A → Outcome A
  throw : Exception → Outcome A

infixl 5 ◌>>=◌ ◌>>◌
abbrev pub ◌>>=◌ {ℓ κ} : {A : Type ℓ} {B : Type κ} → Outcome A → (A → Outcome B) → Outcome B
ok a >>= f = f a
throw e >>= f = throw e

abbrev pub ◌>>◌ {ℓ κ} : {A : Type ℓ} {B : Type κ} → Outcome A → Outcome B → Outcome B
m >> k = m >>= λ _. k

abbrev pub or_throw {ℓ} : {A : Type ℓ} → Option A → Exception → Outcome A
or_throw (some a) e = ok a
or_throw none e = throw e

pub Outcome-cases {ℓ} :
    {A : Type ℓ} (o : Outcome A) → ((a : A) × (o ≡ ok a)) ⊎ ((x : Exception) × (o ≡ throw x))
Outcome-cases (ok a) = inl (a, refl)
Outcome-cases (throw x) = inr (x, refl)

-- A loop that builds a vector from the values of a call, and stops at its first exception.
unfoldable pub traverse {ℓ κ} :
    {A : Type ℓ} {B : Type κ} → (A → Outcome B) → List A → Outcome (List B)
traverse f [] = ok []
traverse f (x ∷ xs) = do y ← f x; ys ← traverse f xs; ok (y ∷ ys)

abbrev join {ℓ} : {B : Type ℓ} → Outcome (List B) → Outcome (List B) → Outcome (List B)
join a b = do xs ← a; ys ← b; ok (xs ++ ys)

join_empty {ℓ} : {B : Type ℓ} (b : Outcome (List B)) → b ≡ join (ok []) b
join_empty (ok ys) = refl
join_empty (throw e) = refl

join_cons {ℓ} :
    {B : Type ℓ} (o : Outcome B) (a b : Outcome (List B))
    → (do y ← o; ys ← join a b; ok (y ∷ ys)) ≡ join (do y ← o; ys ← a; ok (y ∷ ys)) b
join_cons (throw e) a b = refl
join_cons (ok y) (throw e) b = refl
join_cons (ok y) (ok xs) (throw e) = refl
join_cons (ok y) (ok xs) (ok ys) = refl

traverse-join {ℓ κ} :
    {A : Type ℓ} {B : Type κ} (f : A → Outcome B) (l m : List A)
    → traverse f (l ++ m) ≡ join (traverse f l) (traverse f m)
unfolding traverse
traverse-join f [] m = join_empty (traverse f m)
traverse-join f (x ∷ l) m =
    ap (λ t. do y ← f x; ys ← t; ok (y ∷ ys)) (traverse-join f l m)
    ∙ join_cons (f x) (traverse f l) (traverse f m)

-- One more item behind a list that is read.
pub traverse-append {ℓ κ} :
    {A : Type ℓ} {B : Type κ} (f : A → Outcome B) (l : List A) (read : List B) (x : A) (y : B)
    → traverse f l ≡ ok read
    → f x ≡ ok y
    → traverse f (l ++ x ∷ []) ≡ ok (read ++ y ∷ [])
unfolding traverse
traverse-append f l read x y h e = traverse-join f l (x ∷ []) ∙ rw (h, e) refl
