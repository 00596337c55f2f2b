-- ===== src/Prelude/Bytes.antt =====
-- Text and identifiers as lists of bytes: `std::string`, and the 16 bytes of a `boost::uuids::uuid`.
use Prim.Native.Nat.{ℕ}
use Prim.Native.Char.{code}
use Prim.Native.String.{String}
use mathlib.Core.Path.{◌≡◌, refl}
use mathlib.Core.Logic.{◌↔◌, ◌⊎◌}
use mathlib.Core.Bool.{Bool, true, false, ◌&&◌, ◌||◌}
use mathlib.Core.List.{List, [], ◌∷◌}
use native.Mathlib.Omega.{arith}
use otus_highload_architect.Prelude.Tests.{◌==◌, ltb}

abbrev pub Text : Type 0
Text = List ℕ

abbrev pub Uuid : Type 0
Uuid = List ℕ

-- The bytes of an ASCII literal.
abbrev pub codes : String → Text
codes String.[] = []
codes (String.◌∷◌ c s) = code c ∷ codes s

-- `==` of `std::string` and of `uuid`.
unfoldable pub bytes_eq : List ℕ → List ℕ → Bool
bytes_eq [] [] = true
bytes_eq (x ∷ xs) (y ∷ ys) = (x == y) && bytes_eq xs ys
bytes_eq _ _ = false

pub bytes_eq_iff : (xs ys : List ℕ) → (bytes_eq xs ys ≡ true) ↔ (xs ≡ ys)
unfolding bytes_eq
bytes_eq_iff [] [] = (λ h. refl, λ h. refl)
bytes_eq_iff (x ∷ xs) (y ∷ ys) = ground (arith, bytes_eq_iff xs ys)
bytes_eq_iff [] (y ∷ ys) = ground arith
bytes_eq_iff (x ∷ xs) [] = ground arith

pub bytes_eq_refl : (xs : List ℕ) → bytes_eq xs xs ≡ true
bytes_eq_refl xs = (bytes_eq_iff xs xs).1 refl

-- `<` of `std::string`, of Lua strings and of `uuid`: lexicographic on the bytes.
unfoldable pub bytes_lt : List ℕ → List ℕ → Bool
bytes_lt [] [] = false
bytes_lt [] (y ∷ ys) = true
bytes_lt (x ∷ xs) [] = false
bytes_lt (x ∷ xs) (y ∷ ys) = ltb x y || ((x == y) && bytes_lt xs ys)

-- The order is total: where neither side is less, the two are equal.
pub bytes_lt_cases :
    (xs ys : List ℕ)
    → ((bytes_lt xs ys ≡ true) × (bytes_lt ys xs ≡ false))
      ⊎ ((bytes_lt xs ys ≡ false) × (bytes_lt ys xs ≡ true))
      ⊎ ((bytes_lt xs ys ≡ false) × (bytes_lt ys xs ≡ false) × (xs ≡ ys))
unfolding bytes_lt
bytes_lt_cases [] [] = ground arith
bytes_lt_cases [] (y ∷ ys) = ground arith
bytes_lt_cases (x ∷ xs) [] = ground arith
bytes_lt_cases (x ∷ xs) (y ∷ ys) = ground (arith, bytes_lt_cases xs ys)

-- Membership in a list of keys or identifiers.
unfoldable pub mem_bytes : List ℕ → List (List ℕ) → Bool
mem_bytes k [] = false
mem_bytes k (j ∷ js) = bytes_eq j k || mem_bytes k js

-- No two items are equal.
abbrev pub IsDistinct : List (List ℕ) → Type 0
IsDistinct [] = Unit {0}
IsDistinct (k ∷ ks) = (mem_bytes k ks ≡ false) × IsDistinct ks
