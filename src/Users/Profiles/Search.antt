-- ===== src/Users/Profiles/Search.antt =====
-- What the search of profiles finds, under the meaning of LIKE.
use otus_highload_architect.Prelude.{
  ◌≡◌, Bool, true, false, not, ◌&&◌, ◌||◌, List, [], ◌∷◌, ◌++◌, ◌==◌, if◌then◌else◌, Text, Uuid,
  codes,
}
use otus_highload_architect.Users.Profiles.{Profile, Users}

-- No wildcard of LIKE, `%` or `_`, and no backslash.
unfoldable pub is_plain : Text → Bool
is_plain [] = true
is_plain (c ∷ t) = not (c == 37 || c == 95 || c == 92) && is_plain t

unfoldable pub starts_with : Text → Text → Bool
starts_with [] t = true
starts_with (c ∷ p) [] = false
starts_with (c ∷ p) (d ∷ t) = c == d && starts_with p t

abbrev pub named : Text → Text → Uuid × Profile → Bool
named first last (id, profile) =
    starts_with first profile.first_name && starts_with last profile.second_name

unfoldable pub select {ℓ} : {A : Type ℓ} → (A → Bool) → List A → List A
select f [] = []
select f (a ∷ l) = let rest = select f l in if f a then a ∷ rest else rest

pub record SearchTable (u : Users) : Type 0 where
  -- the table in the order of user_id
  pub rows : u.Db → List (Uuid × Profile)
  -- a pattern and a text
  pub like : Text → Text → Bool
  pub search_users-like :
      (db : u.Db) (first last : Text)
      → u.search_users db first last
        ≡ select (λ row. like first row.1.first_name && like last row.1.second_name) (rows db)
  pub like-prefix :
      (prefix t : Text)
      → is_plain prefix ≡ true
      → like (prefix ++ codes "%") t ≡ starts_with prefix t
