-- ===== src/Users/Bearer.antt =====
-- The check of a bearer token: src/auth/auth_bearer.cpp, over the rows of src/auth/user_info_cache.hpp.
use mathlib.Core.Path.{subst}
use otus_highload_architect.Prelude.{
  true, false, ◌⊎◌, All, ==_iff, bytes_eq_refl, ℕ, String, ◌≡◌, refl, ap, ◌∙◌, ◌↔◌, inl, inr,
  Option, none, some, List, [], ◌∷◌, ◌++◌, arith, ◌==◌, if◌then◌else◌, Bool-cases, is_empty, Text,
  Uuid, codes, bytes_eq, bytes_eq_iff, mem_bytes,
}
use otus_highload_architect.Prelude.Maps.{lookup}

-- A row of `auth_schema.tokens`.
pub record UserDbInfo : Type 0 where
  pub token : Text
  pub user_id : Uuid
  pub scopes : List Text

-- A snapshot of the cache: the rows by their token.
abbrev pub AuthCache : Type 0
AuthCache = List (Text × UserDbInfo)

-- `AuthCheckResult::Status` and the reason that it gives.
pub data AuthStatus : Type 0 where
  granted : AuthStatus
  token_not_found : String → AuthStatus
  forbidden : Text → AuthStatus

-- The text in front of the first blank and the one behind it: `find(' ')`.
keep_front : ℕ → Option (Text × Text) → Option (Text × Text)
keep_front c none = none
keep_front c (some (a, b)) = some (c ∷ a, b)

unfoldable pub split_blank : Text → Option (Text × Text)
unfolding keep_front
split_blank [] = none
split_blank (c ∷ t) =
    let rest = split_blank t in if c == 32 then some ([], t) else keep_front c rest

-- The ticket is built from a `const char*`, so it ends before the first zero byte.
unfoldable pub c_string : Text → Text
c_string [] = []
c_string (c ∷ t) = let rest = c_string t in if c == 0 then [] else c ∷ rest

-- The loop over the required scopes: the first that the row lacks.
unfoldable pub missing_scope : List Text → List Text → Option Text
unfolding mem_bytes
missing_scope [] owned = none
missing_scope (scope ∷ required) owned =
    let rest = missing_scope required owned in if mem_bytes scope owned then rest else some scope

grant_scopes : UserDbInfo → Option Text → AuthStatus × Option Uuid
grant_scopes info (some scope) = (forbidden (codes "No '" ++ scope ++ codes "' permission"), none)
grant_scopes info none = (granted, some info.user_id)

-- `request_context.SetData("user_id", ...)` is the second component.
grant : List Text → Option UserDbInfo → AuthStatus × Option Uuid
unfolding grant_scopes missing_scope
grant required none = (forbidden [], none)
grant required (some info) = grant_scopes info (missing_scope required info.scopes)

check_parts : AuthCache → List Text → Option (Text × Text) → AuthStatus × Option Uuid
unfolding grant
check_parts cache required none =
    (token_not_found "'Authorization' header should have 'Bearer some-token' format", none)
check_parts cache required (some (scheme, token)) =
    if bytes_eq scheme (codes "Bearer")
    then grant required (lookup (c_string token) cache)
    else (token_not_found "'Authorization' header should have 'Bearer some-token' format", none)

-- `AuthCheckerBearer::CheckAuth`; an absent header reads as the empty text.
unfoldable pub check_auth : AuthCache → List Text → Text → AuthStatus × Option Uuid
unfolding check_parts
check_auth cache required auth_value =
    if is_empty auth_value
    then (token_not_found "Empty 'Authorization' header", none)
    else check_parts cache required (split_blank auth_value)

pub split_blank-bearer :
    (token : Text) → split_blank (codes "Bearer " ++ token) ≡ some (codes "Bearer", token)
unfolding split_blank
split_blank-bearer token = refl

join_step :
    (c : ℕ) (t : Text) (r : Option (Text × Text)) (a b : Text)
    → ((x y : Text) → r ≡ some (x, y) → t ≡ x ++ 32 ∷ y)
    → (if c == 32 then some ([], t) else keep_front c r) ≡ some (a, b)
    → c ∷ t ≡ a ++ 32 ∷ b
unfolding keep_front
join_step c t none [] b ih h = ground (arith, h)
join_step c t none (x ∷ a) b ih h = absurd (ground (arith, h))
join_step c t (some (x, y)) [] b ih h = ground (arith, h)
join_step c t (some (x, y)) (d ∷ a) b ih h = ground (
  arith,
  h,
  ih x y refl,
  λ (e : x ≡ a). ap (λ z. z ++ 32 ∷ y) e,
  λ (e : y ≡ b). ap (λ z. a ++ 32 ∷ z) e,
)

split_blank-join : (t a b : Text) → split_blank t ≡ some (a, b) → t ≡ a ++ 32 ∷ b
unfolding split_blank
split_blank-join [] a b h = absurd (ground (arith, h))
split_blank-join (c ∷ t) a b h = join_step c t (split_blank t) a b (split_blank-join t) h

scopes-granted :
    (info : UserDbInfo) (missing : Option Text) (user : Uuid)
    → grant_scopes info missing ≡ (granted, some user)
    → (missing ≡ none) × (info.user_id ≡ user)
unfolding grant_scopes
scopes-granted info none user h = ground (arith, h)
scopes-granted info (some x) user h = absurd (ground (arith, h))

grant-granted :
    (required : List Text) (row : Option UserDbInfo) (user : Uuid)
    → grant required row ≡ (granted, some user)
    → (info : UserDbInfo) × (row ≡ some info)
      × (missing_scope required info.scopes ≡ none)
      × (info.user_id ≡ user)
unfolding grant
grant-granted required none user h = absurd (ground (arith, h))
grant-granted required (some info) user h =
    let both = scopes-granted info (missing_scope required info.scopes) user h in
    (info, refl, both.0, both.1)

grant_lem :
    (required : List Text) (info : UserDbInfo)
    → missing_scope required info.scopes ≡ none
    → grant required (some info) ≡ (granted, some info.user_id)
unfolding grant grant_scopes
grant_lem required info h = rw h refl

parts-granted :
    (cache : AuthCache) (required : List Text) (parts : Option (Text × Text)) (user : Uuid)
    → check_parts cache required parts ≡ (granted, some user)
    → (token : Text) × (parts ≡ some (codes "Bearer", token))
      × (grant required (lookup (c_string token) cache) ≡ (granted, some user))
unfolding check_parts
parts-granted cache required none user h = absurd (ground (arith, h))
parts-granted cache required (some (scheme, token)) user h =
    elim (Bool-cases (bytes_eq scheme (codes "Bearer"))) [
      | inl e ↦ (
        token,
        ap (λ x. some (x, token)) ((bytes_eq_iff scheme (codes "Bearer")).0 e),
        ground (arith, h, e),
      )
      | inr e ↦ absurd (ground (arith, h, e))
    ]

-- No byte is zero.
abbrev pub IsNonzero : Text → Type 0
IsNonzero t = All (λ c. (c == 0) ≡ false) t

-- The ticket is the token up to its first zero byte.
abbrev pub IsTicket : Text → Text → Type 0
IsTicket token ticket =
    IsNonzero ticket × ((token ≡ ticket) ⊎ ((more : Text) × (token ≡ ticket ++ 0 ∷ more)))

c_string-IsTicket : (token : Text) → IsTicket token (c_string token)
unfolding c_string
c_string-IsTicket [] = (tt, inl refl)
c_string-IsTicket (c ∷ t) = elim (Bool-cases (c == 0)) [
  | inl zero_byte ↦ rw zero_byte (tt, inr (t, ap (λ x. x ∷ t) ((==_iff c 0).0 zero_byte)))
  | inr other ↦
      let (clean, ends) = c_string-IsTicket t in
      rw other (
        (other, clean),
        elim ends [
          | inl whole ↦ inl (ap (λ x. c ∷ x) whole)
          | inr (more, cut) ↦ inr (more, ap (λ x. c ∷ x) cut)
        ],
      )
]

c_string-nonzero : (t : Text) → IsNonzero t → c_string t ≡ t
unfolding c_string
c_string-nonzero [] clean = refl
c_string-nonzero (c ∷ t) clean = rw clean.0 (ap (λ x. c ∷ x) (c_string-nonzero t clean.1))

c_string-cut : (t more : Text) → IsNonzero t → c_string (t ++ 0 ∷ more) ≡ t
unfolding c_string
c_string-cut [] more clean = refl
c_string-cut (c ∷ t) more clean = rw clean.0 (ap (λ x. c ∷ x) (c_string-cut t more clean.1))

c_string-of_IsTicket : (token ticket : Text) → IsTicket token ticket → c_string token ≡ ticket
c_string-of_IsTicket token ticket (clean, inl whole) =
    ap c_string whole ∙ c_string-nonzero ticket clean
c_string-of_IsTicket token ticket (clean, inr (more, cut)) =
    ap c_string cut ∙ c_string-cut ticket more clean

-- Each required scope is among those that are owned.
abbrev pub Owns : List Text → List Text → Type 0
Owns required owned =
    (scope : Text) → mem_bytes scope required ≡ true → mem_bytes scope owned ≡ true

pub Owns-nothing_missing :
    (required owned : List Text) → missing_scope required owned ≡ none → Owns required owned
unfolding missing_scope mem_bytes
Owns-nothing_missing [] owned h scope asked = absurd (ground (arith, asked))
Owns-nothing_missing (s ∷ required) owned h scope asked = elim (Bool-cases (mem_bytes s owned)) [
  | inl there ↦ elim (Bool-cases (bytes_eq s scope)) [
    | inl same ↦ subst (λ x. mem_bytes x owned ≡ true) ((bytes_eq_iff s scope).0 same) there
    | inr other ↦
        Owns-nothing_missing required owned (rw there at h) scope (ground (arith, asked, other))
  ]
  | inr absent ↦ absurd (ground (arith, rw absent at h))
]

pub nothing_missing-Owns :
    (required owned : List Text) → Owns required owned → missing_scope required owned ≡ none
unfolding missing_scope mem_bytes
nothing_missing-Owns [] owned own = refl
nothing_missing-Owns (s ∷ required) owned own =
    rw (own s (ground (arith, bytes_eq_refl s)))
      (nothing_missing-Owns required owned (λ scope asked. own scope (ground (arith, asked))))

-- The header that a result speaks of: `Bearer `, a token whose part up to the first zero byte the cache
-- knows, and a row that owns every required scope.
abbrev pub Accepts : AuthCache → List Text → Text → Uuid → Type 0
Accepts cache required header user =
    (token : Text) × (ticket : Text) × (info : UserDbInfo) × (header ≡ codes "Bearer " ++ token)
    × IsTicket token ticket
    × (lookup ticket cache ≡ some info)
    × Owns required info.scopes
    × (info.user_id ≡ user)

check_auth-granted :
    (cache : AuthCache) (required : List Text) (header : Text) (user : Uuid)
    → check_auth cache required header ≡ (granted, some user)
    → Accepts cache required header user
unfolding check_auth
check_auth-granted cache required [] user h = absurd (ground (arith, h))
check_auth-granted cache required (c ∷ header) user h =
    let (token, split, passed) = parts-granted cache required (split_blank (c ∷ header)) user h in
    let (info, found, scoped, same) = grant-granted required _ user passed in
    (
      token,
      c_string token,
      info,
      split_blank-join (c ∷ header) (codes "Bearer") token split,
      c_string-IsTicket token,
      found,
      Owns-nothing_missing required info.scopes scoped,
      same,
    )

check_auth-accepted :
    (cache : AuthCache) (required : List Text) (header : Text) (user : Uuid)
    → Accepts cache required header user
    → check_auth cache required header ≡ (granted, some user)
unfolding check_auth check_parts split_blank keep_front bytes_eq
check_auth-accepted cache required header user
      (token, ticket, info, written, cut, found, own, same) =
    rw (written, c_string-of_IsTicket token ticket cut, found)
      (grant_lem required info (nothing_missing-Owns required info.scopes own)
        ∙ ap (λ u. (granted, some u)) same)

-- A header is accepted exactly where it is `Bearer ` and a token whose part up to its first zero byte is
-- in the cache, with a row that has every required scope; the user is then that of the row.
pub check_auth_lem :
    (cache : AuthCache) (required : List Text) (header : Text) (user : Uuid)
    → (check_auth cache required header ≡ (granted, some user)) ↔ Accepts cache required header user
check_auth_lem cache required header user =
    (check_auth-granted cache required header user, check_auth-accepted cache required header user)
