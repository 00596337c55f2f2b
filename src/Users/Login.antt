-- ===== src/Users/Login.antt =====
-- Issuing a bearer token: src/auth/login.cpp.
pub mod Laws
use otus_highload_architect.Prelude.{
  ◌>>=◌, ℕ, ◌+◌, ◌-◌, ◌%◌, Bool, true, false, ◌&&◌, Option, none, some, List, [], ◌∷◌, ltb,
  if◌then◌else◌, length, Text, Uuid, codes, invalid_uuid, Outcome, ok, throw,
}
use otus_highload_architect.Platform.Json.{Json, make_object, str, text_at, has_member}
use otus_highload_architect.Platform.Uuids.{UuidText}
use otus_highload_architect.Platform.Http.{
  HttpRequest, Response, status_ok, bad_request, not_found, internal_server_error, value, respond,
}
use otus_highload_architect.Users.Passwords.{Hashing, verify_password, from_hex}

-- `std::sample` of a text that is read once: it keeps the order, and takes the next item with the odds
-- of what is wanted over what is left.
unfoldable pub sample : (ℕ → ℕ) → ℕ → ℕ → Text → Text
sample draw i wanted [] = []
sample draw i wanted (c ∷ rest) =
    let taken = sample draw (i + 1) (wanted - 1) rest in
    let skipped = sample draw (i + 1) wanted rest in
    if ltb (draw i % (length rest + 1)) wanted then c ∷ taken else skipped

abbrev pub charset : Text
charset = codes "0123456789ABCDEFGHIJKLMNOPQRSTUVWXYZabcdefghijklmnopqrstuvwxyz"

-- `GenerateBearerToken` of a generator.
unfoldable pub generate_bearer_token : (ℕ → ℕ) → ℕ → Text
unfolding sample
generate_bearer_token draw wanted = sample draw 0 wanted charset

-- The tables of users and tokens, and whether the cache of tokens was told to update.
pub record Accounts : Type 1 where
  pub Db : Type 0
  -- SELECT password_hash, salt FROM users WHERE user_id = $1
  pub select_password : Db → Uuid → Option (Text × Text)
  -- INSERT INTO tokens (token, user_id, scopes) ... RETURNING updated: whether a row came back
  pub insert_token : Db → Text → Uuid → List Text → Outcome (Db × Bool)

pub record LoginState (a : Accounts) : Type 0 where
  pub db : a.Db
  pub refresh_due : Bool

abbrev pub is_correct_request : Json → Bool
is_correct_request body = has_member "id" body && has_member "password" body

-- `kErrorMembersNotSet`
abbrev pub error_members_not_set : Json
error_members_not_set =
    make_object (("error", str (codes "Expected body has `id` and `password` fields")) ∷ [])

module _ (a : Accounts) (uuids : UuidText) (hashing : Hashing) (D : Type 0) where
  store_token : LoginState a → Text → Outcome (a.Db × Bool) → LoginState a × Outcome (Response D)
  store_token s token (throw e) = (s, throw e)
  store_token s token (ok (db, true)) =
      respond (record { db = db; refresh_due = true }) status_ok
        (value (make_object (("token", str token) ∷ [])))
  store_token s token (ok (db, false)) =
      respond (record s { db = db }) internal_server_error (value (make_object []))

  -- The password was checked, or a member was no text, or a stored text was no hexadecimal text.
  after_check : (ℕ → ℕ) → LoginState a → Uuid → Outcome Bool → LoginState a × Outcome (Response D)
  unfolding store_token
  after_check draw s user_id (throw e) = (s, throw e)
  after_check draw s user_id (ok false) = respond s not_found (value (make_object []))
  after_check draw s user_id (ok true) =
      let token = generate_bearer_token draw 32 in
      store_token s token (a.insert_token s.db token user_id (codes "read" ∷ codes "user" ∷ []))

  unfoldable pub check_password : Json → Text × Text → Outcome Bool
  check_password body (hash_text, salt_text) = do
    password ← text_at "password" body
    salt ← from_hex salt_text
    hash ← from_hex hash_text
    ok (verify_password hashing password salt hash 10000)

  with_user :
      (ℕ → ℕ)
      → LoginState a
      → Json
      → Uuid
      → Option (Text × Text)
      → LoginState a × Outcome (Response D)
  unfolding after_check check_password
  with_user draw s body user_id none = respond s not_found (value (make_object []))
  with_user draw s body user_id (some row) = after_check draw s user_id (check_password body row)

  with_id : (ℕ → ℕ) → LoginState a → Json → Outcome Text → LoginState a × Outcome (Response D)
  unfolding with_user
  with_id draw s body (throw e) = (s, throw e)
  with_id draw s body (ok id_text) = elim (uuids.generator id_text) [
    | none ↦ (s, throw invalid_uuid)
    | some user_id ↦ with_user draw s body user_id (a.select_password s.db user_id)
  ]

  -- `Login::HandleRequestJsonThrow`
  unfoldable pub login : (ℕ → ℕ) → LoginState a → HttpRequest → LoginState a × Outcome (Response D)
  unfolding with_id
  login draw s request =
      let body = request.json_body in
      if is_correct_request body
      then with_id draw s body (text_at "id" body)
      else respond s bad_request (value error_members_not_set)

-- Every byte is above the one before it, and the first above `k`.
unfoldable pub is_ascending : ℕ → Text → Bool
is_ascending k [] = true
is_ascending k (c ∷ t) = ltb k c && is_ascending c t
