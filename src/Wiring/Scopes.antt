-- ===== src/Wiring/Scopes.antt =====
-- The scopes that configs/static_config.yaml asks for, and the tokens that src/auth/login.cpp issues.
use otus_highload_architect.Prelude.{
  inl, Option, ℕ, ◌≡◌, refl, ap, inr, true, ◌&&◌, none, some, List, [], ◌∷◌, ◌++◌, arith,
  Bool-cases, All, Text, Uuid, codes, bytes_eq, mem_bytes, ok,
}
use otus_highload_architect.Prelude.Maps.{lookup}
use otus_highload_architect.Platform.Uuids.{UuidText}
use otus_highload_architect.Platform.Json.{text_at, has_member, make_object, str}
use otus_highload_architect.Platform.Http.{HttpRequest, status_ok, value, respond}
use otus_highload_architect.Users.Passwords.{Hashing}
use otus_highload_architect.Users.Bearer.{
  AuthStatus, AuthCache, granted, IsNonzero, Owns-nothing_missing, missing_scope, check_auth,
  check_auth_lem,
}
use otus_highload_architect.Users.Login.{
  Accounts, LoginState, generate_bearer_token, check_password, login, is_ascending,
}
use otus_highload_architect.Users.Login.Laws.{generate_bearer_token_lem, login-granted}
use otus_highload_architect.Wiring.Names.{
  user_get_handler, user_search_handler, friend_add_handler, friend_delete_handler,
  post_create_handler, post_update_handler, post_delete_handler, post_feed_handler,
  post_feed_ws_handler, dialog_send_handler, dialog_list_handler, dialog_unread_handler,
}

abbrev read_scope : List Text
read_scope = codes "read" ∷ []

-- The handlers that ask for a bearer token, with the scopes that they ask for.
abbrev pub handler_scopes : List (Text × List Text)
handler_scopes =
    (user_get_handler, read_scope)
    ∷ (user_search_handler, read_scope)
    ∷ (friend_add_handler, read_scope)
    ∷ (friend_delete_handler, read_scope)
    ∷ (post_create_handler, read_scope)
    ∷ (post_update_handler, read_scope)
    ∷ (post_delete_handler, read_scope)
    ∷ (post_feed_handler, read_scope)
    ∷ (post_feed_ws_handler, read_scope)
    ∷ (dialog_send_handler, read_scope)
    ∷ (dialog_list_handler, read_scope)
    ∷ (dialog_unread_handler, read_scope)
    ∷ []

-- `CheckerFactory::MakeAuthChecker`, with the member `scopes` of a handler's configuration.
abbrev pub make_auth_checker : AuthCache → Option (List Text) → Text → AuthStatus × Option Uuid
make_auth_checker cache none = check_auth cache []
make_auth_checker cache (some scopes) = check_auth cache scopes

abbrev issued_scopes : List Text
issued_scopes = codes "read" ∷ codes "user" ∷ []

-- The cache of tokens after an update: SELECT token, user_id, scopes FROM auth_schema.tokens.
pub record TokenSnapshot (a : Accounts) : Type 0 where
  pub snapshot : a.Db → AuthCache
  pub lookup-insert_token :
      (db after : a.Db) (token : Text) (user : Uuid) (scopes : List Text)
      → a.insert_token db token user scopes ≡ ok (after, true)
      → lookup token (snapshot after)
        ≡ some (record { token = token; user_id = user; scopes = scopes })

ascending-IsNonzero : (k : ℕ) (t : Text) → is_ascending k t ≡ true → IsNonzero t
unfolding is_ascending
ascending-IsNonzero k [] h = tt
ascending-IsNonzero k (c ∷ t) h = (ground (arith, h), ascending-IsNonzero c t (ground (arith, h)))

scopes-owned :
    (handlers : List (Text × List Text)) (handler : Text) (scopes : List Text)
    → All (λ e. missing_scope e.1 issued_scopes ≡ none) handlers
    → lookup handler handlers ≡ some scopes
    → missing_scope scopes issued_scopes ≡ none
unfolding lookup
scopes-owned [] handler scopes h e = absurd (ground (arith, e))
scopes-owned ((name, own) ∷ handlers) handler scopes h e =
    elim (Bool-cases (bytes_eq name handler)) [
      | inl same ↦
          ground
            (arith, h, e, same, λ (x : own ≡ scopes). ap (λ y. missing_scope y issued_scopes) x)
      | inr other ↦ scopes-owned handlers handler scopes h.1 (ground (arith, e, other))
    ]

handler_scopes-owned : All (λ e. missing_scope e.1 issued_scopes ≡ none) handler_scopes
unfolding missing_scope mem_bytes bytes_eq
handler_scopes-owned = (
  refl,
  (refl, (refl, (refl, (refl, (refl, (refl, (refl, (refl, (refl, (refl, (refl, tt))))))))))),
)

module _ (a : Accounts) (tokens : TokenSnapshot a) (uuids : UuidText) (hashing : Hashing)
    (D : Type 0) where
  -- A complete request with a valid identifier and the right password is answered with a token, where the
  -- database stores it; and once the cache of tokens is updated, every handler that asks for a bearer token
  -- accepts the header `Bearer ` with that token, as the user of the identifier.
  pub login-accepted :
      (draw : ℕ → ℕ) (s : LoginState a) (request : HttpRequest) (id_text : Text) (user : Uuid)
      (row : Text × Text) (db : a.Db) (handler : Text) (scopes : List Text)
      → (has_member "id" request.json_body && has_member "password" request.json_body) ≡ true
      → text_at "id" request.json_body ≡ ok id_text
      → uuids.generator id_text ≡ some user
      → a.select_password s.db user ≡ some row
      → check_password a uuids hashing D request.json_body row ≡ ok true
      → a.insert_token s.db (generate_bearer_token draw 32) user issued_scopes ≡ ok (db, true)
      → lookup handler handler_scopes ≡ some scopes
      → let token = generate_bearer_token draw 32 in
        (login a uuids hashing D draw s request
          ≡ respond
              (record { db = db; refresh_due = true })
              status_ok
              (value (make_object (("token", str token) ∷ []))))
        × (make_auth_checker (tokens.snapshot db) (some scopes) (codes "Bearer " ++ token)
            ≡ (granted, some user))
  login-accepted draw s request id_text user row db handler scopes complete sent valid known right
        issued asks =
      let token = generate_bearer_token draw 32 in
      (
        login-granted a uuids hashing D draw s request id_text user complete sent valid row db known
            right issued,
        (check_auth_lem (tokens.snapshot db) scopes (codes "Bearer " ++ token) user).1 (
          token,
          token,
          record { token = token; user_id = user; scopes = issued_scopes },
          refl,
          (ascending-IsNonzero 0 token (generate_bearer_token_lem draw).1, inl refl),
          tokens.lookup-insert_token s.db db token user issued_scopes issued,
          Owns-nothing_missing scopes issued_scopes
              (scopes-owned handler_scopes handler scopes handler_scopes-owned asks),
          refl,
        ),
      )
