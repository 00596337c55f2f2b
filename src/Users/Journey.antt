-- ===== src/Users/Journey.antt =====
-- A new user from registration to the first request with a token.
use otus_highload_architect.Prelude.{
  ℕ, ◌<◌, ◌≡◌, refl, true, false, some, [], ◌∷◌, All, Text, Uuid, codes, ok,
}
use otus_highload_architect.Platform.Uuids.{UuidText}
use otus_highload_architect.Platform.Json.{JsonText, null, make_object, str}
use otus_highload_architect.Platform.Http.{HttpRequest, status_ok, document, value, respond}
use otus_highload_architect.Users.Passwords.{Hashing, hash_password, to_hex}
use otus_highload_architect.Users.Profiles.{
  Profile, Users, has_all, register_fields, get_json, user_get, read_profile, user_register,
}
use otus_highload_architect.Users.Profiles.Laws.{user_get-found, user_register-ok}
use otus_highload_architect.Users.Login.{Accounts, generate_bearer_token, login}
use otus_highload_architect.Users.Login.Laws.{login-granted}
use otus_highload_architect.Users.Accounts.{check-registered}

-- The tables of users and of tokens stand in one database.
pub record UserTables (u : Users) (a : Accounts) : Type 0 where
  pub accounts : u.Db → a.Db
  pub select-insert_user :
      (db after : u.Db) (profile : Profile) (hash salt : Text) (id : Uuid)
      → u.insert_user db profile hash salt ≡ ok (after, id)
      → u.select_user after id ≡ some profile
  pub select_password-insert_user :
      (db after : u.Db) (profile : Profile) (hash salt : Text) (id : Uuid)
      → u.insert_user db profile hash salt ≡ ok (after, id)
      → a.select_password (accounts after) id ≡ some (hash, salt)

module _ (uuids : UuidText) where
  abbrev pub get_request : Uuid → HttpRequest
  get_request id = record { path_arg = uuids.to_string id; args = []; json_body = null }

  abbrev pub login_request : Uuid → Text → HttpRequest
  login_request id password = record {
    path_arg = [];
    args = [];
    json_body = make_object (("id", str (uuids.to_string id)) ∷ ("password", str password) ∷ []);
  }

module _ (u : Users) (a : Accounts) (tables : UserTables u a) (uuids : UuidText) (json : JsonText)
    (hashing : Hashing) where
  -- A complete registration that the database stores is answered with the identifier of the user. From
  -- then on a GET of that identifier answers 200 with the profile, and a login with it and the same password
  -- is answered with a token that is stored, where `std::to_string` writes bytes and the database stores the
  -- token.
  pub registered-login :
      (draw draws : ℕ → ℕ) (db after : u.Db) (request : HttpRequest) (profile : Profile)
      (password : Text) (id : Uuid) (tokens : a.Db)
      → has_all register_fields request.json_body ≡ true
      → read_profile u uuids json request.json_body ≡ ok (profile, password)
      → u.insert_user db profile
          (to_hex (hash_password hashing draw password 10000).1)
          (to_hex (hash_password hashing draw password 10000).0)
        ≡ ok (after, id)
      → ((n : ℕ) → All (λ c. c < 256) (hashing.to_string n))
      → a.insert_token
          (tables.accounts after)
          (generate_bearer_token draws 32)
          id
          (codes "read" ∷ codes "user" ∷ [])
        ≡ ok (tokens, true)
      → (user_register u uuids json hashing draw db request
          ≡ respond after status_ok
              (value (make_object (("user_id", str (uuids.to_string id)) ∷ []))))
        × (user_get u uuids json after (get_request uuids id) ≡ record {
          status = status_ok;
          body = document (json.to_string (get_json u uuids json id profile));
        })
        × (login a uuids hashing json.Document draws
              (record { db = tables.accounts after; refresh_due = false })
              (login_request uuids id password)
            ≡ respond
                (record { db = tokens; refresh_due = true })
                status_ok
                (value (make_object (("token", str (generate_bearer_token draws 32)) ∷ []))))
  registered-login draw draws db after request profile password id tokens complete read inserted
        writes issued =
      (
        user_register-ok u uuids json db request hashing draw profile password complete read after
            id inserted,
        user_get-found u uuids json after (get_request uuids id) id profile
            (uuids.generator-to_string id)
            (tables.select-insert_user db after profile _ _ id inserted),
        login-granted a uuids hashing json.Document draws
            (record { db = tables.accounts after; refresh_due = false })
            (login_request uuids id password) (uuids.to_string id) id refl refl
            (uuids.generator-to_string id) _ tokens
            (tables.select_password-insert_user db after profile _ _ id inserted)
            (check-registered a uuids hashing json.Document draw
              (login_request uuids id password).json_body password refl writes)
            issued,
      )
