-- ===== src/Users/Profiles.antt =====
-- User profiles: src/user/user_register_handler.cpp, src/user/user_get_handler.cpp and
-- src/user/user_search_handler.cpp.
pub mod Laws
pub mod Search
use otus_highload_architect.Prelude.{
  ◌>>=◌, ℕ, String, Bool, true, ◌&&◌, Option, none, some, List, [], ◌∷◌, ◌++◌, map, if◌then◌else◌,
  Text, Uuid, codes, Outcome, ok, throw,
}
use otus_highload_architect.Platform.Uuids.{UuidText}
use otus_highload_architect.Platform.Json.{
  JsonText, Json, make_object, make_array, str, text_at, has_member,
}
use otus_highload_architect.Platform.Http.{
  HttpRequest, Response, status_ok, bad_request, not_found, empty, document, value, respond,
  find_arg,
}
use otus_highload_architect.Users.Passwords.{Hashing, hash_password, to_hex}

-- A row of `users`, with the birthdate as the text that `datetime::ToString` makes of it.
pub record Profile : Type 0 where
  pub first_name : Text
  pub second_name : Text
  pub birthdate : Text
  pub sex : Text
  pub biography : Text
  pub city : Text

pub record Users : Type 1 where
  pub Db : Type 0
  -- `DateFromRFC3339String` and `ToString`; the first throws on a malformed text
  pub date : Text → Outcome Text
  -- INSERT INTO users (...) RETURNING user_id, with the hash and the salt
  pub insert_user : Db → Profile → Text → Text → Outcome (Db × Uuid)
  -- SELECT ... FROM users WHERE user_id = $1
  pub select_user : Db → Uuid → Option Profile
  -- SELECT ... WHERE first_name LIKE $1 AND second_name LIKE $2 ORDER BY user_id
  pub search_users : Db → Text → Text → List (Uuid × Profile)

unfoldable pub has_all : List String → Json → Bool
has_all [] body = true
has_all (name ∷ names) body = has_member name body && has_all names body

abbrev pub register_fields : List String
register_fields =
    "first_name" ∷ "second_name" ∷ "birthdate" ∷ "sex" ∷ "biography" ∷ "city" ∷ "password" ∷ []

module _ (u : Users) (uuids : UuidText) (json : JsonText) where
  abbrev pub get_json : Uuid → Profile → Json
  get_json id user = make_object (
      ("id", str (uuids.to_string id))
      ∷ ("first_name", str user.first_name)
      ∷ ("second_name", str user.second_name)
      ∷ ("birthdate", str user.birthdate)
      ∷ ("sex", str user.sex)
      ∷ ("biography", str user.biography)
      ∷ ("city", str user.city)
      ∷ [])

  -- The search names the date `birthday`.
  abbrev pub search_json : Uuid × Profile → Json
  search_json (id, user) = make_object (
      ("id", str (uuids.to_string id))
      ∷ ("first_name", str user.first_name)
      ∷ ("second_name", str user.second_name)
      ∷ ("birthday", str user.birthdate)
      ∷ ("sex", str user.sex)
      ∷ ("biography", str user.biography)
      ∷ ("city", str user.city)
      ∷ [])

  -- `UserGetHandler::HandleRequestThrow`
  unfoldable pub user_get : u.Db → HttpRequest → Response json.Document
  user_get db request = elim (uuids.generator request.path_arg) [
    | none ↦ record { status = bad_request; body = empty }
    | some id ↦ elim (u.select_user db id) [
      | none ↦ record { status = not_found; body = empty }
      | some user ↦ record {
        status = status_ok;
        body = document (json.to_string (get_json id user));
      }
    ]
  ]

  -- `GetArg` of an argument that is not there is the empty text.
  abbrev pub get_arg : String → HttpRequest → Text
  get_arg name request = elim (find_arg name request.args) [ some v ↦ v | none ↦ [] ]

  search_answer : List (Uuid × Profile) → Response json.Document
  search_answer [] = record { status = not_found; body = empty }
  search_answer (row ∷ rows) = record {
    status = status_ok;
    body = document (json.to_string (make_array (map search_json (row ∷ rows))));
  }

  -- `UserSearchHandler::HandleRequestThrow`
  unfoldable pub user_search : u.Db → HttpRequest → Response json.Document
  unfolding search_answer
  user_search db request = search_answer (
      u.search_users db (get_arg "first_name" request ++ codes "%")
        (get_arg "last_name" request ++ codes "%"))

  -- The members of the body in the order in which the handler turns them into values: the password is
  -- hashed and the date is read before the query is built.
  unfoldable pub read_profile : Json → Outcome (Profile × Text)
  read_profile body = do
    password ← text_at "password" body
    date_text ← text_at "birthdate" body
    birthdate ← u.date date_text
    first_name ← text_at "first_name" body
    second_name ← text_at "second_name" body
    sex ← text_at "sex" body
    biography ← text_at "biography" body
    city ← text_at "city" body
    ok (
      record {
        first_name = first_name;
        second_name = second_name;
        birthdate = birthdate;
        sex = sex;
        biography = biography;
        city = city;
      },
      password,
    )

  registered : u.Db → Outcome (u.Db × Uuid) → u.Db × Outcome (Response json.Document)
  registered db (throw e) = (db, throw e)
  registered db (ok (after, id)) =
      respond after status_ok (value (make_object (("user_id", str (uuids.to_string id)) ∷ [])))

  store_user :
      Hashing → (ℕ → ℕ) → u.Db → Outcome (Profile × Text) → u.Db × Outcome (Response json.Document)
  unfolding registered
  store_user hashing draw db (throw e) = (db, throw e)
  store_user hashing draw db (ok (profile, password)) =
      let (salt, hash) = hash_password hashing draw password 10000 in
      registered db (u.insert_user db profile (to_hex hash) (to_hex salt))

  -- `UserRegisterHandler::HandleRequestJsonThrow`
  unfoldable pub user_register :
      Hashing → (ℕ → ℕ) → u.Db → HttpRequest → u.Db × Outcome (Response json.Document)
  unfolding store_user read_profile has_all
  user_register hashing draw db request =
      let body = request.json_body in
      if has_all register_fields body
      then store_user hashing draw db (read_profile body)
      else respond db bad_request (
          value (
            make_object (
              (
                "error",
                str (
                    codes
                      "Expected body has `first_name`, `second_name`, `birthdate`, `sex`, `biography`, `city` and `password` fields"),
              )
              ∷ [])))
