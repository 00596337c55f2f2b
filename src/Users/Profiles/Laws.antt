-- ===== src/Users/Profiles/Laws.antt =====
-- What the handlers of profiles answer on each branch.
use otus_highload_architect.Prelude.{
  ℕ, ◌≡◌, refl, true, none, some, [], ◌∷◌, Text, Uuid, Exception, ok, throw,
}
use otus_highload_architect.Platform.Uuids.{UuidText}
use otus_highload_architect.Platform.Json.{JsonText, make_object, str}
use otus_highload_architect.Platform.Http.{
  HttpRequest, status_ok, not_found, bad_request, document, value, empty, respond,
}
use otus_highload_architect.Users.Passwords.{Hashing, hash_password, to_hex}
use otus_highload_architect.Users.Profiles.{
  Profile, Users, has_all, register_fields, get_json, user_get, read_profile, store_user,
  registered, user_register,
}

module _ (u : Users) (uuids : UuidText) (json : JsonText) (db : u.Db) (request : HttpRequest) where
  pub user_get-found :
      (id : Uuid) (profile : Profile)
      → uuids.generator request.path_arg ≡ some id
      → u.select_user db id ≡ some profile
      → user_get u uuids json db request ≡ record {
        status = status_ok;
        body = document (json.to_string (get_json u uuids json id profile));
      }
  unfolding user_get
  user_get-found id profile valid found = rw (valid, user_get, found, user_get) refl

  pub user_get-refused :
      (uuids.generator request.path_arg ≡ none
        → user_get u uuids json db request ≡ record { status = bad_request; body = empty })
      × ((id : Uuid)
          → uuids.generator request.path_arg ≡ some id
          → u.select_user db id ≡ none
          → user_get u uuids json db request ≡ record { status = not_found; body = empty })
  unfolding user_get
  user_get-refused =
      (λ e. rw (e, user_get) refl, λ id valid missing. rw (valid, user_get, missing, user_get) refl)

  module _ (hashing : Hashing) (draw : ℕ → ℕ) (profile : Profile) (password : Text)
      (complete : has_all register_fields request.json_body ≡ true)
      (read : read_profile u uuids json request.json_body ≡ ok (profile, password)) where
    abbrev pub stored_hash : Text
    stored_hash = to_hex (hash_password hashing draw password 10000).1

    abbrev pub stored_salt : Text
    stored_salt = to_hex (hash_password hashing draw password 10000).0

    pub user_register-ok :
        (after : u.Db) (id : Uuid)
        → u.insert_user db profile stored_hash stored_salt ≡ ok (after, id)
        → user_register u uuids json hashing draw db request
          ≡ respond after status_ok
              (value (make_object (("user_id", str (uuids.to_string id)) ∷ [])))
    unfolding user_register store_user registered
    user_register-ok after id inserted = rw (complete, read, store_user, inserted, registered) refl

    pub user_register-failed :
        (x : Exception)
        → u.insert_user db profile stored_hash stored_salt ≡ throw x
        → user_register u uuids json hashing draw db request ≡ (db, throw x)
    unfolding user_register store_user registered
    user_register-failed x failed = rw (complete, read, store_user, failed, registered) refl
