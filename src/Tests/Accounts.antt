-- ===== src/Tests/Accounts.antt =====
-- The theorems on registration and the search of profiles at concrete inputs.
use otus_highload_architect.Prelude.{
  ℕ, ◌≡◌, refl, sym, ap, true, false, ◌&&◌, Option, none, some, List, [], ◌∷◌, ◌++◌, if◌then◌else◌,
  Text, Uuid, codes, bytes_eq, Outcome, ok, throw,
}
use otus_highload_architect.Platform.Uuids.{plain_uuids}
use otus_highload_architect.Platform.Json.{null, Json, make_object, str, plain_json}
use otus_highload_architect.Platform.Http.{HttpRequest, status_ok, value, document, respond}
use otus_highload_architect.Users.Login.{Accounts, generate_bearer_token, login}
use otus_highload_architect.Users.Profiles.{
  has_all, read_profile, Profile, Users, get_json, user_get, user_register,
}
use otus_highload_architect.Users.Profiles.Search.{starts_with, select, SearchTable}
use otus_highload_architect.Users.Journey.{UserTables, get_request, login_request, registered-login}
use otus_highload_architect.Tests.Platforms.{bob}
use otus_highload_architect.Tests.Services.{hashing, stored_row, digits_are_bytes}

-- A table of users whose last row is the first, and the tokens with their users.
pub record Row : Type 0 where
  pub profile : Profile
  pub hash : Text
  pub salt : Text

abbrev row_of : List Row → Uuid → Option Row
row_of [] id = none
row_of (row ∷ rows) id = if bytes_eq id bob then some row else none

abbrev profile_in : Option Row → Option Profile
profile_in none = none
profile_in (some row) = some row.profile

abbrev pair_in : Option Row → Option (Text × Text)
pair_in none = none
pair_in (some row) = some (row.hash, row.salt)

abbrev users : Users
users = record {
  Db = List Row;
  date = λ t. ok t;
  insert_user = λ rows profile hash salt.
      ok (record { profile = profile; hash = hash; salt = salt } ∷ rows, bob);
  select_user = λ rows id. profile_in (row_of rows id);
  search_users = λ rows first last. [];
}

abbrev one_login : Accounts
one_login = record {
  Db = List Row;
  select_password = λ rows id. pair_in (row_of rows id);
  insert_token = λ rows token user scopes. ok (rows, true);
}

from_pair : List Row × Uuid → Outcome (List Row × Uuid) → List Row × Uuid
from_pair a (ok b) = b
from_pair a (throw e) = a

known :
    (rows after : List Row) (profile : Profile) (hash salt : Text) (id : Uuid)
    → ◌≡◌ {A = Outcome (List Row × Uuid)}
        (ok (record { profile = profile; hash = hash; salt = salt } ∷ rows, bob))
        (ok (after, id))
    → row_of after id ≡ some (record { profile = profile; hash = hash; salt = salt })
unfolding from_pair bytes_eq
known rows after profile hash salt id h =
    sym (ap (λ x. row_of (from_pair (after, id) x).0 (from_pair (after, id) x).1) h)

abbrev tables : UserTables users one_login
tables = record {
  accounts = λ rows. rows;
  select-insert_user =
      λ rows after profile hash salt id h. ap profile_in (known rows after profile hash salt id h);
  select_password-insert_user =
      λ rows after profile hash salt id h. ap pair_in (known rows after profile hash salt id h);
}

abbrev robert : Profile
robert = record {
  first_name = codes "Bob";
  second_name = codes "B";
  birthdate = codes "2000-01-01";
  sex = codes "m";
  biography = [];
  city = codes "Rome";
}

abbrev signup : HttpRequest
signup = record {
  path_arg = [];
  args = [];
  json_body = make_object (
      ("first_name", str robert.first_name)
      ∷ ("second_name", str robert.second_name)
      ∷ ("birthdate", str robert.birthdate)
      ∷ ("sex", str robert.sex)
      ∷ ("biography", str robert.biography)
      ∷ ("city", str robert.city)
      ∷ ("password", str (codes "pw"))
      ∷ []);
}

abbrev bob_row : List Row
bob_row = record { profile = robert; hash = stored_row.0; salt = stored_row.1 } ∷ []

registered-login_example :
    (user_register users plain_uuids plain_json hashing (λ i. i) [] signup
      ≡ respond bob_row status_ok (value (make_object (("user_id", str bob) ∷ []))))
    × (user_get users plain_uuids plain_json bob_row (get_request plain_uuids bob) ≡ record {
      status = status_ok;
      body = document (get_json users plain_uuids plain_json bob robert);
    })
    × (login one_login plain_uuids hashing Json
          (λ i. i)
          (record { db = bob_row; refresh_due = false })
          (login_request plain_uuids bob (codes "pw"))
        ≡ respond
            (record { db = bob_row; refresh_due = true })
            status_ok
            (value (make_object (("token", str (generate_bearer_token (λ i. i) 32)) ∷ []))))
unfolding has_all read_profile
registered-login_example =
    registered-login users one_login tables plain_uuids plain_json hashing (λ i. i) (λ i. i) []
      bob_row signup robert (codes "pw") bob bob_row refl refl refl digits_are_bytes refl

without_last : Text → Text
without_last [] = []
without_last (c ∷ []) = []
without_last (c ∷ (d ∷ t)) = c ∷ without_last (d ∷ t)

without_last-append : (p : Text) (x : ℕ) → without_last (p ++ x ∷ []) ≡ p
unfolding without_last
without_last-append [] x = refl
without_last-append (c ∷ []) x = refl
without_last-append (c ∷ (d ∷ p)) x = ap (◌∷◌ c) (without_last-append (d ∷ p) x)

-- A LIKE that knows patterns of a text and a `%` only.
abbrev searchable : Users
searchable = record users {
  Db = List (Uuid × Profile);
  insert_user = λ rows profile hash salt. ok ((bob, profile) ∷ rows, bob);
  select_user = λ rows id. none;
  search_users = λ rows first last.
      select
        (λ row.
          starts_with (without_last first) row.1.first_name
          && starts_with (without_last last) row.1.second_name)
        rows;
}

abbrev search_table : SearchTable searchable
search_table = record {
  rows = λ rows. rows;
  like = λ pattern t. starts_with (without_last pattern) t;
  search_users-like = λ rows first last. refl;
  like-prefix = λ prefix t h. ap (λ x. starts_with x t) (without_last-append prefix 37);
}

abbrev query : HttpRequest
query = record { path_arg = []; args = ("first_name", codes "Bo") ∷ []; json_body = null }
