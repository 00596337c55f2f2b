-- ===== src/Tests/Programs.antt =====
-- The theorems on the start of the programs and on the tokens that their handlers accept, at concrete
-- inputs.
use otus_highload_architect.Prelude.{
  ◌≡◌, refl, sym, ap, ◌∙◌, ◌⊎◌, Bool, true, false, none, some, List, [], ◌∷◌, ◌++◌, if◌then◌else◌,
  All, Text, Uuid, codes, bytes_eq, bytes_eq_refl, Outcome, ok, throw,
}
use otus_highload_architect.Prelude.Maps.{lookup}
use otus_highload_architect.Platform.Uuids.{plain_uuids}
use otus_highload_architect.Platform.Json.{Json, make_object, str}
use otus_highload_architect.Platform.Http.{status_ok, value, respond}
use otus_highload_architect.Users.Bearer.{UserDbInfo, AuthCache, granted, check_auth}
use otus_highload_architect.Users.Login.{
  Accounts, check_password, LoginState, generate_bearer_token, login,
}
use otus_highload_architect.Users.Accounts.{check-registered}
use otus_highload_architect.Wiring.{checker_factory_needs, post_create_handler_needs}
use otus_highload_architect.Wiring.Names.{post_create_handler}
use otus_highload_architect.Wiring.Programs.{monolith, components}
use otus_highload_architect.Wiring.Start.{Found, components-Found, Ready, start-proceeds}
use otus_highload_architect.Wiring.Scopes.{handler_scopes, TokenSnapshot, login-accepted}
use otus_highload_architect.Tests.Platforms.{bob}
use otus_highload_architect.Tests.Services.{hashing, stored_row, login_of, digits_are_bytes}

start-proceeds_example :
    All (λ e. true ≡ true) (components monolith) ⊎ Ready (components monolith) (λ c. true)
start-proceeds_example = start-proceeds monolith (λ c. true)

create_entry :
    lookup post_create_handler (components monolith)
    ≡ some (
      codes "social_net_service::post::PostCreateHandler",
      checker_factory_needs ++ post_create_handler_needs,
    )
unfolding lookup bytes_eq
create_entry = refl

-- What `PostCreateHandler` and its checker find.
components-Found_example :
    Found (components monolith) (checker_factory_needs ++ post_create_handler_needs)
components-Found_example =
    components-Found monolith post_create_handler
      (
        codes "social_net_service::post::PostCreateHandler",
        checker_factory_needs ++ post_create_handler_needs,
      )
      create_entry

-- The table of tokens, as the cache reads it.
abbrev token_table : Accounts
token_table = record {
  Db = AuthCache;
  select_password = λ d u. if bytes_eq u bob then some stored_row else none;
  insert_token =
      λ d t u scopes. ok ((t, record { token = t; user_id = u; scopes = scopes }) ∷ d, true);
}

from_insert : AuthCache → Outcome (AuthCache × Bool) → AuthCache
from_insert a (ok (b, c)) = b
from_insert a (throw e) = a

snapshot_lem :
    (db after : AuthCache) (token : Text) (user : Uuid) (scopes : List Text)
    → token_table.insert_token db token user scopes ≡ ok (after, true)
    → lookup token after ≡ some (record { token = token; user_id = user; scopes = scopes })
unfolding from_insert lookup
snapshot_lem db after token user scopes h =
    let row : UserDbInfo = record { token = token; user_id = user; scopes = scopes } in
    let first : lookup token ((token, row) ∷ db) ≡ some row = rw (bytes_eq_refl token) refl in
    sym (ap (λ x. lookup token (from_insert after x)) h) ∙ first

abbrev snapshots : TokenSnapshot token_table
snapshots = record { snapshot = λ d. d; lookup-insert_token = snapshot_lem }

abbrev nobody_in : LoginState token_table
nobody_in = record { db = []; refresh_due = false }

abbrev bob_token : Text
bob_token = generate_bearer_token (λ i. i) 32

abbrev bob_tokens : AuthCache
bob_tokens =
    (
      bob_token,
      record { token = bob_token; user_id = bob; scopes = codes "read" ∷ codes "user" ∷ [] },
    )
    ∷ []

bob-stored : token_table.select_password [] bob ≡ some stored_row
unfolding bytes_eq
bob-stored = refl

bob-right :
    check_password token_table plain_uuids hashing Json (login_of bob).json_body stored_row
    ≡ ok true
bob-right =
    check-registered token_table plain_uuids hashing Json (λ i. i) (login_of bob).json_body
      (codes "pw") refl digits_are_bytes

asks_read : lookup post_create_handler handler_scopes ≡ some (codes "read" ∷ [])
unfolding lookup bytes_eq
asks_read = refl

login-accepted_example :
    (login token_table plain_uuids hashing Json (λ i. i) nobody_in (login_of bob)
      ≡ respond
          (record { db = bob_tokens; refresh_due = true })
          status_ok
          (value (make_object (("token", str bob_token) ∷ []))))
    × (check_auth bob_tokens (codes "read" ∷ []) (codes "Bearer " ++ bob_token)
        ≡ (granted, some bob))
login-accepted_example =
    login-accepted token_table snapshots plain_uuids hashing Json (λ i. i) nobody_in (login_of bob)
      bob bob stored_row bob_tokens post_create_handler (codes "read" ∷ []) refl refl refl
      bob-stored bob-right refl asks_read
