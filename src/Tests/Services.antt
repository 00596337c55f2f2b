-- ===== src/Tests/Services.antt =====
-- The theorems on accounts and dialogs at concrete inputs.
use otus_highload_architect.Prelude.{
  zero, suc, ◌++◌, ◌≢◌, arith, ap, inr, ◌+◌, ℕ, ◌*◌, ◌%◌, ◌<◌, ◌≡◌, refl, ◌↔◌, true, false, Option,
  none, some, List, [], ◌∷◌, if◌then◌else◌, length, All, Text, Uuid, codes, bytes_eq, bytes_lt, ok,
}
use otus_highload_architect.Platform.Uuids.{plain_uuids}
use otus_highload_architect.Platform.Json.{Json, make_object, str, plain_json}
use otus_highload_architect.Platform.Lists.{plain_lists}
use otus_highload_architect.Platform.Http.{HttpRequest, not_found, value, respond}
use otus_highload_architect.Users.Passwords.{Hashing, hash_password, to_hex, rounds, slow_hash}
use otus_highload_architect.Users.Bearer.{UserDbInfo, granted, check_auth, Accepts, check_auth_lem}
use otus_highload_architect.Users.Login.{
  Accounts, LoginState, generate_bearer_token, is_ascending, login, check_password,
}
use otus_highload_architect.Users.Login.Laws.{generate_bearer_token_lem, login-refused}
use otus_highload_architect.Users.Accounts.{check-registered}
use otus_highload_architect.Dialogs.Chat.{
  ChatMessage, MessageHashes, ChatPlatform, ChatState, idx_key,
}
use otus_highload_architect.Tests.Platforms.{ann, bob, eve}

abbrev pub hashing : Hashing
hashing = record {
  hash_string = λ t. length t;
  hash_size = λ i. i;
  to_string = λ n. (48 + n % 10) ∷ [];
}

abbrev bob_row : UserDbInfo
bob_row = record { token = codes "t0"; user_id = bob; scopes = codes "read" ∷ [] }

check_auth_lem_example :
    (check_auth ((codes "t0", bob_row) ∷ []) (codes "read" ∷ []) (codes "Bearer t0")
      ≡ (granted, some bob))
    ↔ Accepts ((codes "t0", bob_row) ∷ []) (codes "read" ∷ []) (codes "Bearer t0") bob
check_auth_lem_example =
    check_auth_lem ((codes "t0", bob_row) ∷ []) (codes "read" ∷ []) (codes "Bearer t0") bob

generate_bearer_token_lem_example :
    (length (generate_bearer_token (λ i. i * 7) 32) ≡ 32)
    × (is_ascending 0 (generate_bearer_token (λ i. i * 7) 32) ≡ true)
generate_bearer_token_lem_example = generate_bearer_token_lem (λ i. i * 7)

-- The row that registration stores for Bob.
abbrev pub stored_row : Text × Text
stored_row =
    let pair = hash_password hashing (λ i. i) (codes "pw") 10000 in (to_hex pair.1, to_hex pair.0)

abbrev pub accounts : Accounts
accounts = record {
  Db = List (Text × Uuid);
  select_password = λ d u. if bytes_eq u bob then some stored_row else none;
  insert_token = λ d t u scopes. ok ((t, u) ∷ d, true);
}

abbrev pub logged_out : LoginState accounts
logged_out = record { db = []; refresh_due = false }

abbrev pub login_of : Uuid → HttpRequest
login_of user = record {
  path_arg = [];
  args = [];
  json_body = make_object (("id", str user) ∷ ("password", str (codes "pw")) ∷ []);
}

pub bob_known : accounts.select_password [] bob ≡ some stored_row
unfolding bytes_eq
bob_known = refl

-- Accounts in which Bob's hash has two digits: no password of these texts has it.
abbrev guarded : Accounts
guarded = record accounts {
  select_password =
      λ d u. if bytes_eq u bob then some (to_hex (codes "55"), to_hex (codes "s")) else none;
}

abbrev guarded_out : LoginState guarded
guarded_out = record { db = []; refresh_due = false }

length-rounds : (left i : ℕ) (t : Text) → length t ≡ 1 → length (rounds hashing left i t) ≡ 1
unfolding rounds
length-rounds zero i t h = h
length-rounds (suc left) i t h = length-rounds left (i + 1) _ refl

length-slow_hash : (t : Text) (k : ℕ) → length (slow_hash hashing t (suc k)) ≡ 1
unfolding slow_hash rounds
length-slow_hash t k = length-rounds k 1 _ refl

bob_guarded : guarded.select_password [] bob ≡ some (to_hex (codes "55"), to_hex (codes "s"))
unfolding bytes_eq
bob_guarded = refl

wrong_password : slow_hash hashing (codes "pw" ++ codes "s") 10000 ≢ codes "55"
wrong_password e = ground (arith, ap length e, length-slow_hash (codes "pw" ++ codes "s") 9999)

login-refused_example :
    login guarded plain_uuids hashing Json (λ i. i) guarded_out (login_of bob)
    ≡ respond guarded_out not_found (value (make_object []))
login-refused_example =
    login-refused guarded plain_uuids hashing Json (λ i. i) guarded_out (login_of bob) bob bob refl
      refl refl (codes "pw") (codes "55") (codes "s") refl (omega arith, (omega arith, tt))
      (omega arith, tt) (inr (bob_guarded, wrong_password))

pub digits_are_bytes : (n : ℕ) → All (λ c. c < 256) (hashing.to_string n)
digits_are_bytes n = (omega arith, tt)

pub bob_checked :
    check_password accounts plain_uuids hashing Json (login_of bob).json_body stored_row ≡ ok true
bob_checked =
    check-registered accounts plain_uuids hashing Json (λ i. i) (login_of bob).json_body
      (codes "pw") refl digits_are_bytes

abbrev plain_messages : MessageHashes
plain_messages = record {
  Store = Text → Option ChatMessage;
  hset = λ s k m j. if bytes_eq k j then some m else s j;
  hmget = λ s j. s j;
  hmget-hset = λ s k m j. refl;
}

abbrev pub chat : ChatPlatform
chat = record {
  json = plain_json;
  hashes = plain_messages;
  lists = plain_lists Text;
  cjson_encode = λ j. j;
  from_string-cjson_encode = λ j. refl;
}

abbrev pub silent : ChatState chat
silent = record { messages = λ k. none; index = λ k. [] }

other_index : bytes_eq (idx_key ann bob) (idx_key ann eve) ≡ false
unfolding idx_key bytes_eq bytes_lt
other_index = refl
