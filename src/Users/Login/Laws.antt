-- ===== src/Users/Login/Laws.antt =====
-- What a login answers on each branch, and what the tokens look like.
use otus_highload_architect.Prelude.{
  ◌++◌, ◌≢◌, ◌∙◌, ap, All, bytes_eq_iff, ℕ, ◌+◌, ◌-◌, ◌%◌, ◌≤◌, ◌<◌, ◌≡◌, refl, ◌⊎◌, inl, inr, true,
  false, ◌&&◌, none, some, [], ◌∷◌, arith, ltb, ltb→lt, ltb→ge, Bool-cases, length, Text, Uuid,
  codes, ok,
}
use otus_highload_architect.Platform.Json.{Json, make_object, str, text_at, has_member}
use otus_highload_architect.Platform.Uuids.{UuidText}
use otus_highload_architect.Platform.Http.{HttpRequest, status_ok, not_found, value, respond}
use otus_highload_architect.Users.Passwords.{Hashing, slow_hash, to_hex, verify_password}
use otus_highload_architect.Users.Passwords.Laws.{from_hex-to_hex, constant_time_compare_lem}
use native.Mathlib.Nat.{mod-lt, zero-lt-suc}
use otus_highload_architect.Users.Login.{
  sample, charset, generate_bearer_token, Accounts, LoginState, store_token, after_check,
  check_password, with_user, with_id, login, is_ascending,
}

length-sample : (draw : ℕ → ℕ) (i n : ℕ) (l : Text) → n ≤ length l → length (sample draw i n l) ≡ n
unfolding sample
length-sample draw i n [] h = omega arith
length-sample draw i n (c ∷ rest) h = elim (Bool-cases (ltb (draw i % (length rest + 1)) n)) [
  | inl e ↦
      rw (e, sample)
        (omega (
          arith,
          length-sample draw (i + 1) (n - 1) rest (ground (arith, h, e)),
          ltb→lt (draw i % (length rest + 1)) n e,
        ))
  | inr e ↦
      rw (e, sample)
        (length-sample draw (i + 1) n rest
          (omega (arith, ltb→ge _ _ e, mod-lt (draw i) (zero-lt-suc (length rest)))))
]

is_ascending-below :
    (k c : ℕ) (l : Text) → k < c → is_ascending c l ≡ true → is_ascending k l ≡ true
unfolding is_ascending
is_ascending-below k c [] h e = refl
is_ascending-below k c (d ∷ l) h e = ground (arith, h, e)

sample-ascending :
    (draw : ℕ → ℕ) (i n k : ℕ) (l : Text)
    → is_ascending k l ≡ true
    → is_ascending k (sample draw i n l) ≡ true
unfolding sample is_ascending
sample-ascending draw i n k [] h = refl
sample-ascending draw i n k (c ∷ rest) h = ground (
  arith,
  h,
  sample-ascending draw (i + 1) (n - 1) c rest,
  sample-ascending draw (i + 1) n c rest,
  is_ascending-below k c (sample draw (i + 1) n rest),
)

ascending_charset : is_ascending 0 charset ≡ true
unfolding is_ascending
ascending_charset = refl

-- A token is 32 bytes in strictly ascending order, whatever the generator draws; so no byte
-- occurs in it twice.
pub generate_bearer_token_lem :
    (draw : ℕ → ℕ)
    → (length (generate_bearer_token draw 32) ≡ 32)
      × (is_ascending 0 (generate_bearer_token draw 32) ≡ true)
unfolding generate_bearer_token
generate_bearer_token_lem draw = (
  length-sample draw 0 32 charset (omega arith),
  sample-ascending draw 0 32 0 charset ascending_charset,
)

-- A password whose hash is not the stored one is refused.
refused_password :
    (a : Accounts) (uuids : UuidText) (hashing : Hashing) (D : Type 0) (body : Json)
    (password stored salt : Text)
    → text_at "password" body ≡ ok password
    → All (λ c. c < 256) stored
    → All (λ c. c < 256) salt
    → slow_hash hashing (password ++ salt) 10000 ≢ stored
    → check_password a uuids hashing D body (to_hex stored, to_hex salt) ≡ ok false
unfolding check_password verify_password
refused_password a uuids hashing D body password stored salt sent stored_bytes salt_bytes wrong =
    let hashed = slow_hash hashing (password ++ salt) 10000 in
    rw (sent, from_hex-to_hex salt salt_bytes, from_hex-to_hex stored stored_bytes)
      (ap ok (
        constant_time_compare_lem hashed stored
        ∙ ground (arith, wrong, bytes_eq_iff hashed stored)))

module _ (a : Accounts) (uuids : UuidText) (hashing : Hashing) (D : Type 0) (draw : ℕ → ℕ)
    (s : LoginState a) (request : HttpRequest) (id_text : Text) (user : Uuid)
    (complete : (has_member "id" request.json_body && has_member "password" request.json_body)
      ≡ true)
    (sent_id : text_at "id" request.json_body ≡ ok id_text)
    (valid : uuids.generator id_text ≡ some user) where
  -- Complete requests with a valid identifier get the same answer, 404 with an empty object, and change
  -- nothing, where the user is unknown and where the row of the user has the hexadecimal texts of a salt and
  -- of a hash that is not the one of the password that is sent, with that salt.
  pub login-refused :
      (password stored salt : Text)
      → text_at "password" request.json_body ≡ ok password
      → All (λ c. c < 256) stored
      → All (λ c. c < 256) salt
      → (a.select_password s.db user ≡ none)
        ⊎ ((a.select_password s.db user ≡ some (to_hex stored, to_hex salt))
            × (slow_hash hashing (password ++ salt) 10000 ≢ stored))
      → login a uuids hashing D draw s request ≡ respond s not_found (value (make_object []))
  unfolding login with_id with_user after_check store_token
  login-refused password stored salt sent stored_bytes salt_bytes (inl e) =
      rw (complete, sent_id, with_id, valid, with_user, e) refl
  login-refused password stored salt sent stored_bytes salt_bytes (inr (e, wrong)) =
      let c =
        refused_password a uuids hashing D request.json_body password stored salt sent stored_bytes
          salt_bytes wrong in
      rw (complete, sent_id, with_id, valid, with_user, e, after_check, c) refl

  -- A complete request with a valid identifier and the right password, whose token the database
  -- stores, stores a new token with the scopes `read` and `user` for that user, tells the cache
  -- to update, and answers with the token that was stored.
  pub login-granted :
      (row : Text × Text) (db : a.Db)
      → a.select_password s.db user ≡ some row
      → check_password a uuids hashing D request.json_body row ≡ ok true
      → a.insert_token s.db (generate_bearer_token draw 32) user (codes "read" ∷ codes "user" ∷ [])
        ≡ ok (db, true)
      → login a uuids hashing D draw s request
        ≡ respond
            (record { db = db; refresh_due = true })
            status_ok
            (value (make_object (("token", str (generate_bearer_token draw 32)) ∷ [])))
  unfolding login with_id with_user after_check store_token
  login-granted row db e c i =
      rw (complete, sent_id, with_id, valid, with_user, e, after_check, c, store_token, i) refl
