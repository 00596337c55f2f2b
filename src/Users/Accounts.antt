-- ===== src/Users/Accounts.antt =====
-- Registration and login together: the texts that the one stores are those that the other reads.
use otus_highload_architect.Prelude.{
  ℕ, zero, suc, ◌+◌, ◌<◌, ◌≡◌, refl, sym, ap, ◌∙◌, true, ◌++◌, arith, All, Text, ok,
}
use otus_highload_architect.Platform.Uuids.{UuidText}
use otus_highload_architect.Platform.Json.{Json, text_at}
use otus_highload_architect.Users.Passwords.{
  Hashing, rounds, hash_password, verify_password, to_hex, generate_salt, slow_hash,
}
use otus_highload_architect.Users.Passwords.Laws.{verify-hash_password, from_hex-to_hex}
use otus_highload_architect.Users.Login.{Accounts, check_password}

generate_salt-bytes : (draw : ℕ → ℕ) (i n : ℕ) → All (λ c. c < 256) (generate_salt draw i n)
unfolding generate_salt
generate_salt-bytes draw i zero = tt
generate_salt-bytes draw i (suc n) = (omega arith, generate_salt-bytes draw (i + 1) n)

rounds-bytes :
    (h : Hashing)
    → ((n : ℕ) → All (λ c. c < 256) (h.to_string n))
    → (left i : ℕ) (t : Text) → All (λ c. c < 256) t
    → All (λ c. c < 256) (rounds h left i t)
unfolding rounds
rounds-bytes h writes zero i t b = b
rounds-bytes h writes (suc left) i t b = rounds-bytes h writes left (i + 1) _ (writes _)

slow_hash-bytes :
    (h : Hashing)
    → ((n : ℕ) → All (λ c. c < 256) (h.to_string n))
    → (k : ℕ) (t : Text) → All (λ c. c < 256) (slow_hash h t (suc k))
unfolding slow_hash rounds
slow_hash-bytes h writes k t = rounds-bytes h writes k 1 _ (writes _)

hash_password-eq :
    (h : Hashing) (draw : ℕ → ℕ) (password : Text) (k : ℕ)
    → hash_password h draw password k
      ≡ (generate_salt draw 0 16, slow_hash h (password ++ generate_salt draw 0 16) k)
unfolding hash_password
hash_password-eq h draw password k = refl

-- Where `std::to_string` writes bytes, a password is verified against the hexadecimal texts of
-- the hash and of the salt that its registration stores, whatever the generator of the salt
-- draws.
pub check-registered :
    (a : Accounts) (uuids : UuidText) (hashing : Hashing) (D : Type 0) (draw : ℕ → ℕ) (body : Json)
    (password : Text)
    → text_at "password" body ≡ ok password
    → ((n : ℕ) → All (λ c. c < 256) (hashing.to_string n))
    → let (salt, stored) = hash_password hashing draw password 10000 in
      check_password a uuids hashing D body (to_hex stored, to_hex salt) ≡ ok true
unfolding check_password
check-registered a uuids hashing D draw body password sent writes =
    let salt = generate_salt draw 0 16 in
    rw
      (
        sent,
        hash_password-eq hashing draw password 10000,
        from_hex-to_hex salt (generate_salt-bytes draw 0 16),
        from_hex-to_hex (slow_hash hashing (password ++ salt) 10000)
            (slow_hash-bytes hashing writes 9999 _),
      )
      (ap ok (
        sym (
          ap (λ pair. verify_password hashing password pair.0 pair.1 10000)
            (hash_password-eq hashing draw password 10000))
        ∙ (verify-hash_password hashing draw password 10000).0))
