-- ===== src/Users/Passwords/Laws.antt =====
-- What the password hasher guarantees: the constant-time comparison is equality, a password verifies
-- against its own hash, and hexadecimal text gives back its bytes.
use otus_highload_architect.Prelude.{
  ℕ, ◌+◌, ◌*◌, ◌/◌, ◌%◌, ◌<◌, ◌≡◌, refl, sym, ap, ◌∙◌, ◌↔◌, true, false, some, [], ◌∷◌, ◌++◌, arith,
  ◌==◌, length, All, Text, bytes_eq, bytes_eq_iff, bytes_eq_refl, ok,
}
use otus_highload_architect.Prelude.Bits.{
  bit_or, bit_xor, bit_or-eq-zero, bit_xor-eq-zero, bit_xor_self,
}
use otus_highload_architect.Prelude.Numerals.{skip_blanks, is_blank}
use otus_highload_architect.Users.Passwords.{
  Hashing, slow_hash, generate_salt, differences, constant_time_compare, hash_password,
  verify_password, hex_digit, to_hex, digit_of, read_digits, skip_prefix, read_magnitude,
  read_number, read_byte, read_pairs, from_hex,
}

differences-same : (a : Text) → differences 0 a a ≡ 0
unfolding differences
differences-same [] = refl
differences-same (x ∷ a) = rw (bit_xor_self x) (differences-same a)

differences-eq :
    (r : ℕ) (a b : Text)
    → length a ≡ length b
    → differences r a b ≡ 0
    → (r ≡ 0) × (bytes_eq a b ≡ true)
unfolding differences bytes_eq
differences-eq r [] [] h e = (e, refl)
differences-eq r [] (y ∷ b) h e = absurd (omega arith)
differences-eq r (x ∷ a) [] h e = absurd (omega arith)
differences-eq r (x ∷ a) (y ∷ b) h e =
    let rest = differences-eq (bit_or r (bit_xor x y)) a b (omega arith) e in
    let both = bit_or-eq-zero r (bit_xor x y) rest.0 in
    (both.0, ground (arith, rest.1, bit_xor-eq-zero x y both.1))

-- The constant-time comparison answers as the comparison that stops at the first difference: it
-- decides equality.
pub constant_time_compare_lem : (a b : Text) → constant_time_compare a b ≡ bytes_eq a b
unfolding constant_time_compare
constant_time_compare_lem a b = ground (
  arith,
  differences-eq 0 a b,
  bytes_eq_iff a b,
  λ (s : a ≡ b). ap length s,
  λ (s : a ≡ b). ap (differences 0 a) (sym s) ∙ differences-same a,
)

-- A password verifies against a hash exactly where it hashes to it under the salt; in particular
-- against the hash and the salt that it was stored with.
pub verify-hash_password :
    (h : Hashing) (draw : ℕ → ℕ) (password : Text) (iterations : ℕ)
    → let (salt, stored) = hash_password h draw password iterations in
      (verify_password h password salt stored iterations ≡ true)
      × ((other : Text)
          → (verify_password h other salt stored iterations ≡ true)
            ↔ (slow_hash h (other ++ salt) iterations ≡ slow_hash h (password ++ salt) iterations))
unfolding hash_password verify_password
verify-hash_password h draw password iterations =
    let salt = generate_salt draw 0 16 in
    let compared : (x y : Text) → constant_time_compare x y ≡ bytes_eq x y =
      constant_time_compare_lem in
    (
      compared _ _ ∙ bytes_eq_refl (slow_hash h (password ++ salt) iterations),
      λ other. (
        λ e. (bytes_eq_iff _ _).0 (sym (compared _ _) ∙ e),
        λ e. compared _ _ ∙ (bytes_eq_iff _ _).1 e,
      ),
    )

hex_digit_lem : (d : ℕ) → d < 16 → digit_of (hex_digit d) ≡ some d
unfolding digit_of
hex_digit_lem d h = ground arith

hex_digit-plain :
    (d : ℕ)
    → d < 16
    → (is_blank (hex_digit d) ≡ false)
      × ((hex_digit d == 45) ≡ false)
      × ((hex_digit d == 43) ≡ false)
      × ((hex_digit d == 120) ≡ false)
      × ((hex_digit d == 88) ≡ false)
unfolding is_blank
hex_digit-plain d h = (ground arith, ground arith, ground arith, ground arith, ground arith)

skip_prefix-none :
    (c x : ℕ) → (x == 120) ≡ false → (x == 88) ≡ false → skip_prefix (c ∷ x ∷ []) ≡ c ∷ x ∷ []
unfolding skip_prefix
skip_prefix-none c x h k = rw (h, k) (ground arith)

read_byte-unsigned :
    (a : ℕ) (t : Text)
    → is_blank a ≡ false
    → (a == 45) ≡ false
    → (a == 43) ≡ false
    → read_byte (a ∷ t) ≡ ok (read_magnitude false (a ∷ t))
unfolding read_byte read_number skip_blanks
read_byte-unsigned a t h k l = rw (h, k, l) refl

read_pairs-step :
    (a b v : ℕ) (hex r : Text)
    → read_byte (a ∷ b ∷ []) ≡ ok (v, [])
    → read_pairs [] hex ≡ ok r
    → read_pairs [] (a ∷ b ∷ hex) ≡ ok (v ∷ r)
unfolding read_pairs
read_pairs-step a b v hex r h k = rw (h, k) refl

skip_prefix-hex :
    (x y : ℕ)
    → y < 16
    → skip_prefix (hex_digit x ∷ hex_digit y ∷ []) ≡ hex_digit x ∷ hex_digit y ∷ []
unfolding skip_prefix
skip_prefix-hex x y h =
    let plain = hex_digit-plain y h in skip_prefix-none (hex_digit x) (hex_digit y) plain.3 plain.4

read_digits-hex :
    (x y : ℕ) → x < 16 → y < 16 → read_digits 0 (hex_digit x ∷ hex_digit y ∷ []) ≡ (x * 16 + y, [])
unfolding read_digits
read_digits-hex x y h k =
    rw (hex_digit_lem x h, read_digits, hex_digit_lem y k, read_digits) (ground arith)

read_magnitude-hex :
    (x y : ℕ)
    → x < 16
    → y < 16
    → read_magnitude false (hex_digit x ∷ hex_digit y ∷ []) ≡ (x * 16 + y, [])
unfolding read_magnitude
read_magnitude-hex x y h k = rw (skip_prefix-hex x y k, read_digits-hex x y h k) (ground arith)

read_byte-hex :
    (x y : ℕ) → x < 16 → y < 16 → read_byte (hex_digit x ∷ hex_digit y ∷ []) ≡ ok (x * 16 + y, [])
read_byte-hex x y h k =
    let plain = hex_digit-plain x h in
    read_byte-unsigned (hex_digit x) (hex_digit y ∷ []) plain.0 plain.1 plain.2
    ∙ ap ok (read_magnitude-hex x y h k)

read_pairs-to_hex :
    (bytes : Text) → All (λ c. c < 256) bytes → read_pairs [] (to_hex bytes) ≡ ok bytes
unfolding to_hex read_pairs
read_pairs-to_hex [] bounded = refl
read_pairs-to_hex (c ∷ bytes) bounded =
    read_pairs-step (hex_digit (c / 16)) (hex_digit (c % 16)) c (to_hex bytes) bytes
      (read_byte-hex (c / 16) (c % 16) (omega arith) (omega arith)
        ∙ ap (λ n. ok (n, [])) (omega arith))
      (read_pairs-to_hex bytes bounded.1)

length-to_hex : (bytes : Text) → length (to_hex bytes) ≡ length bytes * 2
unfolding to_hex
length-to_hex [] = refl
length-to_hex (c ∷ bytes) = omega (arith, length-to_hex bytes)

-- Bytes that are written in hexadecimal are read back as they were.
pub from_hex-to_hex : (bytes : Text) → All (λ c. c < 256) bytes → from_hex (to_hex bytes) ≡ ok bytes
unfolding from_hex
from_hex-to_hex bytes bounded = ground (arith, length-to_hex bytes, read_pairs-to_hex bytes bounded)
