-- ===== src/Users/Passwords.antt =====
-- src/user/password_hasher.cpp. A `char` is its unsigned byte, a `size_t` a number below 2 ^ 64.
pub mod Laws
use otus_highload_architect.Prelude.{
  ◌>>=◌, ℕ, zero, suc, ◌+◌, ◌-◌, ◌*◌, ◌/◌, ◌%◌, ◌^◌, Bool, true, false, ◌&&◌, ◌||◌, Option, none,
  some, [], ◌∷◌, ◌++◌, ltb, leb, ◌==◌, if◌then◌else◌, length, Text, invalid_argument, undefined,
  Outcome, ok, throw,
}
use otus_highload_architect.Prelude.Bits.{bit_or, bit_xor}
use otus_highload_architect.Prelude.Numerals.{skip_blanks}

-- `std::hash` of the platform, and `std::to_string`.
pub record Hashing : Type 0 where
  pub hash_string : Text → ℕ
  pub hash_size : ℕ → ℕ
  pub to_string : ℕ → Text

-- The rounds of `SlowHash` from round `i` on.
unfoldable pub rounds : Hashing → ℕ → ℕ → Text → Text
rounds h zero i hash = hash
rounds h (suc left) i hash =
    let h1 = h.hash_string hash in
    let h2 = h.hash_size i in
    let combined = bit_xor h1 (h2 * 2 % 2 ^ 64) in rounds h left (i + 1) (h.to_string combined)

unfoldable pub slow_hash : Hashing → Text → ℕ → Text
slow_hash h input iterations = rounds h iterations 0 input

-- `GenerateSalt`: `length` draws from the generator, which is seeded by the time, a counter and the
-- thread.
unfoldable pub generate_salt : (ℕ → ℕ) → ℕ → ℕ → Text
generate_salt draw i zero = []
generate_salt draw i (suc left) = draw i % 256 ∷ generate_salt draw (i + 1) left

unfoldable pub differences : ℕ → Text → Text → ℕ
differences result [] b = result
differences result (x ∷ a) [] = result
differences result (x ∷ a) (y ∷ b) = differences (bit_or result (bit_xor x y)) a b

unfoldable pub constant_time_compare : Text → Text → Bool
constant_time_compare a b = if length a == length b then differences 0 a b == 0 else false

-- The salt and the hash.
unfoldable pub hash_password : Hashing → (ℕ → ℕ) → Text → ℕ → Text × Text
hash_password h draw password iterations =
    let salt = generate_salt draw 0 16 in (salt, slow_hash h (password ++ salt) iterations)

unfoldable pub verify_password : Hashing → Text → Text → Text → ℕ → Bool
verify_password h password salt expected_hash iterations =
    constant_time_compare (slow_hash h (password ++ salt) iterations) expected_hash

abbrev pub hex_digit : ℕ → ℕ
hex_digit d = if ltb d 10 then 48 + d else 87 + d

unfoldable pub to_hex : Text → Text
to_hex [] = []
to_hex (c ∷ bytes) = hex_digit (c / 16) ∷ hex_digit (c % 16) ∷ to_hex bytes

-- The value of a digit that `std::hex` reads.
unfoldable pub digit_of : ℕ → Option ℕ
digit_of c =
    if leb 48 c && leb c 57
    then some (c - 48)
    else if leb 97 c && leb c 102
    then some (c - 87)
    else if leb 65 c && leb c 70
    then some (c - 55)
    else none

-- The digits in front of the stream, and what is left of it.
unfoldable pub read_digits : ℕ → Text → ℕ × Text
read_digits n [] = (n, [])
read_digits n (c ∷ t) = elim (digit_of c) [
  | some d ↦ read_digits (n * 16 + d) t
  | none ↦ (n, c ∷ t)
]

-- A `0x` in front of the digits is read over.
unfoldable pub skip_prefix : Text → Text
skip_prefix [] = []
skip_prefix (c ∷ []) = c ∷ []
skip_prefix (c ∷ x ∷ t) = if c == 48 && (x == 120 || x == 88) then t else c ∷ x ∷ t

-- `static_cast<char>` of the number that was read.
abbrev pub to_char : Bool → ℕ → ℕ
to_char true n = (256 - n % 256) % 256
to_char false n = n % 256

read_magnitude : Bool → Text → ℕ × Text
unfolding skip_prefix read_digits
read_magnitude negative t =
    let (n, rest) = read_digits 0 (skip_prefix t) in (to_char negative n, rest)

read_number : Text → Outcome (ℕ × Text)
unfolding read_magnitude
read_number [] = throw undefined
read_number (c ∷ t) =
    if c == 45
    then ok (read_magnitude true t)
    else if c == 43
    then ok (read_magnitude false t)
    else ok (read_magnitude false (c ∷ t))

-- `ss >> byteValue`: where the stream holds blanks at most, `byteValue` keeps the indeterminate value
-- that it was declared with; where no digit follows, it is 0.
unfoldable pub read_byte : Text → Outcome (ℕ × Text)
unfolding read_number
read_byte stream = read_number (skip_blanks stream)

-- The loop of `FromHex`: what a pair leaves unread stays in the stream in front of the next pair.
unfoldable pub read_pairs : Text → Text → Outcome Text
unfolding read_byte
read_pairs stream [] = ok []
read_pairs stream (a ∷ []) = ok []
read_pairs stream (a ∷ b ∷ hex) = do
  (byte, rest) ← read_byte (stream ++ a ∷ b ∷ [])
  result ← read_pairs rest hex
  ok (byte ∷ result)

unfoldable pub from_hex : Text → Outcome Text
unfolding read_pairs
from_hex hex = if length hex % 2 == 0 then read_pairs [] hex else throw invalid_argument
