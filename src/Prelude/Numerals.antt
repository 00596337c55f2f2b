-- ===== src/Prelude/Numerals.antt =====
-- `std::stoi` and `std::stoll` on the bytes of a text: blanks, a sign, and then the longest run of
-- decimal digits; what follows it is ignored.
use Prim.Native.Nat.{ℕ, ◌+◌, ◌-◌, ◌*◌, ◌^◌}
use mathlib.Core.Bool.{Bool, true, false, ◌&&◌, ◌||◌}
use mathlib.Core.List.{[], ◌∷◌}
use otus_highload_architect.Prelude.Tests.{◌==◌, ltb, leb, if◌then◌else◌}
use otus_highload_architect.Prelude.Bytes.{Text}
use otus_highload_architect.Prelude.Outcomes.{Outcome, ok, throw, invalid_argument, out_of_range}
use otus_highload_architect.Prelude.Int.{ℤ, pos, neg}

-- `isspace` of the C locale.
unfoldable pub is_blank : ℕ → Bool
is_blank c = c == 32 || (leb 9 c && leb c 13)

unfoldable pub is_digit : ℕ → Bool
is_digit c = leb b'0' c && leb c b'9'

unfoldable pub skip_blanks : Text → Text
skip_blanks [] = []
skip_blanks (c ∷ t) = if is_blank c then skip_blanks t else c ∷ t

-- The number in front of a text, added to the digits read so far.
unfoldable pub digits_value : ℕ → Text → ℕ
digits_value n [] = n
digits_value n (c ∷ t) = elim (is_digit c) [ true ↦ digits_value (n * 10 + (c - 48)) t | false ↦ n ]

unfoldable pub starts_with_digit : Text → Bool
starts_with_digit [] = false
starts_with_digit (c ∷ t) = is_digit c

-- The magnitude is compared with the largest of its sign.
in_range : ℕ → Bool → ℕ → Outcome ℤ
in_range bits negative n =
    if negative
    then (if leb n (2 ^ (bits - 1)) then ok (neg (pos n)) else throw out_of_range)
    else (if ltb n (2 ^ (bits - 1)) then ok (pos n) else throw out_of_range)

unsigned : ℕ → Bool → Text → Outcome ℤ
unfolding starts_with_digit digits_value is_digit in_range
unsigned bits negative t =
    if starts_with_digit t
    then in_range bits negative (digits_value 0 t)
    else throw invalid_argument

signed : ℕ → Text → Outcome ℤ
unfolding unsigned
signed bits [] = throw invalid_argument
signed bits (c ∷ t) =
    if c == b'-'
    then unsigned bits true t
    else if c == b'+'
    then unsigned bits false t
    else unsigned bits false (c ∷ t)

-- `bits` is 32 for `stoi` and 64 for `stoll`.
unfoldable pub parse_integer : ℕ → Text → Outcome ℤ
unfolding signed skip_blanks is_blank
parse_integer bits t = signed bits (skip_blanks t)
