-- ===== src/Prelude/Bits.antt =====
-- `|` and `^` of unsigned words, by their binary digits.
use Prim.Native.Nat.{
  ℕ, zero, suc, ◌+◌, ◌*◌, ◌/◌, ◌%◌, ◌-◌, ◌≤◌, max, differ, digits, bitwise, bit_or-bitwise,
  bit_xor-bitwise,
}
pub use Prim.Native.Nat.{bit_or, bit_xor}
use mathlib.Core.Path.{◌≡◌, refl, ap, ◌∙◌}
use native.Mathlib.Omega.{arith}
use native.Mathlib.Nat.{le_refl}

-- The recursion on digits takes fuel, and fuel beyond the first number is never used.
module _ (f : ℕ → ℕ → ℕ) where
  abbrev fueled : ℕ → ℕ → ℕ → ℕ
  fueled k x y = digits (λ w. w) f k x y

  one_more : (k x y : ℕ) → x ≤ k → fueled (suc k) x y ≡ fueled k x y
  one_more zero zero y h = refl
  one_more (suc k) zero y h = refl
  one_more zero (suc x) y h = absurd (omega arith)
  one_more (suc k) (suc x) y h = rw (one_more k (suc x / 2) (y / 2) (omega arith))

  many_more : (j n k x y : ℕ) → n ≡ j + k → x ≤ k → fueled n x y ≡ fueled k x y
  many_more zero n k x y e h = let same : n ≡ k = omega arith in ap (λ i. fueled i x y) same
  many_more (suc j) n k x y e h =
      let next : n ≡ suc (j + k) = omega arith in
      ap (λ i. fueled i x y) next
      ∙ one_more (j + k) x y (omega arith)
      ∙ many_more j (j + k) k x y refl h

  enough : (k x y : ℕ) → x ≤ k → fueled k x y ≡ fueled x x y
  enough k x y h = many_more (k - x) k x x y (omega arith) (le_refl x)

  lowest_digit :
      (x y : ℕ)
      → bitwise (λ w. w) f (suc x) y
        ≡ bitwise (λ w. w) f (suc x / 2) (y / 2) * 2 + f (suc x % 2) (y % 2)
  lowest_digit x y = omega (arith, enough x (suc x / 2) (y / 2) (omega arith))

zero-bit_or : (b : ℕ) → bit_or 0 b ≡ b
zero-bit_or b = bit_or-bitwise 0 b

zero-bit_xor : (b : ℕ) → bit_xor 0 b ≡ b
zero-bit_xor b = bit_xor-bitwise 0 b

bit_or_step :
    (a b : ℕ) → bit_or (suc a) b ≡ bit_or (suc a / 2) (b / 2) * 2 + max (suc a % 2) (b % 2)
bit_or_step a b = simp bit_or-bitwise (lowest_digit max a b)

bit_xor_step :
    (a b : ℕ) → bit_xor (suc a) b ≡ bit_xor (suc a / 2) (b / 2) * 2 + differ (suc a % 2) (b % 2)
bit_xor_step a b = simp bit_xor-bitwise (lowest_digit differ a b)

differ-eq : (x y : ℕ) → differ x y ≡ 0 → x ≡ y
differ-eq zero y h = omega arith
differ-eq (suc x) zero h = absurd (omega arith)
differ-eq (suc x) (suc y) h = omega (arith, differ-eq x y h)

differ_self : (x : ℕ) → differ x x ≡ 0
differ_self zero = refl
differ_self (suc x) = differ_self x

bit_or-pos_fuel : (n a b : ℕ) → a ≤ n → bit_or a b ≡ 0 → (a ≡ 0) × (b ≡ 0)
bit_or-pos_fuel n zero b h e = omega (arith, zero-bit_or b)
bit_or-pos_fuel zero (suc a) b h e = absurd (omega arith)
bit_or-pos_fuel (suc n) (suc a) b h e =
    let low =
      bit_or-pos_fuel n (suc a / 2) (b / 2) (omega arith) (omega (arith, bit_or_step a b)) in
    absurd (omega (arith, bit_or_step a b))

-- `a | b` is zero only where both are.
pub bit_or-eq-zero : (a b : ℕ) → bit_or a b ≡ 0 → (a ≡ 0) × (b ≡ 0)
bit_or-eq-zero a b = bit_or-pos_fuel a a b (le_refl a)

bit_xor-eq_fuel : (n a b : ℕ) → a ≤ n → bit_xor a b ≡ 0 → a ≡ b
bit_xor-eq_fuel n zero b h e = omega (arith, zero-bit_xor b)
bit_xor-eq_fuel zero (suc a) b h e = absurd (omega arith)
bit_xor-eq_fuel (suc n) (suc a) b h e =
    let low =
      bit_xor-eq_fuel n (suc a / 2) (b / 2) (omega arith) (omega (arith, bit_xor_step a b)) in
    omega (
      arith,
      bit_xor_step a b,
      low,
      differ-eq (suc a % 2) (b % 2) (omega (arith, bit_xor_step a b)),
    )

-- `a ^ b` is zero only where the two are equal.
pub bit_xor-eq-zero : (a b : ℕ) → bit_xor a b ≡ 0 → a ≡ b
bit_xor-eq-zero a b = bit_xor-eq_fuel a a b (le_refl a)

bit_xor_self_fuel : (n a : ℕ) → a ≤ n → bit_xor a a ≡ 0
bit_xor_self_fuel n zero h = zero-bit_xor 0
bit_xor_self_fuel zero (suc a) h = absurd (omega arith)
bit_xor_self_fuel (suc n) (suc a) h = omega (
  arith,
  bit_xor_step a (suc a),
  bit_xor_self_fuel n (suc a / 2) (omega arith),
  differ_self (suc a % 2),
)

pub bit_xor_self : (a : ℕ) → bit_xor a a ≡ 0
bit_xor_self a = bit_xor_self_fuel a a (le_refl a)
