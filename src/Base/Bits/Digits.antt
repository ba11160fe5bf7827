-- ===== src/Base/Bits/Digits.antt =====
-- `&` and `|` by their lowest binary digit, and the algebra that follows digit by digit.
use Prim.Native.Nat.{
  ℕ, zero, suc, ◌+◌, ◌*◌, ◌/◌, ◌%◌, ◌≤◌, min, max, bit_and, bit_or, digits, bit_and-bitwise,
  bit_or-bitwise,
}
use mathlib.Core.Path.{◌≡◌, refl, ◌∙◌, sym}
use native.Mathlib.Omega.{arith}

-- The definition runs on fuel; two amounts that reach the first argument give the same digits.
module _ (last : ℕ → ℕ) (digit : ℕ → ℕ → ℕ) where
  same_digits : (k l x y : ℕ) → x ≤ k → x ≤ l → digits last digit k x y ≡ digits last digit l x y
  same_digits k l zero y less less' = no_digits k y ∙ sym (no_digits l y)
    where
      no_digits : (k y : ℕ) → digits last digit k 0 y ≡ last y
      no_digits zero y = refl
      no_digits (suc k) y = refl
  same_digits zero l (suc x) y less less' = absurd (omega arith)
  same_digits (suc k) zero (suc x) y less less' = absurd (omega arith)
  same_digits (suc k) (suc l) (suc x) y less less' =
      let rest = same_digits k l (suc x / 2) (y / 2) (omega arith) (omega arith) in rw rest

  low_digit :
      (x y : ℕ)
      → digits last digit (suc x) (suc x) y
        ≡ digits last digit (suc x / 2) (suc x / 2) (y / 2) * 2 + digit (suc x % 2) (y % 2)
  low_digit x y =
      let enough = same_digits x (suc x / 2) (suc x / 2) (y / 2) (omega arith) (omega arith) in
      rw enough

pub bit_or_step : (x y : ℕ) → bit_or x y ≡ max (x % 2) (y % 2) + 2 * bit_or (x / 2) (y / 2)
bit_or_step zero y = omega (arith, bit_or-bitwise 0 (y / 2), bit_or-bitwise 0 y)
bit_or_step (suc x) y = omega (
  arith,
  low_digit (λ c. c) max x y,
  bit_or-bitwise (suc x / 2) (y / 2),
  bit_or-bitwise (suc x) y,
)

pub bit_and_step : (x y : ℕ) → bit_and x y ≡ min (x % 2) (y % 2) + 2 * bit_and (x / 2) (y / 2)
bit_and_step zero y = omega (arith, bit_and-bitwise 0 (y / 2), bit_and-bitwise 0 y)
bit_and_step (suc x) y = omega (
  arith,
  low_digit (λ c. 0) min x y,
  bit_and-bitwise (suc x / 2) (y / 2),
  bit_and-bitwise (suc x) y,
)

bit_and_half : (a b : ℕ) → bit_and a b / 2 ≡ bit_and (a / 2) (b / 2)
bit_and_half a b = omega (arith, bit_and_step a b)

bit_or_half : (a b : ℕ) → bit_or a b / 2 ≡ bit_or (a / 2) (b / 2)
bit_or_half a b = omega (arith, bit_or_step a b)

eq_zero : (a : ℕ) → a ≤ 0 → a ≡ 0
eq_zero a h = omega arith

-- Each law is an induction on a bound for the arguments.
distrib_below :
    (n a b m : ℕ)
    → a ≤ n
    → b ≤ n
    → m ≤ n
    → bit_and (bit_or a b) m ≡ bit_or (bit_and a m) (bit_and b m)
distrib_below zero a b m ha hb hm = rw (eq_zero a ha, eq_zero b hb, eq_zero m hm)
distrib_below (suc n) a b m ha hb hm =
    rw
      (
        bit_and_step (bit_or a b) m,
        bit_or_step (bit_and a m) (bit_and b m),
        bit_or_half a b,
        bit_and_half a m,
        bit_and_half b m,
        distrib_below n (a / 2) (b / 2) (m / 2) (omega arith) (omega arith) (omega arith),
      )
      (omega (arith, bit_or_step a b, bit_and_step a m, bit_and_step b m))

-- A mask distributes over `|`.
pub bit_and-bit_or : (a b m : ℕ) → bit_and (bit_or a b) m ≡ bit_or (bit_and a m) (bit_and b m)
bit_and-bit_or a b m = distrib_below (a + b + m) a b m (omega arith) (omega arith) (omega arith)

and_zero_below : (n a : ℕ) → a ≤ n → bit_and a 0 ≡ 0
and_zero_below zero a h = rw (eq_zero a h)
and_zero_below (suc n) a h = omega (arith, bit_and_step a 0, and_zero_below n (a / 2) (omega arith))

pub bit_and_zero : (a : ℕ) → bit_and a 0 ≡ 0
bit_and_zero a = and_zero_below a a (omega arith)

or_zero_below : (n a : ℕ) → a ≤ n → bit_or a 0 ≡ a
or_zero_below zero a h = rw (eq_zero a h)
or_zero_below (suc n) a h = omega (arith, bit_or_step a 0, or_zero_below n (a / 2) (omega arith))

pub bit_or_zero : (a : ℕ) → bit_or a 0 ≡ a
bit_or_zero a = or_zero_below a a (omega arith)

or_comm_below : (n a b : ℕ) → a ≤ n → b ≤ n → bit_or a b ≡ bit_or b a
or_comm_below zero a b ha hb = rw (eq_zero a ha, eq_zero b hb)
or_comm_below (suc n) a b ha hb = omega (
  arith,
  bit_or_step a b,
  bit_or_step b a,
  or_comm_below n (a / 2) (b / 2) (omega arith) (omega arith),
)

pub bit_or_comm : (a b : ℕ) → bit_or a b ≡ bit_or b a
bit_or_comm a b = or_comm_below (a + b) a b (omega arith) (omega arith)

pub zero_bit_or : (a : ℕ) → bit_or 0 a ≡ a
zero_bit_or a = bit_or_comm 0 a ∙ bit_or_zero a
