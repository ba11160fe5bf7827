-- ===== src/Base/Bits.antt =====
-- Laws of `&` and `|` at every width: digit by digit, for a field of ones, and for masks.
mod Digits
use Digits.{bit_and_step, bit_and_zero, bit_or_step, bit_or_zero}
pub use Digits.*
use Prim.Native.Nat.{ℕ, zero, suc, ◌+◌, ◌-◌, ◌*◌, ◌/◌, ◌%◌, ◌^◌, ◌<◌, min, bit_and, bit_or}
use mathlib.Core.Path.{◌≡◌, ap, ◌∙◌}
use native.Mathlib.Nat.{pow-suc, one-le-pow, div-div-eq-div-mul}
use native.Mathlib.Omega.{arith}

double_pow : (c k : ℕ) → c * 2 ^ suc k ≡ 2 * (c * 2 ^ k)
double_pow c k = omega (arith, ap (λ p. c * p) (pow-suc 2 k))

-- Below the top of a mask of ones `&` keeps everything, above it nothing.
low_part : (n q r : ℕ) → r < 2 ^ n → bit_and (q * 2 ^ n + r) (2 ^ n - 1) ≡ r
low_part zero q r h = ground (arith, bit_and_zero (q * 2 ^ 0 + r))
low_part (suc n) q r h = ground (
  arith,
  bit_and_step (q * 2 ^ suc n + r) (2 ^ suc n - 1),
  double_pow q n,
  pow-suc 2 n,
  one-le-pow n 2,
  low_part n q (r / 2) (omega (arith, pow-suc 2 n)),
)

pub bit_and_low : (n a : ℕ) → bit_and a (2 ^ n - 1) ≡ a % 2 ^ n
bit_and_low n a = ground (arith, one-le-pow n 2, low_part n (a / 2 ^ n) (a % 2 ^ n))

-- A mask of `n` ones from bit `k` up selects that field, in its place.
pub bit_and_field : (n k a : ℕ) → bit_and a ((2 ^ n - 1) * 2 ^ k) ≡ a / 2 ^ k % 2 ^ n * 2 ^ k
bit_and_field n zero a = ground (arith, bit_and_low n a)
bit_and_field n (suc k) a = ground (
  arith,
  bit_and_step a ((2 ^ n - 1) * 2 ^ suc k),
  double_pow (2 ^ n - 1) k,
  double_pow (a / 2 ^ suc k % 2 ^ n) k,
  bit_and_field n k (a / 2),
  pow-suc 2 k,
  div-div-eq-div-mul a 2 (2 ^ k),
)

-- `|` of a value above bit `k` and a value below it is their sum.
pub bit_or_disjoint : (k q r : ℕ) → r < 2 ^ k → bit_or (q * 2 ^ k) r ≡ q * 2 ^ k + r
bit_or_disjoint zero q r h = ground (arith, bit_or_zero (q * 2 ^ 0))
bit_or_disjoint (suc k) q r h = ground (
  arith,
  bit_or_step (q * 2 ^ suc k) r,
  double_pow q k,
  bit_or_disjoint k q (r / 2) (omega (arith, pow-suc 2 k)),
)
