-- ===== src/Base/Bytes.antt =====
-- The bits of a byte. The laws hold for the 256 values, so each is checked at every one.
use Prim.Native.Nat.{ℕ, ◌^◌, ◌<◌, bit_and, bit_or}
use mathlib.Core.Path.{◌≡◌, refl}
use mathlib.Core.Bool.{Bool, true, false, not, ◌&&◌, ◌||◌}
use native.Mathlib.Omega.{arith}
use rainstorm_os.Base.Tests.{◌==◌, all_below, all_below_sound}
use rainstorm_os.Base.Words.{u8, not32}

-- `byte & (1 << bit)`, as a condition.
unfoldable pub bit_set : ℕ → ℕ → Bool
bit_set byte bit = not (bit_and byte (2 ^ bit) == 0)

-- `byte |= 1 << bit` and `byte &= ~(1 << bit)`, stored to a `uint8_t`.
unfoldable pub with_bit : ℕ → ℕ → ℕ
with_bit byte bit = u8 (bit_or byte (2 ^ bit))

unfoldable pub without_bit : ℕ → ℕ → ℕ
without_bit byte bit = u8 (bit_and byte (not32 (2 ^ bit)))

iff : Bool → Bool → Bool
iff true b = b
iff false b = not b

iff_sound : (a b : Bool) → iff a b ≡ true → a ≡ b
unfolding iff
iff_sound true b h = cc
iff_sound false b h = ground arith

abbrev all_bits : (ℕ → ℕ → ℕ → Bool) → Bool
all_bits p = all_below 256 (λ x. all_below 8 (λ b. all_below 8 (λ c. p x b c)))

all_bits_sound :
    (p : ℕ → ℕ → ℕ → Bool)
    → all_bits p ≡ true
    → (x b c : ℕ) → x < 256
    → b < 8
    → c < 8
    → p x b c ≡ true
all_bits_sound p h x b c hx hb hc =
    all_below_sound 8 _ c (all_below_sound 8 _ b (all_below_sound 256 _ x h hx) hb) hc

with_table : all_bits (λ x b c. iff (bit_set (with_bit x b) c) ((b == c) || bit_set x c)) ≡ true
unfolding all_below iff bit_set with_bit
with_table = refl

without_table :
    all_bits (λ x b c. iff (bit_set (without_bit x b) c) (not (b == c) && bit_set x c)) ≡ true
unfolding all_below iff bit_set without_bit
without_table = refl

module _ (x b c : ℕ) (hx : x < 256) (hb : b < 8) (hc : c < 8) where
  pub bit_set-with_bit : bit_set (with_bit x b) c ≡ ((b == c) || bit_set x c)
  bit_set-with_bit = iff_sound _ _ (all_bits_sound _ with_table x b c hx hb hc)

  pub bit_set-without_bit : bit_set (without_bit x b) c ≡ (not (b == c) && bit_set x c)
  bit_set-without_bit = iff_sound _ _ (all_bits_sound _ without_table x b c hx hb hc)

full_table : all_below 8 (λ b. bit_set 0xff b) ≡ true
unfolding all_below bit_set
full_table = refl

pub bit_set_full : (b : ℕ) → b < 8 → bit_set 0xff b ≡ true
bit_set_full b h = all_below_sound 8 (λ b. bit_set 0xff b) b full_table h

zero_table : all_below 8 (λ b. not (bit_set 0 b)) ≡ true
unfolding all_below bit_set
zero_table = refl

pub bit_set_zero : (b : ℕ) → b < 8 → bit_set 0 b ≡ false
bit_set_zero b h = ground (arith, all_below_sound 8 (λ b. not (bit_set 0 b)) b zero_table)

pub with_bit-lt : (x b : ℕ) → with_bit x b < 256
unfolding with_bit
with_bit-lt x b = omega arith

pub without_bit-lt : (x b : ℕ) → without_bit x b < 256
unfolding without_bit
without_bit-lt x b = omega arith
