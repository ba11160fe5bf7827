-- ===== src/Drivers/Framebuffer/Visible.antt =====
-- The visible pixels in memory: where they lie, that no two share a word, and colours as numbers.
use mathlib.Core.Path.{ap₂}
use native.Mathlib.Nat.{mul-add-div_right, div-eq_of_lt}
use rainstorm_os.Base.{
  ℕ, ◌+◌, ◌*◌, ◌/◌, ◌^◌, ◌≤◌, ◌<◌, ◌≡◌, bit_and, bit_or, true, ◌&&◌, arith, ◌∙◌, ap, sym, u32,
  ◌>>>◌, ◌==◌, ℕ_discrete,
}
use rainstorm_os.Base.Bits.{bit_and_low, bit_or_disjoint}
use rainstorm_os.Drivers.Framebuffer.{
  Framebuffer, Screen, pixel_address, color_int, get_red, get_green, get_blue,
}

-- The rows of pixels lie one after the other inside the object, and the object below 2^64.
pub record IsValid (s : Screen) : Type 0 where
  pub ready : s.framebuffer.is_ready ≡ true
  pub stride : s.framebuffer.width ≤ s.framebuffer.pitch / 4
  pub starts : s.object_start ≤ s.framebuffer.address
  pub ends :
      s.framebuffer.address + 4 * (s.framebuffer.height * (s.framebuffer.pitch / 4)) ≤ s.object_end
  pub in_memory : s.object_end < 2 ^ 64
  pub narrow : s.framebuffer.width < 2 ^ 32
  pub low : s.framebuffer.height < 2 ^ 32

abbrev pub IsVisible : Framebuffer → (x y : ℕ) → Type 0
IsVisible fb x y = (x < fb.width) × (y < fb.height)

-- The pixel at column `x` and row `y`.
abbrev pub place : Framebuffer → (x y : ℕ) → ℕ
place fb x y = fb.address + 4 * (y * (fb.pitch / 4) + x)

abbrev pub pixel : Screen → (x y : ℕ) → ℕ
pixel s x y = s.word (place s.framebuffer x y)

pub index_below : (x y w h p : ℕ) → x < w → y < h → w ≤ p → y * p + x + 1 ≤ h * p
index_below x y w h p a b c = grind arith

index_injective : (x y a b p : ℕ) → x < p → a < p → y * p + x ≡ b * p + a → (x ≡ a) × (y ≡ b)
index_injective x y a b p h k e =
    let row : (n m : ℕ) → m < p → (n * p + m) / p ≡ n = λ n m less.
      mul-add-div_right {m = p} (omega arith) n m
      ∙ (ap (λ q. n + q) (div-eq_of_lt less) ∙ omega arith) in
    let same : y ≡ b = sym (row y x h) ∙ (ap (λ i. i / p) e ∙ row b a k) in
    (omega (arith, e, ap (λ r. r * p) same), same)

pub pixel_address_eq :
    {s : Screen} (x y : ℕ)
    → IsValid s
    → IsVisible s.framebuffer x y
    → pixel_address s.framebuffer x y ≡ place s.framebuffer x y
unfolding pixel_address
pixel_address_eq {s} x y v (h, k) =
    let below =
      index_below x y s.framebuffer.width s.framebuffer.height (s.framebuffer.pitch / 4) h k
        v.stride in
    omega (arith, v.ends, v.in_memory)

pub place-in_object :
    {s : Screen} (x y : ℕ)
    → IsValid s
    → IsVisible s.framebuffer x y
    → (s.object_start ≤ place s.framebuffer x y) × (place s.framebuffer x y + 4 ≤ s.object_end)
place-in_object {s} x y v (h, k) =
    let below =
      index_below x y s.framebuffer.width s.framebuffer.height (s.framebuffer.pitch / 4) h k
        v.stride in
    omega (arith, v.ends, v.starts)

-- Two visible pixels have different words.
pub place-injective :
    {s : Screen} (x y a b : ℕ)
    → IsValid s
    → IsVisible s.framebuffer x y
    → IsVisible s.framebuffer a b
    → place s.framebuffer x y ≡ place s.framebuffer a b
    → (x ≡ a) × (y ≡ b)
place-injective {s} x y a b v (h, _) (h', _) e =
    index_injective x y a b (s.framebuffer.pitch / 4) (omega (arith, v.stride))
      (omega (arith, v.stride)) (omega (arith, e))

pub place-step :
    {s : Screen} (x y a b : ℕ)
    → IsValid s
    → IsVisible s.framebuffer x y
    → IsVisible s.framebuffer a b
    → (place s.framebuffer x y == place s.framebuffer a b) ≡ ((x == a) && (y == b))
place-step {s} x y a b v h h' =
    elim (ℕ_discrete (place s.framebuffer x y) (place s.framebuffer a b)) [
      | yes e ↦ let same = place-injective x y a b v h h' e in ground (arith, same.0, same.1)
      | no ne ↦ ground (arith, λ (p : (x ≡ a) × (y ≡ b)). ne (ap₂ (place s.framebuffer) p.0 p.1))
    ]

-- A colour of three bytes is put together and taken apart without loss.
color_int_eq :
    (r g b : ℕ)
    → r < 256
    → g < 256
    → b < 256
    → color_int (record { red = r; green = g; blue = b }) ≡ r * 2 ^ 16 + g * 2 ^ 8 + b
unfolding color_int
color_int_eq r g b h k l =
    let red : u32 (bit_and r 0xFF * 2 ^ 16) ≡ r * 2 ^ 16 = omega (arith, bit_and_low 8 r) in
    let green : u32 (bit_and g 0xFF * 2 ^ 8) ≡ g * 2 ^ 8 = omega (arith, bit_and_low 8 g) in
    let blue : bit_and b 0xFF ≡ b = omega (arith, bit_and_low 8 b) in
    let high : bit_or (r * 2 ^ 16) (g * 2 ^ 8) ≡ (r * 256 + g) * 2 ^ 8 =
      bit_or_disjoint 16 r (g * 2 ^ 8) (omega arith) ∙ omega arith in
    rw (red, green, blue, high) (bit_or_disjoint 8 (r * 256 + g) b (omega arith) ∙ omega arith)

pub get-color_int :
    (r g b : ℕ)
    → r < 256
    → g < 256
    → b < 256
    → let px = color_int (record { red = r; green = g; blue = b }) in
      (get_red px ≡ r) × (get_green px ≡ g) × (get_blue px ≡ b)
get-color_int r g b h k l =
    let px = color_int (record { red = r; green = g; blue = b }) in
    let e = color_int_eq r g b h k l in
    (
      omega (arith, e, bit_and_low 8 (color_int (record { red = r; green = g; blue = b }) >>> 16)),
      omega (arith, e, bit_and_low 8 (color_int (record { red = r; green = g; blue = b }) >>> 8)),
      omega (arith, e, bit_and_low 8 (color_int (record { red = r; green = g; blue = b }))),
    )
