-- ===== src/Drivers/Framebuffer/Image.antt =====
-- An image drawn on the screen, clipped at its right and lower edge.
pub mod Draw
use rainstorm_os.Base.{
  ℕ, ◌+◌, ◌-◌, ◌*◌, ◌^◌, ◌<◌, ◌≡◌, bit_and, Bool, not, ◌&&◌, ◌||◌, arith, sym, u8, ◌>>>◌, ltb, leb,
  ◌==◌, ℕ_discrete, if◌then◌else◌, Bool-cases, inl, inr,
}
use rainstorm_os.Drivers.Framebuffer.{Pixels, clipped}
use rainstorm_os.Drivers.Framebuffer.Paint.{before}

abbrev pub alpha : ℕ → ℕ
alpha px = u8 (bit_and (px >>> 24) 0xFF)

module _ (x y width height : ℕ) (pixels : Pixels) where
  -- The pixel of the image that lies over column `a` and row `b` of the screen.
  abbrev pub image_pixel : (a b : ℕ) → ℕ
  image_pixel a b = pixels.at ((b - y) * width + (a - x))

  -- The columns and rows that the image lies over, where it is not left out.
  abbrev pub shown : (a b : ℕ) → Bool
  shown a b =
      (leb x a && ltb a (x + width))
      && ((leb y b && ltb b (y + height)) && not (alpha (image_pixel a b) == 0))

  abbrev pub new_pixel : (a b : ℕ) → ℕ
  new_pixel a b = bit_and (image_pixel a b) 0x00FFFFFF

  -- What is drawn before column `col` of row `row` of the image.
  abbrev drawn : (row col a b : ℕ) → Bool
  drawn row col a b = shown a b && before (x + col) (y + row) a b

-- One pixel more counts as done if the image shows it.
before-next :
    (done : ℕ → ℕ → Bool) (c c' r a b : ℕ)
    → c' ≡ c + 1
    → (done a b && before c' r a b)
      ≡ ((((c == a) && (r == b)) && done c r) || (done a b && before c r a b))
before-next done c c' r a b e = elim (ℕ_discrete c a) [
  | yes p ↦ elim (ℕ_discrete r b) [
    | yes q ↦
        rw (sym p, sym q)
          (elim (Bool-cases (done c r)) [
            | inl d ↦ rw d (ground (arith, e))
            | inr d ↦ rw d (ground arith)
          ])
    | no q ↦ elim (Bool-cases (done a b)) [
      | inl d ↦ rw d (ground (arith, e, q))
      | inr d ↦ rw d (ground (arith, q))
    ]
  ]
  | no p ↦ elim (Bool-cases (done a b)) [
    | inl d ↦ rw d (ground (arith, e, p))
    | inr d ↦ rw d (ground (arith, p))
  ]
]

clipped_eq :
    (from extent limit : ℕ)
    → from < limit
    → limit < 2 ^ 32
    → from + extent < 2 ^ 32
    → clipped from extent limit ≡ (if ltb limit (from + extent) then limit - from else extent)
unfolding clipped
clipped_eq from extent limit h k l = ground arith
