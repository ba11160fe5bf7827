-- ===== src/Drivers/Framebuffer/Image/Draw.antt =====
-- The loops of `fb_draw_image`, row by row.
use mathlib.Core.Path.{ap₂, subst}
use rainstorm_os.Base.{
  ℕ, zero, suc, ◌+◌, ◌-◌, ◌*◌, ◌^◌, ◌≤◌, ◌<◌, ◌≡◌, refl, bit_and, true, false, not, ◌&&◌, ◌||◌,
  arith, ◌∙◌, ap, sym, some, u32, ltb, leb, ◌==◌, if◌then◌else◌, ok, Returns, returns,
  Ends-and_then, Ends-mono, Bool-cases, ◌⊎◌, inl, inr, leb_false→lt, lt→ltb,
}
use rainstorm_os.Drivers.Framebuffer.{
  Screen, Pixels, pixel_address, clipped, draw_pixel, draw_row, draw_rows, fb_draw_image, store,
}
use rainstorm_os.Drivers.Framebuffer.Visible.{IsValid, IsVisible, index_below}
use rainstorm_os.Drivers.Framebuffer.Paint.{
  Painted, PaintedAt, painted, Painted-same, Painted-store, untouched-Painted, store_eq,
}
use rainstorm_os.Drivers.Framebuffer.Image.{
  alpha, image_pixel, shown, new_pixel, drawn, before-next, clipped_eq,
}

module _ {s : Screen} (v : IsValid s) (x y width height : ℕ) (pixels : Pixels)
    (right : x + width < 2 ^ 32) (low : y + height < 2 ^ 32) (area : height * width < 2 ^ 32)
    (enough : height * width ≤ pixels.size) where
  abbrev Drawn : (row col : ℕ) → Unit {0} → Screen → Type 0
  Drawn row col _ t =
      PaintedAt s (drawn x y width height pixels row col) (new_pixel x y width height pixels) t

  index_eq :
      (row col : ℕ) → row < height → col < width → u32 (u32 (row * width) + col) ≡ row * width + col
  index_eq row col h k = omega (arith, index_below col row width height width k h (omega arith))

  pixel_at :
      (row col : ℕ)
      → row < height
      → col < width
      → pixels.at (u32 (u32 (row * width) + col))
        ≡ image_pixel x y width height pixels (x + col) (y + row)
  pixel_at row col h k =
      let down : y + row - y ≡ row = omega arith in
      let along : x + col - x ≡ col = omega arith in
      ap pixels.at (index_eq row col h k ∙ sym (ap₂ (λ b a. b * width + a) down along))

  draw_pixel_eq :
      (row col : ℕ) (w : ℕ → ℕ)
      → row < height
      → col < width
      → let px = image_pixel x y width height pixels (x + col) (y + row) in
        draw_pixel x y width pixels row col (record s { word = w }) ≡ (
          if alpha px == 0
          then ok tt (record s { word = w })
          else store
              (pixel_address s.framebuffer (x + col) (y + row))
              (bit_and px 0x00FFFFFF)
              (record s { word = w }))
  unfolding draw_pixel
  draw_pixel_eq row col w h k =
      let inside : ltb (u32 (u32 (row * width) + col)) pixels.size ≡ true = lt→ltb _ _ (
        omega (
          arith,
          index_eq row col h k,
          index_below col row width height width k h (omega arith),
          enough,
        )) in
      let right_col : u32 (x + col) ≡ x + col = omega (arith, right) in
      let low_row : u32 (y + row) ≡ y + row = omega (arith, low) in
      rw (inside, pixel_at row col h k, right_col, low_row) refl

  shown_at :
      (row col : ℕ)
      → row < height
      → col < width
      → shown x y width height pixels (x + col) (y + row)
        ≡ not (alpha (image_pixel x y width height pixels (x + col) (y + row)) == 0)
  shown_at row col h k = ground arith

  drawn-next :
      (row col a b : ℕ)
      → drawn x y width height pixels row (col + 1) a b ≡ (
          (((x + col == a) && (y + row == b)) && shown x y width height pixels (x + col) (y + row))
          || drawn x y width height pixels row col a b)
  drawn-next row col a b =
      before-next (shown x y width height pixels) (x + col) (x + (col + 1)) (y + row) a b
        (omega arith)

  draw_pixel-Drawn :
      (row col : ℕ) (w : ℕ → ℕ)
      → row < height
      → col < width
      → IsVisible s.framebuffer (x + col) (y + row)
      → Painted s w (drawn x y width height pixels row col) (new_pixel x y width height pixels)
      → Returns (Drawn row (col + 1)) (draw_pixel x y width pixels row col (record s { word = w }))
  draw_pixel-Drawn row col w h k seen p =
      let px = image_pixel x y width height pixels (x + col) (y + row) in
      rw (draw_pixel_eq row col w h k) (elim (Bool-cases (alpha px == 0)) [
        | inl clear ↦ rw clear (
            returns (
              painted w (
                Painted-same v p (λ a b _.
                  drawn-next row col a b ∙ rw (shown_at row col h k, clear) (ground arith)))))
        | inr solid ↦
            rw
              (
                solid,
                store_eq (x + col) (y + row) (new_pixel x y width height pixels (x + col) (y + row))
                    w v seen,
              )
              (returns (
                painted _ (
                  Painted-same v (Painted-store v (x + col) (y + row) seen p) (λ a b _.
                    drawn-next row col a b ∙ rw (shown_at row col h k, solid) (ground arith)))))
      ])

  draw_row-Drawn :
      (left row col last : ℕ) {t : Screen}
      → row < height
      → left + col ≡ last
      → last ≤ width
      → y + row < s.framebuffer.height
      → x + last ≤ s.framebuffer.width
      → Drawn row col tt t
      → Returns (Drawn row last) (draw_row left x y width pixels row col t)
  unfolding draw_row
  draw_row-Drawn zero row col last {t} h e k seen fits d =
      returns (subst (λ c. Drawn row c tt t) (omega (arith, e)) d)
  draw_row-Drawn (suc left) row col last h e k seen fits (painted w p) =
      Ends-and_then (draw_pixel-Drawn row col w h (omega arith) (omega arith, omega arith) p)
        (λ _ t d. draw_row-Drawn left row (col + 1) last h (omega (arith, e)) k seen fits d)

  -- The end of a row, drawn as far as the screen or the image reaches, is the start of the next.
  next_row :
      (drawn_width row : ℕ) {t : Screen}
      → (width ≤ drawn_width) ⊎ (s.framebuffer.width ≤ x + drawn_width)
      → Drawn row drawn_width tt t
      → Drawn (row + 1) 0 tt t
  next_row drawn_width row end (painted w p) =
      painted w (Painted-same v p (λ a b seen. ground (arith, end, seen)))

  draw_rows-Drawn :
      (left drawn_width row last : ℕ) {t : Screen}
      → left + row ≡ last
      → last ≤ height
      → drawn_width ≤ width
      → y + last ≤ s.framebuffer.height
      → x + drawn_width ≤ s.framebuffer.width
      → (width ≤ drawn_width) ⊎ (s.framebuffer.width ≤ x + drawn_width)
      → Drawn row 0 tt t
      → Returns (Drawn last 0) (draw_rows left drawn_width x y width pixels row t)
  unfolding draw_rows
  draw_rows-Drawn zero drawn_width row last {t} e h k seen fits end d =
      returns (subst (λ r. Drawn r 0 tt t) (omega (arith, e)) d)
  draw_rows-Drawn (suc left) drawn_width row last e h k seen fits end d =
      Ends-and_then
        (draw_row-Drawn drawn_width row 0 drawn_width (omega arith) (omega arith) k (omega arith)
          fits d)
        (λ _ t d'.
          draw_rows-Drawn left drawn_width (row + 1) last (omega (arith, e)) h k seen fits end
            (next_row drawn_width row end d'))

  hidden :
      ((a b : ℕ) → IsVisible s.framebuffer a b → shown x y width height pixels a b ≡ false)
      → PaintedAt s (shown x y width height pixels) (new_pixel x y width height pixels) s
  hidden out =
      painted s.word (Painted-same v (untouched-Painted s (new_pixel x y width height pixels)) out)

  draw_clipped :
      (w h : ℕ)
      → w ≡ (if ltb s.framebuffer.width (x + width) then s.framebuffer.width - x else width)
      → h ≡ (if ltb s.framebuffer.height (y + height) then s.framebuffer.height - y else height)
      → x < s.framebuffer.width
      → y < s.framebuffer.height
      → Returns
          (λ _ t. PaintedAt s (shown x y width height pixels) (new_pixel x y width height pixels) t)
          (draw_rows h w x y width pixels 0 s)
  draw_clipped w h e f k l =
      Ends-mono
        (draw_rows-Drawn h w 0 h (omega arith) (ground (arith, f)) (ground (arith, e))
          (ground (arith, f)) (ground (arith, e)) reaches
          (painted s.word (
            Painted-same v (untouched-Painted s (new_pixel x y width height pixels))
              (λ a b _. ground arith))))
        (λ _ t d. finished d) (λ _ _ never. never)
    where
      reaches : (width ≤ w) ⊎ (s.framebuffer.width ≤ x + w)
      reaches = ground (arith, e)

      finished :
          {t : Screen}
          → Drawn h 0 tt t
          → PaintedAt s (shown x y width height pixels) (new_pixel x y width height pixels) t
      finished (painted word p) =
          painted word (Painted-same v p (λ a b seen. ground (arith, f, seen)))

-- On a valid screen `fb_draw_image` returns, for an image of `height` rows of `width` pixels that no
-- 32-bit sum or product wraps around for, with every visible pixel under a pixel of the image that
-- has alpha set to that pixel without its alpha, and no other word of memory changed.
pub fb_draw_image-PaintedAt :
    {s : Screen} (x y width height : ℕ) (pixels : Pixels)
    → IsValid s
    → x + width < 2 ^ 32
    → y + height < 2 ^ 32
    → height * width < 2 ^ 32
    → height * width ≤ pixels.size
    → Returns
        (λ _ t. PaintedAt s (shown x y width height pixels) (new_pixel x y width height pixels) t)
        (fb_draw_image x y width height (some pixels) s)
unfolding fb_draw_image
fb_draw_image-PaintedAt {s} x y width height pixels v right low area enough =
    elim (Bool-cases (leb s.framebuffer.width x)) [
      | inl h ↦
          simp (v.ready, h)
            (returns
              (hidden v x y width height pixels right low area enough (λ a b seen. ground arith)))
      | inr h ↦ elim (Bool-cases (leb s.framebuffer.height y)) [
        | inl k ↦
            simp (v.ready, h, k)
              (returns
                (hidden v x y width height pixels right low area enough (λ a b seen. ground arith)))
        | inr k ↦
            let h' = leb_false→lt _ _ h in
            let k' = leb_false→lt _ _ k in
            simp (v.ready, h, k)
              (draw_clipped v x y width height pixels right low area enough
                (clipped x width s.framebuffer.width) (clipped y height s.framebuffer.height)
                (clipped_eq x width s.framebuffer.width h' v.narrow right)
                (clipped_eq y height s.framebuffer.height k' v.low low) h' k')
      ]
    ]
