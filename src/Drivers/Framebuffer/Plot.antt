-- ===== src/Drivers/Framebuffer/Plot.antt =====
-- One pixel written, and one read.
use rainstorm_os.Base.{
  ℕ, ◌<◌, ◌≡◌, Bool, false, ◌&&◌, arith, ltb, leb, ◌==◌, if◌then◌else◌, ok, Returns, returns,
  Ends-and_then, ◌>>◌, Bool-cases, inl, inr, leb_false→lt,
}
use rainstorm_os.Drivers.Framebuffer.{
  Framebuffer, FbColor, Screen, color_int, get_red, get_green, get_blue, black, load, fb_plot_pixel,
  fb_get_pixel,
}
use rainstorm_os.Drivers.Framebuffer.Visible.{
  IsValid, IsVisible, pixel, pixel_address_eq, place-in_object, get-color_int,
}
use rainstorm_os.Drivers.Framebuffer.Paint.{
  PaintedAt, painted, Painted-same, Painted-store, untouched-Painted, store_eq,
}

abbrev pub color_of : ℕ → FbColor
color_of px = record { red = get_red px; green = get_green px; blue = get_blue px }

abbrev pub visible : Framebuffer → (x y : ℕ) → Bool
visible fb x y = ltb x fb.width && ltb y fb.height

nothing_plotted :
    {s : Screen} (x y c : ℕ)
    → IsValid s
    → visible s.framebuffer x y ≡ false
    → PaintedAt s (λ a b. (x == a) && (y == b)) (λ a b. c) s
nothing_plotted {s} x y c v out =
    painted s.word (Painted-same v (untouched-Painted s (λ a b. c)) (λ a b h. ground arith))

-- On a valid screen `fb_plot_pixel` returns with the pixel at `x` and `y` of the colour, if it is
-- visible, and no other word of memory changed.
pub fb_plot_pixel-PaintedAt :
    {s : Screen} (x y : ℕ) (c : FbColor)
    → IsValid s
    → Returns
        (λ _ t. PaintedAt s (λ a b. (x == a) && (y == b)) (λ a b. color_int c) t)
        (fb_plot_pixel x y c s)
unfolding fb_plot_pixel
fb_plot_pixel-PaintedAt {s} x y c v = elim (Bool-cases (leb s.framebuffer.width x)) [
  | inl right ↦ simp (v.ready, right) (returns (nothing_plotted x y (color_int c) v (ground arith)))
  | inr h ↦ elim (Bool-cases (leb s.framebuffer.height y)) [
    | inl below ↦
        simp (v.ready, h, below) (returns (nothing_plotted x y (color_int c) v (ground arith)))
    | inr k ↦
        let seen : IsVisible s.framebuffer x y = (leb_false→lt _ _ h, leb_false→lt _ _ k) in
        simp (v.ready, h, k, store_eq x y (color_int c) s.word v seen)
          (returns (
            painted _ (
              Painted-same v (Painted-store v x y seen (untouched-Painted s (λ a b. color_int c)))
                (λ a b h. ground arith))))
  ]
]

-- On a valid screen `fb_get_pixel` changes nothing, and answers the colour of a visible pixel and
-- black elsewhere.
pub fb_get_pixel-pixel :
    {s : Screen} (x y : ℕ)
    → IsValid s
    → fb_get_pixel x y s
      ≡ ok (if visible s.framebuffer x y then color_of (pixel s x y) else black) s
unfolding fb_get_pixel load
fb_get_pixel-pixel {s} x y v = elim (Bool-cases (leb s.framebuffer.width x)) [
  | inl right ↦ simp (v.ready, right) (ground arith)
  | inr h ↦ elim (Bool-cases (leb s.framebuffer.height y)) [
    | inl below ↦ simp (v.ready, h, below) (ground arith)
    | inr k ↦
        let seen : IsVisible s.framebuffer x y = (leb_false→lt _ _ h, leb_false→lt _ _ k) in
        simp (v.ready, h, k, pixel_address_eq x y v seen)
          (ground (arith, place-in_object x y v seen))
  ]
]

pub IsValid-words : {s : Screen} {w : ℕ → ℕ} → IsValid s → IsValid (record s { word = w })
IsValid-words v = record {
  ready = v.ready;
  stride = v.stride;
  starts = v.starts;
  ends = v.ends;
  in_memory = v.in_memory;
  narrow = v.narrow;
  low = v.low;
}

color_of-color_int :
    (c : FbColor) → c.red < 256 → c.green < 256 → c.blue < 256 → color_of (color_int c) ≡ c
color_of-color_int c r g b =
    let (e, f, h) = get-color_int c.red c.green c.blue r g b in
    λ i. record { red = e i; green = f i; blue = h i }

-- On a valid screen, after a colour of three bytes is plotted at a visible pixel, `fb_get_pixel`
-- answers that colour there, and at every other visible pixel the colour from before.
pub fb_get_pixel-fb_plot_pixel :
    {s : Screen} (x y a b : ℕ) (c : FbColor)
    → IsValid s
    → IsVisible s.framebuffer x y
    → IsVisible s.framebuffer a b
    → c.red < 256
    → c.green < 256
    → c.blue < 256
    → Returns
        (λ got _. got ≡ (if (x == a) && (y == b) then c else color_of (pixel s a b)))
        ((fb_plot_pixel x y c >> fb_get_pixel a b) s)
fb_get_pixel-fb_plot_pixel {s} x y a b c v seen seen' r g l =
    Ends-and_then (fb_plot_pixel-PaintedAt x y c v) (λ _ t p. read p)
  where
    read :
        {t : Screen}
        → PaintedAt s (λ a b. (x == a) && (y == b)) (λ a b. color_int c) t
        → Returns
            (λ got _. got ≡ (if (x == a) && (y == b) then c else color_of (pixel s a b)))
            (fb_get_pixel a b t)
    read (painted w p) =
        rw (fb_get_pixel-pixel a b (IsValid-words {w = w} v))
          (returns (ground (arith, p.inside a b seen', color_of-color_int c r g l, seen')))
