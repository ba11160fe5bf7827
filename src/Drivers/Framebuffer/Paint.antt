-- ===== src/Drivers/Framebuffer/Paint.antt =====
-- What a drawing operation leaves: some visible pixels have their new values, and every other word
-- of memory is as before.
use rainstorm_os.Base.{
  ℕ, zero, suc, ◌+◌, ◌<◌, ◌≡◌, ◌≢◌, refl, Bool, true, false, ◌&&◌, ◌||◌, arith, ltb, ◌==◌,
  if◌then◌else◌, ok, Returns, returns, Ends-and_then, Ends-mono, ◌⊎◌, inl, inr,
}
use rainstorm_os.Drivers.Framebuffer.{
  FbColor, Screen, pixel_address, color_int, set_word, store, clear_row, clear_rows,
  fb_clear_screen,
}
use rainstorm_os.Drivers.Framebuffer.Visible.{
  IsValid, IsVisible, place, pixel, pixel_address_eq, place-in_object, place-step,
}

-- The words `w` are those of `s` with the pixels that `done` says set to what `new` says.
pub record Painted (s : Screen) (w : ℕ → ℕ) (done : ℕ → ℕ → Bool) (new : ℕ → ℕ → ℕ) : Type 0 where
  pub inside :
      (a b : ℕ)
      → IsVisible s.framebuffer a b
      → w (place s.framebuffer a b) ≡ (if done a b then new a b else pixel s a b)
  pub outside :
      (p : ℕ)
      → ((a b : ℕ) → IsVisible s.framebuffer a b → place s.framebuffer a b ≢ p)
      → w p ≡ s.word p

-- The screen `s` after such a change, the driver's own state as it was.
pub data PaintedAt (s : Screen) (done : ℕ → ℕ → Bool) (new : ℕ → ℕ → ℕ) : Screen → Type 0 where
  painted : (w : ℕ → ℕ) → Painted s w done new → PaintedAt s done new (record s { word = w })

module _ {s : Screen} (v : IsValid s) {w : ℕ → ℕ} {done : ℕ → ℕ → Bool} {new : ℕ → ℕ → ℕ} where
  pub Painted-same :
      {done' : ℕ → ℕ → Bool}
      → Painted s w done new
      → ((a b : ℕ) → IsVisible s.framebuffer a b → done' a b ≡ done a b)
      → Painted s w done' new
  Painted-same p same = record {
    inside = λ a b h. rw (same a b h) (p.inside a b h);
    outside = p.outside;
  }

  pub Painted-store :
      (x y : ℕ)
      → IsVisible s.framebuffer x y
      → Painted s w done new
      → Painted s
          (set_word w (place s.framebuffer x y) (new x y))
          (λ a b. ((x == a) && (y == b)) || done a b)
          new
  Painted-store x y h p = record {
    inside = λ a b k. rw (place-step x y a b v h k) (ground (arith, p.inside a b k));
    outside = λ q none. ground (arith, none x y h, p.outside q none);
  }

  -- A pixel that keeps its value counts as done.
  pub Painted-skip :
      (x y : ℕ)
      → new x y ≡ pixel s x y
      → Painted s w done new
      → Painted s w (λ a b. ((x == a) && (y == b)) || done a b) new
  Painted-skip x y e p = record {
    inside = λ a b k. ground (arith, p.inside a b k, e);
    outside = p.outside;
  }

pub store_eq :
    {s : Screen} (x y value : ℕ) (w : ℕ → ℕ)
    → IsValid s
    → IsVisible s.framebuffer x y
    → store (pixel_address s.framebuffer x y) value (record s { word = w })
      ≡ ok tt (record s { word = set_word w (place s.framebuffer x y) value })
unfolding store
store_eq {s} x y value w v h =
    rw (pixel_address_eq x y v h) (ground (arith, place-in_object x y v h))

pub untouched-Painted : (s : Screen) (new : ℕ → ℕ → ℕ) → Painted s s.word (λ a b. false) new
untouched-Painted s new = record { inside = λ a b h. refl; outside = λ p none. refl }

-- The pixels before column `x` of row `y`, row by row.
abbrev pub before : (x y a b : ℕ) → Bool
before x y a b = ltb b y || ((b == y) && ltb a x)

module _ {s : Screen} (v : IsValid s) (color : ℕ) where
  abbrev Cleared : (x y : ℕ) → Unit {0} → Screen → Type 0
  Cleared x y _ t = PaintedAt s (before x y) (λ a b. color) t

  clear_row-Cleared :
      (left x y : ℕ) (w : ℕ → ℕ)
      → left + x ≡ s.framebuffer.width
      → y < s.framebuffer.height
      → Painted s w (before x y) (λ a b. color)
      → Returns (Cleared 0 (y + 1)) (clear_row left color x y (record s { word = w }))
  unfolding clear_row
  clear_row-Cleared zero x y w e h p =
      returns (painted w (Painted-same v p (λ a b k. ground arith)))
  clear_row-Cleared (suc left) x y w e h p = rw (store_eq x y color w v (omega arith, h)) (
      clear_row-Cleared left (x + 1) y _ (omega arith) h
        (Painted-same v (Painted-store v x y (omega arith, h) p) (λ a b k. ground arith)))

  clear_rows-Cleared :
      (left y : ℕ) {t : Screen}
      → left + y ≡ s.framebuffer.height
      → Cleared 0 y tt t
      → Returns (Cleared 0 s.framebuffer.height) (clear_rows left color y t)
  unfolding clear_rows
  clear_rows-Cleared zero y e (painted w p) =
      returns (painted w (Painted-same v p (λ a b k. ground arith)))
  clear_rows-Cleared (suc left) y e (painted w p) =
      Ends-and_then (clear_row-Cleared s.framebuffer.width 0 y w (omega arith) (omega arith) p)
        (λ _ t c. clear_rows-Cleared left (y + 1) (omega arith) c)

-- On a valid screen `fb_clear_screen` returns with every visible pixel of the colour, and no other
-- word of memory changed.
pub fb_clear_screen-PaintedAt :
    {s : Screen} (c : FbColor)
    → IsValid s
    → Returns (λ _ t. PaintedAt s (λ a b. true) (λ a b. color_int c) t) (fb_clear_screen c s)
unfolding fb_clear_screen
fb_clear_screen-PaintedAt {s} c v = simp v.ready (
    Ends-mono
      (clear_rows-Cleared v (color_int c) s.framebuffer.height 0 (omega arith) (
        painted s.word
          (Painted-same v (untouched-Painted s (λ a b. color_int c)) (λ a b k. ground arith))))
      (λ _ t c. all_done c) (λ _ _ never. never))
  where
    all_done :
        {t : Screen}
        → Cleared v (color_int c) 0 s.framebuffer.height tt t
        → PaintedAt s (λ a b. true) (λ a b. color_int c) t
    all_done (painted w p) = painted w (Painted-same v p (λ a b k. ground arith))

-- What `fb_clear_screen` leaves, be there a screen or not.
pub data ClearedScreen (s : Screen) (c : FbColor) : Screen → Type 0 where
  all_painted :
      {t : Screen} → PaintedAt s (λ a b. true) (λ a b. color_int c) t → ClearedScreen s c t
  no_screen : s.framebuffer.is_ready ≡ false → ClearedScreen s c s

pub fb_clear_screen-ClearedScreen :
    {s : Screen} (c : FbColor)
    → (IsValid s) ⊎ (s.framebuffer.is_ready ≡ false)
    → Returns (λ _ t. ClearedScreen s c t) (fb_clear_screen c s)
unfolding fb_clear_screen
fb_clear_screen-ClearedScreen c (inl v) =
    Ends-mono (fb_clear_screen-PaintedAt c v) (λ _ t p. all_painted p) (λ _ _ never. never)
fb_clear_screen-ClearedScreen c (inr off) = simp off (returns (no_screen off))
