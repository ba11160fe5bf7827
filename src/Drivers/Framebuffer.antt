-- ===== src/Drivers/Framebuffer.antt =====
-- src/drivers/screen/framebuffer.c. The state has the driver's framebuffer and the memory behind it:
-- its 32-bit words by their address, and the bounds of the object that the pixels lie in; an access
-- outside it is a fault.
pub mod Visible
pub mod Paint
pub mod Plot
pub mod Image
mod Tests
use rainstorm_os.Base.{
  ℕ, zero, suc, ◌+◌, ◌-◌, ◌*◌, ◌/◌, ◌^◌, bit_and, bit_or, Bool, true, false, not, ◌&&◌, ◌||◌,
  Option, none, some, u8, u32, u64, ◌<<<◌, ◌>>>◌, ltb, leb, ◌==◌, if◌then◌else◌, Run, ok, fault,
  Cmd, pure, get, ◌>>=◌, ◌>>◌,
}

-- framebuffer_t
pub record Framebuffer : Type 0 where
  pub address : ℕ
  pub width : ℕ
  pub height : ℕ
  pub pitch : ℕ
  pub is_ready : Bool

pub record FbColor : Type 0 where
  pub red : ℕ
  pub green : ℕ
  pub blue : ℕ

pub record Screen : Type 0 where
  pub framebuffer : Framebuffer
  pub word : ℕ → ℕ
  pub object_start : ℕ
  pub object_end : ℕ

-- An array of pixels that the caller hands over.
pub record Pixels : Type 0 where
  pub size : ℕ
  pub at : ℕ → ℕ

pub load : ℕ → Cmd Screen ℕ
load p s = if leb s.object_start p && leb (p + 4) s.object_end then ok (s.word p) s else fault

abbrev pub set_word : (ℕ → ℕ) → ℕ → ℕ → ℕ → ℕ
set_word w a v b = if a == b then v else w b

pub store : ℕ → ℕ → Cmd Screen (Unit {0})
store p v s =
    if leb s.object_start p && leb (p + 4) s.object_end
    then ok tt (record s { word = set_word s.word p v })
    else fault

abbrev pub red_bits : ℕ → ℕ
red_bits r = u32 (bit_and r 0xFF <<< 16)

abbrev pub green_bits : ℕ → ℕ
green_bits g = u32 (bit_and g 0xFF <<< 8)

abbrev pub blue_bits : ℕ → ℕ
blue_bits b = bit_and b 0xFF

abbrev pub get_red : ℕ → ℕ
get_red px = bit_and (px >>> 16) 0xFF

abbrev pub get_green : ℕ → ℕ
get_green px = bit_and (px >>> 8) 0xFF

abbrev pub get_blue : ℕ → ℕ
get_blue px = bit_and px 0xFF

unfoldable pub color_int : FbColor → ℕ
color_int c = bit_or (bit_or (red_bits c.red) (green_bits c.green)) (blue_bits c.blue)

abbrev pub black : FbColor
black = record { red = 0; green = 0; blue = 0 }

-- `&framebuffer.address[y * (framebuffer.pitch / 4) + x]`, in 64 bits
unfoldable pub pixel_address : Framebuffer → (x y : ℕ) → ℕ
pixel_address fb x y = u64 (fb.address + 4 * u64 (u64 (y * (fb.pitch / 4)) + x))

unfoldable pub fb_init : Framebuffer → Cmd Screen (Unit {0})
fb_init fb s = ok tt (record s {
  framebuffer = record {
    address = fb.address;
    height = fb.height;
    width = fb.width;
    pitch = fb.pitch;
    is_ready = true;
  };
})

pub clear_row : ℕ → (color x y : ℕ) → Cmd Screen (Unit {0})
clear_row zero color x y = pure tt
clear_row (suc left) color x y = do
  s ← get
  store (pixel_address s.framebuffer x y) color
  clear_row left color (x + 1) y

pub clear_rows : ℕ → (color y : ℕ) → Cmd Screen (Unit {0})
clear_rows zero color y = pure tt
clear_rows (suc left) color y = do
  s ← get
  clear_row s.framebuffer.width color 0 y
  clear_rows left color (y + 1)

pub fb_clear_screen : FbColor → Cmd Screen (Unit {0})
fb_clear_screen clear_color s =
    if not s.framebuffer.is_ready
    then ok tt s
    else clear_rows s.framebuffer.height (color_int clear_color) 0 s

-- One pixel of an image, at `col` and `row` of it; a pixel without alpha is left out.
pub draw_pixel : (x y width : ℕ) → Pixels → (row col : ℕ) → Cmd Screen (Unit {0})
draw_pixel x y width pixels row col s =
    let i = u32 (u32 (row * width) + col) in
    if ltb i pixels.size
    then (let pixel = pixels.at i in
        if u8 (bit_and (pixel >>> 24) 0xFF) == 0
        then ok tt s
        else store (pixel_address s.framebuffer (u32 (x + col)) (u32 (y + row)))
            (bit_and pixel 0x00FFFFFF) s)
    else fault

pub draw_row : ℕ → (x y width : ℕ) → Pixels → (row col : ℕ) → Cmd Screen (Unit {0})
draw_row zero x y width pixels row col = pure tt
draw_row (suc left) x y width pixels row col = do
  draw_pixel x y width pixels row col
  draw_row left x y width pixels row (col + 1)

pub draw_rows : ℕ → (draw_width x y width : ℕ) → Pixels → (row : ℕ) → Cmd Screen (Unit {0})
draw_rows zero draw_width x y width pixels row = pure tt
draw_rows (suc left) draw_width x y width pixels row = do
  draw_row draw_width x y width pixels row 0
  draw_rows left draw_width x y width pixels (row + 1)

-- How much of `extent` from `from` on is drawn on a side of length `limit`.
unfoldable pub clipped : (from extent limit : ℕ) → ℕ
clipped from extent limit = u32 (if ltb limit (u32 (from + extent)) then limit - from else extent)

pub fb_draw_image : (x y width height : ℕ) → Option Pixels → Cmd Screen (Unit {0})
fb_draw_image x y width height none s = ok tt s
fb_draw_image x y width height (some pixels) s =
    if not s.framebuffer.is_ready
    then ok tt s
    else if leb s.framebuffer.width x
    then ok tt s
    else if leb s.framebuffer.height y
    then ok tt s
    else draw_rows (clipped y height s.framebuffer.height) (clipped x width s.framebuffer.width) x y
        width pixels 0 s

pub fb_plot_pixel : (x y : ℕ) → FbColor → Cmd Screen (Unit {0})
fb_plot_pixel x y color s =
    if not s.framebuffer.is_ready
    then ok tt s
    else if leb s.framebuffer.width x
    then ok tt s
    else if leb s.framebuffer.height y
    then ok tt s
    else store (pixel_address s.framebuffer x y) (color_int color) s

pub fb_get_pixel : (x y : ℕ) → Cmd Screen FbColor
fb_get_pixel x y s =
    if not s.framebuffer.is_ready
    then ok black s
    else if leb s.framebuffer.width x
    then ok black s
    else if leb s.framebuffer.height y
    then ok black s
    else (do
      color ← load (pixel_address s.framebuffer x y)
      pure (record { red = get_red color; green = get_green color; blue = get_blue color }))
        s
