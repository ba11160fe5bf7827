-- ===== src/Drivers/Framebuffer/Tests.antt =====
-- The framebuffer's theorems on a screen of three by two pixels, its rows sixteen bytes apart.
use rainstorm_os.Base.{◌*◌, ◌≡◌, refl, true, ◌&&◌, arith, some, ◌==◌, if◌then◌else◌, Returns, ◌>>◌}
use rainstorm_os.Drivers.Framebuffer.{
  FbColor, Screen, Pixels, color_int, fb_clear_screen, fb_draw_image, fb_plot_pixel, fb_get_pixel,
}
use rainstorm_os.Drivers.Framebuffer.Visible.{IsValid, pixel}
use rainstorm_os.Drivers.Framebuffer.Paint.{PaintedAt, fb_clear_screen-PaintedAt}
use rainstorm_os.Drivers.Framebuffer.Plot.{color_of, fb_get_pixel-fb_plot_pixel}
use rainstorm_os.Drivers.Framebuffer.Image.{shown, new_pixel}
use rainstorm_os.Drivers.Framebuffer.Image.Draw.{fb_draw_image-PaintedAt}

abbrev small : Screen
small = record {
  framebuffer = record { address = 0x1000; width = 3; height = 2; pitch = 16; is_ready = true };
  word = λ p. p;
  object_start = 0x1000;
  object_end = 0x1020;
}

small-IsValid : IsValid small
small-IsValid = record {
  ready = refl;
  stride = omega arith;
  starts = omega arith;
  ends = omega arith;
  in_memory = omega arith;
  narrow = omega arith;
  low = omega arith;
}

abbrev teal : FbColor
teal = record { red = 1; green = 128; blue = 127 }

-- Two by two pixels, the first without alpha.
abbrev checkers : Pixels
checkers = record { size = 4; at = λ i. i * 0x01000001 }

fb_clear_screen-PaintedAt_example :
    Returns
      (λ _ t. PaintedAt small (λ a b. true) (λ a b. color_int teal) t)
      (fb_clear_screen teal small)
fb_clear_screen-PaintedAt_example = fb_clear_screen-PaintedAt teal small-IsValid

fb_get_pixel-fb_plot_pixel_example :
    Returns
      (λ got _. got ≡ (if (2 == 2) && (1 == 1) then teal else color_of (pixel small 2 1)))
      ((fb_plot_pixel 2 1 teal >> fb_get_pixel 2 1) small)
fb_get_pixel-fb_plot_pixel_example =
    fb_get_pixel-fb_plot_pixel 2 1 2 1 teal small-IsValid (omega arith) (omega arith) (omega arith)
      (omega arith) (omega arith)

fb_draw_image-PaintedAt_example :
    Returns
      (λ _ t. PaintedAt small (shown 2 0 2 2 checkers) (new_pixel 2 0 2 2 checkers) t)
      (fb_draw_image 2 0 2 2 (some checkers) small)
fb_draw_image-PaintedAt_example =
    fb_draw_image-PaintedAt 2 0 2 2 checkers small-IsValid (omega arith) (omega arith) (omega arith)
      (omega arith)
