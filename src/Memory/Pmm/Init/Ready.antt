-- ===== src/Memory/Pmm/Init/Ready.antt =====
-- What `pmm_init` leaves behind.
use rainstorm_os.Base.{
  ℕ, ◌+◌, ◌*◌, ◌/◌, ◌%◌, ◌^◌, ◌≤◌, ◌<◌, ◌≡◌, ◌≢◌, refl, true, false, not, ◌||◌, List, [], ◌∷◌,
  arith, ◌==◌, u64, Returns, returns, Ends-and_then, panic, ◌∙◌, ap,
}
use rainstorm_os.Base.Bytes.{bit_set_full}
use rainstorm_os.Memory.Mm.{page_count, page_count_eq}
use rainstorm_os.Memory.Event.{Event}
use rainstorm_os.Memory.Pmm.{Pmm, klog, bitmap_size_from_frames}
use rainstorm_os.Memory.Pmm.State.{allocated, IsValid, logged, logged-IsValid, allocated-logged}
use rainstorm_os.Memory.Pmm.Init.{
  Entry, highest_addr, find_region, sized, placed, mark_bitmap, pmm_init,
}
use rainstorm_os.Memory.Pmm.Init.Sweep.{
  IsSwept, usable_frame, FitsAll, free_regions-IsSwept, IsReserved, bitmap_frame,
  mark_bitmap-IsReserved,
}
use rainstorm_os.Memory.Pmm.Init.Place.{
  EndsAt, FirstFit, first, later, frames_of, size_of, highest_addr-EndsAt, find_region-FirstFit,
}
use rainstorm_os.Utils.Memory.{Mem}
use rainstorm_os.Utils.Memory.Laws.{memset_lem}

highest_addr-bounded :
    (es : List Entry) (a : ℕ) → FitsAll es → a + 4096 ≤ 2 ^ 64 → highest_addr es a + 4096 ≤ 2 ^ 64
unfolding highest_addr
highest_addr-bounded [] a fits small = small
highest_addr-bounded (e ∷ es) a fits small = highest_addr-bounded es _ fits.1 (ground arith)

-- The sizes that the code computes.
module _ {es : List Entry} {h : ℕ} (fits : FitsAll es) (ends : EndsAt es h) where
  frames_of-lt : frames_of h < 2 ^ 52
  frames_of-lt =
      omega
        (arith, highest_addr-bounded es 0 fits (omega arith), highest_addr-EndsAt es h fits ends)

  frames_eq : page_count (highest_addr es 0) ≡ frames_of h
  frames_eq =
      ap page_count (highest_addr-EndsAt es h fits ends)
      ∙ page_count_eq h (
          omega (
            arith,
            highest_addr-bounded es 0 fits (omega arith),
            highest_addr-EndsAt es h fits ends,
          ))

  size_eq : bitmap_size_from_frames (page_count (highest_addr es 0)) ≡ size_of h
  unfolding bitmap_size_from_frames
  size_eq = omega (arith, frames_eq, frames_of-lt)

module _ {es : List Entry} {h : ℕ} (fits : FitsAll es) (ends : EndsAt es h) (hhdm_offset start : ℕ)
    (ram : Mem) (s : Pmm) where
  placed-byte : (i : ℕ) → i < size_of h → (placed es hhdm_offset start ram s).bitmap i ≡ 0xff
  unfolding placed
  placed-byte i k =
      let virt = u64 (start + hhdm_offset) in
      rw (size_eq fits ends) (ground (arith, memset_lem virt 0xff (size_of h) ram (virt + i)))

  placed-bytes :
      ((a : ℕ) → ram a < 256) → (i : ℕ) → (placed es hhdm_offset start ram s).bitmap i < 256
  unfolding placed
  placed-bytes bytes i =
      let virt = u64 (start + hhdm_offset) in
      rw (size_eq fits ends)
        (ground (arith, memset_lem virt 0xff (size_of h) ram (virt + i), bytes (virt + i)))

  placed-full : (g : ℕ) → g < size_of h * 8 → allocated (placed es hhdm_offset start ram s) g ≡ true
  unfolding allocated
  placed-full g k = rw (placed-byte (g / 8) (omega arith)) (bit_set_full (g % 8) (omega arith))

  placed-total : (placed es hhdm_offset start ram s).total_frames ≡ frames_of h
  unfolding placed
  placed-total = frames_eq fits ends

  placed-size : (placed es hhdm_offset start ram s).bitmap_size ≡ size_of h
  unfolding placed
  placed-size = size_eq fits ends

  placed-IsValid : ((a : ℕ) → ram a < 256) → IsValid (placed es hhdm_offset start ram s)
  placed-IsValid bytes = record {
    bytes = placed-bytes bytes;
    size = rw (placed-size, placed-total) refl;
    padding = λ g k l. placed-full g (rw placed-size at l);
    fits = rw placed-total (frames_of-lt fits ends);
  }

-- `t` is ready for use: it tracks the frames up to the end `h` of the memory, its bitmap is at the
-- address `start` of the direct map, and exactly the tracked frames of the usable regions are free, less
-- those that hold the bitmap.
pub record IsReady (es : List Entry) (h start hhdm_offset : ℕ) (t : Pmm) : Type 0 where
  pub valid : IsValid t
  pub total : t.total_frames ≡ frames_of h
  pub offset : t.hhdm_offset ≡ hhdm_offset
  pub place : t.bitmap_start ≡ (start + hhdm_offset) % 2 ^ 64
  pub frames :
      (g : ℕ)
      → g < frames_of h
      → allocated t g
        ≡ (bitmap_frame (start / 4096) 0 (frames_of (size_of h)) g || not (usable_frame es g))

logged-IsReady :
    {es : List Entry} {h start hhdm_offset : ℕ} {t : Pmm}
    → IsReady es h start hhdm_offset t
    → (e : Event) → IsReady es h start hhdm_offset (logged t e)
logged-IsReady {t} r e = record {
  valid = logged-IsValid r.valid e;
  total = unfold logged in r.total;
  offset = unfold logged in r.offset;
  place = unfold logged in r.place;
  frames = λ g k. allocated-logged t e g ∙ r.frames g k;
}

-- The region of the bitmap does not wrap around.
FirstFit-bounded :
    (size : ℕ) {es : List Entry} {e : Entry}
    → FirstFit size es e
    → FitsAll es
    → e.base + size + 4096 ≤ 2 ^ 64
FirstFit-bounded size (first e es at fits) bounded = omega (arith, fits, bounded.0)
FirstFit-bounded size (later e es f small rest) bounded = FirstFit-bounded size rest bounded.1

mark_bitmap-aligned :
    (n left start q : ℕ) {s : Pmm}
    → IsValid s
    → n ≡ left
    → start ≡ q * 4096
    → q + left ≤ 2 ^ 52
    → Returns (λ _ t. IsReserved s (bitmap_frame q 0 left) t) (mark_bitmap n start 0 s)
mark_bitmap-aligned n left start q v e e' fits =
    rw (e, e') (mark_bitmap-IsReserved left q 0 v (omega arith))

-- Sweeping and then reserving gives the state that is wanted.
IsReady-join :
    {es : List Entry} {h start : ℕ} {p t u : Pmm}
    → p.total_frames ≡ frames_of h
    → p.bitmap_start ≡ (start + p.hhdm_offset) % 2 ^ 64
    → ((g : ℕ) → g < frames_of h → allocated p g ≡ true)
    → IsSwept p (usable_frame es) t
    → IsReserved t (bitmap_frame (start / 4096) 0 (frames_of (size_of h))) u
    → IsReady es h start p.hhdm_offset u
IsReady-join {es} total at full swept marked = record {
  valid = marked.valid;
  total = marked.total ∙ (swept.total ∙ total);
  offset = marked.offset ∙ swept.offset;
  place = marked.start ∙ (swept.start ∙ at);
  frames = λ g k. ground (arith, marked.frames g, swept.frames g, full g k, total, swept.total);
}

-- For a memory of bytes and a memory map whose addresses do not wrap around, in which the entries
-- that are not reserved, bad or a framebuffer end at `h`, and whose first usable entry with room for
-- one bit for each frame up to `h` is `e`, aligned and not at 0: `pmm_init` returns. The state is valid, has the
-- offset of the direct map that it was given, tracks every frame up to `h` and no other, and has its
-- bitmap at the start of `e` in the direct map; a tracked frame is free exactly if a usable region
-- covers it and it holds no part of the bitmap.
pub pmm_init-IsReady :
    (es : List Entry) (hhdm_offset : ℕ) (ram : Mem) (s : Pmm)
    → FitsAll es
    → ((a : ℕ) → ram a < 256)
    → (h : ℕ) → EndsAt es h
    → (e : Entry) → FirstFit (size_of h) es e
    → e.base ≢ 0
    → e.base % 4096 ≡ 0
    → Returns (λ _ t. IsReady es h e.base hhdm_offset t) (pmm_init es hhdm_offset ram s)
unfolding pmm_init klog logged placed sized
pmm_init-IsReady es hhdm_offset ram s fits bytes h ends e room nonzero aligned =
    let region : find_region (bitmap_size_from_frames (page_count (highest_addr es 0))) es
        ≡ e.base =
      ap (λ n. find_region n es) (size_eq fits ends) ∙ find_region-FirstFit (size_of h) room in
    let found : (e.base == 0) ≡ false = ground arith in
    let p = placed es hhdm_offset e.base ram s in
    let v = placed-IsValid fits ends hhdm_offset e.base ram s bytes in
    let small = FirstFit-bounded (size_of h) room fits in
    let count = page_count_eq (size_of h) (omega (arith, frames_of-lt fits ends)) in
    rw (region, found)
      (Ends-and_then (free_regions-IsSwept es v fits) (λ _ t swept.
        let size : t.bitmap_size ≡ size_of h =
          swept.size ∙ placed-size fits ends hhdm_offset e.base ram s in
        Ends-and_then
          (mark_bitmap-aligned (page_count t.bitmap_size) (frames_of (size_of h)) e.base
            (e.base / 4096) swept.valid (ap page_count size ∙ count) (omega arith)
            (omega (arith, small)))
          (λ _ u marked. returns (
            logged-IsReady
              (logged-IsReady
                (IsReady-join {p = p} (placed-total fits ends hhdm_offset e.base ram s) refl
                  (λ g k. placed-full fits ends hhdm_offset e.base ram s g (omega (arith, k))) swept
                  marked)
                _)
              _))))

-- If no usable region holds the bitmap, or the first that does starts at address 0, `pmm_init`
-- panics, and no frame is given out.
pub pmm_init_panics :
    (es : List Entry) (hhdm_offset : ℕ) (ram : Mem) (s : Pmm)
    → find_region (bitmap_size_from_frames (page_count (highest_addr es 0))) es ≡ 0
    → pmm_init es hhdm_offset ram s
      ≡ panic "pmm_init: No usable region found for bitmap" (sized es hhdm_offset s)
unfolding pmm_init
pmm_init_panics es hhdm_offset ram s none = rw none
