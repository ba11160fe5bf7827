-- ===== src/Memory/Pmm/State.antt =====
-- The view of the bitmap as one flag for each frame, the invariant of the manager's state, and
-- what setting and clearing one flag does to both.
use rainstorm_os.Base.{
  ℕ, ◌+◌, ◌*◌, ◌/◌, ◌%◌, ◌^◌, ◌≤◌, ◌<◌, ◌≡◌, Bool, true, not, ◌&&◌, ◌||◌, arith, ◌==◌, ltb, refl,
  ◌∷◌,
}
use rainstorm_os.Base.Bytes.{
  bit_set, with_bit, without_bit, bit_set-with_bit, bit_set-without_bit, with_bit-lt,
  without_bit-lt,
}
use rainstorm_os.Memory.Event.{Event}
use rainstorm_os.Memory.Pmm.{Pmm, update}

unfoldable pub allocated : Pmm → ℕ → Bool
allocated s f = bit_set (s.bitmap (f / 8)) (f % 8)

-- The bits above the last frame are never free, so no scan can return them.
pub record IsValid (s : Pmm) : Type 0 where
  pub bytes : (i : ℕ) → s.bitmap i < 256
  pub size : s.bitmap_size ≡ (s.total_frames + 7) / 8
  pub padding : (f : ℕ) → s.total_frames ≤ f → f < s.bitmap_size * 8 → allocated s f ≡ true
  pub fits : s.total_frames < 2 ^ 52

unfoldable pub mark : Pmm → ℕ → Pmm
mark s f = record s { bitmap = update s.bitmap (f / 8) (with_bit (s.bitmap (f / 8)) (f % 8)) }

unfoldable pub clear : Pmm → ℕ → Pmm
clear s f = record s { bitmap = update s.bitmap (f / 8) (without_bit (s.bitmap (f / 8)) (f % 8)) }

module _ {s : Pmm} (v : IsValid s) (f : ℕ) where
  pub allocated-mark : (g : ℕ) → allocated (mark s f) g ≡ ((f == g) || allocated s g)
  unfolding allocated mark
  allocated-mark g =
      ground (arith, bit_set-with_bit (s.bitmap (f / 8)) (f % 8) (g % 8) (v.bytes (f / 8)))

  pub allocated-clear : (g : ℕ) → allocated (clear s f) g ≡ (not (f == g) && allocated s g)
  unfolding allocated clear
  allocated-clear g =
      ground (arith, bit_set-without_bit (s.bitmap (f / 8)) (f % 8) (g % 8) (v.bytes (f / 8)))

  mark-bytes : (i : ℕ) → (mark s f).bitmap i < 256
  unfolding mark
  mark-bytes i = ground (arith, with_bit-lt (s.bitmap (f / 8)) (f % 8), v.bytes i)

  clear-bytes : (i : ℕ) → (clear s f).bitmap i < 256
  unfolding clear
  clear-bytes i = ground (arith, without_bit-lt (s.bitmap (f / 8)) (f % 8), v.bytes i)

  mark-padding :
      (g : ℕ) → s.total_frames ≤ g → g < s.bitmap_size * 8 → allocated (mark s f) g ≡ true
  mark-padding g h k = ground (arith, allocated-mark g, v.padding g h k)

  clear-padding :
      f < s.total_frames
      → (g : ℕ) → s.total_frames ≤ g
      → g < s.bitmap_size * 8
      → allocated (clear s f) g ≡ true
  clear-padding tracked g h k = ground (arith, allocated-clear g, v.padding g h k)

  pub mark-IsValid : IsValid (mark s f)
  unfolding mark
  mark-IsValid = record { bytes = mark-bytes; size = v.size; padding = mark-padding; fits = v.fits }

  pub clear-IsValid : f < s.total_frames → IsValid (clear s f)
  unfolding clear
  clear-IsValid tracked = record {
    bytes = clear-bytes;
    size = v.size;
    padding = clear-padding tracked;
    fits = v.fits;
  }

-- The byte of a tracked frame lies in the bitmap.
pub in_bitmap : {s : Pmm} → IsValid s → (f : ℕ) → f < s.total_frames → f / 8 < s.bitmap_size
in_bitmap v f tracked = omega (arith, v.size)

-- One more entry in the log, and nothing else.
unfoldable pub logged : Pmm → Event → Pmm
logged s e = record s { log = e ∷ s.log }

-- The address is aligned and its frame is tracked.
abbrev pub accepts : Pmm → ℕ → Bool
accepts s addr = (addr % 4096 == 0) && ltb (addr / 4096) s.total_frames

pub logged-IsValid : {s : Pmm} → IsValid s → (e : Event) → IsValid (logged s e)
unfolding logged allocated
logged-IsValid v e = record { bytes = v.bytes; size = v.size; padding = v.padding; fits = v.fits }

pub allocated-logged : (s : Pmm) (e : Event) (g : ℕ) → allocated (logged s e) g ≡ allocated s g
unfolding logged allocated
allocated-logged s e g = refl

pub mark-total : (s : Pmm) (f : ℕ) → (mark s f).total_frames ≡ s.total_frames
unfolding mark
mark-total s f = refl
