-- ===== src/Memory/Pmm/Init/Place.antt =====
-- What `pmm_init` needs of a memory map: the end of the memory, and the region of the bitmap.
use rainstorm_os.Base.{
  ℕ, ◌+◌, ◌/◌, ◌^◌, ◌≤◌, ◌<◌, ◌≡◌, refl, Bool, true, false, not, List, [], ◌∷◌, arith, ltb, u64,
  if◌then◌else◌, ◌⊎◌, inl, inr, Bool-cases,
}
use rainstorm_os.Memory.Pmm.Init.{
  EntryType, Entry, usable, reserved, acpi_reclaimable, acpi_nvs, bad_memory,
  bootloader_reclaimable, executable_and_modules, framebuffer, reserved_mapped, is_usable,
  is_skipped, highest_addr, find_region,
}
use rainstorm_os.Memory.Pmm.Init.Sweep.{FitsAll}

-- The entries of memory that can be read and written back: all but what is reserved, broken or the
-- framebuffer.
abbrev pub is_memory : EntryType → Bool
is_memory usable = true
is_memory reserved = false
is_memory acpi_reclaimable = true
is_memory acpi_nvs = true
is_memory bad_memory = false
is_memory bootloader_reclaimable = true
is_memory executable_and_modules = true
is_memory framebuffer = false
is_memory reserved_mapped = true

-- All such entries end at `h` or before.
abbrev pub AllEndBy : ℕ → List Entry → Type 0
AllEndBy h [] = Unit {0}
AllEndBy h (e ∷ es) = (is_memory e.type ≡ true → e.base + e.length ≤ h) × AllEndBy h es

-- One of them ends at `h`.
abbrev pub OneEndsAt : ℕ → List Entry → Type 0
OneEndsAt h [] = ⊥
OneEndsAt h (e ∷ es) = ((is_memory e.type ≡ true) × (e.base + e.length ≡ h)) ⊎ OneEndsAt h es

-- The memory ends at `h`: at 0 if there is none.
pub record EndsAt (es : List Entry) (h : ℕ) : Type 0 where
  pub by : AllEndBy h es
  pub at : (h ≡ 0) ⊎ OneEndsAt h es

-- The first usable entry of at least `size` bytes.
pub data FirstFit (size : ℕ) : List Entry → Entry → Type 0 where
  first :
      (e : Entry) (es : List Entry) → e.type ≡ usable → size ≤ e.length → FirstFit size (e ∷ es) e
  later :
      (e : Entry) (es : List Entry) (f : Entry)
      → (e.type ≡ usable → e.length < size)
      → FirstFit size es f
      → FirstFit size (e ∷ es) f

-- The number of frames of a memory that ends at `h`, and the size of its bitmap.
abbrev pub frames_of : ℕ → ℕ
frames_of h = (h + 4095) / 4096

abbrev pub size_of : ℕ → ℕ
size_of h = (frames_of h + 7) / 8

skipped-memory : (t : EntryType) → is_skipped t ≡ not (is_memory t)
skipped-memory usable = refl
skipped-memory reserved = refl
skipped-memory acpi_reclaimable = refl
skipped-memory acpi_nvs = refl
skipped-memory bad_memory = refl
skipped-memory bootloader_reclaimable = refl
skipped-memory executable_and_modules = refl
skipped-memory framebuffer = refl
skipped-memory reserved_mapped = refl

is_usable-usable : (t : EntryType) → is_usable t ≡ true → t ≡ usable
is_usable-usable usable h = refl
is_usable-usable reserved h = absurd (ground (arith, h))
is_usable-usable acpi_reclaimable h = absurd (ground (arith, h))
is_usable-usable acpi_nvs h = absurd (ground (arith, h))
is_usable-usable bad_memory h = absurd (ground (arith, h))
is_usable-usable bootloader_reclaimable h = absurd (ground (arith, h))
is_usable-usable executable_and_modules h = absurd (ground (arith, h))
is_usable-usable framebuffer h = absurd (ground (arith, h))
is_usable-usable reserved_mapped h = absurd (ground (arith, h))

highest_addr-le :
    (es : List Entry) (a h : ℕ) → FitsAll es → AllEndBy h es → a ≤ h → highest_addr es a ≤ h
unfolding highest_addr
highest_addr-le [] a h fits by low = low
highest_addr-le (e ∷ es) a h fits by low =
    highest_addr-le es _ h fits.1 by.1 (ground (arith, skipped-memory e.type, by.0, fits.0))

-- The highest address after one round.
abbrev next : Entry → ℕ → ℕ
next e a =
    if is_skipped e.type
    then a
    else let end = u64 (e.base + e.length) in if ltb a end then end else a

le-next : (e : Entry) (a : ℕ) → a ≤ next e a
le-next e a = ground arith

next-memory :
    (e : Entry) (a : ℕ)
    → e.base + e.length < 2 ^ 64
    → is_memory e.type ≡ true
    → e.base + e.length ≤ next e a
next-memory e a fits memory = ground (arith, skipped-memory e.type)

le-highest_addr : (es : List Entry) (a : ℕ) → a ≤ highest_addr es a
unfolding highest_addr
le-highest_addr [] a = omega arith
le-highest_addr (e ∷ es) a = omega (arith, le-next e a, le-highest_addr es (next e a))

highest_addr-OneEndsAt :
    (es : List Entry) (a h : ℕ) → FitsAll es → OneEndsAt h es → h ≤ highest_addr es a
unfolding highest_addr
highest_addr-OneEndsAt [] a h fits never = absurd never
highest_addr-OneEndsAt (e ∷ es) a h fits (inr there) = highest_addr-OneEndsAt es _ h fits.1 there
highest_addr-OneEndsAt (e ∷ es) a h fits (inl (memory, at)) =
    omega (arith, next-memory e a (omega (arith, fits.0)) memory, le-highest_addr es (next e a), at)

pub highest_addr-EndsAt :
    (es : List Entry) (h : ℕ) → FitsAll es → EndsAt es h → highest_addr es 0 ≡ h
highest_addr-EndsAt es h fits ends = elim ends.at [
  | inl none ↦ omega (arith, highest_addr-le es 0 h fits ends.by (omega arith))
  | inr one ↦ omega (
    arith,
    highest_addr-le es 0 h fits ends.by (omega arith),
    highest_addr-OneEndsAt es 0 h fits one,
  )
]

pub find_region-FirstFit :
    (size : ℕ) {es : List Entry} {e : Entry} → FirstFit size es e → find_region size es ≡ e.base
unfolding find_region
find_region-FirstFit size (first e es at fits) = rw at (ground (arith, fits))
find_region-FirstFit size (later e es f small rest) = elim (Bool-cases (is_usable e.type)) [
  | inr skip ↦ rw skip (find_region-FirstFit size rest)
  | inl use_it ↦
      let short = small (is_usable-usable e.type use_it) in
      ground (arith, use_it, short, find_region-FirstFit size rest)
]
