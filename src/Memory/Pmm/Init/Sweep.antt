-- ===== src/Memory/Pmm/Init/Sweep.antt =====
-- The two loops of `pmm_init` that clear and set flags, as what they do to every flag.
use rainstorm_os.Base.{
  ℕ, zero, suc, ◌+◌, ◌*◌, ◌/◌, ◌%◌, ◌^◌, ◌≤◌, ◌<◌, ◌≡◌, refl, Bool, false, not, ◌&&◌, ◌||◌, List,
  [], ◌∷◌, arith, ltb, leb, ◌==◌, if◌then◌else◌, u64, Returns, returns, Ends-and_then, Ends-mono,
  Bool-cases, inl, inr, ltb→lt, ok, ◌∙◌,
}
use rainstorm_os.Memory.Pmm.{Pmm}
use rainstorm_os.Memory.Pmm.State.{allocated, IsValid}
use rainstorm_os.Memory.Pmm.Free.{
  freed, free_frame-freed, allocated-freed, freed-total, freed-size, freed-offset, freed-start,
  freed-IsValid,
}
use rainstorm_os.Memory.Pmm.Marks.{
  mark_allocated-marked, allocated-marked, marked-total, marked-offset, marked-start,
  marked-IsValid,
}
use rainstorm_os.Memory.Pmm.Init.{Entry, is_usable, free_region, free_regions, mark_bitmap}

-- `t` is `s` with the tracked frames of `p` free.
pub record IsSwept (s : Pmm) (p : ℕ → Bool) (t : Pmm) : Type 0 where
  pub valid : IsValid t
  pub total : t.total_frames ≡ s.total_frames
  pub size : t.bitmap_size ≡ s.bitmap_size
  pub offset : t.hhdm_offset ≡ s.hhdm_offset
  pub start : t.bitmap_start ≡ s.bitmap_start
  pub frames : (g : ℕ) → allocated t g ≡ (allocated s g && not (p g && ltb g s.total_frames))

module _ {s t u : Pmm} (p q r : ℕ → Bool) where
  IsSwept-trans : IsSwept s p t → IsSwept t q u → ((g : ℕ) → r g ≡ (p g || q g)) → IsSwept s r u
  IsSwept-trans a b e = record {
    valid = b.valid;
    total = omega (arith, a.total, b.total);
    size = omega (arith, a.size, b.size);
    offset = b.offset ∙ a.offset;
    start = b.start ∙ a.start;
    frames = λ g. ground (arith, a.frames g, b.frames g, a.total, e g);
  }

IsSwept-eq : {s t : Pmm} (p q : ℕ → Bool) → IsSwept s p t → ((g : ℕ) → q g ≡ p g) → IsSwept s q t
IsSwept-eq p q a e = record {
  valid = a.valid;
  total = a.total;
  size = a.size;
  offset = a.offset;
  start = a.start;
  frames = λ g. ground (arith, a.frames g, e g);
}

IsSwept-none : {s : Pmm} (p : ℕ → Bool) → IsValid s → ((g : ℕ) → p g ≡ false) → IsSwept s p s
IsSwept-none p v e = record {
  valid = v;
  total = refl;
  size = refl;
  offset = refl;
  start = refl;
  frames = λ g. ground (arith, e g);
}

IsSwept-freed :
    {s : Pmm} (addr : ℕ)
    → IsValid s
    → IsSwept s (λ g. (addr % 4096 == 0) && (addr / 4096 == g)) (freed s addr)
IsSwept-freed {s} addr v = record {
  valid = freed-IsValid v addr;
  total = freed-total v addr;
  size = freed-size v addr;
  offset = freed-offset v addr;
  start = freed-start v addr;
  frames = λ g. ground (arith, allocated-freed v addr g);
}

-- The frames of a region from offset `j` on; none if the region is not aligned.
abbrev pub covers_from : (base length j g : ℕ) → Bool
covers_from base length j g =
    (base % 4096 == 0) && (leb (base + j) (g * 4096) && ltb (g * 4096) (base + length))

covers_step :
    (base length j : ℕ)
    → base + length + 4096 ≤ 2 ^ 64
    → j % 4096 ≡ 0
    → j < length
    → (g : ℕ)
    → covers_from base length j g ≡ (
        (u64 (base + j) % 4096 == 0) && (u64 (base + j) / 4096 == g)
        || covers_from base length (u64 (j + 4096)) g)
covers_step base length j fits al more g =
    let e : u64 (base + j) ≡ base + j = omega arith in
    let e' : u64 (j + 4096) ≡ j + 4096 = omega arith in rw (e, e') (ground arith)

free_region-IsSwept :
    (fuel base length j : ℕ) {s : Pmm}
    → IsValid s
    → base + length + 4096 ≤ 2 ^ 64
    → j % 4096 ≡ 0
    → j < length + 4096
    → length + 4096 ≤ j + fuel * 4096
    → Returns (λ _ t. IsSwept s (covers_from base length j) t) (free_region fuel base length j s)
unfolding free_region
free_region-IsSwept zero base length j v fits al near fuel = absurd (omega arith)
free_region-IsSwept (suc n) base length j {s} v fits al near fuel =
    elim (Bool-cases (ltb j length)) [
      | inr over ↦
          rw over (returns (IsSwept-none (covers_from base length j) v (λ g. ground (arith, over))))
      | inl more ↦
          rw (more, free_frame-freed v (u64 (base + j)))
            (Ends-mono
              (free_region-IsSwept n base length (u64 (j + 4096)) (freed-IsValid v (u64 (base + j)))
                fits (omega arith) (omega (arith, ltb→lt j length more))
                (omega (arith, ltb→lt j length more)))
              (λ _ t rest.
                IsSwept-trans (λ g. (u64 (base + j) % 4096 == 0) && (u64 (base + j) / 4096 == g))
                  (covers_from base length (u64 (j + 4096))) (covers_from base length j)
                  (IsSwept-freed (u64 (base + j)) v) rest
                  (covers_step base length j fits al (ltb→lt j length more)))
              (λ _ _ h. h))
    ]

abbrev pub covers : Entry → ℕ → Bool
covers e g = is_usable e.type && covers_from e.base e.length 0 g

-- Some usable region covers the whole frame.
abbrev pub usable_frame : List Entry → ℕ → Bool
usable_frame [] g = false
usable_frame (e ∷ es) g = covers e g || usable_frame es g

-- Addresses in the map do not wrap around.
abbrev pub FitsAll : List Entry → Type 0
FitsAll [] = Unit {0}
FitsAll (e ∷ es) = (e.base + e.length + 4096 ≤ 2 ^ 64) × FitsAll es

free_entry-IsSwept :
    (e : Entry) {s : Pmm}
    → IsValid s
    → e.base + e.length + 4096 ≤ 2 ^ 64
    → Returns
        (λ _ t. IsSwept s (covers e) t)
        ((if is_usable e.type
            then free_region (e.length / 4096 + 2) e.base e.length 0
            else (λ t. ok tt t))
          s)
free_entry-IsSwept e {s} v fits = elim (Bool-cases (is_usable e.type)) [
  | inr skip ↦ rw skip (returns (IsSwept-none (covers e) v (λ g. ground (arith, skip))))
  | inl use_it ↦ rw use_it (
      Ends-mono
        (free_region-IsSwept (e.length / 4096 + 2) e.base e.length 0 v fits (omega arith)
          (omega arith) (omega arith))
        (λ _ t swept.
          IsSwept-eq (covers_from e.base e.length 0) (covers e) swept (λ g. ground (arith, use_it)))
        (λ _ _ h. h))
]

pub free_regions-IsSwept :
    (es : List Entry) {s : Pmm}
    → IsValid s
    → FitsAll es
    → Returns (λ _ t. IsSwept s (usable_frame es) t) (free_regions es s)
unfolding free_regions
free_regions-IsSwept [] v fits = returns (IsSwept-none (λ _. false) v (λ g. refl))
free_regions-IsSwept (e ∷ es) {s} v fits =
    Ends-and_then (free_entry-IsSwept e v fits.0) (λ _ t here.
      Ends-mono (free_regions-IsSwept es here.valid fits.1)
        (λ _ u there.
          IsSwept-trans (covers e) (usable_frame es) (usable_frame (e ∷ es)) here there (λ g. refl))
        (λ _ _ h. h))

-- `t` is `s` with the tracked frames of `p` marked.
pub record IsReserved (s : Pmm) (p : ℕ → Bool) (t : Pmm) : Type 0 where
  pub valid : IsValid t
  pub total : t.total_frames ≡ s.total_frames
  pub offset : t.hhdm_offset ≡ s.hhdm_offset
  pub start : t.bitmap_start ≡ s.bitmap_start
  pub frames : (g : ℕ) → allocated t g ≡ ((p g && ltb g s.total_frames) || allocated s g)

-- The frames that hold the bitmap, from number `frame` on.
abbrev pub bitmap_frame : (start frame count g : ℕ) → Bool
bitmap_frame start frame count g = leb (start + frame) g && ltb g (start + frame + count)

pub mark_bitmap-IsReserved :
    (left start frame : ℕ) {s : Pmm}
    → IsValid s
    → start + frame + left ≤ 2 ^ 52
    → Returns
        (λ _ t. IsReserved s (bitmap_frame start frame left) t)
        (mark_bitmap left (start * 4096) frame s)
unfolding mark_bitmap
mark_bitmap-IsReserved zero start frame v fits =
    returns
      (record { valid = v; total = refl; offset = refl; start = refl; frames = λ g. ground arith })
mark_bitmap-IsReserved (suc left) start frame {s} v fits =
    let e : u64 (start * 4096 + u64 (frame * 4096)) ≡ (start + frame) * 4096 = omega arith in
    rw (e, mark_allocated-marked v ((start + frame) * 4096))
      (Ends-mono
        (mark_bitmap-IsReserved left start (frame + 1) (marked-IsValid v ((start + frame) * 4096))
          (omega arith))
        (λ _ t rest. record {
          valid = rest.valid;
          total = rest.total ∙ marked-total v ((start + frame) * 4096);
          offset = rest.offset ∙ marked-offset v ((start + frame) * 4096);
          start = rest.start ∙ marked-start v ((start + frame) * 4096);
          frames = λ g. ground (
            arith,
            rest.frames g,
            allocated-marked v ((start + frame) * 4096) g,
            marked-total v ((start + frame) * 4096),
          );
        })
        (λ _ _ h. h))
