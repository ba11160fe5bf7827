-- ===== src/Memory/Paging/Growing.antt =====
-- What mapping keeps, whichever the tables are: the size of memory, the offset of the direct map and
-- every frame that is in use, and the processor's registers.
use rainstorm_os.Base.{
  ℕ, zero, suc, ◌+◌, ◌/◌, ◌≡◌, refl, true, Bool, not, List, String, ltb, arith, ◌∙◌, if◌then◌else◌,
  Run, ok, panic, halted, fault, out_of_fuel, Cmd, pure, and_then, ◌>>=◌, Ends, returns, panics,
  Bool-cases, inl, inr, bit_or,
}
use rainstorm_os.Memory.Event.{Level}
use rainstorm_os.Memory.Mm.{page_size, page_count, is_page_aligned}
use rainstorm_os.Memory.Pmm
use rainstorm_os.Memory.Pmm.{Pmm, Unit0}
use rainstorm_os.Memory.Pmm.State.{
  allocated, IsValid, mark, logged, logged-IsValid, allocated-logged, mark-IsValid, allocated-mark,
}
use rainstorm_os.Memory.Pmm.Alloc.{AllocResult, taken, exhausted, alloc_frame-AllocResult}
use rainstorm_os.Memory.Paging.{
  Machine, lift, lifted, klog, present, read_entry, write_entry, clear_page, invalidate_page,
  next_table, set_leaf, map, map_loop, map_range, pt_index,
}

-- The frames of `n` are those of `m`, more of them in use; the tables in use and the flag NXE are the
-- same if `cpu` says so.
pub record Extends (cpu : Bool) (m n : Machine) : Type 0 where
  pub valid : IsValid n.pmm
  pub total : n.pmm.total_frames ≡ m.pmm.total_frames
  pub offset : n.pmm.hhdm_offset ≡ m.pmm.hhdm_offset
  pub frames : (f : ℕ) → allocated m.pmm f ≡ true → allocated n.pmm f ≡ true
  pub cr3 : cpu ≡ true → n.cr3 ≡ m.cr3
  pub nxe : cpu ≡ true → n.nxe ≡ m.nxe

-- A run that, where it returns, has extended the frames of `m`.
pub data Grows (cpu : Bool) (m : Machine) {A : Type 0} : Run Machine A → Type 0 where
  grows : {a : A} {n : Machine} → Extends cpu m n → Grows cpu m (ok a n)
  grows_panic : {message : String} {n : Machine} → Grows cpu m (panic message n)
  grows_halted : {n : Machine} → Grows cpu m (halted n)
  grows_fault : Grows cpu m fault
  grows_fuel : Grows cpu m out_of_fuel

-- A command that extends the frames of any valid state.
abbrev pub Growing : Bool → {A : Type 0} → Cmd Machine A → Type 0
Growing cpu c = (m : Machine) → IsValid m.pmm → Grows cpu m (c m)

pub with_growth :
    {A : Type 0} {cpu : Bool} {m : Machine} {P : A → Machine → Type 0}
    {Q : String → Machine → Type 0} {r : Run Machine A}
    → Ends P Q r
    → Grows cpu m r
    → Ends (λ a n. P a n × Extends cpu m n) Q r
with_growth (returns h) (grows s) = returns (h, s)
with_growth (panics h) g = panics h

module _ {cpu : Bool} where
  pub Extends-refl :
      {m n : Machine}
      → IsValid m.pmm
      → n.pmm ≡ m.pmm
      → n.cr3 ≡ m.cr3
      → n.nxe ≡ m.nxe
      → Extends cpu m n
  Extends-refl v same cr3 nxe = record {
    valid = rw same v;
    total = rw same refl;
    offset = rw same refl;
    frames = λ f h. rw same h;
    cr3 = λ _. cr3;
    nxe = λ _. nxe;
  }

  Extends-trans : {m n o : Machine} → Extends cpu m n → Extends cpu n o → Extends cpu m o
  Extends-trans s t = record {
    valid = t.valid;
    total = t.total ∙ s.total;
    offset = t.offset ∙ s.offset;
    frames = λ f h. t.frames f (s.frames f h);
    cr3 = λ h. t.cr3 h ∙ s.cr3 h;
    nxe = λ h. t.nxe h ∙ s.nxe h;
  }

  Grows-after :
      {A : Type 0} {m n : Machine} {r : Run Machine A}
      → Extends cpu m n
      → Grows cpu n r
      → Grows cpu m r
  Grows-after s (grows t) = grows (Extends-trans s t)
  Grows-after s grows_panic = grows_panic
  Grows-after s grows_halted = grows_halted
  Grows-after s grows_fault = grows_fault
  Grows-after s grows_fuel = grows_fuel

  Grows-and_then :
      {A B : Type 0} {m : Machine} {r : Run Machine A} {k : A → Cmd Machine B}
      → Grows cpu m r
      → ((a : A) → Growing cpu (k a))
      → Grows cpu m (and_then r k)
  Grows-and_then (grows {n = n} s) next = Grows-after s (next _ n s.valid)
  Grows-and_then grows_panic next = grows_panic
  Grows-and_then grows_halted next = grows_halted
  Grows-and_then grows_fault next = grows_fault
  Grows-and_then grows_fuel next = grows_fuel

  pub chain :
      {A B : Type 0} {c : Cmd Machine A} {k : A → Cmd Machine B}
      → Growing cpu c
      → ((a : A) → Growing cpu (k a))
      → Growing cpu (c >>= k)
  chain first next m v = Grows-and_then (first m v) next

  pub choice :
      {A : Type 0} (b : Bool) {c d : Cmd Machine A}
      → Growing cpu c
      → Growing cpu d
      → Growing cpu (if b then c else d)
  choice b left right m v = elim (Bool-cases b) [
    | inl e ↦ simp e (left m v)
    | inr e ↦ simp e (right m v)
  ]

  pub pure-Growing : {A : Type 0} (a : A) → Growing cpu (pure a)
  pure-Growing a m v = grows (Extends-refl v refl refl refl)

  pub klog-Growing :
      (level : Level) (format : String) (args : List ℕ) → Growing cpu (klog level format args)
  unfolding klog lifted Pmm.klog logged
  klog-Growing level format args m v = grows (record {
    valid = logged-IsValid v _;
    total = refl;
    offset = refl;
    frames = λ f h. allocated-logged m.pmm _ f ∙ h;
    cr3 = λ _. refl;
    nxe = λ _. refl;
  })

  pub read_entry-Growing : (table i : ℕ) → Growing cpu (read_entry table i)
  unfolding read_entry
  read_entry-Growing table i m v = elim (Bool-cases (ltb (table / page_size) m.pmm.total_frames)) [
    | inl e ↦ rw e (grows (Extends-refl v refl refl refl))
    | inr e ↦ rw e grows_fault
  ]

  pub write_entry-Growing : (table i e : ℕ) → Growing cpu (write_entry table i e)
  unfolding write_entry
  write_entry-Growing table i e m v =
      elim (Bool-cases (ltb (table / page_size) m.pmm.total_frames)) [
        | inl h ↦ rw h (grows (Extends-refl v refl refl refl))
        | inr h ↦ rw h grows_fault
      ]

  pub clear_page-Growing : (frame : ℕ) → Growing cpu (clear_page frame)
  unfolding clear_page
  clear_page-Growing frame m v = elim (Bool-cases (ltb (frame / page_size) m.pmm.total_frames)) [
    | inl h ↦ rw h (grows (Extends-refl v refl refl refl))
    | inr h ↦ rw h grows_fault
  ]

  pub alloc_frame-Growing : Growing cpu (lift Pmm.alloc_frame)
  alloc_frame-Growing m v = after (alloc_frame-AllocResult v)
    where
      after : {r : Run Pmm ℕ} → AllocResult m.pmm r → Grows cpu m (lifted m r)
      after (taken f in_ram unused below) =
          unfold lifted mark in
          grows (record {
            valid = mark-IsValid v f;
            total = refl;
            offset = refl;
            frames = λ g h. ground (arith, allocated-mark v f g, h);
            cr3 = λ _. refl;
            nxe = λ _. refl;
          })
      after (exhausted all) = unfold lifted in grows_panic

  next_table-Growing : (table i flags : ℕ) → Growing cpu (next_table table i flags)
  unfolding next_table
  next_table-Growing table i flags = chain (read_entry-Growing table i) (λ e.
      chain
        (choice (present e) (pure-Growing tt) (
          chain alloc_frame-Growing
            (λ frame. chain (clear_page-Growing frame) (λ _. write_entry-Growing table i frame))))
        (λ _. chain (read_entry-Growing table i) (λ e'.
          chain (write_entry-Growing table i (bit_or e' flags))
            (λ _. chain (read_entry-Growing table i) (λ e''. pure-Growing _)))))

  set_leaf-Growing : (pt virt phys flags : ℕ) → Growing cpu (set_leaf pt virt phys flags)
  unfolding set_leaf invalidate_page
  set_leaf-Growing pt virt phys flags = chain (read_entry-Growing pt (pt_index virt)) (λ old.
      chain (choice (present old) (klog-Growing _ _ _) (pure-Growing tt)) (λ _.
        chain (write_entry-Growing pt (pt_index virt) _)
          (λ _ m v. grows (Extends-refl v refl refl refl))))

  map-Growing : (pml4 virt phys flags : ℕ) → Growing cpu (map pml4 virt phys flags)
  unfolding map
  map-Growing pml4 virt phys flags = choice (not (is_page_aligned pml4)) (klog-Growing _ _ _) (
      choice (not (is_page_aligned virt)) (klog-Growing _ _ _) (
        choice (not (is_page_aligned phys)) (klog-Growing _ _ _) (
          chain (next_table-Growing _ _ _) (λ pdpt. chain (next_table-Growing pdpt _ _) (λ pd.
            chain (next_table-Growing pd _ _) (λ pt. set_leaf-Growing pt virt phys flags))))))

  map_loop-Growing :
      (n pml4 virt phys flags i : ℕ) → Growing cpu (map_loop n pml4 virt phys flags i)
  unfolding map_loop
  map_loop-Growing zero pml4 virt phys flags i = pure-Growing tt
  map_loop-Growing (suc n) pml4 virt phys flags i =
      chain (map-Growing _ _ _ _) (λ _. map_loop-Growing n pml4 virt phys flags (i + 1))

  pub map_range-Growing :
      (pml4 virt phys size flags : ℕ) → Growing cpu (map_range pml4 virt phys size flags)
  unfolding map_range
  map_range-Growing pml4 virt phys size flags =
      choice (not (is_page_aligned pml4)) (klog-Growing _ _ _) (
        choice (not (is_page_aligned virt)) (klog-Growing _ _ _) (
          choice (not (is_page_aligned phys)) (klog-Growing _ _ _)
            (map_loop-Growing (page_count size) pml4 virt phys flags 0)))
