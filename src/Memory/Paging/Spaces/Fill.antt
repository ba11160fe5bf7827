-- ===== src/Memory/Paging/Spaces/Fill.antt =====
-- The first steps of `paging_init`: a root with an empty table below each entry of its upper half.
use rainstorm_os.Base.{
  ℕ, zero, suc, ◌+◌, ◌*◌, ◌/◌, ◌%◌, ◌^◌, ◌≤◌, ◌<◌, ◌≡◌, refl, bit_or, true, false, none, ◌==◌,
  arith, if◌then◌else◌, ◌∙◌, ap, sym, Run, ok, and_then, Ends, returns, panics, ◌>>◌, lt→ltb,
}
use mathlib.Core.Path.{subst}
use rainstorm_os.Base.Bits.{bit_or_disjoint, bit_or_step}
use rainstorm_os.Memory.Pmm.{Pmm, Unit0}
use rainstorm_os.Memory.Pmm.State.{
  allocated, IsValid, mark, mark-IsValid, mark-total, allocated-mark,
}
use rainstorm_os.Memory.Pmm.Alloc.{AllocResult, taken, exhausted, alloc_frame-AllocResult}
use rainstorm_os.Memory.Paging.{
  Machine, lifted, present, slot, clear_words, clear_page, write_entry, page_present, page_writable,
}
use rainstorm_os.Memory.Paging.Entries.{present-zero}
use rainstorm_os.Memory.Paging.Tree.{IsTree, lookup, look_stop}
use rainstorm_os.Memory.Paging.Grown.{OutOfMemory}
use rainstorm_os.Memory.Paging.Fresh.{grown, grown-Grown, other_entry}
use rainstorm_os.Memory.Paging.Spaces.{fill_kernel}

-- A tree that translates nothing, with no entry from `i` on below the root.
pub record IsFilled (h total root i : ℕ) (m : Machine) : Type 0 where
  pub level' : ℕ → ℕ
  pub path' : ℕ → ℕ
  pub tree : IsTree m root level' path'
  pub unfilled : (j : ℕ) → i ≤ j → j < 512 → present (m.word (slot root j)) ≡ false
  pub nothing : (q : ℕ) → lookup m root q ≡ none
  pub offset : m.pmm.hhdm_offset ≡ h
  pub same_total : m.pmm.total_frames ≡ total

mark-offset : (s : Pmm) (f : ℕ) → (mark s f).hhdm_offset ≡ s.hhdm_offset
unfolding mark
mark-offset s f = refl

-- A fresh frame, cleared, as a root.
module _ (m : Machine) (v : IsValid m.pmm) (small : m.pmm.total_frames ≤ 2 ^ 40) (f : ℕ)
    (in_ram : f < m.pmm.total_frames) where
  abbrev pub blank : Machine
  blank = record m { pmm = mark m.pmm f; word = clear_words m.word (f * 4096) }

  blank_entry : (j : ℕ) → j < 512 → present (blank.word (slot (f * 4096) j)) ≡ false
  blank_entry j h =
      let e : blank.word (slot (f * 4096) j) ≡ 0 = ground arith in ap present e ∙ present-zero

  only_root : (t : ℕ) → 0 < (if t == f * 4096 then 4 else 0) → t ≡ f * 4096
  only_root t h = ground arith

  no_entry :
      (t j : ℕ)
      → 0 < (if t == f * 4096 then 4 else 0)
      → j < 512
      → present (blank.word (slot t j)) ≡ true
      → ⊥
  no_entry t j h k p =
      cc (sym p ∙ (ap (λ a. present (blank.word (slot a j))) (only_root t h) ∙ blank_entry j k))

  blank_tree : IsTree blank (f * 4096) (λ t. if t == f * 4096 then 4 else 0) (λ t. 0)
  blank_tree = record {
    valid = mark-IsValid v f;
    small = rw (mark-total m.pmm f) small;
    is_root = ground arith;
    root_path = refl;
    aligned = λ t h. omega (arith, only_root t h);
    tracked = λ t h. omega (arith, only_root t h, mark-total m.pmm f);
    taken = λ t h. ground (arith, only_root t h, allocated-mark v f (t / 4096));
    below = λ t j h k p. absurd (no_entry t j (omega arith) k p);
    extends_path = λ t j h k p. absurd (no_entry t j (omega arith) k p);
  }

  pub blank-IsFilled : (i : ℕ) → IsFilled m.pmm.hhdm_offset m.pmm.total_frames (f * 4096) i blank
  blank-IsFilled i = record {
    level' = λ t. if t == f * 4096 then 4 else 0;
    path' = λ t. 0;
    tree = blank_tree;
    unfilled = λ j h k. blank_entry j k;
    nothing =
        λ q. look_stop 3 blank.word (f * 4096) q (blank_entry (q / 512 ^ 3 % 512) (omega arith));
    offset = mark-offset m.pmm f;
    same_total = mark-total m.pmm f;
  }

-- The entry of a new table, in the two ways that the code writes it.
entry_flags : (f : ℕ) → bit_or (bit_or (f * 4096) page_present) page_writable ≡ bit_or (f * 4096) 3
entry_flags f =
    let one : bit_or (f * 4096) 1 ≡ f * 4096 + 1 = bit_or_disjoint 12 f 1 (omega arith) in
    let three : bit_or (f * 4096) 3 ≡ f * 4096 + 3 = bit_or_disjoint 12 f 3 (omega arith) in
    let low : bit_or (f * 2048) 1 ≡ f * 2048 + 1 = bit_or_disjoint 11 f 1 (omega arith) in
    let half : (f * 4096 + 1) / 2 ≡ f * 2048 = omega arith in
    let two : bit_or (f * 4096 + 1) 2 ≡ f * 4096 + 3 =
      bit_or_step (f * 4096 + 1) 2 ∙ rw (half, low) (omega arith) in
    rw (one, two, three)

present_three : present 3 ≡ true
unfolding present
present_three = refl

module _ {h total root i : ℕ} {m : Machine} (filled : IsFilled h total root i m)
    (here : i < 512) where
  root_up : 1 < filled.level' root
  root_up = omega (arith, filled.tree.is_root)

  -- The machine after one round, with the frame at `f * 4096` as the table.
  module _ (f : ℕ) (unused : allocated m.pmm f ≡ false) (in_ram : f < m.pmm.total_frames) where
    abbrev next : Machine
    next =
        grown filled.tree root i 3 root_up here refl present_three f
          (filled.unfilled i (omega arith) here) in_ram unused

    still_unfilled : (j : ℕ) → i + 1 ≤ j → j < 512 → present (next.word (slot root j)) ≡ false
    still_unfilled j h k =
        let differ : (slot root i == slot root j) ≡ false = ground arith in
        ap present (
          other_entry filled.tree root i 3 root_up here refl present_three f
            (filled.unfilled i (omega arith) here) in_ram unused root j (omega (arith, root_up)) k)
        ∙ rw differ (filled.unfilled j (omega arith) k)

    next-IsFilled : IsFilled h total root (i + 1) next
    next-IsFilled =
        let g =
          grown-Grown filled.tree root i 3 root_up here refl present_three f
            (filled.unfilled i (omega arith) here) in_ram unused in
        record {
          level' = g.level';
          path' = g.path';
          tree = g.tree;
          unfilled = still_unfilled;
          nothing = λ q. g.translations q ∙ filled.nothing q;
          offset = mark-offset m.pmm f ∙ filled.offset;
          same_total = mark-total m.pmm f ∙ filled.same_total;
        }

    -- One round, once the frame is allocated.
    round_eq :
        (left : ℕ)
        → and_then (lifted m (ok (f * 4096) (mark m.pmm f))) (λ pdpt.
          clear_page pdpt
          >> (write_entry root i (bit_or (bit_or pdpt page_present) page_writable)
              >> fill_kernel left root (i + 1)))
          ≡ fill_kernel left root (i + 1) next
    unfolding lifted clear_page write_entry mark
    round_eq left =
        rw (entry_flags f, lt→ltb (f * 4096 / 4096) m.pmm.total_frames (omega arith))
          (rw
            (lt→ltb (root / 4096) m.pmm.total_frames
              (filled.tree.tracked root (omega (arith, root_up))))
            refl)

abbrev pub Filled : (h total root : ℕ) → Unit0 → Machine → Type 0
Filled h total root _ m = IsFilled h total root 512 m

fill_round :
    {h total root i : ℕ} {m : Machine} (left : ℕ)
    → (filled : IsFilled h total root i m) → i < 512
    → ((n : Machine)
        → IsFilled h total root (i + 1) n
        → Ends (Filled h total root) OutOfMemory (fill_kernel left root (i + 1) n))
    → {r : Run Pmm ℕ} → AllocResult m.pmm r
    → Ends (Filled h total root) OutOfMemory (
        and_then (lifted m r) (λ pdpt.
          clear_page pdpt
          >> (write_entry root i (bit_or (bit_or pdpt page_present) page_writable)
              >> fill_kernel left root (i + 1))))
fill_round left filled here rest (taken f in_ram unused below) =
    rw (round_eq filled here f unused in_ram left)
      (rest _ (next-IsFilled filled here f unused in_ram))
fill_round left filled here rest (exhausted all) = unfold lifted in panics all

pub fill_kernel-IsFilled :
    (h total root left i : ℕ) (m : Machine)
    → left + i ≡ 512
    → IsFilled h total root i m
    → Ends (Filled h total root) OutOfMemory (fill_kernel left root i m)
unfolding fill_kernel
fill_kernel-IsFilled h total root zero i m e filled =
    let count : i ≡ 512 = omega (arith, e) in
    returns (subst (λ k. IsFilled h total root k m) count filled)
fill_kernel-IsFilled h total root (suc left) i m e filled =
    fill_round left filled (omega arith)
      (λ n f. fill_kernel-IsFilled h total root left (i + 1) n (omega arith) f)
      (alloc_frame-AllocResult filled.tree.valid)
