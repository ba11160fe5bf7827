-- ===== src/Memory/Paging/Spec/Tests.antt =====
-- Changes of the address space of a small machine.
use rainstorm_os.Base.{ℕ, ◌+◌, ◌<◌, ◌≡◌, refl, List, [], ◌∷◌, arith, Ends, and_then}
use rainstorm_os.Memory.Paging.{slot}
use rainstorm_os.Memory.Paging.Tree.{lookup}
use rainstorm_os.Memory.Paging.Grown.{OutOfMemory}
use rainstorm_os.Memory.Paging.Spaces.Regions.{Region}
use rainstorm_os.Memory.Paging.Spec.{
  Space, Change, map_page, unmap_page, map_pages, changed_by, perform_all, AllSound,
}
use rainstorm_os.Memory.Paging.Spec.Refines.{Represents, Answers, perform_all-Answers}
use rainstorm_os.Memory.Paging.Spec.Order.{Reordered, exchanged, perform_all-Reordered}
use rainstorm_os.Memory.Pmm.Rounds.{SameFrames}
use rainstorm_os.Memory.Paging.Spaces.{create_pml4, destroy_pml4}
use rainstorm_os.Memory.Paging.Owned.Lifetime.{destroy_pml4-perform_all}
use rainstorm_os.Memory.Paging.Tests.Small.{machine, machine-IsTree}

abbrev before : Space
before = lookup machine 0x1000

machine-Represents : Represents 0x1000 before machine
machine-Represents = record {
  level' = _;
  path' = _;
  tree = machine-IsTree;
  agrees = λ page h. refl;
}

abbrev region : Region
region = record { virt = 0x7000; phys = 0xA000; size = 0x1800; flags = 3 }

abbrev changes : List Change
changes = map_page 0x6000 0x7000 3 ∷ map_pages region ∷ unmap_page 0x8000 ∷ []

changes-AllSound : AllSound changes
changes-AllSound = (
  (refl, refl, refl),
  (
    record {
      virt_aligned = refl;
      phys_aligned = refl;
      are_flags = refl;
      bounded = omega arith;
      in_space = omega arith;
      virt_end = omega arith;
      phys_end = omega arith;
    },
    (refl, tt),
  ),
)

perform_all-Answers_example :
    Ends
      (λ _ m'.
        Represents 0x1000 (changed_by changes before) m'
        × Answers 0x1000 (changed_by changes before) m')
      OutOfMemory
      (perform_all 0x1000 changes machine)
perform_all-Answers_example = perform_all-Answers changes machine-Represents changes-AllSound

abbrev region_first : List Change
region_first = map_pages region ∷ map_page 0x6000 0x7000 3 ∷ unmap_page 0x8000 ∷ []

changes-Reordered : Reordered changes region_first
changes-Reordered = exchanged (λ page h. ground (arith, h))

perform_all-Reordered_example :
    Ends
      (λ _ m'. Represents 0x1000 (changed_by changes before) m')
      OutOfMemory
      (perform_all 0x1000 region_first machine)
perform_all-Reordered_example =
    perform_all-Reordered changes-Reordered machine-Represents changes-AllSound

empty_half :
    (i : ℕ) → i < 256 → machine.kernel_pml4_entries i ≡ machine.word (slot 0x1000 (i + 256))
empty_half i h = ground arith

-- Eleven frames of the machine are free; the calls take four of them.
destroy_pml4-perform_all_example :
    Ends
      (λ _ m'. SameFrames machine.pmm m'.pmm)
      OutOfMemory
      (and_then
        (create_pml4 machine)
        (λ pml4 m1. and_then (perform_all pml4 changes m1) (λ _. destroy_pml4 pml4)))
destroy_pml4-perform_all_example =
    destroy_pml4-perform_all machine-IsTree empty_half changes changes-AllSound
      (omega arith, (omega arith, (tt, tt)))
