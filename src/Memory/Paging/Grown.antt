-- ===== src/Memory/Paging/Grown.antt =====
-- What one level of `paging_map` leaves, and the writes that it is made of.
use mathlib.Core.Path.{fun_ext}
use rainstorm_os.Base.{
  ℕ, ◌/◌, ◌*◌, ◌<◌, ◌≡◌, ◌⊎◌, bit_or, true, false, arith, ok, Cmd, pure, ◌>>=◌, ◌>>◌, String,
}
use rainstorm_os.Memory.Pmm.State.{allocated}
use rainstorm_os.Memory.Pmm.Alloc.{AllAllocated}
use rainstorm_os.Memory.Paging.{Machine, present, target, slot, set_word, read_entry, write_entry}
use rainstorm_os.Memory.Paging.Tree.{IsTree, lookup}

-- What a step of the walk leaves: `c` is the table that entry `i` of `t` leads to, and the tables
-- and links from before are kept.
pub record Grown (m : Machine) (root : ℕ) (level path : ℕ → ℕ) (t i c : ℕ) (m' : Machine)
    : Type 0 where
  pub level' : ℕ → ℕ
  pub path' : ℕ → ℕ
  pub tree : IsTree m' root level' path'
  pub keeps_level : (a : ℕ) → 0 < level a → level' a ≡ level a
  pub keeps_path : (a : ℕ) → 0 < level a → path' a ≡ path a
  pub linked : present (m'.word (slot t i)) ≡ true
  pub leads : target (m'.word (slot t i)) ≡ c
  pub keeps_links :
      (a j : ℕ)
      → 1 < level a
      → j < 512
      → present (m.word (slot a j)) ≡ true
      → present (m'.word (slot a j)) ≡ true
  pub keeps_targets :
      (a j : ℕ)
      → 1 < level a
      → j < 512
      → present (m.word (slot a j)) ≡ true
      → target (m'.word (slot a j)) ≡ target (m.word (slot a j))
  pub translations : (page : ℕ) → lookup m' root page ≡ lookup m root page
  pub same_log : m'.pmm.log ≡ m.pmm.log
  pub same_flushes : m'.invalidated ≡ m.invalidated
  pub keeps_frames : (f : ℕ) → allocated m.pmm f ≡ true → allocated m'.pmm f ≡ true
  pub new_table :
      (a : ℕ) → 0 < level' a → (0 < level a) ⊎ ((a ≡ c) × (allocated m.pmm (a / 4096) ≡ false))
  pub new_frame : (f : ℕ) → allocated m'.pmm f ≡ true → (allocated m.pmm f ≡ true) ⊎ (f * 4096 ≡ c)

-- No frame is free.
abbrev pub OutOfMemory : String → Machine → Type 0
OutOfMemory message m = AllAllocated m.pmm 0 m.pmm.total_frames

abbrev pub with_word : Machine → (ℕ → ℕ) → Machine
with_word m w = record m { word = w }

pub set_word_twice : (w : ℕ → ℕ) (a v v' : ℕ) → set_word (set_word w a v) a v' ≡ set_word w a v'
set_word_twice w a v v' = fun_ext λ b. ground arith

pub set_word_self : (w : ℕ → ℕ) (a v : ℕ) → set_word w a v a ≡ v
set_word_self w a v = ground arith

-- The end of the step, after the table is there.
unfoldable pub set_flags : (t i flags : ℕ) → Cmd Machine ℕ
set_flags t i flags = do
  e' ← read_entry t i
  write_entry t i (bit_or e' flags)
  e'' ← read_entry t i
  pure (target e'')

pub set_flags_lem :
    (t i flags : ℕ) (n : Machine)
    → t / 4096 < n.pmm.total_frames
    → set_flags t i flags n
      ≡ ok
          (target (bit_or (n.word (slot t i)) flags))
          (with_word n (set_word n.word (slot t i) (bit_or (n.word (slot t i)) flags)))
unfolding set_flags read_entry write_entry
set_flags_lem t i flags n tracked = ground arith
