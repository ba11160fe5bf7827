-- ===== src/Memory/Paging/Tree.antt =====
-- The tables below a root as a tree, and the translation of a page as the walk down that tree.
use rainstorm_os.Base.{
  ℕ, zero, suc, ◌+◌, ◌*◌, ◌/◌, ◌%◌, ◌^◌, ◌≤◌, ◌<◌, ◌≡◌, ◌≢◌, refl, true, false, Option, none, some,
  arith, if◌then◌else◌, Bool-cases, ◌⊎◌, inl, inr, ◌∙◌, ap, sym,
}
use rainstorm_os.Memory.Pmm.State.{allocated, IsValid}
use rainstorm_os.Memory.Paging.{Machine, present, target, slot}
use rainstorm_os.Memory.Paging.Entries.{index_at, present-zero}

-- The present entry for `page` below the table at `table`, `d` levels above the last; `none` if an
-- entry on the way is not present.
unfoldable pub look : (d : ℕ) → (ℕ → ℕ) → (table page : ℕ) → Option ℕ
look zero word table page =
    let e = word (slot table (index_at 0 page)) in if present e then some e else none
look (suc d) word table page =
    let e = word (slot table (index_at (suc d) page)) in
    let rest = look d word (target e) page in if present e then rest else none

-- What the machine translates `page` to, in the address space at `root`.
abbrev pub lookup : Machine → (root page : ℕ) → Option ℕ
lookup m root page = look 3 m.word root page

-- The tables below `root`: `level` is 4 for the root, 1 for the last tables and 0 elsewhere, and
-- `path` is the number that the indices on the way from the root make. So a table has one place.
pub record IsTree (m : Machine) (root : ℕ) (level path : ℕ → ℕ) : Type 0 where
  pub valid : IsValid m.pmm
  pub small : m.pmm.total_frames ≤ 2 ^ 40
  pub is_root : level root ≡ 4
  pub root_path : path root ≡ 0
  pub aligned : (t : ℕ) → 0 < level t → t % 4096 ≡ 0
  pub tracked : (t : ℕ) → 0 < level t → t / 4096 < m.pmm.total_frames
  pub taken : (t : ℕ) → 0 < level t → allocated m.pmm (t / 4096) ≡ true
  pub below :
      (t i : ℕ)
      → 1 < level t
      → i < 512
      → present (m.word (slot t i)) ≡ true
      → suc (level (target (m.word (slot t i)))) ≡ level t
  pub extends_path :
      (t i : ℕ)
      → 1 < level t
      → i < 512
      → present (m.word (slot t i)) ≡ true
      → path (target (m.word (slot t i))) ≡ path t * 512 + i

-- A page that an empty table translates is not mapped.
pub look-empty :
    (d : ℕ) (word : ℕ → ℕ) (table page : ℕ)
    → ((i : ℕ) → i < 512 → word (slot table i) ≡ 0)
    → look d word table page ≡ none
unfolding look
look-empty zero word table page empty = rw (empty (index_at 0 page) (omega arith), present-zero)
look-empty (suc d) word table page empty =
    rw (empty (index_at (suc d) page) (omega arith), present-zero)

-- The walk depends on the present flag and the address of an entry only.
pub look_step :
    (d : ℕ) (word : ℕ → ℕ) (table page : ℕ)
    → present (word (slot table (index_at (suc d) page))) ≡ true
    → look (suc d) word table page
      ≡ look d word (target (word (slot table (index_at (suc d) page)))) page
unfolding look
look_step d word table page h = rw h

pub look_stop :
    (d : ℕ) (word : ℕ → ℕ) (table page : ℕ)
    → present (word (slot table (index_at d page))) ≡ false
    → look d word table page ≡ none
unfolding look
look_stop zero word table page h = rw h
look_stop (suc d) word table page h = rw h

pub look_leaf :
    (word : ℕ → ℕ) (table page : ℕ)
    → look 0 word table page ≡ (
        if present (word (slot table (index_at 0 page)))
        then some (word (slot table (index_at 0 page)))
        else none)
unfolding look
look_leaf word table page = refl

-- Entries of different tables or of different indices have different addresses.
pub slot-ne :
    (t u i j : ℕ)
    → t % 4096 ≡ 0
    → u % 4096 ≡ 0
    → i < 512
    → j < 512
    → (t ≢ u) ⊎ (i ≢ j)
    → slot t i ≢ slot u j
slot-ne t u i j at au hi hj h e = ground (arith, h)

-- How an entry may change and leave every translation alone: it keeps its present flag and its
-- address, or it was not present and now leads to an empty table.
pub data Agrees (w w' : ℕ → ℕ) (a : ℕ) : Type 0 where
  same : present (w' a) ≡ present (w a) → target (w' a) ≡ target (w a) → Agrees w w' a
  fresh :
      present (w a) ≡ false → ((k : ℕ) → k < 512 → w' (slot (target (w' a)) k) ≡ 0) → Agrees w w' a

module _ {m : Machine} {root : ℕ} {level path : ℕ → ℕ} (tree : IsTree m root level path) where
  module _ (w' : ℕ → ℕ) (upper : (t j : ℕ) → 1 < level t → j < 512 → Agrees m.word w' (slot t j))
      (last : (t j : ℕ) → level t ≡ 1 → j < 512 → w' (slot t j) ≡ m.word (slot t j)) where
    look-Agrees-step :
        (d t page : ℕ)
        → level t ≡ suc (suc d)
        → Agrees m.word w' (slot t (index_at (suc d) page))
        → ((c : ℕ) → level c ≡ suc d → look d w' c page ≡ look d m.word c page)
        → look (suc d) w' t page ≡ look (suc d) m.word t page
    look-Agrees-step d t page at (same e e') rest =
        elim (Bool-cases (present (m.word (slot t (index_at (suc d) page))))) [
          | inl here ↦
              let child = tree.below t (index_at (suc d) page) (omega arith) (omega arith) here in
              look_step d w' t page (e ∙ here)
              ∙ (ap (λ c. look d w' c page) e'
                  ∙ (rest (target (m.word (slot t (index_at (suc d) page)))) (omega arith)
                      ∙ sym (look_step d m.word t page here)))
          | inr gone ↦
              look_stop (suc d) w' t page (e ∙ gone) ∙ sym (look_stop (suc d) m.word t page gone)
        ]
    look-Agrees-step d t page at (fresh gone empty) rest =
        now_none (Bool-cases (present (w' (slot t (index_at (suc d) page)))))
        ∙ sym (look_stop (suc d) m.word t page gone)
      where
        now_none :
            (present (w' (slot t (index_at (suc d) page))) ≡ true)
              ⊎ (present (w' (slot t (index_at (suc d) page))) ≡ false)
            → look (suc d) w' t page ≡ none
        now_none (inl here) = look_step d w' t page here ∙ look-empty d w' _ page empty
        now_none (inr not_here) = look_stop (suc d) w' t page not_here

    pub look-Agrees : (d t page : ℕ) → level t ≡ suc d → look d w' t page ≡ look d m.word t page
    look-Agrees zero t page at =
        rw (look_leaf w' t page, look_leaf m.word t page, last t (index_at 0 page) at (omega arith))
    look-Agrees (suc d) t page at =
        look-Agrees-step d t page at (upper t (index_at (suc d) page) (omega arith) (omega arith))
          (λ c h. look-Agrees d c page h)
