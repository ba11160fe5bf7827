-- ===== src/Memory/Paging/Owned/Freed.antt =====
-- `paging_destroy_pml4` frees all frames that an address space has of its own.
use mathlib.Core.Path.{subst}
use rainstorm_os.Base.{
  ℕ, zero, suc, ◌*◌, ◌/◌, ◌<◌, ◌≡◌, ◌≢◌, Bool, true, false, ◌&&◌, ◌==◌, ltb, arith, ◌∙◌, ap, sym,
  ◌⊎◌, inl, inr, Bool-cases,
}
use rainstorm_os.Memory.Pmm.State.{allocated}
use rainstorm_os.Memory.Paging.{Machine, present, target, slot}
use rainstorm_os.Memory.Paging.Tree.{IsTree}
use rainstorm_os.Memory.Paging.Owned.{Owned, Parent, is_lower}
use rainstorm_os.Memory.Paging.Spaces.Sweep.{IsLower, Freed}
use rainstorm_os.Memory.Paging.Spaces.Destroy.{IsDestroyed}

level_cases :
    (l p : ℕ)
    → is_lower l p ≡ true
    → (l ≡ 4)
      ⊎ (((l ≡ 3) × (p < 256)) ⊎ (((l ≡ 2) × (p < 256 * 512)) ⊎ ((l ≡ 1) × (p < 256 * 512 * 512))))
unfolding is_lower
level_cases l p h = elim (Bool-cases (l == 4)) [
  | inl four ↦ inl (ground (arith, four))
  | inr not_4 ↦ inr (elim (Bool-cases (l == 3 && ltb p 256)) [
    | inl three ↦ inl (ground (arith, three))
    | inr not_3 ↦ inr (elim (Bool-cases (l == 2 && ltb p (256 * 512))) [
      | inl two ↦ inl (ground (arith, two))
      | inr not_2 ↦ inr (ground (arith, h, not_4, not_3, not_2))
    ])
  ])
]

from_cases :
    (l p : ℕ)
    → (l ≡ 4)
      ⊎ (((l ≡ 3) × (p < 256)) ⊎ (((l ≡ 2) × (p < 256 * 512)) ⊎ ((l ≡ 1) × (p < 256 * 512 * 512))))
    → is_lower l p ≡ true
unfolding is_lower
from_cases l p h = ground (arith, h)

-- The entry below a freed table.
module _ {m : Machine} (m' : Machine) {root : ℕ} {level path : ℕ → ℕ}
    (tree : IsTree m root level path) where
  child_gone :
      (d : ℕ) {t : ℕ}
      → (p : Parent m level path t) → Freed tree (suc d) m' p.table
      → Freed tree d m' t
  unfolding Freed
  child_gone d p (gone, below) =
      let (on, leads) = p.linked in
      subst (λ c. Freed tree d m' c) leads (below p.index p.in_table on)

  table_gone : (d t : ℕ) → Freed tree d m' t → allocated m'.pmm (t / 4096) ≡ false
  unfolding Freed
  table_gone zero t h = h
  table_gone (suc d) t (h, below) = h

module _ {base : ℕ → Bool} {m m' : Machine} {root : ℕ} {level path : ℕ → ℕ}
    (tree : IsTree m root level path) (owned : Owned base root m level path)
    (done : IsDestroyed tree m') where
  not_root : (t : ℕ) → level t < 4 → t ≢ root
  not_root t low e = absurd (omega (arith, ap level e, low, tree.is_root))

  table_above : (t : ℕ) → level t < 4 → is_lower (level t) (path t) ≡ true → Parent m level path t
  table_above t low lower = owned.parent t lower (not_root t low)

  pdpt_gone : (t : ℕ) → level t ≡ 3 → path t < 256 → Freed tree 2 m' t
  pdpt_gone t at on =
      let p = table_above t (omega (arith, at)) (from_cases _ _ (inr (inl (at, on)))) in
      let top : p.table ≡ root = owned.only_root p.table (omega (arith, p.above, at)) in
      let (here, leads) = p.linked in
      let along = tree.extends_path p.table p.index (omega (arith, p.above, at)) p.in_table here in
      let low : p.index < 256 = omega (arith, along, ap path leads, on) in
      subst (λ c. Freed tree 2 m' c) (ap (λ r. target (m.word (slot r p.index))) (sym top) ∙ leads)
        (done.lower_freed p.index low
          (ap (λ r. present (m.word (slot r p.index))) (sym top) ∙ here))

  pd_gone : (t : ℕ) → level t ≡ 2 → path t < 256 * 512 → Freed tree 1 m' t
  pd_gone t at on =
      let p = table_above t (omega (arith, at)) (from_cases _ _ (inr (inr (inl (at, on))))) in
      let up : level p.table ≡ 3 = omega (arith, p.above, at) in
      elim (level_cases _ _ p.lower) [
        | inl four ↦ absurd (omega (arith, four, up))
        | inr (inl (three, low)) ↦ child_gone m' tree 1 p (pdpt_gone p.table three low)
        | inr (inr rest) ↦ absurd (omega (arith, rest, up))
      ]

  pt_gone : (t : ℕ) → level t ≡ 1 → path t < 256 * 512 * 512 → Freed tree 0 m' t
  pt_gone t at on =
      let p = table_above t (omega (arith, at)) (from_cases _ _ (inr (inr (inr (at, on))))) in
      let up : level p.table ≡ 2 = omega (arith, p.above, at) in
      elim (level_cases _ _ p.lower) [
        | inl four ↦ absurd (omega (arith, four, up))
        | inr (inl other) ↦ absurd (omega (arith, other, up))
        | inr (inr (inl (two, low))) ↦ child_gone m' tree 0 p (pd_gone p.table two low)
        | inr (inr (inr other)) ↦ absurd (omega (arith, other, up))
      ]

  own_gone : (f : ℕ) → IsLower tree (f * 4096) → allocated m'.pmm f ≡ false
  own_gone f lower =
      let same : f * 4096 / 4096 ≡ f = omega arith in
      subst (λ g. allocated m'.pmm g ≡ false) same
        (elim lower [
          | inl four ↦
              subst (λ r. allocated m'.pmm (r / 4096) ≡ false)
                (sym (owned.only_root (f * 4096) four)) done.root_freed
          | inr (inl (at, on)) ↦ table_gone m' tree 2 _ (pdpt_gone _ at on)
          | inr (inr (inl (at, on))) ↦ table_gone m' tree 1 _ (pd_gone _ at on)
          | inr (inr (inr (at, on))) ↦ table_gone m' tree 0 _ (pt_gone _ at on)
        ])

  -- What is left in use are the frames that are not the address space's own.
  pub own_frames_freed : (f : ℕ) → allocated m'.pmm f ≡ base f
  own_frames_freed f = elim (Bool-cases (base f)) [
    | inl of_base ↦
        done.shrunk.others f (λ lower. ground (arith, owned.own f (from_cases _ _ lower), of_base))
        ∙ (owned.kept f of_base ∙ sym of_base)
    | inr own ↦ elim (Bool-cases (allocated m'.pmm f)) [
      | inr gone ↦ gone ∙ sym own
      | inl used ↦ elim (owned.in_use f (done.shrunk.fewer f used)) [
        | inl of_base ↦ absurd (ground (arith, of_base, own))
        | inr lower ↦ own_gone f (level_cases _ _ lower) ∙ sym own
      ]
    ]
  ]
