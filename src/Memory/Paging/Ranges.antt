-- ===== src/Memory/Paging/Ranges.antt =====
-- `paging_map_range`: the pages of a range are mapped one after the other.
use mathlib.Core.Path.{subst}
use rainstorm_os.Base.{
  ℕ, zero, suc, ◌+◌, ◌*◌, ◌/◌, ◌%◌, ◌^◌, ◌≤◌, ◌<◌, ◌≡◌, refl, Option, none, arith, ◌⊎◌, ◌∙◌, ap,
  sym, ℕ_discrete, Returns, returns, Ends, Ends-and_then, u64,
}
use rainstorm_os.Memory.Mm.{mod→aligned, page_size, page_count_eq}
use rainstorm_os.Memory.Paging.{Machine, map_loop, map_range, unmap_loop, unmap_range}
use rainstorm_os.Memory.Paging.Entries.{AreFlags, page_of}
use rainstorm_os.Memory.Paging.Tree.{IsTree, lookup}
use rainstorm_os.Memory.Paging.Grown.{OutOfMemory}
use rainstorm_os.Memory.Paging.Walk.{root_aligned}
use rainstorm_os.Memory.Paging.Map.{Remapped, mapping, map-Remapped}
use rainstorm_os.Memory.Paging.Unmap.{unmap-Remapped}

-- The `n` pages from `page` on are translated by `entry`, and the other pages as before.
pub record RangeMapped (m : Machine) (root page n : ℕ) (entry : ℕ → Option ℕ) (m' : Machine)
    : Type 0 where
  pub level' : ℕ → ℕ
  pub path' : ℕ → ℕ
  pub tree : IsTree m' root level' path'
  pub inside : (k : ℕ) → k < n → lookup m' root (page + k) ≡ entry k
  pub outside :
      (q : ℕ) → q < 2 ^ 36 → (q < page) ⊎ (page + n ≤ q) → lookup m' root q ≡ lookup m root q

-- A range and the page after it make a longer range.
range_step :
    {m m1 m2 : Machine} {root page n : ℕ} {entry : ℕ → Option ℕ}
    → page + n < 2 ^ 36
    → RangeMapped m root page n entry m1
    → Remapped m1 root (page + n) (entry n) m2
    → RangeMapped m root page (suc n) entry m2
range_step {m = m} {m2 = m2} {root = root} {page = page} {n = n} {entry = entry} fits r s = record {
  level' = s.level';
  path' = s.path';
  tree = s.tree;
  inside = λ k h. elim (ℕ_discrete k n) [
    | yes e ↦ ap (λ j. lookup m2 root (page + j)) e ∙ (s.here ∙ ap entry (sym e))
    | no ne ↦ s.others (page + k) (omega arith) (λ e. ne (omega arith)) ∙ r.inside k (omega arith)
  ];
  outside = λ q h k. s.others q h (omega arith) ∙ r.outside q h (omega arith);
}

-- The translations of a range that is mapped to the frames from `phys` on.
abbrev pub onto : (phys flags k : ℕ) → Option ℕ
onto phys flags k = mapping (phys + k * 4096) flags

abbrev nothing : ℕ → Option ℕ
nothing k = none

next_page :
    {m m1 m2 : Machine} {root i : ℕ} (virt : ℕ) {entry : ℕ → Option ℕ}
    → virt % 4096 ≡ 0
    → page_of virt + i < 2 ^ 36
    → RangeMapped m root (page_of virt) i entry m1
    → Remapped m1 root (page_of (virt + i * 4096)) (entry i) m2
    → RangeMapped m root (page_of virt) (i + 1) entry m2
next_page {m = m} {m1 = m1} {m2 = m2} {root = root} {i = i} virt {entry = entry} al fits r s =
    let page : page_of (virt + i * 4096) ≡ page_of virt + i = omega arith in
    let count : suc i ≡ i + 1 = omega arith in
    subst (λ n. RangeMapped m root (page_of virt) n entry m2) count
      (range_step fits r (subst (λ p. Remapped m1 root p (entry i) m2) page s))

no_page :
    {m : Machine} {root : ℕ} {level path : ℕ → ℕ} (page : ℕ) (entry : ℕ → Option ℕ)
    → IsTree m root level path
    → RangeMapped m root page 0 entry m
no_page page entry tree = record {
  level' = _;
  path' = _;
  tree = tree;
  inside = λ k h. absurd (omega arith);
  outside = λ q h k. refl;
}

module _ {m : Machine} {root : ℕ} (virt phys flags n : ℕ) (al : virt % 4096 ≡ 0)
    (al' : phys % 4096 ≡ 0) (are_flags : AreFlags flags) (fits : page_of virt + n ≤ 2 ^ 36)
    (fits' : virt + n * 4096 ≤ 2 ^ 64) (fits'' : phys + n * 4096 ≤ 2 ^ 64) where
  map_loop-RangeMapped :
      (left i : ℕ) (m1 : Machine)
      → left + i ≡ n
      → RangeMapped m root (page_of virt) i (onto phys flags) m1
      → Ends
          (λ _ m'. RangeMapped m root (page_of virt) n (onto phys flags) m')
          OutOfMemory
          (map_loop left root virt phys flags i m1)
  unfolding map_loop
  map_loop-RangeMapped zero i m1 e r =
      let count : i ≡ n = omega (arith, e) in
      returns (subst (λ k. RangeMapped m root (page_of virt) k (onto phys flags) m1) count r)
  map_loop-RangeMapped (suc left) i m1 e r =
      let at : u64 (virt + u64 (i * page_size)) ≡ virt + i * 4096 = omega arith in
      let to : u64 (phys + u64 (i * page_size)) ≡ phys + i * 4096 = omega arith in
      rw (at, to)
        (Ends-and_then
          (map-Remapped r.tree (virt + i * 4096) (phys + i * 4096) flags (omega arith) (omega arith)
            are_flags)
          (λ _ m2 (s, _).
            map_loop-RangeMapped left (i + 1) m2 (omega arith)
              (next_page virt al (omega arith) r s)))

-- On a tree of tables, for aligned addresses, flags that keep out of the address field and a size
-- that rounds up to `n` pages, where neither range passes 2^64 and the pages of `virt` do not wrap
-- around the translated 48 bits: `paging_map_range` returns with page `k` of the range translated
-- by `(phys + k * 4096) | flags` for each `k < n`, the pages outside translated as before and a
-- tree of tables again; or it panics with no frame free.
pub map_range-RangeMapped :
    {m : Machine} {root : ℕ} {level path : ℕ → ℕ} (tree : IsTree m root level path)
    (virt phys size flags : ℕ)
    → virt % 4096 ≡ 0
    → phys % 4096 ≡ 0
    → AreFlags flags
    → size + 4095 < 2 ^ 64
    → page_of virt + (size + 4095) / 4096 ≤ 2 ^ 36
    → virt + (size + 4095) / 4096 * 4096 ≤ 2 ^ 64
    → phys + (size + 4095) / 4096 * 4096 ≤ 2 ^ 64
    → Ends
        (λ _ m'. RangeMapped m root (page_of virt) ((size + 4095) / 4096) (onto phys flags) m')
        OutOfMemory
        (map_range root virt phys size flags m)
unfolding map_range
map_range-RangeMapped {m = m} tree virt phys size flags al al' are_flags bounded fits fits' fits'' =
    rw (root_aligned tree, mod→aligned virt al, mod→aligned phys al', page_count_eq size bounded)
      (map_loop-RangeMapped virt phys flags ((size + 4095) / 4096) al al' are_flags fits fits'
        fits'' ((size + 4095) / 4096) 0 m (omega arith)
        (no_page (page_of virt) (onto phys flags) tree))

module _ {m : Machine} {root : ℕ} (virt n : ℕ) (al : virt % 4096 ≡ 0)
    (fits : page_of virt + n ≤ 2 ^ 36) (fits' : virt + n * 4096 ≤ 2 ^ 64) where
  unmap_loop-RangeMapped :
      (left i : ℕ) (m1 : Machine)
      → left + i ≡ n
      → RangeMapped m root (page_of virt) i nothing m1
      → Returns
          (λ _ m'. RangeMapped m root (page_of virt) n nothing m')
          (unmap_loop left root virt i m1)
  unfolding unmap_loop
  unmap_loop-RangeMapped zero i m1 e r =
      let count : i ≡ n = omega (arith, e) in
      returns (subst (λ k. RangeMapped m root (page_of virt) k nothing m1) count r)
  unmap_loop-RangeMapped (suc left) i m1 e r =
      let at : u64 (virt + u64 (i * page_size)) ≡ virt + i * 4096 = omega arith in
      rw at (
        Ends-and_then (unmap-Remapped r.tree (virt + i * 4096) (omega arith)) (λ _ m2 (s, _, _).
          unmap_loop-RangeMapped left (i + 1) m2 (omega arith)
            (next_page virt al (omega arith) r s)))

-- On a tree of tables, for an aligned address and a size that rounds up to `n` pages, where the
-- range does not pass 2^64 and its pages do not wrap around the translated 48 bits:
-- `paging_unmap_range` returns with the `n` pages from `virt` on translated by nothing, the pages
-- outside translated as before and a tree of tables again.
pub unmap_range-RangeMapped :
    {m : Machine} {root : ℕ} {level path : ℕ → ℕ} (tree : IsTree m root level path) (virt size : ℕ)
    → virt % 4096 ≡ 0
    → size + 4095 < 2 ^ 64
    → page_of virt + (size + 4095) / 4096 ≤ 2 ^ 36
    → virt + (size + 4095) / 4096 * 4096 ≤ 2 ^ 64
    → Returns
        (λ _ m'. RangeMapped m root (page_of virt) ((size + 4095) / 4096) (λ _. none) m')
        (unmap_range root virt size m)
unfolding unmap_range
unmap_range-RangeMapped {m = m} tree virt size al bounded fits fits' =
    rw (root_aligned tree, mod→aligned virt al, page_count_eq size bounded)
      (unmap_loop-RangeMapped virt ((size + 4095) / 4096) al fits fits' ((size + 4095) / 4096) 0 m
        (omega arith) (no_page (page_of virt) nothing tree))
