-- ===== src/Memory/Paging/Spaces/Regions.antt =====
-- Ranges that are mapped one after the other: a later one hides what an earlier one mapped.
use rainstorm_os.Base.{
  ℕ, ◌+◌, ◌-◌, ◌*◌, ◌/◌, ◌%◌, ◌^◌, ◌≤◌, ◌<◌, ◌≡◌, Bool, ◌&&◌, Option, none, List, [], ◌∷◌, leb, ltb,
  arith, if◌then◌else◌, ◌∙◌, ap, sym, Ends, Ends-mono, Bool-cases, inl, inr,
}
use rainstorm_os.Memory.Paging.{Machine, map_range}
use rainstorm_os.Memory.Paging.Entries.{AreFlags, page_of}
use rainstorm_os.Memory.Paging.Tree.{IsTree, lookup}
use rainstorm_os.Memory.Paging.Grown.{OutOfMemory}
use rainstorm_os.Memory.Paging.Ranges.{RangeMapped, onto, map_range-RangeMapped}

pub record Region : Type 0 where
  pub virt : ℕ
  pub phys : ℕ
  pub size : ℕ
  pub flags : ℕ

abbrev pub pages : Region → ℕ
pages r = (r.size + 4095) / 4096

abbrev pub covers : Region → ℕ → Bool
covers r q = leb (page_of r.virt) q && ltb q (page_of r.virt + pages r)

-- The translation of a page where the regions were mapped, the last of them first.
unfoldable pub translation : List Region → ℕ → Option ℕ
translation [] q = none
translation (r ∷ rs) q =
    if covers r q then onto r.phys r.flags (q - page_of r.virt) else translation rs q

-- The region is aligned, and neither of its ranges wraps around.
pub record Fits (r : Region) : Type 0 where
  pub virt_aligned : r.virt % 4096 ≡ 0
  pub phys_aligned : r.phys % 4096 ≡ 0
  pub are_flags : AreFlags r.flags
  pub bounded : r.size + 4095 < 2 ^ 64
  pub in_space : page_of r.virt + pages r ≤ 2 ^ 36
  pub virt_end : r.virt + pages r * 4096 ≤ 2 ^ 64
  pub phys_end : r.phys + pages r * 4096 ≤ 2 ^ 64

-- A tree of tables at `root` that translates what `rs` says.
pub record IsMapped (root : ℕ) (rs : List Region) (m : Machine) : Type 0 where
  pub level' : ℕ → ℕ
  pub path' : ℕ → ℕ
  pub tree : IsTree m root level' path'
  pub translates : (q : ℕ) → q < 2 ^ 36 → lookup m root q ≡ translation rs q

region_translates :
    {m m' : Machine} {root : ℕ} (rs : List Region) (r : Region)
    → Fits r
    → ((q : ℕ) → q < 2 ^ 36 → lookup m root q ≡ translation rs q)
    → RangeMapped m root (page_of r.virt) (pages r) (onto r.phys r.flags) m'
    → (q : ℕ) → q < 2 ^ 36
    → lookup m' root q ≡ translation (r ∷ rs) q
unfolding translation
region_translates {m' = m'} {root = root} rs r fits before mapped q h =
    elim (Bool-cases (covers r q)) [
      | inl covered ↦
          let index : page_of r.virt + (q - page_of r.virt) ≡ q = ground arith in
          rw covered
            (ap (lookup m' root) (sym index) ∙ mapped.inside (q - page_of r.virt) (ground arith))
      | inr outside ↦ rw outside (mapped.outside q h (ground arith) ∙ before q h)
    ]

-- `paging_map_range` of a region that fits puts it before the regions mapped so far.
pub map_range-IsMapped :
    {m : Machine} {root : ℕ} {rs : List Region} (r : Region)
    → Fits r
    → IsMapped root rs m
    → Ends
        (λ _ m'. IsMapped root (r ∷ rs) m')
        OutOfMemory
        (map_range root r.virt r.phys r.size r.flags m)
map_range-IsMapped {rs = rs} r fits mapped =
    Ends-mono
      (map_range-RangeMapped mapped.tree r.virt r.phys r.size r.flags fits.virt_aligned
        fits.phys_aligned fits.are_flags fits.bounded fits.in_space fits.virt_end fits.phys_end)
      (λ _ m' more. record {
        level' = more.level';
        path' = more.path';
        tree = more.tree;
        translates = region_translates rs r fits mapped.translates more;
      })
      (λ _ _ q. q)
