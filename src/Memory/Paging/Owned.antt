-- ===== src/Memory/Paging/Owned.antt =====
-- Which frames an address space has of its own: the tables of its lower half and no other.
pub mod Calls
pub mod Freed
pub mod Changes
pub mod Lifetime
use rainstorm_os.Base.{
  ℕ, suc, ◌+◌, ◌*◌, ◌/◌, ◌≤◌, ◌<◌, ◌≡◌, ◌≢◌, refl, Bool, true, false, ◌&&◌, ◌||◌, ◌==◌, ltb, arith,
  ◌∙◌, ap, sym, ◌⊎◌, inl, inr, Bool-cases,
}
use rainstorm_os.Memory.Pmm.State.{allocated}
use rainstorm_os.Memory.Paging.{Machine, slot, set_word}
use rainstorm_os.Memory.Paging.Tree.{IsTree}
use rainstorm_os.Memory.Paging.Grown.{Grown}
use rainstorm_os.Memory.Paging.Leaf.{SamePmm}
use rainstorm_os.Memory.Paging.Steps.{Linked, link, keep, child_level, child_path}

-- A table of the lower half, the root included, by its level and path.
unfoldable pub is_lower : (level path : ℕ) → Bool
is_lower level path =
    level == 4
    || level == 3 && ltb path 256
    || level == 2 && ltb path (256 * 512)
    || level == 1 && ltb path (256 * 512 * 512)

-- The table and the entry that lead to `t`.
pub record Parent (m : Machine) (level path : ℕ → ℕ) (t : ℕ) : Type 0 where
  pub table : ℕ
  pub index : ℕ
  pub in_table : index < 512
  pub lower : is_lower (level table) (path table) ≡ true
  pub above : level table ≡ suc (level t)
  pub linked : Linked m.word table index t

-- The frames in use are those of `base` and the tables of the lower half; these are not of `base`,
-- and each is reached from the root.
pub record Owned (base : ℕ → Bool) (root : ℕ) (m : Machine) (level path : ℕ → ℕ) : Type 0 where
  pub only_root : (t : ℕ) → level t ≡ 4 → t ≡ root
  pub parent : (t : ℕ) → is_lower (level t) (path t) ≡ true → t ≢ root → Parent m level path t
  pub in_use :
      (f : ℕ)
      → allocated m.pmm f ≡ true
      → (base f ≡ true) ⊎ (is_lower (level (f * 4096)) (path (f * 4096)) ≡ true)
  pub kept : (f : ℕ) → base f ≡ true → allocated m.pmm f ≡ true
  pub own : (f : ℕ) → is_lower (level (f * 4096)) (path (f * 4096)) ≡ true → base f ≡ false

pub lower-lt : (l p : ℕ) → is_lower l p ≡ true → 0 < l
unfolding is_lower
lower-lt l p h = ground (arith, h)

pub lower-le : (l p : ℕ) → is_lower l p ≡ true → l ≤ 4
unfolding is_lower
lower-le l p h = ground (arith, h)

module _ {base : ℕ → Bool} {m m' : Machine} {root t i c : ℕ} {level path : ℕ → ℕ}
    (owned : Owned base root m level path) (g : Grown m root level path t i c m') (up : 1 < level t)
    (h : i < 512) (here : is_lower (level t) (path t) ≡ true)
    (there : is_lower (g.level' c) (g.path' c) ≡ true) where
  old_lower :
      (a : ℕ) → 0 < level a → is_lower (g.level' a) (g.path' a) ≡ is_lower (level a) (path a)
  old_lower a old = rw (g.keeps_level a old, g.keeps_path a old) refl

  old_above : (a : ℕ) → 0 < level a → Parent m level path a → Parent m' g.level' g.path' a
  old_above a old p = record {
    table = p.table;
    index = p.index;
    in_table = p.in_table;
    lower = old_lower p.table (omega (arith, p.above)) ∙ p.lower;
    above =
        omega (arith, p.above, g.keeps_level a old, g.keeps_level p.table (omega (arith, p.above)));
    linked = keep g p.table p.index a (omega (arith, p.above, old)) p.in_table p.linked;
  }

  new_above : Parent m' g.level' g.path' c
  new_above = record {
    table = t;
    index = i;
    in_table = h;
    lower = old_lower t (omega (arith, up)) ∙ here;
    above = omega (arith, child_level g up h, g.keeps_level t (omega (arith, up)));
    linked = link g;
  }

  pub Owned-Grown : Owned base root m' g.level' g.path'
  Owned-Grown = record {
    only_root = λ a at. elim (g.new_table a (omega (arith, at))) [
      | inl old ↦ owned.only_root a (sym (g.keeps_level a old) ∙ at)
      | inr (e, unused) ↦
          absurd
            (omega (arith, at, ap g.level' e, child_level g up h, lower-le (level t) (path t) here))
    ];
    parent = λ a lower ne. elim (g.new_table a (lower-lt _ _ lower)) [
      | inl old ↦ old_above a old (owned.parent a (sym (old_lower a old) ∙ lower) ne)
      | inr (e, unused) ↦ rw e new_above
    ];
    in_use = λ f used. elim (g.new_frame f used) [
      | inl before ↦ elim (owned.in_use f before) [
        | inl of_base ↦ inl of_base
        | inr lower ↦ inr (old_lower (f * 4096) (lower-lt _ _ lower) ∙ lower)
      ]
      | inr e ↦ inr (rw e there)
    ];
    kept = λ f of_base. g.keeps_frames f (owned.kept f of_base);
    own = λ f lower. elim (g.new_table (f * 4096) (lower-lt _ _ lower)) [
      | inl old ↦ owned.own f (sym (old_lower (f * 4096) old) ∙ lower)
      | inr (e, unused) ↦ elim (Bool-cases (base f)) [
        | inl of_base ↦
            let frame : f * 4096 / 4096 ≡ f = omega arith in
            absurd (ground (arith, owned.kept f of_base, rw frame at unused))
        | inr not_base ↦ not_base
      ]
    ];
  }

-- A write to a table of the last level keeps the tables.
pub Owned-same :
    {base : ℕ → Bool} {m m' : Machine} {root : ℕ} {level path : ℕ → ℕ}
    → Owned base root m level path
    → SamePmm m'.pmm m.pmm
    → ((a j : ℕ) → 1 < level a → j < 512 → m'.word (slot a j) ≡ m.word (slot a j))
    → Owned base root m' level path
Owned-same owned pmm same = record {
  only_root = owned.only_root;
  parent = λ t lower ne.
      let p = owned.parent t lower ne in
      let e = same p.table p.index (omega (arith, p.above, lower-lt _ _ lower)) p.in_table in
      record {
        table = p.table;
        index = p.index;
        in_table = p.in_table;
        lower = p.lower;
        above = p.above;
        linked = rw e p.linked;
      };
  in_use = λ f used. owned.in_use f (sym (pmm.frames f) ∙ used);
  kept = λ f of_base. pmm.frames f ∙ owned.kept f of_base;
  own = owned.own;
}
