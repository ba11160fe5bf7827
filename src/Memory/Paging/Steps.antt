-- ===== src/Memory/Paging/Steps.antt =====
-- The three steps down from the root that `paging_map` takes, together.
use rainstorm_os.Base.{ℕ, suc, ◌+◌, ◌*◌, ◌^◌, ◌<◌, ◌≡◌, true, arith, ◌∙◌, ap}
use rainstorm_os.Memory.Paging.{Machine, present, target, slot}
use rainstorm_os.Memory.Paging.Entries.{index_at}
use rainstorm_os.Memory.Paging.Tree.{IsTree, look, lookup, look_step}
use rainstorm_os.Memory.Paging.Grown.{Grown}

-- The entry that leads from a table to the next.
abbrev pub Linked : (ℕ → ℕ) → (t i c : ℕ) → Type 0
Linked w t i c = (present (w (slot t i)) ≡ true) × (target (w (slot t i)) ≡ c)

pub look-Linked :
    (d : ℕ) (w : ℕ → ℕ) (t page c : ℕ)
    → Linked w t (index_at (suc d) page) c
    → look (suc d) w t page ≡ look d w c page
look-Linked d w t page c (here, leads) = look_step d w t page here ∙ ap (λ u. look d w u page) leads

module _ {m m' : Machine} {root t i c : ℕ} {level path : ℕ → ℕ}
    (g : Grown m root level path t i c m') where
  pub link : Linked m'.word t i c
  link = (g.linked, g.leads)

  pub keep : (a j b : ℕ) → 1 < level a → j < 512 → Linked m.word a j b → Linked m'.word a j b
  keep a j b up h (here, leads) =
      (g.keeps_links a j up h here, g.keeps_targets a j up h here ∙ leads)

  -- The table that is reached, one level down.
  pub child_level : (up : 1 < level t) (h : i < 512) → suc (g.level' c) ≡ level t
  child_level up h = omega (
    arith,
    g.keeps_level t (omega arith),
    g.tree.below t i (omega (arith, g.keeps_level t (omega arith))) h g.linked,
    ap g.level' g.leads,
  )

  pub child_path : (up : 1 < level t) (h : i < 512) → g.path' c ≡ path t * 512 + i
  child_path up h = omega (
    arith,
    g.keeps_path t (omega arith),
    g.tree.extends_path t i (omega (arith, g.keeps_level t (omega arith))) h g.linked,
    ap g.path' g.leads,
  )

-- The last table of a page is reached: the upper entries lead to it, whatever the last tables hold.
pub record Reached (m : Machine) (root page pt : ℕ) (m' : Machine) : Type 0 where
  pub level' : ℕ → ℕ
  pub path' : ℕ → ℕ
  pub tree : IsTree m' root level' path'
  pub last : level' pt ≡ 1
  pub at : path' pt * 512 + index_at 0 page ≡ page
  pub leads :
      (w : ℕ → ℕ)
      → ((a j : ℕ) → 1 < level' a → j < 512 → w (slot a j) ≡ m'.word (slot a j))
      → look 3 w root page ≡ look 0 w pt page
  pub translations : (q : ℕ) → lookup m' root q ≡ lookup m root q
  pub same_flushes : m'.invalidated ≡ m.invalidated

-- Three steps down from the root.
module _ {m m1 m2 m3 : Machine} {root c1 c2 c3 : ℕ} (page : ℕ) {level path : ℕ → ℕ}
    (small : page < 2 ^ 36) (tree : IsTree m root level path)
    (g1 : Grown m root level path root (index_at 3 page) c1 m1)
    (g2 : Grown m1 root g1.level' g1.path' c1 (index_at 2 page) c2 m2)
    (g3 : Grown m2 root g2.level' g2.path' c2 (index_at 1 page) c3 m3) where
  level1 : g1.level' c1 ≡ 3
  level1 = omega (arith, child_level g1 (omega (arith, tree.is_root)) (omega arith), tree.is_root)

  level2 : g2.level' c2 ≡ 2
  level2 = omega (arith, child_level g2 (omega (arith, level1)) (omega arith), level1)

  pub level3 : g3.level' c3 ≡ 1
  level3 = omega (arith, child_level g3 (omega (arith, level2)) (omega arith), level2)

  pub path3 : g3.path' c3 * 512 + index_at 0 page ≡ page
  path3 = omega (
    arith,
    tree.root_path,
    child_path g1 (omega (arith, tree.is_root)) (omega arith),
    child_path g2 (omega (arith, level1)) (omega arith),
    child_path g3 (omega (arith, level2)) (omega arith),
  )

  root_level : g3.level' root ≡ 4
  root_level = g3.tree.is_root

  level1' : g3.level' c1 ≡ 3
  level1' =
      let two = g2.keeps_level c1 (omega (arith, level1)) in
      omega (arith, two, level1, g3.keeps_level c1 (omega (arith, level1, two)))

  level2' : g3.level' c2 ≡ 2
  level2' = omega (arith, level2, g3.keeps_level c2 (omega (arith, level2)))

  link1 : Linked m3.word root (index_at 3 page) c1
  link1 =
      keep g3 root (index_at 3 page) c1 (omega (arith, g2.tree.is_root)) (omega arith)
        (keep g2 root (index_at 3 page) c1 (omega (arith, g1.tree.is_root)) (omega arith) (link g1))

  link2 : Linked m3.word c1 (index_at 2 page) c2
  link2 =
      keep g3 c1 (index_at 2 page) c2
        (omega (arith, g2.keeps_level c1 (omega (arith, level1)), level1)) (omega arith) (link g2)

  pub look_reached :
      (w : ℕ → ℕ)
      → ((a j : ℕ) → 1 < g3.level' a → j < 512 → w (slot a j) ≡ m3.word (slot a j))
      → look 3 w root page ≡ look 0 w c3 page
  look_reached w kept =
      look-Linked 2 w root page c1
        (rw (kept root (index_at 3 page) (omega (arith, root_level)) (omega arith)) link1)
      ∙ (look-Linked 1 w c1 page c2
            (rw (kept c1 (index_at 2 page) (omega (arith, level1')) (omega arith)) link2)
          ∙ look-Linked 0 w c2 page c3
              (rw (kept c2 (index_at 1 page) (omega (arith, level2')) (omega arith)) (link g3)))

  unfoldable pub three_steps-Reached : Reached m root page c3 m3
  three_steps-Reached = record {
    level' = g3.level';
    path' = g3.path';
    tree = g3.tree;
    last = level3;
    at = path3;
    leads = look_reached;
    translations = λ q. g3.translations q ∙ (g2.translations q ∙ g1.translations q);
    same_flushes = g3.same_flushes ∙ (g2.same_flushes ∙ g1.same_flushes);
  }
