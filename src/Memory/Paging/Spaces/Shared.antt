-- ===== src/Memory/Paging/Spaces/Shared.antt =====
-- The tables of a new address space: its root, and the upper half that it shares with the kernel.
use rainstorm_os.Base.{
  ℕ, suc, ◌+◌, ◌-◌, ◌*◌, ◌/◌, ◌≤◌, ◌<◌, ◌≡◌, ◌≢◌, refl, sym, ap, ◌∙◌, Bool, true, false, ◌&&◌, ◌||◌,
  ◌==◌, leb, arith, if◌then◌else◌, ◌⊎◌, inl, inr, Bool-cases, dec_lt,
}
use rainstorm_os.Memory.Paging.{Machine, present, target, slot}
use rainstorm_os.Memory.Paging.Entries.{present-zero}
use rainstorm_os.Memory.Paging.Tree.{IsTree}
use rainstorm_os.Memory.Paging.Spaces.Create.{IsCreated}

-- A table of the upper half, by its level and path.
abbrev pub is_upper : (level path : ℕ) → Bool
is_upper level path =
    (level == 3) && leb 256 path
    || (level == 2) && leb (256 * 512) path
    || (level == 1) && leb (256 * 512 * 512) path

-- The kernel's tables at `kernel`, whose upper half is kept for new address spaces.
module _ {m : Machine} {kernel : ℕ} {level path : ℕ → ℕ} (tree : IsTree m kernel level path)
    (saved : (i : ℕ) → i < 256 → m.kernel_pml4_entries i ≡ m.word (slot kernel (i + 256))) where
  module _ {pml4 : ℕ} {m' : Machine} (made : IsCreated m pml4 m') where
    -- The tables of the new address space: its root, and those that it shares.
    unfoldable pub level_of : ℕ → ℕ
    level_of t = if t == pml4 then 4 else (if is_upper (level t) (path t) then level t else 0)

    unfoldable pub path_of : ℕ → ℕ
    path_of t = if t == pml4 then 0 else path t

    -- The new root is none of the kernel's tables.
    apart : (t : ℕ) → 0 < level t → t ≢ pml4
    apart t up e = ground (arith, tree.taken t up, made.free, ap (λ a. a / 4096) e)

    pub same_word : (t i : ℕ) → 0 < level t → i < 512 → m'.word (slot t i) ≡ m.word (slot t i)
    same_word t i up h =
        made.outside (slot t i) (ground (arith, apart t up, tree.aligned t up, made.aligned))

    -- An entry of the new root is an entry of the kernel's upper half.
    pub upper_entry : (i : ℕ) → 256 ≤ i → i < 512 → m'.word (slot pml4 i) ≡ m.word (slot kernel i)
    upper_entry i h h' =
        let e : i - 256 + 256 ≡ i = omega arith in
        rw e at (made.shared (i - 256) (omega arith) ∙ saved (i - 256) (omega arith))

    -- A table of the kernel's upper half has the same place in the new address space.
    place :
        (c l p : ℕ)
        → level c ≡ l
        → path c ≡ p
        → 0 < l
        → is_upper l p ≡ true
        → (level_of c ≡ l) × (path_of c ≡ p)
    unfolding level_of path_of
    place c l p e e' up upper =
        let other : (c == pml4) ≡ false = ground (arith, apart c (omega (arith, e))) in
        rw (other, e, e', upper) (refl, refl)

    root_child :
        (i : ℕ)
        → i < 512
        → present (m'.word (slot pml4 i)) ≡ true
        → (level_of (target (m'.word (slot pml4 i))) ≡ 3)
          × (path_of (target (m'.word (slot pml4 i))) ≡ i)
    root_child i h on = elim (dec_lt i 256) [
      | yes low ↦ absurd (ground (arith, on, ap present (made.empty i low), present-zero))
      | no high ↦
          let same = upper_entry i (omega (arith, high)) h in
          let on' : present (m.word (slot kernel i)) ≡ true = ap present (sym same) ∙ on in
          let top = tree.is_root in
          let down = tree.below kernel i (omega (arith, top)) h on' in
          let along = tree.extends_path kernel i (omega (arith, top)) h on' in
          rw same (
            place (target (m.word (slot kernel i))) 3 i (omega (arith, down, top))
              (omega (arith, along, tree.root_path)) (omega arith) (ground (arith, high)))
    ]

    lower_child :
        (t i : ℕ)
        → 1 < level t
        → is_upper (level t) (path t) ≡ true
        → i < 512
        → present (m'.word (slot t i)) ≡ true
        → (suc (level_of (target (m'.word (slot t i)))) ≡ level t)
          × (path_of (target (m'.word (slot t i))) ≡ path t * 512 + i)
    lower_child t i up upper h on =
        let same = same_word t i (omega (arith, up)) h in
        let on' : present (m.word (slot t i)) ≡ true = ap present (sym same) ∙ on in
        let down = tree.below t i up h on' in
        let along = tree.extends_path t i up h on' in
        let (at, along') =
          place (target (m.word (slot t i))) (level t - 1) (path t * 512 + i) (omega (arith, down))
            along (omega (arith, up)) (ground (arith, upper, up)) in
        rw same (omega (arith, at, up), along')

    pub root_place : (level_of pml4 ≡ 4) × (path_of pml4 ≡ 0)
    unfolding level_of path_of
    root_place = (ground arith, ground arith)

    -- Another table of the new address space is one of the kernel's upper half.
    pub shared_place :
        (t : ℕ)
        → (t == pml4) ≡ false
        → 0 < level_of t
        → (is_upper (level t) (path t) ≡ true) × (level_of t ≡ level t) × (path_of t ≡ path t)
    unfolding level_of path_of
    shared_place t ne up = elim (Bool-cases (is_upper (level t) (path t))) [
      | inl upper ↦ rw (ne, upper) (refl, refl, refl)
      | inr not_upper ↦ absurd (ground (arith, rw (ne, not_upper) at up))
    ]

    is_below :
        (t i : ℕ)
        → 1 < level_of t
        → i < 512
        → present (m'.word (slot t i)) ≡ true
        → (suc (level_of (target (m'.word (slot t i)))) ≡ level_of t)
          × (path_of (target (m'.word (slot t i))) ≡ path_of t * 512 + i)
    is_below t i up h on = elim (Bool-cases (t == pml4)) [
      | inl e ↦
          let same : t ≡ pml4 = ground (arith, e) in
          let (at, along) = root_child i h (rw same at on) in
          rw (same, at, along, root_place.0, root_place.1) (refl, omega arith)
      | inr ne ↦
          let (upper, at, along) = shared_place t ne (omega (arith, up)) in
          rw (at, along) (lower_child t i (omega (arith, up, at)) upper h on)
    ]

    its_table :
        (t : ℕ)
        → 0 < level_of t
        → (t ≡ pml4) ⊎ ((0 < level t) × (is_upper (level t) (path t) ≡ true))
    its_table t up = elim (Bool-cases (t == pml4)) [
      | inl e ↦ inl (ground (arith, e))
      | inr ne ↦ let (upper, at, along) = shared_place t ne up in inr (omega (arith, at, up), upper)
    ]

    pub created-IsTree : IsTree m' pml4 level_of path_of
    created-IsTree = record {
      valid = made.valid;
      small = rw made.total tree.small;
      is_root = root_place.0;
      root_path = root_place.1;
      aligned = λ t up. elim (its_table t up) [
        | inl e ↦ rw e made.aligned
        | inr (old, upper) ↦ tree.aligned t old
      ];
      tracked = λ t up. elim (its_table t up) [
        | inl e ↦ rw (e, made.total) made.tracked
        | inr (old, upper) ↦ rw made.total (tree.tracked t old)
      ];
      taken = λ t up. elim (its_table t up) [
        | inl e ↦ rw e (ground (arith, made.frames (pml4 / 4096)))
        | inr (old, upper) ↦ ground (arith, made.frames (t / 4096), tree.taken t old)
      ];
      below = λ t i up h on. (is_below t i up h on).0;
      extends_path = λ t i up h on. (is_below t i up h on).1;
    }
