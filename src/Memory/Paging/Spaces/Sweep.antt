-- ===== src/Memory/Paging/Spaces/Sweep.antt =====
-- The frames of tables that are freed one by one, and what a loop over a table's entries leaves.
use rainstorm_os.Base.{
  ℕ, zero, suc, ◌+◌, ◌*◌, ◌/◌, ◌≤◌, ◌<◌, ◌≡◌, refl, true, false, arith, ◌∙◌, ok, returns, Returns,
  Ends-mono, lt→ltb, Bool-cases, inl, inr, ◌⊎◌, ◌==◌, dec_lt,
}
use rainstorm_os.Memory.Pmm.{free_frame}
use rainstorm_os.Memory.Pmm.State.{allocated, IsValid}
use rainstorm_os.Memory.Pmm.Free.{free_frame-freed, allocated-freed, freed-total, freed-IsValid}
use rainstorm_os.Memory.Paging.{Machine, lift, lifted, present, target, slot, read_entry}
use rainstorm_os.Memory.Paging.Tree.{IsTree}

module _ {m : Machine} {root : ℕ} {level path : ℕ → ℕ} (tree : IsTree m root level path) where
  -- The tables of the address space's own: its root, and those below the first 256 entries of it.
  abbrev pub IsLower : ℕ → Type 0
  IsLower t =
      (level t ≡ 4)
      ⊎ (((level t ≡ 3) × (path t < 256))
          ⊎ (((level t ≡ 2) × (path t < 256 * 512)) ⊎ ((level t ≡ 1) × (path t < 256 * 512 * 512))))

  -- The words are as in `m`; frames may be freed, but only those of such tables.
  pub record Shrunk (m1 : Machine) : Type 0 where
    pub words : m1.word ≡ m.word
    pub valid : IsValid m1.pmm
    pub total : m1.pmm.total_frames ≡ m.pmm.total_frames
    pub others : (f : ℕ) → (IsLower (f * 4096) → ⊥) → allocated m1.pmm f ≡ allocated m.pmm f
    pub fewer : (f : ℕ) → allocated m1.pmm f ≡ true → allocated m.pmm f ≡ true

  -- Every table down to `d` levels below the one at `t` has its frame free.
  unfoldable pub Freed : (d : ℕ) → Machine → ℕ → Type 0
  Freed zero m1 t = allocated m1.pmm (t / 4096) ≡ false
  Freed (suc d) m1 t =
      (allocated m1.pmm (t / 4096) ≡ false)
      × ((i : ℕ)
          → i < 512
          → present (m.word (slot t i)) ≡ true
          → Freed d m1 (target (m.word (slot t i))))

  -- No frame is taken again.
  abbrev pub Stays : Machine → Machine → Type 0
  Stays m1 m2 = (f : ℕ) → allocated m1.pmm f ≡ false → allocated m2.pmm f ≡ false

  pub Freed-Stays : (d t : ℕ) (m1 m2 : Machine) → Stays m1 m2 → Freed d m1 t → Freed d m2 t
  unfolding Freed
  Freed-Stays zero t m1 m2 stays h = stays _ h
  Freed-Stays (suc d) t m1 m2 stays (h, below) =
      (stays _ h, λ i lt here. Freed-Stays d _ _ _ stays (below i lt here))

  -- A loop over the entries of the table at `t`, from `i` on: what each leads to is freed.
  pub record Swept (m1 : Machine) (d t i n : ℕ) (m2 : Machine) : Type 0 where
    pub shrunk : Shrunk m2
    pub stays : Stays m1 m2
    pub swept :
        (k : ℕ)
        → i ≤ k
        → k < n
        → present (m.word (slot t k)) ≡ true
        → Freed d m2 (target (m.word (slot t k)))

  pub Swept-none : (d t i : ℕ) {m1 : Machine} → Shrunk m1 → Swept m1 d t i (zero + i) m1
  Swept-none d t i s = record {
    shrunk = s;
    stays = λ f h. h;
    swept = λ k from to. absurd (omega (arith, from, to));
  }

  pub Swept-one :
      (d t i n : ℕ) {m1 m2 m3 : Machine}
      → Stays m1 m2
      → Freed d m2 (target (m.word (slot t i)))
      → Swept m2 d t (i + 1) (n + (i + 1)) m3
      → Swept m1 d t i (suc n + i) m3
  Swept-one d t i n stays first rest = record {
    shrunk = rest.shrunk;
    stays = λ f h. rest.stays f (stays f h);
    swept = λ k from to here. elim (dec_lt i k) [
      | no ge ↦
          let same : k ≡ i = omega (arith, ge, from) in
          rw same (Freed-Stays d _ _ _ rest.stays first)
      | yes later ↦ rest.swept k (omega (arith, later)) (omega (arith, to)) here
    ];
  }

  pub Swept-gap :
      (d t i n : ℕ) {m1 m2 : Machine}
      → present (m.word (slot t i)) ≡ false
      → Swept m1 d t (i + 1) (n + (i + 1)) m2
      → Swept m1 d t i (suc n + i) m2
  Swept-gap d t i n gone rest = record {
    shrunk = rest.shrunk;
    stays = rest.stays;
    swept = λ k from to here. elim (dec_lt i k) [
      | no ge ↦
          let same : i ≡ k = omega (arith, ge, from) in absurd (grind (arith, here, gone, same))
      | yes later ↦ rest.swept k (omega (arith, later)) (omega (arith, to)) here
    ];
  }

  pub free_table :
      (t : ℕ) (m1 : Machine)
      → IsLower t
      → Shrunk m1
      → Returns
          (λ _ m2. Shrunk m2 × Stays m1 m2 × (allocated m2.pmm (t / 4096) ≡ false))
          (lift (free_frame t) m1)
  unfolding lifted
  free_table t m1 lower s =
      let up : 0 < level t = omega (arith, lower) in
      let al = tree.aligned t up in
      rw (free_frame-freed s.valid t) (
        returns (
          record {
            words = s.words;
            valid = freed-IsValid s.valid t;
            total = freed-total s.valid t ∙ s.total;
            others =
                λ f none. ground (arith, allocated-freed s.valid t f, s.others f none, kept f none);
            fewer = λ f h. s.fewer f (ground (arith, allocated-freed s.valid t f));
          },
          λ f h. ground (arith, allocated-freed s.valid t f),
          ground (arith, allocated-freed s.valid t (t / 4096), tree.tracked t up, s.total),
        ))
    where
      kept : (f : ℕ) → (IsLower (f * 4096) → ⊥) → (t / 4096 == f) ≡ false
      kept f none = elim (Bool-cases (t / 4096 == f)) [
        | inl e ↦
            let here : f * 4096 ≡ t = ground (arith, tree.aligned t (omega (arith, lower)), e) in
            absurd (none (rw here lower))
        | inr ne ↦ ne
      ]

  -- The table at `t` after the loop over its 512 entries.
  pub free-Swept :
      (d t : ℕ) {m1 : Machine} (m2 : Machine)
      → IsLower t
      → Swept m1 d t 0 (512 + 0) m2
      → Returns (λ _ m3. Shrunk m3 × Stays m1 m3 × Freed (suc d) m3 t) (lift (free_frame t) m2)
  unfolding Freed
  free-Swept d t m2 lower sw =
      Ends-mono (free_table t m2 lower sw.shrunk)
        (λ _ m3 (s3, stays, gone). (
          s3,
          (λ f h. stays f (sw.stays f h)),
          (
            gone,
            λ i lt here. Freed-Stays d _ _ _ stays (sw.swept i (omega arith) (omega arith) here),
          ),
        ))
        (λ _ _ never. never)

  pub read_table :
      (t i : ℕ) (m1 : Machine)
      → 0 < level t
      → Shrunk m1
      → read_entry t i m1 ≡ ok (m.word (slot t i)) m1
  unfolding read_entry
  read_table t i m1 up s =
      rw
        (lt→ltb (t / 4096) m1.pmm.total_frames (omega (arith, tree.tracked t up, s.total)), s.words)
        refl
