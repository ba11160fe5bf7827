-- ===== src/Kernel/Boot.antt =====
-- The start of the kernel: it goes on only with all the boot loader's answers.
use rainstorm_os.Base.{
  ℕ, ◌≡◌, refl, Bool, true, false, List, [], ◌∷◌, Option, none, some, arith, Run, ok, halted,
  Bool-cases, inl, inr, ap,
}
use rainstorm_os.Memory.Pmm.Init.{Entry}
use rainstorm_os.Kernel.{
  LimineFramebuffer, Requests, Kernel, halt, no_framebuffer, is_null, validate_limine_or_halt,
}

-- The boot loader knows the revision and answered every request, with a framebuffer at least.
pub record IsAnswered (q : Requests) : Type 0 where
  pub supported : q.revision_supported ≡ true
  pub first : LimineFramebuffer
  pub rest : List LimineFramebuffer
  pub has_framebuffer : q.framebuffers ≡ some (first ∷ rest)
  pub entries : List Entry
  pub has_memmap : q.memmap ≡ some entries
  pub offset : ℕ
  pub has_offset : q.hhdm_offset ≡ some offset
  pub bases : ℕ × ℕ
  pub has_bases : q.physical_virtual_base ≡ some bases

pub data Validated (q : Requests) (k : Kernel) : Run Kernel (Unit {0}) → Type 0 where
  goes_on : IsAnswered q → Validated q k (ok tt k)
  stops :
      (IsAnswered q → ⊥)
      → Validated q k (halted (record k { console = record k.console { interrupts = false } }))

some_inside : {A : Type 0} (o : Option A) → is_null o ≡ false → (a : A) × (o ≡ some a)
some_inside none e = absurd (ground (arith, e))
some_inside (some a) e = (a, refl)

framebuffer_inside :
    (o : Option (List LimineFramebuffer))
    → no_framebuffer o ≡ false
    → (fb : LimineFramebuffer) × (fbs : List LimineFramebuffer) × (o ≡ some (fb ∷ fbs))
framebuffer_inside none e = absurd (ground (arith, e))
framebuffer_inside (some []) e = absurd (ground (arith, e))
framebuffer_inside (some (fb ∷ fbs)) e = (fb, fbs, refl)

-- A test that fails for answered requests stops the kernel.
missing :
    {q : Requests} (test : Requests → Bool)
    → test q ≡ true
    → (IsAnswered q → test q ≡ false)
    → IsAnswered q
    → ⊥
missing test e answered a = absurd (ground (arith, e, answered a))

-- `validate_limine_or_halt` returns and changes nothing if the revision is supported and every
-- request is answered, with a framebuffer at least; otherwise it halts with the interrupts off.
pub validate_limine_or_halt-Validated :
    (q : Requests) (k : Kernel) → Validated q k (validate_limine_or_halt q k)
unfolding validate_limine_or_halt halt
validate_limine_or_halt-Validated q k = elim (Bool-cases q.revision_supported) [
  | inr e ↦ simp e (stops (λ a. ground (arith, a.supported, e)))
  | inl known ↦ elim (Bool-cases (no_framebuffer q.framebuffers)) [
    | inl e ↦
        simp (known, e)
          (stops (
            missing (λ q. no_framebuffer q.framebuffers) e
              (λ a. ap no_framebuffer a.has_framebuffer)))
    | inr fb ↦ elim (Bool-cases (is_null q.memmap)) [
      | inl e ↦
          simp (known, fb, e)
            (stops (missing (λ q. is_null q.memmap) e (λ a. ap is_null a.has_memmap)))
      | inr map ↦ elim (Bool-cases (is_null q.hhdm_offset)) [
        | inl e ↦
            simp (known, fb, map, e)
              (stops (missing (λ q. is_null q.hhdm_offset) e (λ a. ap is_null a.has_offset)))
        | inr offset ↦ elim (Bool-cases (is_null q.physical_virtual_base)) [
          | inl e ↦
              simp (known, fb, map, offset, e)
                (stops
                  (missing (λ q. is_null q.physical_virtual_base) e (λ a. ap is_null a.has_bases)))
          | inr bases ↦
              simp (known, fb, map, offset, bases) (goes_on (all known fb map offset bases))
        ]
      ]
    ]
  ]
]
  where
    all :
        q.revision_supported ≡ true
        → no_framebuffer q.framebuffers ≡ false
        → is_null q.memmap ≡ false
        → is_null q.hhdm_offset ≡ false
        → is_null q.physical_virtual_base ≡ false
        → IsAnswered q
    all known fb map offset bases =
        let (first, rest, has) = framebuffer_inside q.framebuffers fb in
        let (entries, has') = some_inside q.memmap map in
        let (o, has'') = some_inside q.hhdm_offset offset in
        let (b, has''') = some_inside q.physical_virtual_base bases in
        record {
          supported = known;
          first = first;
          rest = rest;
          has_framebuffer = has;
          entries = entries;
          has_memmap = has';
          offset = o;
          has_offset = has'';
          bases = b;
          has_bases = has''';
        }
