-- ===== src/Cpu/Stubs/Stack.antt =====
-- The stack as a list of words.
use rainstorm_os.Base.{ℕ, suc, ◌+◌, ◌*◌, ◌^◌, ◌≤◌, ◌<◌, ◌≡◌, refl, List, [], ◌∷◌, arith, ◌∙◌, u64}
use rainstorm_os.Cpu.Stubs.{Cpu, Register, value_of, pushed, below, next_up}

-- From `p` up, memory holds the words of a list; they end before the top of the address space.
pub data Holds (word : ℕ → ℕ) : (p : ℕ) → List ℕ → Type 0 where
  top : {p : ℕ} → p < 2 ^ 64 → Holds word p []
  cell : {p v : ℕ} {vs : List ℕ} → word p ≡ v → Holds word (p + 8) vs → Holds word p (v ∷ vs)

Holds-lt : {word : ℕ → ℕ} {p : ℕ} {vs : List ℕ} → Holds word p vs → p < 2 ^ 64
Holds-lt (top h) = h
Holds-lt (cell e h) = omega (arith, Holds-lt h)

-- Only the words from `p` up matter.
pub Holds-above :
    {word word' : ℕ → ℕ} {p : ℕ} {vs : List ℕ}
    → ((a : ℕ) → p ≤ a → word' a ≡ word a)
    → Holds word p vs
    → Holds word' p vs
Holds-above same (top h) = top h
Holds-above {p = p} same (cell e h) =
    cell (same p (omega arith) ∙ e) (Holds-above (λ a k. same a (omega arith)) h)

-- The stack of `c` has the words of a list, and room for `n` more above `base`.
pub record Stacked (base n : ℕ) (c : Cpu) (vs : List ℕ) : Type 0 where
  pub holds : Holds c.word c.rsp vs
  pub at : c.rsp ≡ base + 8 * n

pub pushed-Stacked :
    {base n : ℕ} {c : Cpu} {vs : List ℕ} (v : ℕ)
    → Stacked base (suc n) c vs
    → Stacked base n (pushed v c) (v ∷ vs)
unfolding pushed
pushed-Stacked {n = n} {c} {vs} v s =
    let small = Holds-lt s.holds in
    let up : below c.rsp + 8 ≡ c.rsp = omega (arith, small, s.at) in
    record {
      holds = cell (ground arith) (rw up (Holds-above (λ a k. ground (arith, up)) s.holds));
      at = omega (arith, s.at, small);
    }

-- The stack alone changes no other register.
pub value_of-stack :
    (r : Register) (p : ℕ) (w : ℕ → ℕ) (c : Cpu)
    → value_of r (record c { rsp = p; word = w }) ≡ value_of r c
value_of-stack Register.rax p w c = refl
value_of-stack Register.rbx p w c = refl
value_of-stack Register.rcx p w c = refl
value_of-stack Register.rdx p w c = refl
value_of-stack Register.rsi p w c = refl
value_of-stack Register.rdi p w c = refl
value_of-stack Register.rbp p w c = refl
value_of-stack Register.r8 p w c = refl
value_of-stack Register.r9 p w c = refl
value_of-stack Register.r10 p w c = refl
value_of-stack Register.r11 p w c = refl
value_of-stack Register.r12 p w c = refl
value_of-stack Register.r13 p w c = refl
value_of-stack Register.r14 p w c = refl
value_of-stack Register.r15 p w c = refl

-- The first word, and the words after the first and after the first two.
pub Holds-first : {word : ℕ → ℕ} {p v : ℕ} {vs : List ℕ} → Holds word p (v ∷ vs) → word p ≡ v
Holds-first (cell e h) = e

pub Holds-next :
    {word : ℕ → ℕ} {p v : ℕ} {vs : List ℕ} → Holds word p (v ∷ vs) → Holds word (next_up p) vs
Holds-next {word} {p} {vs = vs} (cell e h) =
    let up : next_up p ≡ p + 8 = omega (arith, Holds-lt h) in rw up h

pub Holds-after_two :
    {word : ℕ → ℕ} {p v v' : ℕ} {vs : List ℕ}
    → Holds word p (v ∷ v' ∷ vs)
    → Holds word (u64 (p + 16)) vs
Holds-after_two {p = p} (cell e (cell e' h)) =
    let up : u64 (p + 16) ≡ p + 8 + 8 = omega (arith, Holds-lt h) in rw up h
