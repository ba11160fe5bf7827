-- ===== src/Cpu/Stubs/Entry.antt =====
-- What a stub hands to isr_handler.
use mathlib.Core.Path.{subst}
use rainstorm_os.Base.{
  ℕ, ◌+◌, ◌-◌, ◌%◌, ◌^◌, ◌<◌, ◌≡◌, refl, List, [], ◌∷◌, arith, if◌then◌else◌, Bool-cases, inl, inr,
}
use rainstorm_os.Cpu.Isr.{Registers}
use rainstorm_os.Cpu.Stubs.{
  Cpu, Register, value_of, pushed, interrupted, pushes_error_code, is_isr_error, isr_entry,
  isr_save, step, run,
}
use rainstorm_os.Cpu.Stubs.Stack.{Holds, Stacked, pushed-Stacked, value_of-stack}

-- The structure in memory.
abbrev pub words_of : Registers → List ℕ
words_of r =
    r.r15 ∷ r.r14 ∷ r.r13 ∷ r.r12 ∷ r.r11 ∷ r.r10 ∷ r.r9 ∷ r.r8 ∷ r.rbp ∷ r.rdi ∷ r.rsi ∷ r.rdx
    ∷ r.rcx ∷ r.rbx ∷ r.rax ∷ r.interrupt_num ∷ r.error_code ∷ r.rip ∷ r.cs ∷ r.rflags ∷ r.rsp
    ∷ r.ss ∷ []

-- The registers of the interrupted code, with the vector and its error code.
abbrev pub saved : (vector error_code : ℕ) → Cpu → Registers
saved vector error_code c = record {
  r15 = c.r15;
  r14 = c.r14;
  r13 = c.r13;
  r12 = c.r12;
  r11 = c.r11;
  r10 = c.r10;
  r9 = c.r9;
  r8 = c.r8;
  rbp = c.rbp;
  rdi = c.rdi;
  rsi = c.rsi;
  rdx = c.rdx;
  rcx = c.rcx;
  rbx = c.rbx;
  rax = c.rax;
  interrupt_num = vector;
  error_code = if pushes_error_code vector then error_code else 0;
  rip = c.rip;
  cs = c.cs;
  rflags = c.rflags;
  rsp = c.rsp;
  ss = c.ss;
}

-- What isr_handler is called with: the address of the structure in rdi, and the stack aligned to 16
-- bytes as the calling convention wants it.
pub record Called (r : Registers) (c : Cpu) : Type 0 where
  pub argument : c.rdi ≡ c.rsp
  pub structure : Holds c.word c.rdi (words_of r)
  pub aligned : c.rsp % 16 ≡ 0

module _ (isr_handler : Cpu → Cpu) where
  -- The stack and the registers before the common part.
  pub record Entered (vector error_code base : ℕ) (c c' : Cpu) : Type 0 where
    pub stacked : Stacked base 15 c' (
        vector
        ∷ (if pushes_error_code vector then error_code else 0)
        ∷ c.rip
        ∷ c.cs
        ∷ c.rflags
        ∷ c.rsp
        ∷ c.ss
        ∷ [])
    pub registers : (r : Register) → value_of r c' ≡ value_of r c

  -- The stack of the processor's pushes.
  framed :
      (base : ℕ) (c : Cpu)
      → c.rsp - c.rsp % 16 ≡ base + 176
      → c.rsp < 2 ^ 64
      → Stacked base 22 (record c { rsp = c.rsp - c.rsp % 16 }) []
  framed base c e small = record { holds = Holds.top (omega arith); at = omega (arith, e) }

  pub entry-Entered :
      (vector error_code base : ℕ) (c : Cpu)
      → is_isr_error vector ≡ pushes_error_code vector
      → c.rsp - c.rsp % 16 ≡ base + 176
      → c.rsp < 2 ^ 64
      → Entered vector error_code base c
          (run isr_handler (isr_entry vector) (interrupted vector error_code c))
  unfolding run step interrupted pushed
  entry-Entered vector error_code base c agree e small =
      let five = pushed-Stacked c.rip (
        pushed-Stacked c.cs (
          pushed-Stacked c.rflags
            (pushed-Stacked c.rsp (pushed-Stacked c.ss (framed base c e small))))) in
      elim (Bool-cases (pushes_error_code vector)) [
        | inl coded ↦
            rw (agree, coded)
              (record {
                stacked = rw coded (pushed-Stacked vector (pushed-Stacked error_code five));
                registers = λ r. value_of-stack r _ _ c;
              })
        | inr plain ↦
            rw (agree, plain)
              (record {
                stacked = rw plain (pushed-Stacked vector (pushed-Stacked 0 five));
                registers = λ r. value_of-stack r _ _ c;
              })
      ]

  pub save-Called :
      (vector error_code base : ℕ) (c c' : Cpu)
      → Entered vector error_code base c c'
      → base % 16 ≡ 0
      → Called (saved vector error_code c) (run isr_handler isr_save c')
  unfolding run step pushed
  save-Called vector error_code base c c' entered al =
      let s = pushed-Stacked c'.r15 (
        pushed-Stacked c'.r14 (
          pushed-Stacked c'.r13 (
            pushed-Stacked c'.r12 (
              pushed-Stacked c'.r11 (
                pushed-Stacked c'.r10 (
                  pushed-Stacked c'.r9 (
                    pushed-Stacked c'.r8 (
                      pushed-Stacked c'.rbp (
                        pushed-Stacked c'.rdi (
                          pushed-Stacked c'.rsi (
                            pushed-Stacked c'.rdx (
                              pushed-Stacked c'.rcx (
                                pushed-Stacked c'.rbx
                                  (pushed-Stacked c'.rax entered.stacked)))))))))))))) in
      record {
        argument = refl;
        structure = subst (Holds _ _) (same_words c c' _ entered.registers) s.holds;
        aligned = omega (arith, s.at, al);
      }
    where
      same_words :
          (c c' : Cpu) (ws : List ℕ)
          → ((r : Register) → value_of r c' ≡ value_of r c)
          → (c'.r15 ∷ c'.r14 ∷ c'.r13 ∷ c'.r12 ∷ c'.r11 ∷ c'.r10 ∷ c'.r9 ∷ c'.r8 ∷ c'.rbp ∷ c'.rdi
              ∷ c'.rsi ∷ c'.rdx ∷ c'.rcx ∷ c'.rbx ∷ c'.rax ∷ ws)
            ≡ (c.r15 ∷ c.r14 ∷ c.r13 ∷ c.r12 ∷ c.r11 ∷ c.r10 ∷ c.r9 ∷ c.r8 ∷ c.rbp ∷ c.rdi ∷ c.rsi
                ∷ c.rdx ∷ c.rcx ∷ c.rbx ∷ c.rax ∷ ws)
      same_words c c' ws e =
          rw
            (
              e Register.r15,
              e Register.r14,
              e Register.r13,
              e Register.r12,
              e Register.r11,
              e Register.r10,
              e Register.r9,
              e Register.r8,
              e Register.rbp,
              e Register.rdi,
              e Register.rsi,
              e Register.rdx,
              e Register.rcx,
              e Register.rbx,
              e Register.rax,
            )
            refl
