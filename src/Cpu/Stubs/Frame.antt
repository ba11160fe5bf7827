-- ===== src/Cpu/Stubs/Frame.antt =====
-- What a stub restores, and the stub as a whole.
use rainstorm_os.Base.{ℕ, ◌-◌, ◌%◌, ◌^◌, ◌≤◌, ◌<◌, ◌≡◌, refl, List, [], ◌∷◌, ◌++◌, arith, ◌≢◌}
use rainstorm_os.Cpu.Isr.{Registers}
use rainstorm_os.Cpu.Stubs.{
  Cpu, Instruction, interrupted, pushes_error_code, is_isr_error, isr_entry, isr_save, isr_restore,
  isr_common, step, run, isr_stub, returned,
}
use rainstorm_os.Cpu.Stubs.Stack.{Holds, Holds-first, Holds-next, Holds-after_two}
use rainstorm_os.Cpu.Stubs.Entry.{words_of, saved, Called, entry-Entered, save-Called}

-- The interrupted code goes on with these registers.
pub record Resumed (r : Registers) (c : Cpu) : Type 0 where
  pub r15 : c.r15 ≡ r.r15
  pub r14 : c.r14 ≡ r.r14
  pub r13 : c.r13 ≡ r.r13
  pub r12 : c.r12 ≡ r.r12
  pub r11 : c.r11 ≡ r.r11
  pub r10 : c.r10 ≡ r.r10
  pub r9 : c.r9 ≡ r.r9
  pub r8 : c.r8 ≡ r.r8
  pub rbp : c.rbp ≡ r.rbp
  pub rdi : c.rdi ≡ r.rdi
  pub rsi : c.rsi ≡ r.rsi
  pub rdx : c.rdx ≡ r.rdx
  pub rcx : c.rcx ≡ r.rcx
  pub rbx : c.rbx ≡ r.rbx
  pub rax : c.rax ≡ r.rax
  pub rip : c.rip ≡ r.rip
  pub cs : c.cs ≡ r.cs
  pub rflags : c.rflags ≡ r.rflags
  pub rsp : c.rsp ≡ r.rsp
  pub ss : c.ss ≡ r.ss

-- The compiled isr_handler by the calling convention: it returns with the stack pointer as it was,
-- and leaves the structure as `after` says.
abbrev pub Conforms : (Cpu → Cpu) → (Registers → Registers) → Type 0
Conforms isr_handler after =
    (r : Registers) (c : Cpu)
    → Called r c
    → ((isr_handler c).rsp ≡ c.rsp) × Holds (isr_handler c).word c.rsp (words_of (after r))

module _ (isr_handler : Cpu → Cpu) where
  restore-Resumed :
      (r : Registers) (c : Cpu)
      → Holds c.word c.rsp (words_of r)
      → Resumed r (run isr_handler isr_restore c)
  unfolding run step returned
  restore-Resumed r c h0 =
      let h1 = Holds-next h0 in
      let h2 = Holds-next h1 in
      let h3 = Holds-next h2 in
      let h4 = Holds-next h3 in
      let h5 = Holds-next h4 in
      let h6 = Holds-next h5 in
      let h7 = Holds-next h6 in
      let h8 = Holds-next h7 in
      let h9 = Holds-next h8 in
      let h10 = Holds-next h9 in
      let h11 = Holds-next h10 in
      let h12 = Holds-next h11 in
      let h13 = Holds-next h12 in
      let h14 = Holds-next h13 in
      let h17 = Holds-after_two (Holds-next h14) in
      let h18 = Holds-next h17 in
      let h19 = Holds-next h18 in
      let h20 = Holds-next h19 in
      record {
        r15 = Holds-first h0;
        r14 = Holds-first h1;
        r13 = Holds-first h2;
        r12 = Holds-first h3;
        r11 = Holds-first h4;
        r10 = Holds-first h5;
        r9 = Holds-first h6;
        r8 = Holds-first h7;
        rbp = Holds-first h8;
        rdi = Holds-first h9;
        rsi = Holds-first h10;
        rdx = Holds-first h11;
        rcx = Holds-first h12;
        rbx = Holds-first h13;
        rax = Holds-first h14;
        rip = Holds-first h17;
        cs = Holds-first h18;
        rflags = Holds-first h19;
        rsp = Holds-first h20;
        ss = Holds-first (Holds-next h20);
      }

  run-append :
      (is js : List Instruction) (c : Cpu)
      → run isr_handler (is ++ js) c ≡ run isr_handler js (run isr_handler is c)
  unfolding run
  run-append [] js c = refl
  run-append (i ∷ is) js c = run-append is js (step isr_handler i c)

  common_eq :
      (c : Cpu)
      → run isr_handler isr_common c
        ≡ run isr_handler isr_restore (isr_handler (run isr_handler isr_save c))
  unfolding run step
  common_eq c = refl

  -- The vectors whose entry expects an error code are those that have one, but for two.
  codes_agree :
      (vector : ℕ) → vector ≢ 29 → vector ≢ 30 → is_isr_error vector ≡ pushes_error_code vector
  unfolding is_isr_error pushes_error_code
  codes_agree vector not_29 not_30 = ground (arith, not_29, not_30)

  -- The processor when the stub calls isr_handler.
  abbrev pub at_call : (vector error_code : ℕ) → Cpu → Cpu
  at_call vector error_code c =
      run isr_handler isr_save
        (run isr_handler (isr_entry vector) (interrupted vector error_code c))

  -- For an interrupt in the kernel of any vector but 29 and 30, with 192 bytes of stack below: the
  -- stub calls isr_handler with the address of a structure that has the registers of the interrupted
  -- code, the vector, and the error code or 0 if the vector has none, on an aligned stack. If
  -- isr_handler follows the calling convention, the interrupted code then goes on with the registers
  -- that isr_handler left in the structure.
  pub isr_stub-Resumed :
      (after : Registers → Registers) (vector error_code : ℕ) (c : Cpu)
      → Conforms isr_handler after
      → vector ≢ 29
      → vector ≢ 30
      → 192 ≤ c.rsp
      → c.rsp < 2 ^ 64
      → Called (saved vector error_code c) (at_call vector error_code c)
        × Resumed (after (saved vector error_code c)) (isr_stub isr_handler vector error_code c)
  unfolding isr_stub
  isr_stub-Resumed after vector error_code c conforms not_29 not_30 room small =
      let base = c.rsp - c.rsp % 16 - 176 in
      let called =
        save-Called isr_handler vector error_code base c _
          (entry-Entered isr_handler vector error_code base c (codes_agree vector not_29 not_30)
            (omega arith) small)
          (omega arith) in
      let (same, structure) = conforms _ _ called in
      (
        called,
        rw (run-append (isr_entry vector) isr_common (interrupted vector error_code c), common_eq _)
            (restore-Resumed _ _ (rw same structure)),
      )
