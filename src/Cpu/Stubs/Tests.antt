-- ===== src/Cpu/Stubs/Tests.antt =====
-- A page fault at the stack 0x9005, whose handler changes a register of the interrupted code.
use rainstorm_os.Base.{ℕ, refl, arith, ◌==◌, if◌then◌else◌, sym}
use rainstorm_os.Cpu.Isr.{Registers}
use rainstorm_os.Cpu.Stubs.{Cpu, isr_stub}
use rainstorm_os.Cpu.Stubs.Stack.{Holds, cell, Holds-above}
use rainstorm_os.Cpu.Stubs.Entry.{Called, saved, words_of}
use rainstorm_os.Cpu.Stubs.Frame.{Conforms, Resumed, at_call, isr_stub-Resumed}

abbrev cpu : Cpu
cpu = record {
  rax = 1;
  rbx = 2;
  rcx = 3;
  rdx = 4;
  rsi = 5;
  rdi = 6;
  rbp = 7;
  r8 = 8;
  r9 = 9;
  r10 = 10;
  r11 = 11;
  r12 = 12;
  r13 = 13;
  r14 = 14;
  r15 = 15;
  rip = 0x1000;
  cs = 8;
  rflags = 0x202;
  rsp = 0x9005;
  ss = 16;
  word = λ a. 0;
}

-- The handler changes r15 in the structure and a scratch register of its own.
abbrev after : Registers → Registers
after r = record r { r15 = 77 }

abbrev handler : Cpu → Cpu
handler c = record c { r11 = 0; word = λ a. if c.rdi == a then 77 else c.word a }

handler-Conforms : Conforms handler after
handler-Conforms r c called = (refl, rw (sym called.argument) (patched called.structure))
  where
    patched :
        {w : ℕ → ℕ} {p : ℕ}
        → Holds w p (words_of r)
        → Holds (λ a. if p == a then 77 else w a) p (words_of (after r))
    patched {p = p} (cell e h) = cell (ground arith) (Holds-above (λ a k. ground arith) h)

isr_stub-Resumed_example :
    Called (saved 14 2 cpu) (at_call handler 14 2 cpu)
    × Resumed (after (saved 14 2 cpu)) (isr_stub handler 14 2 cpu)
isr_stub-Resumed_example =
    isr_stub-Resumed handler after 14 2 cpu handler-Conforms (omega arith) (omega arith)
      (omega arith) (omega arith)
