-- ===== src/Cpu/Isr.antt =====
-- src/cpu/isr.c and isr.h: the dispatch of an interrupt, from the registers that its stub pushed.
-- Which code a registered handler stands for is the parameter `run_handler`; it may change the
-- registers. `render` and `rounds` are those of the console.
pub mod Dispatch
mod Tests
use rainstorm_os.Base.{
  ℕ, zero, suc, ◌+◌, ◌%◌, ◌^◌, String, Bool, List, [], ◌∷◌, Option, none, some, u8, ltb, leb, ◌==◌,
  if◌then◌else◌, Run, ok, fault, Cmd, within, pure, get, ◌>>=◌, ◌>>◌,
}
use rainstorm_os.Memory.Event.{Level, debug, warn, panic_level}
use rainstorm_os.Utils.Console.{Console, Arg, number, string, kprintf}
use rainstorm_os.Utils.Klog.{klogf}

pub record Registers : Type 0 where
  pub r15 : ℕ
  pub r14 : ℕ
  pub r13 : ℕ
  pub r12 : ℕ
  pub r11 : ℕ
  pub r10 : ℕ
  pub r9 : ℕ
  pub r8 : ℕ
  pub rbp : ℕ
  pub rdi : ℕ
  pub rsi : ℕ
  pub rdx : ℕ
  pub rcx : ℕ
  pub rbx : ℕ
  pub rax : ℕ
  pub interrupt_num : ℕ
  pub error_code : ℕ
  pub rip : ℕ
  pub cs : ℕ
  pub rflags : ℕ
  pub rsp : ℕ
  pub ss : ℕ

-- The table of handlers, NULL as `none`, the register cr2, and the console.
pub record Isr : Type 0 where
  pub isr_handlers : ℕ → Option ℕ
  pub cr2 : ℕ
  pub console : Console

abbrev pub exceptions : List String
exceptions =
    "Divide by zero error" ∷ "Debug" ∷ "Non-maskable Interrupt" ∷ "Breakpoint" ∷ "Overflow"
    ∷ "Bound Range Exceeded" ∷ "Invalid Opcode" ∷ "Device Not Available" ∷ "Double Fault"
    ∷ "Coprocessor Segment Overrun" ∷ "Invalid TSS" ∷ "Segment Not Present" ∷ "Stack-Segment Fault"
    ∷ "General Protection Fault" ∷ "Page Fault" ∷ "" ∷ "x87 Floating-Point Exception"
    ∷ "Alignment Check" ∷ "Machine Check" ∷ "SIMD Floating-Point Exception"
    ∷ "Virtualization Exception" ∷ "Control Protection Exception " ∷ "" ∷ "" ∷ "" ∷ "" ∷ "" ∷ ""
    ∷ "Hypervisor Injection Exception" ∷ "VMM Communication Exception" ∷ "Security Exception" ∷ ""
    ∷ []

pub nth : List String → ℕ → Option String
nth [] n = none
nth (name ∷ names) zero = some name
nth (name ∷ names) (suc n) = nth names n

abbrev pub in_console : {A : Type 0} → Cmd Console A → Cmd Isr A
in_console = within (λ s. s.console) (λ s c. record s { console = c })

unfoldable pub isr_register_handler : (isr : ℕ) → Option ℕ → Cmd Isr (Unit {0})
isr_register_handler isr handler s =
    ok tt (record s { isr_handlers = λ n. if isr == n then handler else s.isr_handlers n })

module _ (rounds : ℕ) (render : String → List Arg → List ℕ) where
  -- The dump of the registers under the name of the exception.
  pub dump : String → Registers → (cr2 : ℕ) → Cmd Console (Unit {0})
  dump name regs cr2 = do
    kprintf rounds render "\n--- EXCEPTION: %s (vector=0x%llx) ---\n"
        (string name ∷ number regs.interrupt_num ∷ [])
    kprintf rounds render "RIP=0x%016llx  RSP=0x%016llx  RBP=0x%016llx\n"
        (number regs.rip ∷ number regs.rsp ∷ number regs.rbp ∷ [])
    kprintf rounds render "RAX=0x%016llx  RBX=0x%016llx  RCX=0x%016llx  RDX=0x%016llx\n"
        (number regs.rax ∷ number regs.rbx ∷ number regs.rcx ∷ number regs.rdx ∷ [])
    kprintf rounds render "RSI=0x%016llx  RDI=0x%016llx\n" (number regs.rsi ∷ number regs.rdi ∷ [])
    kprintf rounds render "R8 =0x%016llx  R9 =0x%016llx  R10=0x%016llx  R11=0x%016llx\n"
        (number regs.r8 ∷ number regs.r9 ∷ number regs.r10 ∷ number regs.r11 ∷ [])
    kprintf rounds render "R12=0x%016llx  R13=0x%016llx  R14=0x%016llx  R15=0x%016llx\n"
        (number regs.r12 ∷ number regs.r13 ∷ number regs.r14 ∷ number regs.r15 ∷ [])
    kprintf rounds render "CS =0x%04llx  SS =0x%04llx  RFLAGS=0x%016llx\n"
        (number regs.cs ∷ number regs.ss ∷ number regs.rflags ∷ [])
    kprintf rounds render "CR2=0x%016llx  ERR=0x%016llx\n"
        (number cr2 ∷ number regs.error_code ∷ [])

  -- The end in an exception; an index outside the table of names is a fault.
  pub exception : Option String → Registers → (cr2 : ℕ) → Cmd Console (Unit {0})
  exception none regs cr2 = λ c. fault
  exception (some name) regs cr2 = do
    dump name regs cr2
    klogf rounds render panic_level "unhandled exception" []

  module _ (run_handler : ℕ → Registers → Cmd Isr Registers) where
    pub dispatch : Option ℕ → Registers → Cmd Isr (Unit {0})
    dispatch (some f) regs = do
      after ← run_handler f regs
      in_console
          (klogf rounds render debug "interrupt received %llu" (number after.interrupt_num ∷ []))
    dispatch none regs =
        let int_num = u8 regs.interrupt_num in
        if leb 0x20 int_num
        then in_console (klogf rounds render warn "Unhandled Interrupt: %d" (number int_num ∷ []))
        else (do s ← get; in_console (exception (nth exceptions regs.interrupt_num) regs s.cr2))

    pub isr_handler : Registers → Cmd Isr (Unit {0})
    isr_handler regs s = dispatch (s.isr_handlers (u8 regs.interrupt_num)) regs s
