-- ===== src/Cpu/Isr/Tests.antt =====
-- The dispatch of a breakpoint without a handler, and of a timer interrupt with one.
use rainstorm_os.Base.{
  ℕ, ◌≡◌, refl, true, false, none, some, [], ◌∷◌, List, ltb, ◌==◌, if◌then◌else◌, arith, Returns,
  inl, inr, String, Run, ok, ◌>>◌,
}
use rainstorm_os.Base.Int.{pos}
use rainstorm_os.Memory.Event.{debug}
use rainstorm_os.Utils.Console.{Console, Arg, number, debug_callback}
use rainstorm_os.Utils.Console.Text.{Listens, Printed}
use rainstorm_os.Utils.Klog.{rank}
use rainstorm_os.Utils.Klog.Lines.{line}
use rainstorm_os.Cpu.Isr.{Registers, Isr, isr_handler, isr_register_handler}
use rainstorm_os.Cpu.Isr.Dispatch.{
  Unhandled, isr_handler-Unhandled, isr_handler-isr_register_handler,
}

abbrev console : Console
console = record {
  serial = record {
    is_initialised = true;
    current_com = 0x3F8;
    answers = λ n p. 0x60;
    reads = 1;
    sent = [];
    registry = record {
      sinks = λ n. if n == 1 then some debug_callback else (if n == 0 then some 0 else none);
      next = 2;
      calls = [];
    };
  };
  screen = record {
    framebuffer = record { address = 0; width = 0; height = 0; pitch = 0; is_ready = false };
    word = λ p. 0;
    object_start = 0;
    object_end = 0;
  };
  default_sink = pos 0;
  current_level = debug;
  debug_sink = pos 1;
  interrupts = true;
  rbp = 0;
  stack = λ p. 0;
}

abbrev state : Isr
state = record { isr_handlers = λ n. none; cr2 = 0; console = console }

abbrev registers : ℕ → Registers
registers n = record {
  r15 = 0;
  r14 = 0;
  r13 = 0;
  r12 = 0;
  r11 = 0;
  r10 = 0;
  r9 = 0;
  r8 = 0;
  rbp = 0;
  rdi = 0;
  rsi = 0;
  rdx = 0;
  rcx = 0;
  rbx = 0;
  rax = 0;
  interrupt_num = n;
  error_code = 0;
  rip = 0x1000;
  cs = 8;
  rflags = 0;
  rsp = 0;
  ss = 16;
}

-- A rendering with as many characters as arguments, and one for the format.
length : List Arg → List ℕ
length [] = []
length (arg ∷ args) = 37 ∷ length args

abbrev render : String → List Arg → List ℕ
render format args = 10 ∷ length args

-- A handler that clears rax.
abbrev run_handler : ℕ → Registers → Isr → Run Isr Registers
run_handler f r s = ok (record r { rax = 0 }) s

default-Listens : Listens console.serial 1 0
default-Listens = record {
  small = omega arith;
  callback = inl refl;
  on = refl;
  drains = record { wait = λ n. 0; in_time = λ n. omega arith; empties = λ n. refl };
}

log-Listens : Listens console.serial 1 1
log-Listens = record {
  small = omega arith;
  callback = inr refl;
  on = refl;
  drains = record { wait = λ n. 0; in_time = λ n. omega arith; empties = λ n. refl };
}

isr_handler-Unhandled_example :
    Unhandled 1 render state (registers 3) (isr_handler 1 render run_handler (registers 3) state)
isr_handler-Unhandled_example =
    isr_handler-Unhandled 1 render run_handler (registers 3) state 0 1 (omega arith) refl
      default-Listens refl log-Listens refl (inr refl)

abbrev handled : Isr
handled = record state { isr_handlers = λ n. if 32 == n then some 5 else none }

isr_handler-isr_register_handler_example :
    Returns
      (λ _ t.
        Printed handled.console
          (if ltb 0 (rank debug)
            then []
            else line 1 render debug "interrupt received %llu" (number 32 ∷ []))
          t.console
        × (t.isr_handlers ≡ handled.isr_handlers))
      ((isr_register_handler 32 (some 5) >> isr_handler 1 render run_handler (registers 32)) state)
isr_handler-isr_register_handler_example =
    isr_handler-isr_register_handler 1 render run_handler (registers 32) (registers 32) state
      handled 5 1 (omega arith) refl log-Listens refl
