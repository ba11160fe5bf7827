-- ===== src/Utils/Klog/Tests.antt =====
-- The log's theorems at a console whose port gets empty at once, before it has a screen.
use rainstorm_os.Base.{
  ℕ, ◌≡◌, refl, true, false, none, some, [], ◌∷◌, List, ltb, ◌==◌, if◌then◌else◌, arith, Returns,
  Ends, inr, String,
}
use rainstorm_os.Base.Int.{pos, negsuc}
use rainstorm_os.Memory.Event.{info, warn, panic_level}
use rainstorm_os.Utils.Sink.Registry.{IsValid}
use rainstorm_os.Drivers.Serial.{Serial}
use rainstorm_os.Drivers.Serial.Wait.{Drains}
use rainstorm_os.Drivers.Framebuffer.{Screen}
use rainstorm_os.Utils.Console.{Console, Arg, number, string, debug_callback}
use rainstorm_os.Utils.Console.Text.{Listens, Printed}
use rainstorm_os.Utils.Klog.{rank, klogf}
use rainstorm_os.Utils.Klog.Lines.{line, klogf-Printed}
use rainstorm_os.Utils.Klog.Panic.{Panicked, panic_text, klogf-Panicked}

abbrev port : Serial
port = record {
  is_initialised = true;
  current_com = 0x3F8;
  answers = λ n p. 0x60;
  reads = 1;
  sent = [];
  registry = record { sinks = λ n. if n == 0 then some 0 else none; next = 1; calls = [] };
}

abbrev no_framebuffer : Screen
no_framebuffer = record {
  framebuffer = record { address = 0; width = 0; height = 0; pitch = 0; is_ready = false };
  word = λ p. 0;
  object_start = 0;
  object_end = 0;
}

-- Before the log has its sink.
abbrev early : Console
early = record {
  serial = port;
  screen = no_framebuffer;
  default_sink = pos 0;
  current_level = info;
  debug_sink = negsuc 0;
  interrupts = true;
  rbp = 0x9000;
  stack = λ p. if p == 0x9008 then 0x1234 else 0;
}

-- With the sink of the id 1.
abbrev ready : Console
ready = record early {
  debug_sink = pos 1;
  serial = record port {
    registry = record {
      sinks = λ n. if n == 1 then some debug_callback else (if n == 0 then some 0 else none);
      next = 2;
      calls = [];
    };
  };
}

-- A rendering that keeps the numbers of the arguments, each after the byte 37.
numbers : List Arg → List ℕ
numbers [] = []
numbers (number n ∷ args) = 37 ∷ n ∷ numbers args
numbers (string s ∷ args) = 37 ∷ numbers args

abbrev render : String → List Arg → List ℕ
render format args = 10 ∷ numbers args

ready-Listens : Listens ready.serial 1 1
ready-Listens = record {
  small = omega arith;
  callback = inr refl;
  on = refl;
  drains = record { wait = λ n. 0; in_time = λ n. omega arith; empties = λ n. refl };
}

klogf-Printed_example :
    Returns
      (λ _ d.
        Printed ready
          (if ltb (rank warn) (rank info) then [] else line 1 render warn "%d" (number 7 ∷ []))
          d)
      (klogf 1 render warn "%d" (number 7 ∷ []) ready)
klogf-Printed_example =
    klogf-Printed 1 render warn "%d" (number 7 ∷ []) ready 1 ready-Listens refl (omega arith)

klogf-Panicked_example :
    Ends
      (λ _ _. ⊥)
      (λ message d.
        (message ≡ "stop")
        × Panicked 1 render ready (panic_text 1 render ready.stack 0x9000 "stop" []) d)
      (klogf 1 render panic_level "stop" [] ready)
klogf-Panicked_example = klogf-Panicked 1 render "stop" [] ready 1 ready-Listens refl (inr refl)

port_registry-IsValid : IsValid port.registry
port_registry-IsValid = record { bounded = omega arith; unused = λ n h. ground arith }

port-Drains : Drains port 1
port-Drains = record { wait = λ n. 0; in_time = λ n. omega arith; empties = λ n. refl }
