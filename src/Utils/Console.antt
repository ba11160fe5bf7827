-- ===== src/Utils/Console.antt =====
-- The way of a character from kprintf to the port: the default sink of src/utils/printf.c, the
-- registry of src/utils/sink.c and the two callbacks that the kernel registers there. The rest of
-- printf.c is another project's: the text that it makes of a format and its arguments is the
-- parameter `render`. `rounds` bounds each wait for the serial port.
pub mod Text
use rainstorm_os.Base.{
  ℕ, String, Bool, List, [], ◌∷◌, Option, none, some, ◌==◌, if◌then◌else◌, Run, ok, fault, Cmd,
  within, pure, get, ◌>>=◌, ◌>>◌,
}
use rainstorm_os.Base.Int.{ℤ}
use rainstorm_os.Utils.Sink.{sink_target}
use rainstorm_os.Memory.Event.{Level}
use rainstorm_os.Drivers.Serial.{Serial, serial_sink, serial_write, serial_sink_write}
use rainstorm_os.Drivers.Framebuffer.{Screen}

-- What the printing code reads and writes: the variables of src/utils/printf.c and src/utils/klog.c,
-- the drivers, and of the processor the interrupt flag, the frame pointer and the stack.
pub record Console : Type 0 where
  pub serial : Serial
  pub screen : Screen
  pub default_sink : ℤ
  pub current_level : Level
  pub debug_sink : ℤ
  pub interrupts : Bool
  pub rbp : ℕ
  pub stack : ℕ → ℕ

-- An argument of a format.
pub data Arg : Type 0 where
  number : ℕ → Arg
  string : String → Arg

abbrev pub in_serial : {A : Type 0} → Cmd Serial A → Cmd Console A
in_serial = within (λ c. c.serial) (λ c s. record c { serial = s })

abbrev pub in_screen : {A : Type 0} → Cmd Screen A → Cmd Console A
in_screen = within (λ c. c.screen) (λ c s. record c { screen = s })

-- The function pointer `debug_sink_write`.
abbrev pub debug_callback : ℕ
debug_callback = 1

unfoldable pub kprintf_set_default_sink : ℤ → Cmd Console (Unit {0})
kprintf_set_default_sink id c = ok tt (record c { default_sink = id })

unfoldable pub kprintf_get_default_sink : Cmd Console ℤ
kprintf_get_default_sink c = ok c.default_sink c

module _ (rounds : ℕ) where
  pub debug_sink_write : ℕ → Cmd Console (Unit {0})
  debug_sink_write ch = in_serial (serial_write rounds ch)

  -- The call of a callback of the registry.
  pub run_callback : Option ℕ → ℕ → Cmd Console (Unit {0})
  run_callback none ch = pure tt
  run_callback (some f) ch =
      if f == serial_sink
      then in_serial (serial_sink_write rounds ch)
      else if f == debug_callback
      then debug_sink_write ch
      else λ c. fault

  pub putchar : ℕ → Cmd Console (Unit {0})
  putchar ch = do
    c ← get
    f ←
        within (λ c. c.serial.registry)
          (λ c r. record c { serial = record c.serial { registry = r } })
          (sink_target c.default_sink)
    run_callback f ch

  pub put_text : List ℕ → Cmd Console (Unit {0})
  put_text [] = pure tt
  put_text (ch ∷ text) = do putchar ch; put_text text

  pub kprintf : (String → List Arg → List ℕ) → String → List Arg → Cmd Console (Unit {0})
  kprintf render format args = put_text (render format args)
