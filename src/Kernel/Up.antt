-- ===== src/Kernel/Up.antt =====
-- The console comes up: what is printed and what is logged reaches the first serial port.
use rainstorm_os.Base.{
  ℕ, ◌+◌, ◌<◌, ◌≡◌, refl, true, false, arith, u8, ◌==◌, Run, ◌>>◌, Returns, returns, panics,
  Ends-and_then, Returns-within, within_run, inl, inr,
}
use rainstorm_os.Base.Int.{ℤ, pos}
use rainstorm_os.Memory.Event.{debug}
use rainstorm_os.Utils.Sink.Registry.{IsValid, given, full}
use rainstorm_os.Drivers.Serial.{Serial}
use rainstorm_os.Drivers.Serial.Wait.{Drains}
use rainstorm_os.Drivers.Serial.Setup.{
  InitResult, already, no_answer, set_up_done, serial_init-InitResult,
}
use rainstorm_os.Utils.Console.{Console, kprintf_set_default_sink}
use rainstorm_os.Utils.Console.Text.{Listens}
use rainstorm_os.Utils.Klog.{is_negative, klog_set_level}
use rainstorm_os.Utils.Klog.Attach.{
  Levelled, attached, attached_before, klog_set_level-Levelled, Listens-Levelled,
}
use rainstorm_os.Kernel.{Kernel, console_init, in_console}

-- The console before: the port is there and answers, and the log has no sink.
pub record IsDown (c : Console) (rounds : ℕ) : Type 0 where
  pub off : c.serial.is_initialised ≡ false
  pub answers : (u8 (c.serial.answers c.serial.reads 0x3F8) == 0xAE) ≡ true
  pub drains : Drains (record c.serial { is_initialised = true; current_com = 0x3F8 }) rounds
  pub valid : IsValid c.serial.registry
  pub room : c.serial.registry.next + 1 < 256
  pub no_log : is_negative c.debug_sink ≡ true

-- And after: both sinks write to the port.
pub record IsUp (rounds : ℕ) (c : Console) : Type 0 where
  pub id : ℕ
  pub log_id : ℕ
  pub default : c.default_sink ≡ pos id
  pub prints : Listens c.serial rounds id
  pub log : c.debug_sink ≡ pos log_id
  pub logs : Listens c.serial rounds log_id

-- The console once its first sink is the default, and before the log has one.
record IsHalfUp (rounds : ℕ) (before c : Console) : Type 0 where
  id : ℕ
  default : c.default_sink ≡ pos id
  prints : Listens c.serial rounds id
  valid : IsValid c.serial.registry
  later : id < c.serial.registry.next
  room : c.serial.registry.next < 256
  no_log : is_negative c.debug_sink ≡ true

half_up :
    {rounds : ℕ} {c : Console} {run : Run Serial ℤ}
    → IsDown c rounds
    → InitResult c.serial 0x3F8 run
    → Returns (λ id s. IsHalfUp rounds c (record c { serial = s; default_sink = id })) run
half_up d (already on) = absurd (ground (arith, on, d.off))
half_up d (no_answer _ none) = absurd (ground (arith, none, d.answers))
half_up {c = c} d (set_up_done _ _ (full e _ _ _)) = absurd (omega (arith, d.room))
half_up {c = c} d (set_up_done _ _ (given {t = r} h valid table next calls)) = returns (record {
  id = c.serial.registry.next;
  default = refl;
  prints = record {
    small = h;
    callback = inl (ground (arith, table c.serial.registry.next));
    on = refl;
    drains = record {
      wait = d.drains.wait;
      in_time = d.drains.in_time;
      empties = d.drains.empties;
    };
  };
  valid = valid;
  later = omega (arith, next);
  room = omega (arith, next, d.room);
  no_log = d.no_log;
})

log_up :
    {rounds : ℕ} {before c d : Console}
    → IsHalfUp rounds before c
    → Levelled c debug d
    → IsUp rounds d × (d.current_level ≡ debug) × (d.screen ≡ c.screen)
log_up {c = c} half (attached x r off (given h valid table next calls)) = (
  record {
    id = half.id;
    log_id = c.serial.registry.next;
    default = half.default;
    prints =
        Listens-Levelled {c = c} {level = debug} (attached x r off (given h valid table next calls))
          half.later half.prints;
    log = refl;
    logs = record {
      small = h;
      callback = inr (ground (arith, table c.serial.registry.next));
      on = half.prints.on;
      drains = record {
        wait = half.prints.drains.wait;
        in_time = half.prints.drains.in_time;
        empties = half.prints.drains.empties;
      };
    };
  },
  refl,
  refl,
)
log_up half (attached _ _ _ (full e _ _ _)) = absurd (omega (arith, half.room))
log_up half (attached_before on) = absurd (ground (arith, on, half.no_log))

-- The kernel once the port is set up.
data PortUp (rounds : ℕ) (k : Kernel) : ℤ → Kernel → Type 0 where
  port_up :
      (id : ℤ) (s : Serial)
      → IsHalfUp rounds k.console (record k.console { serial = s; default_sink = id })
      → PortUp rounds k id (record k { console = record k.console { serial = s } })

port_step :
    {rounds : ℕ} (k : Kernel) {run : Run Serial ℤ}
    → Returns
        (λ id s. IsHalfUp rounds k.console (record k.console { serial = s; default_sink = id }))
        run
    → Returns (PortUp rounds k) (
        within_run k
          (λ k c. record k { console = c })
          (within_run k.console (λ c s. record c { serial = s }) run))
port_step k (returns half) = returns (port_up _ _ half)
port_step k (panics never) = absurd never

-- The kernel with its console up, the rest as in `k`.
pub record ConsoleUp (rounds : ℕ) (k k' : Kernel) : Type 0 where
  pub up : IsUp rounds k'.console
  pub level : k'.console.current_level ≡ debug
  pub screen : k'.console.screen ≡ k.console.screen
  pub machine : k'.machine ≡ k.machine
  pub bytes : k'.bytes ≡ k.bytes
  pub gdt : k'.gdt ≡ k.gdt
  pub idt : k'.idt ≡ k.idt

log_step :
    {rounds : ℕ} (k : Kernel) {id : ℤ} {k1 : Kernel}
    → PortUp rounds k id k1
    → Returns
        (λ _ k'. ConsoleUp rounds k k')
        ((in_console (kprintf_set_default_sink id) >> in_console (klog_set_level debug)) k1)
unfolding kprintf_set_default_sink
log_step k (port_up id s half) =
    Returns-within (record k { console = record k.console { serial = s; default_sink = id } })
      (λ k c. record k { console = c })
      (klog_set_level-Levelled debug (record k.console { serial = s; default_sink = id })
        half.valid)
      (λ _ d level.
        let (up, at_debug, same) = log_up half level in
        record {
          up = up;
          level = at_debug;
          screen = same;
          machine = refl;
          bytes = refl;
          gdt = refl;
          idt = refl;
        })

-- Where COM1 is not set up yet, answers the loop-back and gets empty in time, the log has no sink
-- and two sinks more fit the registry: the first steps of the kernel return with the default sink
-- and the log's sink both writing to COM1, the level debug, and the screen, the memory and the tables as
-- they were.
pub console_init-IsUp :
    {rounds : ℕ} (k : Kernel)
    → IsDown k.console rounds
    → Returns (λ _ k'. ConsoleUp rounds k k') (console_init k)
unfolding console_init kprintf_set_default_sink
console_init-IsUp {rounds} k d =
    Ends-and_then (port_step k (half_up d (serial_init-InitResult k.console.serial 0x3F8 d.valid)))
      (λ _ _ p. log_step k p)
