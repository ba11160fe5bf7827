-- ===== src/Drivers/Serial/Setup.antt =====
-- The branches of the driver's initialisation.
use rainstorm_os.Base.{
  ℕ, ◌+◌, ◌≡◌, true, false, List, [], ◌∷◌, ◌++◌, u8, ◌==◌, Run, ok, Bool-cases, inl, inr,
  within_run,
}
use rainstorm_os.Base.Int.{ℤ, negsuc}
use rainstorm_os.Utils.Sink.{Sinks}
use rainstorm_os.Utils.Sink.Registry.{IsValid, Registered, sink_register-Registered, given, full}
use rainstorm_os.Drivers.Serial.{
  Serial, data_port, fifo_command_port, line_command_port, modem_command_port, serial_sink, outb,
  inb, serial_configure_baud_rate, register, finish_init, serial_init,
}

-- What the set-up writes before it asks for the loop-back's answer, the last first.
abbrev pub set_up : ℕ → List (ℕ × ℕ)
set_up base =
    (data_port base, 0xAE)
    ∷ (modem_command_port base, 0x16)
    ∷ (modem_command_port base, 0x03)
    ∷ (fifo_command_port base, 0xC7)
    ∷ (line_command_port base, 0x03)
    ∷ (data_port base, 3)
    ∷ (data_port base, 0)
    ∷ (line_command_port base, 0x80)
    ∷ []

pub data InitResult (s : Serial) (base : ℕ) : Run Serial ℤ → Type 0 where
  already : s.is_initialised ≡ true → InitResult s base (ok (negsuc 0) s)
  no_answer :
      s.is_initialised ≡ false
      → (u8 (s.answers s.reads base) == 0xAE) ≡ false
      → InitResult s base (
          ok (negsuc 0) (record s {
            is_initialised = false;
            reads = s.reads + 1;
            sent = set_up base ++ s.sent;
          }))
  set_up_done :
      {id : ℤ} {r : Sinks}
      → s.is_initialised ≡ false
      → (u8 (s.answers s.reads base) == 0xAE) ≡ true
      → Registered s.registry serial_sink (ok id r)
      → InitResult s base (
          ok id (record s {
            is_initialised = true;
            current_com = base;
            reads = s.reads + 1;
            sent = (modem_command_port base, 0x7) ∷ set_up base ++ s.sent;
            registry = r;
          }))

registered :
    {s : Serial} {base : ℕ} {run : Run Sinks ℤ}
    → s.is_initialised ≡ false
    → (u8 (s.answers s.reads base) == 0xAE) ≡ true
    → Registered s.registry serial_sink run
    → InitResult s base (
        within_run
          (record s {
            is_initialised = true;
            current_com = base;
            reads = s.reads + 1;
            sent = (modem_command_port base, 0x7) ∷ set_up base ++ s.sent;
          })
          (λ t r. record t { registry = r })
          run)
registered off e (given h v same next calls) = set_up_done off e (given h v same next calls)
registered off e (full h same next calls) = set_up_done off e (full h same next calls)

-- With a valid registry of sinks, `serial_init` on a driver that is set up returns -1 and does
-- nothing. Otherwise it writes the set-up and reads the data port once; without the test byte there
-- it returns -1 and is not set up, and with it the driver is set up for the port, left in normal
-- operation, and its result and the registry are those of `sink_register` of the driver's sink.
pub serial_init-InitResult :
    (s : Serial) (base : ℕ) → IsValid s.registry → InitResult s base (serial_init base s)
unfolding serial_init serial_configure_baud_rate outb inb finish_init register
serial_init-InitResult s base v = elim (Bool-cases s.is_initialised) [
  | inl on ↦ simp on (already on)
  | inr off ↦ elim (Bool-cases (u8 (s.answers s.reads base) == 0xAE)) [
    | inl e ↦ simp (off, e) (registered off e (sink_register-Registered s.registry v serial_sink))
    | inr ne ↦ simp (off, ne) (no_answer off ne)
  ]
]
