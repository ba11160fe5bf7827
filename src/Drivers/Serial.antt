-- ===== src/Drivers/Serial.antt =====
-- src/drivers/serial: the driver of a serial port. The device is what it answers: `answers n p` is
-- the byte that the n-th read of the driver finds at port `p`. The bytes written go to a trace. The
-- state has the registry of sinks, which serial_init registers itself in.
pub mod Wait
pub mod Setup
mod Tests
use rainstorm_os.Base.{
  ℕ, zero, suc, ◌+◌, ◌*◌, ◌/◌, ◌%◌, ◌^◌, bit_and, Bool, true, false, not, some, List, ◌∷◌, u8, u16,
  ◌>>>◌, ◌==◌, if◌then◌else◌, Run, ok, out_of_fuel, Cmd, within, pure, get, ◌>>=◌, ◌>>◌,
}
use rainstorm_os.Base.Int.{ℤ, pos, negsuc}
use rainstorm_os.Utils.Sink.{Sinks, sink_register}

pub record Serial : Type 0 where
  pub is_initialised : Bool
  pub current_com : ℕ
  pub answers : (n p : ℕ) → ℕ
  pub reads : ℕ
  -- port and byte, the last first
  pub sent : List (ℕ × ℕ)
  pub registry : Sinks

-- The registers of a port, from its base; the base is 16 bits and the sum an int.
abbrev pub data_port : ℕ → ℕ
data_port base = base

abbrev pub fifo_command_port : ℕ → ℕ
fifo_command_port base = u16 (base + 2)

abbrev pub line_command_port : ℕ → ℕ
line_command_port base = u16 (base + 3)

abbrev pub modem_command_port : ℕ → ℕ
modem_command_port base = u16 (base + 4)

abbrev pub line_status_port : ℕ → ℕ
line_status_port base = u16 (base + 5)

abbrev pub line_enable_dlab : ℕ
line_enable_dlab = 0x80

-- The function pointer `serial_sink_write`.
abbrev pub serial_sink : ℕ
serial_sink = 0

pub outb : (port val : ℕ) → Cmd Serial (Unit {0})
outb port val s = ok tt (record s { sent = (port, u8 val) ∷ s.sent })

pub inb : ℕ → Cmd Serial ℕ
inb port s = ok (u8 (s.answers s.reads port)) (record s { reads = s.reads + 1 })

pub serial_configure_baud_rate : (base divisor : ℕ) → Cmd Serial (Unit {0})
serial_configure_baud_rate base divisor = do
  outb (line_command_port base) line_enable_dlab
  outb (data_port base) (bit_and (u8 (divisor >>> 8)) 0xFF)
  outb (data_port base) (bit_and (u8 divisor) 0xFF)

unfoldable pub register : ℕ → Cmd Serial ℤ
register callback =
    within (λ s. s.registry) (λ s r. record s { registry = r }) (sink_register (some callback))

-- What `serial_init` does on a driver that is not set up yet, once the loop-back has answered.
pub finish_init : (base answer : ℕ) → Cmd Serial ℤ
finish_init base answer = if not (answer == 0xAE) then pure (negsuc 0) else (do
  outb (modem_command_port base) 0x7
  λ s. ok tt (record s { is_initialised = true; current_com = base })
  register serial_sink)

pub serial_init : ℕ → Cmd Serial ℤ
serial_init base s =
    if s.is_initialised
    then ok (negsuc 0) s
    else (do
      serial_configure_baud_rate base 3
      outb (line_command_port base) 0x03
      outb (fifo_command_port base) 0xC7
      outb (modem_command_port base) 0x03
      outb (modem_command_port base) 0x16
      outb (data_port base) 0xAE
      answer ← inb (data_port base)
      finish_init base answer)
        s

pub is_transmit_empty : ℕ → Cmd Serial ℕ
is_transmit_empty base = do status ← inb (line_status_port base); pure (bit_and status 0x20)

-- `while (is_transmit_empty(current_com)==0);` in `rounds` rounds at most
pub wait_empty : (rounds : ℕ) → Cmd Serial (Unit {0})
wait_empty zero = λ s. out_of_fuel
wait_empty (suc rounds) = do
  s ← get
  empty ← is_transmit_empty s.current_com
  if empty == 0 then wait_empty rounds else pure tt

pub serial_write : (rounds ch : ℕ) → Cmd Serial (Unit {0})
serial_write rounds ch s =
    if not s.is_initialised
    then ok tt s
    else (do wait_empty rounds; outb (data_port s.current_com) ch) s

pub serial_sink_write : (rounds ch : ℕ) → Cmd Serial (Unit {0})
serial_sink_write rounds ch s = if not s.is_initialised then ok tt s else serial_write rounds ch s
