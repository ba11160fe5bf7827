-- ===== src/Utils/Klog.antt =====
-- src/utils/klog.c: the log, its filter, and the end of the kernel in a panic.
pub mod Lines
pub mod Panic
pub mod Attach
mod Tests
use rainstorm_os.Base.{
  ℕ, zero, suc, ◌+◌, ◌%◌, ◌^◌, String, Bool, true, false, List, [], ◌∷◌, Option, u64, ltb, ◌==◌,
  if◌then◌else◌, Run, ok, panic, Cmd, pure, get, ◌>>=◌, ◌>>◌,
}
use rainstorm_os.Base.Int.{ℤ, pos, negsuc}
use rainstorm_os.Memory.Event.{Level, debug, info, warn, error, panic_level}
use rainstorm_os.Drivers.Serial.{register}
use rainstorm_os.Drivers.Framebuffer.{FbColor, fb_clear_screen}
use rainstorm_os.Utils.Console.{
  Console, Arg, number, in_serial, in_screen, debug_callback, kprintf_set_default_sink,
  kprintf_get_default_sink, kprintf,
}

abbrev pub rank : Level → ℕ
rank debug = 0
rank info = 1
rank warn = 2
rank error = 3
rank panic_level = 4

abbrev pub log_labels : Level → String
log_labels debug = "[debug]: "
log_labels info = "[info]: "
log_labels warn = "[warn]: "
log_labels error = "[ERROR]: "
log_labels panic_level = "[PANIC]: "

abbrev pub is_negative : ℤ → Bool
is_negative (pos n) = false
is_negative (negsuc n) = true

pub klog_set_level : Level → Cmd Console (Unit {0})
klog_set_level level c =
    let d = record c { current_level = level } in
    if is_negative d.debug_sink
    then (do id ← in_serial (register debug_callback); λ e. ok tt (record e { debug_sink = id })) d
    else ok tt d

abbrev pub panic_color : FbColor
panic_color = record { red = 235; green = 52; blue = 76 }

module _ (rounds : ℕ) (render : String → List Arg → List ℕ) where
  -- The return addresses of at most `left` frames from `rbp` on.
  pub stack_trace : (left i rbp : ℕ) → Cmd Console (Unit {0})
  stack_trace zero i rbp = pure tt
  stack_trace (suc left) i rbp = if rbp == 0 then pure tt else (do
    c ← get
    kprintf rounds render "  [%d] 0x%016llx\n" (number i ∷ number (c.stack (u64 (rbp + 8))) ∷ [])
    stack_trace left (i + 1) (c.stack rbp))

  -- What a panic prints, and the endless loop at its end.
  pub panic_messages : String → List Arg → Cmd Console (Unit {0})
  panic_messages format args = do
    kprintf rounds render "\n--- KERNEL PANIC ---\n" []
    kprintf rounds render format args
    kprintf rounds render "\n" []
    kprintf rounds render "Stack trace:\n" []
    c ← get
    stack_trace 16 0 c.rbp
    kprintf rounds render "--------------------\n" []
    panic format

  pub panic_screen : String → List Arg → Cmd Console (Unit {0})
  panic_screen format args = do
    λ c. ok tt (record c { interrupts = false })
    c ← get
    kprintf_set_default_sink c.debug_sink
    in_screen (fb_clear_screen panic_color)
    panic_messages format args

  pub log_line : Level → String → List Arg → Cmd Console (Unit {0})
  log_line level format args = do
    prev_sink ← kprintf_get_default_sink
    c ← get
    kprintf_set_default_sink c.debug_sink
    kprintf rounds render (log_labels level) []
    kprintf rounds render format args
    kprintf rounds render "\n" []
    kprintf_set_default_sink prev_sink

  pub klogf : Level → String → List Arg → Cmd Console (Unit {0})
  klogf level format args c =
      if ltb (rank level) (rank c.current_level)
      then ok tt c
      else if rank level == rank panic_level
      then panic_screen format args c
      else if is_negative c.debug_sink
      then ok tt c
      else log_line level format args c
