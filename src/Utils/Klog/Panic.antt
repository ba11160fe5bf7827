-- ===== src/Utils/Klog/Panic.antt =====
-- The end in a panic: what is on the screen and on the port, and that it does not return.
use rainstorm_os.Base.{
  ℕ, zero, suc, ◌+◌, ◌≡◌, refl, false, List, [], ◌∷◌, ◌++◌, u64, ltb, ◌==◌, ◌⊎◌, if◌then◌else◌,
  Ends, Returns, returns, panics, Ends-and_then, Returns-and_then, Returns-within, Bool-cases, inl,
  inr, String,
}
use rainstorm_os.Base.Int.{pos}
use rainstorm_os.Memory.Event.{Level, panic_level, debug, info, warn, error}
use rainstorm_os.Drivers.Serial.{Serial}
use rainstorm_os.Drivers.Serial.Wait.{Sent, Sent-nothing}
use rainstorm_os.Drivers.Framebuffer.{Screen}
use rainstorm_os.Drivers.Framebuffer.Visible.{IsValid}
use rainstorm_os.Drivers.Framebuffer.Paint.{ClearedScreen, fb_clear_screen-ClearedScreen}
use rainstorm_os.Utils.Console.{Console, Arg, number, kprintf_set_default_sink}
use rainstorm_os.Utils.Console.Text.{
  Listens, Printed, printed, Printed-then, kprintf-Printed, kprintf-after,
}
use rainstorm_os.Utils.Klog.{rank, panic_color, stack_trace, panic_messages, panic_screen, klogf}

rank_top : (level : Level) → ltb 4 (rank level) ≡ false
rank_top debug = refl
rank_top info = refl
rank_top warn = refl
rank_top error = refl
rank_top panic_level = refl

module _ (rounds : ℕ) (render : String → List Arg → List ℕ) where
  -- The lines for at most `left` frames of the stack from `rbp` on.
  pub trace_text : (stack : ℕ → ℕ) → (left i rbp : ℕ) → List ℕ
  trace_text stack zero i rbp = []
  trace_text stack (suc left) i rbp =
      if rbp == 0
      then []
      else render "  [%d] 0x%016llx\n" (number i ∷ number (stack (u64 (rbp + 8))) ∷ [])
        ++ trace_text stack left (i + 1) (stack rbp)

  stack_trace-Printed :
      (left i rbp : ℕ) (c : Console) (id : ℕ)
      → Listens c.serial rounds id
      → c.default_sink ≡ pos id
      → Returns
          (λ _ d. Printed c (trace_text c.stack left i rbp) d)
          (stack_trace rounds render left i rbp c)
  unfolding stack_trace trace_text
  stack_trace-Printed zero i rbp c id l e = returns (printed c.serial (Sent-nothing c.serial))
  stack_trace-Printed (suc left) i rbp c id l e = elim (Bool-cases (rbp == 0)) [
    | inl last ↦ rw last (returns (printed c.serial (Sent-nothing c.serial)))
    | inr more ↦ rw more (
        Ends-and_then
          (kprintf-Printed render "  [%d] 0x%016llx\n"
            (number i ∷ number (c.stack (u64 (rbp + 8))) ∷ []) id l e)
          (λ _ _ p.
            Printed-then id (stack_trace rounds render left (i + 1) (c.stack rbp)) l p (λ v l'.
              stack_trace-Printed left (i + 1) (c.stack rbp) (record c { serial = v }) id l' e)))
  ]

  -- The characters of a panic.
  abbrev pub panic_text : (stack : ℕ → ℕ) → (rbp : ℕ) → String → List Arg → List ℕ
  panic_text stack rbp format args =
      ((((render "\n--- KERNEL PANIC ---\n" [] ++ render format args) ++ render "\n" [])
          ++ render "Stack trace:\n" [])
        ++ trace_text stack 16 0 rbp)
      ++ render "--------------------\n" []

  -- `c` after a panic: no interrupts, the screen cleared, the text on the port.
  pub data Panicked (c : Console) (text : List ℕ) : Console → Type 0 where
    panicked :
        (t : Screen) (v : Serial)
        → ClearedScreen c.screen panic_color t
        → Sent c.serial text v
        → Panicked c text
            (record c { interrupts = false; default_sink = c.debug_sink; screen = t; serial = v })

  data Screened (c : Console) : Console → Type 0 where
    screened :
        (t : Screen)
        → ClearedScreen c.screen panic_color t
        → Screened c (record c { interrupts = false; default_sink = c.debug_sink; screen = t })

  finish :
      {c : Console} {t : Screen} {text : List ℕ} {d : Console}
      → ClearedScreen c.screen panic_color t
      → Printed (record c { interrupts = false; default_sink = c.debug_sink; screen = t }) text d
      → Panicked c text d
  finish {t = t} cleared (printed v sent) = panicked t v cleared sent

  -- The frame pointer and the stack stay as they are while a text is printed.
  stack_trace-after :
      {c : Console} {text : List ℕ} {d : Console} (id : ℕ)
      → Listens c.serial rounds id
      → c.default_sink ≡ pos id
      → Printed c text d
      → Returns
          (λ _ e. Printed c (text ++ trace_text c.stack 16 0 c.rbp) e)
          (stack_trace rounds render 16 0 d.rbp d)
  stack_trace-after {c} id l e (printed v sent) =
      Printed-then id (stack_trace rounds render 16 0 c.rbp) l (printed v sent)
        (λ v l'. stack_trace-Printed 16 0 c.rbp (record c { serial = v }) id l' e)

  panic_messages-Panicked :
      (format : String) (args : List Arg) (c : Console) (id : ℕ)
      → Listens c.serial rounds id
      → c.debug_sink ≡ pos id
      → {d : Console} → Screened c d
      → Ends
          (λ _ _. ⊥)
          (λ message d. (message ≡ format) × Panicked c (panic_text c.stack c.rbp format args) d)
          (panic_messages rounds render format args d)
  unfolding panic_messages
  panic_messages-Panicked format args c id l e (screened t cleared) =
      Returns-and_then (kprintf-Printed render "\n--- KERNEL PANIC ---\n" [] id l e) (λ _ _ p.
        Returns-and_then (kprintf-after render format args id l e p) (λ _ _ p.
          Returns-and_then (kprintf-after render "\n" [] id l e p) (λ _ _ p.
            Returns-and_then (kprintf-after render "Stack trace:\n" [] id l e p) (λ _ _ p.
              Returns-and_then (stack_trace-after id l e p) (λ _ _ p.
                Returns-and_then (kprintf-after render "--------------------\n" [] id l e p)
                  (λ _ _ p. panics (refl, finish cleared p)))))))

  panic_screen-Panicked :
      (format : String) (args : List Arg) (c : Console) (id : ℕ)
      → Listens c.serial rounds id
      → c.debug_sink ≡ pos id
      → (IsValid c.screen) ⊎ (c.screen.framebuffer.is_ready ≡ false)
      → Ends
          (λ _ _. ⊥)
          (λ message d. (message ≡ format) × Panicked c (panic_text c.stack c.rbp format args) d)
          (panic_screen rounds render format args c)
  unfolding panic_screen kprintf_set_default_sink
  panic_screen-Panicked format args c id l e valid =
      Returns-and_then
        (Returns-within (record c { interrupts = false; default_sink = c.debug_sink })
          (λ c s. record c { screen = s }) (fb_clear_screen-ClearedScreen panic_color valid)
          (λ _ t cleared. screened t cleared))
        (λ _ _ s. panic_messages-Panicked format args c id l e s)

  -- Where the log's sink writes to a serial port that is set up and gets empty in time, and the
  -- screen is valid or not there yet, `klogf` of a panic does not return, whatever the current level:
  -- it ends halted, with the interrupts off, the screen cleared and the message
  -- with the addresses of at most 16 frames of the stack on the port.
  pub klogf-Panicked :
      (format : String) (args : List Arg) (c : Console) (id : ℕ)
      → Listens c.serial rounds id
      → c.debug_sink ≡ pos id
      → (IsValid c.screen) ⊎ (c.screen.framebuffer.is_ready ≡ false)
      → Ends
          (λ _ _. ⊥)
          (λ message d. (message ≡ format) × Panicked c (panic_text c.stack c.rbp format args) d)
          (klogf rounds render panic_level format args c)
  unfolding klogf
  klogf-Panicked format args c id l e valid =
      let through : ltb 4 (rank c.current_level) ≡ false = rank_top c.current_level in
      rw through (panic_screen-Panicked format args c id l e valid)
