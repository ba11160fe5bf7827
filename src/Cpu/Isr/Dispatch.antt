-- ===== src/Cpu/Isr/Dispatch.antt =====
-- What an interrupt leads to, on each branch of the dispatcher.
use mathlib.Core.Path.{subst}
use rainstorm_os.Base.{
  ==_refl, leb→le, leb_false→lt, ℕ, zero, suc, ◌≤◌, ◌<◌, ◌≡◌, refl, sym, false, List, [], ◌∷◌, ◌++◌,
  none, some, arith, u8, ltb, leb, ◌==◌, ◌⊎◌, if◌then◌else◌, Run, ok, panic, ◌>>◌, Ends, Returns,
  returns, panics, Ends-mono, Returns-and_then, Returns-within, inl, inr, String, within_run,
  Bool-cases,
}
use rainstorm_os.Base.Int.{pos}
use rainstorm_os.Memory.Event.{debug, warn, panic_level}
use rainstorm_os.Drivers.Framebuffer.Visible.{IsValid}
use rainstorm_os.Utils.Console.{Console, Arg, number, string}
use rainstorm_os.Utils.Console.Text.{
  Listens, Printed, printed, kprintf-Printed, kprintf-after, Listens-same,
}
use rainstorm_os.Utils.Klog.{rank, klogf}
use rainstorm_os.Utils.Klog.Lines.{line, klogf-Printed}
use rainstorm_os.Utils.Klog.Panic.{Panicked, panic_text, klogf-Panicked}
use rainstorm_os.Cpu.Isr.{
  Registers, Isr, exceptions, nth, dump, exception, dispatch, isr_handler, isr_register_handler,
}

length : List String → ℕ
length [] = 0
length (name ∷ names) = suc (length names)

nth_inside :
    (names : List String) (n : ℕ) → n < length names → (name : String) × (nth names n ≡ some name)
unfolding nth length
nth_inside [] n h = absurd (omega arith)
nth_inside (name ∷ names) zero h = (name, refl)
nth_inside (name ∷ names) (suc n) h = nth_inside names n (omega arith)

-- Each of the first 32 vectors has a name.
exception_name : (n : ℕ) → n < 32 → (name : String) × (nth exceptions n ≡ some name)
unfolding length
exception_name n h = nth_inside exceptions n h

module _ (rounds : ℕ) (render : String → List Arg → List ℕ) where
  -- The characters of the dump.
  abbrev pub dump_text : String → Registers → (cr2 : ℕ) → List ℕ
  dump_text name r cr2 =
      ((((((render "\n--- EXCEPTION: %s (vector=0x%llx) ---\n"
                    (string name ∷ number r.interrupt_num ∷ [])
                  ++ render "RIP=0x%016llx  RSP=0x%016llx  RBP=0x%016llx\n"
                      (number r.rip ∷ number r.rsp ∷ number r.rbp ∷ []))
                ++ render "RAX=0x%016llx  RBX=0x%016llx  RCX=0x%016llx  RDX=0x%016llx\n"
                    (number r.rax ∷ number r.rbx ∷ number r.rcx ∷ number r.rdx ∷ []))
              ++ render "RSI=0x%016llx  RDI=0x%016llx\n" (number r.rsi ∷ number r.rdi ∷ []))
            ++ render "R8 =0x%016llx  R9 =0x%016llx  R10=0x%016llx  R11=0x%016llx\n"
                (number r.r8 ∷ number r.r9 ∷ number r.r10 ∷ number r.r11 ∷ []))
          ++ render "R12=0x%016llx  R13=0x%016llx  R14=0x%016llx  R15=0x%016llx\n"
              (number r.r12 ∷ number r.r13 ∷ number r.r14 ∷ number r.r15 ∷ []))
        ++ render "CS =0x%04llx  SS =0x%04llx  RFLAGS=0x%016llx\n"
            (number r.cs ∷ number r.ss ∷ number r.rflags ∷ []))
      ++ render "CR2=0x%016llx  ERR=0x%016llx\n" (number cr2 ∷ number r.error_code ∷ [])

  dump-Printed :
      (name : String) (r : Registers) (cr2 : ℕ) {c : Console} (id : ℕ)
      → Listens c.serial rounds id
      → c.default_sink ≡ pos id
      → Returns (λ _ d. Printed c (dump_text name r cr2) d) (dump rounds render name r cr2 c)
  unfolding dump
  dump-Printed name r cr2 id l e = Returns-and_then (kprintf-Printed render _ _ id l e) (λ _ _ p.
      Returns-and_then (kprintf-after render _ _ id l e p) (λ _ _ p.
        Returns-and_then (kprintf-after render _ _ id l e p) (λ _ _ p.
          Returns-and_then (kprintf-after render _ _ id l e p) (λ _ _ p.
            Returns-and_then (kprintf-after render _ _ id l e p) (λ _ _ p.
              Returns-and_then (kprintf-after render _ _ id l e p) (λ _ _ p.
                Returns-and_then (kprintf-after render _ _ id l e p)
                  (λ _ _ p. kprintf-after render _ _ id l e p)))))))

  -- The state after an exception without a handler: its dump and then the panic are printed.
  pub data Stopped (s : Isr) (r : Registers) (t : Isr) : Type 0 where
    stopped :
        (name : String) (d : Console)
        → nth exceptions r.interrupt_num ≡ some name
        → Printed s.console (dump_text name r s.cr2) d
        → Panicked rounds render d
            (panic_text rounds render d.stack d.rbp "unhandled exception" [])
            t.console
        → t.isr_handlers ≡ s.isr_handlers
        → Stopped s r t

  -- What an interrupt without a handler leads to: a line of the log, or the end.
  pub data Unhandled (s : Isr) (r : Registers) : Run Isr (Unit {0}) → Type 0 where
    logged :
        {t : Isr}
        → 32 ≤ r.interrupt_num
        → Printed s.console
            (if ltb 2 (rank s.console.current_level)
              then []
              else line rounds render warn "Unhandled Interrupt: %d" (number r.interrupt_num ∷ []))
            t.console
        → t.isr_handlers ≡ s.isr_handlers
        → Unhandled s r (ok tt t)
    ended :
        {t : Isr}
        → r.interrupt_num < 32
        → Stopped s r t
        → Unhandled s r (panic "unhandled exception" t)

  warned :
      {s : Isr} {r : Registers} {run : Run Console (Unit {0})}
      → 32 ≤ r.interrupt_num
      → Returns
          (λ _ d.
            Printed s.console
              (if ltb 2 (rank s.console.current_level)
                then []
                else line rounds render warn "Unhandled Interrupt: %d"
                    (number r.interrupt_num ∷ []))
              d)
          run
      → Unhandled s r (within_run s (λ s c. record s { console = c }) run)
  warned over (returns p) = logged over p refl
  warned over (panics never) = absurd never

  dead :
      {s : Isr} {r : Registers} {run : Run Console (Unit {0})}
      → r.interrupt_num < 32
      → Ends
          (λ _ _. ⊥)
          (λ message d. (message ≡ "unhandled exception") × Stopped s r (record s { console = d }))
          run
      → Unhandled s r (within_run s (λ s c. record s { console = c }) run)
  dead below (returns never) = absurd never
  dead {s} {r} below (panics {s = d} (e, p)) =
      subst (λ m. Unhandled s r (panic m (record s { console = d }))) (sym e) (ended below p)

  exception-Stopped :
      (r : Registers) (s : Isr) (id log_id : ℕ) (name : String)
      → nth exceptions r.interrupt_num ≡ some name
      → Listens s.console.serial rounds id
      → s.console.default_sink ≡ pos id
      → Listens s.console.serial rounds log_id
      → s.console.debug_sink ≡ pos log_id
      → (IsValid s.console.screen) ⊎ (s.console.screen.framebuffer.is_ready ≡ false)
      → Ends
          (λ _ _. ⊥)
          (λ message d. (message ≡ "unhandled exception") × Stopped s r (record s { console = d }))
          (exception rounds render (nth exceptions r.interrupt_num) r s.cr2 s.console)
  unfolding exception
  exception-Stopped r s id log_id name named l e m f valid =
      rw named (Returns-and_then (dump-Printed name r s.cr2 id l e) (λ _ _ p. panic_after p))
    where
      panic_after :
          {d : Console}
          → Printed s.console (dump_text name r s.cr2) d
          → Ends
              (λ _ _. ⊥)
              (λ message d.
                (message ≡ "unhandled exception") × Stopped s r (record s { console = d }))
              (klogf rounds render panic_level "unhandled exception" [] d)
      panic_after (printed v sent) =
          Ends-mono
            (klogf-Panicked rounds render "unhandled exception" [] (record s.console { serial = v })
              log_id (Listens-same sent m) f valid)
            (λ _ _ never. never) (λ _ _ p. (p.0, stopped name _ named (printed v sent) p.1 refl))

  module _ (run_handler : ℕ → Registers → Isr → Run Isr Registers) where
    -- Where the default sink and the log's sink write to a serial port that is set up and gets empty
    -- in time, and the screen is valid or not there yet, an interrupt from 32 to 255 without a handler
    -- returns with a warning on the port, as far as the level lets it through; one below 32 does not
    -- return, and leaves the name of the exception, the registers and the panic on the port.
    pub isr_handler-Unhandled :
        (r : Registers) (s : Isr) (id log_id : ℕ)
        → r.interrupt_num < 256
        → s.isr_handlers r.interrupt_num ≡ none
        → Listens s.console.serial rounds id
        → s.console.default_sink ≡ pos id
        → Listens s.console.serial rounds log_id
        → s.console.debug_sink ≡ pos log_id
        → (IsValid s.console.screen) ⊎ (s.console.screen.framebuffer.is_ready ≡ false)
        → Unhandled s r (isr_handler rounds render run_handler r s)
    unfolding isr_handler dispatch
    isr_handler-Unhandled r s id log_id small none_there l e m f valid =
        let low : u8 r.interrupt_num ≡ r.interrupt_num = omega arith in
        rw (low, none_there, low)
          (elim (Bool-cases (leb 32 r.interrupt_num)) [
            | inl over ↦ rw over (
                warned (leb→le 32 r.interrupt_num over) (
                  klogf-Printed rounds render warn "Unhandled Interrupt: %d"
                    (number r.interrupt_num ∷ []) s.console log_id m f (omega arith)))
            | inr under ↦
                let below = leb_false→lt 32 r.interrupt_num under in
                let (name, named) = exception_name r.interrupt_num below in
                rw under (dead below (exception-Stopped r s id log_id name named l e m f valid))
          ])

    after_handler :
        (u : Isr) {text : List ℕ} {run : Run Console (Unit {0})}
        → Returns (λ _ d. Printed u.console text d) run
        → Returns
            (λ _ t. Printed u.console text t.console × (t.isr_handlers ≡ u.isr_handlers))
            (within_run u (λ s c. record s { console = c }) run)
    after_handler u p = Returns-within u (λ s c. record s { console = c }) p (λ _ _ p. (p, refl))

    -- After `isr_register_handler` of a handler for a vector below 256, an interrupt of that vector
    -- runs the handler; where it returns with a log that writes to the serial port, the dispatcher
    -- returns, with the number of the registers that the handler left on the port, as far as the
    -- level lets it through.
    pub isr_handler-isr_register_handler :
        (r after : Registers) (s u : Isr) (f id : ℕ)
        → r.interrupt_num < 256
        → run_handler f r (record s {
          isr_handlers = λ n. if r.interrupt_num == n then some f else s.isr_handlers n;
        })
          ≡ ok after u
        → Listens u.console.serial rounds id
        → u.console.debug_sink ≡ pos id
        → Returns
            (λ _ t.
              Printed u.console
                (if ltb 0 (rank u.console.current_level)
                  then []
                  else line rounds render debug "interrupt received %llu"
                      (number after.interrupt_num ∷ []))
                t.console
              × (t.isr_handlers ≡ u.isr_handlers))
            ((isr_register_handler r.interrupt_num (some f)
                >> isr_handler rounds render run_handler r)
              s)
    unfolding isr_handler dispatch isr_register_handler
    isr_handler-isr_register_handler r after s u f id small ran l e =
        let low : u8 r.interrupt_num ≡ r.interrupt_num = omega arith in
        rw (low, ==_refl r.interrupt_num, ran)
          (after_handler u (
            klogf-Printed rounds render debug "interrupt received %llu"
              (number after.interrupt_num ∷ []) u.console id l e (omega arith)))
