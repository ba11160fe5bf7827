-- ===== src/Kernel/Steps.antt =====
-- The steps of the kernel once the console is up: a line of the log, and a call into the memory
-- management.
use mathlib.Core.Path.{subst}
use rainstorm_os.Base.{
  ℕ, ◌<◌, ◌≡◌, refl, sym, ◌∙◌, false, List, [], ◌⊎◌, String, Run, and_then, Ends, Ends-mono,
  Returns, returns, panics, Returns-within, within_run, halted,
}
use rainstorm_os.Memory.Event.{Level}
use rainstorm_os.Drivers.Framebuffer.Visible as Visible
use rainstorm_os.Utils.Console.{Console, Arg}
use rainstorm_os.Utils.Console.Text.{Printed, printed, Listens-same}
use rainstorm_os.Utils.Klog.{rank}
use rainstorm_os.Utils.Klog.Lines.{klogf-Printed}
use rainstorm_os.Utils.Klog.Panic.{Panicked, klogf-Panicked, panicked}
use rainstorm_os.Memory.Paging.{Machine}
use rainstorm_os.Kernel.{Kernel, klog, kpanic, run_machine}
use rainstorm_os.Kernel.Up.{IsUp}

-- A console that prints, before there is a screen or with a valid one.
pub record CanPanic (rounds : ℕ) (c : Console) : Type 0 where
  pub up : IsUp rounds c
  pub screen : (Visible.IsValid c.screen) ⊎ (c.screen.framebuffer.is_ready ≡ false)

pub CanPanic-Printed :
    {rounds : ℕ} {c : Console} {text : List ℕ} {d : Console}
    → CanPanic rounds c
    → Printed c text d
    → CanPanic rounds d
CanPanic-Printed p (printed v sent) = record {
  up = record {
    id = p.up.id;
    log_id = p.up.log_id;
    default = p.up.default;
    prints = Listens-same sent p.up.prints;
    log = p.up.log;
    logs = Listens-same sent p.up.logs;
  };
  screen = p.screen;
}

-- The kernel `k'` is `k` after some such steps: all but the memory management is as it was, and
-- the console still prints.
pub record Keeps (rounds : ℕ) (k k' : Kernel) : Type 0 where
  pub console : CanPanic rounds k'.console
  pub level : k'.console.current_level ≡ k.console.current_level
  pub screen : k'.console.screen ≡ k.console.screen
  pub gdt : k'.gdt ≡ k.gdt
  pub idt : k'.idt ≡ k.idt
  pub bytes : k'.bytes ≡ k.bytes

pub Keeps-refl : {rounds : ℕ} {k : Kernel} → CanPanic rounds k.console → Keeps rounds k k
Keeps-refl c = record {
  console = c;
  level = refl;
  screen = refl;
  gdt = refl;
  idt = refl;
  bytes = refl;
}

pub Keeps-trans :
    {rounds : ℕ} {k k' k'' : Kernel} → Keeps rounds k k' → Keeps rounds k' k'' → Keeps rounds k k''
Keeps-trans s t = record {
  console = t.console;
  level = t.level ∙ s.level;
  screen = t.screen ∙ s.screen;
  gdt = t.gdt ∙ s.gdt;
  idt = t.idt ∙ s.idt;
  bytes = t.bytes ∙ s.bytes;
}

pub Keeps-Printed :
    {rounds : ℕ} {k k' : Kernel} {text : List ℕ} {d : Console}
    → Keeps rounds k k'
    → Printed k'.console text d
    → Keeps rounds k (record k' { console = d })
Keeps-Printed {k'} kept (printed v sent) = record {
  console = CanPanic-Printed kept.console (printed v sent);
  level = kept.level;
  screen = kept.screen;
  gdt = kept.gdt;
  idt = kept.idt;
  bytes = kept.bytes;
}

-- A panic of the memory management, with what held of its state.
abbrev pub Panics : (String → Machine → Type 0) → String → Kernel → Type 0
Panics Q message k = Q message k.machine × (k.console.interrupts ≡ false)

-- The kernel after such steps from `k`, with what holds of the memory management.
abbrev pub Stepped : ℕ → Kernel → {A : Type 0} → (A → Machine → Type 0) → A → Kernel → Type 0
Stepped rounds k P a k' = P a k'.machine × Keeps rounds k k'

module _ (rounds : ℕ) (render : String → List Arg → List ℕ) where
  pub klog-Stepped :
      {k0 : Kernel} (P : Machine → Type 0) (level : Level) (format : String) (args : List Arg)
      (k : Kernel)
      → rank level < 4
      → P k.machine
      → Keeps rounds k0 k
      → Returns (Stepped rounds k0 (λ _ m. P m)) (klog rounds render level format args k)
  klog-Stepped P level format args k below p kept =
      let up = kept.console.up in
      Returns-within k (λ k c. record k { console = c })
        (klogf-Printed rounds render level format args k.console up.log_id up.logs up.log below)
        (λ _ _ done. (p, Keeps-Printed kept done))

  panic-Ends :
      {A : Type 0} {R : A → Kernel → Type 0} (Q : String → Machine → Type 0) {format : String}
      {text : List ℕ} (k : Kernel) {run : Run Console (Unit {0})}
      → Q format k.machine
      → Ends
          (λ _ _. ⊥)
          (λ message d. (message ≡ format) × Panicked rounds render k.console text d)
          run
      → Ends R
          (Panics Q)
          (and_then (within_run k (λ k c. record k { console = c }) run) (λ _ k. halted k))
  panic-Ends Q k q (returns never) = absurd never
  panic-Ends Q k q (panics (e, panicked t v cleared sent)) =
      panics (subst (λ message. Q message k.machine) (sym e) q, refl)

  -- What a step of the memory management leaves, the rest as it was.
  pub data Kept {A : Type 0} (k : Kernel) (P : A → Machine → Type 0) (a : A) : Kernel → Type 0 where
    kept : (m : Machine) → P a m → Kept k P a (record k { machine = m })

  pub machine-Kept :
      {A : Type 0} {P : A → Machine → Type 0} {Q : String → Machine → Type 0} (k : Kernel)
      {run : Run Machine A}
      → CanPanic rounds k.console
      → Ends P Q run
      → Ends (Kept k P) (Panics Q) (run_machine rounds render k run)
  unfolding run_machine kpanic
  machine-Kept k c (returns {s = m} p) = returns (kept m p)
  machine-Kept {Q = Q} k c (panics {m = message} {s = m} q) =
      panic-Ends Q (record k { machine = m }) q
        (klogf-Panicked rounds render message [] k.console c.up.log_id c.up.logs c.up.log c.screen)

  Stepped-Kept :
      {A : Type 0} {P : A → Machine → Type 0} {k0 : Kernel} (k : Kernel) {a : A} {k' : Kernel}
      → Keeps rounds k0 k
      → Kept k P a k'
      → Stepped rounds k0 P a k'
  Stepped-Kept k before (kept m p) = (
    p,
    record {
      console = before.console;
      level = before.level;
      screen = before.screen;
      gdt = before.gdt;
      idt = before.idt;
      bytes = before.bytes;
    },
  )

  pub machine-Stepped :
      {A : Type 0} {P : A → Machine → Type 0} {Q : String → Machine → Type 0} {k0 : Kernel}
      (k : Kernel) {run : Run Machine A}
      → Keeps rounds k0 k
      → Ends P Q run
      → Ends (Stepped rounds k0 P) (Panics Q) (run_machine rounds render k run)
  machine-Stepped k before e =
      Ends-mono (machine-Kept k before.console e) (λ _ _ done. Stepped-Kept k before done)
        (λ _ _ q. q)
