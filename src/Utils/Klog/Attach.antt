-- ===== src/Utils/Klog/Attach.antt =====
-- The log gets its sink: after `klog_set_level` the lines of the log reach the serial port.
use rainstorm_os.Base.{
  ℕ, ◌<◌, ◌≡◌, refl, true, false, arith, Run, ok, and_then, Returns, returns, Ends-mono, Bool-cases,
  inl, inr, within_run,
}
use rainstorm_os.Base.Int.{ℤ, pos}
use rainstorm_os.Memory.Event.{Level}
use rainstorm_os.Utils.Sink.{Sinks}
use rainstorm_os.Utils.Sink.Registry.{IsValid, Registered, given, full, sink_register-Registered}
use rainstorm_os.Drivers.Serial.{register}
use rainstorm_os.Drivers.Serial.Wait.{Drains}
use rainstorm_os.Utils.Console.{Console, debug_callback}
use rainstorm_os.Utils.Console.Text.{Listens}
use rainstorm_os.Utils.Klog.{is_negative, klog_set_level}

-- What `klog_set_level` leaves.
pub data Levelled (c : Console) (level : Level) : Console → Type 0 where
  attached :
      (id : ℤ) (r : Sinks)
      → is_negative c.debug_sink ≡ true
      → Registered c.serial.registry debug_callback (ok id r)
      → Levelled c level (record c {
        current_level = level;
        debug_sink = id;
        serial = record c.serial { registry = r };
      })
  attached_before :
      is_negative c.debug_sink ≡ false → Levelled c level (record c { current_level = level })

-- The end of the registration, in the driver's state.
Registered-Levelled :
    {c : Console} {level : Level} {run : Run Sinks ℤ}
    → is_negative c.debug_sink ≡ true
    → Registered c.serial.registry debug_callback run
    → Returns
        (λ _ d. Levelled c level d)
        (and_then
          (within_run
            (record c { current_level = level })
            (λ c s. record c { serial = s })
            (within_run c.serial (λ s r. record s { registry = r }) run))
          (λ id e. ok tt (record e { debug_sink = id })))
Registered-Levelled off (given h v same next calls) =
    returns (attached _ _ off (given h v same next calls))
Registered-Levelled off (full h same next calls) =
    returns (attached _ _ off (full h same next calls))

-- With a valid registry of sinks, `klog_set_level` returns with the new level, and the log's sink is
-- the one that it had or, where it had none, what `sink_register` of `debug_sink_write` returns.
pub klog_set_level-Levelled :
    (level : Level) (c : Console)
    → IsValid c.serial.registry
    → Returns (λ _ d. Levelled c level d) (klog_set_level level c)
unfolding klog_set_level register
klog_set_level-Levelled level c v = elim (Bool-cases (is_negative c.debug_sink)) [
  | inl off ↦
      rw off (Registered-Levelled off (sink_register-Registered c.serial.registry v debug_callback))
  | inr on ↦ rw on (returns (attached_before on))
]

-- With fewer than 256 sinks given and a serial port that is set up and gets empty in time, the first
-- `klog_set_level` leaves the log a sink that writes to that port.
pub klog_set_level-Listens :
    {rounds : ℕ} (level : Level) (c : Console)
    → IsValid c.serial.registry
    → c.serial.registry.next < 256
    → is_negative c.debug_sink ≡ true
    → c.serial.is_initialised ≡ true
    → Drains c.serial rounds
    → Returns
        (λ _ d.
          (d.current_level ≡ level)
          × (d.debug_sink ≡ pos c.serial.registry.next)
          × Listens d.serial rounds c.serial.registry.next)
        (klog_set_level level c)
klog_set_level-Listens {rounds} level c v room off on drains =
    Ends-mono (klog_set_level-Levelled level c v) (λ _ d a. listens a) (λ _ _ never. never)
  where
    listens :
        {d : Console}
        → Levelled c level d
        → (d.current_level ≡ level)
          × (d.debug_sink ≡ pos c.serial.registry.next)
          × Listens d.serial rounds c.serial.registry.next
    listens (attached _ _ _ (given h valid table next calls)) = (
      refl,
      refl,
      record {
        small = room;
        callback = inr (ground (arith, table c.serial.registry.next));
        on = on;
        drains = record { wait = drains.wait; in_time = drains.in_time; empties = drains.empties };
      },
    )
    listens (attached _ _ _ (full e _ _ _)) = absurd (omega arith)
    listens (attached_before already) = absurd (ground (arith, off, already))

-- An id from before keeps writing to the port.
pub Listens-Levelled :
    {rounds id : ℕ} {c : Console} {level : Level} {d : Console}
    → Levelled c level d
    → id < c.serial.registry.next
    → Listens c.serial rounds id
    → Listens d.serial rounds id
Listens-Levelled {id = id} {c} (attached _ r _ (given h valid table next calls)) before l = record {
  small = l.small;
  callback =
      let same : r.sinks id ≡ c.serial.registry.sinks id = ground (arith, table id) in
      rw same l.callback;
  on = l.on;
  drains = record { wait = l.drains.wait; in_time = l.drains.in_time; empties = l.drains.empties };
}
Listens-Levelled {id = id} (attached _ r _ (full e same next calls)) before l = record {
  small = l.small;
  callback = rw (same id) l.callback;
  on = l.on;
  drains = record { wait = l.drains.wait; in_time = l.drains.in_time; empties = l.drains.empties };
}
Listens-Levelled (attached_before _) before l = l
