-- ===== src/Utils/Console/Text.antt =====
-- A text that is printed reaches the serial port.
use rainstorm_os.Base.{
  ℕ, ◌<◌, ◌≡◌, ◌∙◌, true, List, [], ◌∷◌, ◌++◌, some, Run, ok, Cmd, within_run, Returns-within,
  Returns, returns, Ends-and_then, Ends-mono, ◌⊎◌, inl, inr, ap, String,
}
use rainstorm_os.Base.Int.{pos}
use rainstorm_os.Utils.Sink.{sink_target}
use rainstorm_os.Utils.Sink.Registry.{sink_target_lem}
use rainstorm_os.Drivers.Serial.{Serial, serial_sink}
use rainstorm_os.Drivers.Serial.Wait.{
  Drains, Sent, Drains-same, is_initialised-same, registry-same, Sent-nothing, Sent-append,
  serial_write-Sent, serial_sink_write-Sent,
}
use rainstorm_os.Utils.Console.{
  Console, Arg, debug_callback, debug_sink_write, run_callback, putchar, put_text, kprintf,
}

-- The id stands for one of the two callbacks that write to the port, and the port takes bytes.
pub record Listens (s : Serial) (rounds id : ℕ) : Type 0 where
  pub small : id < 256
  pub callback :
      (s.registry.sinks id ≡ some serial_sink) ⊎ (s.registry.sinks id ≡ some debug_callback)
  pub on : s.is_initialised ≡ true
  pub drains : Drains s rounds

-- `c` after a text went out on the port, all else as it was.
pub data Printed (c : Console) (text : List ℕ) : Console → Type 0 where
  printed : (v : Serial) → Sent c.serial text v → Printed c text (record c { serial = v })

pub Listens-same :
    {s : Serial} {text : List ℕ} {t : Serial} {rounds id : ℕ}
    → Sent s text t
    → Listens s rounds id
    → Listens t rounds id
Listens-same {id = id} sent l = record {
  small = l.small;
  callback = rw (registry-same sent) l.callback;
  on = is_initialised-same sent ∙ l.on;
  drains = Drains-same sent l.drains;
}

sending :
    (c : Console) {text : List ℕ} {run : Run Serial (Unit {0})}
    → Returns (λ _ t. Sent c.serial text t) run
    → Returns (λ _ d. Printed c text d) (within_run c (λ c s. record c { serial = s }) run)
sending c sent = Returns-within c (λ c s. record c { serial = s }) sent (λ _ v s. printed v s)

Printed-append :
    {c : Console} {text more : List ℕ} (v : Serial) {d : Console}
    → Sent c.serial text v
    → Printed (record c { serial = v }) more d
    → Printed c (text ++ more) d
Printed-append v sent (printed u sent') = printed u (Sent-append sent sent')

module _ {rounds : ℕ} where
  callback-Printed :
      (c : Console) (id ch : ℕ)
      → Listens c.serial rounds id
      → Returns
          (λ _ d. Printed c (ch ∷ []) d)
          (run_callback rounds (c.serial.registry.sinks id) ch c)
  unfolding run_callback debug_sink_write
  callback-Printed c id ch l = elim l.callback [
    | inl e ↦ rw e (sending c (serial_sink_write-Sent rounds ch c.serial l.on l.drains))
    | inr e ↦ rw e (sending c (serial_write-Sent rounds ch c.serial l.on l.drains))
  ]

  putchar-Printed :
      (c : Console) (id ch : ℕ)
      → Listens c.serial rounds id
      → c.default_sink ≡ pos id
      → Returns (λ _ d. Printed c (ch ∷ []) d) (putchar rounds ch c)
  unfolding putchar
  putchar-Printed c id ch l e =
      let target : sink_target c.default_sink c.serial.registry
          ≡ ok (c.serial.registry.sinks id) c.serial.registry =
        ap (λ i. sink_target i c.serial.registry) e
        ∙ sink_target_lem id c.serial.registry l.small in
      rw target (callback-Printed c id ch l)

  pub put_text-Printed :
      (text : List ℕ) (c : Console) (id : ℕ)
      → Listens c.serial rounds id
      → c.default_sink ≡ pos id
      → Returns (λ _ d. Printed c text d) (put_text rounds text c)
  unfolding put_text
  put_text-Printed [] c id l e = returns (printed c.serial (Sent-nothing c.serial))
  put_text-Printed (ch ∷ text) c id l e = Ends-and_then (putchar-Printed c id ch l e) (λ _ d p.
      rest p (λ v s. put_text-Printed text (record c { serial = v }) id (Listens-same s l) e))
    where
      rest :
          {d : Console}
          → Printed c (ch ∷ []) d
          → ((v : Serial)
              → Sent c.serial (ch ∷ []) v
              → Returns
                  (λ _ d. Printed (record c { serial = v }) text d)
                  (put_text rounds text (record c { serial = v })))
          → Returns (λ _ d. Printed c (ch ∷ text) d) (put_text rounds text d)
      rest (printed v sent) next =
          Ends-mono (next v sent) (λ _ d p. Printed-append v sent p) (λ _ _ never. never)

  -- What is printed after a text follows it.
  pub Printed-then :
      {c : Console} {text more : List ℕ} {d : Console} (id : ℕ) (next : Cmd Console (Unit {0}))
      → Listens c.serial rounds id
      → Printed c text d
      → ((v : Serial)
          → Listens v rounds id
          → Returns
              (λ _ d. Printed (record c { serial = v }) more d)
              (next (record c { serial = v })))
      → Returns (λ _ d. Printed c (text ++ more) d) (next d)
  Printed-then id next l (printed v sent) follows =
      Ends-mono (follows v (Listens-same sent l)) (λ _ d p. Printed-append v sent p)
        (λ _ _ never. never)

  module _ (render : String → List Arg → List ℕ) where
    pub kprintf-Printed :
        (format : String) (args : List Arg) {c : Console} (id : ℕ)
        → Listens c.serial rounds id
        → c.default_sink ≡ pos id
        → Returns (λ _ d. Printed c (render format args) d) (kprintf rounds render format args c)
    unfolding kprintf
    kprintf-Printed format args {c} id l e = put_text-Printed (render format args) c id l e

    -- The same after a text that went out before.
    pub kprintf-after :
        (format : String) (args : List Arg) {c : Console} {text : List ℕ} {d : Console} (id : ℕ)
        → Listens c.serial rounds id
        → c.default_sink ≡ pos id
        → Printed c text d
        → Returns
            (λ _ d. Printed c (text ++ render format args) d)
            (kprintf rounds render format args d)
    kprintf-after format args {c} id l e p =
        Printed-then id (kprintf rounds render format args) l p
          (λ v l'. kprintf-Printed format args {c = record c { serial = v }} id l' e)
