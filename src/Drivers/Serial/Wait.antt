-- ===== src/Drivers/Serial/Wait.antt =====
-- Writing bytes: the wait for the line ends, and the bytes reach the data port in order.
use mathlib.Core.Path.{subst}
use rainstorm_os.Base.{
  ℕ, zero, suc, ◌+◌, ◌≤◌, ◌<◌, ◌≡◌, refl, bit_and, true, false, List, [], ◌∷◌, ◌++◌, arith, u8,
  ◌==◌, Returns, returns, Ends-and_then, Ends-mono, Bool-cases, inl, inr, dec_lt,
}
use rainstorm_os.Drivers.Serial.{
  Serial, data_port, line_status_port, outb, inb, is_transmit_empty, wait_empty, serial_write,
  serial_sink_write,
}

-- The transmitter is empty when the n-th read asks it.
abbrev pub IsEmptyAt : Serial → ℕ → Type 0
IsEmptyAt s n = (bit_and (u8 (s.answers n (line_status_port s.current_com))) 0x20 == 0) ≡ false

-- From any read on, one of the next `rounds` finds the transmitter empty.
pub record Drains (s : Serial) (rounds : ℕ) : Type 0 where
  pub wait : (n : ℕ) → ℕ
  pub in_time : (n : ℕ) → wait n < rounds
  pub empties : (n : ℕ) → IsEmptyAt s (n + wait n)

-- Bytes on top of a trace.
pub onto : ℕ → List ℕ → List (ℕ × ℕ) → List (ℕ × ℕ)
onto base [] l = l
onto base (ch ∷ text) l = onto base text ((data_port base, u8 ch) ∷ l)

-- `s` after the text went out: later reads have happened, and nothing else.
pub data Sent (s : Serial) (text : List ℕ) : Serial → Type 0 where
  sent_text :
      (n : ℕ)
      → s.reads ≤ n
      → Sent s text (record s { reads = n; sent = onto s.current_com text s.sent })

-- `s` after reads of the line's status up to the first that finds the transmitter empty.
data Waited (s : Serial) : Serial → Type 0 where
  waited :
      (n : ℕ)
      → s.reads ≤ n
      → ((j : ℕ) → s.reads ≤ j → j < n → IsEmptyAt s j → ⊥)
      → IsEmptyAt s n
      → Waited s (record s { reads = n + 1 })

Waited-later :
    {s t : Serial}
    → (IsEmptyAt s s.reads → ⊥)
    → Waited (record s { reads = s.reads + 1 }) t
    → Waited s t
Waited-later {s} full (waited n h first e) =
    waited n (omega arith)
      (λ j from to at. elim (dec_lt s.reads j) [
        | yes later ↦ first j (omega (arith, later)) to at
        | no now ↦ full (subst (IsEmptyAt s) (omega (arith, now, from)) at)
      ])
      e

wait_empty-Waited :
    (rounds k : ℕ) (s : Serial)
    → k < rounds
    → IsEmptyAt s (s.reads + k)
    → Returns (λ _ t. Waited s t) (wait_empty rounds s)
unfolding wait_empty is_transmit_empty inb
wait_empty-Waited zero k s h e = absurd (omega arith)
wait_empty-Waited (suc rounds) zero s h e =
    let now : IsEmptyAt s s.reads = subst (IsEmptyAt s) (omega arith) e in
    rw now (returns (waited s.reads (omega arith) (λ j from to. absurd (omega arith)) now))
wait_empty-Waited (suc rounds) (suc k) s h e =
    elim (Bool-cases
      (bit_and (u8 (s.answers s.reads (line_status_port s.current_com))) 0x20 == 0)) [
        | inl full ↦
            let later : IsEmptyAt s (s.reads + 1 + k) = subst (IsEmptyAt s) (omega arith) e in
            rw full (
              Ends-mono
                (wait_empty-Waited rounds k (record s { reads = s.reads + 1 }) (omega arith) later)
                (λ _ t w. Waited-later (λ now. absurd (ground (arith, full, now))) w)
                (λ _ _ never. never))
        | inr now ↦
            rw now (returns (waited s.reads (omega arith) (λ j from to. absurd (omega arith)) now))
      ]

-- The one character of `serial_write`: it goes out after the first read from now on that finds the
-- transmitter empty, and with no other read of a port.
pub data Written (s : Serial) (ch : ℕ) : Serial → Type 0 where
  written :
      (n : ℕ)
      → s.reads ≤ n
      → ((j : ℕ) → s.reads ≤ j → j < n → IsEmptyAt s j → ⊥)
      → IsEmptyAt s n
      → Written s ch (record s { reads = n + 1; sent = (s.current_com, u8 ch) ∷ s.sent })

-- On a driver that is set up, where one of the next `rounds` reads of the line's status would find
-- the transmitter empty, `serial_write` returns: it has read the status up to the first time that the
-- transmitter was empty, and then sent the character to the data port and nothing else.
pub serial_write-Written :
    (rounds ch k : ℕ) (s : Serial)
    → s.is_initialised ≡ true
    → k < rounds
    → IsEmptyAt s (s.reads + k)
    → Returns (λ _ t. Written s ch t) (serial_write rounds ch s)
unfolding serial_write outb
serial_write-Written rounds ch k s ready h e =
    simp ready (Ends-and_then (wait_empty-Waited rounds k s h e) (λ _ t w. send w))
  where
    send :
        {t : Serial}
        → Waited s t
        → Returns (λ _ u. Written s ch u) (outb (data_port s.current_com) ch t)
    send (waited n h first e) = returns (written n h first e)

Sent-Written : {s : Serial} {ch : ℕ} {t : Serial} → Written s ch t → Sent s (ch ∷ []) t
unfolding onto
Sent-Written (written n h first e) = sent_text (n + 1) (omega arith)

pub serial_write-Sent :
    (rounds ch : ℕ) (s : Serial)
    → s.is_initialised ≡ true
    → Drains s rounds
    → Returns (λ _ t. Sent s (ch ∷ []) t) (serial_write rounds ch s)
serial_write-Sent rounds ch s ready drains =
    Ends-mono
      (serial_write-Written rounds ch (drains.wait s.reads) s ready (drains.in_time s.reads)
        (drains.empties s.reads))
      (λ _ t w. Sent-Written w) (λ _ _ never. never)

pub Drains-same :
    {s : Serial} {text : List ℕ} {t : Serial} {rounds : ℕ}
    → Sent s text t
    → Drains s rounds
    → Drains t rounds
Drains-same (sent_text n h) d = record { wait = d.wait; in_time = d.in_time; empties = d.empties }

pub is_initialised-same :
    {s : Serial} {text : List ℕ} {t : Serial} → Sent s text t → t.is_initialised ≡ s.is_initialised
is_initialised-same (sent_text n h) = refl

pub registry-same :
    {s : Serial} {text : List ℕ} {t : Serial} → Sent s text t → t.registry ≡ s.registry
registry-same (sent_text n h) = refl

pub Sent-nothing : (s : Serial) → Sent s [] s
unfolding onto
Sent-nothing s = sent_text s.reads (omega arith)

onto_append :
    (base : ℕ) (text more : List ℕ) (l : List (ℕ × ℕ))
    → onto base (text ++ more) l ≡ onto base more (onto base text l)
unfolding onto
onto_append base [] more l = refl
onto_append base (ch ∷ text) more l = onto_append base text more _

pub Sent-append :
    {s : Serial} {text more : List ℕ} {t u : Serial}
    → Sent s text t
    → Sent t more u
    → Sent s (text ++ more) u
Sent-append {s} {text = text} {more = more} (sent_text n h) (sent_text m k) =
    subst (λ l. Sent s (text ++ more) (record s { reads = m; sent = l }))
      (onto_append s.current_com text more s.sent) (sent_text m (omega arith))

pub serial_sink_write-Sent :
    (rounds ch : ℕ) (s : Serial)
    → s.is_initialised ≡ true
    → Drains s rounds
    → Returns (λ _ t. Sent s (ch ∷ []) t) (serial_sink_write rounds ch s)
unfolding serial_sink_write
serial_sink_write-Sent rounds ch s ready drains =
    simp ready (serial_write-Sent rounds ch s ready drains)
