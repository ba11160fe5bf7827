-- ===== src/Utils/Klog/Lines.antt =====
-- Lines of the log: what the filter lets through reaches the serial port as one line.
use rainstorm_os.Base.{
  ℕ, ◌<◌, ◌≡◌, refl, true, false, List, [], ◌++◌, arith, ltb, ◌==◌, if◌then◌else◌, ok, Returns,
  returns, Ends-and_then, Bool-cases, inl, inr, ap, String,
}
use rainstorm_os.Base.Int.{pos, negsuc}
use rainstorm_os.Memory.Event.{Level}
use rainstorm_os.Drivers.Serial.Wait.{Sent-nothing}
use rainstorm_os.Utils.Console.{Console, Arg, kprintf_set_default_sink, kprintf_get_default_sink}
use rainstorm_os.Utils.Console.Text.{Listens, Printed, printed, kprintf-Printed, kprintf-after}
use rainstorm_os.Utils.Klog.{rank, log_labels, is_negative, log_line, klogf}

module _ (rounds : ℕ) (render : String → List Arg → List ℕ) (level : Level) (format : String)
    (args : List Arg) where
  -- The characters of a line.
  abbrev pub line : List ℕ
  line = (render (log_labels level) [] ++ render format args) ++ render "\n" []

  -- The line's sink is the default sink for as long as the line takes.
  restored :
      {c : Console} {text : List ℕ} {d : Console}
      → Printed (record c { default_sink = c.debug_sink }) text d
      → Printed c text (record d { default_sink = c.default_sink })
  restored (printed v sent) = printed v sent

  log_line-Printed :
      (c : Console) (id : ℕ)
      → Listens c.serial rounds id
      → c.debug_sink ≡ pos id
      → Returns (λ _ d. Printed c line d) (log_line rounds render level format args c)
  unfolding log_line kprintf_set_default_sink kprintf_get_default_sink
  log_line-Printed c id l e =
      Ends-and_then
        (kprintf-Printed render (log_labels level) [] {c = record c { default_sink = c.debug_sink }}
          id l e)
        (λ _ _ p. Ends-and_then (kprintf-after render format args id l e p) (λ _ _ p.
          Ends-and_then (kprintf-after render "\n" [] id l e p) (λ _ _ p. returns (restored p))))

  -- Where the log's sink writes to a serial port that is set up and gets empty in time, `klogf` of a
  -- level other than the panic returns; it has sent the label, the text and the end of the line to
  -- the port in this order if the level is not below the current one and nothing otherwise, and
  -- leaves the default sink and all else as it was.
  pub klogf-Printed :
      (c : Console) (id : ℕ)
      → Listens c.serial rounds id
      → c.debug_sink ≡ pos id
      → rank level < 4
      → Returns
          (λ _ d. Printed c (if ltb (rank level) (rank c.current_level) then [] else line) d)
          (klogf rounds render level format args c)
  unfolding klogf
  klogf-Printed c id l e h = elim (Bool-cases (ltb (rank level) (rank c.current_level))) [
    | inl below ↦ rw below (returns (printed c.serial (Sent-nothing c.serial)))
    | inr above ↦
        let other : rank level == 4 ≡ false = ground arith in
        let there : is_negative c.debug_sink ≡ false = ap is_negative e in
        rw (above, other, there) (log_line-Printed c id l e)
  ]

  -- Before `klog_set_level` gives the log a sink, `klogf` of a level other than the panic does
  -- nothing, whatever the level.
  pub klogf_without_sink :
      (c : Console) (n : ℕ)
      → c.debug_sink ≡ negsuc n
      → rank level < 4
      → klogf rounds render level format args c ≡ ok tt c
  unfolding klogf
  klogf_without_sink c n e h = elim (Bool-cases (ltb (rank level) (rank c.current_level))) [
    | inl below ↦ rw below refl
    | inr above ↦
        let other : rank level == 4 ≡ false = ground arith in
        let gone : is_negative c.debug_sink ≡ true = ap is_negative e in
        rw (above, other, gone) refl
  ]
