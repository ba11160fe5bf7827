-- ===== src/Utils/Sink.antt =====
-- src/utils/sink.c: the registry of character sinks. A callback is a number, NULL is `none`; the
-- state has `curr_idx + 1` as a natural number. A negative id is an access before the table.
pub mod Registry
mod Tests
use rainstorm_os.Base.{
  ℕ, ◌+◌, ◌*◌, ◌/◌, Bool, true, false, not, ◌||◌, Option, none, some, List, ◌∷◌, ltb, leb, ◌==◌,
  if◌then◌else◌, Run, ok, fault, Cmd, pure, ◌>>=◌,
}
use rainstorm_os.Base.Int.{ℤ, pos, negsuc}

pub record Sinks : Type 0 where
  pub sinks : ℕ → Option ℕ
  pub next : ℕ
  -- the calls of callbacks, the last first
  pub calls : List (ℕ × ℕ)

abbrev pub sink_max : ℕ
sink_max = 256

abbrev pub is_null : Option ℕ → Bool
is_null none = true
is_null (some f) = false

-- `memset(&sinks[0], 0, SINK_MAX)` on pointers of 8 bytes.
abbrev pub clear_bytes : ℕ → (ℕ → Option ℕ) → ℕ → Option ℕ
clear_bytes bytes t n = if ltb n (bytes / 8) then none else t n

abbrev pub set_sink : (ℕ → Option ℕ) → ℕ → Option ℕ → ℕ → Option ℕ
set_sink t id f n = if id == n then f else t n

pub sink_register : Option ℕ → Cmd Sinks ℤ
sink_register callback s =
    let t = if s.next == 0 then clear_bytes sink_max s.sinks else s.sinks in
    if leb sink_max s.next || not (is_null (t s.next))
    then ok (negsuc 0) (record s { sinks = t })
    else ok (pos s.next) (record s { sinks = set_sink t s.next callback; next = s.next + 1 })

pub sink_remove : ℤ → Cmd Sinks (Unit {0})
sink_remove (negsuc n) s = fault
sink_remove (pos id) s =
    if leb sink_max id then ok tt s else ok tt (record s { sinks = set_sink s.sinks id none })

abbrev pub call : Option ℕ → ℕ → Cmd Sinks (Unit {0})
call none ch s = ok tt s
call (some f) ch s = ok tt (record s { calls = (f, ch) ∷ s.calls })

-- The callback of an id, where it has one.
pub sink_target : ℤ → Cmd Sinks (Option ℕ)
sink_target (negsuc n) s = fault
sink_target (pos id) s = if leb sink_max id then ok none s else ok (s.sinks id) s

pub sink_write : ℤ → ℕ → Cmd Sinks (Unit {0})
sink_write id ch = sink_target id >>= λ f. call f ch
