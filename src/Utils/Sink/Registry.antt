-- ===== src/Utils/Sink/Registry.antt =====
-- What the registry promises: ids are given in order, and a character goes to the callback of its
-- id and nowhere else.
use rainstorm_os.Base.{
  ℕ, ◌+◌, ◌≤◌, ◌<◌, ◌≡◌, refl, true, Option, none, some, ◌∷◌, leb, ◌==◌, if◌then◌else◌, Run, ok,
  ◌>>◌, Returns, returns, arith, Bool-cases, leb→le, leb_false→lt, lt→leb_false, ==_refl, ap, ◌∙◌,
  inl, inr,
}
use rainstorm_os.Base.Int.{ℤ, pos, negsuc}
use rainstorm_os.Utils.Sink.{
  Sinks, sink_max, is_null, clear_bytes, set_sink, sink_register, sink_remove, sink_target,
  sink_write,
}

-- Ids that were not given out yet are empty.
pub record IsValid (s : Sinks) : Type 0 where
  pub bounded : s.next ≤ 256
  pub unused : (n : ℕ) → s.next ≤ n → s.sinks n ≡ none

-- What `sink_register` leaves: the next id, until there are 256 of them.
pub data Registered (s : Sinks) (f : ℕ) : Run Sinks ℤ → Type 0 where
  given :
      {t : Sinks}
      → s.next < 256
      → IsValid t
      → ((n : ℕ) → t.sinks n ≡ (if s.next == n then some f else s.sinks n))
      → t.next ≡ s.next + 1
      → t.calls ≡ s.calls
      → Registered s f (ok (pos s.next) t)
  full :
      {t : Sinks}
      → s.next ≡ 256
      → ((n : ℕ) → t.sinks n ≡ s.sinks n)
      → t.next ≡ s.next
      → t.calls ≡ s.calls
      → Registered s f (ok (negsuc 0) t)

sink_remove_lem :
    (id : ℕ) (t : Sinks)
    → id < 256
    → sink_remove (pos id) t ≡ ok tt (record t { sinks = set_sink t.sinks id none })
unfolding sink_remove
sink_remove_lem id t less = rw (lt→leb_false 256 id less)

write-removed :
    (id ch : ℕ) (t : Sinks)
    → id < 256
    → sink_write (pos id) ch (record t { sinks = set_sink t.sinks id none })
      ≡ ok tt (record t { sinks = set_sink t.sinks id none })
unfolding sink_write sink_target
write-removed id ch t less = rw (lt→leb_false 256 id less, ==_refl id)

module _ (s : Sinks) (v : IsValid s) where
  -- The clearing before the first registration finds an empty table.
  abbrev cleared : ℕ → Option ℕ
  cleared = if s.next == 0 then clear_bytes sink_max s.sinks else s.sinks

  cleared_eq : (n : ℕ) → cleared n ≡ s.sinks n
  cleared_eq n = elim (Bool-cases (s.next == 0)) [
    | inl first ↦ rw first (ground (arith, v.unused n))
    | inr later ↦ rw later refl
  ]

  next_is_null : is_null (cleared s.next) ≡ true
  next_is_null = ap is_null (cleared_eq s.next ∙ v.unused s.next (omega arith))

  -- In a valid registry, `sink_register` of a callback gives the next id with that callback, and
  -- leaves the other ids as they were, as long as fewer than 256 were given; from then on it returns
  -- -1 and changes no id. It calls no callback.
  pub sink_register-Registered : (f : ℕ) → Registered s f (sink_register (some f) s)
  unfolding sink_register
  sink_register-Registered f = elim (Bool-cases (leb 256 s.next)) [
    | inl over ↦
        rw over (full (omega (arith, v.bounded, leb→le 256 s.next over)) cleared_eq refl refl)
    | inr under ↦
        let room = leb_false→lt 256 s.next under in
        rw (under, next_is_null)
          (given room
            (record {
              bounded = omega arith;
              unused = λ n h. ground (arith, cleared_eq n, v.unused n);
            })
            (λ n. ground (arith, cleared_eq n)) refl refl)
  ]

  -- What a later write and a later removal do with an id.
  abbrev pub Works : ℕ → ℕ → ℤ → Sinks → Type 0
  Works f ch id t =
      (sink_write id ch t ≡ ok tt (record t { calls = (f, ch) ∷ s.calls }))
      × Returns (λ _ u. u.calls ≡ s.calls) ((sink_remove id >> sink_write id ch) t)

  Works-after :
      (f ch : ℕ) {r : Run Sinks ℤ} → s.next < 256 → Registered s f r → Returns (Works f ch) r
  unfolding sink_write sink_target
  Works-after f ch room (given {t = t} less valid table next calls) =
      let there : t.sinks s.next ≡ some f = ground (arith, table s.next) in
      let small = lt→leb_false 256 s.next room in
      returns (
        rw (small, there, calls) refl,
        rw (sink_remove_lem s.next t room) (rw (write-removed s.next ch t room) (returns calls)),
      )
  Works-after f ch room (full e _ _ _) = absurd (omega arith)

  -- In a valid registry with fewer than 256 ids given, a character that is written to the id that
  -- `sink_register` returns goes to the callback registered, once; after `sink_remove` of that id it
  -- goes nowhere.
  pub sink_write-sink_register :
      (f ch : ℕ) → s.next < 256 → Returns (Works f ch) (sink_register (some f) s)
  sink_write-sink_register f ch room = Works-after f ch room (sink_register-Registered f)

pub sink_target_lem : (id : ℕ) (t : Sinks) → id < 256 → sink_target (pos id) t ≡ ok (t.sinks id) t
unfolding sink_target
sink_target_lem id t less = rw (lt→leb_false 256 id less) refl
