-- ===== src/Base/Commands.antt =====
-- Code over a state: it returns, it ends in `kpanic` or in an endless halt, which never return, or
-- it makes an access outside the object that it is given, which C leaves undefined.
use Prim.Native.String.{String}

pub data Run (S : Type 0) (A : Type 0) : Type 0 where
  ok : A → S → Run S A
  panic : String → S → Run S A
  halted : S → Run S A
  fault : Run S A
  -- the rounds given to a loop of the model are used up
  out_of_fuel : Run S A

abbrev pub Cmd : Type 0 → Type 0 → Type 0
Cmd S A = S → Run S A

module _ {S : Type 0} where
  abbrev pub pure : {A : Type 0} → A → Cmd S A
  pure a s = ok a s

  abbrev pub get : Cmd S S
  get s = ok s s

  abbrev pub put : S → Cmd S (Unit {0})
  put s' s = ok tt s'

module _ {S A B : Type 0} where
  abbrev pub and_then : Run S A → (A → Cmd S B) → Run S B
  and_then (ok a s) k = k a s
  and_then (panic m s) k = panic m s
  and_then (halted s) k = halted s
  and_then fault k = fault
  and_then out_of_fuel k = out_of_fuel

  infixl 5 ◌>>=◌ ◌>>◌
  abbrev pub ◌>>=◌ : Cmd S A → (A → Cmd S B) → Cmd S B
  m >>= k = λ s. and_then (m s) k

  abbrev pub ◌>>◌ : Cmd S A → Cmd S B → Cmd S B
  m >> n = m >>= λ _. n

-- A run of a part of the state, and a command on it.
abbrev pub within_run : {S T A : Type 0} → S → (S → T → S) → Run T A → Run S A
within_run s put_back (ok a t) = ok a (put_back s t)
within_run s put_back (panic m t) = panic m (put_back s t)
within_run s put_back (halted t) = halted (put_back s t)
within_run s put_back fault = fault
within_run s put_back out_of_fuel = out_of_fuel

abbrev pub within : {S T A : Type 0} → (S → T) → (S → T → S) → Cmd T A → Cmd S A
within part put_back m s = within_run s put_back (m (part s))

-- A run ends well: it returns with `P`, or panics where `Q` holds; it makes no bad access.
pub data Ends {S A : Type 0} (P : A → S → Type 0) (Q : String → S → Type 0) : Run S A → Type 0 where
  returns : {a : A} {s : S} → P a s → Ends P Q (ok a s)
  panics : {m : String} {s : S} → Q m s → Ends P Q (panic m s)

abbrev pub Never : {S : Type 0} → String → S → Type 0
Never m s = ⊥

-- It returns, with `P`.
abbrev pub Returns : {S A : Type 0} → (A → S → Type 0) → Run S A → Type 0
Returns P = Ends P Never

module _ {S A : Type 0} {P : A → S → Type 0} {Q : String → S → Type 0} where
  pub Ends-and_then :
      {B : Type 0} {R : B → S → Type 0} {r : Run S A} {k : A → Cmd S B}
      → Ends P Q r
      → ((a : A) (s : S) → P a s → Ends R Q (k a s))
      → Ends R Q (and_then r k)
  Ends-and_then (returns p) next = next _ _ p
  Ends-and_then (panics q) next = panics q

  pub Ends-mono :
      {P' : A → S → Type 0} {Q' : String → S → Type 0} {r : Run S A}
      → Ends P Q r
      → ((a : A) (s : S) → P a s → P' a s)
      → ((m : String) (s : S) → Q m s → Q' m s)
      → Ends P' Q' r
  Ends-mono (returns p) f g = returns (f _ _ p)
  Ends-mono (panics q) f g = panics (g _ _ q)

pub Returns-and_then :
    {S A B : Type 0} {P : A → S → Type 0} {R : B → S → Type 0} {Q : String → S → Type 0}
    {r : Run S A} {k : A → Cmd S B}
    → Returns P r
    → ((a : A) (s : S) → P a s → Ends R Q (k a s))
    → Ends R Q (and_then r k)
Returns-and_then (returns p) next = next _ _ p
Returns-and_then (panics never) next = absurd never

pub Returns-within :
    {S T A : Type 0} {P : A → T → Type 0} {P' : A → S → Type 0} (s : S) (put_back : S → T → S)
    {r : Run T A}
    → Returns P r
    → ((a : A) (t : T) → P a t → P' a (put_back s t))
    → Returns P' (within_run s put_back r)
Returns-within s put_back (returns p) f = returns (f _ _ p)
Returns-within s put_back (panics never) f = absurd never

-- A run of code that never returns ends well: it halts with `P`, or panics where `Q` holds.
pub data Halts {S A : Type 0} (P : S → Type 0) (Q : String → S → Type 0) : Run S A → Type 0 where
  halts : {s : S} → P s → Halts P Q (halted s)
  halts_panic : {m : String} {s : S} → Q m s → Halts P Q (panic m s)

pub Halts-and_then :
    {S A B : Type 0} {P : A → S → Type 0} {R : S → Type 0} {Q : String → S → Type 0} {r : Run S A}
    {k : A → Cmd S B}
    → Ends P Q r
    → ((a : A) (s : S) → P a s → Halts R Q (k a s))
    → Halts R Q (and_then r k)
Halts-and_then (returns p) next = next _ _ p
Halts-and_then (panics q) next = halts_panic q

pub Halts-then :
    {S A B : Type 0} {P : A → S → Type 0} {R : S → Type 0} {Q : String → S → Type 0} {r : Run S A}
    {k : A → Cmd S B}
    → Returns P r
    → ((a : A) (s : S) → P a s → Halts R Q (k a s))
    → Halts R Q (and_then r k)
Halts-then (returns p) next = next _ _ p
Halts-then (panics never) next = absurd never
