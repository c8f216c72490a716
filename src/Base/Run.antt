-- ===== src/Base/Run.antt =====
-- Outcomes of a piece of C++ that updates a state of type `S`: it returns, an `assert` fails, it
-- uses memory that is not there (undefined behaviour), it calls `exit`, it throws an exception that
-- nothing catches, or the fuel of the model is
-- used up.
use mathlib.Core.Path.{◌≡◌, refl, subst}
use mathlib.Core.Bool.{Bool, true, false}
use mathlib.Core.Option.{Option, none, some}
use memory_tiering.Base.{if◌then◌else◌}

pub data Run (S A : Type 0) : Type 0 where
  ok : A → S → Run S A
  assert_failed : Run S A
  fault : Run S A
  exit_failure : Run S A
  uncaught : Run S A
  out_of_fuel : Run S A

abbrev pub Cmd : Type 0 → Type 0 → Type 0
Cmd S A = S → Run S A

module _ {S : Type 0} where
  abbrev pub pure : {A : Type 0} → A → Cmd S A
  pure = ok

  abbrev pub get_state : Cmd S S
  get_state s = ok s s

  abbrev pub modify : (S → S) → Cmd S (Unit {0})
  modify f s = ok tt (f s)

  abbrev pub assert : Bool → Cmd S (Unit {0})
  assert true s = ok tt s
  assert false s = assert_failed

  -- A dereference: of nothing, it is undefined behaviour.
  abbrev pub deref : {A : Type 0} → Option A → Cmd S A
  deref none s = fault
  deref (some a) s = ok a s

  -- `std::get` on a variant, which throws where it holds something else.
  abbrev pub or_throw : {A : Type 0} → Option A → Cmd S A
  or_throw none s = uncaught
  or_throw (some a) s = ok a s

  abbrev pub and_then : {A B : Type 0} → Run S A → (A → Cmd S B) → Run S B
  and_then (ok a s) k = k a s
  and_then assert_failed k = assert_failed
  and_then fault k = fault
  and_then exit_failure k = exit_failure
  and_then uncaught k = uncaught
  and_then out_of_fuel k = out_of_fuel

  infixl 5 ◌>>=◌ ◌>>◌
  abbrev pub ◌>>=◌ : {A B : Type 0} → Cmd S A → (A → Cmd S B) → Cmd S B
  m >>= k = λ s. and_then (m s) k

  abbrev pub ◌>>◌ : {A B : Type 0} → Cmd S A → Cmd S B → Cmd S B
  m >> n = m >>= λ _. n

-- The command returns, and what it returns and leaves behind satisfies `P`.
pub data Returns {S A : Type 0} (P : A → S → Type 0) : Run S A → Type 0 where
  returns : {a : A} {s : S} → P a s → Returns P (ok a s)

pub Returns-ok :
    {S A : Type 0} {P : A → S → Type 0} {m : Run S A} (a : A) (s : S)
    → m ≡ ok a s
    → P a s
    → Returns P m
Returns-ok {P} a s e p = rw e (returns p)

pub Returns-bind :
    {S A B : Type 0} {P : A → S → Type 0} {Q : B → S → Type 0} {m : Run S A} {k : A → Cmd S B}
    → Returns P m
    → ((a : A) (s : S) → P a s → Returns Q (k a s))
    → Returns Q (and_then m k)
Returns-bind (returns {a} {s} p) next = next a s p

pub Returns-mono :
    {S A : Type 0} {P Q : A → S → Type 0} {m : Run S A}
    → Returns P m
    → ((a : A) (s : S) → P a s → Q a s)
    → Returns Q m
Returns-mono (returns {a} {s} p) weaken = returns (weaken a s p)

-- If the command returns, `P` holds of what it returns and leaves behind.
abbrev pub Whenever : {S A : Type 0} → (A → S → Type 0) → Run S A → Type 0
Whenever P (ok a s) = P a s
Whenever P assert_failed = Unit
Whenever P fault = Unit
Whenever P exit_failure = Unit
Whenever P uncaught = Unit
Whenever P out_of_fuel = Unit

pub Returns-Whenever :
    {S A : Type 0} (P : A → S → Type 0) {m : Run S A} → Returns P m → Whenever P m
Returns-Whenever P (returns p) = p

-- Two results of the same run, joined.
pub Returns-both :
    {S A : Type 0} {P Q R : A → S → Type 0} {m : Run S A}
    → Returns P m
    → Returns Q m
    → ((a : A) (s : S) → P a s → Q a s → R a s)
    → Returns R m
Returns-both {Q} (returns {a} {s} p) r join = returns (join a s p (Returns-Whenever Q r))

pub Returns-run :
    {S A : Type 0} {P : A → S → Type 0} {m : Run S A}
    → Returns P m
    → (a : A) × (s : S) × (m ≡ ok a s) × P a s
Returns-run (returns {a} {s} p) = (a, s, refl, p)

-- If the command returns true, what it leaves behind satisfies `P`.
abbrev pub Accepts : {S : Type 0} → (S → Type 0) → Run S Bool → Type 0
Accepts P (ok true s) = P s
Accepts P (ok false s) = Unit
Accepts P assert_failed = Unit
Accepts P fault = Unit
Accepts P exit_failure = Unit
Accepts P uncaught = Unit
Accepts P out_of_fuel = Unit

pub Accepts-run :
    {S : Type 0} (P : S → Type 0) {m : Run S Bool} (s : S) → Accepts P m → m ≡ ok true s → P s
Accepts-run P s h e = subst (λ r. Accepts P r) e h

-- `a && b` of two steps: the second runs if the first returns true.
abbrev pub and_also : {S : Type 0} → Cmd S Bool → Cmd S Bool → Cmd S Bool
and_also a b = a >>= λ done. if done then b else pure false

pub Accepts-and :
    {S : Type 0} (P Q : S → Type 0) (m : Run S Bool) (k : Cmd S Bool)
    → Accepts P m
    → ((s : S) → P s → Accepts Q (k s))
    → Accepts Q (and_then m (λ done. if done then k else pure false))
Accepts-and P Q (ok true s) k h next = next s h
Accepts-and P Q (ok false s) k h next = tt
Accepts-and P Q assert_failed k h next = tt
Accepts-and P Q fault k h next = tt
Accepts-and P Q exit_failure k h next = tt
Accepts-and P Q uncaught k h next = tt
Accepts-and P Q out_of_fuel k h next = tt

pub Accepts-if :
    {S : Type 0} (P : S → Type 0) (b : Bool) (m k : Cmd S Bool) (s : S)
    → Accepts P (m s)
    → Accepts P (k s)
    → Accepts P ((if b then m else k) s)
Accepts-if P true m k s h h' = h
Accepts-if P false m k s h h' = h'

pub Whenever-run :
    {S A : Type 0} (P : A → S → Type 0) {m : Run S A} (a : A) (s : S)
    → Whenever P m
    → m ≡ ok a s
    → P a s
Whenever-run P a s h e = subst (λ r. Whenever P r) e h
