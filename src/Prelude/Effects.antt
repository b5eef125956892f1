-- ===== src/Prelude/Effects.antt =====
-- What a Go call ends with, and calls that also change a state: a stream, a sink, a connection.
use Prim.Native.Nat.{ℕ}
use mathlib.Core.List.{List}

-- The errors of `io`, a writer's refusal, and errors made by the code with their text.
pub data Error : Type 0 where
  eof unexpected_eof write_failed : Error
  failed : List ℕ → Error

-- `panicked` is a run-time panic, which no code of the proxy recovers from.
pub data Outcome {ℓ} (A : Type ℓ) : Type ℓ where
  ok : A → Outcome A
  err : Error → Outcome A
  panicked : Outcome A

-- A call that reads and changes a state of type `S`; the state is kept on an error too.
abbrev pub Action : Type 0 → Type 0 → Type 0
Action S A = S → Outcome A × S

abbrev pub and_then {ℓ} :
    {S A : Type 0} {B : Type ℓ} → Outcome A × S → (A → S → Outcome B × S) → Outcome B × S
and_then (ok a, s) f = f a s
and_then (err e, s) f = (err e, s)
and_then (panicked, s) f = (panicked, s)

infixl 5 ◌>>=◌ ◌>>◌
abbrev pub ◌>>=◌ : {S A B : Type 0} → Action S A → (A → Action S B) → Action S B
◌>>=◌ m f s = and_then (m s) f

abbrev pub ◌>>◌ : {S A B : Type 0} → Action S A → Action S B → Action S B
◌>>◌ m k s = and_then (m s) (λ _. k)

abbrev pub return : {S A : Type 0} → A → Action S A
return a s = (ok a, s)

-- `x, _ := f()`: the error is dropped, and the value is then Go's zero value `d`.
abbrev pub or_zero : {S A : Type 0} → A → Outcome A × S → Outcome A × S
or_zero d (ok a, s) = (ok a, s)
or_zero d (err e, s) = (ok d, s)
or_zero d (panicked, s) = (panicked, s)

abbrev pub ignoring : {S A : Type 0} → A → Action S A → Action S A
ignoring d m s = or_zero d (m s)

-- The cases of a result whose error the caller handles.
abbrev pub cases_of :
    {S A B : Type 0} → Outcome A × S → (Error → Action S B) → (A → Action S B) → Outcome B × S
cases_of (ok a, s) on_error next = next a s
cases_of (err e, s) on_error next = on_error e s
cases_of (panicked, s) on_error next = (panicked, s)

abbrev pub handling :
    {S A B : Type 0} → Action S A → (Error → Action S B) → (A → Action S B) → Action S B
handling m on_error next s = cases_of (m s) on_error next

-- How the loop of a connection ends: the client closed it or a read or write failed; the process
-- panicked; or the fuel of the model ran out.
pub data Ending : Type 0 where
  closed crashed stuck : Ending
