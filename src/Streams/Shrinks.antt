-- ===== src/Streams/Shrinks.antt =====
-- Reads that leave no more than they were given.
use agentx_proxy.Prelude.{
  ℕ, zero, suc, ◌≤◌, arith, Bool, true, false, [], ◌∷◌, Bytes, length, length-drop, ok, err,
  panicked, Outcome, Action, ◌>>=◌, and_then, return, if◌then◌else◌, ignoring, or_zero,
}
use agentx_proxy.Streams.{read_byte, read_bytes, read_full}

abbrev pub Shrinks : {A : Type 0} → Action Bytes A → Type 0
Shrinks m = (s : Bytes) → length (m s).1 ≤ length s

pub then-Shrinks :
    {A B : Type 0} (n : ℕ) (p : Outcome A × Bytes) (f : A → Action Bytes B)
    → length p.1 ≤ n
    → ((a : A) → Shrinks (f a))
    → length (and_then p f).1 ≤ n
then-Shrinks n (ok a, s) f h hf = omega (arith, hf a s)
then-Shrinks n (err e, s) f h hf = h
then-Shrinks n (panicked, s) f h hf = h

pub Shrinks-bind :
    {A B : Type 0} (m : Action Bytes A) (f : A → Action Bytes B)
    → Shrinks m
    → ((a : A) → Shrinks (f a))
    → Shrinks (m >>= f)
Shrinks-bind m f hm hf s = then-Shrinks (length s) (m s) f (hm s) hf

pub Shrinks-return : {A : Type 0} (a : A) → Shrinks (return a)
Shrinks-return a s = omega arith

pub Shrinks-if :
    {A : Type 0} (b : Bool) (m k : Action Bytes A)
    → Shrinks m
    → Shrinks k
    → Shrinks (if b then m else k)
Shrinks-if true m k hm hk = hm
Shrinks-if false m k hm hk = hk

pub Shrinks-ignoring :
    {A : Type 0} (d : A) (m : Action Bytes A) → Shrinks m → Shrinks (ignoring d m)
Shrinks-ignoring {A} d m h s = go (m s) (h s)
  where
    go : (p : Outcome A × Bytes) → length p.1 ≤ length s → length (or_zero d p).1 ≤ length s
    go (ok a, t) k = k
    go (err e, t) k = k
    go (panicked, t) k = k

pub read_byte-Shrinks : Shrinks read_byte
unfolding read_byte
read_byte-Shrinks [] = omega arith
read_byte-Shrinks (b ∷ s) = omega arith

pub read_bytes-Shrinks : (n : ℕ) → Shrinks (read_bytes n)
unfolding read_bytes
read_bytes-Shrinks zero = Shrinks-return {A = Bytes} []
read_bytes-Shrinks (suc n) =
    Shrinks-bind read_byte _ read_byte-Shrinks
      (λ b. Shrinks-bind (read_bytes n) _ (read_bytes-Shrinks n) (λ bs. Shrinks-return (b ∷ bs)))

pub read_full-Shrinks : (n : ℕ) → Shrinks (read_full n)
unfolding read_full
read_full-Shrinks n [] = ground arith
read_full-Shrinks n (b ∷ s) = ground (arith, length-drop n (b ∷ s))
