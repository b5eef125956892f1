-- ===== src/Streams/Writes.antt =====
-- What a writer holds after a sequence of writes, also where it fails on the way.
use agentx_proxy.Prelude.{
  ℕ, zero, suc, ◌-◌, ◌≤◌, ◌<◌, ◌≡◌, refl, sym, [], ◌∷◌, ◌++◌, append-nil, append_assoc, arith,
  Bytes, length, take, ltb, if◌then◌else◌, write_failed, Outcome, ok, err, panicked, ◌>>◌, and_then,
  return,
}
use agentx_proxy.Streams.{Sink, write_byte, write_bytes}

append_in :
    (xs ys ws : Bytes) (r : ℕ)
    → write_bytes (xs ++ ys) (record { written = ws; room = r })
      ≡ (write_bytes xs >> write_bytes ys) (record { written = ws; room = r })
unfolding write_bytes write_byte
append_in [] ys ws r = refl
append_in (x ∷ xs) ys ws zero = refl
append_in (x ∷ xs) ys ws (suc r) = append_in xs ys (ws ++ x ∷ []) r

-- Writing two byte strings one after the other is writing their concatenation, also where the
-- writer fails on the way.
pub write_bytes-append :
    (xs ys : Bytes) (w : Sink) → (write_bytes xs >> write_bytes ys) w ≡ write_bytes (xs ++ ys) w
write_bytes-append xs ys w = sym (append_in xs ys w.written w.room)

write_some :
    (bs ws : Bytes) (r : ℕ)
    → length bs ≤ r
    → write_bytes bs (record { written = ws; room = r })
      ≡ (ok tt, record { written = ws ++ bs; room = r - length bs })
unfolding write_bytes write_byte
write_some [] ws r h = ground (arith, append-nil ws)
write_some (b ∷ bs) ws zero h = absurd (omega arith)
write_some (b ∷ bs) ws (suc r) h =
    ground (arith, write_some bs (ws ++ b ∷ []) r, append_assoc ws (b ∷ []) bs)

write_short :
    (bs ws : Bytes) (r : ℕ)
    → r < length bs
    → write_bytes bs (record { written = ws; room = r })
      ≡ (err write_failed, record { written = ws ++ take r bs; room = 0 })
unfolding write_bytes write_byte
write_short [] ws r h = absurd (omega arith)
write_short (b ∷ bs) ws zero h = rw append-nil
write_short (b ∷ bs) ws (suc r) h =
    ground (arith, write_short bs (ws ++ b ∷ []) r, append_assoc ws (b ∷ []) (take r bs))

-- The result of offering `bs` to a writer: all of it, or what there is room for and an error.
unfoldable pub offer : Bytes → Sink → Outcome (Unit {0}) × Sink
offer bs w =
    if ltb w.room (length bs)
    then (err write_failed, record { written = w.written ++ take w.room bs; room = 0 })
    else (ok tt, record { written = w.written ++ bs; room = w.room - length bs })

pub write_bytes-offer : (bs : Bytes) (w : Sink) → write_bytes bs w ≡ offer bs w
unfolding offer
write_bytes-offer bs w =
    ground (arith, write_some bs w.written w.room, write_short bs w.written w.room)

-- An empty writer with room for all of `bs` holds just that afterwards.
pub write_bytes_all :
    (bs : Bytes) (room : ℕ)
    → length bs ≤ room
    → write_bytes bs (record { written = []; room = room })
      ≡ (ok tt, record { written = bs; room = room - length bs })
write_bytes_all bs room h = write_some bs [] room h

pub write_byte-bytes : (b : ℕ) (w : Sink) → write_byte b w ≡ write_bytes (b ∷ []) w
unfolding write_bytes
write_byte-bytes b w = unit (write_byte b w)
  where
    unit : (p : Outcome (Unit {0}) × Sink) → p ≡ and_then p (λ _. return tt)
    unit (ok tt, s) = refl
    unit (err e, s) = refl
    unit (panicked, s) = refl

pub write_byte-then :
    (b : ℕ) (bs : Bytes) (w : Sink) → (write_byte b >> write_bytes bs) w ≡ write_bytes (b ∷ bs) w
unfolding write_bytes
write_byte-then b bs w = refl
