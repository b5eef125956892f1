-- ===== src/Clickhouse/Native/Packets.antt =====
-- The bytes of the packets: what a sequence of writes leaves in the writer.
use agentx_proxy.Prelude.{
  ℕ, zero, suc, ◌^◌, ◌<◌, ◌≡◌, refl, ap, ◌∙◌, List, [], ◌∷◌, ◌++◌, map, Bytes, length, All, Action,
}
use agentx_proxy.Streams.{Sink, write_byte, write_bytes}
use agentx_proxy.Streams.Writes.{write_byte-bytes}
use agentx_proxy.Chproto.{write_varint, write_string}
use agentx_proxy.Chproto.Encode.{encoding, write_varint-bytes, write_string-bytes}
use agentx_proxy.Pgwire.Frontend.{encode_all}
use agentx_proxy.Clickhouse.Native.{send_all}

-- A string with its length before it.
abbrev pub string_bytes : Bytes → Bytes
string_bytes s = encoding (length s) ++ s

-- A string whose length is a uint64.
abbrev pub Short : Bytes → Type 0
Short s = length s < 2 ^ 64

-- Where there is no room nothing is written.
write_bytes_full :
    (bs ws : Bytes)
    → (write_bytes bs (record { written = ws; room = 0 })).1 ≡ record { written = ws; room = 0 }
unfolding write_bytes write_byte
write_bytes_full [] ws = refl
write_bytes_full (b ∷ bs) ws = refl

append_state :
    (xs ys ws : Bytes) (r : ℕ)
    → (write_bytes ys (write_bytes xs (record { written = ws; room = r })).1).1
      ≡ (write_bytes (xs ++ ys) (record { written = ws; room = r })).1
unfolding write_bytes write_byte
append_state [] ys ws r = refl
append_state (x ∷ xs) ys ws zero = write_bytes_full ys ws
append_state (x ∷ xs) ys ws (suc r) = append_state xs ys (ws ++ x ∷ []) r

-- The writes put just these bytes in the writer, or as many as there is room for.
pub record Emits (ms : List (Action Sink (Unit {0}))) (bs : Bytes) : Type 0 where
  pub state : (w : Sink) → send_all ms w ≡ (write_bytes bs w).1

pub Emits-nil : Emits [] []
unfolding send_all write_bytes
Emits-nil = record { state = λ w. refl }

send_all-append :
    (ms ns : List (Action Sink (Unit {0}))) (w : Sink)
    → send_all (ms ++ ns) w ≡ send_all ns (send_all ms w)
unfolding send_all
send_all-append [] ns w = refl
send_all-append (m ∷ ms) ns w = send_all-append ms ns (m w).1

pub Emits-append :
    {ms ns : List (Action Sink (Unit {0}))} {bs cs : Bytes}
    → Emits ms bs
    → Emits ns cs
    → Emits (ms ++ ns) (bs ++ cs)
Emits-append {ms} {ns} {bs} {cs} hm hn = record {
  state = λ w.
      send_all-append ms ns w
      ∙ ap (send_all ns) (hm.state w)
      ∙ hn.state (write_bytes bs w).1
      ∙ append_state bs cs w.written w.room;
}

pub Emits-one :
    {m : Action Sink (Unit {0})} {bs : Bytes}
    → ((w : Sink) → m w ≡ write_bytes bs w)
    → Emits (m ∷ []) bs
unfolding send_all
Emits-one h = record { state = λ w. ap (λ p. p.1) (h w) }

pub Emits-byte : (b : ℕ) → Emits (write_byte b ∷ []) (b ∷ [])
Emits-byte b = Emits-one (write_byte-bytes b)

pub Emits-varint : (v : ℕ) → v < 2 ^ 64 → Emits (write_varint v ∷ []) (encoding v)
Emits-varint v h = Emits-one (λ w. write_varint-bytes v w h)

pub Emits-string : (s : Bytes) → Short s → Emits (write_string s ∷ []) (string_bytes s)
Emits-string s h = Emits-one (λ w. write_string-bytes s w h)

-- One write for each element.
pub Emits-map {κ} :
    {A : Type 0} (m : A → Action Sink (Unit {0})) (enc : A → Bytes) (P : A → Type κ)
    → ((a : A) → P a → Emits (m a ∷ []) (enc a))
    → (xs : List A) → All P xs
    → Emits (map m xs) (encode_all enc xs)
Emits-map m enc P step [] h = Emits-nil
Emits-map m enc P step (x ∷ xs) (hx, hxs) = Emits-append (step x hx) (Emits-map m enc P step xs hxs)
