-- ===== src/Pgwire/Backend/Rows.antt =====
-- What a client reads from a DataRow message.
use agentx_proxy.Prelude.{
  ℕ, zero, suc, if◌then◌else◌, ◌==◌, codes, get_elem?, Option, none, some, List, [], ◌∷◌, Bytes,
  Action, ◌>>=◌,
}
use agentx_proxy.Pgwire.{take_uint16, take_param, repeat}
use agentx_proxy.Pgwire.Backend.{
  null, raw, text, signed, unsigned, boolean, format_int, format_uint, text_to_binary, Conversions,
  Value, tail,
}

-- A client's reading of the body: a count, and a length with that many bytes for each column.
unfoldable pub read_row : Action Bytes (List (Option Bytes))
read_row = do n ← take_uint16; repeat n take_param

-- The text that a value is sent as; NULL has none.
unfoldable pub value_text : Value → Option Bytes
value_text null = none
value_text (raw s) = some s
value_text (text s) = some s
value_text (signed n) = some (format_int n)
value_text (unsigned n) = some (format_uint n)
value_text (Value.float plain general) = some plain
value_text (boolean b) = some (if b then codes "t" else codes "f")
value_text (Value.time plain layout) = some plain
value_text (Value.other s) = some s

-- What a column of a type receives: a text as it is where its format is not 1, and else in binary.
unfoldable pub received : Conversions → ℕ → ℕ → Option Bytes → Option Bytes
unfolding text_to_binary
received conv format oid none = none
received conv format oid (some s) = some (if format == 1 then text_to_binary conv s oid else s)

-- The number at a place of a list, and 0 behind its end.
unfoldable pub number_at : List ℕ → ℕ → ℕ
number_at ns i = elim (get_elem? ns i) [ none ↦ 0 | some n ↦ n ]

-- The cells of a row from the column `i` on.
unfoldable pub received_from : Conversions → List ℕ → List ℕ → ℕ → List Value → List (Option Bytes)
unfolding value_text received number_at
received_from conv formats oids i [] = []
received_from conv formats oids i (v ∷ vs) =
    received conv (number_at formats i) (number_at oids i) (value_text v)
    ∷ received_from conv formats oids (suc i) vs

-- What is left of the numbers from a place on.
from : ℕ → List ℕ → List ℕ
from zero ns = ns
from (suc i) ns = from i (tail ns)
