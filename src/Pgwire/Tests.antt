-- ===== src/Pgwire/Tests.antt =====
-- Concrete messages, and the theorems on the PostgreSQL protocol at concrete inputs.
use agentx_proxy.Prelude.{
  ◌-◌, ◌^◌, ◌≡◌, refl, none, some, [], ◌∷◌, ◌++◌, arith, codes, ok, panicked,
}
use agentx_proxy.Prelude.Strings.{index_byte}
use agentx_proxy.Pgwire.{
  Parse, Bind, read_message, parse_query, cut_string, parse_parse, parse_bind,
}
use agentx_proxy.Pgwire.Bodies.{
  parse_layout, bind_layout, parse_parse-parse_layout, parse_bind-bind_layout,
}
use agentx_proxy.Pgwire.Backend.{Conversions, write_message, parse_int, format_int}
use agentx_proxy.Pgwire.Backend.Frames.{read_message-write_message}

-- A query without its terminator stops the process.
query_without_nul : parse_query (codes "SELECT 1") ≡ panicked
unfolding parse_query cut_string index_byte
query_without_nul = refl

clamped : parse_int 16 (codes "-40000") ≡ 2 ^ 15
unfolding parse_int
clamped = refl

minus_seven : format_int (2 ^ 64 - 7) ≡ codes "-7"
unfolding format_int
minus_seven = refl

abbrev sample_parse : Parse
sample_parse = record { name = codes "s1"; query = codes "SELECT $1"; parameter_oids = 23 ∷ [] }

abbrev sample_bind : Bind
sample_bind = record {
  portal = [];
  prepared_statement = codes "s1";
  parameter_format_codes = 0 ∷ [];
  parameters = none ∷ some [] ∷ some (codes "x") ∷ [];
  result_format_codes = [];
}

abbrev no_conversions : Conversions
no_conversions = record {
  float32_bits = λ s. 0;
  float64_bits = λ s. 0;
  timestamp_micros = λ s. none;
}

parse_parse-parse_layout_example : parse_parse (parse_layout sample_parse) ≡ ok sample_parse
parse_parse-parse_layout_example = parse_parse-parse_layout sample_parse (omega arith)

parse_bind-bind_layout_example : parse_bind (bind_layout sample_bind) ≡ ok sample_bind
parse_bind-bind_layout_example = parse_bind-bind_layout sample_bind (omega arith)

read_message-write_message_example :
    ((write_message b'Z' (b'I' ∷ []) (record { written = []; room = 9 })).0 ≡ ok tt)
    × (read_message
          ((write_message b'Z' (b'I' ∷ []) (record { written = []; room = 9 })).1.written ++ 1 ∷ [])
        ≡ (ok (b'Z', b'I' ∷ []), 1 ∷ []))
read_message-write_message_example =
    read_message-write_message b'Z' 9 (b'I' ∷ []) (1 ∷ []) (omega arith) (omega arith)
