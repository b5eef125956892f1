-- ===== src/Pgwire/Backend.antt =====
-- pkg/pgwire/writer.go: the messages that the proxy sends.
pub mod Frames
pub mod Rows
pub mod Startup
use agentx_proxy.Prelude.{
  ℕ, zero, suc, ◌+◌, ◌-◌, ◌*◌, ◌/◌, ◌%◌, ◌^◌, Bool, true, false, ◌&&◌, ◌||◌, Option, none, some,
  List, [], ◌∷◌, ◌++◌, Bytes, codes, length, ltb, leb, ◌==◌, if◌then◌else◌, ok, err, Action, ◌>>=◌,
  ◌>>◌,
}
use agentx_proxy.Prelude.Strings.{equal}
use agentx_proxy.Streams.{Sink, write_bytes}
use agentx_proxy.Pgwire.{big_endian16, big_endian32}

-- `interface{}` values as the driver scans them. Signed integers are 64-bit patterns. A float is
-- given by its text in `strconv.FormatFloat` and in `fmt.Sprintf("%v")`, a time by its text in
-- `Sprintf` and in the layout "2006-01-02 15:04:05.000 -0700", any other value by its `Sprintf`.
pub data Value : Type 0 where
  null : Value
  raw : Bytes → Value
  text : Bytes → Value
  signed : ℕ → Value
  unsigned : ℕ → Value
  float : Bytes → Bytes → Value
  boolean : Bool → Value
  time : Bytes → Bytes → Value
  other : Bytes → Value

pub record FieldDescription : Type 0 where
  pub name : Bytes
  pub table_oid : ℕ
  pub table_attr_number : ℕ
  pub type_oid : ℕ
  pub type_size : ℕ
  pub type_modifier : ℕ
  pub format_code : ℕ

-- What the writer takes from `strconv.ParseFloat`, `math.Float32bits`, `math.Float64bits` and
-- `time.Parse`: the bits of a float text, and the microseconds since 2000 of a timestamp text.
pub record Conversions : Type 0 where
  pub float32_bits : Bytes → ℕ
  pub float64_bits : Bytes → ℕ
  pub timestamp_micros : Bytes → Option ℕ

-- `binary.BigEndian.PutUint64`.
unfoldable pub big_endian64 : ℕ → Bytes
unfolding big_endian32
big_endian64 n = big_endian32 (n / 2 ^ 32) ++ big_endian32 n

-- Decimal digits; the first argument is a bound on their number.
unfoldable pub format_digits : ℕ → ℕ → Bytes
format_digits zero n = []
format_digits (suc f) n =
    let rest = format_digits f (n / 10) in
    if ltb n 10 then (b'0' + n) ∷ [] else rest ++ (b'0' + n % 10) ∷ []

-- `strconv.FormatUint` of a uint64, of at most twenty digits.
unfoldable pub format_uint : ℕ → Bytes
unfolding format_digits
format_uint n = format_digits 20 n

-- `strconv.FormatInt` of an int64, given as its bit pattern.
unfoldable pub format_int : ℕ → Bytes
unfolding format_uint
format_int n = if ltb n (2 ^ 63) then format_uint n else b'-' ∷ format_uint (2 ^ 64 - n)

-- The digits of `strconv.ParseUint` with a bound: `none` is a syntax error, and a number that
-- passes the bound ends the scan.
unfoldable pub scan_uint : ℕ → ℕ → Bytes → Option ℕ
scan_uint bound n [] = some n
scan_uint bound n (c ∷ s) =
    let n' = n * 10 + (c - b'0') in
    if leb b'0' c && leb c b'9'
    then (if ltb n' bound then scan_uint bound n' s else some bound)
    else none

unfoldable pub parse_magnitude : ℕ → Bytes → Option ℕ
unfolding scan_uint
parse_magnitude bits [] = none
parse_magnitude bits (c ∷ s) = scan_uint (2 ^ bits) 0 (c ∷ s)

-- The bounds of `strconv.ParseInt`: 0 for what is no number, and the nearest number of `bits` bits
-- for what is out of range, as a bit pattern.
unfoldable pub clamp_positive : ℕ → Option ℕ → ℕ
clamp_positive bits none = 0
clamp_positive bits (some n) = if ltb n (2 ^ (bits - 1)) then n else 2 ^ (bits - 1) - 1

unfoldable pub clamp_negative : ℕ → Option ℕ → ℕ
clamp_negative bits none = 0
clamp_negative bits (some n) =
    if ltb (2 ^ (bits - 1)) n then 2 ^ (bits - 1) else (2 ^ bits - n) % 2 ^ bits

-- `strconv.ParseInt(s, 10, bits)` without its error.
unfoldable pub parse_int : ℕ → Bytes → ℕ
unfolding parse_magnitude clamp_positive clamp_negative
parse_int bits [] = 0
parse_int bits (c ∷ s) =
    if c == b'-'
    then clamp_negative bits (parse_magnitude bits s)
    else if c == b'+'
    then clamp_positive bits (parse_magnitude bits s)
    else clamp_positive bits (parse_magnitude bits (c ∷ s))

-- `textToBinary`, with `textToBinaryTimestamp` at the OID 1114.
unfoldable pub text_to_binary : Conversions → Bytes → ℕ → Bytes
unfolding equal parse_int big_endian16 big_endian32 big_endian64
text_to_binary conv s oid =
    if oid == 16
    then (if equal s (codes "t") || equal s (codes "true") || equal s (codes "1")
        then 1 ∷ []
        else 0 ∷ [])
    else if oid == 21
    then big_endian16 (parse_int 16 s)
    else if oid == 23
    then big_endian32 (parse_int 32 s)
    else if oid == 20
    then big_endian64 (parse_int 64 s)
    else if oid == 700
    then big_endian32 (conv.float32_bits s)
    else if oid == 701
    then big_endian64 (conv.float64_bits s)
    else if oid == 1114
    then elim (conv.timestamp_micros s) [ none ↦ s | some m ↦ big_endian64 m ]
    else s

-- The type switch of `SendDataRow`; `none` is NULL.
unfoldable pub render : Value → Option Bytes
unfolding format_uint format_int
render null = none
render (raw s) = some s
render (text s) = some s
render (signed n) = some (format_int n)
render (unsigned n) = some (format_uint n)
render (float s t) = some s
render (time s t) = some s
render (boolean true) = some (b't' ∷ [])
render (boolean false) = some (b'f' ∷ [])
render (other s) = some s

-- The bytes that are sent for a value, in the format and for the type of its column.
unfoldable pub cell : Conversions → ℕ → ℕ → Value → Option Bytes
unfolding render text_to_binary
cell conv format oid v = elim (render v) [
  | none ↦ none
  | some s ↦ if format == 1 then some (text_to_binary conv s oid) else some s
]

unfoldable pub write_cell : Option Bytes → Bytes
unfolding big_endian32
write_cell none = big_endian32 (2 ^ 32 - 1)
write_cell (some s) = big_endian32 (length s) ++ s

-- `codes[i]`, or 0 past the end, and what is left for the next column.
abbrev pub head_or_zero : List ℕ → ℕ
head_or_zero [] = 0
head_or_zero (c ∷ cs) = c

abbrev pub tail : List ℕ → List ℕ
tail [] = []
tail (c ∷ cs) = cs

unfoldable pub row_cells : Conversions → List Value → List ℕ → List ℕ → List (Option Bytes)
unfolding cell
row_cells conv [] formats oids = []
row_cells conv (v ∷ vs) formats oids =
    cell conv (head_or_zero formats) (head_or_zero oids) v
    ∷ row_cells conv vs (tail formats) (tail oids)

unfoldable pub write_cells : List (Option Bytes) → Bytes
unfolding write_cell
write_cells [] = []
write_cells (c ∷ cs) = write_cell c ++ write_cells cs

unfoldable pub write_message : ℕ → Bytes → Action Sink (Unit {0})
write_message msg_type body =
    write_bytes (msg_type ∷ [])
    >> (write_bytes (big_endian32 ((length body + 4) % 2 ^ 32)) >> write_bytes body)

unfoldable pub authentication_ok : Action Sink (Unit {0})
unfolding write_message
authentication_ok = write_message b'R' (big_endian32 0)

unfoldable pub send_ready_for_query : ℕ → Action Sink (Unit {0})
unfolding write_message
send_ready_for_query status = write_message b'Z' (status ∷ [])

unfoldable pub send_parameter_status : Bytes → Bytes → Action Sink (Unit {0})
unfolding write_message
send_parameter_status name value = write_message b'S' (name ++ 0 ∷ (value ++ 0 ∷ []))

unfoldable pub send_backend_key_data : ℕ → ℕ → Action Sink (Unit {0})
unfolding write_message
send_backend_key_data pid secret = write_message b'K' (big_endian32 pid ++ big_endian32 secret)

unfoldable pub field_bytes : FieldDescription → Bytes
unfolding big_endian16 big_endian32
field_bytes f =
    f.name
    ++ 0
      ∷ (big_endian32 f.table_oid
          ++ (big_endian16 f.table_attr_number
              ++ (big_endian32 f.type_oid
                  ++ (big_endian16 f.type_size
                      ++ (big_endian32 f.type_modifier ++ big_endian16 f.format_code)))))

unfoldable pub fields_bytes : List FieldDescription → Bytes
unfolding field_bytes
fields_bytes [] = []
fields_bytes (f ∷ fs) = field_bytes f ++ fields_bytes fs

unfoldable pub send_row_description : List FieldDescription → Action Sink (Unit {0})
unfolding write_message fields_bytes
send_row_description fs = write_message b'T' (big_endian16 (length fs % 2 ^ 16) ++ fields_bytes fs)

unfoldable pub data_row_body : Conversions → List Value → List ℕ → List ℕ → Bytes
data_row_body conv vs formats oids =
    big_endian16 (length vs % 2 ^ 16) ++ write_cells (row_cells conv vs formats oids)

unfoldable pub send_data_row : Conversions → List Value → List ℕ → List ℕ → Action Sink (Unit {0})
unfolding write_message data_row_body
send_data_row conv vs formats oids = write_message b'D' (data_row_body conv vs formats oids)

unfoldable pub send_command_complete : Bytes → Action Sink (Unit {0})
unfolding write_message
send_command_complete tag = write_message b'C' (tag ++ 0 ∷ [])

unfoldable pub send_parse_complete : Action Sink (Unit {0})
unfolding write_message
send_parse_complete = write_message b'1' []

unfoldable pub send_bind_complete : Action Sink (Unit {0})
unfolding write_message
send_bind_complete = write_message b'2' []

unfoldable pub send_close_complete : Action Sink (Unit {0})
unfolding write_message
send_close_complete = write_message b'3' []

unfoldable pub send_no_data : Action Sink (Unit {0})
unfolding write_message
send_no_data = write_message b'n' []

unfoldable pub send_empty_query_response : Action Sink (Unit {0})
unfolding write_message
send_empty_query_response = write_message b'I' []

-- The fields of a Go map, in the order in which it is walked.
unfoldable pub error_fields : List (ℕ × Bytes) → Bytes
error_fields [] = 0 ∷ []
error_fields ((code, value) ∷ fs) = code ∷ (value ++ 0 ∷ error_fields fs)

unfoldable pub send_error_response : List (ℕ × Bytes) → Action Sink (Unit {0})
unfolding write_message error_fields
send_error_response fs = write_message b'E' (error_fields fs)

unfoldable pub send_notice_response : List (ℕ × Bytes) → Action Sink (Unit {0})
unfolding write_message error_fields
send_notice_response fs = write_message b'N' (error_fields fs)

unfoldable pub oids_bytes : List ℕ → Bytes
unfolding big_endian32
oids_bytes [] = []
oids_bytes (n ∷ ns) = big_endian32 n ++ oids_bytes ns

unfoldable pub send_parameter_description : List ℕ → Action Sink (Unit {0})
unfolding write_message oids_bytes
send_parameter_description oids =
    write_message b't' (big_endian16 (length oids % 2 ^ 16) ++ oids_bytes oids)
