-- ===== src/Pgwire.antt =====
-- pkg/pgwire/wire.go: the frontend messages of the PostgreSQL protocol. A 16-bit or 32-bit field
-- is kept as its bit pattern. Slicing out of range is a panic, as in Go.
pub mod Frontend
pub mod Bodies
mod Tests
pub mod Backend
use agentx_proxy.Prelude.{
  ℕ, zero, suc, ◌+◌, ◌-◌, ◌*◌, ◌/◌, ◌%◌, ◌^◌, Option, none, some, List, [], ◌∷◌, ◌++◌, Bytes,
  length, take, drop, ltb, ◌==◌, if◌then◌else◌, ok, err, panicked, Outcome, Action, ◌>>=◌, ◌>>◌,
  return,
}
use agentx_proxy.Prelude.Strings.{index_byte, split}
use agentx_proxy.Streams.{read_full}

pub record Parse : Type 0 where
  pub name : Bytes
  pub query : Bytes
  pub parameter_oids : List ℕ

pub record Bind : Type 0 where
  pub portal : Bytes
  pub prepared_statement : Bytes
  pub parameter_format_codes : List ℕ
  pub parameters : List (Option Bytes)
  pub result_format_codes : List ℕ

pub record Execute : Type 0 where
  pub portal : Bytes
  pub max_rows : ℕ

-- A Describe or a Close message; the type is the byte S or P.
pub record Target : Type 0 where
  pub kind : ℕ
  pub name : Bytes

-- `make([]byte, length-4)` with the wrap of uint32.
abbrev pub body_size : ℕ → ℕ
body_size length = (length + 2 ^ 32 - 4) % 2 ^ 32

-- `binary.BigEndian.Uint16` and `Uint32`, with the step over the bytes.
unfoldable pub take_uint16 : Action Bytes ℕ
take_uint16 [] = (panicked, [])
take_uint16 (a ∷ []) = (panicked, [])
take_uint16 (a ∷ b ∷ s) = (ok (a * 256 + b), s)

unfoldable pub take_uint32 : Action Bytes ℕ
take_uint32 [] = (panicked, [])
take_uint32 (a ∷ []) = (panicked, [])
take_uint32 (a ∷ b ∷ []) = (panicked, [])
take_uint32 (a ∷ b ∷ c ∷ []) = (panicked, [])
take_uint32 (a ∷ b ∷ c ∷ d ∷ s) = (ok (((a * 256 + b) * 256 + c) * 256 + d), s)

unfoldable pub read_uint32 : Action Bytes ℕ
read_uint32 = do buf ← read_full 4; λ s. ((take_uint32 buf).0, s)

-- `ReadMessage`: the type byte and the body.
unfoldable pub read_message : Action Bytes (ℕ × Bytes)
read_message = do
  msg_type ← read_full 1
  length ← read_uint32
  buf ← read_full (body_size length)
  elim msg_type [ [] ↦ (λ s. (panicked, s)) | t ∷ _ ↦ return (t, buf) ]

-- `idx := bytes.IndexByte(body, 0)`, then `body[:idx]` and `body[idx+1:]`.
unfoldable pub cut_string : Action Bytes Bytes
cut_string body = elim (index_byte body 0) [
  | none ↦ (panicked, body)
  | some i ↦ (ok (take i body), drop (suc i) body)
]

-- A loop of `n` rounds that appends what each round takes.
unfoldable pub repeat : {A : Type 0} → ℕ → Action Bytes A → Action Bytes (List A)
repeat zero m = return []
repeat (suc n) m = do x ← m; xs ← repeat n m; return (x ∷ xs)

unfoldable pub parse_query : Bytes → Outcome Bytes
parse_query body = (cut_string body).0

unfoldable pub parse_parse_body : Action Bytes Parse
parse_parse_body = do
  name ← cut_string
  query ← cut_string
  num_oids ← take_uint16
  oids ← repeat num_oids take_uint32
  return (record { name = name; query = query; parameter_oids = oids })

unfoldable pub parse_parse : Bytes → Outcome Parse
parse_parse body = (parse_parse_body body).0

-- `param := make([]byte, paramLen); copy(param, body[:paramLen])`: a length whose sign bit is set
-- or that the body does not hold is a panic.
unfoldable pub take_param : Action Bytes (Option Bytes)
take_param = do
  len ← take_uint32
  λ s.
      if len == 2 ^ 32 - 1
      then (ok none, s)
      else if ltb len (2 ^ 31)
      then (if ltb (length s) len then (panicked, s) else (ok (some (take len s)), drop len s))
      else (panicked, s)

unfoldable pub parse_bind_body : Action Bytes Bind
parse_bind_body = do
  portal ← cut_string
  statement ← cut_string
  num_fmt ← take_uint16
  formats ← repeat num_fmt take_uint16
  num_params ← take_uint16
  params ← repeat num_params take_param
  num_result_fmt ← take_uint16
  result_formats ← repeat num_result_fmt take_uint16
  return (record {
    portal = portal;
    prepared_statement = statement;
    parameter_format_codes = formats;
    parameters = params;
    result_format_codes = result_formats;
  })

unfoldable pub parse_bind : Bytes → Outcome Bind
parse_bind body = (parse_bind_body body).0

unfoldable pub parse_execute_body : Action Bytes Execute
parse_execute_body = do
  portal ← cut_string
  max_rows ← take_uint32
  return (record { portal = portal; max_rows = max_rows })

unfoldable pub parse_execute : Bytes → Outcome Execute
parse_execute body = (parse_execute_body body).0

-- `ParseDescribe` and `ParseClose`: `body[0]` and `body[1 : len(body)-1]`.
unfoldable pub parse_target : Bytes → Outcome Target
parse_target [] = panicked
parse_target (t ∷ []) = panicked
parse_target (t ∷ b ∷ s) = ok (record { kind = t; name = take (length s) (b ∷ s) })

-- The pairs of NUL-separated names and values of a startup message, in order.
unfoldable pub pairs : List Bytes → List (Bytes × Bytes)
pairs [] = []
pairs (k ∷ []) = []
pairs (k ∷ v ∷ ps) = (k, v) ∷ pairs ps

-- `if len(d) > 1 { parts := bytes.Split(d[:len(d)-1], []byte{0}) … }`
unfoldable pub startup_pairs : Bytes → List (Bytes × Bytes)
startup_pairs [] = []
startup_pairs (b ∷ []) = []
startup_pairs (a ∷ b ∷ s) = pairs (split (take (suc (length s)) (a ∷ b ∷ s)) 0)

-- `paramData := buf[4:]`, a panic where the protocol version is not there.
unfoldable pub startup_of : Bytes → Outcome (List (Bytes × Bytes))
startup_of (a ∷ b ∷ c ∷ d ∷ param_data) = ok (startup_pairs param_data)
startup_of _ = panicked

-- `ReadStartupMessage`: the protocol version is skipped.
unfoldable pub read_startup_message : Action Bytes (List (Bytes × Bytes))
read_startup_message = do
  length ← read_uint32
  buf ← read_full (body_size length)
  λ s. (startup_of buf, s)

-- `binary.BigEndian.PutUint16` and `PutUint32`.
unfoldable pub big_endian16 : ℕ → Bytes
big_endian16 n = (n / 256 % 256) ∷ (n % 256) ∷ []

unfoldable pub big_endian32 : ℕ → Bytes
big_endian32 n = (n / 2 ^ 24 % 256) ∷ (n / 2 ^ 16 % 256) ∷ (n / 256 % 256) ∷ (n % 256) ∷ []
