-- ===== src/Clickhouse/Native.antt =====
-- internal/proxy/clickhouse/http_server.go: the server of the native protocol. The errors of reads
-- and writes are dropped almost everywhere, so that a failed read gives the zero value.
pub mod System
pub mod Serve
pub mod Packets
pub mod Transposed
pub mod Blocks
pub mod Queries
pub mod Reads
pub mod Endings
use agentx_proxy.Prelude.{
  ℕ, zero, suc, Bool, true, false, ◌||◌, Option, none, some, List, [], ◌∷◌, ◌++◌, map, Bytes, codes,
  length, ltb, ◌==◌, get_elem?, if◌then◌else◌, Error, ok, err, panicked, Outcome, Action, ◌>>=◌,
  ◌>>◌, return, handling, ignoring, and_then, Ending, closed, crashed, stuck,
}
use agentx_proxy.Prelude.Strings.{to_upper, trim_space, has_prefix, contains, equal, split}
use agentx_proxy.Streams.{Sink, write_byte, read_byte}
use agentx_proxy.Chproto.{
  read_varint, read_string, write_varint, write_string, read_fixed_uint32, write_fixed_uint32,
}
use agentx_proxy.Pgwire.Backend.{Value, null, text, unsigned}
use agentx_proxy.Session.{Rows, error_text}
use agentx_proxy.Buffer.{WriteBuffer, enqueue}
use agentx_proxy.Clickhouse.{
  ChServices, is_write_query, mysql_to_ch_type, sprint_value, scan_texts, first_text,
  get_table_list, exists_table, table_list_query,
}

-- `nativeResponse`: the columns with their types, and the rows.
pub record NativeResponse : Type 0 where
  pub columns : List (Bytes × Bytes)
  pub rows : List (List Value)

-- A sequence of writes to the buffered writer whose errors are dropped; after a failed one there is
-- no room for the others.
unfoldable pub send_all : List (Action Sink (Unit {0})) → Sink → Sink
send_all [] w = w
send_all (m ∷ ms) w = send_all ms (m w).1

abbrev pub send_progress : ℕ → ℕ → ℕ → List (Action Sink (Unit {0}))
send_progress rows blocks bytes =
    write_byte 3 ∷ write_varint rows ∷ write_varint blocks ∷ write_varint bytes ∷ []

-- `sendEmptyBlock`
unfoldable pub send_empty_block : List (Action Sink (Unit {0}))
send_empty_block = write_byte 1 ∷ write_varint 0 ∷ write_varint 0 ∷ []

-- `sendNativeProgress`
unfoldable pub send_native_progress : List (Action Sink (Unit {0}))
send_native_progress = send_progress 0 0 0 ++ write_byte 5 ∷ []

-- `sendNativeComplete`
unfoldable pub send_native_complete : ℕ → List (Action Sink (Unit {0}))
send_native_complete affected = send_progress affected 1 0 ++ write_byte 5 ∷ []

-- `sendNativeError`
unfoldable pub send_native_error : Bytes → List (Action Sink (Unit {0}))
send_native_error message =
    write_byte 2
    ∷ write_fixed_uint32 0
    ∷ write_string message
    ∷ write_string []
    ∷ write_string []
    ∷ write_byte 0
    ∷ write_byte 5
    ∷ []

-- The head of a data block: the counts, the names, the types and the serialization of the columns.
unfoldable pub block_head : List (Bytes × Bytes) → ℕ → List (Action Sink (Unit {0}))
block_head columns rows =
    (write_byte 1 ∷ write_varint (length columns) ∷ write_varint rows ∷ [])
    ++ (map (λ c. write_string c.0) columns
        ++ (map (λ c. write_string c.1) columns ++ map (λ c. write_varint 0) columns))

unfoldable pub write_row : List Value → List (Action Sink (Unit {0}))
unfolding sprint_value
write_row = map (λ v. write_string (sprint_value v))

unfoldable pub write_rows : List (List Value) → List (Action Sink (Unit {0}))
unfolding write_row
write_rows [] = []
write_rows (row ∷ rows) = write_row row ++ write_rows rows

-- `sendNativeResponse`: the values row by row.
unfoldable pub send_native_response : NativeResponse → List (Action Sink (Unit {0}))
unfolding block_head write_rows
send_native_response r =
    send_progress 0 0 0
    ++ (block_head r.columns (length r.rows) ++ (write_rows r.rows ++ write_byte 5 ∷ []))

-- `row[col]` as text, with the empty text for NULL; a row of a result has a value for each column.
unfoldable pub cell_text : ℕ → List Value → Bytes
unfolding sprint_value
cell_text col row = elim (get_elem? row col) [
  | none ↦ []
  | some null ↦ []
  | some v ↦ sprint_value v
]

-- The values of `n` columns from `col` on, column by column.
unfoldable pub write_columns : ℕ → ℕ → List (List Value) → List (Action Sink (Unit {0}))
unfolding cell_text
write_columns zero col rows = []
write_columns (suc n) col rows =
    map (λ row. write_string (cell_text col row)) rows ++ write_columns n (suc col) rows

-- `sendNativeData`. `rows.Err` is not looked at.
unfoldable pub send_native_data : Rows → List (Action Sink (Unit {0}))
unfolding block_head write_columns mysql_to_ch_type
send_native_data r =
    send_progress 0 0 0
    ++ (block_head (map (λ c. (c.0, mysql_to_ch_type c.1)) r.columns) (length r.rows)
        ++ (write_columns (length r.columns) 0 r.rows ++ write_byte 5 ∷ []))

-- What the server says of itself in a handshake.
unfoldable pub hello : List (Action Sink (Unit {0}))
hello =
    write_fixed_uint32 54460
    ∷ write_string (codes "AgentX Proxy")
    ∷ write_fixed_uint32 54461
    ∷ write_string (codes "UTC")
    ∷ []

-- The same in the first handshake, which a failing write ends.
unfoldable pub greeting : Action Sink (Unit {0})
greeting =
    write_fixed_uint32 54460
    >> write_string (codes "AgentX Proxy")
    >> write_fixed_uint32 54461
    >> write_string (codes "UTC")

module _ (max_alloc : ℕ) where
  abbrev pub some_string : Action Bytes Bytes
  some_string = ignoring [] (read_string max_alloc)

  abbrev pub some_varint : Action Bytes ℕ
  some_varint = ignoring 0 read_varint

  -- The last four fields of a client's hello and the two before them, which are not used.
  unfoldable pub read_hello_rest : Action Bytes (Unit {0})
  read_hello_rest = do
    _ ← ignoring 0 read_fixed_uint32
    _ ← ignoring 0 read_fixed_uint32
    _ ← some_string
    _ ← some_string
    _ ← some_string
    return tt

  -- The secondary query takes the place of the query, unless it is empty.
  unfoldable pub read_secondary : ℕ → Bytes → Action Bytes Bytes
  unfolding equal
  read_secondary kind query =
      if kind == 1
      then (do second ← some_string; return (if equal second [] then query else second))
      else return query

  -- Four bytes that are taken for the size of a compressed block.
  unfoldable pub skip_size : ℕ → Action Bytes (Unit {0})
  skip_size compression =
      if compression == 1
      then (do
        _ ← ignoring 0 read_byte
        _ ← ignoring 0 read_byte
        _ ← ignoring 0 read_byte
        _ ← ignoring 0 read_byte
        return tt)
      else return tt

  unfoldable pub read_client_info : Action Bytes (Unit {0})
  read_client_info = do
    _ ← some_varint
    _ ← some_string
    _ ← some_varint
    _ ← some_varint
    _ ← some_varint
    _ ← some_varint
    _ ← some_string
    _ ← some_varint
    _ ← some_varint
    return tt

  -- The fields of a query packet, up to the text of the query.
  unfoldable pub read_query : Action Bytes Bytes
  unfolding read_client_info read_secondary skip_size
  read_query = do
    query_id ← some_string
    stage ← some_varint
    compression ← some_varint
    _ ← read_client_info
    query ← some_string
    kind ← some_varint
    chosen ← read_secondary kind query
    _ ← skip_size compression
    return chosen

  -- `skipBlock`
  unfoldable pub skip_block : Action Bytes (Unit {0})
  skip_block = do _ ← some_varint; _ ← some_varint; return tt
