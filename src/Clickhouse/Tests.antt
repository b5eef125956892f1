-- ===== src/Clickhouse/Tests.antt =====
-- A server on a database that records its statements, runs of it, and the theorems on it.
use agentx_proxy.Prelude.{
  arith, true, ◌≡◌, ◌≢◌, refl, some, none, List, [], ◌∷◌, ◌++◌, map, Bytes, codes, length, ok,
  Option, Outcome, stuck,
}
use agentx_proxy.Prelude.Strings.{
  equal, has_prefix, contains, index, index_from, join, split, split_from,
}
use agentx_proxy.Chproto.Encode.{groups}
use agentx_proxy.Pgwire.Backend.{null, raw, text}
use agentx_proxy.Session.{Rows}
use agentx_proxy.Buffer.{Pool, new_write_buffer}
use agentx_proxy.Clickhouse.{ChServices, mysql_to_ch_type, first_type, type_table, sprint_value}
use agentx_proxy.Prelude.Maps.{insert}
use agentx_proxy.Clickhouse.SystemHandler.{
  query_system_tables, query_system_columns, query_system_parts, query_system_processes,
  query_system_metrics, parts_columns, rows_of, parts_row, format_json,
}
use agentx_proxy.Clickhouse.SystemShapes.{IsTable, GivesTable, query_system-IsTable}
use agentx_proxy.Clickhouse.Http
use agentx_proxy.Clickhouse.Http.{
  tsv_table, tsv_line, tsv_rows, tsv_cell, system_table_line, system_tables_columns,
}
use agentx_proxy.Clickhouse.Http.Lines.{read_table, whole_lines, Clean, read_table-tsv_table}
use agentx_proxy.Clickhouse.Agreement.{run_translated_agree}
use agentx_proxy.Clickhouse.Native.{send_all, send_native_data, cell_text, read_query}
use agentx_proxy.Clickhouse.Native.Serve
use agentx_proxy.Clickhouse.Native.Serve.{ChConn, handle_conn}
use agentx_proxy.Clickhouse.Native.Transposed.{transposed, first_value}
use agentx_proxy.Clickhouse.Native.Blocks.{read_data, RowsFit, read_data-send_native_data}
use agentx_proxy.Clickhouse.Native.Queries.{
  ClientInfo, QueryPacket, packet_bytes, ClientFits, PacketFits, read_query-packet_bytes,
}
use agentx_proxy.Clickhouse.Native.Endings.{handle_conn-ne-stuck}

abbrev recording_pool : Pool
recording_pool = record {
  Db = List Bytes;
  Tx = List Bytes;
  begin = λ d. (some d, d);
  exec = λ q d. (true, q ∷ d);
  exec_context = λ tx q d. (true, q ∷ d);
  rollback = λ tx d. tx;
  commit = λ tx d. (true, d);
}

-- Two columns, of a text and of a name that may be missing.
abbrev written : Option (List Bytes) → Outcome Bytes
written none = ok (codes "null")
written (some xs) = ok (join xs (codes ";"))

abbrev people : Rows
people = record {
  columns = (codes "id", codes "VARCHAR") ∷ (codes "name", codes "VARCHAR") ∷ [];
  rows = (text (codes "1") ∷ text (codes "ann") ∷ []) ∷ (text (codes "2") ∷ null ∷ []) ∷ [];
  failure = none;
}

abbrev recording : ChServices
recording = record {
  pool = recording_pool;
  exec = λ q d. (ok 1, q ∷ d);
  query = λ q d. (ok people, q ∷ d);
  table_exists = λ t d. (ok true, d);
}

abbrev connection : Bytes → ChConn (List Bytes)
connection input = record {
  input = input;
  out = record { written = []; room = 100 };
  server = (new_write_buffer 2, []);
}

-- The row that the HTTP server makes of a table has three cells more than there are names.
cells_of_table :
    map (λ l. length l) (read_table (system_table_line (codes "t" ∷ codes "MergeTree" ∷ [])))
    ≡ 20 ∷ []
unfolding read_table system_table_line split split_from whole_lines
cells_of_table = refl

names_of_tables : length system_tables_columns ≡ 17
unfolding system_tables_columns
names_of_tables = refl

-- Bytes of MySQL are printed as numbers in the native protocol.
printed_numbers : cell_text 0 (raw (codes "ab") ∷ []) ≡ codes "[97 98]"
unfolding cell_text sprint_value join
printed_numbers = refl

run_translated_agree_example :
    (Http.run_translated recording (codes "DELETE FROM t") (connection []).server).1
    ≡ (Serve.run_translated recording 100 (codes "DELETE FROM t") (connection [])).1.server
run_translated_agree_example =
    run_translated_agree recording 100 (codes "DELETE FROM t") (connection [])

handle_conn-ne-stuck_example : (handle_conn recording 100 3 (connection (4 ∷ 3 ∷ []))).0 ≢ stuck
handle_conn-ne-stuck_example =
    handle_conn-ne-stuck recording 100 3 (connection (4 ∷ 3 ∷ [])) (omega arith)

people-Clean : Clean people
unfolding tsv_cell
people-Clean = record { names = ground arith; cells = ground arith }

read_table-tsv_table_example :
    read_table (tsv_table people)
    ≡ (codes "id" ∷ codes "name" ∷ [])
      ∷ (codes "1" ∷ codes "ann" ∷ [])
      ∷ (codes "2" ∷ codes "\\N" ∷ [])
      ∷ []
unfolding tsv_cell
read_table-tsv_table_example = read_table-tsv_table people people-Clean

people-RowsFit : RowsFit 100 people
unfolding mysql_to_ch_type first_type type_table contains index index_from has_prefix cell_text
    transposed first_value sprint_value
people-RowsFit = record {
  names = search arith;
  types = search arith;
  cells = search arith;
  width = omega arith;
  height = omega arith;
}

read_data-send_native_data_example :
    read_data 100
      ((send_all (send_native_data people) (record { written = []; room = 100 })).written ++ 7 ∷ [])
    ≡ (
      ok (record {
        names = codes "id" ∷ codes "name" ∷ [];
        types = codes "String" ∷ codes "String" ∷ [];
        columns = (codes "1" ∷ codes "2" ∷ []) ∷ (codes "ann" ∷ [] ∷ []) ∷ [];
      }),
      7 ∷ [],
    )
unfolding groups mysql_to_ch_type first_type type_table contains index index_from has_prefix
    cell_text transposed first_value sprint_value
read_data-send_native_data_example =
    read_data-send_native_data 100 people 100 (7 ∷ []) people-RowsFit (omega arith)

abbrev plain_client : ClientInfo
plain_client = record {
  interface_version = 1;
  client_name = codes "cli";
  major = 24;
  minor = 8;
  patch = 5;
  revision = 54460;
  timezone = codes "UTC";
  quota_key = 0;
  depth = 0;
}

abbrev select_packet : QueryPacket
select_packet = record {
  query_id = [];
  stage = 2;
  compression = 1;
  client = plain_client;
  query = codes "SELECT 1";
  kind = 1;
  secondary = codes "SELECT 2";
}

plain_client-ClientFits : ClientFits 100 plain_client
plain_client-ClientFits = record {
  interface_version = omega arith;
  client_name = search arith;
  major = omega arith;
  minor = omega arith;
  patch = omega arith;
  revision = omega arith;
  timezone = search arith;
  quota_key = omega arith;
  depth = omega arith;
}

select_packet-PacketFits : PacketFits 100 select_packet
select_packet-PacketFits = record {
  query_id = search arith;
  stage = omega arith;
  compression = omega arith;
  client = plain_client-ClientFits;
  query = search arith;
  kind = omega arith;
  secondary = search arith;
}

read_query-packet_bytes_example :
    read_query 100 (packet_bytes select_packet (1 ∷ [])) ≡ (ok (codes "SELECT 2"), 1 ∷ [])
unfolding equal
read_query-packet_bytes_example =
    read_query-packet_bytes 100 select_packet (1 ∷ []) select_packet-PacketFits

query_system-IsTable_example :
    GivesTable (query_system_tables recording []).0
    × GivesTable (query_system_columns recording (λ v. some 1) []).0
    × GivesTable (query_system_parts recording []).0
    × IsTable query_system_processes
    × IsTable query_system_metrics
query_system-IsTable_example = query_system-IsTable recording (λ v. some 1) []

-- The parts of the two rows, and a table of two values without the second name.
listed_parts :
    (query_system_parts recording []).0 ≡ ok (parts_columns, rows_of parts_row people.rows)
unfolding query_system_parts
listed_parts = refl

-- The second name of the same column takes the place of the first value, and no rows are null.
formatted :
    format_json
      (λ o. ok (join (map (λ entry. entry.0) o) (codes ",")))
      written
      (codes "a" ∷ codes "b" ∷ codes "a" ∷ [])
      ((text [] ∷ text [] ∷ text [] ∷ []) ∷ (text [] ∷ []) ∷ [])
    ≡ ok (codes "a,b;a")
unfolding format_json insert equal join
formatted = refl
