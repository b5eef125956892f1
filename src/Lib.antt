-- ===== src/Lib.antt =====
-- agentx-proxy: a proxy that speaks the wire protocols of PostgreSQL and ClickHouse and runs the
-- queries on MySQL.
--
-- The parts. A PostgreSQL client's bytes are framed and parsed by pkg/pgwire/wire.go, handled
-- by internal/proxy/postgresql/server.go, which runs statements on the MySQL pool, and
-- answered with the messages of pkg/pgwire/writer.go. internal/proxy/postgresql/array.go takes
-- array literals apart. pkg/chproto/varint.go has the encodings of the ClickHouse native
-- protocol, and internal/proxy/clickhouse/buffer.go collects INSERT statements and runs them
-- in batches. http_server.go beside it has the two ClickHouse servers, over HTTP and over the
-- native protocol. Either side rewrites a query before MySQL runs it, in the translator.go of
-- its directory; internal/proxy/postgresql/catalog.go answers queries on the catalog of
-- PostgreSQL from that of MySQL. internal/mysql creates the tables, internal/config and
-- internal/translation read the settings, and cmd/agentx-proxy/main.go starts it all.
--
-- The files. Prelude passes on the library, with Prelude/Effects (state, errors and panics),
-- Prelude/Bits, Prelude/Strings (Go's functions on strings), Prelude/Maps (Go's maps as
-- association lists) and Prelude/Lists. Streams is a reader, as the list of the bytes to come,
-- and a writer, as the bytes written and the room left; a write that finds no room is an error.
-- Chproto is pkg/chproto/varint.go: read_varint is ReadVarInt, write_string is WriteString, and
-- so on. Pgwire is pkg/pgwire/wire.go: read_message is ReadMessage, parse_bind is ParseBind,
-- Target is Describe and Close. Pgwire/Backend is pkg/pgwire/writer.go: send_data_row is
-- SendDataRow, text_to_binary is textToBinary. Arrays is pgBinaryArrayToJSON and convertPGParam
-- of internal/proxy/postgresql/server.go, and Arrays/Literals is
-- internal/proxy/postgresql/array.go. Session is the rest of server.go: the state of a connection
-- (ConnState for connState), the calls on MySQL (Session/Queries), executeQuery (Session/Simple),
-- the extended protocol (Session/Extended), handleDescribe (Session/Describe), and handleConn
-- with its handshake (Session/Handshake) and its loop (Session/Loop). A prepared statement that
-- portals share is a cell of a heap, since Describe changes it in place. Buffer is
-- internal/proxy/clickhouse/buffer.go: enqueue is Enqueue, flush_locked is flushLocked,
-- batch_inserts is BatchInserts. Clickhouse is what the two servers of
-- internal/proxy/clickhouse/http_server.go share, with mysqlToCHType of system.go there.
-- Clickhouse/Http is the HTTP server: handle_request is handleRequest, handle_system_query is
-- handleSystemQuery. Clickhouse/Native is the server of the native protocol: what it reads and
-- sends, with its system queries in Clickhouse/Native/System and its connections in
-- Clickhouse/Native/Serve, where handle_conn is handleConn and handle_ch_query is handleCHQuery.
-- Both servers end at the pool and the write buffer, as in ChServices. Clickhouse/Translator,
-- with Clickhouse/Dates and Clickhouse/Aggregates, is internal/proxy/clickhouse/translator.go.
-- Catalog is internal/proxy/postgresql/catalog.go, whose tables the session answers catalog
-- queries from: Catalog/Contents has the fixed rows, Catalog/PgType the conditions on pg_type and
-- pg_enum, Catalog/Relations what is made of the tables of MySQL, and Catalog/Dispatch
-- HandleCatalogQuery. Session/Columns, Session/Inference and Session/Clauses are the functions of
-- server.go that look into the text of a query. Regex is Go's regexp, with the reading of
-- patterns in Regex/Pattern, so that a pattern stands in the model as it does in the code, and
-- the calls that replace and split in Regex/Replace and Regex/Split. Postgres is
-- internal/proxy/postgresql/translator.go, which the session calls: translate is Translate, with
-- the scan for double-quoted names in Postgres/Quotes, casts and operators in Postgres/Operators,
-- functions in Postgres/Functions, and what rewrites whole statements in Postgres/Statements and
-- Postgres/Subqueries. Session/CatalogFields is describeCatalogQuery, which nothing calls.
-- MysqlPool is internal/mysql/pool.go. Clickhouse/SystemHandler is the SystemHandler of
-- internal/proxy/clickhouse/system.go. Schema is internal/mysql/schema.go, Rules is
-- internal/translation/rules.go, and Config is internal/config/config.go. Servers is the accept
-- loop that the servers of both protocols have, and Start is cmd/agentx-proxy/main.go.
--
-- The files of the proofs. Chproto/Encode, Decode, Padded, Truncated, Text and Fixed are about
-- the codecs, Pgwire/Frontend and Bodies about the messages of a client, Pgwire/Backend/Frames
-- and Rows about those of the server, Pgwire/Backend/Startup has the messages of a client's
-- startup, Arrays/Quoting is about array literals, Buffer/Batches, Rollback and Delivery about
-- the write buffer. Session/Frame and Session/Linked have the two ways in which the handlers
-- are followed through their branches: what leaves the session alone (Session/Answers,
-- Portals, Transactions), and what keeps its tables in order (Session/Heap, Tables, Described,
-- Serving). Session/Endings is about the end of the loop. Streams/Shrinks has the rules for
-- reads that give no input back, which Session/Endings and Clickhouse/Native/Endings use.
-- Clickhouse/Native/Packets, Blocks, Transposed and Queries are about the bytes of the native
-- protocol, Clickhouse/Http/Lines about the lines of an HTTP answer, Clickhouse/Agreement
-- about the two servers side by side, and Clickhouse/Types about the types of columns;
-- Prelude/Splits has the lemmas on Split and Join. Session/Commas is about lists of columns,
-- Catalog/Shapes and Catalog/Rectangular about the shape of the answers of the catalog,
-- Catalog/Numbering about the numbers of tables, and Schema/Created about the tables after a
-- start. Buffer/Ticks is the write buffer with its goroutine, as steps in any order.
-- Regex/Runs, Replaced and Unfound have what matches of runs and replacements do, from which
-- Postgres/Parameters and Postgres/Untouched, with Postgres/Unfound, follow;
-- Postgres/Quotes/Pieces is about double-quoted names. Clickhouse/Translator/Plain is about
-- the other translator, and Session/Plain about a statement on its way through a session.
-- Clickhouse/SystemShapes is about the answers of the SystemHandler, and Start/Order about the
-- calls of main. The Tests have concrete runs.
--
-- Numbers are natural numbers with the wrap-around of the source written out; signed values are
-- their two's complement patterns. Bytes are numbers, and a property that needs them below 256
-- says so. A panic is an outcome of its own, since nothing in the program recovers from one.
--
-- Fuel and bounds. The loop of ReadVarInt has the ten rounds of the source. WriteVarInt recurs on
-- the number. The message loop takes one unit of fuel for each message, and every message takes
-- its type byte off the input, so that more fuel than bytes is enough; so it is for the packets
-- of the native protocol.
--
-- Not modelled. The MySQL driver is a parameter: the records Services, ChServices and Pool
-- have its calls, and Catalog and Schema take those that they use. The numbers that the
-- PostgreSQL translator draws with rand.IntN come in through Services. main is modelled over
-- the calls that it makes; of the servers the listening, the logging and the time limits are
-- left out. Files, YAML and the environment are parameters of Config and Rules. The
-- SystemHandler of the ClickHouse side is used by nothing, and what encoding/json makes of its
-- rows is a parameter. Go's conversions of floats and timestamps are the record Conversions,
-- json.Marshal and the verb %q are parameters of to_mysql, and the longest slice that Go can
-- make is a parameter of read_string and part of Services. Interleavings of the write buffer's
-- callers are sequences of calls, since every method holds its mutex. Go lists the entries of
-- a map in any order; the indexes of Catalog come in one. Texts are taken to be ASCII where Go
-- changes their case or reads their characters. The texts of the tables
-- (internal/mysql/oltp_ddl.go, olap_ddl.go and pg_catalog_ddl.go) are constants, which come
-- into ensure_schema as lists; pkg/chproto/proto.go has only constants; that the pool of
-- connections to MySQL is opened, limited and closed is I/O.
pub mod Prelude
pub mod Streams
pub mod Chproto
pub mod Pgwire
pub mod Arrays
pub mod Session
pub mod Buffer
pub mod Clickhouse
pub mod Regex
pub mod Catalog
pub mod Schema
pub mod Postgres
pub mod Rules
pub mod Config
pub mod MysqlPool
pub mod Servers
pub mod Start
