-- ===== src/Clickhouse/Native/Queries.antt =====
-- A query packet, as a client writes it, is read by the server.
use agentx_proxy.Prelude.{
  ℕ, ◌^◌, ◌≤◌, ◌<◌, ◌≡◌, Bool-cases, inl, inr, [], ◌∷◌, ◌++◌, append_assoc, Bytes, length, ◌==◌,
  if◌then◌else◌, ok, ignoring,
}
use agentx_proxy.Prelude.Strings.{equal}
use agentx_proxy.Streams.{read_byte}
use agentx_proxy.Chproto.{read_varint, read_string}
use agentx_proxy.Chproto.Encode.{encoding}
use agentx_proxy.Chproto.Decode.{read_varint-encoding}
use agentx_proxy.Chproto.Text.{read_string-encoding}
use agentx_proxy.Clickhouse.Native.{read_secondary, skip_size, read_client_info, read_query}
use agentx_proxy.Clickhouse.Native.Packets.{string_bytes}

-- The fields that say which client it is; the server reads past them.
pub record ClientInfo : Type 0 where
  pub interface_version : ℕ
  pub client_name : Bytes
  pub major : ℕ
  pub minor : ℕ
  pub patch : ℕ
  pub revision : ℕ
  pub timezone : Bytes
  pub quota_key : ℕ
  pub depth : ℕ

pub record QueryPacket : Type 0 where
  pub query_id : Bytes
  pub stage : ℕ
  pub compression : ℕ
  pub client : ClientInfo
  pub query : Bytes
  pub kind : ℕ
  pub secondary : Bytes

-- The bytes of a packet before those of `rest`: the secondary query only where the kind says that
-- there is one, and four bytes of a size where the compression is on.
unfoldable pub client_bytes : ClientInfo → Bytes → Bytes
client_bytes c rest =
    encoding c.interface_version
    ++ (string_bytes c.client_name
        ++ (encoding c.major
            ++ (encoding c.minor
                ++ (encoding c.patch
                    ++ (encoding c.revision
                        ++ (string_bytes c.timezone
                            ++ (encoding c.quota_key ++ (encoding c.depth ++ rest))))))))

abbrev secondary_bytes : QueryPacket → Bytes → Bytes
secondary_bytes p rest = if p.kind == 1 then string_bytes p.secondary ++ rest else rest

abbrev size_bytes : QueryPacket → Bytes → Bytes
size_bytes p rest = if p.compression == 1 then 0 ∷ 0 ∷ 0 ∷ 0 ∷ rest else rest

unfoldable pub packet_bytes : QueryPacket → Bytes → Bytes
packet_bytes p rest =
    string_bytes p.query_id
    ++ (encoding p.stage
        ++ (encoding p.compression
            ++ client_bytes p.client (
                string_bytes p.query
                ++ (encoding p.kind ++ secondary_bytes p (size_bytes p rest)))))

-- The query that is to be run.
abbrev pub effective : QueryPacket → Bytes
effective p =
    if p.kind == 1 then (if equal p.secondary [] then p.query else p.secondary) else p.query

module _ (max_alloc : ℕ) where
  abbrev Fits : Bytes → Type 0
  Fits s = (length s ≤ max_alloc) × (length s < 2 ^ 64)

  pub record ClientFits (c : ClientInfo) : Type 0 where
    pub interface_version : c.interface_version < 2 ^ 64
    pub client_name : Fits c.client_name
    pub major : c.major < 2 ^ 64
    pub minor : c.minor < 2 ^ 64
    pub patch : c.patch < 2 ^ 64
    pub revision : c.revision < 2 ^ 64
    pub timezone : Fits c.timezone
    pub quota_key : c.quota_key < 2 ^ 64
    pub depth : c.depth < 2 ^ 64

  pub record PacketFits (p : QueryPacket) : Type 0 where
    pub query_id : Fits p.query_id
    pub stage : p.stage < 2 ^ 64
    pub compression : p.compression < 2 ^ 64
    pub client : ClientFits p.client
    pub query : Fits p.query
    pub kind : p.kind < 2 ^ 64
    pub secondary : Fits p.secondary

  some_string-bytes :
      (s rest : Bytes)
      → Fits s
      → ignoring [] (read_string max_alloc) (string_bytes s ++ rest) ≡ (ok s, rest)
  some_string-bytes s rest h = rw (append_assoc, read_string-encoding max_alloc s rest h.0 h.1)

  some_varint-bytes :
      (v : ℕ) (rest : Bytes)
      → v < 2 ^ 64
      → ignoring 0 read_varint (encoding v ++ rest) ≡ (ok v, rest)
  some_varint-bytes v rest h = rw (read_varint-encoding v rest h)

  read_client_info-client_bytes :
      (c : ClientInfo) (rest : Bytes)
      → ClientFits c
      → read_client_info max_alloc (client_bytes c rest) ≡ (ok tt, rest)
  unfolding read_client_info client_bytes
  read_client_info-client_bytes c rest fits = rw (
    some_varint-bytes c.interface_version _ fits.interface_version,
    some_string-bytes c.client_name _ fits.client_name,
    some_varint-bytes c.major _ fits.major,
    some_varint-bytes c.minor _ fits.minor,
    some_varint-bytes c.patch _ fits.patch,
    some_varint-bytes c.revision _ fits.revision,
    some_string-bytes c.timezone _ fits.timezone,
    some_varint-bytes c.quota_key _ fits.quota_key,
    some_varint-bytes c.depth _ fits.depth,
  )

  read_secondary-bytes :
      (p : QueryPacket) (rest : Bytes)
      → Fits p.secondary
      → read_secondary max_alloc p.kind p.query (secondary_bytes p rest) ≡ (ok (effective p), rest)
  unfolding read_secondary
  read_secondary-bytes p rest h = elim (Bool-cases (p.kind == 1)) [
    | inl y ↦ rw (y, some_string-bytes p.secondary rest h)
    | inr n ↦ rw n
  ]

  skip_size-bytes :
      (p : QueryPacket) (rest : Bytes)
      → skip_size max_alloc p.compression (size_bytes p rest) ≡ (ok tt, rest)
  unfolding skip_size read_byte
  skip_size-bytes p rest = elim (Bool-cases (p.compression == 1)) [ inl y ↦ rw y | inr n ↦ rw n ]

  -- The server takes the query out of a query packet, or the secondary query that takes its place,
  -- and leaves what follows the packet.
  pub read_query-packet_bytes :
      (p : QueryPacket) (rest : Bytes)
      → PacketFits p
      → read_query max_alloc (packet_bytes p rest) ≡ (ok (effective p), rest)
  unfolding read_query packet_bytes
  read_query-packet_bytes p rest fits = rw (
    some_string-bytes p.query_id _ fits.query_id,
    some_varint-bytes p.stage _ fits.stage,
    some_varint-bytes p.compression _ fits.compression,
    read_client_info-client_bytes p.client _ fits.client,
    some_string-bytes p.query _ fits.query,
    some_varint-bytes p.kind _ fits.kind,
    read_secondary-bytes p _ fits.secondary,
    skip_size-bytes p rest,
  )
