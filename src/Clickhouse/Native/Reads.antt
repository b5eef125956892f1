-- ===== src/Clickhouse/Native/Reads.antt =====
-- The reads of the native protocol leave no more input than they were given.
use agentx_proxy.Prelude.{
  ℕ, [], arith, Bytes, ltb, ◌==◌, if◌then◌else◌, Action, ◌>>=◌, return, ignoring,
}
use agentx_proxy.Streams.{read_byte, read_bytes}
use agentx_proxy.Streams.Shrinks.{
  Shrinks, Shrinks-bind, Shrinks-return, Shrinks-if, Shrinks-ignoring, read_byte-Shrinks,
  read_bytes-Shrinks,
}
use agentx_proxy.Chproto.{read_varint, read_string, read_fixed_uint32, from_little_endian}
use agentx_proxy.Chproto.Truncated.{read_varint_total}
use agentx_proxy.Prelude.Strings.{equal}
use agentx_proxy.Clickhouse.Native.{
  some_string, some_varint, read_hello_rest, read_secondary, skip_size, read_client_info,
  read_query, skip_block,
}

read_varint-Shrinks : Shrinks read_varint
read_varint-Shrinks s = (read_varint_total s).1

pub read_fixed_uint32-Shrinks : Shrinks read_fixed_uint32
unfolding read_fixed_uint32
read_fixed_uint32-Shrinks =
    Shrinks-bind (read_bytes 4) _ (read_bytes-Shrinks 4)
      (λ buf. Shrinks-return {A = ℕ} (from_little_endian buf))

module _ (max_alloc : ℕ) where
  read_string-Shrinks : Shrinks (read_string max_alloc)
  unfolding read_string
  read_string-Shrinks =
      Shrinks-bind read_varint _ read_varint-Shrinks
        (λ len. Shrinks-if (ltb max_alloc len) _ _ (λ s. omega arith) (read_bytes-Shrinks len))

  string-Shrinks : Shrinks (some_string max_alloc)
  string-Shrinks = Shrinks-ignoring [] (read_string max_alloc) read_string-Shrinks

  varint-Shrinks : Shrinks (some_varint max_alloc)
  varint-Shrinks = Shrinks-ignoring 0 read_varint read_varint-Shrinks

  -- A field that is read and not used.
  skip_string :
      {A : Type 0} (m : Action Bytes A) → Shrinks m → Shrinks (some_string max_alloc >>= (λ _. m))
  skip_string m h = Shrinks-bind (some_string max_alloc) _ string-Shrinks (λ _. h)

  skip_varint :
      {A : Type 0} (m : Action Bytes A) → Shrinks m → Shrinks (some_varint max_alloc >>= (λ _. m))
  skip_varint m h = Shrinks-bind (some_varint max_alloc) _ varint-Shrinks (λ _. h)

  skip_uint32 :
      {A : Type 0} (m : Action Bytes A)
      → Shrinks m
      → Shrinks (ignoring 0 read_fixed_uint32 >>= (λ _. m))
  skip_uint32 m h =
      Shrinks-bind (ignoring 0 read_fixed_uint32) _
        (Shrinks-ignoring 0 read_fixed_uint32 read_fixed_uint32-Shrinks) (λ _. h)

  done : Shrinks {A = Unit {0}} (return tt)
  done = Shrinks-return tt

  pub read_hello_rest-Shrinks : Shrinks (read_hello_rest max_alloc)
  unfolding read_hello_rest
  read_hello_rest-Shrinks =
      skip_uint32 _ (skip_uint32 _ (skip_string _ (skip_string _ (skip_string _ done))))

  pub skip_block-Shrinks : Shrinks (skip_block max_alloc)
  unfolding skip_block
  skip_block-Shrinks = skip_varint _ (skip_varint _ done)

  read_client_info-Shrinks : Shrinks (read_client_info max_alloc)
  unfolding read_client_info
  read_client_info-Shrinks = skip_varint _ (
      skip_string _ (
        skip_varint _ (
          skip_varint _
            (skip_varint _ (skip_varint _ (skip_string _ (skip_varint _ (skip_varint _ done))))))))

  read_secondary-Shrinks : (kind : ℕ) (q : Bytes) → Shrinks (read_secondary max_alloc kind q)
  unfolding read_secondary
  read_secondary-Shrinks kind q =
      Shrinks-if (kind == 1) _ _
        (Shrinks-bind (some_string max_alloc) _ string-Shrinks
          (λ s. Shrinks-return {A = Bytes} (if equal s [] then q else s)))
        (Shrinks-return q)

  skip_size-Shrinks : (c : ℕ) → Shrinks (skip_size max_alloc c)
  unfolding skip_size
  skip_size-Shrinks c = Shrinks-if (c == 1) _ _ (byte _ (byte _ (byte _ (byte _ done)))) done
    where
      byte :
          {A : Type 0} (m : Action Bytes A)
          → Shrinks m
          → Shrinks (ignoring 0 read_byte >>= (λ _. m))
      byte m h =
          Shrinks-bind (ignoring 0 read_byte) _ (Shrinks-ignoring 0 read_byte read_byte-Shrinks)
            (λ _. h)

  pub read_query-Shrinks : Shrinks (read_query max_alloc)
  unfolding read_query
  read_query-Shrinks = skip_string _ (
      skip_varint _ (
        Shrinks-bind (some_varint max_alloc) _ varint-Shrinks (λ compression.
          Shrinks-bind (read_client_info max_alloc) _ read_client_info-Shrinks (λ _.
            Shrinks-bind (some_string max_alloc) _ string-Shrinks (λ query.
              Shrinks-bind (some_varint max_alloc) _ varint-Shrinks (λ kind.
                Shrinks-bind (read_secondary max_alloc kind query) _
                  (read_secondary-Shrinks kind query)
                  (λ chosen.
                    Shrinks-bind (skip_size max_alloc compression) _ (skip_size-Shrinks compression)
                      (λ _. Shrinks-return chosen))))))))
