-- ===== src/Clickhouse/Native/Blocks.antt =====
-- The answer to a query, as a client of the native protocol reads it: column by column.
use agentx_proxy.Prelude.{
  ℕ, zero, suc, ◌^◌, ◌≤◌, ◌<◌, ◌≡◌, refl, sym, ◌∙◌, List, [], ◌∷◌, ◌++◌, map, append_assoc, arith,
  Bytes, codes, length, length-map, All, ◌==◌, if◌then◌else◌, failed, ok, err, Action, ◌>>=◌,
  return,
}
use agentx_proxy.Streams.{read_byte}
use agentx_proxy.Streams.Writes.{write_bytes_all}
use agentx_proxy.Chproto.{read_varint, read_string, write_varint, write_string}
use agentx_proxy.Chproto.Encode.{encoding}
use agentx_proxy.Chproto.Decode.{read_varint-encoding}
use agentx_proxy.Chproto.Text.{read_string-encoding}
use agentx_proxy.Pgwire.{repeat}
use agentx_proxy.Pgwire.Frontend.{encode_all, repeat-encode_all}
use agentx_proxy.Pgwire.Backend.{Value}
use agentx_proxy.Session.{Rows}
use agentx_proxy.Clickhouse.{mysql_to_ch_type}
use agentx_proxy.Clickhouse.Native.{
  send_all, block_head, cell_text, write_columns, send_native_data,
}
use agentx_proxy.Clickhouse.Native.Transposed.{transposed, columns_of, columns_of-transposed}
use agentx_proxy.Clickhouse.Native.Packets.{
  string_bytes, Emits, Emits-nil, Emits-append, Emits-byte, Emits-varint, Emits-string,
}

-- What a client makes of a data packet.
pub record Block : Type 0 where
  pub names : List Bytes
  pub types : List Bytes
  pub columns : List (List Bytes)

unfoldable pub expect : ℕ → Action Bytes (Unit {0})
unfolding read_byte
expect b = do
  c ← read_byte
  if c == b then return tt else (λ s. (err (failed (codes "unexpected packet")), s))

module _ (max_alloc : ℕ) where
  unfoldable pub read_block : Action Bytes Block
  read_block = do
    n ← read_varint
    rows ← read_varint
    names ← repeat n (read_string max_alloc)
    types ← repeat n (read_string max_alloc)
    _ ← repeat n read_varint
    columns ← repeat n (repeat rows (read_string max_alloc))
    return (record { names = names; types = types; columns = columns })

  -- A progress packet, a data packet and the end of the stream.
  unfoldable pub read_data : Action Bytes Block
  unfolding read_block
  read_data = do
    _ ← expect 3
    _ ← read_varint
    _ ← read_varint
    _ ← read_varint
    _ ← expect 1
    block ← read_block
    _ ← expect 5
    return block

  abbrev pub Fits : Bytes → Type 0
  Fits s = (length s ≤ max_alloc) × (length s < 2 ^ 64)

  read_strings :
      (n : ℕ) (xs : List Bytes) (rest : Bytes)
      → n ≡ length xs
      → All Fits xs
      → repeat n (read_string max_alloc) (encode_all string_bytes xs ++ rest) ≡ (ok xs, rest)
  read_strings n xs rest e h = rw e (
      repeat-encode_all (read_string max_alloc) string_bytes Fits
        (λ s t f. rw append_assoc (read_string-encoding max_alloc s t f.0 f.1)) xs rest h)

  Emits-strings :
      {A : Type 0} (f : A → Bytes) (xs : List A)
      → All Fits (map f xs)
      → Emits (map (λ x. write_string (f x)) xs) (encode_all string_bytes (map f xs))
  Emits-strings f [] h = Emits-nil
  Emits-strings f (x ∷ xs) (hx, hxs) =
      Emits-append (Emits-string (f x) hx.1) (Emits-strings f xs hxs)

  Emits-write_columns :
      (n col : ℕ) (rows : List (List Value))
      → All (All Fits) (columns_of n col rows)
      → Emits
          (write_columns n col rows)
          (encode_all (encode_all string_bytes) (columns_of n col rows))
  unfolding write_columns columns_of
  Emits-write_columns zero col rows h = Emits-nil
  Emits-write_columns (suc n) col rows (h, hs) =
      Emits-append (Emits-strings (cell_text col) rows h) (Emits-write_columns n (suc col) rows hs)

  read_columns :
      (n col : ℕ) (rows : List (List Value)) (rest : Bytes)
      → All (All Fits) (columns_of n col rows)
      → repeat n
          (repeat (length rows) (read_string max_alloc))
          (encode_all (encode_all string_bytes) (columns_of n col rows) ++ rest)
        ≡ (ok (columns_of n col rows), rest)
  unfolding repeat columns_of
  read_columns zero col rows rest h = refl
  read_columns (suc n) col rows rest (h, hs) = rw (
    append_assoc,
    read_strings (length rows) (map (cell_text col) rows)
        (encode_all (encode_all string_bytes) (columns_of n (suc col) rows) ++ rest)
        (sym (length-map (cell_text col) rows)) h,
    read_columns n (suc col) rows rest hs,
  )

  read_transposed :
      (n : ℕ) (rows : List (List Value)) (rest : Bytes)
      → All (All Fits) (transposed n rows)
      → repeat n
          (repeat (length rows) (read_string max_alloc))
          (encode_all (encode_all string_bytes) (transposed n rows) ++ rest)
        ≡ (ok (transposed n rows), rest)
  read_transposed n rows rest h =
      rw columns_of-transposed at (read_columns n 0 rows rest (rw (columns_of-transposed n rows) h))

  Emits-transposed :
      (n : ℕ) (rows : List (List Value))
      → All (All Fits) (transposed n rows)
      → Emits (write_columns n 0 rows) (encode_all (encode_all string_bytes) (transposed n rows))
  Emits-transposed n rows h =
      rw columns_of-transposed at
        (Emits-write_columns n 0 rows (rw (columns_of-transposed n rows) h))

  -- The parts of a data packet.
  abbrev ch_columns : Rows → List (Bytes × Bytes)
  ch_columns r = map (λ c. (c.0, mysql_to_ch_type c.1)) r.columns

  -- The answer as it is meant: the names, the types, and the rows turned into columns of texts.
  abbrev pub block_of : Rows → Block
  block_of r = record {
    names = map (λ c. c.0) (ch_columns r);
    types = map (λ c. c.1) (ch_columns r);
    columns = transposed (length r.columns) r.rows;
  }

  -- Names, types and values that a client can hold, and counts that are uint64.
  pub record RowsFit (r : Rows) : Type 0 where
    pub names : All Fits (block_of r).names
    pub types : All Fits (block_of r).types
    pub cells : All (All Fits) (block_of r).columns
    pub width : length r.columns < 2 ^ 64
    pub height : length r.rows < 2 ^ 64

  abbrev zeros : List (Bytes × Bytes) → Bytes
  zeros = encode_all (λ c. encoding 0)

  read_zeros :
      (n : ℕ) (cs : List (Bytes × Bytes)) (rest : Bytes)
      → n ≡ length cs
      → repeat n read_varint (zeros cs ++ rest) ≡ (ok (map (λ c. 0) cs), rest)
  unfolding repeat
  read_zeros n [] rest e = rw e
  read_zeros n (c ∷ cs) rest e = rw (
    e,
    append_assoc,
    read_varint-encoding 0 (zeros cs ++ rest) (omega arith),
    read_zeros (length cs) cs rest refl,
  )

  abbrev body_bytes : Rows → Bytes
  body_bytes r =
      encode_all string_bytes (block_of r).names
      ++ (encode_all string_bytes (block_of r).types ++ zeros (ch_columns r))

  abbrev cell_bytes : Rows → Bytes
  cell_bytes r = encode_all (encode_all string_bytes) (block_of r).columns

  width_of : (r : Rows) → length r.columns ≡ length (ch_columns r)
  width_of r = sym (length-map (λ c. (c.0, mysql_to_ch_type c.1)) r.columns)

  read_block-body :
      (r : Rows) (rest : Bytes)
      → RowsFit r
      → read_block (
          encoding (length (ch_columns r))
          ++ (encoding (length r.rows) ++ (body_bytes r ++ (cell_bytes r ++ rest))))
        ≡ (ok (block_of r), rest)
  unfolding read_block
  read_block-body r rest fits =
      let w = sym (width_of r) in
      rw (
        w,
        read_varint-encoding (length r.columns) _ fits.width,
        read_varint-encoding (length r.rows) _ fits.height,
        append_assoc,
        read_strings (length r.columns) (block_of r).names _
            (width_of r ∙ sym (length-map (λ c. c.0) (ch_columns r))) fits.names,
        append_assoc,
        read_strings (length r.columns) (block_of r).types _
            (width_of r ∙ sym (length-map (λ c. c.1) (ch_columns r))) fits.types,
        read_zeros (length r.columns) (ch_columns r) _ (width_of r),
        read_transposed (length r.columns) r.rows rest fits.cells,
      )

  -- The bytes of the answer.
  abbrev pub answer_bytes : Rows → Bytes
  answer_bytes r =
      (3 ∷ [])
      ++ (encoding 0 ++ (encoding 0 ++ encoding 0))
      ++ (((1 ∷ [])
            ++ (encoding (length (ch_columns r)) ++ encoding (length r.rows))
            ++ body_bytes r)
          ++ (cell_bytes r ++ 5 ∷ []))

  Emits-zeros : (cs : List (Bytes × Bytes)) → Emits (map (λ c. write_varint 0) cs) (zeros cs)
  Emits-zeros [] = Emits-nil
  Emits-zeros (c ∷ cs) = Emits-append (Emits-varint 0 (omega arith)) (Emits-zeros cs)

  Emits-send_native_data : (r : Rows) → RowsFit r → Emits (send_native_data r) (answer_bytes r)
  unfolding send_native_data block_head
  Emits-send_native_data r fits =
      Emits-append
        (Emits-append (Emits-byte 3) (
          Emits-append (Emits-varint 0 (omega arith))
            (Emits-append (Emits-varint 0 (omega arith)) (Emits-varint 0 (omega arith)))))
        (Emits-append
          (Emits-append
            (Emits-append (Emits-byte 1) (
              Emits-append (Emits-varint (length (ch_columns r)) (rw (sym (width_of r)) fits.width))
                (Emits-varint (length r.rows) fits.height)))
            (Emits-append (Emits-strings (λ c. c.0) (ch_columns r) fits.names) (
              Emits-append (Emits-strings (λ c. c.1) (ch_columns r) fits.types)
                (Emits-zeros (ch_columns r)))))
          (Emits-append (Emits-transposed (length r.columns) r.rows fits.cells) (Emits-byte 5)))

  flat :
      (r : Rows) (rest : Bytes)
      → answer_bytes r ++ rest
        ≡ 3
          ∷ (encoding 0
              ++ (encoding 0
                  ++ (encoding 0
                      ++ (1
                          ∷ (encoding (length (ch_columns r))
                              ++ (encoding (length r.rows)
                                  ++ (body_bytes r ++ (cell_bytes r ++ 5 ∷ rest))))))))
  flat r rest = simp append_assoc

  read_data-answer_bytes :
      (r : Rows) (rest : Bytes)
      → RowsFit r
      → read_data (answer_bytes r ++ rest) ≡ (ok (block_of r), rest)
  unfolding read_data expect
  read_data-answer_bytes r rest fits = rw (
    flat r rest,
    read_varint-encoding 0 _ (omega arith),
    read_varint-encoding 0 _ (omega arith),
    read_varint-encoding 0 _ (omega arith),
    read_block-body r (5 ∷ rest) fits,
  )

  -- What the server sends for a result, where there is room for it and the texts are not too long, is read
  -- by a client as the names of the columns, their types, and the rows of the result turned into columns:
  -- the texts of the first values of all rows, then those of the second ones, and so on, with the empty
  -- text for NULL.
  pub read_data-send_native_data :
      (r : Rows) (room : ℕ) (rest : Bytes)
      → RowsFit r
      → length (answer_bytes r) ≤ room
      → read_data
          ((send_all (send_native_data r) (record { written = []; room = room })).written ++ rest)
        ≡ (ok (block_of r), rest)
  read_data-send_native_data r room rest fits enough =
      rw
        (
          (Emits-send_native_data r fits).state (record { written = []; room = room }),
          write_bytes_all (answer_bytes r) room enough,
        )
        (read_data-answer_bytes r rest fits)
