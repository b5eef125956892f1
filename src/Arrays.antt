-- ===== src/Arrays.antt =====
-- internal/proxy/postgresql/server.go: array parameters in binary format, and the values that are
-- handed to the MySQL driver.
pub mod Literals
pub mod Quoting
mod Tests
use agentx_proxy.Prelude.{
  ℕ, zero, suc, ◌+◌, ◌-◌, ◌/◌, ◌%◌, ◌^◌, Bool, true, false, ◌&&◌, Option, none, some, List, [], ◌∷◌,
  ◌++◌, Bytes, codes, length, take, drop, get_elem?, ltb, leb, ◌==◌, if◌then◌else◌, bit_and, ok,
  err, panicked, Outcome, Action, ◌>>=◌, return, and_then,
}
use agentx_proxy.Prelude.Strings.{replace_all, join}
use agentx_proxy.Pgwire.{take_uint32}

-- `escaped` with its quotes around it.
unfoldable pub quote_element : Bytes → Bytes
unfolding replace_all
quote_element s =
    codes "\""
    ++ (replace_all (replace_all s (codes "\\") (codes "\\\\")) (codes "\"") (codes "\\\"")
        ++ codes "\"")

-- `(nullBitmap[i/8] & (1 << i%8)) == 0`, and `false` past the end of the bitmap.
unfoldable pub is_null : Bytes → ℕ → Bool
is_null bitmap i = elim (get_elem? bitmap (i / 8)) [
  | none ↦ false
  | some b ↦ bit_and b (2 ^ (i % 8)) == 0
]

-- One round of the loop: `none` breaks it, and a negative length other than -1 is a panic.
unfoldable pub next_element : Bool → Action Bytes (Option Bytes)
unfolding take_uint32 quote_element
next_element true s = (ok (some (codes "null")), s)
next_element false s =
    if ltb (length s) 4
    then (ok none, s)
    else and_then (take_uint32 s) (λ len s'.
      if len == 2 ^ 32 - 1
      then (ok (some (codes "null")), s')
      else if leb (2 ^ 31) len
      then (panicked, s')
      else if ltb (length s') len
      then (ok none, s')
      else (ok (some (quote_element (take len s'))), drop len s'))

-- The loop over the elements: `n` rounds are left, and the state is what follows the offset.
unfoldable pub array_elements : ℕ → ℕ → Bytes → Action Bytes (List Bytes)
unfolding is_null next_element
array_elements zero i bitmap = return []
array_elements (suc n) i bitmap = do
  next ← next_element (is_null bitmap i)
  elim next [
    | none ↦ return []
    | some e ↦ (do es ← array_elements n (i + 1) bitmap; return (e ∷ es))
  ]

-- The branch for one dimension: the length, the lower bound, the null bitmap, then the elements.
unfoldable pub array_of_one : Bytes → Outcome Bytes
unfolding take_uint32 array_elements join
array_of_one s = body.0
  where
    body : Outcome Bytes × Bytes
    body = and_then (take_uint32 s) (λ n s1. and_then (take_uint32 s1) (λ _ s2.
        if ltb (length s2) ((n + 7) / 8)
        then (panicked, s2)
        else and_then (array_elements n 0 (take ((n + 7) / 8) s2) (drop ((n + 7) / 8) s2))
            (λ es s3. (ok (codes "[" ++ (join es (codes ",") ++ codes "]")), s3))))

-- `pgBinaryArrayToJSON`.
unfoldable pub pg_binary_array_to_json : Bytes → Outcome Bytes
unfolding take_uint32 array_of_one
pg_binary_array_to_json [] = ok (codes "[]")
pg_binary_array_to_json (b ∷ s) = (and_then (take_uint32 (b ∷ s)) header).0
  where
    header : ℕ → Bytes → Outcome Bytes × Bytes
    header dims s1 =
        if dims == 0
        then (ok (codes "[]"), s1)
        else and_then (take_uint32 s1) (λ _ s2.
          and_then (take_uint32 s2)
            (λ _ s3. if dims == 1 then (array_of_one s3, s3) else (ok (codes "[]"), s3)))

-- A value for the MySQL driver: nil or a string.
abbrev pub Arg : Type 0
Arg = Option Bytes

-- `convertPGParam`.
unfoldable pub convert_pg_param : Option Bytes → ℕ → ℕ → Outcome Arg
unfolding pg_binary_array_to_json
convert_pg_param none format oid = ok none
convert_pg_param (some s) format oid =
    if format == 0
    then ok (some s)
    else if leb 1000 oid && ltb 12 (length s)
    then elim (pg_binary_array_to_json s) [
      | ok json ↦ ok (some json)
      | err e ↦ err e
      | panicked ↦ panicked
    ]
    else ok (some s)
