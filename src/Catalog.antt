-- ===== src/Catalog.antt =====
-- internal/proxy/postgresql/catalog.go: the emulation of pg_catalog. Here is what its tables share.
pub mod Contents
pub mod PgType
pub mod Relations
pub mod Dispatch
pub mod Shapes
pub mod Rectangular
pub mod Numbering
mod Tests
use agentx_proxy.Prelude.{
  ℕ, zero, suc, ◌+◌, ◌*◌, ◌-◌, ◌%◌, ◌^◌, Bool, true, false, Option, none, some, List, [], ◌∷◌,
  Bytes, ltb, leb, ◌&&◌, ◌==◌, if◌then◌else◌, map,
}
use agentx_proxy.Pgwire.Backend.{Value}

-- The names of the columns and the rows; no answer says that MySQL is to answer the query itself.
abbrev pub Answer : Type 0
Answer = Option (List Bytes × List (List Value))

unfoldable pub keep : (List Value → Bool) → List (List Value) → List (List Value)
keep p [] = []
keep p (row ∷ rows) = let rest = keep p rows in if p row then row ∷ rest else rest

-- What `Sscanf("%d")` reads: the digits at the start, and zero where there are none or too many. No OID
-- of the catalog is zero or below, so that a sign makes no difference but for the plus.
unfoldable pub leading_digits : ℕ → Bytes → ℕ
leading_digits n [] = n
leading_digits n (c ∷ s) = elim (leb b'0' c && leb c b'9') [
  | true ↦ leading_digits (n * 10 + (c - b'0')) s
  | false ↦ n
]

unfoldable pub leading_number : Bytes → ℕ
unfolding leading_digits
leading_number [] = 0
leading_number (c ∷ s) =
    let n = leading_digits 0 (if c == b'+' then s else c ∷ s) in if ltb n (2 ^ 63) then n else 0

-- `int16(n)`, as the pattern of a signed number of 64 bits.
unfoldable pub int16 : ℕ → ℕ
int16 n = let m = n % 2 ^ 16 in if ltb m (2 ^ 15) then m else m + (2 ^ 64 - 2 ^ 16)
