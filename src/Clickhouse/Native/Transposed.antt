-- ===== src/Clickhouse/Native/Transposed.antt =====
-- The rows of a result turned into columns, and the texts that the native server sends for them.
use agentx_proxy.Prelude.{ℕ, zero, suc, ◌≡◌, refl, ap, ◌∙◌, List, [], ◌∷◌, map, Bytes}
use agentx_proxy.Pgwire.Backend.{Value, null, raw, text, signed, unsigned, boolean}
use agentx_proxy.Clickhouse.{sprint_value}
use agentx_proxy.Clickhouse.Native.{cell_text}

-- The text of the first value of a row, which is empty for NULL and where there is none.
unfoldable pub first_value : List Value → Bytes
unfolding sprint_value
first_value [] = []
first_value (null ∷ vs) = []
first_value (v ∷ vs) = sprint_value v

abbrev pub later_values : List Value → List Value
later_values [] = []
later_values (v ∷ vs) = vs

-- The rows turned into `n` columns of texts: the first values of all rows, and then the columns of
-- what is left of the rows.
unfoldable pub transposed : ℕ → List (List Value) → List (List Bytes)
unfolding first_value
transposed zero rows = []
transposed (suc n) rows = map first_value rows ∷ transposed n (map later_values rows)

behind : ℕ → List Value → List Value
behind zero row = row
behind (suc n) row = behind n (later_values row)

cell_text-behind : (col : ℕ) (row : List Value) → cell_text col row ≡ first_value (behind col row)
unfolding cell_text first_value behind
cell_text-behind col [] = nothing col
  where
    nothing : (col : ℕ) → [] ≡ first_value (behind col [])
    nothing zero = refl
    nothing (suc n) = nothing n
cell_text-behind zero (v ∷ vs) = at_first v vs
  where
    at_first : (v : Value) (vs : List Value) → cell_text 0 (v ∷ vs) ≡ first_value (v ∷ vs)
    at_first null vs = refl
    at_first (raw s) vs = refl
    at_first (text s) vs = refl
    at_first (signed n) vs = refl
    at_first (unsigned n) vs = refl
    at_first (Value.float s t) vs = refl
    at_first (boolean b) vs = refl
    at_first (Value.time s t) vs = refl
    at_first (Value.other s) vs = refl
cell_text-behind (suc n) (v ∷ vs) = cell_text-behind n vs

behind-later : (n : ℕ) (row : List Value) → behind (suc n) row ≡ later_values (behind n row)
unfolding behind
behind-later zero row = refl
behind-later (suc n) row = behind-later n (later_values row)

heads-behind :
    (col : ℕ) (rows : List (List Value))
    → map (cell_text col) rows ≡ map first_value (map (behind col) rows)
heads-behind col [] = refl
heads-behind col (row ∷ rows) = rw (cell_text-behind col row, heads-behind col rows)

tails-behind :
    (col : ℕ) (rows : List (List Value))
    → map (behind (suc col)) rows ≡ map later_values (map (behind col) rows)
tails-behind col [] = refl
tails-behind col (row ∷ rows) = rw (behind-later col row, tails-behind col rows)

map-behind : (rows : List (List Value)) → map (behind 0) rows ≡ rows
unfolding behind
map-behind [] = refl
map-behind (row ∷ rows) = ap (λ rs. row ∷ rs) (map-behind rows)

-- The columns of the rows, as texts.
unfoldable pub columns_of : ℕ → ℕ → List (List Value) → List (List Bytes)
columns_of zero col rows = []
columns_of (suc n) col rows = map (cell_text col) rows ∷ columns_of n (suc col) rows

columns_of-behind :
    (n col : ℕ) (rows : List (List Value))
    → columns_of n col rows ≡ transposed n (map (behind col) rows)
unfolding columns_of transposed
columns_of-behind zero col rows = refl
columns_of-behind (suc n) col rows =
    rw (columns_of-behind n (suc col) rows, heads-behind col rows, tails-behind col rows)

pub columns_of-transposed :
    (n : ℕ) (rows : List (List Value)) → columns_of n 0 rows ≡ transposed n rows
columns_of-transposed n rows = columns_of-behind n 0 rows ∙ ap (transposed n) (map-behind rows)
