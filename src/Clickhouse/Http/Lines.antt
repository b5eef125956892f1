-- ===== src/Clickhouse/Http/Lines.antt =====
-- The answer to a query over HTTP, as a client reads it: lines of cells between tabs.
use agentx_proxy.Prelude.{
  ℕ, ◌≡◌, refl, List, [], ◌∷◌, ◌++◌, map, append_assoc, Bytes, codes, All, ◌==◌, Bool-cases, inl,
  inr,
}
use agentx_proxy.Prelude.Strings.{split_from, split, join}
use agentx_proxy.Prelude.Splits.{Lacks, split-sep, split-join, join-Lacks}
use agentx_proxy.Pgwire.Backend.{Value}
use agentx_proxy.Session.{Rows}
use agentx_proxy.Clickhouse.Http.{tsv_cell, tsv_line, tsv_rows, tsv_table}

-- What comes after the last newline is no line.
unfoldable pub whole_lines : List Bytes → List Bytes
whole_lines [] = []
whole_lines (l ∷ []) = []
whole_lines (l ∷ m ∷ ls) = l ∷ whole_lines (m ∷ ls)

unfoldable pub read_table : Bytes → List (List Bytes)
unfolding split whole_lines
read_table s = map (λ l. split l b'\t') (whole_lines (split s b'\n'))

-- A line of at least one cell, none of them with a tab or a newline in it.
abbrev pub CleanCell : Bytes → Type 0
CleanCell s = Lacks b'\t' s × Lacks b'\n' s

abbrev pub CleanLine : List Bytes → Type 0
CleanLine [] = ⊥
CleanLine (c ∷ cs) = All CleanCell (c ∷ cs)

pub record Clean (r : Rows) : Type 0 where
  pub names : CleanLine (map (λ c. c.0) r.columns)
  pub cells : All (λ row. CleanLine (map tsv_cell row)) r.rows

tabs : (cs : List Bytes) → All CleanCell cs → All (Lacks b'\t') cs
tabs [] h = tt
tabs (c ∷ cs) h = (h.0.0, tabs cs h.1)

newlines : (cs : List Bytes) → All CleanCell cs → All (Lacks b'\n') cs
newlines [] h = tt
newlines (c ∷ cs) h = (h.0.1, newlines cs h.1)

line_of : List Bytes → Bytes
line_of cells = join cells (codes "\t")

split-line : (cs : List Bytes) → CleanLine cs → split (line_of cs) b'\t' ≡ cs
unfolding line_of
split-line [] h = absurd h
split-line (c ∷ cs) h = split-join b'\t' c cs (tabs (c ∷ cs) h)

line-Lacks : (cs : List Bytes) → CleanLine cs → Lacks b'\n' (line_of cs)
unfolding line_of
line-Lacks [] h = absurd h
line-Lacks (c ∷ cs) h = join-Lacks b'\t' b'\n' (c ∷ cs) refl (newlines (c ∷ cs) h)

split-tsv_line :
    (cs : List Bytes) (rest : Bytes)
    → CleanLine cs
    → split (tsv_line cs ++ rest) b'\n' ≡ line_of cs ∷ split rest b'\n'
unfolding tsv_line line_of
split-tsv_line cs rest h =
    rw (append_assoc (line_of cs) (codes "\n") rest)
      (split-sep b'\n' (line_of cs) rest (line-Lacks cs h))

-- There is always a last part, which is no line.
whole_lines-split_from :
    (sep : ℕ) (l cur s : Bytes)
    → whole_lines (l ∷ split_from sep cur s) ≡ l ∷ whole_lines (split_from sep cur s)
unfolding whole_lines split_from
whole_lines-split_from sep l cur [] = refl
whole_lines-split_from sep l cur (c ∷ s) = elim (Bool-cases (c == sep)) [
  | inl y ↦ rw (split_from, y) refl
  | inr n ↦ rw (split_from, n) (whole_lines-split_from sep l (cur ++ c ∷ []) s)
]

last_part : (l s : Bytes) → whole_lines (l ∷ split s b'\n') ≡ l ∷ whole_lines (split s b'\n')
unfolding split
last_part l s = whole_lines-split_from b'\n' l [] s

-- The lines of a text that starts with a whole one.
read_table-tsv_line :
    (cs : List Bytes) (rest : Bytes)
    → CleanLine cs
    → read_table (tsv_line cs ++ rest) ≡ cs ∷ read_table rest
unfolding read_table
read_table-tsv_line cs rest h =
    rw (split-tsv_line cs rest h, last_part (line_of cs) rest, split-line cs h) refl

read_table-nil : read_table [] ≡ []
unfolding read_table split split_from whole_lines
read_table-nil = refl

read_table-tsv_rows :
    (rows : List (List Value))
    → All (λ row. CleanLine (map tsv_cell row)) rows
    → read_table (tsv_rows rows) ≡ map (map tsv_cell) rows
unfolding tsv_rows
read_table-tsv_rows [] h = read_table-nil
read_table-tsv_rows (row ∷ rows) h =
    rw (read_table-tsv_line (map tsv_cell row) (tsv_rows rows) h.0, read_table-tsv_rows rows h.1)

-- Where no name and no cell has a tab or a newline in it, and no line is empty, a client that splits
-- the body at newlines and tabs gets the names and the rows as they were: NULL as \N, bytes as they
-- are, and other values as Go prints them.
pub read_table-tsv_table :
    (r : Rows)
    → Clean r
    → read_table (tsv_table r) ≡ map (λ c. c.0) r.columns ∷ map (map tsv_cell) r.rows
unfolding tsv_table
read_table-tsv_table r h = rw (
  read_table-tsv_line (map (λ c. c.0) r.columns) (tsv_rows r.rows) h.names,
  read_table-tsv_rows r.rows h.cells,
)
