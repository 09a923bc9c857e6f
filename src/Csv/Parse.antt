-- ===== src/Csv/Parse.antt =====
-- The row parser of icecreme/csv.c. A character source is what is left to read: `peek` is its head,
-- -1 where there is none, and `next` takes the head off.
use creme.Common.{
  ℕ, zero, suc, Bool, ◌||◌, Option, none, some, List, [], ◌∷◌, Result, ok, fail, ◌>>=◌, no_fuel,
  length, ◌==◌, if◌then◌else◌,
}

abbrev pub Bytes : Type 0
Bytes = List ℕ

abbrev pub is_newline : ℕ → Bool
is_newline c = c == b'\r' || c == b'\n'

abbrev pub push : ℕ → Bytes × Bytes → Bytes × Bytes
push c r = (c ∷ r.0, r.1)

-- The bytes of a cell behind its opening quote, and what is left behind the closing one. A doubled
-- quote stands for one; a cell that is not closed ends with the input.
unfoldable pub quoted_cell : ℕ → Bytes → Bytes × Bytes
quoted_cell quote [] = ([], [])
quoted_cell quote (c ∷ []) = if c == quote then ([], []) else (c ∷ [], [])
quoted_cell quote (c ∷ d ∷ src) =
    let doubled = push quote (quoted_cell quote src) in
    let inside = push c (quoted_cell quote (d ∷ src)) in
    if c == quote then (if d == quote then doubled else ([], d ∷ src)) else inside

-- The bytes up to a separator or the end of the line.
unfoldable pub plain_cell : ℕ → Bytes → Bytes × Bytes
plain_cell sep [] = ([], [])
plain_cell sep (c ∷ src) =
    let inside = push c (plain_cell sep src) in
    if c == sep || is_newline c then ([], c ∷ src) else inside

unfoldable pub parse_cell : ℕ → ℕ → Bytes → Bytes × Bytes
parse_cell sep quote [] = ([], [])
parse_cell sep quote (c ∷ src) =
    if c == quote then quoted_cell quote src else plain_cell sep (c ∷ src)

-- One end of line: \n, \r or \r\n.
unfoldable pub skip_newline : Bytes → Bytes
skip_newline [] = []
skip_newline (c ∷ []) = []
skip_newline (c ∷ d ∷ src) = if c == b'\r' then (if d == b'\n' then src else d ∷ src) else d ∷ src

-- Whether the row ends right here, and what is left then.
abbrev pub row_end : Bytes → Option Bytes
row_end [] = some []
row_end (c ∷ src) = if is_newline c then some (skip_newline (c ∷ src)) else none

-- The loop over the cells of a row. A round that goes on has taken a separator.
unfoldable pub parse_cells : ℕ → ℕ → ℕ → Bytes → Result (List Bytes × Bytes)
parse_cells zero sep quote src = fail no_fuel
parse_cells (suc rounds) sep quote src =
    let cell = parse_cell sep quote src in
    elim cell.1 [
      | [] ↦ ok (cell.0 ∷ [], [])
      | term ∷ after ↦
          if term == sep
          then (elim (row_end after) [
            | some rest ↦ ok (cell.0 ∷ [] ∷ [], rest)
            | none ↦ do r ← parse_cells rounds sep quote after; ok (cell.0 ∷ r.0, r.1)
          ])
          else if is_newline term
          then ok (cell.0 ∷ [], skip_newline (term ∷ after))
          else ok (cell.0 ∷ [], term ∷ after)
    ]

-- `csv_parse_row`: `none` is the result 0, at the end of the input.
unfoldable pub csv_parse_row : ℕ → ℕ → Bytes → Result (Option (List Bytes × Bytes))
csv_parse_row sep quote [] = ok none
csv_parse_row sep quote (c ∷ src) =
    if is_newline c
    then ok (some ([], skip_newline (c ∷ src)))
    else do r ← parse_cells (suc (length (c ∷ src))) sep quote (c ∷ src); ok (some r)

-- The loop over the rows of `csv-read`. A row takes at least one byte.
unfoldable pub parse_rows : ℕ → ℕ → ℕ → Bytes → Result (List (List Bytes))
parse_rows zero sep quote src = fail no_fuel
parse_rows (suc rounds) sep quote src = do
  row ← csv_parse_row sep quote src
  elim row [ none ↦ ok [] | some r ↦ do rows ← parse_rows rounds sep quote r.1; ok (r.0 ∷ rows) ]

unfoldable pub read_rows : ℕ → ℕ → Bytes → Result (List (List Bytes))
read_rows sep quote src = parse_rows (suc (length src)) sep quote src
