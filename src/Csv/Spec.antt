-- ===== src/Csv/Spec.antt =====
-- The text that the writer of icecreme/csv.c means to make, with no buffer.
use creme.Common.{ℕ, Bool, true, false, List, [], ◌∷◌, ◌++◌, Result, ok, ◌>>=◌, ◌==◌, if◌then◌else◌}
use creme.Csv.Parse.{Bytes}
use creme.Csv.Write.{Quoting, quotes_cell, is_str, csv_cell_bytes}
use creme.Value.{Value}

-- Each quote is doubled.
unfoldable pub escaped : ℕ → Bytes → Bytes
escaped quote [] = []
escaped quote (c ∷ bytes) =
    (if c == quote then quote ∷ [] else []) ++ ((c ∷ []) ++ escaped quote bytes)

abbrev pub quoted : ℕ → Bytes → Bytes
quoted quote bytes = (quote ∷ []) ++ (escaped quote bytes ++ (quote ∷ []))

abbrev pub cell_text : ℕ → Bool → Bytes → Bytes
cell_text quote needs_quote bytes = if needs_quote then quoted quote bytes else bytes

module _ (print_float : ℕ → Bytes) (sep quote : ℕ) (mode : Quoting) where
  unfoldable pub cells_text : Bool → List Value → Result Bytes
  cells_text first [] = ok []
  cells_text first (v ∷ cells) = do
    bytes ← csv_cell_bytes print_float v
    rest ← cells_text false cells
    ok (
        (if first then [] else sep ∷ [])
        ++ (cell_text quote (quotes_cell mode (is_str v) bytes sep quote) bytes ++ rest))

  unfoldable pub row_text : List Value → Result Bytes
  row_text cells = do text ← cells_text true cells; ok (text ++ (b'\n' ∷ []))

  unfoldable pub rows_text : List (List Value) → Result Bytes
  rows_text [] = ok []
  rows_text (row ∷ rows) = do text ← row_text row; rest ← rows_text rows; ok (text ++ rest)
