-- ===== src/Csv/Proofs/RoundTrip.antt =====
-- What the writer of icecreme/csv.c makes of rows of strings, its reader reads back.
use creme.Common.{
  ℕ, ◌≤◌, ◌≡◌, refl, ap, ◌∙◌, subst, inl, inr, Bool, true, false, not, ◌&&◌, ◌||◌, List, [], ◌∷◌,
  map, Result, ok, Returns, length, Bool-cases, arith,
}
use creme.Csv.Parse.{Bytes, read_rows}
use creme.Csv.Proofs.Buffer.{limit, Appends, appended}
use creme.Csv.Proofs.Cells.{
  IsDialect, IsCellText, no_return, and-true, not-true, quoted-IsCellText, plain-IsCellText,
}
use creme.Csv.Proofs.Rows.{
  AreCells, no_cells, more_cells, AreRows, no_rows, more_rows, joined, line, lines, blank,
  read_rows-lines,
}
use creme.Csv.Proofs.Writer.{write_rows_lem}
use creme.Csv.Spec.{cell_text, cells_text, row_text, rows_text}
use creme.Csv.Write.{
  DynBuf, empty_buf, Quoting, no_quoting, rfc, all, quotes_cell, csv_bytes_need_rfc_quote,
  csv_cell_bytes, write_rows,
}
use creme.Value.{str}

module _ (sep quote : ℕ) where
  -- Whether a cell reads back: a carriage return needs quotes, which the mode `rfc` writes only for
  -- the other special bytes.
  abbrev pub is_readable : Quoting → Bytes → Bool
  is_readable all cell = true
  is_readable rfc cell = csv_bytes_need_rfc_quote cell sep quote || no_return cell
  is_readable no_quoting cell = not (csv_bytes_need_rfc_quote cell sep quote) && no_return cell

  abbrev pub all_readable : Quoting → List Bytes → Bool
  all_readable mode [] = true
  all_readable mode (cell ∷ cells) = is_readable mode cell && all_readable mode cells

  -- A row of one empty cell is a blank line, unless the cell is quoted.
  abbrev pub is_visible : Quoting → List Bytes → Bool
  is_visible all row = true
  is_visible _ ([] ∷ []) = false
  is_visible _ row = true

  abbrev pub rows_readable : Quoting → List (List Bytes) → Bool
  rows_readable mode [] = true
  rows_readable mode (row ∷ rows) =
      (all_readable mode row && is_visible mode row) && rows_readable mode rows

  -- The text of a string cell.
  abbrev pub text_of : Quoting → Bytes → Bytes
  text_of mode cell = cell_text quote (quotes_cell mode true cell sep quote) cell

  text_of-IsCellText :
      (d : IsDialect sep quote) (mode : Quoting) (cell : Bytes)
      → is_readable mode cell ≡ true
      → IsCellText sep quote (text_of mode cell) cell
  text_of-IsCellText d all cell h = quoted-IsCellText cell d
  text_of-IsCellText d rfc cell h = elim (Bool-cases (csv_bytes_need_rfc_quote cell sep quote)) [
    | inl e ↦ rw e (quoted-IsCellText cell d)
    | inr e ↦ rw e (plain-IsCellText cell d e (subst (λ b. (b || no_return cell) ≡ true) e h))
  ]
  text_of-IsCellText d no_quoting cell h =
      let (unquoted, line) =
        and-true (not (csv_bytes_need_rfc_quote cell sep quote)) (no_return cell) h in
      plain-IsCellText cell d (not-true _ unquoted) line

  texts-AreCells :
      (d : IsDialect sep quote) (mode : Quoting) (cells : List Bytes)
      → all_readable mode cells ≡ true
      → AreCells d (map (text_of mode) cells) cells
  texts-AreCells d mode [] h = no_cells
  texts-AreCells d mode (cell ∷ cells) h =
      let (here, rest) = and-true (is_readable mode cell) (all_readable mode cells) h in
      more_cells (text_of-IsCellText d mode cell here) (texts-AreCells d mode cells rest)

  one_cell :
      (d : IsDialect sep quote) (needs_quote : Bool) (c : ℕ) (cell : Bytes)
      → blank d (cell_text quote needs_quote (c ∷ cell) ∷ []) ≡ false
  one_cell d true c cell = refl
  one_cell d false c cell = refl

  two_cells :
      (d : IsDialect sep quote) (t u : Bytes) (ts : List Bytes) → blank d (t ∷ u ∷ ts) ≡ false
  two_cells d [] u ts = refl
  two_cells d (c ∷ t) u ts = refl

  texts-visible :
      (d : IsDialect sep quote) (mode : Quoting) (cells : List Bytes)
      → is_visible mode cells ≡ true
      → blank d (map (text_of mode) cells) ≡ false
  unfolding csv_bytes_need_rfc_quote
  texts-visible d mode [] h = refl
  texts-visible d all (cell ∷ []) h = refl
  texts-visible d rfc ([] ∷ []) h = absurd (cc h)
  texts-visible d rfc ((c ∷ cell) ∷ []) h =
      one_cell d (csv_bytes_need_rfc_quote (c ∷ cell) sep quote) c cell
  texts-visible d no_quoting ([] ∷ []) h = absurd (cc h)
  texts-visible d no_quoting ((c ∷ cell) ∷ []) h = refl
  texts-visible d mode (cell ∷ cell' ∷ cells) h =
      two_cells d (text_of mode cell) (text_of mode cell') (map (text_of mode) cells)

  texts-AreRows :
      (d : IsDialect sep quote) (mode : Quoting) (rows : List (List Bytes))
      → rows_readable mode rows ≡ true
      → AreRows d (map (map (text_of mode)) rows) rows
  texts-AreRows d mode [] h = no_rows
  texts-AreRows d mode (row ∷ rows) h =
      let (here, rest) =
        and-true (all_readable mode row && is_visible mode row) (rows_readable mode rows) h in
      let (readable, visible) = and-true (all_readable mode row) (is_visible mode row) here in
      more_rows (texts-AreCells d mode row readable) (texts-visible d mode row visible)
        (texts-AreRows d mode rows rest)

  module _ (print_float : ℕ → Bytes) (d : IsDialect sep quote) (mode : Quoting) where
    cells_text-joined :
        (first : Bool) (cells : List Bytes)
        → cells_text print_float sep quote mode first (map str cells)
          ≡ ok (joined d first (map (text_of mode) cells))
    unfolding cells_text csv_cell_bytes
    cells_text-joined first [] = refl
    cells_text-joined first (cell ∷ cells) = rw (cells_text-joined false cells) refl

    pub rows_text-lines :
        (rows : List (List Bytes))
        → rows_text print_float sep quote mode (map (map str) rows)
          ≡ ok (lines d (map (map (text_of mode)) rows))
    unfolding rows_text row_text
    rows_text-lines [] = refl
    rows_text-lines (row ∷ rows) = rw (cells_text-joined true row, rows_text-lines rows) refl

    pub returned :
        (rows : List (List Bytes)) (text : Bytes) (r : Result DynBuf)
        → read_rows sep quote text ≡ ok rows
        → Appends empty_buf text r
        → Returns (λ b. read_rows sep quote b.buf ≡ ok rows) r
    returned rows text _ e (appended b inside e') = (b, refl, ap (read_rows sep quote) e' ∙ e)

    -- Rows of string cells that the writer appends to an empty buffer are read back from it, in
    -- every quoting mode and for every separator and quote that differ and are no newlines, if the
    -- text is no longer than 2 ^ 30 bytes: the mode all has no condition on the rows, in the mode
    -- rfc a cell with a carriage return holds another special byte, in the mode none no cell holds
    -- a special byte, and in both no row is one empty cell.
    pub read_rows-write_rows :
        (rows : List (List Bytes))
        → rows_readable mode rows ≡ true
        → length (lines d (map (map (text_of mode)) rows)) ≤ limit
        → Returns
            (λ b. read_rows sep quote b.buf ≡ ok rows)
            (write_rows print_float empty_buf (map (map str) rows) sep quote mode)
    read_rows-write_rows rows readable fits =
        let text = lines d (map (map (text_of mode)) rows) in
        returned rows text _ (read_rows-lines d _ rows (texts-AreRows d mode rows readable)) (
          write_rows_lem print_float sep quote mode (map (map str) rows) text empty_buf
            (rows_text-lines rows) (omega arith, omega arith) (omega arith))
