-- ===== src/Csv/Proofs/CarriageReturn.antt =====
-- A carriage return ends a line for the reader of icecreme/csv.c, and the writer does not quote it.
use creme.Common.{
  ℕ, ◌<◌, ◌≡◌, refl, sym, ap, ◌∙◌, true, false, some, [], ◌∷◌, ◌++◌, append_assoc, append-nil, List,
  Result, length, length-append, ok, Returns, ◌==◌, arith,
}
use creme.Csv.Parse.{Bytes, skip_newline, parse_cells, csv_parse_row, parse_rows, read_rows}
use creme.Csv.Proofs.Buffer.{limit, Appends, appended}
use creme.Csv.Proofs.Cells.{IsDialect, IsCellText, stops}
use creme.Csv.Proofs.RoundTrip.{text_of, rows_text-lines}
use creme.Csv.Proofs.Rows.{
  no_cells, more_cells, lines, csv_parse_row-cells, no_rows, more_rows, parse_rows_lem,
}
use creme.Csv.Proofs.Writer.{write_rows_lem}
use creme.Csv.Write.{DynBuf, empty_buf, rfc, csv_bytes_need_rfc_quote, write_rows}
use creme.Value.{str}

module _ {sep quote : ℕ} (d : IsDialect sep quote) where
  return-not-sep : (b'\r' == sep) ≡ false
  return-not-sep = let l = d.line_sep in grind arith

  return-stops : stops sep b'\r' ≡ true
  return-stops = rw return-not-sep refl

  -- The row that a carriage return ends.
  first_row :
      (c : ℕ) (x : Bytes) (e : ℕ) (after : Bytes)
      → IsCellText sep quote (c ∷ x) (c ∷ x)
      → (e == b'\n') ≡ false
      → csv_parse_row sep quote ((c ∷ x) ++ (b'\r' ∷ e ∷ after))
        ≡ ok (some ((c ∷ x) ∷ [], e ∷ after))
  unfolding parse_cells skip_newline
  first_row c x e after text h =
      let cell = text.reads b'\r' (e ∷ after) return-stops in
      csv_parse_row-cells d c _ ((c ∷ x) ∷ [], e ∷ after) text.starts
        (rw (cell, return-not-sep, parse_cells, h, cell) refl)

  one_line : (t : Bytes) → lines d ((t ∷ []) ∷ []) ≡ t ++ (b'\n' ∷ [])
  one_line t = rw (append-nil t, append-nil (t ++ (b'\n' ∷ []))) refl

  -- The row behind it.
  last_row :
      (e : ℕ) (y : Bytes) (rounds : ℕ)
      → IsCellText sep quote (e ∷ y) (e ∷ y)
      → 1 < rounds
      → parse_rows rounds sep quote (e ∷ (y ++ (b'\n' ∷ []))) ≡ ok (((e ∷ y) ∷ []) ∷ [])
  last_row e y rounds text enough =
      ap (parse_rows rounds sep quote) (sym (one_line (e ∷ y)))
      ∙ parse_rows_lem d rounds (((e ∷ y) ∷ []) ∷ []) (((e ∷ y) ∷ []) ∷ [])
          (more_rows (more_cells text no_cells) refl no_rows) enough

  two_rows :
      (c : ℕ) (x : Bytes) (e : ℕ) (y : Bytes)
      → IsCellText sep quote (c ∷ x) (c ∷ x)
      → IsCellText sep quote (e ∷ y) (e ∷ y)
      → read_rows sep quote ((c ∷ x) ++ (b'\r' ∷ e ∷ (y ++ (b'\n' ∷ []))))
        ≡ ok (((c ∷ x) ∷ []) ∷ ((e ∷ y) ∷ []) ∷ [])
  unfolding read_rows parse_rows
  two_rows c x e y text text' =
      let l = text'.starts in
      let h : (e == b'\n') ≡ false = grind arith in
      let rounds = length ((c ∷ x) ++ (b'\r' ∷ e ∷ (y ++ (b'\n' ∷ [])))) in
      let more : 1 < rounds = omega (arith, length-append x (b'\r' ∷ e ∷ (y ++ (b'\n' ∷ [])))) in
      rw (first_row c x e (y ++ (b'\n' ∷ [])) text h, last_row e y rounds text' more) refl

  as_written :
      (text : Bytes) (r : Result DynBuf) {cell : Bytes} {rows : List (List Bytes)}
      → text ≡ cell
      → read_rows sep quote text ≡ ok rows
      → Appends empty_buf text r
      → Returns (λ b. (b.buf ≡ cell) × (read_rows sep quote b.buf ≡ ok rows)) r
  as_written text _ is e (appended b inside e') =
      (b, refl, (e' ∙ is, ap (read_rows sep quote) e' ∙ e))

  -- In the mode rfc, with a separator and a quote that differ and are no newlines, a cell of two
  -- parts with a carriage return between them, each of which reads back as a cell, is written as
  -- it is, with no quotes, if it holds nothing that the mode quotes and is shorter than 2 ^ 30
  -- bytes, and is read back as two rows of one part each.
  pub carriage_return_splits :
      (print_float : ℕ → Bytes) (c : ℕ) (x : Bytes) (e : ℕ) (y : Bytes)
      → IsCellText sep quote (c ∷ x) (c ∷ x)
      → IsCellText sep quote (e ∷ y) (e ∷ y)
      → csv_bytes_need_rfc_quote ((c ∷ x) ++ (b'\r' ∷ e ∷ y)) sep quote ≡ false
      → length ((c ∷ x) ++ (b'\r' ∷ e ∷ y)) < limit
      → Returns
          (λ b.
            (b.buf ≡ ((c ∷ x) ++ (b'\r' ∷ e ∷ y)) ++ (b'\n' ∷ []))
            × (read_rows sep quote b.buf ≡ ok (((c ∷ x) ∷ []) ∷ ((e ∷ y) ∷ []) ∷ [])))
          (write_rows print_float empty_buf
            ((str ((c ∷ x) ++ (b'\r' ∷ e ∷ y)) ∷ []) ∷ [])
            sep
            quote
            rfc)
  carriage_return_splits print_float c x e y text text' unquoted fits =
      let cell = (c ∷ x) ++ (b'\r' ∷ e ∷ y) in
      let written = lines d ((text_of sep quote rfc cell ∷ []) ∷ []) in
      let as_is : text_of sep quote rfc cell ≡ cell = rw unquoted refl in
      let whole : written ≡ cell ++ (b'\n' ∷ []) =
        ap (λ t. lines d ((t ∷ []) ∷ [])) as_is ∙ one_line cell in
      let l = ap length whole in
      let apart : cell ++ (b'\n' ∷ []) ≡ (c ∷ x) ++ (b'\r' ∷ e ∷ (y ++ (b'\n' ∷ []))) =
        append_assoc (c ∷ x) (b'\r' ∷ e ∷ y) (b'\n' ∷ []) in
      as_written written _ whole
        (ap (read_rows sep quote) (whole ∙ apart) ∙ two_rows c x e y text text')
        (write_rows_lem print_float sep quote rfc ((str cell ∷ []) ∷ []) written empty_buf
          (rows_text-lines sep quote print_float d rfc ((cell ∷ []) ∷ []))
          (omega arith, omega arith) (omega (arith, length-append cell (b'\n' ∷ []))))
