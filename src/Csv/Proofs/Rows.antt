-- ===== src/Csv/Proofs/Rows.antt =====
-- The row parser of icecreme/csv.c reads back the lines that are made of the texts of cells.
use creme.Common.{
  ℕ, zero, suc, ◌≤◌, ◌<◌, ◌≡◌, refl, sym, ap, ◌∙◌, Bool, true, false, none, some, List, [], ◌∷◌,
  ◌++◌, append_assoc, length, length-append, ok, ◌==◌, if◌then◌else◌, arith,
}
use creme.Csv.Parse.{
  Bytes, is_newline, plain_cell, parse_cell, skip_newline, parse_cells, csv_parse_row, parse_rows,
  read_rows,
}
use creme.Csv.Proofs.Cells.{IsDialect, stops, IsCellText}

module _ {sep quote : ℕ} (d : IsDialect sep quote) where
  -- The texts of cells, and the cells.
  pub data AreCells : List Bytes → List Bytes → Type 0 where
    no_cells : AreCells [] []
    more_cells :
        {t c : Bytes} {ts cs : List Bytes}
        → IsCellText sep quote t c
        → AreCells ts cs
        → AreCells (t ∷ ts) (c ∷ cs)

  abbrev pub joined : Bool → List Bytes → Bytes
  joined first [] = []
  joined first (t ∷ ts) = (if first then [] else sep ∷ []) ++ (t ++ joined false ts)

  length-joined : (ts : List Bytes) → length ts ≤ length (joined false ts)
  length-joined [] = omega arith
  length-joined (t ∷ ts) = omega (arith, length-joined ts, length-append t (joined false ts))

  pub newline-not-sep : (b'\n' == sep) ≡ false
  newline-not-sep = let l = d.line_sep in grind arith

  newline-not-quote : (b'\n' == quote) ≡ false
  newline-not-quote = let l = d.line_quote in grind arith

  sep-stops : stops sep sep ≡ true
  sep-stops = grind arith

  pub newline-stops : stops sep b'\n' ≡ true
  newline-stops = rw newline-not-sep refl

  skip_newline_lem : (rest : Bytes) → skip_newline (b'\n' ∷ rest) ≡ rest
  unfolding skip_newline
  skip_newline_lem [] = refl
  skip_newline_lem (c ∷ rest) = refl

  empty_cell : parse_cell sep quote (b'\n' ∷ []) ≡ ([], b'\n' ∷ [])
  unfolding parse_cell plain_cell
  empty_cell = rw (newline-not-quote, newline-not-sep) refl

  -- A cell with no text is empty.
  empty_text : (c : Bytes) → IsCellText sep quote [] c → c ≡ []
  empty_text c t =
      ap {A = Bytes × Bytes} (λ r. r.0) (sym (t.reads b'\n' [] newline-stops) ∙ empty_cell)

  -- The last cell of a row.
  pub last_cell :
      (t c : Bytes) (rounds : ℕ) (rest : Bytes)
      → IsCellText sep quote t c
      → parse_cells (suc rounds) sep quote (t ++ (b'\n' ∷ rest)) ≡ ok (c ∷ [], rest)
  unfolding parse_cells
  last_cell t c rounds rest text =
      let cell = text.reads b'\n' rest newline-stops in
      rw (cell, newline-not-sep, parse_cells, skip_newline_lem rest, cell) refl

  -- A cell before another one, whose row does not end here.
  inner_cell :
      (t c : Bytes) (rounds : ℕ) (x : ℕ) (after : Bytes) (r : List Bytes × Bytes)
      → IsCellText sep quote t c
      → is_newline x ≡ false
      → parse_cells rounds sep quote (x ∷ after) ≡ ok r
      → parse_cells (suc rounds) sep quote (t ++ (sep ∷ x ∷ after)) ≡ ok (c ∷ r.0, r.1)
  unfolding parse_cells
  inner_cell t c rounds x after r text line h =
      let q : (sep == sep) ≡ true = ground arith in
      let cell = text.reads sep (x ∷ after) sep-stops in
      rw (cell, q, parse_cells, line, h, cell) refl

  -- An empty last cell.
  trailing_cell :
      (t c : Bytes) (rounds : ℕ) (rest : Bytes)
      → IsCellText sep quote t c
      → parse_cells (suc rounds) sep quote (t ++ (sep ∷ b'\n' ∷ rest)) ≡ ok (c ∷ [] ∷ [], rest)
  unfolding parse_cells
  trailing_cell t c rounds rest text =
      let q : (sep == sep) ≡ true = ground arith in
      let cell = text.reads sep (b'\n' ∷ rest) sep-stops in
      rw (cell, q, parse_cells, skip_newline_lem rest, cell) refl

  parse_cells_lem :
      (t c : Bytes) (ts cs : List Bytes) (rounds : ℕ) (rest : Bytes)
      → IsCellText sep quote t c
      → AreCells ts cs
      → length ts < rounds
      → parse_cells rounds sep quote (t ++ (joined false ts ++ (b'\n' ∷ rest))) ≡ ok (c ∷ cs, rest)
  parse_cells_lem t c ts cs zero rest text texts enough = absurd (omega arith)
  parse_cells_lem t c [] _ (suc rounds) rest text no_cells enough = last_cell t c rounds rest text
  parse_cells_lem t c ([] ∷ []) _ (suc rounds) rest text (more_cells {c = c'} text' no_cells)
        enough =
      rw (empty_text c' text') (trailing_cell t c rounds rest text)
  parse_cells_lem t c ([] ∷ u ∷ ts) _ (suc rounds) rest text (more_cells {c = c'} {cs} text' texts)
        enough =
      inner_cell t c rounds sep _ (c' ∷ cs, rest) text d.line_sep
        (parse_cells_lem [] c' (u ∷ ts) cs rounds rest text' texts (omega arith))
  parse_cells_lem t c ((x ∷ t') ∷ ts) _ (suc rounds) rest text
        (more_cells {c = c'} {cs} text' texts) enough =
      rw (append_assoc t' (joined false ts) (b'\n' ∷ rest)) (
        inner_cell t c rounds x _ (c' ∷ cs, rest) text text'.starts
          (parse_cells_lem (x ∷ t') c' ts cs rounds rest text' texts (omega arith)))

  -- The line of a row.
  abbrev pub line : List Bytes → Bytes
  line ts = joined true ts ++ (b'\n' ∷ [])

  -- One empty cell, whose line is blank.
  abbrev pub blank : List Bytes → Bool
  blank ([] ∷ []) = true
  blank _ = false

  -- The row parser on a text that does not begin with a newline.
  pub csv_parse_row-cells :
      (x : ℕ) (src : Bytes) (r : List Bytes × Bytes)
      → is_newline x ≡ false
      → parse_cells (suc (length (x ∷ src))) sep quote (x ∷ src) ≡ ok r
      → csv_parse_row sep quote (x ∷ src) ≡ ok (some r)
  unfolding csv_parse_row
  csv_parse_row-cells x src r h e = rw (h, e) refl

  -- A line and what is behind it, as the cell parser takes them apart.
  abbrev opened : Bytes → List Bytes → Bytes → Bytes
  opened t ts rest = t ++ (joined false ts ++ (b'\n' ∷ rest))

  line-opened :
      (t : Bytes) (ts : List Bytes) (rest : Bytes) → line (t ∷ ts) ++ rest ≡ opened t ts rest
  line-opened t ts rest =
      append_assoc (t ++ joined false ts) (b'\n' ∷ []) rest
      ∙ append_assoc t (joined false ts) (b'\n' ∷ rest)

  enough_rounds :
      (t : Bytes) (ts : List Bytes) (rest : Bytes) → length ts < suc (length (opened t ts rest))
  enough_rounds t ts rest = omega (
    arith,
    length-joined ts,
    length-append t (joined false ts ++ (b'\n' ∷ rest)),
    length-append (joined false ts) (b'\n' ∷ rest),
  )

  pub csv_parse_row_lem :
      (ts cs : List Bytes) (rest : Bytes)
      → AreCells ts cs
      → blank ts ≡ false
      → csv_parse_row sep quote (line ts ++ rest) ≡ ok (some (cs, rest))
  unfolding csv_parse_row
  csv_parse_row_lem [] _ rest no_cells b = rw (skip_newline_lem rest) refl
  csv_parse_row_lem ([] ∷ []) _ rest texts b = absurd (cc b)
  csv_parse_row_lem ([] ∷ u ∷ ts) _ rest (more_cells {c} {cs} text texts) b =
      ap (csv_parse_row sep quote) (line-opened [] (u ∷ ts) rest)
      ∙ (csv_parse_row-cells sep _ (c ∷ cs, rest) d.line_sep
          (parse_cells_lem [] c (u ∷ ts) cs _ rest text texts (enough_rounds [] (u ∷ ts) rest)))
  csv_parse_row_lem ((x ∷ t) ∷ ts) _ rest (more_cells {c} {cs} text texts) b =
      ap (csv_parse_row sep quote) (line-opened (x ∷ t) ts rest)
      ∙ (csv_parse_row-cells x _ (c ∷ cs, rest) text.starts
          (parse_cells_lem (x ∷ t) c ts cs _ rest text texts (enough_rounds (x ∷ t) ts rest)))

  -- The texts of rows, and the rows.
  pub data AreRows : List (List Bytes) → List (List Bytes) → Type 0 where
    no_rows : AreRows [] []
    more_rows :
        {ts cs : List Bytes} {tss css : List (List Bytes)}
        → AreCells ts cs
        → blank ts ≡ false
        → AreRows tss css
        → AreRows (ts ∷ tss) (cs ∷ css)

  abbrev pub lines : List (List Bytes) → Bytes
  lines [] = []
  lines (ts ∷ tss) = line ts ++ lines tss

  length-lines : (tss : List (List Bytes)) → length tss ≤ length (lines tss)
  length-lines [] = omega arith
  length-lines (ts ∷ tss) = omega (
    arith,
    length-lines tss,
    length-append (line ts) (lines tss),
    length-append (joined true ts) (b'\n' ∷ []),
  )

  pub csv_parse_row-end : csv_parse_row sep quote [] ≡ ok none
  unfolding csv_parse_row
  csv_parse_row-end = refl

  pub parse_rows_lem :
      (rounds : ℕ) (tss css : List (List Bytes))
      → AreRows tss css
      → length tss < rounds
      → parse_rows rounds sep quote (lines tss) ≡ ok css
  unfolding parse_rows
  parse_rows_lem zero tss css rows enough = absurd (omega arith)
  parse_rows_lem (suc rounds) [] _ no_rows enough = rw csv_parse_row-end refl
  parse_rows_lem (suc rounds) (ts ∷ tss) _ (more_rows {cs} {css} cells full rows) enough =
      rw
        (
          csv_parse_row_lem ts cs (lines tss) cells full,
          parse_rows_lem rounds tss css rows (omega arith),
        )
        refl

  pub read_rows-lines :
      (tss css : List (List Bytes)) → AreRows tss css → read_rows sep quote (lines tss) ≡ ok css
  unfolding read_rows
  read_rows-lines tss css rows =
      parse_rows_lem (suc (length (lines tss))) tss css rows (omega (arith, length-lines tss))
