-- ===== src/Csv/Proofs/Total.antt =====
-- The reader of icecreme/csv.c ends on every input.
use creme.Common.{
  ℕ, zero, suc, ◌≤◌, ◌<◌, ◌≡◌, refl, sym, ap, ◌∙◌, subst, ◌⊎◌, inl, inr, true, false, ◌||◌, Option,
  none, some, List, [], ◌∷◌, length, ok, Returns, ◌==◌, Bool-cases, Option-cases, arith,
}
use creme.Csv.Parse.{
  Bytes, is_newline, quoted_cell, plain_cell, parse_cell, skip_newline, row_end, parse_cells,
  csv_parse_row, parse_rows, read_rows,
}

quoted_cell-shrinks : (quote : ℕ) (src : Bytes) → length (quoted_cell quote src).1 ≤ length src
unfolding quoted_cell
quoted_cell-shrinks quote [] = omega arith
quoted_cell-shrinks quote (c ∷ []) = elim (Bool-cases (c == quote)) [
  | inl e ↦ rw (e, quoted_cell) (omega arith)
  | inr e ↦ rw (e, quoted_cell) (omega arith)
]
quoted_cell-shrinks quote (c ∷ d ∷ src) =
    let doubled = quoted_cell-shrinks quote src in
    let inside = quoted_cell-shrinks quote (d ∷ src) in
    elim (Bool-cases (c == quote)) [
      | inl e ↦ elim (Bool-cases (d == quote)) [
        | inl e' ↦ rw (e, quoted_cell, e') (omega arith)
        | inr e' ↦ rw (e, quoted_cell, e') (omega arith)
      ]
      | inr e ↦ rw (e, quoted_cell) (omega arith)
    ]

plain_cell-shrinks : (sep : ℕ) (src : Bytes) → length (plain_cell sep src).1 ≤ length src
unfolding plain_cell
plain_cell-shrinks sep [] = omega arith
plain_cell-shrinks sep (c ∷ src) =
    let inside = plain_cell-shrinks sep src in
    elim (Bool-cases (c == sep || is_newline c)) [
      | inl e ↦ rw (e, plain_cell) (omega arith)
      | inr e ↦ rw (e, plain_cell) (omega arith)
    ]

skip_newline-shrinks : (c : ℕ) (src : Bytes) → length (skip_newline (c ∷ src)) ≤ length src
unfolding skip_newline
skip_newline-shrinks c [] = omega arith
skip_newline-shrinks c (d ∷ src) = elim (Bool-cases (c == b'\r')) [
  | inl e ↦ elim (Bool-cases (d == b'\n')) [
    | inl e' ↦ rw (e, e', skip_newline) (omega arith)
    | inr e' ↦ rw (e, e', skip_newline) (omega arith)
  ]
  | inr e ↦ rw (e, skip_newline) (omega arith)
]

some-injective : {a b : Bytes} → Path (Option Bytes) (some a) (some b) → a ≡ b
some-injective {a} e = ap (λ o. elim o [ some x ↦ x | none ↦ a ]) e

row_end-shrinks : (src rest : Bytes) → row_end src ≡ some rest → length rest ≤ length src
row_end-shrinks [] rest e = subst (λ r. length r ≤ 0) (some-injective e) (omega arith)
row_end-shrinks (c ∷ src) rest e = elim (Bool-cases (is_newline c)) [
  | inl h ↦
      let shrinks = skip_newline-shrinks c src in
      subst (λ r. length r ≤ suc (length src)) (some-injective (rw h at e)) (omega arith)
  | inr h ↦ absurd (cc (rw h at e))
]

Bytes-cases : (bytes : Bytes) → (bytes ≡ []) ⊎ ((c : ℕ) × (src : Bytes) × (bytes ≡ c ∷ src))
Bytes-cases [] = inl refl
Bytes-cases (c ∷ src) = inr (c, src, refl)

-- What is behind a cell, and behind its separator.
parse_cell-shrinks :
    (sep quote c : ℕ) (src : Bytes)
    → is_newline c ≡ false
    → (length (parse_cell sep quote (c ∷ src)).1 ≤ length src)
      ⊎ ((c == sep) ≡ true) × ((parse_cell sep quote (c ∷ src)).1 ≡ c ∷ src)
unfolding parse_cell plain_cell
parse_cell-shrinks sep quote c src line = elim (Bool-cases (c == quote)) [
  | inl e ↦ rw e (inl (quoted_cell-shrinks quote src))
  | inr e ↦ elim (Bool-cases (c == sep)) [
    | inl e' ↦ rw (e, e') (inr (refl, refl))
    | inr e' ↦ rw (e, e', line) (inl (plain_cell-shrinks sep src))
  ]
]

-- The byte that ends a cell, and what is behind it.
behind :
    (sep c : ℕ) (src left : Bytes) (term : ℕ) (after : Bytes)
    → (length left ≤ length src) ⊎ ((c == sep) ≡ true) × (left ≡ c ∷ src)
    → left ≡ term ∷ after
    → (length after ≤ length src) × ((term == sep) ≡ false → length (term ∷ after) ≤ length src)
behind sep c src left term after (inl short) e =
    let l = ap length e in (omega arith, λ h. omega arith)
behind sep c src left term after (inr (same, whole)) e =
    let l = ap length (sym whole ∙ e) in
    let first : c ≡ term = ap {A = Bytes} (λ b. elim b [ [] ↦ c | x ∷ xs ↦ x ]) (sym whole ∙ e) in
    (omega arith, λ h. absurd (cc (same, h, first)))

row_end-goes_on :
    (after : Bytes)
    → row_end after ≡ none
    → (d : ℕ) × (more : Bytes) × (after ≡ d ∷ more) × (is_newline d ≡ false)
row_end-goes_on [] e = absurd (cc e)
row_end-goes_on (d ∷ more) e = elim (Bool-cases (is_newline d)) [
  | inl h ↦ absurd (cc (rw h at e))
  | inr h ↦ (d, more, refl, h)
]

-- A row takes at least one byte.
parse_cells_total :
    (rounds sep quote c : ℕ) (src : Bytes)
    → is_newline c ≡ false
    → length (c ∷ src) < rounds
    → Returns (λ r. length r.1 ≤ length src) (parse_cells rounds sep quote (c ∷ src))
unfolding parse_cells
parse_cells_total zero sep quote c src line enough = absurd (omega arith)
parse_cells_total (suc rounds) sep quote c src line enough =
    elim (Bytes-cases (parse_cell sep quote (c ∷ src)).1) [
      | inl e ↦ rw (e, parse_cells) (_, refl, omega arith)
      | inr (term, after, e) ↦
          let (short, shorter) =
            behind sep c src _ term after (parse_cell-shrinks sep quote c src line) e in
          elim (Bool-cases (term == sep)) [
            | inl is_sep ↦ elim (Option-cases (row_end after)) [
              | inl goes_on ↦
                  let (d, more, e', line') = row_end-goes_on after goes_on in
                  let l = ap length e' in
                  let (r, e'', shrinks) =
                    parse_cells_total rounds sep quote d more line' (omega arith) in
                  rw (e, parse_cells, is_sep, goes_on, e', e'') (_, refl, omega arith)
              | inr (rest, ends) ↦
                  let shrinks = row_end-shrinks after rest ends in
                  rw (e, parse_cells, is_sep, ends) (_, refl, omega arith)
            ]
            | inr not_sep ↦ elim (Bool-cases (is_newline term)) [
              | inl ends ↦
                  let shrinks = skip_newline-shrinks term after in
                  rw (e, parse_cells, not_sep, ends) (_, refl, omega arith)
              | inr goes_on ↦ rw (e, parse_cells, not_sep, goes_on) (_, refl, shorter not_sep)
            ]
          ]
    ]

csv_parse_row_total :
    (sep quote c : ℕ) (src : Bytes)
    → (r : List Bytes × Bytes) × (csv_parse_row sep quote (c ∷ src) ≡ ok (some r))
      × (length r.1 ≤ length src)
unfolding csv_parse_row
csv_parse_row_total sep quote c src = elim (Bool-cases (is_newline c)) [
  | inl e ↦ rw e (_, refl, skip_newline-shrinks c src)
  | inr e ↦
      let (r, e', shrinks) =
        parse_cells_total (suc (length (c ∷ src))) sep quote c src e (omega arith) in
      rw (e, e') (r, refl, shrinks)
]

csv_parse_row-end : (sep quote : ℕ) → csv_parse_row sep quote [] ≡ ok none
unfolding csv_parse_row
csv_parse_row-end sep quote = refl

parse_rows_total :
    (rounds sep quote : ℕ) (src : Bytes)
    → length src < rounds
    → Returns (λ rows. length rows ≤ length src) (parse_rows rounds sep quote src)
unfolding parse_rows
parse_rows_total zero sep quote src enough = absurd (omega arith)
parse_rows_total (suc rounds) sep quote [] enough =
    rw (csv_parse_row-end sep quote) ([], refl, omega arith)
parse_rows_total (suc rounds) sep quote (c ∷ src) enough =
    let (r, e, shrinks) = csv_parse_row_total sep quote c src in
    let (rows, e', few) = parse_rows_total rounds sep quote r.1 (omega arith) in
    rw (e, e') (_, refl, omega arith)

-- Reading ends on every input, whatever the separator and the quote are, with at most one row for
-- each byte.
pub read_rows_total :
    (sep quote : ℕ) (src : Bytes)
    → Returns (λ rows. length rows ≤ length src) (read_rows sep quote src)
unfolding read_rows
read_rows_total sep quote src = parse_rows_total (suc (length src)) sep quote src (omega arith)
