-- ===== src/Csv/Proofs/Cells.antt =====
-- The cell parser of icecreme/csv.c reads back the text of a cell.
use creme.Common.{
  ℕ, ◌≡◌, refl, sym, ap, inl, inr, Bool, true, false, not, ◌&&◌, ◌||◌, [], ◌∷◌, ◌++◌, append_assoc,
  ◌==◌, Bool-cases, arith,
}
use creme.Csv.Parse.{Bytes, is_newline, push, quoted_cell, plain_cell, parse_cell}
use creme.Csv.Spec.{escaped, quoted}
use creme.Csv.Write.{csv_bytes_need_rfc_quote}

-- A byte that ends a cell.
abbrev pub stops : ℕ → ℕ → Bool
stops sep c = c == sep || is_newline c

-- Separator and quote are different, and no newlines.
pub record IsDialect (sep quote : ℕ) : Type 0 where
  pub apart : (sep == quote) ≡ false
  pub line_sep : is_newline sep ≡ false
  pub line_quote : is_newline quote ≡ false

-- Whether a text begins with a newline.
abbrev pub starts_line : Bytes → Bool
starts_line [] = false
starts_line (c ∷ bytes) = is_newline c

-- What the parser reads from the text, before any byte that ends it, is the cell.
pub record IsCellText (sep quote : ℕ) (text cell : Bytes) : Type 0 where
  pub reads :
      (term : ℕ) (after : Bytes)
      → stops sep term ≡ true
      → parse_cell sep quote (text ++ (term ∷ after)) ≡ (cell, term ∷ after)
  pub starts : starts_line text ≡ false

or-false : (a b : Bool) → (a || b) ≡ false → (a ≡ false) × (b ≡ false)
or-false true b e = absurd (cc e)
or-false false b e = (refl, e)

stop-not-quote :
    {sep quote : ℕ} (c : ℕ) → IsDialect sep quote → stops sep c ≡ true → (c == quote) ≡ false
stop-not-quote {sep} {quote} c d h = grind arith

-- A byte other than the quote goes to the cell, whatever follows.
quoted_cell-byte :
    (quote c : ℕ) (src : Bytes)
    → (c == quote) ≡ false
    → quoted_cell quote (c ∷ src) ≡ push c (quoted_cell quote src)
unfolding quoted_cell
quoted_cell-byte quote c [] e = rw (e, quoted_cell) refl
quoted_cell-byte quote c (d ∷ src) e = rw (e, quoted_cell) refl

quoted_cell-escaped :
    (quote : ℕ) (bytes : Bytes) (term : ℕ) (after : Bytes)
    → (term == quote) ≡ false
    → quoted_cell quote (escaped quote bytes ++ (quote ∷ term ∷ after)) ≡ (bytes, term ∷ after)
unfolding quoted_cell escaped
quoted_cell-escaped quote [] term after h =
    let q : (quote == quote) ≡ true = ground arith in rw (q, h, quoted_cell) refl
quoted_cell-escaped quote (c ∷ bytes) term after h =
    let q : (quote == quote) ≡ true = ground arith in
    elim (Bool-cases (c == quote)) [
      | inl e ↦
          let same : c ≡ quote = ground arith in
          rw (e, q, quoted_cell, e, quoted_cell-escaped quote bytes term after h)
            (ap (λ x. (x ∷ bytes, term ∷ after)) (sym same))
      | inr e ↦
          rw
            (
              e,
              quoted_cell-byte quote c (escaped quote bytes ++ (quote ∷ term ∷ after)) e,
              quoted_cell-escaped quote bytes term after h,
            )
            refl
    ]

-- Whether no byte of the cell ends a cell.
abbrev pub is_plain : ℕ → Bytes → Bool
is_plain sep [] = true
is_plain sep (c ∷ bytes) = not (stops sep c) && is_plain sep bytes

pub and-true : (a b : Bool) → (a && b) ≡ true → (a ≡ true) × (b ≡ true)
and-true true b e = (refl, e)
and-true false b e = absurd (cc e)

pub not-true : (a : Bool) → not a ≡ true → a ≡ false
not-true true e = absurd (cc e)
not-true false e = refl

plain_cell_lem :
    (sep : ℕ) (bytes : Bytes) (term : ℕ) (after : Bytes)
    → is_plain sep bytes ≡ true
    → stops sep term ≡ true
    → plain_cell sep (bytes ++ (term ∷ after)) ≡ (bytes, term ∷ after)
unfolding plain_cell
plain_cell_lem sep [] term after plain h = rw (h, plain_cell) refl
plain_cell_lem sep (c ∷ bytes) term after plain h =
    let (here, rest) = and-true (not (stops sep c)) (is_plain sep bytes) plain in
    rw (not-true (stops sep c) here, plain_cell, plain_cell_lem sep bytes term after rest h) refl

-- A quoted cell reads back, whatever its bytes are.
pub quoted-IsCellText :
    {sep quote : ℕ} (bytes : Bytes)
    → IsDialect sep quote
    → IsCellText sep quote (quoted quote bytes) bytes
unfolding parse_cell
quoted-IsCellText {sep} {quote} bytes d = record {
  reads = λ term after h.
      let q : (quote == quote) ≡ true = ground arith in
      rw
        (
          q,
          append_assoc (escaped quote bytes) (quote ∷ []) (term ∷ after),
          quoted_cell-escaped quote bytes term after (stop-not-quote term d h),
        )
        refl;
  starts = d.line_quote;
}

-- Whether the cell has no carriage return.
abbrev pub no_return : Bytes → Bool
no_return [] = true
no_return (c ∷ bytes) = not (c == b'\r') && no_return bytes

no_quote_needed-is_plain :
    (sep quote : ℕ) (bytes : Bytes)
    → csv_bytes_need_rfc_quote bytes sep quote ≡ false
    → no_return bytes ≡ true
    → is_plain sep bytes ≡ true
unfolding csv_bytes_need_rfc_quote
no_quote_needed-is_plain sep quote [] rfc line = refl
no_quote_needed-is_plain sep quote (c ∷ bytes) rfc line =
    let (here, rest) = or-false (c == sep || c == quote || c == b'\n') _ rfc in
    let (not_return, rest_line) = and-true (not (c == b'\r')) (no_return bytes) line in
    let stop : stops sep c ≡ false = grind arith in
    rw (stop, no_quote_needed-is_plain sep quote bytes rest rest_line) refl

-- A cell that is written with no quotes reads back if it has no carriage return.
pub plain-IsCellText :
    {sep quote : ℕ} (bytes : Bytes)
    → IsDialect sep quote
    → csv_bytes_need_rfc_quote bytes sep quote ≡ false
    → no_return bytes ≡ true
    → IsCellText sep quote bytes bytes
unfolding parse_cell csv_bytes_need_rfc_quote
plain-IsCellText {sep} {quote} [] d rfc line = record {
  reads =
      λ term after h. rw (stop-not-quote term d h, plain_cell_lem sep [] term after refl h) refl;
  starts = refl;
}
plain-IsCellText {sep} {quote} (c ∷ bytes) d rfc line =
    let plain = no_quote_needed-is_plain sep quote (c ∷ bytes) rfc line in
    let (here, rest) = or-false (c == sep || c == quote || c == b'\n') _ rfc in
    let (not_return, rest_line) = and-true (not (c == b'\r')) (no_return bytes) line in
    let unquoted : (c == quote) ≡ false = grind arith in
    record {
      reads = λ term after h. rw (unquoted, plain_cell_lem sep (c ∷ bytes) term after plain h) refl;
      starts = grind arith;
    }
