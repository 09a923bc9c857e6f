-- ===== src/Csv/Proofs/Writer.antt =====
-- The writer of icecreme/csv.c makes the text of the rows, while it fits into the buffer.
use creme.Common.{
  ℕ, ◌+◌, ◌≤◌, ◌≡◌, refl, sym, ap, subst, Bool, true, false, List, [], ◌∷◌, ◌++◌, append-nil,
  Result, ok, fail, ◌>>=◌, length, length-append, ◌==◌, if◌then◌else◌, arith,
}
use creme.Csv.Parse.{Bytes}
use creme.Csv.Proofs.Buffer.{limit, IsBuf, Appends, appended, Appends-bind, dynbuf_append_lem}
use creme.Csv.Spec.{escaped, cell_text, cells_text, row_text, rows_text}
use creme.Csv.Write.{
  DynBuf, Quoting, quotes_cell, is_str, dynbuf_append, append_escaped, append_cell, csv_cell_bytes,
  append_cells, csv_write_row, write_rows,
}
use creme.Value.{Value}

-- The bytes fit behind those of the buffer.
abbrev pub Fits : DynBuf → Bytes → Type 0
Fits b bytes = length b.buf + length bytes ≤ limit

Fits-rest : (b b' : DynBuf) (xs ys : Bytes) → Fits b (xs ++ ys) → b'.buf ≡ b.buf ++ xs → Fits b' ys
Fits-rest b b' xs ys fits e =
    subst (λ bytes. length bytes + length ys ≤ limit) (sym e)
      (omega (arith, length-append b.buf xs, length-append xs ys))

Fits-front : (b : DynBuf) (xs ys : Bytes) → Fits b (xs ++ ys) → Fits b xs
Fits-front b xs ys fits = omega (arith, length-append xs ys)

-- One step of the writer and those behind it.
step :
    {b : DynBuf} (xs ys : Bytes) {m : Result DynBuf} (k : DynBuf → Result DynBuf)
    → Fits b (xs ++ ys)
    → (Fits b xs → Appends b xs m)
    → ((b' : DynBuf) → IsBuf b' → Fits b' ys → Appends b' ys (k b'))
    → Appends b (xs ++ ys) (m >>= k)
step {b} xs ys k fits first rest =
    Appends-bind k (first (Fits-front b xs ys fits))
      (λ b' inside e. rest b' inside (Fits-rest b b' xs ys fits e))

-- Nothing to append.
nothing : (b : DynBuf) → IsBuf b → Appends b [] (ok b)
nothing b inside = appended b inside (sym (append-nil b.buf))

maybe :
    (c : Bool) (b : DynBuf) (byte : ℕ)
    → IsBuf b
    → Fits b (if c then byte ∷ [] else [])
    → Appends b (if c then byte ∷ [] else []) (if c then dynbuf_append b (byte ∷ []) else ok b)
maybe true b byte inside fits = dynbuf_append_lem b (byte ∷ []) inside fits
maybe false b byte inside fits = nothing b inside

append_escaped_lem :
    (bytes : Bytes) (quote : ℕ) (b : DynBuf)
    → IsBuf b
    → Fits b (escaped quote bytes)
    → Appends b (escaped quote bytes) (append_escaped b bytes quote)
unfolding escaped append_escaped
append_escaped_lem [] quote b inside fits = nothing b inside
append_escaped_lem (c ∷ bytes) quote b inside fits =
    step (if c == quote then quote ∷ [] else []) ((c ∷ []) ++ escaped quote bytes) _ fits
      (maybe (c == quote) b quote inside)
      (λ b' inside' fits'.
        step (c ∷ []) (escaped quote bytes) _ fits' (dynbuf_append_lem b' (c ∷ []) inside')
          (append_escaped_lem bytes quote))

append_cell_lem :
    (needs_quote : Bool) (bytes : Bytes) (quote : ℕ) (b : DynBuf)
    → IsBuf b
    → Fits b (cell_text quote needs_quote bytes)
    → Appends b (cell_text quote needs_quote bytes) (append_cell b bytes needs_quote quote)
unfolding append_cell
append_cell_lem true bytes quote b inside fits =
    step (quote ∷ []) (escaped quote bytes ++ (quote ∷ [])) _ fits
      (dynbuf_append_lem b (quote ∷ []) inside)
      (λ b' inside' fits'.
        step (escaped quote bytes) (quote ∷ []) _ fits' (append_escaped_lem bytes quote b' inside')
          (λ b'' inside'' fits''. dynbuf_append_lem b'' (quote ∷ []) inside'' fits''))
append_cell_lem false bytes quote b inside fits = dynbuf_append_lem b bytes inside fits

-- A chain of results that is ok went through its first step.
pub ok-bind :
    {A B : Type 0} (step1 : Result A) (step2 : A → Result B) {out : B}
    → (step1 >>= step2) ≡ ok out
    → (x : A) × (step1 ≡ ok x) × (step2 x ≡ ok out)
ok-bind (fail why) step2 e = absurd (cc e)
ok-bind (ok x) step2 e = (x, refl, e)

ok-injective : {a b : Bytes} → Path (Result Bytes) (ok a) (ok b) → a ≡ b
ok-injective e = ap (λ r. elim r [ ok x ↦ x | fail f ↦ [] ]) e

-- The text that is made is the text that is asked for.
made :
    {b : DynBuf} {t text : Bytes} {r : Result DynBuf}
    → Path (Result Bytes) (ok t) (ok text)
    → (Fits b t → Appends b t r)
    → Fits b text
    → Appends b text r
made {b} {r} e k fits =
    let same = ok-injective e in
    subst (λ t. Appends b t r) same (k (subst (λ t. Fits b t) (sym same) fits))

separate :
    (first : Bool) (b : DynBuf) (byte : ℕ)
    → IsBuf b
    → Fits b (if first then [] else byte ∷ [])
    → Appends b
        (if first then [] else byte ∷ [])
        (if first then ok b else dynbuf_append b (byte ∷ []))
separate true b byte inside fits = nothing b inside
separate false b byte inside fits = dynbuf_append_lem b (byte ∷ []) inside fits

module _ (print_float : ℕ → Bytes) (sep quote : ℕ) (mode : Quoting) where
  cells_lem :
      (cells : List Value) (first : Bool) (text : Bytes) (b : DynBuf)
      → cells_text print_float sep quote mode first cells ≡ ok text
      → IsBuf b
      → Fits b text
      → Appends b text (append_cells print_float b first cells sep quote mode)
  unfolding cells_text append_cells
  cells_lem [] first text b e inside fits = made e (λ f. nothing b inside) fits
  cells_lem (v ∷ cells) first text b e inside fits =
      let (bytes, e1, e2) = ok-bind (csv_cell_bytes print_float v) _ e in
      let (rest, e3, e4) = ok-bind (cells_text print_float sep quote mode false cells) _ e2 in
      let needs_quote = quotes_cell mode (is_str v) bytes sep quote in
      made e4
        (λ fits'.
          step (if first then [] else sep ∷ []) (cell_text quote needs_quote bytes ++ rest) _ fits'
            (separate first b sep inside)
            (λ b' inside' fits''. rw e1 (
              step (cell_text quote needs_quote bytes) rest _ fits''
                (append_cell_lem needs_quote bytes quote b' inside')
                (λ b''. cells_lem cells false rest b'' e3))))
        fits

  row_lem :
      (cells : List Value) (text : Bytes) (b : DynBuf)
      → row_text print_float sep quote mode cells ≡ ok text
      → IsBuf b
      → Fits b text
      → Appends b text (csv_write_row print_float b cells sep quote mode)
  unfolding row_text csv_write_row
  row_lem cells text b e inside fits =
      let (text', e1, e2) = ok-bind (cells_text print_float sep quote mode true cells) _ e in
      made e2
        (λ fits'.
          step text' (b'\n' ∷ []) _ fits' (cells_lem cells true text' b e1 inside)
            (λ b' inside'. dynbuf_append_lem b' (b'\n' ∷ []) inside'))
        fits

  -- The writer appends the text of the rows to the buffer, inside its allocation, if every cell
  -- can be written and the buffer is no longer than 2 ^ 30 bytes then.
  pub write_rows_lem :
      (rows : List (List Value)) (text : Bytes) (b : DynBuf)
      → rows_text print_float sep quote mode rows ≡ ok text
      → IsBuf b
      → length b.buf + length text ≤ limit
      → Appends b text (write_rows print_float b rows sep quote mode)
  unfolding rows_text write_rows
  write_rows_lem [] text b e inside fits = made e (λ f. nothing b inside) fits
  write_rows_lem (row ∷ rows) text b e inside fits =
      let (text', e1, e2) = ok-bind (row_text print_float sep quote mode row) _ e in
      let (rest, e3, e4) = ok-bind (rows_text print_float sep quote mode rows) _ e2 in
      made e4
        (λ fits'.
          step text' rest _ fits' (row_lem row text' b e1 inside)
            (λ b'. write_rows_lem rows rest b' e3))
        fits
