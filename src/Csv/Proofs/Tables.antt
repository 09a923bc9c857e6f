-- ===== src/Csv/Proofs/Tables.antt =====
-- The builtins csv-write and csv-read of icecreme/csv.c on a table of strings.
use creme.Common.{
  ℕ, suc, ◌≤◌, ◌<◌, ◌≡◌, refl, sym, ap, ◌∙◌, subst, true, false, List, [], ◌∷◌, map, ok, fail,
  Returns, length, ◌==◌, arith,
}
use creme.Csv.Builtins.{
  csv_char_arg, csv_quoting_arg, new_rows, bi_csv_read, csv_seq_to_array, write_seqs, bi_csv_write,
}
use creme.Csv.Parse.{Bytes, read_rows}
use creme.Csv.Proofs.Buffer.{limit}
use creme.Csv.Proofs.Cells.{IsDialect}
use creme.Csv.Proofs.RoundTrip.{rows_readable, text_of, read_rows-write_rows}
use creme.Csv.Proofs.Rows.{lines}
use creme.Csv.Proofs.Writer.{ok-bind}
use creme.Csv.Write.{DynBuf, empty_buf, Quoting, rfc, csv_write_row, write_rows}
use creme.Value.{Value, str, vector, Heap, M, pure, ◌>>=◌, update, lift, new_vector}

-- The default separator and quote.
abbrev pub commas : IsDialect b',' b'"'
commas = record { apart = refl; line_sep = refl; line_quote = refl }

-- The values are vectors of the strings of the rows.
pub data AreRowVectors (h : Heap) : List Value → List (List Bytes) → Type 0 where
  no_vectors : AreRowVectors h [] []
  more_vectors :
      {a : ℕ} {row : List Bytes} {vs : List Value} {rows : List (List Bytes)}
      → a < Heap.next h
      → Heap.vectors h a ≡ map str row
      → AreRowVectors h vs rows
      → AreRowVectors h (vector a ∷ vs) (row ∷ rows)

-- A vector of vectors of strings.
pub record IsTable (h : Heap) (v : Value) (rows : List (List Bytes)) : Type 0 where
  pub address : ℕ
  pub is_vector : v ≡ vector address
  pub are_rows : AreRowVectors h (Heap.vectors h address) rows

-- The old vectors are as they were.
abbrev Keeps : Heap → Heap → Type 0
Keeps h h' =
    (Heap.next h ≤ Heap.next h')
    × ((a : ℕ) → a < Heap.next h → Heap.vectors h' a ≡ Heap.vectors h a)

AreRowVectors-Keeps :
    {h h' : Heap} {vs : List Value} {rows : List (List Bytes)}
    → Keeps h h'
    → AreRowVectors h vs rows
    → AreRowVectors h' vs rows
AreRowVectors-Keeps k no_vectors = no_vectors
AreRowVectors-Keeps k (more_vectors {a} old e rest) =
    more_vectors (omega (arith, k.0)) (k.1 a old ∙ e) (AreRowVectors-Keeps k rest)

-- A new vector, and the heap that it is in.
abbrev with_vector : Heap → List Value → Heap
with_vector h items = record h {
  next = suc (Heap.next h);
  vectors = update (Heap.vectors h) (Heap.next h) items;
}

with_vector-Keeps : (h : Heap) (items : List Value) → Keeps h (with_vector h items)
with_vector-Keeps h items =
    (omega arith, λ a old. let n : (Heap.next h == a) ≡ false = ground arith in rw n refl)

with_vector-new :
    (h : Heap) (items : List Value) → Heap.vectors (with_vector h items) (Heap.next h) ≡ items
with_vector-new h items = let q : (Heap.next h == Heap.next h) ≡ true = ground arith in rw q refl

-- A first step that returns.
bind_ok :
    {A B : Type 0} (m : M A) (f : A → M B) {h : Heap} {r : A × Heap}
    → m h ≡ ok r
    → (m >>= f) h ≡ f r.0 r.1
bind_ok m f e = ap (λ r. elim r [ fail why ↦ fail why | ok r ↦ f r.0 r.1 ]) e

new_rows_lem :
    (rows : List (List Bytes)) (h : Heap)
    → (vs : List Value) × (h' : Heap) × (new_rows rows h ≡ ok (vs, h'))
      × AreRowVectors h' vs rows
      × Keeps h h'
unfolding new_rows new_vector
new_rows_lem [] h = ([], h, refl, no_vectors, (omega arith, λ a old. refl))
new_rows_lem (row ∷ rows) h =
    let h1 = with_vector h (map str row) in
    let (vs, h', e, are, keeps) = new_rows_lem rows h1 in
    let first = with_vector-Keeps h (map str row) in
    (
      vector (Heap.next h) ∷ vs,
      h',
      bind_ok (new_rows rows) (λ vs. pure (vector (Heap.next h) ∷ vs)) e,
      more_vectors (omega (arith, keeps.0))
          (keeps.1 (Heap.next h) (omega arith) ∙ with_vector-new h (map str row)) are,
      (omega (arith, keeps.0), λ a old. keeps.1 a (omega arith) ∙ first.1 a old),
    )

-- csv-read on a string, with the default separator and quote.
csv_read_lem :
    (bytes : Bytes) (rows : List (List Bytes)) (h : Heap)
    → read_rows b',' b'"' bytes ≡ ok rows
    → Returns (λ r. IsTable r.1 r.0 rows) (bi_csv_read (str bytes ∷ []) h)
unfolding bi_csv_read csv_char_arg new_vector
csv_read_lem bytes rows h e =
    let (vs, h', e', are, keeps) = new_rows_lem rows h in
    rw e (
      _,
      bind_ok (new_rows rows) new_vector e',
      record {
        address = Heap.next h';
        is_vector = refl;
        are_rows =
            subst (λ items. AreRowVectors (with_vector h' vs) items rows)
              (sym (with_vector-new h' vs)) (AreRowVectors-Keeps (with_vector-Keeps h' vs) are);
      },
    )

module _ (print_float : ℕ → Bytes) (rounds : ℕ) where
  write_seqs_lem :
      {h : Heap} {vs : List Value} {rows : List (List Bytes)} (out : DynBuf) (sep : ℕ)
      (mode : Quoting) {out' : DynBuf}
      → AreRowVectors h vs rows
      → write_rows print_float out (map (map str) rows) sep b'"' mode ≡ ok out'
      → write_seqs print_float rounds out vs sep mode h ≡ ok (out', h)
  unfolding write_seqs write_rows csv_seq_to_array
  write_seqs_lem {h} out sep mode no_vectors e = ap (λ r. lift r h) e
  write_seqs_lem {h} out sep mode (more_vectors {a} {row} {rows} old e rest) e' =
      let (b, e1, e2) = ok-bind (csv_write_row print_float out (map str row) sep b'"' mode) _ e' in
      rw e (rw e1 (write_seqs_lem b sep mode rest e2))

  -- csv-write on a vector of vectors of strings, with the default separator, quote and quoting,
  -- returns a string and leaves the heap alone, and csv-read on that string returns a new table of
  -- the same strings, if no cell has a carriage return without another special byte, no row is one
  -- empty cell and the text is no longer than 2 ^ 30 bytes.
  pub bi_csv_read-bi_csv_write :
      (h : Heap) (v : Value) (rows : List (List Bytes))
      → IsTable h v rows
      → rows_readable b',' b'"' rfc rows ≡ true
      → length (lines commas (map (map (text_of b',' b'"' rfc)) rows)) ≤ limit
      → (text : Bytes) × (bi_csv_write print_float rounds (v ∷ []) h ≡ ok (str text, h))
        × Returns (λ r. IsTable r.1 r.0 rows) (bi_csv_read (str text ∷ []) h)
  unfolding bi_csv_write csv_char_arg csv_quoting_arg csv_seq_to_array
  bi_csv_read-bi_csv_write h v rows table readable fits =
      let (b, e, e') = read_rows-write_rows b',' b'"' print_float commas rfc rows readable fits in
      (
        b.buf,
        rw table.is_vector (
            bind_ok
              (write_seqs print_float rounds empty_buf (Heap.vectors h table.address) b',' rfc)
              (λ out. pure (str out.buf)) (write_seqs_lem empty_buf b',' rfc table.are_rows e)),
        csv_read_lem b.buf rows h e',
      )
