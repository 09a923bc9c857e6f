-- ===== src/Csv/Tests.antt =====
-- Concrete tables for the theorems on icecreme/csv.c.
use creme.Common.{ℕ, zero, suc, ◌≤◌, ◌≡◌, refl, List, [], ◌∷◌, map, ok, Returns, length, arith}
use creme.Csv.Builtins.{bi_csv_read, bi_csv_write}
use creme.Csv.Parse.{Bytes, read_rows}
use creme.Csv.Proofs.Buffer.{Appends}
use creme.Csv.Proofs.Cells.{IsCellText, plain-IsCellText}
use creme.Csv.Proofs.CarriageReturn.{carriage_return_splits}
use creme.Csv.Proofs.RoundTrip.{read_rows-write_rows}
use creme.Csv.Proofs.Tables.{commas, IsTable, no_vectors, more_vectors, bi_csv_read-bi_csv_write}
use creme.Csv.Proofs.Total.{read_rows_total}
use creme.Csv.Proofs.Writer.{write_rows_lem}
use creme.Csv.Spec.{escaped, cells_text, row_text, rows_text}
use creme.Csv.Write.{
  empty_buf, all, rfc, csv_bytes_need_rfc_quote, csv_cell_bytes, digits, write_rows,
}
use creme.Treelist.Node.{empty_leaf}
use creme.Value.{Value, nil, int, pos, str, vector, Heap}

-- No float is printed here.
abbrev no_floats : ℕ → Bytes
no_floats f = []

-- A cell with a separator and a quote, and an empty cell.
abbrev special_row : List Bytes
special_row = (b'a' ∷ b',' ∷ b'"' ∷ []) ∷ [] ∷ []

abbrev plain_row : List Bytes
plain_row = (b'b' ∷ []) ∷ []

abbrev two_rows : List (List Bytes)
two_rows = special_row ∷ plain_row ∷ []

write_rows_example :
    Appends empty_buf
      (b'7' ∷ b',' ∷ b'b' ∷ b'\n' ∷ [])
      (write_rows no_floats empty_buf ((int (pos 7) ∷ str (b'b' ∷ []) ∷ []) ∷ []) b',' b'"' rfc)
unfolding rows_text row_text cells_text csv_cell_bytes csv_bytes_need_rfc_quote digits
write_rows_example =
    write_rows_lem no_floats b',' b'"' rfc ((int (pos 7) ∷ str (b'b' ∷ []) ∷ []) ∷ [])
      (b'7' ∷ b',' ∷ b'b' ∷ b'\n' ∷ []) empty_buf refl (omega arith, omega arith) (omega arith)

read_rows-write_rows_example :
    Returns
      (λ b. read_rows b',' b'"' b.buf ≡ ok two_rows)
      (write_rows no_floats empty_buf (map (map str) two_rows) b',' b'"' all)
unfolding escaped
read_rows-write_rows_example =
    read_rows-write_rows b',' b'"' no_floats commas all two_rows refl (omega arith)

read_rows_total_example :
    Returns (λ rows. length rows ≤ 4) (read_rows b',' b'"' (b'"' ∷ b'a' ∷ b'\r' ∷ b'"' ∷ []))
read_rows_total_example = read_rows_total b',' b'"' (b'"' ∷ b'a' ∷ b'\r' ∷ b'"' ∷ [])

abbrev letter_a : IsCellText b',' b'"' (b'a' ∷ []) (b'a' ∷ [])
letter_a = plain-IsCellText (b'a' ∷ []) commas (unfold csv_bytes_need_rfc_quote in refl) refl

carriage_return_example :
    Returns
      (λ b.
        (b.buf ≡ b'a' ∷ b'\r' ∷ b'a' ∷ b'\n' ∷ [])
        × (read_rows b',' b'"' b.buf ≡ ok (((b'a' ∷ []) ∷ []) ∷ ((b'a' ∷ []) ∷ []) ∷ [])))
      (write_rows no_floats empty_buf ((str (b'a' ∷ b'\r' ∷ b'a' ∷ []) ∷ []) ∷ []) b',' b'"' rfc)
unfolding csv_bytes_need_rfc_quote
carriage_return_example =
    carriage_return_splits commas no_floats b'a' [] b'a' [] letter_a letter_a refl (omega arith)

-- The two rows as vectors 0 and 1, and the table as vector 2.
abbrev table_vectors : ℕ → List Value
table_vectors zero = map str special_row
table_vectors (suc zero) = map str plain_row
table_vectors _ = vector 0 ∷ vector 1 ∷ []

abbrev table_heap : Heap
table_heap = record {
  next = 3;
  pairs = λ a. record { car = nil; cdr = nil };
  vectors = table_vectors;
  trees = λ a. empty_leaf;
  mutables = λ a. empty_leaf;
}

abbrev two_rows-IsTable : IsTable table_heap (vector 2) two_rows
two_rows-IsTable = record {
  address = 2;
  is_vector = refl;
  are_rows = more_vectors (omega arith) refl (more_vectors (omega arith) refl no_vectors);
}

bi_csv_read-bi_csv_write_example :
    (text : Bytes) × (bi_csv_write no_floats 0 (vector 2 ∷ []) table_heap
      ≡ ok (str text, table_heap))
    × Returns (λ r. IsTable r.1 r.0 two_rows) (bi_csv_read (str text ∷ []) table_heap)
unfolding csv_bytes_need_rfc_quote escaped
bi_csv_read-bi_csv_write_example =
    bi_csv_read-bi_csv_write no_floats 0 table_heap (vector 2) two_rows two_rows-IsTable refl
      (omega arith)
