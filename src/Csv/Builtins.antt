-- ===== src/Csv/Builtins.antt =====
-- The builtins of (creme csv) on whole tables, and the checks of their arguments (icecreme/csv.c).
use creme.Common.{
  ℕ, zero, suc, ◌%◌, Bool, true, false, ◌&&◌, Option, none, some, List, [], ◌∷◌, map, Result, ok,
  fail, wrong_type, unknown_quoting, no_fuel, length, get_elem?, ◌==◌, if◌then◌else◌,
}
use creme.Csv.Parse.{Bytes, csv_parse_row, read_rows}
use creme.Csv.Write.{DynBuf, empty_buf, Quoting, no_quoting, rfc, all, csv_write_row}
use creme.Treelist.Builtins.{list_to_value_array}
use creme.Value.{
  Value, nil, char, str, sym, vector, Heap, M, pure, ◌>>=◌, ◌>>◌, lift, stop, gets, arg,
  check_min_args, cons, new_vector,
}

-- `memcmp` of the whole names.
abbrev pub same_bytes : Bytes → Bytes → Bool
same_bytes [] [] = true
same_bytes (c ∷ bytes) (d ∷ bytes') = (c == d) && same_bytes bytes bytes'
same_bytes _ _ = false

-- An optional argument: the byte of a character, or the default.
abbrev char_or : Option Value → ℕ → M ℕ
char_or none default_char = pure default_char
char_or (some (char c)) default_char = pure (c % 256)
char_or (some _) default_char = stop wrong_type

unfoldable pub csv_char_arg : List Value → ℕ → ℕ → M ℕ
csv_char_arg args idx default_char = char_or (get_elem? args idx) default_char

abbrev quoting_named : Bytes → M Quoting
quoting_named name =
    if same_bytes name (b'n' ∷ b'o' ∷ b'n' ∷ b'e' ∷ [])
    then pure no_quoting
    else if same_bytes name (b'r' ∷ b'f' ∷ b'c' ∷ [])
    then pure rfc
    else if same_bytes name (b'a' ∷ b'l' ∷ b'l' ∷ [])
    then pure all
    else stop unknown_quoting

abbrev quoting_or_rfc : Option Value → M Quoting
quoting_or_rfc none = pure rfc
quoting_or_rfc (some (sym name)) = quoting_named name
quoting_or_rfc (some _) = stop wrong_type

unfoldable pub csv_quoting_arg : List Value → ℕ → M Quoting
csv_quoting_arg args idx = quoting_or_rfc (get_elem? args idx)

-- `creme_arg_bytes`
abbrev pub arg_bytes : Option Value → M Bytes
arg_bytes (some (str bytes)) = pure bytes
arg_bytes _ = stop wrong_type

-- One vector of strings for each row.
unfoldable pub new_rows : List (List Bytes) → M (List Value)
new_rows [] = pure []
new_rows (row ∷ rows) = do v ← new_vector (map str row); vs ← new_rows rows; pure (v ∷ vs)

unfoldable pub bi_csv_read : List Value → M Value
bi_csv_read args = do
  bytes ← arg_bytes (get_elem? args 0)
  sep ← csv_char_arg args 1 b','
  quote ← csv_char_arg args 2 b'"'
  rows ← lift (read_rows sep quote bytes)
  items ← new_rows rows
  new_vector items

abbrev first_or_empty : List Bytes → Bytes
first_or_empty [] = []
first_or_empty (cell ∷ cells) = cell

abbrev behind_first : List Bytes → List Bytes
behind_first [] = []
behind_first (cell ∷ cells) = cells

-- The loop over the headers, the last one first: a missing cell is empty, a cell too many is dropped.
unfoldable pub row_alist : List Bytes → List Bytes → M Value
row_alist [] cells = pure nil
row_alist (header ∷ headers) cells = do
  alist ← row_alist headers (behind_first cells)
  entry ← cons (str header) (str (first_or_empty cells))
  cons entry alist

-- The loop over the rows; one takes at least one byte.
unfoldable pub header_rows : ℕ → ℕ → ℕ → List Bytes → Bytes → M (List Value)
header_rows zero sep quote headers src = lift (fail no_fuel)
header_rows (suc rounds) sep quote headers src = do
  row ← lift (csv_parse_row sep quote src)
  elim row [
    | none ↦ pure []
    | some r ↦ do
      alist ← row_alist headers r.0
      alists ← header_rows rounds sep quote headers r.1
      pure (alist ∷ alists)
  ]

abbrev header_of : Option (List Bytes × Bytes) → Bytes → List Bytes × Bytes
header_of none src = ([], src)
header_of (some r) src = r

unfoldable pub bi_csv_read_headers : List Value → M Value
bi_csv_read_headers args = do
  bytes ← arg_bytes (get_elem? args 0)
  sep ← csv_char_arg args 1 b','
  quote ← csv_char_arg args 2 b'"'
  row ← lift (csv_parse_row sep quote bytes)
  let first = header_of row bytes
  alists ← header_rows (suc (length first.1)) sep quote first.0 first.1
  new_vector alists

module _ (print_float : ℕ → Bytes) (rounds : ℕ) where
  -- A vector, or the pairs of a list: `rounds` bounds the walk, which ends on no cyclic list.
  unfoldable pub csv_seq_to_array : Value → Heap → Result (List Value)
  csv_seq_to_array (vector a) h = ok (Heap.vectors h a)
  csv_seq_to_array v h = list_to_value_array rounds v h

  abbrev seq_to_array : Value → M (List Value)
  seq_to_array v = do items ← gets (csv_seq_to_array v); lift items

  -- The loop over the rows.
  unfoldable pub write_seqs : DynBuf → List Value → ℕ → Quoting → M DynBuf
  write_seqs out [] sep mode = pure out
  write_seqs out (row ∷ rows) sep mode = do
    cells ← seq_to_array row
    out' ← lift (csv_write_row print_float out cells sep b'"' mode)
    write_seqs out' rows sep mode

  unfoldable pub bi_csv_write : List Value → M Value
  bi_csv_write args = do
    check_min_args args 1
    sep ← csv_char_arg args 1 b','
    mode ← csv_quoting_arg args 2
    table ← arg args 0
    rows ← seq_to_array table
    out ← write_seqs empty_buf rows sep mode
    pure (str out.buf)

  unfoldable pub bi_csv_write_headers : List Value → M Value
  bi_csv_write_headers args = do
    check_min_args args 2
    sep ← csv_char_arg args 2 b','
    mode ← csv_quoting_arg args 3
    names ← arg args 0
    headers ← seq_to_array names
    table ← arg args 1
    rows ← seq_to_array table
    out ← lift (csv_write_row print_float empty_buf headers sep b'"' mode)
    out' ← write_seqs out rows sep mode
    pure (str out'.buf)
