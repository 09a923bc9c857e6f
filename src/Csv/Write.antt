-- ===== src/Csv/Write.antt =====
-- The writer of icecreme/csv.c: the growing buffer, and the rendering and mode of cells.
use creme.Common.{
  ℕ, zero, suc, ◌+◌, ◌*◌, ◌/◌, ◌%◌, Bool, true, false, ◌&&◌, ◌||◌, List, [], ◌∷◌, ◌++◌, Result, ok,
  fail, abort, ◌>>=◌, ◌>>◌, require, too_large, cannot_write, length, ltb, leb, ◌==◌, if◌then◌else◌,
}
use creme.Csv.Parse.{Bytes}
use creme.Value.{ℤ, pos, negsuc, Value, bool, int, flo, char, str}

-- The used part of the buffer, and its capacity.
pub record DynBuf : Type 0 where
  pub buf : Bytes
  pub cap : ℕ

abbrev pub empty_buf : DynBuf
empty_buf = record { buf = []; cap = 0 }

abbrev pub int_max : ℕ
int_max = 2147483647

-- `while (newcap < need) newcap *= 2`, from a capacity above 0: as many rounds as bytes are needed
-- are enough.
unfoldable pub grow_cap : ℕ → ℕ → ℕ → ℕ
grow_cap zero newcap need = newcap
grow_cap (suc rounds) newcap need =
    let more = grow_cap rounds (newcap * 2) need in if ltb newcap need then more else newcap

unfoldable pub dynbuf_append : DynBuf → Bytes → Result DynBuf
dynbuf_append b bytes =
    let need = length b.buf + length bytes in
    if ltb b.cap need
    then (do
      let newcap = grow_cap need (if b.cap == 0 then 64 else b.cap * 2) need
      require (leb newcap int_max) too_large
      ok (record { buf = b.buf ++ bytes; cap = newcap }))
    else ok (record b { buf = b.buf ++ bytes })

abbrev pub dynbuf_append_char : DynBuf → ℕ → Result DynBuf
dynbuf_append_char b c = dynbuf_append b (c ∷ [])

-- `snprintf` with `%lld`: at most as many digits as the number plus one.
unfoldable pub digits : ℕ → ℕ → Bytes
digits zero n = []
digits (suc rounds) n =
    let front = digits rounds (n / 10) in
    if ltb n 10 then (b'0' + n) ∷ [] else front ++ ((b'0' + n % 10) ∷ [])

abbrev pub show_int : ℤ → Bytes
show_int (pos n) = digits (suc n) n
show_int (negsuc n) = b'-' ∷ digits (suc (suc n)) (suc n)

unfoldable pub csv_bytes_need_rfc_quote : Bytes → ℕ → ℕ → Bool
csv_bytes_need_rfc_quote [] sep quote = false
csv_bytes_need_rfc_quote (c ∷ bytes) sep quote =
    (c == sep || c == quote || c == b'\n') || csv_bytes_need_rfc_quote bytes sep quote

pub data Quoting : Type 0 where
  no_quoting rfc all : Quoting

abbrev pub quotes_cell : Quoting → Bool → Bytes → ℕ → ℕ → Bool
quotes_cell all is_str bytes sep quote = true
quotes_cell rfc is_str bytes sep quote = is_str && csv_bytes_need_rfc_quote bytes sep quote
quotes_cell no_quoting is_str bytes sep quote = false

-- The loop over the bytes of a quoted cell.
unfoldable pub append_escaped : DynBuf → Bytes → ℕ → Result DynBuf
append_escaped out [] quote = ok out
append_escaped out (c ∷ bytes) quote = do
  out' ← if c == quote then dynbuf_append_char out quote else ok out
  out'' ← dynbuf_append_char out' c
  append_escaped out'' bytes quote

unfoldable pub append_cell : DynBuf → Bytes → Bool → ℕ → Result DynBuf
append_cell out bytes needs_quote quote =
    if needs_quote
    then (do
      opened ← dynbuf_append_char out quote
      filled ← append_escaped opened bytes quote
      dynbuf_append_char filled quote)
    else dynbuf_append out bytes

abbrev pub is_str : Value → Bool
is_str (str bytes) = true
is_str (char c) = true
is_str _ = false

-- `print_float` stands for `snprintf` with `%.17g`.
module _ (print_float : ℕ → Bytes) where
  unfoldable pub csv_cell_bytes : Value → Result Bytes
  csv_cell_bytes (str bytes) = ok bytes
  csv_cell_bytes (char c) = ok ((c % 256) ∷ [])
  csv_cell_bytes (bool true) = ok (b't' ∷ b'r' ∷ b'u' ∷ b'e' ∷ [])
  csv_cell_bytes (bool false) = ok (b'f' ∷ b'a' ∷ b'l' ∷ b's' ∷ b'e' ∷ [])
  csv_cell_bytes (int i) = ok (show_int i)
  csv_cell_bytes (flo f) = ok (print_float f)
  csv_cell_bytes _ = fail (abort cannot_write)

  -- The loop over the cells; a separator stands before all but the first.
  unfoldable pub append_cells : DynBuf → Bool → List Value → ℕ → ℕ → Quoting → Result DynBuf
  append_cells out first [] sep quote mode = ok out
  append_cells out first (v ∷ cells) sep quote mode = do
    out' ← if first then ok out else dynbuf_append_char out sep
    bytes ← csv_cell_bytes v
    out'' ← append_cell out' bytes (quotes_cell mode (is_str v) bytes sep quote) quote
    append_cells out'' false cells sep quote mode

  unfoldable pub csv_write_row : DynBuf → List Value → ℕ → ℕ → Quoting → Result DynBuf
  csv_write_row out cells sep quote mode = do
    out' ← append_cells out true cells sep quote mode
    dynbuf_append_char out' b'\n'

  -- The loop over the rows of `csv-write`.
  unfoldable pub write_rows : DynBuf → List (List Value) → ℕ → ℕ → Quoting → Result DynBuf
  write_rows out [] sep quote mode = ok out
  write_rows out (row ∷ rows) sep quote mode = do
    out' ← csv_write_row out row sep quote mode
    write_rows out' rows sep quote mode
