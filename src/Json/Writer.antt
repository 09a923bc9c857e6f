-- ===== src/Json/Writer.antt =====
-- The writer of icecreme/json.c, and `json-write`.
use creme.Common.{
  ℕ, zero, suc, ◌+◌, ◌-◌, ◌/◌, ◌%◌, Bool, true, false, not, ◌&&◌, ◌||◌, List, [], ◌∷◌, Result, ok,
  fail, abort, no_fuel, bad_access, cannot_write, bad_arity, none, some, length, get_elem?, ltb,
  leb, ◌==◌, if◌then◌else◌,
}
use creme.Common.{◌>>=◌, ◌>>◌, require}
use creme.Csv.Parse.{Bytes}
use creme.Csv.Write.{show_int}
use creme.Json.Buffer.{
  GBuf, gbuf_init, gbuf_putc, gbuf_puts, gbuf_printf, true_text, false_text, null_text,
}
use creme.Value.{Value, nil, bool, int, flo, char, str, pair, vector, Heap, M}

-- A digit of `%x`.
abbrev pub hex_digit : ℕ → ℕ
hex_digit d = if ltb d 10 then b'0' + d else b'a' + (d - 10)

-- `\u%04x`, of a byte under 0x20.
abbrev pub control_escape : ℕ → Bytes
control_escape c = b'\\' ∷ b'u' ∷ b'0' ∷ b'0' ∷ hex_digit (c / 16) ∷ hex_digit (c % 16) ∷ []

-- One round of the loop over the bytes of a string.
unfoldable pub write_byte : GBuf → ℕ → Result GBuf
write_byte w c =
    if c == b'"'
    then gbuf_puts w (b'\\' ∷ b'"' ∷ [])
    else if c == b'\\'
    then gbuf_puts w (b'\\' ∷ b'\\' ∷ [])
    else if c == b'\n'
    then gbuf_puts w (b'\\' ∷ b'n' ∷ [])
    else if c == b'\r'
    then gbuf_puts w (b'\\' ∷ b'r' ∷ [])
    else if c == b'\t'
    then gbuf_puts w (b'\\' ∷ b't' ∷ [])
    else if ltb c 32
    then gbuf_printf w (control_escape c)
    else gbuf_putc w c

unfoldable pub write_bytes : GBuf → Bytes → Result GBuf
write_bytes w [] = ok w
write_bytes w (c ∷ s) = do w' ← write_byte w c; write_bytes w' s

unfoldable pub json_write_string : GBuf → Bytes → Result GBuf
json_write_string w s = do w1 ← gbuf_putc w b'"'; w2 ← write_bytes w1 s; gbuf_putc w2 b'"'

-- `strchr`
unfoldable pub has_byte : ℕ → Bytes → Bool
has_byte c [] = false
has_byte c (d ∷ s) = (d == c) || has_byte c s

abbrev pub separator : GBuf → Bool → Result GBuf
separator w first = if first then ok w else gbuf_putc w b','

abbrev pub is_str_key : Value → Bool
is_str_key (str s) = true
is_str_key _ = false

-- A pair whose car is a string.
abbrev pub is_entry : Value → Heap → Bool
is_entry (pair a) h = is_str_key ((h.pairs a).car)
is_entry _ h = false

-- The loops over the pairs of a list end on no cyclic one, so that they take from `rounds`.
unfoldable pub is_proper_list : ℕ → Value → Heap → Result Bool
is_proper_list zero v h = fail no_fuel
is_proper_list (suc rounds) (pair a) h = is_proper_list rounds ((h.pairs a).cdr) h
is_proper_list (suc rounds) nil h = ok true
is_proper_list (suc rounds) _ h = ok false

unfoldable pub all_entries : ℕ → Value → Heap → Result Bool
all_entries zero v h = fail no_fuel
all_entries (suc rounds) (pair a) h = elim (is_entry ((h.pairs a).car) h) [
  | true ↦ all_entries rounds ((h.pairs a).cdr) h
  | false ↦ ok false
]
all_entries (suc rounds) _ h = ok true

-- Of a pair.
unfoldable pub is_json_alist : ℕ → Value → Heap → Result Bool
is_json_alist rounds v h = do
  proper ← is_proper_list rounds v h
  elim proper [ true ↦ all_entries rounds v h | false ↦ ok false ]

abbrev pub bytes_of : Value → Result Bytes
bytes_of (str s) = ok s
bytes_of _ = fail bad_access

-- An entry is a pair, since the alist has been checked; `write` writes its value.
unfoldable pub write_entry : (GBuf → Value → Result GBuf) → GBuf → Value → Heap → Result GBuf
write_entry write w (pair e) h = do
  key ← bytes_of ((h.pairs e).car)
  w1 ← json_write_string w key
  w2 ← gbuf_putc w1 b':'
  write w2 ((h.pairs e).cdr)
write_entry write w _ h = fail bad_access

-- Neither a point, nor an exponent, nor one of the names of the floats that are no numbers.
abbrev pub looks_whole : Bytes → Bool
looks_whole tmp = not (has_byte b'.' tmp) && not (has_byte b'e' tmp) && not (has_byte b'n' tmp)

-- `print_float` stands for `snprintf` with `%.17g`.
module _ (print_float : ℕ → Bytes) where
  unfoldable pub write_float : GBuf → ℕ → Result GBuf
  write_float w f = do
    w' ← gbuf_puts w (print_float f)
    if looks_whole (print_float f) then gbuf_puts w' (b'.' ∷ b'0' ∷ []) else ok w'

  unfoldable mutual
    pub json_write_value : ℕ → GBuf → Value → Heap → Result GBuf
    json_write_value zero w v h = fail no_fuel
    json_write_value (suc rounds) w nil h = gbuf_puts w null_text
    json_write_value (suc rounds) w (bool true) h = gbuf_puts w true_text
    json_write_value (suc rounds) w (bool false) h = gbuf_puts w false_text
    json_write_value (suc rounds) w (int i) h = gbuf_printf w (show_int i)
    json_write_value (suc rounds) w (flo f) h = write_float w f
    json_write_value (suc rounds) w (str s) h = json_write_string w s
    json_write_value (suc rounds) w (char c) h = json_write_string w ((c % 256) ∷ [])
    json_write_value (suc rounds) w (vector a) h = do
      w1 ← gbuf_putc w b'['
      w2 ← write_items rounds w1 true (h.vectors a) h
      gbuf_putc w2 b']'
    json_write_value (suc rounds) w (pair a) h = do
      alist ← is_json_alist rounds (pair a) h
      elim alist [
        | true ↦ do
          w1 ← gbuf_putc w b'{'
          w2 ← write_entries rounds w1 true (pair a) h
          gbuf_putc w2 b'}'
        | false ↦ do
          proper ← is_proper_list rounds (pair a) h
          require proper cannot_write
          w1 ← gbuf_putc w b'['
          w2 ← write_list rounds w1 true (pair a) h
          gbuf_putc w2 b']'
      ]
    json_write_value (suc rounds) w _ h = fail (abort cannot_write)

    -- The loop over the items of a vector.
    pub write_items : ℕ → GBuf → Bool → List Value → Heap → Result GBuf
    write_items zero w first vs h = fail no_fuel
    write_items (suc rounds) w first [] h = ok w
    write_items (suc rounds) w first (v ∷ vs) h = do
      w1 ← separator w first
      w2 ← json_write_value rounds w1 v h
      write_items rounds w2 false vs h

    -- The loop over the pairs of a list.
    pub write_list : ℕ → GBuf → Bool → Value → Heap → Result GBuf
    write_list zero w first v h = fail no_fuel
    write_list (suc rounds) w first (pair a) h = do
      w1 ← separator w first
      w2 ← json_write_value rounds w1 ((h.pairs a).car) h
      write_list rounds w2 false ((h.pairs a).cdr) h
    write_list (suc rounds) w first _ h = ok w

    -- The loop over the entries of an alist.
    pub write_entries : ℕ → GBuf → Bool → Value → Heap → Result GBuf
    write_entries zero w first v h = fail no_fuel
    write_entries (suc rounds) w first (pair a) h = do
      w1 ← separator w first
      w2 ← write_entry (λ w' v'. json_write_value rounds w' v' h) w1 ((h.pairs a).car) h
      write_entries rounds w2 false ((h.pairs a).cdr) h
    write_entries (suc rounds) w first _ h = ok w

  -- `rounds` bounds the calls inside each other and the rounds of the loops.
  unfoldable pub bi_json_write : ℕ → List Value → M Value
  bi_json_write rounds args h =
      if leb 1 (length args)
      then (elim (get_elem? args 0) [
        | none ↦ fail bad_access
        | some v ↦ do w ← json_write_value rounds gbuf_init v h; ok (str w.buf, h)
      ])
      else fail (abort bad_arity)
