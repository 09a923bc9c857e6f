-- ===== src/Json/Reader.antt =====
-- The reader of icecreme/json.c. A `JReader` is what is left to read, the bytes from `pos` to `len`,
-- and the depth of nesting, which a call takes as its argument.
use creme.Common.{
  ℕ, zero, suc, ◌+◌, ◌-◌, ◌*◌, ◌/◌, ◌%◌, ◌^◌, Bool, true, false, ◌&&◌, ◌||◌, Option, none, some, [],
  ◌∷◌, ◌++◌, Result, ok, fail, abort, no_fuel, bad_json, out_of_range, length, ltb, leb, ◌==◌,
  if◌then◌else◌,
}
use creme.Common.{◌>>=◌}
use creme.Csv.Parse.{Bytes}
use creme.Json.Buffer.{GBuf, gbuf_init, gbuf_putc}
use creme.Value.{ℤ, pos, negsuc, Value, int, flo}

abbrev pub is_space : ℕ → Bool
is_space c = c == b' ' || c == b'\t' || c == b'\n' || c == b'\r'

unfoldable pub jr_skip_ws : Bytes → Bytes
jr_skip_ws [] = []
jr_skip_ws (c ∷ s) = elim (is_space c) [ true ↦ jr_skip_ws s | false ↦ c ∷ s ]

-- The value of a hexadecimal digit.
unfoldable pub hex_value : ℕ → Option ℕ
hex_value h =
    if leb b'0' h && leb h b'9'
    then some (h - b'0')
    else if leb b'a' h && leb h b'f'
    then some (h - b'a' + 10)
    else if leb b'A' h && leb h b'F'
    then some (h - b'A' + 10)
    else none

unfoldable pub hex_digit_or_abort : ℕ → Result ℕ
hex_digit_or_abort h = elim (hex_value h) [ none ↦ fail (abort bad_json) | some d ↦ ok d ]

unfoldable pub hex4 : ℕ → ℕ → ℕ → ℕ → Result ℕ
hex4 h0 h1 h2 h3 = do
  d0 ← hex_digit_or_abort h0
  d1 ← hex_digit_or_abort h1
  d2 ← hex_digit_or_abort h2
  d3 ← hex_digit_or_abort h3
  ok (((d0 * 16 + d1) * 16 + d2) * 16 + d3)

-- The UTF-8 bytes of a code point under 2 ^ 16.
unfoldable pub put_code_point : GBuf → ℕ → Result GBuf
put_code_point b cp =
    if ltb cp 128
    then gbuf_putc b cp
    else if ltb cp 2048
    then (do b' ← gbuf_putc b (192 + cp / 64); gbuf_putc b' (128 + cp % 64))
    else (do
      b' ← gbuf_putc b (224 + cp / 4096)
      b'' ← gbuf_putc b' (128 + cp / 64 % 64)
      gbuf_putc b'' (128 + cp % 64))

unfoldable pub unicode_escape : Bytes → GBuf → Result (GBuf × Bytes)
unicode_escape (h0 ∷ h1 ∷ h2 ∷ h3 ∷ s) b = do
  cp ← hex4 h0 h1 h2 h3
  b' ← put_code_point b cp
  ok (b', s)
unicode_escape _ b = fail (abort bad_json)

-- The byte that a backslash and one letter stand for.
abbrev pub letter_escape : ℕ → Option ℕ
letter_escape e =
    if e == b'"' || e == b'\\' || e == b'/'
    then some e
    else if e == b'n'
    then some b'\n'
    else if e == b't'
    then some b'\t'
    else if e == b'r'
    then some b'\r'
    else if e == b'b'
    then some 8
    else if e == b'f'
    then some 12
    else none

unfoldable pub string_escape : Bytes → GBuf → Result (GBuf × Bytes)
string_escape [] b = fail (abort bad_json)
string_escape (e ∷ s) b = elim (letter_escape e) [
  | some c ↦ do b' ← gbuf_putc b c; ok (b', s)
  | none ↦ if e == b'u' then unicode_escape s b else fail (abort bad_json)
]

-- One round of the loop over a string, from its byte `c`.
unfoldable pub string_round : ℕ → Bytes → GBuf → Result (GBuf × Bytes)
string_round c s b = if c == b'\\' then string_escape s b else (do b' ← gbuf_putc b c; ok (b', s))

-- The loop up to the closing quote, whose rounds take a byte each.
unfoldable pub string_loop : ℕ → Bytes → GBuf → Result (Bytes × Bytes)
string_loop zero s b = fail no_fuel
string_loop (suc rounds) [] b = fail (abort bad_json)
string_loop (suc rounds) (c ∷ s) b = elim (c == b'"') [
  | true ↦ ok (b.buf, s)
  | false ↦ do r ← string_round c s b; string_loop rounds r.1 r.0
]

-- Behind the opening quote: the bytes of the string, and what is left behind the closing quote.
abbrev pub json_parse_string : Bytes → Result (Bytes × Bytes)
json_parse_string s = string_loop (suc (length s)) s gbuf_init

abbrev pub is_digit : ℕ → Bool
is_digit c = leb b'0' c && leb c b'9'

-- The digits that come first, and what is left.
unfoldable pub span_digits : Bytes → Bytes × Bytes
span_digits [] = ([], [])
span_digits (c ∷ s) = elim (is_digit c) [
  | true ↦ let r = span_digits s in (c ∷ r.0, r.1)
  | false ↦ ([], c ∷ s)
]

-- One byte that passes the test, if it comes first.
unfoldable pub span_one : (ℕ → Bool) → Bytes → Bytes × Bytes
span_one test [] = ([], [])
span_one test (c ∷ s) = elim (test c) [ true ↦ (c ∷ [], s) | false ↦ ([], c ∷ s) ]

pub record NumberToken : Type 0 where
  pub minus : Bytes
  pub whole : Bytes
  pub fraction : Bytes
  pub exponent : Bytes
  pub rest : Bytes

-- The mark that has been found, if any, and the digits behind it; the last two arguments are the
-- input behind and before the mark.
abbrev pub fraction_from : Bytes → Bytes → Bytes → Bytes × Bytes
fraction_from [] after s = ([], s)
fraction_from (c ∷ mark) after s = let ds = span_digits after in ((c ∷ mark) ++ ds.0, ds.1)

unfoldable pub fraction_token : Bytes → Bytes × Bytes
fraction_token s = let dot = span_one (λ c. c == b'.') s in fraction_from dot.0 dot.1 s

abbrev pub exponent_from : Bytes → Bytes → Bytes → Bytes × Bytes
exponent_from [] after s = ([], s)
exponent_from (c ∷ mark) after s =
    let sign = span_one (λ d. d == b'+' || d == b'-') after in
    let ds = span_digits sign.1 in ((c ∷ mark) ++ sign.0 ++ ds.0, ds.1)

unfoldable pub exponent_token : Bytes → Bytes × Bytes
exponent_token s =
    let mark = span_one (λ c. c == b'e' || c == b'E') s in exponent_from mark.0 mark.1 s

unfoldable pub number_token : Bytes → NumberToken
number_token s =
    let sign = span_one (λ c. c == b'-') s in
    let ds = span_digits sign.1 in
    let frac = fraction_token ds.1 in
    let exp = exponent_token frac.1 in
    record { minus = sign.0; whole = ds.0; fraction = frac.0; exponent = exp.0; rest = exp.1 }

-- `strtoll` in base 10.
unfoldable pub decimal : ℕ → Bytes → ℕ
decimal n [] = n
decimal n (c ∷ ds) = decimal (n * 10 + (c - b'0')) ds

-- `none` is `ERANGE`.
unfoldable pub strtoll : Bytes → ℕ → Option ℤ
strtoll [] n = if ltb n (2 ^ 63) then some (pos n) else none
strtoll (_ ∷ _) zero = some (pos 0)
strtoll (_ ∷ _) (suc n) = if ltb n (2 ^ 63) then some (negsuc n) else none

abbrev pub integer_value : Option ℤ → Bytes → Result (Value × Bytes)
integer_value none s = fail (abort out_of_range)
integer_value (some i) s = ok (int i, s)

abbrev pub whole_value : Bytes → Bytes → Bytes → Result (Value × Bytes)
whole_value minus [] s = fail (abort bad_json)
whole_value minus (d ∷ ds) s = integer_value (strtoll minus (decimal 0 (d ∷ ds))) s

-- `strtod` stands for the function of C's library, on the bits of a float.
module _ (strtod : Bytes → ℕ) where
  -- The third argument is what a token has behind its whole digits: a float's is not empty.
  abbrev pub number_value : Bytes → Bytes → Bytes → Bytes → Result (Value × Bytes)
  number_value minus whole [] s = whole_value minus whole s
  number_value minus whole (c ∷ behind) s = ok (flo (strtod (minus ++ whole ++ (c ∷ behind))), s)

  unfoldable pub json_parse_number : Bytes → Result (Value × Bytes)
  json_parse_number s =
      let t = number_token s in number_value t.minus t.whole (t.fraction ++ t.exponent) t.rest
