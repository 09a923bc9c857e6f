-- ===== src/Json/Proofs/Numbers.antt =====
-- The numbers that the reader of icecreme/json.c takes off a text, whatever follows them.
use creme.Common.{
  ℕ, suc, ◌^◌, ◌<◌, ◌≡◌, refl, subst, ap, inl, inr, Bool, true, false, ◌||◌, none, some, Option, [],
  ◌∷◌, ◌++◌, Result, ok, fail, ◌==◌, Bool-cases, lt→ltb, arith,
}
use creme.Csv.Parse.{Bytes}
use creme.Csv.Proofs.Cells.{and-true}
use creme.Csv.Write.{show_int}
use creme.Json.Reader.{
  is_digit, span_digits, span_one, fraction_from, fraction_token, exponent_from, exponent_token,
  number_token, NumberToken, decimal, strtoll, integer_value, whole_value, number_value,
  json_parse_number,
}
use creme.Value.{ℤ, pos, negsuc, Value, int}
use creme.Json.Proofs.Digits.{all_digits, span_digits-all, digits-all, decimal-digits, digits-cons}

-- What follows a value in a document.
abbrev pub stops : Bytes → Bool
stops [] = true
stops (c ∷ s) = c == b',' || c == b']' || c == b'}'

span_digits-append :
    (s rest : Bytes)
    → stops rest ≡ true
    → span_digits (s ++ rest) ≡ ((span_digits s).0, (span_digits s).1 ++ rest)
unfolding span_digits
span_digits-append [] [] h = refl
span_digits-append [] (c ∷ rest) h =
    let e : is_digit c ≡ false = ground arith in rw (e, span_digits) refl
span_digits-append (c ∷ s) rest h = elim (Bool-cases (is_digit c)) [
  | inl e ↦ rw (e, span_digits, span_digits-append s rest h) refl
  | inr e ↦ rw (e, span_digits) refl
]

-- A byte that may follow a value does not pass the test.
span_one-append :
    (test : ℕ → Bool) (s rest : Bytes)
    → ((c : ℕ) → (c == b',' || c == b']' || c == b'}') ≡ true → test c ≡ false)
    → stops rest ≡ true
    → span_one test (s ++ rest) ≡ ((span_one test s).0, (span_one test s).1 ++ rest)
unfolding span_one
span_one-append test [] [] k h = refl
span_one-append test [] (c ∷ rest) k h = rw (k c h) refl
span_one-append test (c ∷ s) rest k h = elim (Bool-cases (test c)) [
  | inl e ↦ rw (e, span_one) refl
  | inr e ↦ rw (e, span_one) refl
]

not_dot : (c : ℕ) → (c == b',' || c == b']' || c == b'}') ≡ true → (c == b'.') ≡ false
not_dot c h = ground arith

not_minus : (c : ℕ) → (c == b',' || c == b']' || c == b'}') ≡ true → (c == b'-') ≡ false
not_minus c h = ground arith

not_mark : (c : ℕ) → (c == b',' || c == b']' || c == b'}') ≡ true → (c == b'e' || c == b'E') ≡ false
not_mark c h = ground arith

not_sign : (c : ℕ) → (c == b',' || c == b']' || c == b'}') ≡ true → (c == b'+' || c == b'-') ≡ false
not_sign c h = ground arith

fraction_from-append :
    (mark after s rest : Bytes)
    → stops rest ≡ true
    → fraction_from mark (after ++ rest) (s ++ rest)
      ≡ ((fraction_from mark after s).0, (fraction_from mark after s).1 ++ rest)
fraction_from-append [] after s rest h = refl
fraction_from-append (c ∷ mark) after s rest h = rw (span_digits-append after rest h) refl

exponent_from-append :
    (mark after s rest : Bytes)
    → stops rest ≡ true
    → exponent_from mark (after ++ rest) (s ++ rest)
      ≡ ((exponent_from mark after s).0, (exponent_from mark after s).1 ++ rest)
exponent_from-append [] after s rest h = refl
exponent_from-append (c ∷ mark) after s rest h =
    let is_sign : ℕ → Bool = λ d. d == b'+' || d == b'-' in
    rw
      (
        span_one-append is_sign after rest not_sign h,
        span_digits-append (span_one is_sign after).1 rest h,
      )
      refl

fraction_token-append :
    (s rest : Bytes)
    → stops rest ≡ true
    → fraction_token (s ++ rest) ≡ ((fraction_token s).0, (fraction_token s).1 ++ rest)
unfolding fraction_token
fraction_token-append s rest h =
    let dot = span_one (λ c. c == b'.') s in
    rw
      (span_one-append (λ c. c == b'.') s rest not_dot h, fraction_from-append dot.0 dot.1 s rest h)
      refl

exponent_token-append :
    (s rest : Bytes)
    → stops rest ≡ true
    → exponent_token (s ++ rest) ≡ ((exponent_token s).0, (exponent_token s).1 ++ rest)
unfolding exponent_token
exponent_token-append s rest h =
    let mark = span_one (λ c. c == b'e' || c == b'E') s in
    rw
      (
        span_one-append (λ c. c == b'e' || c == b'E') s rest not_mark h,
        exponent_from-append mark.0 mark.1 s rest h,
      )
      refl

number_token-append :
    (s rest : Bytes)
    → stops rest ≡ true
    → number_token (s ++ rest)
      ≡ record (number_token s) { rest = NumberToken.rest (number_token s) ++ rest }
unfolding number_token
number_token-append s rest h =
    let sign = span_one (λ c. c == b'-') s in
    let ds = span_digits sign.1 in
    let frac = fraction_token ds.1 in
    rw
      (
        span_one-append (λ c. c == b'-') s rest not_minus h,
        span_digits-append sign.1 rest h,
        fraction_token-append ds.1 rest h,
        exponent_token-append frac.1 rest h,
      )
      refl

-- The result, with more bytes left.
abbrev leave : Bytes → Result (Value × Bytes) → Result (Value × Bytes)
leave rest (ok r) = ok (r.0, r.1 ++ rest)
leave rest (fail why) = fail why

integer_value-append :
    (i : Option ℤ) (s rest : Bytes) → integer_value i (s ++ rest) ≡ leave rest (integer_value i s)
integer_value-append none s rest = refl
integer_value-append (some i) s rest = refl

whole_value-append :
    (minus ds s rest : Bytes)
    → whole_value minus ds (s ++ rest) ≡ leave rest (whole_value minus ds s)
whole_value-append minus [] s rest = refl
whole_value-append minus (d ∷ ds) s rest =
    integer_value-append (strtoll minus (decimal 0 (d ∷ ds))) s rest

number_value-append :
    (strtod : Bytes → ℕ) (minus whole behind s rest : Bytes)
    → number_value strtod minus whole behind (s ++ rest)
      ≡ leave rest (number_value strtod minus whole behind s)
number_value-append strtod minus whole [] s rest = whole_value-append minus whole s rest
number_value-append strtod minus whole (c ∷ behind) s rest = refl

-- A text that is a number on its own is the same number before what may follow a value.
pub json_parse_number-append :
    (strtod : Bytes → ℕ) (text rest : Bytes) {v : Value}
    → json_parse_number strtod text ≡ ok (v, [])
    → stops rest ≡ true
    → json_parse_number strtod (text ++ rest) ≡ ok (v, rest)
unfolding json_parse_number
json_parse_number-append strtod text rest e h =
    let t = number_token text in
    rw
      (
        number_token-append text rest h,
        number_value-append strtod t.minus t.whole (t.fraction ++ t.exponent) t.rest rest,
      )
      (ap (leave rest) e)

-- The integers that a C `int64_t` holds.
abbrev pub IsInt64 : ℤ → Type 0
IsInt64 (pos n) = n < 2 ^ 63
IsInt64 (negsuc n) = n < 2 ^ 63

-- The first byte sends the reader to its numbers.
abbrev pub starts_number : Bytes → Bool
starts_number [] = false
starts_number (c ∷ s) = c == b'-' || is_digit c

-- The text is a number's, which the reader reads as the value.
pub record IsNumberText (strtod : Bytes → ℕ) (text : Bytes) (v : Value) : Type 0 where
  pub reads : json_parse_number strtod text ≡ ok (v, [])
  pub starts : starts_number text ≡ true

unsigned_lem :
    (strtod : Bytes → ℕ) (c : ℕ) (ds : Bytes)
    → all_digits (c ∷ ds) ≡ true
    → json_parse_number strtod (c ∷ ds) ≡ integer_value (strtoll [] (decimal 0 (c ∷ ds))) []
unfolding json_parse_number number_token span_one fraction_token exponent_token
unsigned_lem strtod c ds h =
    let (here, rest) = and-true (is_digit c) (all_digits ds) h in
    let plus : (c == b'-') ≡ false = ground arith in
    rw (plus, span_one, span_digits-all (c ∷ ds) h) refl

signed_lem :
    (strtod : Bytes → ℕ) (c : ℕ) (ds : Bytes)
    → all_digits (c ∷ ds) ≡ true
    → json_parse_number strtod (b'-' ∷ c ∷ ds)
      ≡ integer_value (strtoll (b'-' ∷ []) (decimal 0 (c ∷ ds))) []
unfolding json_parse_number number_token span_one fraction_token exponent_token
signed_lem strtod c ds h = rw (span_digits-all (c ∷ ds) h) refl

-- A machine integer is read as itself.
pub show_int-IsNumberText :
    (strtod : Bytes → ℕ) (i : ℤ) → IsInt64 i → IsNumberText strtod (show_int i) (int i)
unfolding strtoll
show_int-IsNumberText strtod (pos n) word =
    let (c, ds, q) = digits-cons (suc n) n (omega arith) in
    let all : all_digits (c ∷ ds) ≡ true =
      subst (λ t. all_digits t ≡ true) q (digits-all (suc n) n) in
    let value : decimal 0 (c ∷ ds) ≡ n =
      subst (λ t. decimal 0 t ≡ n) q (decimal-digits (suc n) n (omega arith)) in
    let (here, rest) = and-true (is_digit c) (all_digits ds) all in
    record {
      reads = rw (q, unsigned_lem strtod c ds all, value, lt→ltb n (2 ^ 63) word) refl;
      starts = rw q (ground arith);
    }
show_int-IsNumberText strtod (negsuc n) word =
    let (c, ds, q) = digits-cons (suc (suc n)) (suc n) (omega arith) in
    let all : all_digits (c ∷ ds) ≡ true =
      subst (λ t. all_digits t ≡ true) q (digits-all (suc (suc n)) (suc n)) in
    let value : decimal 0 (c ∷ ds) ≡ suc n =
      subst (λ t. decimal 0 t ≡ suc n) q (decimal-digits (suc (suc n)) (suc n) (omega arith)) in
    record {
      reads = rw (q, signed_lem strtod c ds all, value, lt→ltb n (2 ^ 63) word) refl;
      starts = refl;
    }
