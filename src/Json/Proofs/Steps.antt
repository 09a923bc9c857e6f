-- ===== src/Json/Proofs/Steps.antt =====
-- The parts of the reader of icecreme/json.c that do not recurse end on every input.
use creme.Common.{
  ℕ, ◌≤◌, ◌<◌, ◌≡◌, sym, inl, inr, ◌||◌, none, some, Option, Bool, List, [], ◌∷◌, ◌++◌, Result, ok,
  fail, abort, Abort, length, ◌==◌, Bool-cases, Option-cases, arith,
}
use creme.Csv.Parse.{Bytes}
use creme.Json.Proofs.Total.{
  Ends, returned, aborted, Ends-weaken, Left, Some, length-jr_skip_ws, json_parse_string-Ends,
}
use creme.Json.Reader.{
  jr_skip_ws, json_parse_string, is_digit, span_digits, span_one, fraction_from, exponent_from,
  fraction_token, exponent_token, whole_value, number_token, NumberToken, integer_value, strtoll,
  decimal, number_value, json_parse_number,
}
use creme.Json.Values.{strip, literal, parse_string_value, expect, parse_key, alist_of}
use creme.Value.{ℤ, Value, Heap, M, lift, cons, new_vector, nil, bool, str}
use creme.Value

-- It returns with a result that satisfies `P`, whatever the heap, or aborts.
pub data Finishes {A : Type 0} (P : A → Type 0) : Result (A × Heap) → Type 0 where
  finished : (a : A) (h : Heap) → P a → Finishes P (ok (a, h))
  gave_up : (why : Abort) → Finishes P (fail (abort why))

abbrev pub EndsOn : {A : Type 0} → (A → Type 0) → M A → Type 0
EndsOn P m = (h : Heap) → Finishes P (m h)

module _ {A B : Type 0} {P : A → Type 0} {Q : B → Type 0} where
  bind-Finishes :
      (f : A → M B) {r : Result (A × Heap)}
      → Finishes P r
      → ((a : A) → P a → EndsOn Q (f a))
      → Finishes Q (elim r [ fail e ↦ fail e | ok r ↦ f r.0 r.1 ])
  bind-Finishes f (finished a h p) k = k a p h
  bind-Finishes f (gave_up why) k = gave_up why

  pub EndsOn-bind :
      (m : M A) (f : A → M B)
      → EndsOn P m
      → ((a : A) → P a → EndsOn Q (f a))
      → EndsOn Q (Value.◌>>=◌ m f)
  EndsOn-bind m f s k h = bind-Finishes f (s h) k

pub EndsOn-lift : {A : Type 0} {P : A → Type 0} {r : Result A} → Ends P r → EndsOn P (lift r)
EndsOn-lift (returned a p) h = finished a h p
EndsOn-lift (aborted why) h = gave_up why

pub Finishes-weaken :
    {A : Type 0} {P Q : A → Type 0} {r : Result (A × Heap)}
    → Finishes P r
    → ((a : A) → P a → Q a)
    → Finishes Q r
Finishes-weaken (finished a h p) k = finished a h (k a p)
Finishes-weaken (gave_up why) k = gave_up why

-- Numbers.
length-span_digits : (s : Bytes) → length (span_digits s).1 ≤ length s
unfolding span_digits
length-span_digits [] = omega arith
length-span_digits (c ∷ s) = elim (Bool-cases (is_digit c)) [
  | inl e ↦ rw (e, span_digits) (omega (arith, length-span_digits s))
  | inr e ↦ rw (e, span_digits) (omega arith)
]

length-span_one : (test : ℕ → Bool) (s : Bytes) → length (span_one test s).1 ≤ length s
unfolding span_one
length-span_one test [] = omega arith
length-span_one test (c ∷ s) = elim (Bool-cases (test c)) [
  | inl e ↦ rw (e, span_one) (omega arith)
  | inr e ↦ rw (e, span_one) (omega arith)
]

length-fraction_from :
    (mark after s : Bytes)
    → length after ≤ length s
    → length (fraction_from mark after s).1 ≤ length s
length-fraction_from [] after s h = omega arith
length-fraction_from (c ∷ mark) after s h = omega (arith, length-span_digits after)

length-exponent_from :
    (mark after s : Bytes)
    → length after ≤ length s
    → length (exponent_from mark after s).1 ≤ length s
length-exponent_from [] after s h = omega arith
length-exponent_from (c ∷ mark) after s h =
    let sign = span_one (λ d. d == b'+' || d == b'-') after in
    omega (arith, length-span_digits sign.1, length-span_one (λ d. d == b'+' || d == b'-') after)

length-number_token : (s : Bytes) → length (NumberToken.rest (number_token s)) ≤ length s
unfolding number_token fraction_token exponent_token
length-number_token s =
    let sign = span_one (λ c. c == b'-') s in
    let ds = span_digits sign.1 in
    let dot = span_one (λ c. c == b'.') ds.1 in
    let frac = fraction_from dot.0 dot.1 ds.1 in
    let mark = span_one (λ c. c == b'e' || c == b'E') frac.1 in
    omega (
      arith,
      length-span_one (λ c. c == b'-') s,
      length-span_digits sign.1,
      length-fraction_from dot.0 dot.1 ds.1 (length-span_one (λ c. c == b'.') ds.1),
      length-exponent_from mark.0 mark.1 frac.1
          (length-span_one (λ c. c == b'e' || c == b'E') frac.1),
    )

integer_value-Ends : (i : Option ℤ) (s : Bytes) → Ends (Left (length s)) (integer_value i s)
integer_value-Ends none s = aborted _
integer_value-Ends (some i) s = returned _ (omega arith)

whole_value-Ends : (minus ds s : Bytes) → Ends (Left (length s)) (whole_value minus ds s)
whole_value-Ends minus [] s = aborted _
whole_value-Ends minus (d ∷ ds) s = integer_value-Ends (strtoll minus (decimal 0 (d ∷ ds))) s

number_value-Ends :
    (strtod : Bytes → ℕ) (minus whole behind s : Bytes)
    → Ends (Left (length s)) (number_value strtod minus whole behind s)
number_value-Ends strtod minus whole [] s = whole_value-Ends minus whole s
number_value-Ends strtod minus whole (c ∷ behind) s = returned _ (omega arith)

pub json_parse_number-Ends :
    (strtod : Bytes → ℕ) (s : Bytes) → Ends (Left (length s)) (json_parse_number strtod s)
unfolding json_parse_number
json_parse_number-Ends strtod s =
    let t = number_token s in
    Ends-weaken (number_value-Ends strtod t.minus t.whole (t.fraction ++ t.exponent) t.rest)
      (λ r left. omega (arith, length-number_token s))

-- The parts of a value.
strip-shorter : (text s : Bytes) {rest : Bytes} → strip text s ≡ some rest → length rest ≤ length s
strip-shorter [] s {rest} e = let q : s ≡ rest = cc e in rw (sym q) (omega arith)
strip-shorter (c ∷ text) [] e = absurd (cc e)
strip-shorter (c ∷ text) (d ∷ s) e = elim (Bool-cases (d == c)) [
  | inl q ↦ let e' = rw q at e in omega (arith, strip-shorter text s e')
  | inr q ↦ absurd (cc (rw q at e))
]

pub literal-EndsOn : (text s : Bytes) (v : Value) → EndsOn (Left (length s)) (literal text v s)
literal-EndsOn text s v h = elim (Option-cases (strip text s)) [
  | inl e ↦ rw (e, literal) (gave_up _)
  | inr (rest, e) ↦ rw (e, literal) (finished (v, rest) h (strip-shorter text s e))
]

pub parse_string_value-EndsOn : (s : Bytes) → EndsOn (Left (length s)) (parse_string_value s)
parse_string_value-EndsOn s =
    EndsOn-bind (lift (json_parse_string s)) _ (EndsOn-lift (json_parse_string-Ends s))
      (λ r left h. finished (str r.0, r.1) h left)

pub expect-EndsOn : (c : ℕ) (s : Bytes) → EndsOn (λ rest. length rest < length s) (expect c s)
unfolding expect
expect-EndsOn c [] h = gave_up _
expect-EndsOn c (d ∷ s) h = elim (Bool-cases (d == c)) [
  | inl e ↦ rw (e, expect) (finished s h (omega arith))
  | inr e ↦ rw (e, expect) (gave_up _)
]

-- Less than `n` bytes are left.
abbrev pub Under : {A : Type 0} → ℕ → A × Bytes → Type 0
Under n r = length r.1 < n

pub parse_key-EndsOn : (s : Bytes) → EndsOn (Under (length s)) (parse_key s)
unfolding parse_key
parse_key-EndsOn s = EndsOn-bind _ _ (expect-EndsOn b'"' (jr_skip_ws s)) (λ s1 less1.
    EndsOn-bind _ _ (EndsOn-lift (json_parse_string-Ends s1)) (λ key left.
      EndsOn-bind _ _ (expect-EndsOn b':' (jr_skip_ws key.1)) (λ s2 less2 h.
        finished (str key.0, jr_skip_ws s2) h
          (omega (arith, length-jr_skip_ws s, length-jr_skip_ws key.1, length-jr_skip_ws s2)))))

pub cons-EndsOn : (a d : Value) → EndsOn Some (cons a d)
unfolding cons
cons-EndsOn a d h = finished _ _ tt

pub alist_of-EndsOn : (vs : List Value) → EndsOn Some (alist_of vs)
unfolding alist_of
alist_of-EndsOn [] = λ h. finished nil h tt
alist_of-EndsOn (v ∷ vs) = EndsOn-bind _ _ (alist_of-EndsOn vs) (λ result t. cons-EndsOn v result)
