-- ===== src/Json/Proofs/Digits.antt =====
-- The decimal digits that icecreme/json.c prints for an integer are read as that integer.
use creme.Common.{
  ℕ, zero, suc, ◌+◌, ◌-◌, ◌*◌, ◌/◌, ◌%◌, ◌≤◌, ◌<◌, ◌≡◌, refl, inl, inr, Bool, true, ◌&&◌, [], ◌∷◌,
  ◌++◌, ltb, Bool-cases, arith,
}
use creme.Csv.Parse.{Bytes}
use creme.Csv.Proofs.Cells.{and-true}
use creme.Csv.Write.{digits}
use creme.Json.Reader.{is_digit, span_digits, decimal}

-- The digits of a number.
abbrev pub all_digits : Bytes → Bool
all_digits [] = true
all_digits (c ∷ s) = is_digit c && all_digits s

pub span_digits-all : (s : Bytes) → all_digits s ≡ true → span_digits s ≡ (s, [])
unfolding span_digits
span_digits-all [] h = refl
span_digits-all (c ∷ s) h =
    let (here, rest) = and-true (is_digit c) (all_digits s) h in
    rw (here, span_digits, span_digits-all s rest) refl

all_digits-append :
    (s : Bytes) (c : ℕ)
    → all_digits s ≡ true
    → is_digit c ≡ true
    → all_digits (s ++ (c ∷ [])) ≡ true
all_digits-append [] c h d = rw d refl
all_digits-append (x ∷ s) c h d =
    let (here, rest) = and-true (is_digit x) (all_digits s) h in
    rw (here, all_digits-append s c rest d) refl

pub digits-all : (rounds n : ℕ) → all_digits (digits rounds n) ≡ true
unfolding digits
digits-all zero n = refl
digits-all (suc rounds) n = elim (Bool-cases (ltb n 10)) [
  | inl e ↦ let d : is_digit (b'0' + n) ≡ true = ground arith in rw (e, digits, d) refl
  | inr e ↦
      let d : is_digit (b'0' + n % 10) ≡ true = ground arith in
      rw (e, digits) (all_digits-append (digits rounds (n / 10)) _ (digits-all rounds (n / 10)) d)
]

decimal-append :
    (a : ℕ) (s : Bytes) (c : ℕ) → decimal a (s ++ (c ∷ [])) ≡ decimal a s * 10 + (c - b'0')
unfolding decimal
decimal-append a [] c = refl
decimal-append a (x ∷ s) c = decimal-append (a * 10 + (x - b'0')) s c

pub decimal-digits : (rounds n : ℕ) → n < rounds → decimal 0 (digits rounds n) ≡ n
unfolding decimal digits
decimal-digits zero n h = elim h [ ]
decimal-digits (suc rounds) n h = elim (Bool-cases (ltb n 10)) [
  | inl e ↦ rw (e, digits) (omega arith)
  | inr e ↦
      let big : 10 ≤ n = ground arith in
      rw
        (
          e,
          digits,
          decimal-append 0 (digits rounds (n / 10)) (b'0' + n % 10),
          decimal-digits rounds (n / 10) (omega arith),
        )
        (omega arith)
]

pub digits-cons : (rounds n : ℕ) → n < rounds → (c : ℕ) × (ds : Bytes) × (digits rounds n ≡ c ∷ ds)
unfolding digits
digits-cons zero n h = elim h [ ]
digits-cons (suc rounds) n h = elim (Bool-cases (ltb n 10)) [
  | inl e ↦ rw (e, digits) (b'0' + n, [], refl)
  | inr e ↦
      let big : 10 ≤ n = ground arith in
      let (c, ds, q) = digits-cons rounds (n / 10) (omega arith) in
      rw (e, digits, q) (c, ds ++ ((b'0' + n % 10) ∷ []), refl)
]
