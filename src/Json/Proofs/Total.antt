-- ===== src/Json/Proofs/Total.antt =====
-- The reader of icecreme/json.c ends on every input: with a value and a rest of the input, or with
-- an abort.
use creme.Common.{
  ℕ, zero, Bool, suc, ◌+◌, ◌*◌, ◌/◌, ◌%◌, ◌≤◌, ◌<◌, inl, inr, true, false, [], ◌∷◌, Result, ok,
  fail, abort, Abort, ◌>>=◌, require, too_large, length, ltb, leb, ◌==◌, Bool-cases, Option-cases,
  arith,
}
use creme.Csv.Parse.{Bytes}
use creme.Csv.Write.{int_max, grow_cap}
use creme.Json.Buffer.{GBuf, gbuf_init, gbuf_reserve, gbuf_putc}
use creme.Json.Reader.{
  is_space, jr_skip_ws, hex_value, hex_digit_or_abort, hex4, put_code_point, unicode_escape,
  letter_escape, string_escape, string_round, string_loop, json_parse_string,
}

-- It returns with a result that satisfies `P`, or aborts.
pub data Ends {A : Type 0} (P : A → Type 0) : Result A → Type 0 where
  returned : (a : A) → P a → Ends P (ok a)
  aborted : (why : Abort) → Ends P (fail (abort why))

pub Ends-bind :
    {A B : Type 0} {P : A → Type 0} {Q : B → Type 0} {m : Result A} (f : A → Result B)
    → Ends P m
    → ((a : A) → P a → Ends Q (f a))
    → Ends Q (m >>= f)
Ends-bind f (returned a p) k = k a p
Ends-bind f (aborted why) k = aborted why

pub Ends-weaken :
    {A : Type 0} {P Q : A → Type 0} {m : Result A} → Ends P m → ((a : A) → P a → Q a) → Ends Q m
Ends-weaken (returned a p) k = returned a (k a p)
Ends-weaken (aborted why) k = aborted why

-- No more than `n` bytes are left.
abbrev pub Left : {A : Type 0} → ℕ → A × Bytes → Type 0
Left n r = length r.1 ≤ n

-- No claim about the result.
abbrev pub Some : {A : Type 0} → A → Type 0
Some a = Unit {0}

require-Ends : (b : Bool) (why : Abort) → Ends Some (require b why)
require-Ends true why = returned tt tt
require-Ends false why = aborted why

gbuf_putc-Ends : (b : GBuf) (c : ℕ) → Ends Some (gbuf_putc b c)
unfolding gbuf_reserve
gbuf_putc-Ends b c = elim (Bool-cases (leb (length b.buf + 1) b.cap)) [
  | inl e ↦ rw (e, gbuf_reserve) (returned _ tt)
  | inr e ↦
      let grown = grow_cap (length b.buf + 1) (b.cap * 2) (length b.buf + 1) in
      elim (Bool-cases (leb grown int_max)) [
        | inl e' ↦ rw (e, gbuf_reserve, e') (returned _ tt)
        | inr e' ↦ rw (e, gbuf_reserve, e') (aborted too_large)
      ]
]

pub length-jr_skip_ws : (s : Bytes) → length (jr_skip_ws s) ≤ length s
unfolding jr_skip_ws
length-jr_skip_ws [] = omega arith
length-jr_skip_ws (c ∷ s) = elim (Bool-cases (is_space c)) [
  | inl e ↦ rw (e, jr_skip_ws) (omega (arith, length-jr_skip_ws s))
  | inr e ↦ rw (e, jr_skip_ws) (omega arith)
]

hex_digit_or_abort-Ends : (h : ℕ) → Ends Some (hex_digit_or_abort h)
unfolding hex_digit_or_abort
hex_digit_or_abort-Ends h = elim (Option-cases (hex_value h)) [
  | inl e ↦ rw (e, hex_digit_or_abort) (aborted _)
  | inr (d, e) ↦ rw (e, hex_digit_or_abort) (returned d tt)
]

hex4-Ends : (h0 h1 h2 h3 : ℕ) → Ends Some (hex4 h0 h1 h2 h3)
unfolding hex4
hex4-Ends h0 h1 h2 h3 = Ends-bind _ (hex_digit_or_abort-Ends h0) (λ d0 t0.
    Ends-bind _ (hex_digit_or_abort-Ends h1) (λ d1 t1.
      Ends-bind _ (hex_digit_or_abort-Ends h2)
        (λ d2 t2. Ends-bind _ (hex_digit_or_abort-Ends h3) (λ d3 t3. returned _ tt))))

put_code_point-Ends : (b : GBuf) (cp : ℕ) → Ends Some (put_code_point b cp)
unfolding put_code_point
put_code_point-Ends b cp = elim (Bool-cases (ltb cp 128)) [
  | inl e ↦ rw (e, put_code_point) (gbuf_putc-Ends b cp)
  | inr e ↦ elim (Bool-cases (ltb cp 2048)) [
    | inl e' ↦
        rw (e, put_code_point, e')
          (Ends-bind _ (gbuf_putc-Ends b (192 + cp / 64)) (λ b' t. gbuf_putc-Ends b' _))
    | inr e' ↦
        rw (e, put_code_point, e')
          (Ends-bind _ (gbuf_putc-Ends b (224 + cp / 4096)) (λ b' t.
            Ends-bind _ (gbuf_putc-Ends b' (128 + cp / 64 % 64)) (λ b'' t'. gbuf_putc-Ends b'' _)))
  ]
]

unicode_escape-Ends : (s : Bytes) (b : GBuf) → Ends (Left (length s)) (unicode_escape s b)
unfolding unicode_escape
unicode_escape-Ends [] b = aborted _
unicode_escape-Ends (h0 ∷ []) b = aborted _
unicode_escape-Ends (h0 ∷ h1 ∷ []) b = aborted _
unicode_escape-Ends (h0 ∷ h1 ∷ h2 ∷ []) b = aborted _
unicode_escape-Ends (h0 ∷ h1 ∷ h2 ∷ h3 ∷ s) b =
    Ends-bind _ (hex4-Ends h0 h1 h2 h3)
      (λ cp t. Ends-bind _ (put_code_point-Ends b cp) (λ b' t'. returned _ (omega arith)))

string_escape-Ends : (s : Bytes) (b : GBuf) → Ends (Left (length s)) (string_escape s b)
unfolding string_escape
string_escape-Ends [] b = aborted _
string_escape-Ends (e ∷ s) b = elim (Option-cases (letter_escape e)) [
  | inr (c, q) ↦
      rw (q, string_escape) (Ends-bind _ (gbuf_putc-Ends b c) (λ b' t. returned _ (omega arith)))
  | inl q ↦ elim (Bool-cases (e == b'u')) [
    | inl u ↦
        rw (q, string_escape, u) (Ends-weaken (unicode_escape-Ends s b) (λ r left. omega arith))
    | inr u ↦ rw (q, string_escape, u) (aborted _)
  ]
]

string_round-Ends : (c : ℕ) (s : Bytes) (b : GBuf) → Ends (Left (length s)) (string_round c s b)
unfolding string_round
string_round-Ends c s b = elim (Bool-cases (c == b'\\')) [
  | inl e ↦ rw (e, string_round) (string_escape-Ends s b)
  | inr e ↦
      rw (e, string_round) (Ends-bind _ (gbuf_putc-Ends b c) (λ b' t. returned _ (omega arith)))
]

string_loop-Ends :
    (rounds : ℕ) (s : Bytes) (b : GBuf)
    → length s < rounds
    → Ends (Left (length s)) (string_loop rounds s b)
unfolding string_loop
string_loop-Ends zero s b h = elim h [ ]
string_loop-Ends (suc rounds) [] b h = aborted _
string_loop-Ends (suc rounds) (c ∷ s) b h = elim (Bool-cases (c == b'"')) [
  | inl e ↦ rw (e, string_loop) (returned _ (omega arith))
  | inr e ↦
      rw (e, string_loop)
        (Ends-bind _ (string_round-Ends c s b) (λ r left.
          Ends-weaken (string_loop-Ends rounds r.1 r.0 (omega arith)) (λ q left'. omega arith)))
]

pub json_parse_string-Ends : (s : Bytes) → Ends (Left (length s)) (json_parse_string s)
json_parse_string-Ends s = string_loop-Ends (suc (length s)) s gbuf_init (omega arith)
