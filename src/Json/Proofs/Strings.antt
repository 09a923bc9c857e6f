-- ===== src/Json/Proofs/Strings.antt =====
-- The strings that the reader of icecreme/json.c reads back from the text of the writer.
use creme.Common.{
  ℕ, zero, suc, ◌+◌, ◌-◌, ◌*◌, ◌/◌, ◌%◌, ◌≤◌, ◌<◌, ◌≡◌, refl, sym, ap, subst, inl, inr, Bool, true,
  false, ◌∙◌, some, [], ◌∷◌, ◌++◌, append_assoc, append-nil, Result, ok, fail, ◌>>=◌, length,
  length-append, ltb, leb, ◌==◌, Bool-cases, ltb→lt, if◌then◌else◌, arith,
}
use creme.Csv.Parse.{Bytes}
use creme.Csv.Proofs.Buffer.{limit}
use creme.Json.Buffer.{GBuf, gbuf_init, gbuf_putc}
use creme.Json.Proofs.Puts.{IsGBuf, Puts, has_put, Fits, gbuf_putc_lem, gbuf_init-IsGBuf}
use creme.Json.Reader.{
  hex_value, hex_digit_or_abort, hex4, put_code_point, unicode_escape, string_escape, string_round,
  string_loop, json_parse_string,
}
use creme.Json.Spec.{byte_text, bytes_text}
use creme.Json.Writer.{hex_digit, control_escape}

hex_value-hex_digit : (d : ℕ) → d < 16 → hex_value (hex_digit d) ≡ some d
unfolding hex_value
hex_value-hex_digit d h = elim (Bool-cases (ltb d 10)) [
  | inl e ↦
      let small : d < 10 = ground arith in
      let low : leb b'0' (b'0' + d) ≡ true = ground arith in
      let high : leb (b'0' + d) b'9' ≡ true = ground arith in
      let back : (b'0' + d) - b'0' ≡ d = omega arith in rw (e, hex_value, low, high, back) refl
  | inr e ↦
      let big : 10 ≤ d = ground arith in
      let high : leb (b'a' + (d - 10)) b'9' ≡ false = ground arith in
      let low : leb b'0' (b'a' + (d - 10)) ≡ true = ground arith in
      let low' : leb b'a' (b'a' + (d - 10)) ≡ true = ground arith in
      let high' : leb (b'a' + (d - 10)) b'f' ≡ true = ground arith in
      let back : (b'a' + (d - 10)) - b'a' + 10 ≡ d = omega arith in
      rw (e, hex_value, low, high, low', high', back) refl
]

-- One round of the loop takes the text of one byte.
abbrev Takes : ℕ → Type 0
Takes c =
    (rounds : ℕ) (rest : Bytes) (b : GBuf)
    → string_loop (suc rounds) (byte_text c ++ rest) b
      ≡ (gbuf_putc b c >>= λ b'. string_loop rounds rest b')

one_put :
    (m : Result GBuf) (rounds : ℕ) (rest : Bytes)
    → ◌>>=◌ {A = GBuf × Bytes} (m >>= λ b'. ok (b', rest)) (λ r. string_loop rounds r.1 r.0)
      ≡ (m >>= λ b'. string_loop rounds rest b')
one_put (ok b') rounds rest = refl
one_put (fail why) rounds rest = refl

plain-Takes : (c : ℕ) → byte_text c ≡ c ∷ [] → (c == b'"') ≡ false → (c == b'\\') ≡ false → Takes c
unfolding string_loop string_round
plain-Takes c e q s rounds rest b = rw (e, q, string_loop, s) (one_put (gbuf_putc b c) rounds rest)

zero_digit : hex_digit_or_abort b'0' ≡ ok 0
unfolding hex_digit_or_abort hex_value
zero_digit = refl

back_digit : (d : ℕ) → d < 16 → hex_digit_or_abort (hex_digit d) ≡ ok d
unfolding hex_digit_or_abort
back_digit d h = rw (hex_value-hex_digit d h, hex_digit_or_abort) refl

control_code : (c : ℕ) → c < 32 → hex4 b'0' b'0' (hex_digit (c / 16)) (hex_digit (c % 16)) ≡ ok c
unfolding hex4
control_code c small =
    let sum : ((0 * 16 + 0) * 16 + c / 16) * 16 + c % 16 ≡ c = omega arith in
    rw (zero_digit, back_digit (c / 16) (omega arith), back_digit (c % 16) (omega arith))
      (ap ok sum)

control-Takes : (c : ℕ) → byte_text c ≡ control_escape c → c < 32 → Takes c
unfolding string_loop string_round string_escape unicode_escape put_code_point
control-Takes c e small rounds rest b =
    let ascii : ltb c 128 ≡ true = ground arith in
    rw (e, control_code c small, ascii) (one_put (gbuf_putc b c) rounds rest)

quote-Takes : Takes b'"'
unfolding string_loop string_round string_escape byte_text
quote-Takes rounds rest b = one_put (gbuf_putc b b'"') rounds rest

backslash-Takes : Takes b'\\'
unfolding string_loop string_round string_escape byte_text
backslash-Takes rounds rest b = one_put (gbuf_putc b b'\\') rounds rest

newline-Takes : Takes b'\n'
unfolding string_loop string_round string_escape byte_text
newline-Takes rounds rest b = one_put (gbuf_putc b b'\n') rounds rest

return-Takes : Takes b'\r'
unfolding string_loop string_round string_escape byte_text
return-Takes rounds rest b = one_put (gbuf_putc b b'\r') rounds rest

tab-Takes : Takes b'\t'
unfolding string_loop string_round string_escape byte_text
tab-Takes rounds rest b = one_put (gbuf_putc b b'\t') rounds rest

same-Takes : (c d : ℕ) → (c == d) ≡ true → Takes d → Takes c
same-Takes c d e k = let same : d ≡ c = ground arith in subst (λ x. Takes x) same k

byte_text-Takes : (c : ℕ) → Takes c
unfolding byte_text
byte_text-Takes c = elim (Bool-cases (c == b'"')) [
  | inl e ↦ same-Takes c _ e quote-Takes
  | inr q ↦ elim (Bool-cases (c == b'\\')) [
    | inl e ↦ same-Takes c _ e backslash-Takes
    | inr s ↦ elim (Bool-cases (c == b'\n')) [
      | inl e ↦ same-Takes c _ e newline-Takes
      | inr n ↦ elim (Bool-cases (c == b'\r')) [
        | inl e ↦ same-Takes c _ e return-Takes
        | inr r ↦ elim (Bool-cases (c == b'\t')) [
          | inl e ↦ same-Takes c _ e tab-Takes
          | inr t ↦ elim (Bool-cases (ltb c 32)) [
            | inl e ↦ control-Takes c (rw (q, byte_text, s, n, r, t, e) refl) (ltb→lt c 32 e)
            | inr e ↦ plain-Takes c (rw (q, byte_text, s, n, r, t, e) refl) q s
          ]
        ]
      ]
    ]
  ]
]

after_put :
    {b : GBuf} {c : ℕ} (s rest : Bytes) {r : Result GBuf} {k : GBuf → Result (Bytes × Bytes)}
    → Puts b (c ∷ []) r
    → ((b' : GBuf) → IsGBuf b' → b'.buf ≡ b.buf ++ (c ∷ []) → k b' ≡ ok (b'.buf ++ s, rest))
    → (r >>= k) ≡ ok (b.buf ++ (c ∷ s), rest)
after_put {b} {c} s rest (has_put b' inside e) next =
    next b' inside e ∙ ap (λ x. ok (x, rest)) (ap (λ x. x ++ s) e ∙ append_assoc b.buf (c ∷ []) s)

-- The loop reads the text of a string behind the bytes that the buffer has, up to the closing quote.
string_loop-bytes_text :
    (s rest : Bytes) (rounds : ℕ) (b : GBuf)
    → length s < rounds
    → IsGBuf b
    → Fits b s
    → string_loop rounds (bytes_text s ++ (b'"' ∷ rest)) b ≡ ok (b.buf ++ s, rest)
unfolding bytes_text string_loop
string_loop-bytes_text s rest zero b h inside fits = elim h [ ]
string_loop-bytes_text [] rest (suc rounds) b h inside fits =
    ap (λ x. ok (x, rest)) (sym (append-nil b.buf))
string_loop-bytes_text (c ∷ s) rest (suc rounds) b h inside fits =
    rw
      (
        append_assoc (byte_text c) (bytes_text s) (b'"' ∷ rest),
        byte_text-Takes c rounds (bytes_text s ++ (b'"' ∷ rest)) b,
      )
      (after_put s rest (gbuf_putc_lem b c inside (omega arith)) (λ b' inside' e.
        let l : length b'.buf ≡ length (b.buf ++ (c ∷ [])) = ap length e in
        string_loop-bytes_text s rest rounds b' (omega arith) inside'
          (omega (arith, length-append b.buf (c ∷ [])))))

length-choice :
    (test : Bool) (x y : Bytes) → 1 ≤ length x → 1 ≤ length y → 1 ≤ length (if test then x else y)
length-choice true x y h k = h
length-choice false x y h k = k

length-byte_text : (c : ℕ) → 1 ≤ length (byte_text c)
unfolding byte_text
length-byte_text c = length-choice (c == b'"') _ _ (omega arith) (
    length-choice (c == b'\\') _ _ (omega arith) (
      length-choice (c == b'\n') _ _ (omega arith) (
        length-choice (c == b'\r') _ _ (omega arith) (
          length-choice (c == b'\t') _ _ (omega arith)
            (length-choice (ltb c 32) (control_escape c) (c ∷ []) (omega arith) (omega arith))))))

pub length-bytes_text : (s : Bytes) → length s ≤ length (bytes_text s)
unfolding bytes_text
length-bytes_text [] = omega arith
length-bytes_text (c ∷ s) =
    omega
      (arith, length-bytes_text s, length-append (byte_text c) (bytes_text s), length-byte_text c)

-- A string is read back from its text, behind the opening quote.
pub json_parse_string-bytes_text :
    (s rest : Bytes)
    → length s ≤ limit
    → json_parse_string (bytes_text s ++ (b'"' ∷ rest)) ≡ ok (s, rest)
json_parse_string-bytes_text s rest fits =
    string_loop-bytes_text s rest _ gbuf_init
      (omega (arith, length-append (bytes_text s) (b'"' ∷ rest), length-bytes_text s))
      gbuf_init-IsGBuf (omega arith)
