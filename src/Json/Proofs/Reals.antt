-- ===== src/Json/Proofs/Reals.antt =====
-- The text that icecreme/json.c writes for a finite float is read as that float.
use creme.Common.{
  ℕ, ◌≡◌, refl, inl, inr, ap, sym, subst, Bool, true, false, [], ◌∷◌, ◌++◌, ok, ◌==◌, Bool-cases,
  append-nil, arith,
}
use creme.Csv.Parse.{Bytes}
use creme.Json.Decimal.{
  IsDigits, last_digit, next_digit, IsFloatTail, fraction_tail, exponent_tail, both_tail, IsDecimal,
  whole_decimal, tail_decimal, sign_text, exponent_sign,
}
use creme.Json.Proofs.Numbers.{starts_number, IsNumberText}
use creme.Json.Reader.{
  is_digit, span_digits, span_one, fraction_token, exponent_token, number_token, json_parse_number,
}
use creme.Json.Spec.{float_text}
use creme.Json.Writer.{has_byte, looks_whole}
use creme.Value.{flo}

span_digits-IsDigits :
    {ds : Bytes} (tail : Bytes)
    → IsDigits ds
    → span_digits tail ≡ ([], tail)
    → span_digits (ds ++ tail) ≡ (ds, tail)
unfolding span_digits
span_digits-IsDigits tail (last_digit c low high) e =
    let d : is_digit c ≡ true = ground arith in rw (d, span_digits, e) refl
span_digits-IsDigits tail (next_digit c low high more) e =
    let d : is_digit c ≡ true = ground arith in
    rw (d, span_digits, span_digits-IsDigits tail more e) refl

has_byte-here : (c : ℕ) (s t : Bytes) → has_byte c (s ++ (c ∷ t)) ≡ true
unfolding has_byte
has_byte-here c [] t = let e : (c == c) ≡ true = ground arith in rw (e, has_byte) refl
has_byte-here c (d ∷ s) t = elim (Bool-cases (d == c)) [
  | inl e ↦ rw (e, has_byte) refl
  | inr e ↦ rw (e, has_byte) (has_byte-here c s t)
]

has_byte-IsDigits : (c : ℕ) {ds : Bytes} → is_digit c ≡ false → IsDigits ds → has_byte c ds ≡ false
unfolding has_byte
has_byte-IsDigits c other (last_digit d low high) =
    let e : (d == c) ≡ false = ground arith in rw (e, has_byte) refl
has_byte-IsDigits c other (next_digit d low high more) =
    let e : (d == c) ≡ false = ground arith in rw (e, has_byte) (has_byte-IsDigits c other more)

number_starts :
    (negative : Bool) {ds : Bytes} (tail : Bytes)
    → IsDigits ds
    → starts_number (sign_text negative ++ (ds ++ tail)) ≡ true
number_starts true tail w = refl
number_starts false tail (last_digit c low high) = ground arith
number_starts false tail (next_digit c low high more) = ground arith

span_sign :
    (negative : Bool) {ds : Bytes} (tail : Bytes)
    → IsDigits ds
    → span_one (λ c. c == b'-') (sign_text negative ++ (ds ++ tail))
      ≡ (sign_text negative, ds ++ tail)
unfolding span_one
span_sign true tail w = refl
span_sign false tail (last_digit c low high) =
    let e : (c == b'-') ≡ false = ground arith in rw (e, span_one) refl
span_sign false tail (next_digit c low high more) =
    let e : (c == b'-') ≡ false = ground arith in rw (e, span_one) refl

sign_assoc :
    (negative : Bool) (a b : Bytes)
    → (sign_text negative ++ a) ++ b ≡ sign_text negative ++ (a ++ b)
sign_assoc true a b = refl
sign_assoc false a b = refl

-- A number with a tail behind its whole digits is a float.
float-IsNumberText :
    (strtod : Bytes → ℕ) (negative : Bool) {ds frac exp rest : Bytes} (c : ℕ) (t : Bytes)
    → IsDigits ds
    → is_digit c ≡ false
    → fraction_token (c ∷ t) ≡ (frac, rest)
    → exponent_token rest ≡ (exp, [])
    → frac ++ exp ≡ c ∷ t
    → IsNumberText strtod
        (sign_text negative ++ (ds ++ (c ∷ t)))
        (flo (strtod (sign_text negative ++ (ds ++ (c ∷ t)))))
unfolding json_parse_number number_token span_digits
float-IsNumberText strtod negative {ds} c t w other f e q =
    let stop : span_digits (c ∷ t) ≡ ([], c ∷ t) = rw (other, span_digits) refl in
    record {
      reads =
          rw (span_sign negative (c ∷ t) w, span_digits-IsDigits (c ∷ t) w stop, f, e, q)
            (ap (λ s. ok (flo (strtod s), [])) (sign_assoc negative ds (c ∷ t)));
      starts = number_starts negative (c ∷ t) w;
    }

fraction_token-IsDigits :
    {fs : Bytes} (tail : Bytes)
    → IsDigits fs
    → span_digits tail ≡ ([], tail)
    → fraction_token (b'.' ∷ (fs ++ tail)) ≡ (b'.' ∷ fs, tail)
unfolding fraction_token span_one
fraction_token-IsDigits tail w stop = rw (span_digits-IsDigits tail w stop) refl

exponent_token-IsDigits :
    (below : Bool) {es : Bytes}
    → IsDigits es
    → exponent_token (b'e' ∷ exponent_sign below ∷ es) ≡ (b'e' ∷ exponent_sign below ∷ es, [])
unfolding exponent_token span_one span_digits
exponent_token-IsDigits true {es} w =
    rw (subst (λ s. span_digits s ≡ (es, [])) (append-nil es) (span_digits-IsDigits [] w refl)) refl
exponent_token-IsDigits false {es} w =
    rw (subst (λ s. span_digits s ≡ (es, [])) (append-nil es) (span_digits-IsDigits [] w refl)) refl

sign-IsNumberText :
    (strtod : Bytes → ℕ) (negative : Bool) {ds : Bytes} (tail : Bytes)
    → IsDigits ds
    → IsFloatTail tail
    → IsNumberText strtod
        (sign_text negative ++ (ds ++ tail))
        (flo (strtod (sign_text negative ++ (ds ++ tail))))
unfolding fraction_token exponent_token span_digits span_one
sign-IsNumberText strtod negative tail w (fraction_tail {fs} ws) =
    float-IsNumberText strtod negative b'.' fs w refl
      (subst (λ s. fraction_token (b'.' ∷ s) ≡ (b'.' ∷ fs, [])) (append-nil fs)
        (fraction_token-IsDigits [] ws refl))
      refl (append-nil (b'.' ∷ fs))
sign-IsNumberText strtod negative tail w (exponent_tail below {es} ws) =
    float-IsNumberText strtod negative b'e' (exponent_sign below ∷ es) w refl refl
      (exponent_token-IsDigits below ws) refl
sign-IsNumberText strtod negative tail w (both_tail below {fs} {es} wf we) =
    let exponent = b'e' ∷ exponent_sign below ∷ es in
    float-IsNumberText strtod negative b'.' (fs ++ exponent) w refl
      (fraction_token-IsDigits exponent wf refl) (exponent_token-IsDigits below we) refl

looks_whole-sign :
    (negative : Bool) (s : Bytes) → looks_whole (sign_text negative ++ s) ≡ looks_whole s
unfolding has_byte
looks_whole-sign true s = refl
looks_whole-sign false s = refl

looks_whole-IsDigits : {ds : Bytes} → IsDigits ds → looks_whole ds ≡ true
looks_whole-IsDigits w =
    rw (has_byte-IsDigits b'.' refl w, has_byte-IsDigits b'e' refl w, has_byte-IsDigits b'n' refl w)
      refl

looks_whole-IsFloatTail :
    (s : Bytes) {tail : Bytes} → IsFloatTail tail → looks_whole (s ++ tail) ≡ false
looks_whole-IsFloatTail s (fraction_tail {fs} w) = rw (has_byte-here b'.' s fs) refl
looks_whole-IsFloatTail s (exponent_tail below {es} w) =
    let here = has_byte-here b'e' s (exponent_sign below ∷ es) in
    elim (Bool-cases (has_byte b'.' (s ++ (b'e' ∷ exponent_sign below ∷ es)))) [
      | inl e ↦ rw e refl
      | inr e ↦ rw (e, here) refl
    ]
looks_whole-IsFloatTail s (both_tail below {fs} {es} w we) =
    rw (has_byte-here b'.' s (fs ++ (b'e' ∷ exponent_sign below ∷ es))) refl

whole_text :
    (print_float : ℕ → Bytes) (f : ℕ) (negative : Bool) {ds : Bytes}
    → IsDigits ds
    → print_float f ≡ sign_text negative ++ ds
    → float_text print_float f ≡ sign_text negative ++ (ds ++ (b'.' ∷ b'0' ∷ []))
whole_text print_float f negative {ds} w text =
    rw (text, looks_whole-sign negative ds, looks_whole-IsDigits w)
      (sign_assoc negative ds (b'.' ∷ b'0' ∷ []))

tail_text :
    (print_float : ℕ → Bytes) (f : ℕ) (negative : Bool) (ds : Bytes) {tail : Bytes}
    → IsFloatTail tail
    → print_float f ≡ sign_text negative ++ (ds ++ tail)
    → float_text print_float f ≡ sign_text negative ++ (ds ++ tail)
tail_text print_float f negative ds {tail} w text =
    rw (text, looks_whole-sign negative (ds ++ tail), looks_whole-IsFloatTail ds w)
      (append-nil (sign_text negative ++ (ds ++ tail)))

as_float :
    (strtod : Bytes → ℕ) {s : Bytes} (t : Bytes) {f : ℕ}
    → s ≡ t
    → strtod s ≡ f
    → IsNumberText strtod t (flo (strtod t))
    → IsNumberText strtod s (flo f)
as_float strtod {s} t q exact number =
    subst (λ g. IsNumberText strtod s (flo g)) exact
      (subst (λ u. IsNumberText strtod u (flo (strtod u))) (sym q) number)

-- A float whose text `strtod` reads as the float.
pub float_text-IsNumberText :
    (print_float : ℕ → Bytes) (strtod : Bytes → ℕ) (f : ℕ)
    → IsDecimal (print_float f)
    → strtod (float_text print_float f) ≡ f
    → IsNumberText strtod (float_text print_float f) (flo f)
float_text-IsNumberText print_float strtod f (whole_decimal negative {ds} w text) exact =
    let q = whole_text print_float f negative w text in
    as_float strtod (sign_text negative ++ (ds ++ (b'.' ∷ b'0' ∷ []))) q exact (
      sign-IsNumberText strtod negative (b'.' ∷ b'0' ∷ []) w
        (fraction_tail (last_digit b'0' (omega arith) (omega arith))))
float_text-IsNumberText print_float strtod f (tail_decimal negative {ds} {tail} w more text) exact =
    as_float strtod (sign_text negative ++ (ds ++ tail))
      (tail_text print_float f negative ds more text) exact
      (sign-IsNumberText strtod negative tail w more)
