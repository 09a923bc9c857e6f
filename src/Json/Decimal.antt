-- ===== src/Json/Decimal.antt =====
-- The text that `snprintf` makes of a finite float with `%.17g`, as C's standard describes it, for
-- icecreme/json.c.
use creme.Common.{ℕ, ◌≤◌, ◌≡◌, Bool, true, false, [], ◌∷◌, ◌++◌}
use creme.Csv.Parse.{Bytes}

pub data IsDigits : Bytes → Type 0 where
  last_digit : (c : ℕ) → b'0' ≤ c → c ≤ b'9' → IsDigits (c ∷ [])
  next_digit : (c : ℕ) {s : Bytes} → b'0' ≤ c → c ≤ b'9' → IsDigits s → IsDigits (c ∷ s)

abbrev pub sign_text : Bool → Bytes
sign_text true = b'-' ∷ []
sign_text false = []

abbrev pub exponent_sign : Bool → ℕ
exponent_sign true = b'-'
exponent_sign false = b'+'

-- A point with digits, an exponent, or both.
pub data IsFloatTail : Bytes → Type 0 where
  fraction_tail : {fs : Bytes} → IsDigits fs → IsFloatTail (b'.' ∷ fs)
  exponent_tail :
      (below : Bool) {es : Bytes} → IsDigits es → IsFloatTail (b'e' ∷ exponent_sign below ∷ es)
  both_tail :
      (below : Bool) {fs es : Bytes}
      → IsDigits fs
      → IsDigits es
      → IsFloatTail (b'.' ∷ (fs ++ (b'e' ∷ exponent_sign below ∷ es)))

-- Whole digits, which a tail may follow.
pub data IsDecimal (text : Bytes) : Type 0 where
  whole_decimal :
      (negative : Bool) {ds : Bytes}
      → IsDigits ds
      → text ≡ sign_text negative ++ ds
      → IsDecimal text
  tail_decimal :
      (negative : Bool) {ds tail : Bytes}
      → IsDigits ds
      → IsFloatTail tail
      → text ≡ sign_text negative ++ (ds ++ tail)
      → IsDecimal text
