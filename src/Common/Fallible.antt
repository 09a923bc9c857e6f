-- ===== src/Common/Fallible.antt =====
-- Results of the C code: a value, or the way in which it stops.
use mathlib.Core.Path.{◌≡◌}
use mathlib.Core.Bool.{Bool, true, false}

-- The reasons that `creme_abort` is called with.
pub data Abort : Type 0 where
  expected_branch bad_arity wrong_type negative_size out_of_range empty_treelist bad_range : Abort
  key_not_found too_large cannot_write unknown_quoting bad_json too_deep bad_bytecode globals_full :
      Abort

-- `bad_access` is a read or a write outside an array, `int_overflow` a sum that a C `int` does not hold,
-- `no_fuel` the end of a loop's rounds.
pub data Fault : Type 0 where
  abort : Abort → Fault
  bad_access int_overflow no_fuel : Fault

pub data Result {ℓ} (A : Type ℓ) : Type ℓ where
  ok : A → Result A
  fail : Fault → Result A

infixl 5 ◌>>=◌ ◌>>◌
abbrev pub ◌>>=◌ {ℓ κ} : {A : Type ℓ} {B : Type κ} → Result A → (A → Result B) → Result B
ok a >>= f = f a
fail e >>= f = fail e

abbrev pub ◌>>◌ {ℓ} : {B : Type ℓ} → Result (Unit {0}) → Result B → Result B
m >> k = m >>= λ _. k

-- `if (!test) creme_abort(...)`.
abbrev pub require : Bool → Abort → Result (Unit {0})
require true why = ok tt
require false why = fail (abort why)

-- The code returns, and its result satisfies `P`.
abbrev pub Returns {ℓ κ} : {A : Type ℓ} → (A → Type κ) → Result A → Type (ℓ ⊔ κ)
Returns {A} P r = (a : A) × (r ≡ ok a) × P a

module _ {ℓ κ} {A : Type ℓ} {B : Type κ} where
  -- Two steps, of which both return.
  pub Returns-bind {μ ν} :
      {P : A → Type μ} {Q : B → Type ν} (m : Result A) (f : A → Result B)
      → Returns P m
      → ((a : A) → P a → Returns Q (f a))
      → Returns Q (m >>= f)
  Returns-bind m f (a, e, p) k = rw e (k a p)

pub Returns-weaken {ℓ κ μ} :
    {A : Type ℓ} {P : A → Type κ} {Q : A → Type μ} {r : Result A}
    → ((a : A) → P a → Q a)
    → Returns P r
    → Returns Q r
Returns-weaken f (a, e, p) = (a, e, f a p)
