-- ===== src/Loader/Proofs/Ends.antt =====
-- The primitives of icecreme/loader.c return or abort: they read nothing outside the body, the pool
-- or an array.
use creme.Common.{
  ℕ, zero, suc, ◌<◌, ◌≡◌, refl, ◌∙◌, inl, inr, Bool, true, false, Option, none, some, List, [], ◌∷◌,
  Result, ok, fail, abort, Abort, bad_bytecode, length, get_elem?, ltb, leb, ltb→lt, Bool-cases,
  arith,
}
use creme.Loader.Primitives.{
  must_read, read_i32, read_i64, read_f64, read_u8, read_u24, read_u16, plausible, read_count,
  read_bytes, read_string_pool, element, read_pooled_string, check_magic_and_version,
  read_required_families,
}
use creme.Loader.State.{LoadState, Load, ◌>>=◌, insist, read_each}
use creme.Value.{ℤ, pos, negsuc}

-- It returns a result and a state that satisfy `P`, or aborts.
pub data LoadEnds {A : Type 0} (P : A → LoadState → Type 0) : Result (A × LoadState) → Type 0 where
  load_returned : (a : A) (s : LoadState) → P a s → LoadEnds P (ok (a, s))
  load_aborted : (why : Abort) → LoadEnds P (fail (abort why))

-- The globals are as they were.
abbrev pub SameGlobals : {A : Type 0} → LoadState → A → LoadState → Type 0
SameGlobals s a s' = s'.globals ≡ s.globals

-- From every state, it returns with the same globals, or aborts.
abbrev pub Ending : {A : Type 0} → Load A → Type 0
Ending m = (s : LoadState) → LoadEnds (SameGlobals s) (m s)

module _ {A B : Type 0} {P : A → LoadState → Type 0} {Q : B → LoadState → Type 0} where
  pub LoadEnds-bind :
      (f : A → Load B) {r : Result (A × LoadState)}
      → LoadEnds P r
      → ((a : A) (s : LoadState) → P a s → LoadEnds Q (f a s))
      → LoadEnds Q (elim r [ ok r ↦ f r.0 r.1 | fail why ↦ fail why ])
  LoadEnds-bind f (load_returned a s p) k = k a s p
  LoadEnds-bind f (load_aborted why) k = load_aborted why

pub LoadEnds-weaken :
    {A : Type 0} {P Q : A → LoadState → Type 0} {r : Result (A × LoadState)}
    → LoadEnds P r
    → ((a : A) (s : LoadState) → P a s → Q a s)
    → LoadEnds Q r
LoadEnds-weaken (load_returned a s p) k = load_returned a s (k a s p)
LoadEnds-weaken (load_aborted why) k = load_aborted why

module _ {A B : Type 0} where
  pub Ending-bind :
      (m : Load A) (f : A → Load B) → Ending m → ((a : A) → Ending (f a)) → Ending (m >>= f)
  Ending-bind m f e k s =
      LoadEnds-bind f (e s) (λ a s' q. LoadEnds-weaken (k a s') (λ b s'' q'. q' ∙ q))

pub Ending-done : {A : Type 0} (a : A) → Ending (λ s. ok (a, s))
Ending-done a s = load_returned a s refl

pub Ending-fail : {A : Type 0} (why : Abort) → Ending {A = A} (λ s. fail (abort why))
Ending-fail why s = load_aborted why

pub insist-LoadEnds :
    (test : Bool) (why : Abort) (s : LoadState)
    → LoadEnds (λ t s'. (test ≡ true) × (s'.globals ≡ s.globals)) (insist test why s)
unfolding insist
insist-LoadEnds true why s = load_returned tt s (refl, refl)
insist-LoadEnds false why s = load_aborted why

pub Ending-insist : (test : Bool) (why : Abort) → Ending (insist test why)
unfolding insist
Ending-insist true why s = load_returned tt s refl
Ending-insist false why s = load_aborted why

pub Ending-option :
    {A : Type 0} (o : Option A)
    → Ending (λ s. elim o [ none ↦ fail (abort bad_bytecode) | some a ↦ ok (a, s) ])
Ending-option none s = load_aborted bad_bytecode
Ending-option (some a) s = load_returned a s refl

pub Ending-read_each :
    {A : Type 0} (read : Load A) (n : ℕ) → Ending read → Ending (read_each read n)
unfolding read_each
Ending-read_each read zero e = Ending-done []
Ending-read_each read (suc n) e =
    Ending-bind read _ e
      (λ a. Ending-bind (read_each read n) _ (Ending-read_each read n e) (λ items. Ending-done _))

must_read-Ending : (n : ℕ) → Ending (must_read n)
unfolding must_read
must_read-Ending n s = elim (Bool-cases (leb n (length s.rest))) [
  | inl e ↦ rw (e, must_read) (load_returned _ _ refl)
  | inr e ↦ rw (e, must_read) (load_aborted bad_bytecode)
]

pub read_i32-Ending : Ending read_i32
unfolding read_i32
read_i32-Ending = Ending-bind (must_read 4) _ (must_read-Ending 4) (λ b. Ending-done _)

pub read_i64-Ending : Ending read_i64
unfolding read_i64
read_i64-Ending = Ending-bind (must_read 8) _ (must_read-Ending 8) (λ b. Ending-done _)

pub read_f64-Ending : Ending read_f64
unfolding read_f64
read_f64-Ending = Ending-bind (must_read 8) _ (must_read-Ending 8) (λ b. Ending-done _)

pub read_u8-Ending : Ending read_u8
unfolding read_u8
read_u8-Ending = Ending-bind (must_read 1) _ (must_read-Ending 1) (λ b. Ending-done _)

pub read_u24-Ending : Ending read_u24
unfolding read_u24
read_u24-Ending = Ending-bind (must_read 3) _ (must_read-Ending 3) (λ b. Ending-done _)

pub read_u16-Ending : Ending read_u16
unfolding read_u16
read_u16-Ending = Ending-bind (must_read 2) _ (must_read-Ending 2) (λ b. Ending-done _)

plausible-Ending : (v : ℤ) → Ending (plausible v)
plausible-Ending (pos n) = Ending-bind _ _ (Ending-insist _ _) (λ t. Ending-done n)
plausible-Ending (negsuc n) = Ending-fail bad_bytecode

pub read_count-Ending : Ending read_count
unfolding read_count
read_count-Ending = Ending-bind read_i32 _ read_i32-Ending plausible-Ending

pub read_bytes-Ending : (len : ℤ) → Ending (read_bytes len)
unfolding read_bytes
read_bytes-Ending len = Ending-bind (plausible len) _ (plausible-Ending len) must_read-Ending

pub read_string_pool-Ending : Ending read_string_pool
unfolding read_string_pool
read_string_pool-Ending = Ending-bind read_count _ read_count-Ending (λ n.
    Ending-bind _ _
      (Ending-read_each _ n (Ending-bind read_i32 _ read_i32-Ending read_bytes-Ending))
      (λ strings s. load_returned _ _ refl))

-- An index below the length has an element.
get_elem?-below :
    {A : Type 0} (items : List A) (i : ℕ)
    → i < length items
    → (a : A) × (get_elem? items i ≡ some a)
get_elem?-below [] i h = elim h [ ]
get_elem?-below (a ∷ items) zero h = (a, refl)
get_elem?-below (a ∷ items) (suc i) h = get_elem?-below items i (omega arith)

pub element-Ending :
    {A : Type 0} (items : List A) (i : ℕ) → i < length items → Ending (element items i)
element-Ending items i h s =
    let (a, q) = get_elem?-below items i h in rw (q, element) (load_returned a s refl)

pub read_pooled_string-Ending : Ending read_pooled_string
unfolding read_pooled_string
read_pooled_string-Ending = Ending-bind read_u24 _ read_u24-Ending (λ idx s.
    LoadEnds-bind _ (insist-LoadEnds (ltb idx (length s.strings)) bad_bytecode s) (λ t s' (e, q).
      LoadEnds-weaken (element-Ending s.strings idx (ltb→lt idx (length s.strings) e) s')
        (λ b s'' q'. q' ∙ q)))

pub check_magic_and_version-Ending : Ending check_magic_and_version
unfolding check_magic_and_version
check_magic_and_version-Ending =
    Ending-bind (must_read 4) _ (must_read-Ending 4)
      (λ magic. Ending-bind _ _ (Ending-insist _ _) (λ t. Ending-insist _ _))

pub read_required_families-Ending : Ending read_required_families
unfolding read_required_families
read_required_families-Ending =
    Ending-bind read_count _ read_count-Ending (λ n. Ending-read_each _ n read_pooled_string-Ending)
