-- ===== src/Loader/State.antt =====
-- The state of the loader (icecreme/loader.c): a `Reader` on the decompressed body of a file, and
-- the parts of the machine that loading reads and writes.
use creme.Common.{bad_bytecode}
use creme.Common.{ℕ, zero, suc, Bool, List, [], ◌∷◌, Result, ok, fail, abort, Abort, if◌then◌else◌}
use creme.Csv.Parse.{Bytes}
use creme.Value.{ℤ, Value, Heap}

-- `DatumLabel`
pub record DatumLabel : Type 0 where
  pub id : ℤ
  pub value : Value

-- `GlobalCell`
pub record GlobalCell : Type 0 where
  pub name : Bytes
  pub value : Value
  pub bound : Bool

-- `rest` is the body from `buf_pos` on, `strings` the pool with the lengths; the depths are
-- arguments of the functions that count them. `bytevectors` are the objects that a value of that
-- tag points to, beside those of the heap.
pub record LoadState : Type 0 where
  pub rest : Bytes
  pub strings : List Bytes
  pub labels : List DatumLabel
  pub heap : Heap
  pub bytevectors : ℕ → Bytes
  pub globals : List GlobalCell

abbrev pub Load : Type 0 → Type 0
Load A = LoadState → Result (A × LoadState)

abbrev pub done : {A : Type 0} → A → Load A
done a s = ok (a, s)

infixl 5 ◌>>=◌ ◌>>◌
abbrev pub ◌>>=◌ : {A B : Type 0} → Load A → (A → Load B) → Load B
◌>>=◌ m f s = elim (m s) [ ok r ↦ f r.0 r.1 | fail why ↦ fail why ]

abbrev pub ◌>>◌ : {B : Type 0} → Load (Unit {0}) → Load B → Load B
m >> k = m >>= λ _. k

abbrev pub corrupt : {A : Type 0} → Load A
corrupt s = fail (abort bad_bytecode)

-- `if (!test) creme_abort(...)`.
unfoldable pub insist : Bool → Abort → Load (Unit {0})
insist test why s = if test then ok (tt, s) else fail (abort why)

abbrev pub reading : {A : Type 0} → (LoadState → A) → Load A
reading f s = ok (f s, s)

abbrev pub lifted : {A : Type 0} → Result A → Load A
lifted r s = elim r [ ok a ↦ ok (a, s) | fail why ↦ fail why ]

-- `for (int i = 0; i < n; i++) items[i] = read(...)`.
unfoldable pub read_each : {A : Type 0} → Load A → ℕ → Load (List A)
read_each read zero = done []
read_each read (suc n) = do a ← read; items ← read_each read n; done (a ∷ items)
