-- ===== src/Value.antt =====
-- Scheme values (icecreme/value.h), the objects that they point to, and the way in which a builtin
-- runs on them. A pointer always points to an object, since the memory is garbage-collected: each
-- kind of object is a function of the address, and a new one gets the next address.
use creme.Common.{
  ℕ, suc, Bool, false, not, List, none, some, Result, ok, fail, abort, Abort, bad_access, bad_arity,
  length, get_elem?, leb, ◌==◌, if◌then◌else◌,
}
use creme.Treelist.Node.{Node}

-- `negsuc n` is -(n + 1).
pub data ℤ : Type 0 where
  pos : ℕ → ℤ
  negsuc : ℕ → ℤ

-- The kinds of boxes that the model tells apart, of `BOX_KIND_*`.
pub data BoxKind : Type 0 where
  treelist mutable_treelist hashtable radix_tree csv_reader csv_writer eof : BoxKind
  other_kind : ℕ → BoxKind

-- `flo` holds the bits of a float, `other tag payload` is a value of a tag that the modelled
-- builtins do not inspect. The bytes of a string or a symbol are the value itself: no modelled
-- builtin writes to them.
pub data Value : Type 0 where
  nil : Value
  bool : Bool → Value
  int : ℤ → Value
  flo : ℕ → Value
  char : ℕ → Value
  sym : List ℕ → Value
  str : List ℕ → Value
  pair : ℕ → Value
  vector : ℕ → Value
  closure : ℕ → Value
  builtin : ℕ → Value
  box : BoxKind → ℕ → Value
  other : ℕ → ℕ → Value

pub record Pair : Type 0 where
  pub car : Value
  pub cdr : Value

-- `trees` are the roots that immutable treelists point to, `mutables` the field `root` of each
-- `MutableTreelistState`.
pub record Heap : Type 0 where
  pub next : ℕ
  pub pairs : ℕ → Pair
  pub vectors : ℕ → List Value
  pub trees : ℕ → Node Value
  pub mutables : ℕ → Node Value

abbrev pub M : Type 0 → Type 0
M A = Heap → Result (A × Heap)

abbrev pub pure : {A : Type 0} → A → M A
pure a h = ok (a, h)

infixl 5 ◌>>=◌ ◌>>◌
abbrev pub ◌>>=◌ : {A B : Type 0} → M A → (A → M B) → M B
◌>>=◌ m f h = elim (m h) [ fail e ↦ fail e | ok r ↦ f r.0 r.1 ]

abbrev pub ◌>>◌ : {B : Type 0} → M (Unit {0}) → M B → M B
m >> k = m >>= λ _. k

abbrev pub lift : {A : Type 0} → Result A → M A
lift r h = elim r [ fail e ↦ fail e | ok a ↦ ok (a, h) ]

abbrev pub stop : {A : Type 0} → Abort → M A
stop why h = fail (abort why)

abbrev pub gets : {A : Type 0} → (Heap → A) → M A
gets f h = ok (f h, h)

-- `if (!test) creme_abort(...)`.
abbrev pub check : Bool → Abort → M (Unit {0})
check b why h = if b then ok (tt, h) else fail (abort why)

abbrev pub update : {A : Type 0} → (ℕ → A) → ℕ → A → ℕ → A
update f p v q = if p == q then v else f q

-- `v_falsy`: only #f is.
abbrev pub v_falsy : Value → Bool
v_falsy (bool b) = not b
v_falsy _ = false

-- `args[index]`
abbrev pub arg : List Value → ℕ → M Value
arg args i h = elim (get_elem? args i) [ none ↦ fail bad_access | some v ↦ ok (v, h) ]

abbrev pub check_min_args : List Value → ℕ → M (Unit {0})
check_min_args args n = check (leb n (length args)) bad_arity

abbrev pub check_exact_args : List Value → ℕ → M (Unit {0})
check_exact_args args n = check (length args == n) bad_arity

-- `creme_cons`
unfoldable pub cons : Value → Value → M Value
cons a d h = ok (
  pair h.next,
  record h { next = suc h.next; pairs = update h.pairs h.next (record { car = a; cdr = d }) },
)

unfoldable pub new_vector : List Value → M Value
new_vector items h =
    ok (vector h.next, record h { next = suc h.next; vectors = update h.vectors h.next items })
