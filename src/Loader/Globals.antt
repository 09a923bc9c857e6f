-- ===== src/Loader/Globals.antt =====
-- The table of globals (icecreme/vm.c), and the lookups of the loader in it.
use creme.Common.{
  ℕ, suc, Bool, true, false, ◌&&◌, Option, none, some, List, [], ◌∷◌, ◌++◌, ok, fail, abort,
  globals_full, length, ltb, ◌==◌, if◌then◌else◌,
}
use creme.Csv.Builtins.{same_bytes}
use creme.Csv.Parse.{Bytes}
use creme.Loader.State.{GlobalCell, LoadState, Load, done, reading, ◌>>=◌}
use creme.Value.{Value, nil}

-- The bytes that `strlen` counts.
unfoldable pub c_string : Bytes → Bytes
c_string [] = []
c_string (c ∷ s) = elim (c == 0) [ true ↦ [] | false ↦ c ∷ c_string s ]

-- The stored name has the same length by `strlen`, and the same bytes.
abbrev pub is_named : Bytes → GlobalCell → Bool
is_named name cell = same_bytes (c_string cell.name) name

abbrev pub value_of_match : Bool → GlobalCell → Value → Value
value_of_match true cell rest = cell.value
value_of_match false cell rest = rest

-- The value of the first global of the name that is bound.
unfoldable pub find_builtin : List GlobalCell → Bytes → Value
find_builtin [] name = nil
find_builtin (cell ∷ globals) name =
    value_of_match (is_named name cell && cell.bound) cell (find_builtin globals name)

unfoldable pub resolve_builtin_const : Bytes → Load Value
resolve_builtin_const name = do
  globals ← reading (λ s. LoadState.globals s)
  done (find_builtin globals name)

abbrev pub globals_cap : ℕ
globals_cap = 4096

-- The first global of the name, counted from `i`.
unfoldable pub find_global : List GlobalCell → Bytes → ℕ → Option ℕ
find_global [] name i = none
find_global (cell ∷ globals) name i = elim (is_named name cell) [
  | true ↦ some i
  | false ↦ find_global globals name (suc i)
]

abbrev pub new_global : Bytes → GlobalCell
new_global name = record { name = name; value = nil; bound = false }

unfoldable pub creme_global_intern : Bytes → Load ℕ
creme_global_intern name s = elim (find_global s.globals name 0) [
  | some i ↦ ok (i, s)
  | none ↦
      if ltb (length s.globals) globals_cap
      then ok (length s.globals, record s { globals = s.globals ++ (new_global name ∷ []) })
      else fail (abort globals_full)
]
