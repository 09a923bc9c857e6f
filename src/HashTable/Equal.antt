-- ===== src/HashTable/Equal.antt =====
-- The comparison of keys by identity and value: `creme_eqv` of icecreme/vm.c. `creme_equal` of
-- icecreme/builtins.c is this comparison on all values without parts.
use creme.Common.{ℕ, Bool, not, ◌&&◌, ◌||◌, List, [], ◌∷◌, ◌==◌, if◌then◌else◌}
use creme.Csv.Builtins.{same_bytes}
use creme.Value.{
  pos, negsuc, Value, nil, bool, int, flo, char, sym, str, pair, vector, closure, builtin, box,
  other,
}

-- The field `tag`, `T_NIL` to `T_BOX` in the order of the enumeration.
abbrev pub tag_of : Value → ℕ
tag_of nil = 0
tag_of (bool b) = 1
tag_of (int i) = 2
tag_of (flo f) = 3
tag_of (sym s) = 4
tag_of (str s) = 5
tag_of (char c) = 6
tag_of (pair a) = 7
tag_of (vector a) = 8
tag_of (closure a) = 13
tag_of (builtin a) = 18
tag_of (box kind a) = 20
tag_of (other t p) = t

-- What is compared at equal tags: a number, the bytes of a text, or an address, which for a box stands
-- without its kind.
abbrev pub compared : Value → List ℕ
compared nil = []
compared (bool b) = (if b then 1 else 0) ∷ []
compared (int (pos n)) = 0 ∷ n ∷ []
compared (int (negsuc n)) = 1 ∷ n ∷ []
compared (flo f) = f ∷ []
compared (sym s) = s
compared (str s) = s
compared (char c) = c ∷ []
compared (pair a) = a ∷ []
compared (vector a) = a ∷ []
compared (closure a) = a ∷ []
compared (builtin a) = a ∷ []
compared (box kind a) = a ∷ []
compared (other t p) = p ∷ []

-- `T_MACRO` and `T_CONTINUATION` have no case of their own: not even the same one is equal to itself.
abbrev pub has_case : ℕ → Bool
has_case tag = not (tag == 21 || tag == 22)

abbrev pub creme_eqv : Value → Value → Bool
creme_eqv a b =
    (tag_of a == tag_of b) && (has_case (tag_of a) && same_bytes (compared a) (compared b))
