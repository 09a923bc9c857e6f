-- ===== src/Radix/Builtins.antt =====
-- The builtins of (creme radix), icecreme/radix.c. The tree that a box points to is looked up by the
-- address; a payload is a Scheme value.
use creme.Common.{
  ℕ, suc, Bool, true, false, Option, none, some, List, [], ◌∷◌, get_elem?, ok, wrong_type,
}
use creme.Csv.Builtins.{arg_bytes}
use creme.Radix.Add.{RadixTree, radix_tree_new, radix_tree_add}
use creme.Radix.Find.{RadixParam, Found, radix_tree_find}
use creme.Value.{
  Value, nil, bool, int, pos, str, box, radix_tree, M, ◌>>=◌, ◌>>◌, pure, stop, update, arg,
  check_min_args, cons,
}

abbrev pub Trees : Type 0
Trees = ℕ → RadixTree Value

abbrev pub radix_max_params : ℕ
radix_max_params = 64

-- `creme_arg_box`
abbrev pub as_radix_tree : Option Value → M ℕ
as_radix_tree (some (box radix_tree a)) = pure a
as_radix_tree _ = stop wrong_type

-- The first argument, of at least `n`.
abbrev pub tree_arg : ℕ → List Value → M ℕ
tree_arg n args = do check_min_args args n; as_radix_tree (get_elem? args 0)

abbrev pub unbox_value : Found Value → Value
unbox_value none = bool false
unbox_value (some r) = r.0

abbrev new_address : M ℕ
new_address h = ok (h.next, record h { next = suc h.next })

unfoldable pub bi_radix_tree : Trees → List Value → M (Value × Trees)
bi_radix_tree trees args = do
  a ← new_address
  pure (box radix_tree a, update trees a radix_tree_new)

abbrev is_radix_tree : Option Value → Bool
is_radix_tree (some (box radix_tree a)) = true
is_radix_tree _ = false

unfoldable pub bi_radix_tree_p : List Value → M Value
bi_radix_tree_p args = do check_min_args args 1; pure (bool (is_radix_tree (get_elem? args 0)))

unfoldable pub bi_radix_tree_set : Trees → List Value → M (Value × Trees)
bi_radix_tree_set trees args = do
  a ← tree_arg 3 args
  pattern_bytes ← arg_bytes (get_elem? args 1)
  v ← arg args 2
  pure (nil, update trees a (radix_tree_add (trees a) pattern_bytes v))

abbrev find_in : Trees → List Value → M (Found Value)
find_in trees args = do
  a ← tree_arg 2 args
  path ← arg_bytes (get_elem? args 1)
  pure (radix_tree_find radix_max_params (trees a) path)

unfoldable pub bi_radix_tree_ref : Trees → List Value → M Value
bi_radix_tree_ref trees args = do found ← find_in trees args; pure (unbox_value found)

-- The loop over the captures: each goes before those that there are.
unfoldable pub params_alist : List RadixParam → Value → M Value
params_alist [] alist = pure alist
params_alist (p ∷ params) alist = do
  entry ← cons (str p.name) (str p.value)
  alist' ← cons entry alist
  params_alist params alist'

abbrev pub match_result : Found Value → M Value
match_result none = pure (bool false)
match_result (some r) = do alist ← params_alist r.1 nil; cons r.0 alist

unfoldable pub bi_radix_tree_match : Trees → List Value → M Value
bi_radix_tree_match trees args = do found ← find_in trees args; match_result found

unfoldable pub bi_radix_tree_count : Trees → List Value → M Value
bi_radix_tree_count trees args = do
  a ← tree_arg 1 args
  pure (int (pos (RadixTree.count (trees a))))
