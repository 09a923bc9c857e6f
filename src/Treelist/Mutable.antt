-- ===== src/Treelist/Mutable.antt =====
-- The builtins of (creme treelist) on mutable treelists that call no procedure
-- (icecreme/treelist.c).
use creme.Common.{
  ℕ, suc, ◌-◌, Bool, true, false, List, ◌∷◌, ok, wrong_type, empty_treelist, bad_range, replicate,
  leb, ◌==◌, if◌then◌else◌,
}
use creme.Treelist.Node.{Node, size_of}
use creme.Treelist.Access.{node_ref, node_set}
use creme.Treelist.Bulk.{from_array, to_array}
use creme.Treelist.Tree.{
  from_int_array, tree_add, tree_cons, tree_concat, tree_take, tree_drop, tree_sublist, tree_insert,
  tree_delete, tree_reverse,
}
use creme.Treelist.Builtins.{
  v_treelist, tl_arg, tl_size_arg, tl_bounds, tl_bounds_incl, tl_count, list_to_value_array,
  array_to_list, vector_arg,
}
use creme.Value.{
  pos, treelist, mutable_treelist, Value, nil, bool, int, box, M, pure, ◌>>=◌, ◌>>◌, lift, stop,
  gets, check, update, arg, check_min_args, new_vector,
}

-- `v_mutable_treelist`: a box around a new state with this root.
unfoldable pub v_mutable_treelist : Node Value → M Value
v_mutable_treelist root h = ok (
  box mutable_treelist h.next,
  record h { next = suc h.next; mutables = update h.mutables h.next root },
)

-- `mtl_arg`: the address of the state.
unfoldable pub mtl_arg : Value → M ℕ
mtl_arg (box mutable_treelist a) = pure a
mtl_arg _ = stop wrong_type

-- `m->root`, read and written.
abbrev pub root_of : ℕ → M (Node Value)
root_of m = gets (λ h. h.mutables m)

abbrev pub set_root : ℕ → Node Value → M Value
set_root m root h = ok (nil, record h { mutables = update h.mutables m root })

unfoldable pub any_tree_arg : Value → M (Node Value)
any_tree_arg (box treelist a) = gets (λ h. h.trees a)
any_tree_arg (box mutable_treelist a) = gets (λ h. h.mutables a)
any_tree_arg _ = stop wrong_type

unfoldable pub bi_mutable_treelist : List Value → M Value
bi_mutable_treelist args = do root ← lift (from_int_array args); v_mutable_treelist root

abbrev pub fill_arg : List Value → Value
fill_arg (size ∷ fill ∷ args) = fill
fill_arg _ = bool false

unfoldable pub bi_make_mutable_treelist : List Value → M Value
bi_make_mutable_treelist args = do
  check_min_args args 1
  size ← arg args 0
  n ← tl_size_arg size
  root ← lift (from_int_array (replicate n (fill_arg args)))
  v_mutable_treelist root

module _ (rounds : ℕ) where
  unfoldable pub bi_list_to_mutable_treelist : List Value → M Value
  bi_list_to_mutable_treelist args = do
    check_min_args args 1
    l ← arg args 0
    r ← gets (list_to_value_array rounds l)
    arr ← lift r
    root ← lift (from_array arr)
    v_mutable_treelist root

unfoldable pub bi_vector_to_mutable_treelist : List Value → M Value
bi_vector_to_mutable_treelist args = do
  items ← vector_arg args
  root ← lift (from_int_array items)
  v_mutable_treelist root

unfoldable pub bi_treelist_copy : List Value → M Value
bi_treelist_copy args = do
  check_min_args args 1
  v ← arg args 0
  root ← tl_arg v
  v_mutable_treelist root

-- Builtins on the mutable treelist `args[0]`: the address of its state and its root.
abbrev pub on_mutable : {A : Type 0} → ℕ → (ℕ → Node Value → M A) → List Value → M A
on_mutable n body args = do
  check_min_args args n
  v ← arg args 0
  m ← mtl_arg v
  t ← root_of m
  body m t

unfoldable pub bi_mutable_treelist_copy : List Value → M Value
bi_mutable_treelist_copy = on_mutable 1 (λ m t. v_mutable_treelist t)

unfoldable pub bi_mutable_treelist_snapshot : List Value → M Value
bi_mutable_treelist_snapshot = on_mutable 1 (λ m t. v_treelist t)

unfoldable pub bi_mutable_treelist_to_list : List Value → M Value
bi_mutable_treelist_to_list = on_mutable 1 (λ m t. array_to_list (to_array t))

unfoldable pub bi_mutable_treelist_to_vector : List Value → M Value
bi_mutable_treelist_to_vector = on_mutable 1 (λ m t. new_vector (to_array t))

abbrev pub is_mutable_treelist : Value → Bool
is_mutable_treelist (box mutable_treelist a) = true
is_mutable_treelist _ = false

unfoldable pub bi_mutable_treelist_p : List Value → M Value
bi_mutable_treelist_p args = do
  check_min_args args 1
  v ← arg args 0
  pure (bool (is_mutable_treelist v))

unfoldable pub bi_mutable_treelist_empty_p : List Value → M Value
bi_mutable_treelist_empty_p = on_mutable 1 (λ m t. pure (bool (size_of t == 0)))

unfoldable pub bi_mutable_treelist_length : List Value → M Value
bi_mutable_treelist_length = on_mutable 1 (λ m t. pure (int (pos (size_of t))))

unfoldable pub bi_mutable_treelist_ref : List Value → M Value
bi_mutable_treelist_ref args =
    on_mutable 2 (λ m t. do v ← arg args 1; i ← tl_bounds v (size_of t); lift (node_ref t i)) args

unfoldable pub bi_mutable_treelist_first : List Value → M Value
bi_mutable_treelist_first =
    on_mutable 1 (λ m t. if size_of t == 0 then stop empty_treelist else lift (node_ref t 0))

unfoldable pub bi_mutable_treelist_last : List Value → M Value
bi_mutable_treelist_last =
    on_mutable 1
      (λ m t. if size_of t == 0 then stop empty_treelist else lift (node_ref t (size_of t - 1)))

-- Builtins that give the state a new root, computed from the old one.
abbrev pub replace_root : ℕ → (Node Value → M (Node Value)) → List Value → M Value
replace_root n body = on_mutable n (λ m t. do u ← body t; set_root m u)

unfoldable pub bi_mutable_treelist_add_bang : List Value → M Value
bi_mutable_treelist_add_bang args =
    replace_root 2 (λ t. do v ← arg args 1; lift (tree_add t v)) args

unfoldable pub bi_mutable_treelist_cons_bang : List Value → M Value
bi_mutable_treelist_cons_bang args =
    replace_root 2 (λ t. do v ← arg args 1; lift (tree_cons t v)) args

-- The same with a number checked by `bound`.
abbrev pub replace_at :
    (Value → ℕ → M ℕ) → ℕ → (Node Value → ℕ → M (Node Value)) → List Value → M Value
replace_at bound n body args =
    replace_root n (λ t. do v ← arg args 1; i ← bound v (size_of t); body t i) args

unfoldable pub bi_mutable_treelist_set_bang : List Value → M Value
bi_mutable_treelist_set_bang args =
    replace_at tl_bounds 3 (λ t i. do v ← arg args 2; lift (node_set t i v)) args

unfoldable pub bi_mutable_treelist_insert_bang : List Value → M Value
bi_mutable_treelist_insert_bang args =
    replace_at tl_bounds_incl 3 (λ t i. do v ← arg args 2; lift (tree_insert t i v)) args

unfoldable pub bi_mutable_treelist_delete_bang : List Value → M Value
bi_mutable_treelist_delete_bang = replace_at tl_bounds 2 (λ t i. lift (tree_delete t i))

unfoldable pub bi_mutable_treelist_append_bang : List Value → M Value
bi_mutable_treelist_append_bang args =
    replace_root 2 (λ t. do v ← arg args 1; u ← any_tree_arg v; lift (tree_concat t u)) args

unfoldable pub bi_mutable_treelist_prepend_bang : List Value → M Value
bi_mutable_treelist_prepend_bang args =
    replace_root 2 (λ t. do v ← arg args 1; u ← any_tree_arg v; lift (tree_concat u t)) args

unfoldable pub bi_mutable_treelist_take_bang : List Value → M Value
bi_mutable_treelist_take_bang = replace_at tl_count 2 (λ t n. lift (tree_take t n))

unfoldable pub bi_mutable_treelist_drop_bang : List Value → M Value
bi_mutable_treelist_drop_bang = replace_at tl_count 2 (λ t n. lift (tree_drop t n))

unfoldable pub bi_mutable_treelist_take_right_bang : List Value → M Value
bi_mutable_treelist_take_right_bang =
    replace_at tl_count 2 (λ t n. lift (tree_drop t (size_of t - n)))

unfoldable pub bi_mutable_treelist_drop_right_bang : List Value → M Value
bi_mutable_treelist_drop_right_bang =
    replace_at tl_count 2 (λ t n. lift (tree_take t (size_of t - n)))

unfoldable pub bi_mutable_treelist_sublist_bang : List Value → M Value
bi_mutable_treelist_sublist_bang args =
    replace_at tl_count 3
      (λ t from. do
        v ← arg args 2
        to ← tl_count v (size_of t)
        check (leb from to) bad_range
        lift (tree_sublist t from to))
      args

unfoldable pub bi_mutable_treelist_reverse_bang : List Value → M Value
bi_mutable_treelist_reverse_bang = replace_root 1 (λ t. lift (tree_reverse t))
