-- ===== src/Treelist/Proofs/Builtins.antt =====
-- Memory safety of the treelist builtins of icecreme/treelist.c, one lemma for each shape, and one
-- clause for each builtin.
use creme.Common.{
  ℕ, ◌-◌, ◌≤◌, ◌<◌, inl, inr, refl, List, [], ◌∷◌, Result, Returns-weaken, length, arith,
  Bool-cases, ◌==◌, if◌then◌else◌, leb, empty_treelist, bad_range,
}
use creme.Treelist.Node.{Node, size_of, empty_leaf}
use creme.Treelist.Access.{node_ref}
use creme.Treelist.Bulk.{to_array}
use creme.Treelist.Tree.{
  from_int_array, tree_add, tree_cons, tree_concat, tree_drop, tree_sublist, tree_reverse,
}
use creme.Treelist.WellFormed.{IsTree}
use creme.Treelist.Proofs.Tree.{
  GivesInt, from_int_array_int, tree_add_int, tree_cons_int, tree_concat_int, tree_insert_int,
  tree_reverse_int, Gives, tree_take_lem, tree_drop_lem, tree_sublist_lem, tree_delete_lem,
}
use creme.Treelist.Proofs.Safe.{
  Safe-overflow, IsHeap, Outcome, Safe, Any, Safe-bind, Safe-pure, Safe-lift, Safe-stop, Safe-check,
  Safe-check_min_args, Safe-arg, Safe-tl_arg, Safe-tl_bounds, Safe-tl_bounds_incl, Safe-tl_count,
  Safe-v_treelist, Safe-v_mutable_treelist, Safe-new_vector, Safe-array_to_list, Safe-vector_arg,
  Safe-any_tree_arg,
}
use creme.Treelist.Proofs.Shapes.{
  Safe-on_treelist, Safe-on_mutable, Safe-from_index, Safe-replace_at, Safe-replace_root,
  Safe-node_ref, Safe-node_set,
}
use creme.Treelist.Builtins.{
  v_treelist, tl_arg, tl_bounds, tl_bounds_incl, tl_count, vector_arg, on_treelist, append_all,
  bi_treelist, bi_treelist_to_list, bi_vector_to_treelist, bi_treelist_to_vector, bi_treelist_p,
  bi_treelist_empty_p, bi_treelist_length, bi_treelist_ref, bi_treelist_first, bi_treelist_last,
  bi_treelist_add, bi_treelist_cons, bi_treelist_set, bi_treelist_insert, bi_treelist_delete,
  bi_treelist_take, bi_treelist_drop, bi_treelist_take_right, bi_treelist_drop_right,
  bi_treelist_sublist, bi_treelist_rest, bi_treelist_append, bi_treelist_reverse,
}
use creme.Treelist.Mutable.{
  v_mutable_treelist, any_tree_arg, on_mutable, bi_mutable_treelist, bi_vector_to_mutable_treelist,
  bi_treelist_copy, bi_mutable_treelist_copy, bi_mutable_treelist_snapshot,
  bi_mutable_treelist_to_list, bi_mutable_treelist_to_vector, bi_mutable_treelist_p,
  bi_mutable_treelist_empty_p, bi_mutable_treelist_length, bi_mutable_treelist_ref,
  bi_mutable_treelist_first, bi_mutable_treelist_last, bi_mutable_treelist_add_bang,
  bi_mutable_treelist_cons_bang, bi_mutable_treelist_set_bang, bi_mutable_treelist_insert_bang,
  bi_mutable_treelist_delete_bang, bi_mutable_treelist_append_bang,
  bi_mutable_treelist_prepend_bang, bi_mutable_treelist_take_bang, bi_mutable_treelist_drop_bang,
  bi_mutable_treelist_take_right_bang, bi_mutable_treelist_drop_right_bang,
  bi_mutable_treelist_sublist_bang, bi_mutable_treelist_reverse_bang,
}
use creme.Treelist.Table.{
  Builtin, call, new_treelist, treelist_to_list, vector_to_treelist, treelist_to_vector, treelist_p,
  treelist_empty_p, treelist_length, treelist_ref, treelist_first, treelist_last, treelist_add,
  treelist_cons, treelist_set, treelist_insert, treelist_delete, treelist_take, treelist_drop,
  treelist_take_right, treelist_drop_right, treelist_sublist, treelist_rest, treelist_append,
  treelist_reverse, new_mutable_treelist, vector_to_mutable_treelist, treelist_copy,
  mutable_treelist_copy, mutable_treelist_snapshot, mutable_treelist_to_list,
  mutable_treelist_to_vector, mutable_treelist_p, mutable_treelist_empty_p, mutable_treelist_length,
  mutable_treelist_ref, mutable_treelist_first, mutable_treelist_last, mutable_treelist_add_bang,
  mutable_treelist_cons_bang, mutable_treelist_set_bang, mutable_treelist_insert_bang,
  mutable_treelist_delete_bang, mutable_treelist_append_bang, mutable_treelist_prepend_bang,
  mutable_treelist_take_bang, mutable_treelist_drop_bang, mutable_treelist_take_right_bang,
  mutable_treelist_drop_right_bang, mutable_treelist_sublist_bang, mutable_treelist_reverse_bang,
}
use creme.Value.{pos, Value, bool, int, Heap, M, ◌>>=◌, lift, check, stop, arg, check_min_args}

Gives-Safe : {xs : List Value} {r : Result (Node Value)} → Gives xs r → Safe IsTree (lift r)
Gives-Safe g = Safe-lift _ (Returns-weaken (λ t p. p.0) g)

GivesInt-Safe : {xs : List Value} {r : Result (Node Value)} → GivesInt xs r → Safe IsTree (lift r)
GivesInt-Safe (inl g) = Gives-Safe g
GivesInt-Safe (inr e) = Safe-overflow _ e

from_int_array-Safe : (items : List Value) → Safe IsTree (lift (from_int_array items))
from_int_array-Safe items = GivesInt-Safe (from_int_array_int items)

module _ {Q : Value → Type 0} (args : List Value) where
  one_treelist :
      {body : Node Value → M Value}
      → ((t : Node Value) → IsTree t → Safe Q (body t))
      → Safe Q (on_treelist 1 body args)
  one_treelist k = Safe-on_treelist 1 args (omega arith) _ λ t w enough. k t w

  one_mutable :
      {body : ℕ → Node Value → M Value}
      → ((m : ℕ) (t : Node Value) → IsTree t → Safe Q (body m t))
      → Safe Q (on_mutable 1 body args)
  one_mutable k = Safe-on_mutable 1 args (omega arith) _ λ m t w enough. k m t w

-- A guarded access, and a guarded step to a new treelist.
guarded :
    {A : Type 0} {Q : A → Type 0} (t : Node Value) (empty full : M A)
    → Safe Q empty
    → (0 < size_of t → Safe Q full)
    → Safe Q (if size_of t == 0 then empty else full)
guarded t empty full e k = elim (Bool-cases (size_of t == 0)) [
  | inl none ↦ rw none e
  | inr some ↦ rw some (k (ground arith))
]

Safe-first :
    (t : Node Value)
    → IsTree t
    → Safe Any (if size_of t == 0 then stop empty_treelist else lift (node_ref t 0))
Safe-first t w = guarded t _ _ (Safe-stop _) λ p. Safe-node_ref t 0 w p

Safe-last :
    (t : Node Value)
    → IsTree t
    → Safe Any (if size_of t == 0 then stop empty_treelist else lift (node_ref t (size_of t - 1)))
Safe-last t w = guarded t _ _ (Safe-stop _) λ p. Safe-node_ref t (size_of t - 1) w (omega arith)

Safe-rest :
    (t : Node Value)
    → IsTree t
    → Safe Any (if size_of t == 0 then stop empty_treelist else lift (tree_drop t 1) >>= v_treelist)
Safe-rest t w = guarded t _ _ (Safe-stop _) λ p.
    Safe-bind (lift (tree_drop t 1)) v_treelist (Gives-Safe (tree_drop_lem t 1 w)) Safe-v_treelist

Safe-sublist :
    (args : List Value) (t : Node Value) (from : ℕ)
    → IsTree t
    → 3 ≤ length args
    → Safe IsTree (
        arg args 2 >>= λ v. tl_count v (size_of t) >>= λ to.
        check (leb from to) bad_range >>= λ u. lift (tree_sublist t from to))
Safe-sublist args t from w enough = Safe-bind (arg args 2) _ (Safe-arg args 2 enough) λ v u.
    Safe-bind (tl_count v (size_of t)) _ (Safe-tl_count (size_of t) v) λ to p.
      Safe-bind (check (leb from to) bad_range) _ (Safe-check (leb from to) bad_range)
        λ u e. Gives-Safe (tree_sublist_lem t from to w)

Safe-append_all :
    (args : List Value) (acc : Node Value) → IsTree acc → Safe IsTree (append_all args acc)
unfolding append_all
Safe-append_all [] acc w = Safe-pure acc w
Safe-append_all (v ∷ vs) acc w = Safe-bind (tl_arg v) _ (Safe-tl_arg v) λ t k.
    Safe-bind (lift (tree_concat acc t)) _ (GivesInt-Safe (tree_concat_int acc t w k))
      (Safe-append_all vs)

call-Safe : (b : Builtin) (args : List Value) → Safe Any (call b args)
unfolding call bi_treelist bi_treelist_to_list bi_vector_to_treelist bi_treelist_to_vector
    bi_treelist_p bi_treelist_empty_p bi_treelist_length bi_treelist_ref bi_treelist_first
    bi_treelist_last bi_treelist_add bi_treelist_cons bi_treelist_set bi_treelist_insert
    bi_treelist_delete bi_treelist_take bi_treelist_drop bi_treelist_take_right
    bi_treelist_drop_right bi_treelist_sublist bi_treelist_rest bi_treelist_append
    bi_treelist_reverse bi_mutable_treelist bi_vector_to_mutable_treelist bi_treelist_copy
    bi_mutable_treelist_copy bi_mutable_treelist_snapshot bi_mutable_treelist_to_list
    bi_mutable_treelist_to_vector bi_mutable_treelist_p bi_mutable_treelist_empty_p
    bi_mutable_treelist_length bi_mutable_treelist_ref bi_mutable_treelist_first
    bi_mutable_treelist_last bi_mutable_treelist_add_bang bi_mutable_treelist_cons_bang
    bi_mutable_treelist_set_bang bi_mutable_treelist_insert_bang bi_mutable_treelist_delete_bang
    bi_mutable_treelist_append_bang bi_mutable_treelist_prepend_bang bi_mutable_treelist_take_bang
    bi_mutable_treelist_drop_bang bi_mutable_treelist_take_right_bang
    bi_mutable_treelist_drop_right_bang bi_mutable_treelist_sublist_bang
    bi_mutable_treelist_reverse_bang
call-Safe new_treelist args =
    Safe-bind (lift (from_int_array args)) v_treelist (from_int_array-Safe args) Safe-v_treelist
call-Safe treelist_to_list args = one_treelist args λ t w. Safe-array_to_list (to_array t)
call-Safe vector_to_treelist args = Safe-bind (vector_arg args) _ (Safe-vector_arg args) λ items u.
    Safe-bind (lift (from_int_array items)) v_treelist (from_int_array-Safe items) Safe-v_treelist
call-Safe treelist_to_vector args = one_treelist args λ t w. Safe-new_vector (to_array t)
call-Safe treelist_p args =
    Safe-bind (check_min_args args 1) _ (Safe-check_min_args args 1)
      λ u enough. Safe-bind (arg args 0) _ (Safe-arg args 0 enough) λ v u. Safe-pure _ tt
call-Safe treelist_empty_p args = one_treelist args λ t w. Safe-pure (bool (size_of t == 0)) tt
call-Safe treelist_length args = one_treelist args λ t w. Safe-pure (int (pos (size_of t))) tt
call-Safe treelist_ref args = Safe-on_treelist 2 args (omega arith) _ λ t w enough.
    Safe-bind (arg args 1) _ (Safe-arg args 1 enough) λ v u.
      Safe-bind (tl_bounds v (size_of t)) _ (Safe-tl_bounds (size_of t) v)
        λ i lt. Safe-node_ref t i w lt
call-Safe treelist_first args = one_treelist args λ t w. Safe-first t w
call-Safe treelist_last args = one_treelist args λ t w. Safe-last t w
call-Safe treelist_add args = Safe-on_treelist 2 args (omega arith) _ λ t w enough.
    Safe-bind (arg args 1) _ (Safe-arg args 1 enough) λ v u.
      Safe-bind (lift (tree_add t v)) v_treelist (GivesInt-Safe (tree_add_int t v w))
        Safe-v_treelist
call-Safe treelist_cons args = Safe-on_treelist 2 args (omega arith) _ λ t w enough.
    Safe-bind (arg args 1) _ (Safe-arg args 1 enough) λ v u.
      Safe-bind (lift (tree_cons t v)) v_treelist (GivesInt-Safe (tree_cons_int t v w))
        Safe-v_treelist
call-Safe treelist_set args =
    Safe-from_index (λ size i. i < size) tl_bounds Safe-tl_bounds 3 args (omega arith) _
      λ t i w p enough.
        Safe-bind (arg args 2) _ (Safe-arg args 2 enough) λ v u. Safe-node_set t i v w p
call-Safe treelist_insert args =
    Safe-from_index (λ size i. i ≤ size) tl_bounds_incl Safe-tl_bounds_incl 3 args (omega arith) _
      λ t i w p enough.
        Safe-bind (arg args 2) _ (Safe-arg args 2 enough)
          λ v u. GivesInt-Safe (tree_insert_int t i v w)
call-Safe treelist_delete args =
    Safe-from_index (λ size i. i < size) tl_bounds Safe-tl_bounds 2 args (omega arith) _
      λ t i w p enough. Gives-Safe (tree_delete_lem t i w)
call-Safe treelist_take args =
    Safe-from_index (λ size i. i ≤ size) tl_count Safe-tl_count 2 args (omega arith) _
      λ t i w p enough. Gives-Safe (tree_take_lem t i w)
call-Safe treelist_drop args =
    Safe-from_index (λ size i. i ≤ size) tl_count Safe-tl_count 2 args (omega arith) _
      λ t i w p enough. Gives-Safe (tree_drop_lem t i w)
call-Safe treelist_take_right args =
    Safe-from_index (λ size i. i ≤ size) tl_count Safe-tl_count 2 args (omega arith) _
      λ t i w p enough. Gives-Safe (tree_drop_lem t (size_of t - i) w)
call-Safe treelist_drop_right args =
    Safe-from_index (λ size i. i ≤ size) tl_count Safe-tl_count 2 args (omega arith) _
      λ t i w p enough. Gives-Safe (tree_take_lem t (size_of t - i) w)
call-Safe treelist_sublist args =
    Safe-from_index (λ size i. i ≤ size) tl_count Safe-tl_count 3 args (omega arith) _
      λ t i w p enough. Safe-sublist args t i w enough
call-Safe treelist_rest args = one_treelist args λ t w. Safe-rest t w
call-Safe treelist_append args =
    Safe-bind (append_all args empty_leaf) v_treelist
      (Safe-append_all args empty_leaf (inr refl, omega arith)) Safe-v_treelist
call-Safe treelist_reverse args = one_treelist args λ t w.
    Safe-bind (lift (tree_reverse t)) v_treelist (GivesInt-Safe (tree_reverse_int t w))
      Safe-v_treelist
call-Safe new_mutable_treelist args =
    Safe-bind (lift (from_int_array args)) v_mutable_treelist (from_int_array-Safe args)
      Safe-v_mutable_treelist
call-Safe vector_to_mutable_treelist args =
    Safe-bind (vector_arg args) _ (Safe-vector_arg args) λ items u.
      Safe-bind (lift (from_int_array items)) v_mutable_treelist (from_int_array-Safe items)
        Safe-v_mutable_treelist
call-Safe treelist_copy args = one_treelist args Safe-v_mutable_treelist
call-Safe mutable_treelist_copy args = one_mutable args λ m. Safe-v_mutable_treelist
call-Safe mutable_treelist_snapshot args = one_mutable args λ m. Safe-v_treelist
call-Safe mutable_treelist_to_list args = one_mutable args λ m t w. Safe-array_to_list (to_array t)
call-Safe mutable_treelist_to_vector args = one_mutable args λ m t w. Safe-new_vector (to_array t)
call-Safe mutable_treelist_p args =
    Safe-bind (check_min_args args 1) _ (Safe-check_min_args args 1)
      λ u enough. Safe-bind (arg args 0) _ (Safe-arg args 0 enough) λ v u. Safe-pure _ tt
call-Safe mutable_treelist_empty_p args =
    one_mutable args λ m t w. Safe-pure (bool (size_of t == 0)) tt
call-Safe mutable_treelist_length args =
    one_mutable args λ m t w. Safe-pure (int (pos (size_of t))) tt
call-Safe mutable_treelist_ref args = Safe-on_mutable 2 args (omega arith) _ λ m t w enough.
    Safe-bind (arg args 1) _ (Safe-arg args 1 enough) λ v u.
      Safe-bind (tl_bounds v (size_of t)) _ (Safe-tl_bounds (size_of t) v)
        λ i lt. Safe-node_ref t i w lt
call-Safe mutable_treelist_first args = one_mutable args λ m t w. Safe-first t w
call-Safe mutable_treelist_last args = one_mutable args λ m t w. Safe-last t w
call-Safe mutable_treelist_add_bang args = Safe-replace_root 2 args _ (omega arith) λ t w enough.
    Safe-bind (arg args 1) _ (Safe-arg args 1 enough) λ v u. GivesInt-Safe (tree_add_int t v w)
call-Safe mutable_treelist_cons_bang args = Safe-replace_root 2 args _ (omega arith) λ t w enough.
    Safe-bind (arg args 1) _ (Safe-arg args 1 enough) λ v u. GivesInt-Safe (tree_cons_int t v w)
call-Safe mutable_treelist_set_bang args =
    Safe-replace_at (λ size i. i < size) tl_bounds Safe-tl_bounds 3 args (omega arith) _
      λ t i w p enough.
        Safe-bind (arg args 2) _ (Safe-arg args 2 enough) λ v u. Safe-node_set t i v w p
call-Safe mutable_treelist_insert_bang args =
    Safe-replace_at (λ size i. i ≤ size) tl_bounds_incl Safe-tl_bounds_incl 3 args (omega arith) _
      λ t i w p enough.
        Safe-bind (arg args 2) _ (Safe-arg args 2 enough)
          λ v u. GivesInt-Safe (tree_insert_int t i v w)
call-Safe mutable_treelist_delete_bang args =
    Safe-replace_at (λ size i. i < size) tl_bounds Safe-tl_bounds 2 args (omega arith) _
      λ t i w p enough. Gives-Safe (tree_delete_lem t i w)
call-Safe mutable_treelist_append_bang args = Safe-replace_root 2 args _ (omega arith) λ t w enough.
    Safe-bind (arg args 1) _ (Safe-arg args 1 enough) λ v u.
      Safe-bind (any_tree_arg v) _ (Safe-any_tree_arg v)
        λ x k. GivesInt-Safe (tree_concat_int t x w k)
call-Safe mutable_treelist_prepend_bang args =
    Safe-replace_root 2 args _ (omega arith) λ t w enough.
      Safe-bind (arg args 1) _ (Safe-arg args 1 enough) λ v u.
        Safe-bind (any_tree_arg v) _ (Safe-any_tree_arg v)
          λ x k. GivesInt-Safe (tree_concat_int x t k w)
call-Safe mutable_treelist_take_bang args =
    Safe-replace_at (λ size i. i ≤ size) tl_count Safe-tl_count 2 args (omega arith) _
      λ t i w p enough. Gives-Safe (tree_take_lem t i w)
call-Safe mutable_treelist_drop_bang args =
    Safe-replace_at (λ size i. i ≤ size) tl_count Safe-tl_count 2 args (omega arith) _
      λ t i w p enough. Gives-Safe (tree_drop_lem t i w)
call-Safe mutable_treelist_take_right_bang args =
    Safe-replace_at (λ size i. i ≤ size) tl_count Safe-tl_count 2 args (omega arith) _
      λ t i w p enough. Gives-Safe (tree_drop_lem t (size_of t - i) w)
call-Safe mutable_treelist_drop_right_bang args =
    Safe-replace_at (λ size i. i ≤ size) tl_count Safe-tl_count 2 args (omega arith) _
      λ t i w p enough. Gives-Safe (tree_take_lem t (size_of t - i) w)
call-Safe mutable_treelist_sublist_bang args =
    Safe-replace_at (λ size i. i ≤ size) tl_count Safe-tl_count 3 args (omega arith) _
      λ t i w p enough. Safe-sublist args t i w enough
call-Safe mutable_treelist_reverse_bang args =
    Safe-replace_root 1 args _ (omega arith) λ t w enough. GivesInt-Safe (tree_reverse_int t w)

-- Every treelist builtin of the table, on any arguments and any heap whose trees are well-formed
-- with fewer than 2 ^ 31 items, aborts with a Scheme error, or returns with a heap whose trees are
-- well-formed, each with fewer than 2 ^ 31 items, in which the old pairs, vectors and immutable
-- trees are unchanged, or stops where a size no longer fits an int; up to there it never leaves an
-- array or loops.
pub call-Outcome :
    (b : Builtin) (args : List Value) (h : Heap) → IsHeap h → Outcome Any h (call b args h)
call-Outcome b args h w = call-Safe b args h w
