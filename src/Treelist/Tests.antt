-- ===== src/Treelist/Tests.antt =====
-- Runs of the tree operations of icecreme/treelist.c, and the theorems about them at concrete trees.
use creme.Common.{
  ℕ, zero, suc, ◌%◌, ◌^◌, ◌≡◌, refl, inl, inr, List, [], ◌∷◌, ◌++◌, arith, Result, ok, fail,
  Returns, take, drop, replicate, reverse,
}
use creme.Treelist.Node.{Node, leaf, branch, nil, cons, mk_branch, size_of, height_of, empty_leaf}
use creme.Treelist.Access.{read, node_ref, node_set}
use creme.Treelist.Bulk.{from_array, chunks, chunk_leaves, mk_branches, chunk_branches, grow}
use creme.Treelist.Concat.{
  all_items, all_children, repack, group, rebalance, split_last, split_first, concat_leaves,
  concat_sub, concat_roots,
}
use creme.Treelist.Slice.{slice_node, canonical}
use creme.Treelist.Tree.{
  tree_add, tree_cons, tree_concat, tree_take, tree_drop, tree_sublist, tree_insert, tree_delete,
  tree_reverse,
}
use creme.Treelist.WellFormed.{elements, IsNode, IsRoot, IsTree}
use creme.Treelist.Builtins.{v_treelist, bi_treelist_ref, bi_list_to_treelist, bi_make_treelist}
use creme.Treelist.Table.{call, treelist_insert}
use creme.Treelist.Proofs.Ref.{node_ref-eq-read, node_set_lem}
use creme.Treelist.Proofs.Bulk.{from_array_lem}
use creme.Treelist.Proofs.Tree.{
  Gives, tree_add_lem, tree_cons_lem, tree_concat_lem, tree_take_lem, tree_drop_lem,
  tree_sublist_lem, tree_delete_lem, tree_insert_lem, tree_reverse_lem,
}
use creme.Treelist.Proofs.Safe.{IsHeap, Outcome, Any}
use creme.Treelist.Proofs.Builtins.{call-Outcome}
use creme.Treelist.Proofs.Results.{
  bi_treelist_ref_lem, bi_list_to_treelist_lem, bi_make_treelist_lem,
}
use creme.Value.{pos, treelist, Value, int, pair, box, Pair, Heap}

-- Two leaves under a root.
abbrev sample : Node ℕ
sample = branch 1 3 (2 ∷ 3 ∷ []) (cons (leaf (10 ∷ 20 ∷ [])) (cons (leaf (30 ∷ [])) nil))

sample-IsNode : IsNode sample
sample-IsNode = (
  ((omega arith, omega arith), refl, ((omega arith, omega arith), refl, tt)),
  omega arith,
  omega arith,
  refl,
  refl,
)

sample-IsTree : IsTree sample
sample-IsTree = (inl sample-IsNode, omega arith)

-- The numbers from `i` on.
abbrev count_up : ℕ → ℕ → List ℕ
count_up zero i = []
count_up (suc n) i = i ∷ count_up n (suc i)

abbrev insert_and_read : ℕ → Result ℕ
insert_and_read i = elim (from_array (count_up 100 0)) [
  | fail e ↦ fail e
  | ok t ↦ elim (tree_insert t 41 9999) [ fail e ↦ fail e | ok u ↦ node_ref u i ]
]

insert_and_read_runs : insert_and_read 41 ≡ ok 9999
unfolding from_array chunk_leaves chunks chunk_branches mk_branches mk_branch grow tree_insert
    tree_take tree_drop tree_concat slice_node canonical concat_roots concat_sub concat_leaves
    rebalance repack group all_items all_children split_last split_first node_ref
insert_and_read_runs = refl

node_ref_example : node_ref sample 2 ≡ read (10 ∷ 20 ∷ 30 ∷ []) 2
node_ref_example = node_ref-eq-read sample 2 sample-IsNode

node_set_example :
    Returns
      (λ t'. IsNode t' × (height_of t' ≡ 1) × (size_of t' ≡ 3) × (elements t' ≡ 10 ∷ 20 ∷ 7 ∷ []))
      (node_set sample 2 7)
node_set_example = node_set_lem sample 2 7 sample-IsNode (omega arith)

from_array_example :
    Returns (λ t. IsRoot {A = ℕ} t × (elements t ≡ 10 ∷ 20 ∷ [])) (from_array (10 ∷ 20 ∷ []))
from_array_example = from_array_lem (10 ∷ 20 ∷ [])

tree_add_example : Gives (10 ∷ 20 ∷ 30 ∷ 4 ∷ []) (tree_add sample 4)
tree_add_example = tree_add_lem sample 4 sample-IsTree (omega arith)

tree_cons_example : Gives (4 ∷ 10 ∷ 20 ∷ 30 ∷ []) (tree_cons sample 4)
tree_cons_example = tree_cons_lem sample 4 sample-IsTree (omega arith)

tree_concat_example : Gives (10 ∷ 20 ∷ 30 ∷ 10 ∷ 20 ∷ 30 ∷ []) (tree_concat sample sample)
tree_concat_example = tree_concat_lem sample sample sample-IsTree sample-IsTree (omega arith)

tree_take_example : Gives (10 ∷ []) (tree_take sample 1)
tree_take_example = tree_take_lem sample 1 sample-IsTree

tree_drop_example : Gives (20 ∷ 30 ∷ []) (tree_drop sample 1)
tree_drop_example = tree_drop_lem sample 1 sample-IsTree

tree_sublist_example : Gives (20 ∷ []) (tree_sublist sample 1 2)
tree_sublist_example = tree_sublist_lem sample 1 2 sample-IsTree

tree_delete_example :
    Gives (take 1 (elements sample) ++ drop 2 (elements sample)) (tree_delete sample 1)
tree_delete_example = tree_delete_lem sample 1 sample-IsTree

tree_insert_example : Gives (10 ∷ 20 ∷ 5 ∷ 30 ∷ []) (tree_insert sample 2 5)
tree_insert_example = tree_insert_lem sample 2 5 sample-IsTree (omega arith)

tree_reverse_example : Gives (reverse (elements sample)) (tree_reverse sample)
tree_reverse_example = tree_reverse_lem sample sample-IsTree (omega arith)

-- A heap with the list (1 2) at address 0 and a treelist of it at every address.
abbrev one_two : Node Value
one_two = leaf (int (pos 1) ∷ int (pos 2) ∷ [])

abbrev cell : ℕ → Pair
cell zero = record { car = int (pos 1); cdr = pair 1 }
cell (suc a) = record { car = int (pos 2); cdr = Value.nil }

abbrev heap : Heap
heap = record {
  next = 2;
  pairs = cell;
  vectors = λ a. [];
  trees = λ a. one_two;
  mutables = λ a. empty_leaf;
}

heap-IsHeap : IsHeap heap
heap-IsHeap = record {
  trees = λ a. (inl (omega arith, omega arith), omega arith);
  mutables = λ a. (inr refl, omega arith);
}

abbrev insert_args : List Value
insert_args = box treelist 0 ∷ int (pos 1) ∷ int (pos 9) ∷ []

call_example : Outcome Any heap (call treelist_insert insert_args heap)
call_example = call-Outcome treelist_insert insert_args heap heap-IsHeap

bi_treelist_ref_example :
    bi_treelist_ref (box treelist 0 ∷ int (pos 1) ∷ []) heap ≡ ok (int (pos 2), heap)
bi_treelist_ref_example = bi_treelist_ref_lem 0 1 heap (heap-IsHeap.trees 0).0

bi_list_to_treelist_example :
    (t : Node Value) × (bi_list_to_treelist 5 (pair 0 ∷ []) heap ≡ v_treelist t heap)
    × IsRoot t
    × (elements t ≡ int (pos 1) ∷ int (pos 2) ∷ [])
bi_list_to_treelist_example =
    bi_list_to_treelist_lem 5 heap (pair 0) (int (pos 1) ∷ int (pos 2) ∷ [])
      (0, refl, refl, (1, refl, refl, refl)) (omega arith)

-- A size of 2 ^ 32 + 3 gives a treelist of three items.
bi_make_treelist_example :
    (t : Node Value) × (bi_make_treelist (int (pos 4294967299) ∷ int (pos 7) ∷ []) heap
      ≡ v_treelist t heap)
    × IsTree t
    × (elements t ≡ replicate (4294967299 % 2 ^ 32) (int (pos 7)))
bi_make_treelist_example = bi_make_treelist_lem 4294967299 (int (pos 7)) heap (omega arith)
