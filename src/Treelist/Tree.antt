-- ===== src/Treelist/Tree.antt =====
-- The operations on a root: `tree_add` to `tree_reverse` of icecreme/treelist.c. A position is not
-- negative: every caller checks it.
use creme.Common.{
  ℕ, ◌+◌, none, some, List, [], ◌∷◌, reverse, Result, ok, fail, bad_access, int_overflow, ◌>>=◌,
  length, ltb, leb, ◌==◌, if◌then◌else◌,
}
use creme.Treelist.Node.{Node, make_leaf, empty_leaf, size_of}
use creme.Treelist.Access.{fast_push, fast_cons}
use creme.Treelist.Bulk.{from_array, to_array}
use creme.Treelist.Concat.{concat_roots}
use creme.Treelist.Slice.{slice_node, canonical}

-- The C code computes sizes in `int`. The largest one of an operation is that of the new root, so that
-- all of them fit where `n` does; where it does not, the C code has no defined result.
abbrev pub within_int : {A : Type 0} → ℕ → Result A → Result A
within_int n r = if ltb n 2147483648 then r else fail int_overflow

module _ {A : Type 0} where
  -- `rrb_from_array` with its `int n`, which `rrb_chunk_leaves` rounds up to whole leaves.
  unfoldable pub from_int_array : List A → Result (Node A)
  from_int_array items = within_int (length items + 31) (from_array items)

  unfoldable pub tree_add : Node A → A → Result (Node A)
  tree_add root v = within_int (size_of root + 1) (do
    r ← fast_push root v
    elim r [ some nr ↦ ok nr | none ↦ concat_roots root (make_leaf (v ∷ [])) ])

  unfoldable pub tree_cons : Node A → A → Result (Node A)
  tree_cons root v = within_int (size_of root + 1) (do
    r ← fast_cons root v
    elim r [ some nr ↦ ok nr | none ↦ concat_roots (make_leaf (v ∷ [])) root ])

  unfoldable pub tree_concat : Node A → Node A → Result (Node A)
  tree_concat a b =
      if size_of a == 0
      then ok b
      else if size_of b == 0
      then ok a
      else within_int (size_of a + size_of b) (concat_roots a b)

  unfoldable pub tree_take : Node A → ℕ → Result (Node A)
  tree_take root n =
      if n == 0
      then ok empty_leaf
      else if leb (size_of root) n
      then ok root
      else (do t ← slice_node root 0 n; ok (canonical t))

  unfoldable pub tree_drop : Node A → ℕ → Result (Node A)
  tree_drop root n =
      if n == 0
      then ok root
      else if leb (size_of root) n
      then ok empty_leaf
      else (do t ← slice_node root n (size_of root); ok (canonical t))

  unfoldable pub tree_sublist : Node A → ℕ → ℕ → Result (Node A)
  tree_sublist root from to = do t ← tree_take root to; tree_drop t from

  unfoldable pub tree_insert : Node A → ℕ → A → Result (Node A)
  tree_insert root i v =
      if i == 0 then tree_cons root v else if leb (size_of root) i then tree_add root v else (do
        front ← tree_take root i
        with_v ← tree_concat front (make_leaf (v ∷ []))
        back ← tree_drop root i
        tree_concat with_v back)

  unfoldable pub tree_delete : Node A → ℕ → Result (Node A)
  tree_delete root i = do
    front ← tree_take root i
    back ← tree_drop root (i + 1)
    tree_concat front back

  -- `rrb_to_array` and the field `size`, by which the buffer is allocated and then indexed.
  abbrev pub sized_array : Node A → Result (List A)
  sized_array root =
      if length (to_array root) == size_of root then ok (to_array root) else fail bad_access

  unfoldable pub tree_reverse : Node A → Result (Node A)
  tree_reverse root = do arr ← sized_array root; from_int_array (reverse arr)
