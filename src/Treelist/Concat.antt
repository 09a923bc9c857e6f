-- ===== src/Treelist/Concat.antt =====
-- `rrb_rebalance`, `rrb_concat_sub` and `rrb_concat_roots` of icecreme/treelist.c.
use Prim.Native.Nat.{Ordering}
use creme.Common.{
  ℕ, zero, suc, ◌-◌, max, compare, Option, none, some, List, [], ◌∷◌, ◌++◌, Result, ok, fail, ◌>>=◌,
  bad_access, no_fuel, length, take, drop, leb, ◌==◌, if◌then◌else◌,
}
use creme.Treelist.Node.{
  Node, leaf, branch, width, to_list, make_leaf, mk_branch, height_of, as_branch,
}
use creme.Treelist.Bulk.{chunk_leaves, chunk_branches}

module _ {A : Type 0} where
  -- The fields `items` and `children`: a fresh node is filled with zeros, so the one that a kind of
  -- node does not have is empty.
  abbrev pub items_of : Node A → List A
  items_of (leaf items) = items
  items_of (branch h s sizes ts) = []

  abbrev pub children_of : Node A → List (Node A)
  children_of (leaf items) = []
  children_of (branch h s sizes ts) = to_list ts

  -- The copying loops over `merged`.
  unfoldable pub all_items : List (Node A) → List A
  all_items [] = []
  all_items (t ∷ ts) = items_of t ++ all_items ts

  unfoldable pub all_children : List (Node A) → List (Node A)
  all_children [] = []
  all_children (t ∷ ts) = children_of t ++ all_children ts

  -- `new_nodes`: the contents of `merged`, repacked into full nodes.
  unfoldable pub repack : List (Node A) → ℕ → Result (List (Node A))
  repack merged ml =
      if ml == 0 then ok (chunk_leaves (all_items merged)) else chunk_branches (all_children merged)

  -- The one or two branches over `new_nodes`, under a common root.
  unfoldable pub group : List (Node A) → Result (Node A)
  group new_nodes =
      if leb (length new_nodes) width
      then (do inner ← mk_branch new_nodes; mk_branch (inner ∷ []))
      else (do
        a ← mk_branch (take width new_nodes)
        b ← mk_branch (drop width new_nodes)
        mk_branch (a ∷ b ∷ []))

  unfoldable pub rebalance : List (Node A) → ℕ → Result (Node A)
  rebalance merged ml = do new_nodes ← repack merged ml; group new_nodes

  -- `children[n_children - 1]`, and the children before it.
  unfoldable pub split_last : List (Node A) → Result (List (Node A) × Node A)
  split_last [] = fail bad_access
  split_last (t ∷ []) = ok ([], t)
  split_last (t ∷ u ∷ ts) = do r ← split_last (u ∷ ts); ok (t ∷ r.0, r.1)

  -- `children[0]`, and the children behind it.
  unfoldable pub split_first : List (Node A) → Result (Node A × List (Node A))
  split_first [] = fail bad_access
  split_first (t ∷ ts) = ok (t, ts)

  -- Two leaves under a common root.
  unfoldable pub concat_leaves : List A → List A → Result (Node A)
  concat_leaves xs ys =
      let combined = xs ++ ys in
      if leb (length combined) width
      then mk_branch (make_leaf combined ∷ [])
      else mk_branch (make_leaf (take width combined) ∷ make_leaf (drop width combined) ∷ [])

  -- `!left->is_branch && !right->is_branch`, with the items of both.
  abbrev pub both_leaves : Node A → Node A → Option (List A × List A)
  both_leaves (leaf xs) (leaf ys) = some (xs, ys)
  both_leaves _ _ = none

  -- One level is left for each round: `max hl hr + 1` rounds are enough.
  unfoldable pub concat_sub : ℕ → Node A → Node A → Result (Node A)
  concat_sub zero left right = fail no_fuel
  concat_sub (suc rounds) left right = elim (compare (height_of left) (height_of right)) [
    | Ordering.eq ↦ elim (both_leaves left right) [
      | some (xs, ys) ↦ concat_leaves xs ys
      | none ↦ do
        lb ← as_branch left
        rb ← as_branch right
        l ← split_last lb
        r ← split_first rb
        mid ← concat_sub rounds l.1 r.0
        rebalance (l.0 ++ (children_of mid ++ r.1)) (height_of left - 1)
    ]
    | Ordering.gt ↦ do
      lb ← as_branch left
      l ← split_last lb
      mid ← concat_sub rounds l.1 right
      rebalance (l.0 ++ children_of mid) (height_of left - 1)
    | Ordering.lt ↦ do
      rb ← as_branch right
      r ← split_first rb
      mid ← concat_sub rounds left r.0
      rebalance (children_of mid ++ r.1) (height_of right - 1)
  ]

  -- `top` is always a branch.
  abbrev pub only_child : Node A → List (Node A) → Node A
  only_child top (t ∷ []) = t
  only_child top _ = top

  unfoldable pub concat_roots : Node A → Node A → Result (Node A)
  concat_roots left right = do
    top ← concat_sub (suc (max (height_of left) (height_of right))) left right
    ok (only_child top (children_of top))
