-- ===== src/Treelist/Bulk.antt =====
-- Trees from arrays and back: `rrb_chunk_leaves`, `rrb_chunk_branches`, `rrb_from_array` and
-- `rrb_collect` of icecreme/treelist.c.
use creme.Common.{
  ℕ, zero, suc, List, [], ◌∷◌, ◌++◌, map, Result, ok, fail, ◌>>=◌, bad_access, no_fuel, length,
  take, drop,
}
use creme.Treelist.Node.{
  Node, leaf, branch, Nodes, nil, cons, width, make_leaf, mk_branch, empty_leaf,
}

-- The loop `while (i < n)` of both chunking functions, on the items from `i` on. One round takes
-- at least one item, so as many rounds as there are items are enough.
unfoldable pub chunks {ℓ} : {B : Type ℓ} → ℕ → List B → List (List B)
chunks zero xs = []
chunks (suc rounds) [] = []
chunks (suc rounds) (x ∷ xs) = take width (x ∷ xs) ∷ chunks rounds (drop width (x ∷ xs))

module _ {A : Type 0} where
  unfoldable pub chunk_leaves : List A → List (Node A)
  chunk_leaves items = map make_leaf (chunks (length items) items)

  -- `rrb_mk_branch` on each chunk.
  unfoldable pub mk_branches : List (List (Node A)) → Result (List (Node A))
  mk_branches [] = ok []
  mk_branches (ts ∷ rest) = do t ← mk_branch ts; us ← mk_branches rest; ok (t ∷ us)

  unfoldable pub chunk_branches : List (Node A) → Result (List (Node A))
  chunk_branches ts = mk_branches (chunks (length ts) ts)

  -- The loop `while (cnt > 1)`, and `nodes[0]` behind it.
  unfoldable pub grow : ℕ → List (Node A) → Result (Node A)
  grow zero ts = fail no_fuel
  grow (suc rounds) [] = fail bad_access
  grow (suc rounds) (t ∷ []) = ok t
  grow (suc rounds) (t ∷ u ∷ ts) = do us ← chunk_branches (t ∷ u ∷ ts); grow rounds us

  -- A round with two nodes or more leaves fewer, so a round for each item is enough.
  unfoldable pub from_array : List A → Result (Node A)
  from_array [] = ok empty_leaf
  from_array (x ∷ xs) = grow (length (x ∷ xs)) (chunk_leaves (x ∷ xs))

  -- `out` is the part of the buffer that is filled, up to `*pos`.
  unfoldable mutual
    pub collect : Node A → List A → List A
    collect (leaf items) out = out ++ items
    collect (branch h s sizes ts) out = collect_all ts out

    pub collect_all : Nodes A → List A → List A
    collect_all nil out = out
    collect_all (cons t ts) out = collect_all ts (collect t out)

  unfoldable pub to_array : Node A → List A
  to_array root = collect root []
