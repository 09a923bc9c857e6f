-- ===== src/Treelist/Slice.antt =====
-- `rrb_slice_node` and `rrb_canonical` of icecreme/treelist.c.
use creme.Common.{
  ℕ, ◌+◌, ◌-◌, min, max, ◌&&◌, List, [], ◌∷◌, ◌++◌, Result, ok, fail, ◌>>=◌, bad_access, length,
  take, drop, ltb, leb, ◌==◌, if◌then◌else◌,
}
use creme.Treelist.Node.{Node, leaf, branch, Nodes, nil, cons, mk_branch, size_of}

module _ {A : Type 0} where
  -- `value_array_copy(items + from, to - from)`
  abbrev pub copy_range : List A → ℕ → ℕ → Result (List A)
  copy_range items from to =
      if leb from to && leb to (length items)
      then ok (take (to - from) (drop from items))
      else fail bad_access

  unfoldable mutual
    pub slice_node : Node A → ℕ → ℕ → Result (Node A)
    slice_node (leaf items) from to = do items' ← copy_range items from to; ok (leaf items')
    slice_node (branch h s sizes ts) from to = do us ← slice_children ts 0 from to; mk_branch us

    -- The loop over the children from `i` on: `lo` is the size of those before.
    pub slice_children : Nodes A → ℕ → ℕ → ℕ → Result (List (Node A))
    slice_children nil lo from to = ok []
    slice_children (cons t ts) lo from to =
        let hi = lo + size_of t in
        let a = max from lo in
        let b = min to hi in
        do
          part ←
              if ltb a b
              then (if a == lo && b == hi
                  then ok (t ∷ [])
                  else (do u ← slice_node t (a - lo) (b - lo); ok (u ∷ [])))
              else ok []
          rest ← if leb to hi then ok [] else slice_children ts hi from to
          ok (part ++ rest)

  unfoldable pub canonical : Node A → Node A
  canonical (branch h s sizes (cons t nil)) = canonical t
  canonical t = t
