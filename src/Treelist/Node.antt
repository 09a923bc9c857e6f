-- ===== src/Treelist/Node.antt =====
-- `struct RRBNode` of icecreme/treelist.c, its construction, and its arrays of children.
use creme.Common.{
  ℕ, ◌+◌, List, [], ◌∷◌, Result, ok, fail, abort, bad_access, expected_branch, length,
}

-- A leaf has height 0 and as its size the number of its items: `rrb_make_leaf` alone builds one.
mutual
  pub data Node (A : Type 0) : Type 0 where
    leaf : List A → Node A
    branch : (height size : ℕ) (sizes : List ℕ) → Nodes A → Node A

  -- The array `children`.
  pub data Nodes (A : Type 0) : Type 0 where
    nil : Nodes A
    cons : Node A → Nodes A → Nodes A

abbrev pub width : ℕ
width = 32

-- The last entry of a size table.
abbrev pub last_or : ℕ → List ℕ → ℕ
last_or d [] = d
last_or d (s ∷ ss) = last_or s ss

module _ {A : Type 0} where
  abbrev pub to_list : Nodes A → List (Node A)
  to_list nil = []
  to_list (cons t ts) = t ∷ to_list ts

  abbrev pub of_list : List (Node A) → Nodes A
  of_list [] = nil
  of_list (t ∷ ts) = cons t (of_list ts)

  abbrev pub make_leaf : List A → Node A
  make_leaf items = leaf items

  abbrev pub empty_leaf : Node A
  empty_leaf = leaf []

  abbrev pub height_of : Node A → ℕ
  height_of (leaf items) = 0
  height_of (branch h s sizes ts) = h

  -- The field `size`.
  abbrev pub size_of : Node A → ℕ
  size_of (leaf items) = length items
  size_of (branch h s sizes ts) = s

  -- `rrb_as_branch`, and the field `children` of its result.
  abbrev pub as_branch : Node A → Result (List (Node A))
  as_branch (leaf items) = fail (abort expected_branch)
  as_branch (branch h s sizes ts) = ok (to_list ts)

  -- The loop that fills the size table: `acc` is the size of what stands to the left.
  abbrev pub offsets : ℕ → List (Node A) → List ℕ
  offsets acc [] = []
  offsets acc (t ∷ ts) = (acc + size_of t) ∷ offsets (acc + size_of t) ts

  -- `rrb_mk_branch`: with no child, `children[0]` is read out of bounds.
  unfoldable pub mk_branch : List (Node A) → Result (Node A)
  mk_branch [] = fail bad_access
  mk_branch (t ∷ ts) =
      let sizes = offsets 0 (t ∷ ts) in
      ok (branch (height_of t + 1) (last_or 0 sizes) sizes (of_list (t ∷ ts)))
