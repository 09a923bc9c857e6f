-- ===== src/Treelist/Access.antt =====
-- Reading, writing and pushing in place: `rrb_node_ref`, `rrb_node_set`, `rrb_fast_push` and
-- `rrb_fast_cons` of icecreme/treelist.c.

use mathlib.Core.Option
use creme.Common.{
  ℕ, ◌+◌, ◌-◌, List, [], ◌∷◌, ◌++◌, map, Option, none, some, Result, ok, fail, ◌>>=◌, bad_access,
  length, get_elem?, set, ltb, leb, if◌then◌else◌,
}
use creme.Treelist.Node.{Node, leaf, branch, Nodes, nil, cons, width}

-- `sizes[n - 1] += 1`
abbrev pub bump_last : List ℕ → List ℕ
bump_last [] = []
bump_last (s ∷ []) = (s + 1) ∷ []
bump_last (s ∷ s' ∷ ss) = s ∷ bump_last (s' ∷ ss)

module _ {A : Type 0} where
  -- `items[index]`
  abbrev pub read : List A → ℕ → Result A
  read items i = elim (get_elem? items i) [ none ↦ fail bad_access | some x ↦ ok x ]

  -- `items[index] = v` in a copy
  abbrev pub write : List A → ℕ → A → Result (List A)
  write items i v = if ltb i (length items) then ok (set items i v) else fail bad_access

  -- A shared rule of the two loops `while (node->sizes[i] <= index) i++`: `prev` is `sizes[i - 1]`,
  -- or 0, and the two lists are what stands at `i` and behind it.
  unfoldable mutual
    pub node_ref : Node A → ℕ → Result A
    node_ref (leaf items) index = read items index
    node_ref (branch h s sizes ts) index = child_ref 0 sizes ts index

    pub child_ref : ℕ → List ℕ → Nodes A → ℕ → Result A
    child_ref prev [] _ index = fail bad_access
    child_ref prev (s ∷ sizes) nil index = fail bad_access
    child_ref prev (s ∷ sizes) (cons t ts) index =
        if leb s index then child_ref s sizes ts index else node_ref t (index - prev)

  unfoldable mutual
    pub node_set : Node A → ℕ → A → Result (Node A)
    node_set (leaf items) index v = do items' ← write items index v; ok (leaf items')
    node_set (branch h s sizes ts) index v = do
      ts' ← child_set 0 sizes ts index v
      ok (branch h s sizes ts')

    pub child_set : ℕ → List ℕ → Nodes A → ℕ → A → Result (Nodes A)
    child_set prev [] _ index v = fail bad_access
    child_set prev (s ∷ sizes) nil index v = fail bad_access
    child_set prev (s ∷ sizes) (cons t ts) index v =
        if leb s index
        then (do ts' ← child_set s sizes ts index v; ok (cons t ts'))
        else (do t' ← node_set t (index - prev) v; ok (cons t' ts))

  -- `none` is NULL: the rightmost leaf is full.
  unfoldable mutual
    pub fast_push : Node A → A → Result (Option (Node A))
    fast_push (leaf items) v =
        ok (if leb width (length items) then none else some (leaf (items ++ (v ∷ []))))
    fast_push (branch h s sizes ts) v = do
      r ← push_last ts v
      ok (Option.map (λ ts'. branch h (s + 1) (bump_last sizes) ts') r)

    -- The step into `children[n_children - 1]`.
    pub push_last : Nodes A → A → Result (Option (Nodes A))
    push_last nil v = fail bad_access
    push_last (cons t nil) v = do r ← fast_push t v; ok (Option.map (λ t'. cons t' nil) r)
    push_last (cons t (cons u ts)) v = do
      r ← push_last (cons u ts) v
      ok (Option.map (λ us. cons t us) r)

  -- `none` is NULL: the leftmost leaf is full.
  unfoldable mutual
    pub fast_cons : Node A → A → Result (Option (Node A))
    fast_cons (leaf items) v =
        ok (if leb width (length items) then none else some (leaf (v ∷ items)))
    fast_cons (branch h s sizes ts) v = do
      r ← cons_first ts v
      ok (Option.map (λ ts'. branch h (s + 1) (map (λ n. n + 1) sizes) ts') r)

    -- The step into `children[0]`.
    pub cons_first : Nodes A → A → Result (Option (Nodes A))
    cons_first nil v = fail bad_access
    cons_first (cons t ts) v = do r ← fast_cons t v; ok (Option.map (λ t'. cons t' ts) r)
