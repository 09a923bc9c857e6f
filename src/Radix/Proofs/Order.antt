-- ===== src/Radix/Proofs/Order.antt =====
-- The children of every node of a tree of icecreme/radix.c stand in the order runs, names, globs,
-- whatever the order is in which the patterns were added.
use creme.Common.{
  ℕ, ◌≤◌, ◌≡◌, refl, ◌∙◌, inl, inr, Bool, Option, none, some, List, [], ◌∷◌, length, drop, ltb,
  ltb→lt, ◌==◌, Bool-cases, arith,
}
use creme.Csv.Parse.{Bytes}
use creme.Radix.Add.{
  Change, RadixTree, split_node, node_common, with_new_child, add_sibling, changed_or_new,
  behind_first, insert_token, insert_child, add_tokens, tokenize, radix_tree_add,
}
use creme.Radix.Node.{
  RadixKind, normal, named, glob, RadixNode, node, Children, no_children, child, Token, new_node,
  key_of, kind_of, child_rank, append_child, sink_child, sort_from,
}
use creme.Radix.Spec.{precedence}

pub child_rank-eq-precedence : (kind : RadixKind) → child_rank kind ≡ precedence kind
child_rank-eq-precedence normal = refl
child_rank-eq-precedence named = refl
child_rank-eq-precedence glob = refl

module _ {V : Type 0} where
  abbrev pub rank : RadixNode V → ℕ
  rank t = precedence (kind_of t)

  unfoldable mutual
    -- In and below the node, children stand in the order runs, names, globs.
    pub IsOrdered : RadixNode V → Type 0
    IsOrdered (node key kind cs payload) = IsOrderedFrom 0 cs

    -- The same, with no precedence below `low`.
    pub IsOrderedFrom : ℕ → Children V → Type 0
    IsOrderedFrom low no_children = Unit
    IsOrderedFrom low (child t ts) =
        (low ≤ precedence (kind_of t)) × IsOrdered t × IsOrderedFrom (precedence (kind_of t)) ts

  -- The children are ordered themselves, in any order.
  abbrev AllOrdered : Children V → Type 0
  AllOrdered no_children = Unit
  AllOrdered (child t ts) = IsOrdered t × AllOrdered ts

  IsOrderedFrom-AllOrdered : (low : ℕ) (cs : Children V) → IsOrderedFrom low cs → AllOrdered cs
  unfolding IsOrderedFrom
  IsOrderedFrom-AllOrdered low no_children w = tt
  IsOrderedFrom-AllOrdered low (child t ts) (above, w, ws) =
      (w, IsOrderedFrom-AllOrdered (rank t) ts ws)

  AllOrdered-append_child :
      (cs : Children V) (t : RadixNode V)
      → AllOrdered cs
      → IsOrdered t
      → AllOrdered (append_child cs t)
  AllOrdered-append_child no_children t ws w = (w, tt)
  AllOrdered-append_child (child u us) t (w', ws) w = (w', AllOrdered-append_child us t ws w)

  sink_child-IsOrderedFrom :
      (low : ℕ) (cs : Children V) (t : RadixNode V)
      → IsOrderedFrom low cs
      → IsOrdered t
      → low ≤ rank t
      → IsOrderedFrom low (sink_child cs t)
  unfolding IsOrderedFrom sink_child
  sink_child-IsOrderedFrom low no_children t ws w above = (above, w, tt)
  sink_child-IsOrderedFrom low (child u us) t (above', w', ws) w above =
      let rank_t = child_rank-eq-precedence (kind_of t) in
      let rank_u = child_rank-eq-precedence (kind_of u) in
      elim (Bool-cases (ltb (child_rank (kind_of t)) (child_rank (kind_of u)))) [
        | inl before ↦
            let less = ltb→lt (child_rank (kind_of t)) (child_rank (kind_of u)) before in
            rw before (above, w, (omega arith, w', ws))
        | inr behind ↦
            let more : child_rank (kind_of u) ≤ child_rank (kind_of t) = ground arith in
            rw behind (above', w', sink_child-IsOrderedFrom (rank u) us t ws w (omega arith))
      ]

  sort_from-IsOrderedFrom :
      (sorted cs : Children V)
      → IsOrderedFrom 0 sorted
      → AllOrdered cs
      → IsOrderedFrom 0 (sort_from sorted cs)
  unfolding sort_from
  sort_from-IsOrderedFrom sorted no_children ws all = ws
  sort_from-IsOrderedFrom sorted (child t ts) ws (w, all) =
      sort_from-IsOrderedFrom (sink_child sorted t) ts
        (sink_child-IsOrderedFrom 0 sorted t ws w (omega arith)) all

  with_new_child-IsOrderedFrom :
      (cs : Children V) (t : RadixNode V)
      → IsOrderedFrom 0 cs
      → IsOrdered t
      → IsOrderedFrom 0 (with_new_child cs t)
  unfolding IsOrderedFrom
  with_new_child-IsOrderedFrom cs t ws w =
      sort_from-IsOrderedFrom no_children (append_child cs t) tt
        (AllOrdered-append_child cs t (IsOrderedFrom-AllOrdered 0 cs ws) w)

  -- What takes the place of a node is ordered and has the kind of the node.
  abbrev Replaces : RadixNode V → RadixNode V → Type 0
  Replaces t u = IsOrdered u × (kind_of u ≡ kind_of t)

  abbrev KeepsOrder : Change V → Type 0
  KeepsOrder change = (t : RadixNode V) → IsOrdered t → Replaces t (change t).0

  split_node-Replaces :
      (t : RadixNode V) (common : ℕ) → IsOrdered t → Replaces t (split_node t common)
  unfolding IsOrdered IsOrderedFrom split_node
  split_node-Replaces (node key kind cs payload) common w = ((omega arith, w, tt), refl)

  add_sibling-Replaces :
      (t u : RadixNode V) → IsOrdered t → IsOrdered u → Replaces t (add_sibling t u)
  unfolding IsOrdered
  add_sibling-Replaces (node key kind cs payload) u w w' =
      (with_new_child-IsOrderedFrom cs u w w', refl)

  -- In the place of the first child.
  first-IsOrderedFrom :
      (low : ℕ) (t u : RadixNode V) (ts : Children V)
      → IsOrderedFrom low (child t ts)
      → Replaces t u
      → IsOrderedFrom low (child u ts)
  unfolding IsOrderedFrom
  first-IsOrderedFrom low t u ts (above, w, ws) (w', same) = rw same (above, w', ws)

  abbrev IsOrderedResult : ℕ → Option (Children V × Bool) → Type 0
  IsOrderedResult low none = Unit
  IsOrderedResult low (some r) = IsOrderedFrom low r.0

  behind_first-IsOrdered :
      (low : ℕ) (t : RadixNode V) (ts : Children V) (r : Option (Children V × Bool))
      → IsOrderedFrom low (child t ts)
      → IsOrderedResult (rank t) r
      → IsOrderedResult low (behind_first t r)
  unfolding IsOrderedFrom
  behind_first-IsOrdered low t ts none w w' = tt
  behind_first-IsOrdered low t ts (some r) (above, w, ws) w' = (above, w, w')

  changed_or_new-Replaces :
      (k : Bytes) (kd : RadixKind) (cs : Children V) (payload : Option V)
      (fresh : RadixNode V × Bool) (r : Option (Children V × Bool))
      → IsOrderedFrom 0 cs
      → IsOrdered fresh.0
      → IsOrderedResult 0 r
      → Replaces (node k kd cs payload) (changed_or_new k kd cs payload fresh r).0
  unfolding IsOrdered
  changed_or_new-Replaces k kd cs payload fresh none ws w w' =
      (with_new_child-IsOrderedFrom cs fresh.0 ws w, refl)
  changed_or_new-Replaces k kd cs payload fresh (some r) ws w w' = (w', refl)

  fresh-IsOrdered :
      (change : Change V) (key : Bytes) (kind : RadixKind)
      → KeepsOrder change
      → IsOrdered (change (new_node key kind)).0
  unfolding IsOrdered IsOrderedFrom
  fresh-IsOrdered change key kind keeps = (keeps (new_node key kind) tt).0

  below :
      (k : Bytes) (kd : RadixKind) (cs : Children V) (payload : Option V)
      → IsOrdered (node k kd cs payload)
      → IsOrderedFrom 0 cs
  unfolding IsOrdered
  below k kd cs payload w = w

  parts :
      (low : ℕ) (t : RadixNode V) (ts : Children V)
      → IsOrderedFrom low (child t ts)
      → IsOrdered t × IsOrderedFrom (rank t) ts
  unfolding IsOrderedFrom
  parts low t ts (above, w, ws) = (w, ws)

  Replaces-then : (t u v : RadixNode V) → Replaces t u → (IsOrdered u → Replaces u v) → Replaces t v
  Replaces-then t u v (w, same) next = let (w', same') = next w in (w', same' ∙ same)

  mutual
    unfolding insert_token insert_child

    insert_token-Replaces :
        (t : RadixNode V) (key : Bytes) (kind : RadixKind) (change : Change V)
        → KeepsOrder change
        → IsOrdered t
        → Replaces t (insert_token t key kind change).0
    insert_token-Replaces (node k kd cs payload) key kind change keeps w =
        changed_or_new-Replaces k kd cs payload (change (new_node key kind))
          (insert_child cs key kind change) (below k kd cs payload w)
          (fresh-IsOrdered change key kind keeps)
          (insert_child-IsOrdered 0 cs key kind change keeps (below k kd cs payload w))

    insert_child-IsOrdered :
        (low : ℕ) (cs : Children V) (key : Bytes) (kind : RadixKind) (change : Change V)
        → KeepsOrder change
        → IsOrderedFrom low cs
        → IsOrderedResult low (insert_child cs key kind change)
    insert_child-IsOrdered low no_children key kind change keeps ws = tt
    insert_child-IsOrdered low (child t ts) key kind change keeps ws =
        let common = node_common t key kind in
        let (w, rest) = parts low t ts ws in
        let split = split_node-Replaces t common w in
        elim (Bool-cases (common == 0)) [
          | inl apart ↦ rw apart (
              behind_first-IsOrdered low t ts (insert_child ts key kind change) ws
                (insert_child-IsOrdered (rank t) ts key kind change keeps rest))
          | inr overlap ↦ elim (Bool-cases (common == length (key_of t))) [
            | inl whole_child ↦ elim (Bool-cases (common == length key)) [
              | inl whole_key ↦
                  rw (overlap, whole_child, whole_key)
                    (first-IsOrderedFrom low t (change t).0 ts ws (keeps t w))
              | inr more ↦
                  rw (overlap, whole_child, more)
                    (first-IsOrderedFrom low t _ ts ws
                      (insert_token-Replaces t (drop common key) kind change keeps w))
            ]
            | inr part ↦ elim (Bool-cases (common == length key)) [
              | inl whole_key ↦
                  rw (overlap, part, whole_key)
                    (first-IsOrderedFrom low t _ ts ws
                      (Replaces-then t (split_node t common) _ split (keeps (split_node t common))))
              | inr more ↦
                  rw (overlap, part, more)
                    (first-IsOrderedFrom low t _ ts ws (
                      Replaces-then t (split_node t common) _ split (λ w'.
                        add_sibling-Replaces (split_node t common) _ w'
                          (fresh-IsOrdered change (drop common key) kind keeps))))
            ]
          ]
        ]

  add_tokens-Replaces :
      (toks : List Token) (v : V) (t : RadixNode V)
      → IsOrdered t
      → Replaces t (add_tokens toks v t).0
  unfolding add_tokens IsOrdered
  add_tokens-Replaces [] v (node key kind cs payload) w = (w, refl)
  add_tokens-Replaces (tok ∷ toks) v t w =
      insert_token-Replaces t tok.bytes tok.kind (add_tokens toks v) (add_tokens-Replaces toks v) w

  -- Adding a pattern keeps the children of every node in the order runs, names, globs, whether
  -- nodes are split, extended or new.
  pub radix_tree_add-IsOrdered :
      (t : RadixTree V) (key : Bytes) (v : V)
      → IsOrdered t.root
      → IsOrdered (RadixTree.root (radix_tree_add t key v))
  unfolding radix_tree_add
  radix_tree_add-IsOrdered t key v w =
      (add_tokens-Replaces (tokenize (length key) key) v t.root w).0
