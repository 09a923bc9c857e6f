-- ===== src/Radix/Proofs/Count.antt =====
-- The field `count` of a tree of icecreme/radix.c counts the nodes that have a payload.
use creme.Common.{
  ℕ, ◌+◌, ◌≡◌, refl, ap, inl, inr, Bool, true, false, Option, none, some, List, [], ◌∷◌, length,
  drop, ltb, ◌==◌, Bool-cases, arith,
}
use creme.Csv.Parse.{Bytes}
use creme.Radix.Add.{
  Change, RadixTree, split_node, node_common, with_new_child, add_sibling, changed_or_new,
  behind_first, insert_token, insert_child, add_tokens, tokenize, radix_tree_add,
}
use creme.Radix.Node.{
  RadixKind, RadixNode, node, Children, no_children, child, Token, new_node, key_of, kind_of,
  child_rank, append_child, sink_child, sort_from,
}

abbrev pub one_if : Bool → ℕ
one_if true = 1
one_if false = 0

module _ {V : Type 0} where
  abbrev payload_count : Option V → ℕ
  payload_count none = 0
  payload_count (some v) = 1

  unfoldable mutual
    -- The number of payloads in and below a node.
    pub payloads : RadixNode V → ℕ
    payloads (node key kind cs payload) = payload_count payload + payloads_below cs

    pub payloads_below : Children V → ℕ
    payloads_below no_children = 0
    payloads_below (child t ts) = payloads t + payloads_below ts

  payloads_below-append_child :
      (cs : Children V) (t : RadixNode V)
      → payloads_below (append_child cs t) ≡ payloads_below cs + payloads t
  unfolding payloads_below
  payloads_below-append_child no_children t = omega arith
  payloads_below-append_child (child u us) t = omega (arith, payloads_below-append_child us t)

  payloads_below-sink_child :
      (cs : Children V) (t : RadixNode V)
      → payloads_below (sink_child cs t) ≡ payloads_below cs + payloads t
  unfolding payloads_below sink_child
  payloads_below-sink_child no_children t = omega arith
  payloads_below-sink_child (child u us) t =
      let rest = payloads_below-sink_child us t in
      elim (Bool-cases (ltb (child_rank (kind_of t)) (child_rank (kind_of u)))) [
        | inl before ↦ rw before (omega arith)
        | inr after ↦ rw after (omega arith)
      ]

  payloads_below-sort_from :
      (sorted cs : Children V)
      → payloads_below (sort_from sorted cs) ≡ payloads_below sorted + payloads_below cs
  unfolding payloads_below sort_from
  payloads_below-sort_from sorted no_children = omega arith
  payloads_below-sort_from sorted (child t ts) =
      omega (
        arith,
        payloads_below-sort_from (sink_child sorted t) ts,
        payloads_below-sink_child sorted t,
      )

  payloads_below-with_new_child :
      (cs : Children V) (t : RadixNode V)
      → payloads_below (with_new_child cs t) ≡ payloads_below cs + payloads t
  unfolding payloads_below
  payloads_below-with_new_child cs t = omega (
    arith,
    payloads_below-sort_from no_children (append_child cs t),
    payloads_below-append_child cs t,
  )

  payloads-split_node : (t : RadixNode V) (common : ℕ) → payloads (split_node t common) ≡ payloads t
  unfolding payloads split_node
  payloads-split_node (node key kind cs payload) common = omega arith

  payloads-add_sibling : (t u : RadixNode V) → payloads (add_sibling t u) ≡ payloads t + payloads u
  unfolding payloads
  payloads-add_sibling (node key kind cs payload) u =
      omega (arith, payloads_below-with_new_child cs u)

  -- A change adds as many payloads as it says.
  abbrev Counts : Change V → Type 0
  Counts change = (t : RadixNode V) → payloads (change t).0 ≡ payloads t + one_if (change t).1

  abbrev IsCounted : Children V → Option (Children V × Bool) → Type 0
  IsCounted cs none = Unit
  IsCounted cs (some r) = payloads_below r.0 ≡ payloads_below cs + one_if r.1

  behind_first-IsCounted :
      (t : RadixNode V) (ts : Children V) (r : Option (Children V × Bool))
      → IsCounted ts r
      → IsCounted (child t ts) (behind_first t r)
  unfolding payloads_below
  behind_first-IsCounted t ts none e = tt
  behind_first-IsCounted t ts (some r) e = omega arith

  payloads-changed_or_new :
      (k : Bytes) (kd : RadixKind) (cs : Children V) (payload : Option V)
      (fresh : RadixNode V × Bool) (r : Option (Children V × Bool))
      → payloads fresh.0 ≡ one_if fresh.1
      → IsCounted cs r
      → payloads (changed_or_new k kd cs payload fresh r).0
        ≡ payloads (node k kd cs payload) + one_if (changed_or_new k kd cs payload fresh r).1
  unfolding payloads
  payloads-changed_or_new k kd cs payload fresh none new e =
      omega (arith, payloads_below-with_new_child cs fresh.0)
  payloads-changed_or_new k kd cs payload fresh (some r) new e = omega arith

  payloads-fresh :
      (change : Change V) (key : Bytes) (kind : RadixKind)
      → Counts change
      → payloads (change (new_node key kind)).0 ≡ one_if (change (new_node key kind)).1
  unfolding payloads
  payloads-fresh change key kind counts =
      let none_yet : payloads (new_node {V = V} key kind) ≡ 0 = refl in
      omega (arith, counts (new_node key kind))

  mutual
    unfolding insert_token insert_child payloads_below

    payloads-insert_token :
        (t : RadixNode V) (key : Bytes) (kind : RadixKind) (change : Change V)
        → Counts change
        → payloads (insert_token t key kind change).0
          ≡ payloads t + one_if (insert_token t key kind change).1
    payloads-insert_token (node k kd cs payload) key kind change counts =
        payloads-changed_or_new k kd cs payload (change (new_node key kind))
          (insert_child cs key kind change) (payloads-fresh change key kind counts)
          (insert_child-IsCounted cs key kind change counts)

    insert_child-IsCounted :
        (cs : Children V) (key : Bytes) (kind : RadixKind) (change : Change V)
        → Counts change
        → IsCounted cs (insert_child cs key kind change)
    insert_child-IsCounted no_children key kind change counts = tt
    insert_child-IsCounted (child t ts) key kind change counts =
        let common = node_common t key kind in
        let rest = insert_child-IsCounted ts key kind change counts in
        let inside = payloads-insert_token t (drop common key) kind change counts in
        elim (Bool-cases (common == 0)) [
          | inl apart ↦
              rw apart (behind_first-IsCounted t ts (insert_child ts key kind change) rest)
          | inr overlap ↦ elim (Bool-cases (common == length (key_of t))) [
            | inl whole_child ↦ elim (Bool-cases (common == length key)) [
              | inl whole_key ↦ rw (overlap, whole_child, whole_key) (omega (arith, counts t))
              | inr more ↦ rw (overlap, whole_child, more) (omega arith)
            ]
            | inr part ↦ elim (Bool-cases (common == length key)) [
              | inl whole_key ↦
                  rw (overlap, part, whole_key)
                    (omega (arith, counts (split_node t common), payloads-split_node t common))
              | inr more ↦
                  let sibling = change (new_node (drop common key) kind) in
                  rw (overlap, part, more)
                    (omega (
                      arith,
                      payloads-fresh change (drop common key) kind counts,
                      payloads-add_sibling (split_node t common) sibling.0,
                      payloads-split_node t common,
                    ))
            ]
          ]
        ]

  payloads-add_tokens :
      (toks : List Token) (v : V) (t : RadixNode V)
      → payloads (add_tokens toks v t).0 ≡ payloads t + one_if (add_tokens toks v t).1
  unfolding payloads add_tokens
  payloads-add_tokens [] v (node key kind cs none) = omega arith
  payloads-add_tokens [] v (node key kind cs (some w)) = omega arith
  payloads-add_tokens (tok ∷ toks) v t =
      payloads-insert_token t tok.bytes tok.kind (add_tokens toks v) (payloads-add_tokens toks v)

  -- If the count of a tree is the number of payloads in it, it still is after a pattern is added.
  pub radix_tree_add-count :
      (t : RadixTree V) (key : Bytes) (v : V)
      → t.count ≡ payloads t.root
      → RadixTree.count (radix_tree_add t key v)
        ≡ payloads (RadixTree.root (radix_tree_add t key v))
  unfolding radix_tree_add
  radix_tree_add-count t key v e =
      let toks = tokenize (length key) key in
      let adds = payloads-add_tokens toks v t.root in
      elim (Bool-cases (add_tokens toks v t.root).1) [
        | inl new ↦ rw new (omega (arith, ap one_if new))
        | inr old ↦ rw old (omega (arith, ap one_if old))
      ]
