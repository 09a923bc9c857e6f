-- ===== src/Treelist/Proofs/Rebalance.antt =====
-- Repacking and grouping: `rrb_rebalance` of icecreme/treelist.c, and what a branch gives for it.
use creme.Common.{
  ℕ, suc, zero, ◌+◌, ◌*◌, ◌≤◌, ◌<◌, ◌≡◌, refl, ap, ◌∙◌, sym, subst, List, [], ◌∷◌, ◌++◌, ok,
  Returns, Returns-bind, Returns-weaken, length, length-append, take, drop, take-append-drop,
  length-take, length-drop, arith, append-nil, inl, inr, false, leb, leb→le, Bool-cases, ◌==◌,
}
use creme.Treelist.Node.{
  Node, leaf, branch, Nodes, nil, cons, width, mk_branch, to_list, height_of, as_branch,
}
use creme.Treelist.Concat.{items_of, children_of, all_items, all_children, repack, group, rebalance}
use creme.Treelist.WellFormed.{
  elements, contents, contents-append, contents-to_list, IsNode, IsForest, IsLevel, IsLevel-append,
  IsLevel-to_list, mk_branch-IsNode,
}
use creme.Treelist.Proofs.Bulk.{IsLevel-front, chunk_leaves-IsPacked, chunk_branches-IsPacked}

module _ {A : Type 0} where
  -- The children `ts` of a branch of height `h` over the items `xs`.
  pub record IsParent (h : ℕ) (xs : List A) (ts : List (Node A)) : Type 0 where
    pub level : IsLevel h ts
    pub holds : contents ts ≡ xs
    pub low : 1 ≤ length ts
    pub high : length ts ≤ width

  -- A branch of height `h` over `xs` with one or two children: what `rrb_concat_sub` returns.
  pub record IsJoined (h : ℕ) (xs : List A) (t : Node A) : Type 0 where
    pub node : IsNode t
    pub height : height_of t ≡ h
    pub holds : elements t ≡ xs
    pub parent : IsParent h xs (children_of t)
    pub few : length (children_of t) ≤ 2

  pub forest-height : (h : ℕ) (ts : Nodes A) → IsForest h ts → 1 ≤ length (to_list ts) → 1 ≤ h
  forest-height h nil f low = absurd (omega arith)
  forest-height h (cons t ts) (_, up, _) low = omega arith

  pub branch-IsParent :
      (t : Node A)
      → IsNode t
      → 1 ≤ height_of t
      → (as_branch t ≡ ok (children_of t)) × IsParent (height_of t) (elements t) (children_of t)
  branch-IsParent (leaf items) n h = absurd (omega arith)
  branch-IsParent (branch h s sizes ts) (f, low, high, _, _) p = (
    refl,
    record { level = IsLevel-to_list h ts f; holds = contents-to_list ts; low = low; high = high },
  )

  pub leaf-items :
      (t : Node A)
      → IsNode t
      → height_of t ≡ 0
      → (items_of t ≡ elements t) × (1 ≤ length (items_of t)) × (length (items_of t) ≤ width)
  leaf-items (leaf items) (low, high) h = (refl, low, high)
  leaf-items (branch h s sizes ts) (f, low, high, _, _) e =
      let up = forest-height h ts f low in absurd (omega arith)

  all_items-contents :
      (ts : List (Node A))
      → IsLevel 1 ts
      → (all_items ts ≡ contents ts)
        × (length (all_items ts) ≤ width * length ts)
        × (length ts ≤ length (all_items ts))
  unfolding all_items
  all_items-contents [] l = (refl, omega arith, omega arith)
  all_items-contents (t ∷ ts) (n, up, l) =
      let (e, low, high) = leaf-items t n (omega arith) in
      let (e', most, least) = all_items-contents ts l in
      let both = length-append {0} (items_of t) (all_items ts) in
      (ap (λ xs. xs ++ all_items ts) e ∙ ap (elements t ++◌) e', omega arith, omega arith)

  all_children-contents :
      (h : ℕ) (ts : List (Node A))
      → 1 ≤ h
      → IsLevel (h + 1) ts
      → IsLevel h (all_children ts)
        × (contents (all_children ts) ≡ contents ts)
        × (length (all_children ts) ≤ width * length ts)
        × (length ts ≤ length (all_children ts))
  unfolding all_children
  all_children-contents h [] p l = (tt, refl, omega arith, omega arith)
  all_children-contents h (t ∷ ts) p (n, up, l) =
      let same : height_of t ≡ h = omega arith in
      let (_, kids) = branch-IsParent t n (omega arith) in
      let (m, e', most, least) = all_children-contents h ts p l in
      let both = length-append {0} (children_of t) (all_children ts) in
      let low = kids.low in
      let high = kids.high in
      (
        IsLevel-append h (children_of t) (all_children ts)
            (subst (λ k. IsLevel k (children_of t)) same kids.level) m,
        contents-append (children_of t) (all_children ts)
            ∙ ap (λ xs. xs ++ contents (all_children ts)) kids.holds
            ∙ ap (elements t ++◌) e',
        omega arith,
        omega arith,
      )

  -- Repacking keeps the items and the height, and never makes more nodes.
  repack_lem :
      (merged : List (Node A)) (ml : ℕ)
      → IsLevel (ml + 1) merged
      → 1 ≤ length merged
      → Returns
          (λ ts.
            IsLevel (ml + 1) ts
            × (contents ts ≡ contents merged)
            × (1 ≤ length ts)
            × (length ts ≤ length merged))
          (repack merged ml)
  unfolding repack
  repack_lem merged zero l some =
      let (e, most, least) = all_items-contents merged l in
      let (m, e', packed, none_lost) = chunk_leaves-IsPacked (all_items merged) in
      let q = none_lost (omega arith) in (_, refl, (m, e' ∙ e, q, omega arith))
  repack_lem merged (suc ml) l some =
      let (kids, e, most, least) = all_children-contents (suc ml) merged (omega arith) l in
      let inner : (suc ml == 0) ≡ false = ground arith in
      rw inner (
        Returns-weaken
          (λ ts (m, e', packed, none_lost).
            let q = none_lost (omega arith) in (m, e' ∙ e, q, omega arith))
          (chunk_branches-IsPacked (suc ml) (all_children merged) kids))

  -- `rrb_mk_branch` over one or two nodes.
  pub join-IsJoined :
      (h : ℕ) (ts : List (Node A))
      → IsLevel h ts
      → 1 ≤ length ts
      → length ts ≤ 2
      → Returns (IsJoined h (contents ts)) (mk_branch ts)
  join-IsJoined h ts l low few =
      Returns-weaken
        (λ t (n, up, same, e). record {
          node = n;
          height = up;
          holds = e;
          parent =
              subst (IsParent h (contents ts)) (sym same)
                (record { level = l; holds = refl; low = low; high = omega arith });
          few = omega (arith, ap length same);
        })
        (mk_branch-IsNode h ts l low (omega arith))

  group_lem :
      (h : ℕ) (ts : List (Node A))
      → IsLevel h ts
      → 1 ≤ length ts
      → length ts ≤ 2 * width
      → Returns (IsJoined (h + 1) (contents ts)) (group ts)
  unfolding group
  group_lem h ts l low high = elim (Bool-cases (leb (length ts) width)) [
    | inl fits ↦ rw fits (
        Returns-bind (mk_branch ts) _ (mk_branch-IsNode h ts l low (leb→le (length ts) width fits))
          λ t (n, up, _, e).
            subst (λ xs. Returns (IsJoined (h + 1) xs) (mk_branch (t ∷ [])))
              (append-nil (elements t) ∙ e)
              (join-IsJoined (h + 1) (t ∷ []) (n, omega arith, tt) (omega arith) (omega arith)))
    | inr over ↦
        let more : width < length ts = ground arith in
        let whole = take-append-drop {0} width ts in
        let la = length-take {0} width ts in
        let lb = length-drop {0} width ts in
        let (l1, l2) = IsLevel-front h (take width ts) (drop width ts) (rw whole l) in
        rw over (
          Returns-bind (mk_branch (take width ts)) _
            (mk_branch-IsNode h (take width ts) l1 (omega arith) (omega arith))
            λ a (na, ua, _, ea).
              Returns-bind (mk_branch (drop width ts)) _
                (mk_branch-IsNode h (drop width ts) l2 (omega arith) (omega arith))
                λ b (nb, ub, _, eb).
                  subst (λ xs. Returns (IsJoined (h + 1) xs) (mk_branch (a ∷ b ∷ [])))
                    (ap (elements a ++◌) (append-nil (elements b))
                      ∙ ap (λ xs. xs ++ elements b) ea
                      ∙ ap (contents (take width ts) ++◌) eb
                      ∙ sym (contents-append (take width ts) (drop width ts))
                      ∙ ap contents whole)
                    (join-IsJoined (h + 1) (a ∷ b ∷ []) (na, omega arith, (nb, omega arith, tt))
                      (omega arith) (omega arith)))
  ]

  -- Rebalancing at most 64 nodes keeps the items, and gives one or two children.
  pub rebalance_lem :
      (merged : List (Node A)) (ml : ℕ)
      → IsLevel (ml + 1) merged
      → 1 ≤ length merged
      → length merged ≤ 2 * width
      → Returns (IsJoined (ml + 1 + 1) (contents merged)) (rebalance merged ml)
  unfolding rebalance
  rebalance_lem merged ml l low high =
      Returns-bind (repack merged ml) group (repack_lem merged ml l low) λ ts (m, e, some, fewer).
        subst (λ xs. Returns (IsJoined (ml + 1 + 1) xs) (group ts)) e
          (group_lem (ml + 1) ts m some (omega arith))
