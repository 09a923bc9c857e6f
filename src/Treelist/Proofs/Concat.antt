-- ===== src/Treelist/Proofs/Concat.antt =====
-- Concatenation: `rrb_concat_sub` and `rrb_concat_roots` of icecreme/treelist.c.
use Prim.Native.Nat.{Ordering, compare}
use creme.Common.{
  ℕ, suc, zero, ◌+◌, ◌-◌, ◌≤◌, ◌<◌, max, ◌≡◌, ◌⊎◌, none, refl, ap, ◌∙◌, sym, subst, List, [], ◌∷◌,
  ◌++◌, ◌>>=◌, Result, Returns, Returns-bind, Returns-weaken, length, length-append, take, drop,
  take-append-drop, length-take, length-drop, arith, append_assoc, append-nil, inl, inr, leb,
  leb→le, Bool-cases,
}
use creme.Treelist.Node.{Node, leaf, branch, width, mk_branch, height_of}
use creme.Treelist.Concat.{
  children_of, rebalance, split_last, split_first, concat_leaves, concat_sub, both_leaves,
  only_child, concat_roots,
}
use creme.Treelist.WellFormed.{elements, contents, contents-append, IsNode, IsLevel, IsLevel-append}
use creme.Treelist.Proofs.Bulk.{IsLevel-front}
use creme.Treelist.Proofs.Rebalance.{
  forest-height, IsParent, IsJoined, branch-IsParent, join-IsJoined, rebalance_lem,
}

compare-cases :
    (a b : ℕ)
    → ((compare a b ≡ Ordering.lt) × (a < b))
      ⊎ (((compare a b ≡ Ordering.eq) × (a ≡ b)) ⊎ ((compare a b ≡ Ordering.gt) × (b < a)))
compare-cases a b = ground arith

module _ {A : Type 0} where
  -- The children of a branch, without the last one, and the last one.
  record IsSplit (h : ℕ) (xs : List A) (n : ℕ) (rest : List (Node A)) (t : Node A) : Type 0 where
    level : IsLevel h rest
    node : IsNode t
    height : h ≡ height_of t + 1
    count : length rest + 1 ≡ n

  split_last_lem :
      (ts : List (Node A)) → 1 ≤ length ts → Returns (λ r. r.0 ++ (r.1 ∷ []) ≡ ts) (split_last ts)
  unfolding split_last
  split_last_lem [] low = absurd (omega arith)
  split_last_lem (t ∷ []) low = (_, refl, refl)
  split_last_lem (t ∷ u ∷ ts) low =
      Returns-bind (split_last (u ∷ ts)) _ (split_last_lem (u ∷ ts) (omega arith))
        λ r e. (_, refl, ap (t ∷◌) e)

  last-IsSplit :
      {h : ℕ} {xs : List A} {ts : List (Node A)}
      → IsParent h xs ts
      → Returns
          (λ r. IsSplit h xs (length ts) r.0 r.1 × (contents r.0 ++ elements r.1 ≡ xs))
          (split_last ts)
  last-IsSplit {h} {xs} {ts} p =
      Returns-weaken
        (λ r e.
          let (l, (n, up, _)) =
            IsLevel-front h r.0 (r.1 ∷ []) (subst (IsLevel h) (sym e) p.level) in
          (
            record {
              level = l;
              node = n;
              height = up;
              count = omega (arith, ap length e, length-append {0} r.0 (r.1 ∷ []));
            },
            ap (contents r.0 ++◌) (sym (append-nil (elements r.1)))
                ∙ sym (contents-append r.0 (r.1 ∷ []))
                ∙ ap contents e
                ∙ p.holds,
          ))
        (split_last_lem ts p.low)

  first-IsSplit :
      {h : ℕ} {xs : List A} (ts : List (Node A))
      → IsParent h xs ts
      → Returns
          (λ r. IsSplit h xs (length ts) r.1 r.0 × (elements r.0 ++ contents r.1 ≡ xs))
          (split_first ts)
  unfolding split_first
  first-IsSplit [] p = let low = p.low in absurd (omega arith)
  first-IsSplit (t ∷ ts) p =
      let (n, up, l) = p.level in
      (_, refl, (record { level = l; node = n; height = up; count = omega arith }, p.holds))

  concat_leaves_lem :
      (xs ys : List A)
      → IsNode (leaf xs)
      → IsNode (leaf ys)
      → Returns (IsJoined 1 (xs ++ ys)) (concat_leaves xs ys)
  unfolding concat_leaves
  concat_leaves_lem xs ys (low, high) (low', high') =
      let both = length-append {0} xs ys in
      elim (Bool-cases (leb (length (xs ++ ys)) width)) [
        | inl fits ↦
            let most = leb→le (length (xs ++ ys)) width fits in
            rw fits (
              subst (λ zs. Returns (IsJoined 1 zs) (mk_branch (leaf (xs ++ ys) ∷ [])))
                (append-nil (xs ++ ys))
                (join-IsJoined 1 (leaf (xs ++ ys) ∷ []) ((omega arith, most), omega arith, tt)
                  (omega arith) (omega arith)))
        | inr over ↦
            let more : width < length (xs ++ ys) = ground arith in
            let la = length-take {0} width (xs ++ ys) in
            let lb = length-drop {0} width (xs ++ ys) in
            let a : Node A = leaf (take width (xs ++ ys)) in
            let b : Node A = leaf (drop width (xs ++ ys)) in
            rw over (
              subst (λ zs. Returns (IsJoined 1 zs) (mk_branch (a ∷ b ∷ [])))
                (ap (take width (xs ++ ys) ++◌) (append-nil (drop width (xs ++ ys)))
                  ∙ take-append-drop width (xs ++ ys))
                (join-IsJoined 1 (a ∷ b ∷ [])
                  (
                    (omega arith, omega arith),
                    omega arith,
                    ((omega arith, omega arith), omega arith, tt),
                  )
                  (omega arith) (omega arith)))
      ]

  -- Around the joined middle, the rest of both sides is rebalanced.
  around-IsJoined :
      (h : ℕ) (ls rs : List (Node A)) (mid : Node A) (xs zs : List A)
      → 1 ≤ h
      → IsLevel h ls
      → IsLevel h rs
      → IsJoined h xs mid
      → length ls + 1 ≤ width
      → length rs + 1 ≤ width
      → contents ls ++ (xs ++ contents rs) ≡ zs
      → Returns (IsJoined (h + 1) zs) (rebalance (ls ++ (children_of mid ++ rs)) (h - 1))
  around-IsJoined h ls rs mid xs zs pos l r j nl nr e =
      let p = j.parent in
      let level =
        IsLevel-append h ls (children_of mid ++ rs) l
          (IsLevel-append h (children_of mid) rs p.level r) in
      let n1 = length-append {0} ls (children_of mid ++ rs) in
      let n2 = length-append {0} (children_of mid) rs in
      let few = j.few in
      let low = p.low in
      let back : h ≡ h - 1 + 1 = omega arith in
      let all : contents (ls ++ (children_of mid ++ rs)) ≡ zs =
        contents-append ls (children_of mid ++ rs)
        ∙ ap (contents ls ++◌)
            (contents-append (children_of mid) rs ∙ ap (λ ys. ys ++ contents rs) p.holds)
        ∙ e in
      subst (λ k. Returns (IsJoined (k + 1) zs) (rebalance (ls ++ (children_of mid ++ rs)) (h - 1)))
        (sym back)
        (subst
          (λ ys.
            Returns (IsJoined (h - 1 + 1 + 1) ys)
              (rebalance (ls ++ (children_of mid ++ rs)) (h - 1)))
          all
          (rebalance_lem (ls ++ (children_of mid ++ rs)) (h - 1)
            (subst (λ k. IsLevel k (ls ++ (children_of mid ++ rs))) back level) (omega arith)
            (omega arith)))

  -- Two nodes of one height of which not both are leaves are two branches.
  same_height :
      (left right : Node A)
      → IsNode left
      → IsNode right
      → height_of left ≡ height_of right
      → ((xs : List A) × (ys : List A) × (left ≡ leaf xs) × (right ≡ leaf ys))
        ⊎ ((both_leaves left right ≡ none) × (1 ≤ height_of left) × (1 ≤ height_of right))
  same_height (leaf xs) (leaf ys) n m e = inl (xs, ys, refl, refl)
  same_height (leaf xs) (branch h s sizes ts) n (f, low, _, _, _) e =
      let up = forest-height h ts f low in absurd (omega arith)
  same_height (branch h s sizes ts) (leaf ys) (f, low, _, _, _) m e =
      let up = forest-height h ts f low in absurd (omega arith)
  same_height (branch h s sizes ts) (branch h' s' sizes' ts') (f, low, _, _, _) m e =
      let up = forest-height h ts f low in inr (refl, omega arith, omega arith)

  -- What `rrb_concat_sub` returns for two nodes.
  abbrev Joins : Node A → Node A → Result (Node A) → Type 0
  Joins left right =
      Returns
        (IsJoined (max (height_of left) (height_of right) + 1) (elements left ++ elements right))

  -- The three ways down, with `sub` for the recursive call.
  module _ (sub : Node A → Node A → Result (Node A)) (left right : Node A) where
    right_step :
        IsParent (height_of right) (elements right) (children_of right)
        → height_of left < height_of right
        → ((r : Node A) → IsNode r → height_of right ≡ height_of r + 1 → Joins left r (sub left r))
        → Joins left right (
            split_first (children_of right) >>= λ r.
            sub left r.0 >>= λ mid. rebalance (children_of mid ++ r.1) (height_of right - 1))
    right_step p lt ih =
        let high = p.high in
        Returns-bind (split_first (children_of right)) _ (first-IsSplit (children_of right) p)
          λ r (s, e).
            let up = s.height in
            let count = s.count in
            let top : height_of right ≡ max (height_of left) (height_of right) = omega arith in
            let under : max (height_of left) (height_of r.0) + 1 ≡ height_of right = omega arith in
            Returns-bind (sub left r.0) _ (ih r.0 s.node up) λ mid j.
              subst
                (λ k.
                  Returns (IsJoined (k + 1) (elements left ++ elements right))
                    (rebalance (children_of mid ++ r.1) (height_of right - 1)))
                top
                (around-IsJoined (height_of right) [] r.1 mid _ _ (omega arith) tt s.level
                  (subst (λ k. IsJoined k (elements left ++ elements r.0) mid) under j)
                  (omega arith) (omega arith)
                  (append_assoc (elements left) (elements r.0) (contents r.1)
                    ∙ ap (elements left ++◌) e))

    left_step :
        IsParent (height_of left) (elements left) (children_of left)
        → height_of right < height_of left
        → ((l : Node A) → IsNode l → height_of left ≡ height_of l + 1 → Joins l right (sub l right))
        → Joins left right (
            split_last (children_of left) >>= λ l.
            sub l.1 right >>= λ mid. rebalance (l.0 ++ children_of mid) (height_of left - 1))
    left_step p gt ih =
        let high = p.high in
        Returns-bind (split_last (children_of left)) _ (last-IsSplit p) λ l (s, e).
          let up = s.height in
          let count = s.count in
          let top : height_of left ≡ max (height_of left) (height_of right) = omega arith in
          let under : max (height_of l.1) (height_of right) + 1 ≡ height_of left = omega arith in
          Returns-bind (sub l.1 right) _ (ih l.1 s.node up) λ mid j.
            subst
              (λ us.
                Returns
                  (IsJoined (max (height_of left) (height_of right) + 1)
                    (elements left ++ elements right))
                  (rebalance (l.0 ++ us) (height_of left - 1)))
              (append-nil (children_of mid))
              (subst
                (λ k.
                  Returns (IsJoined (k + 1) (elements left ++ elements right))
                    (rebalance (l.0 ++ (children_of mid ++ [])) (height_of left - 1)))
                top
                (around-IsJoined (height_of left) l.0 [] mid _ _ (omega arith) s.level tt
                  (subst (λ k. IsJoined k (elements l.1 ++ elements right) mid) under j)
                  (omega arith) (omega arith)
                  (ap (contents l.0 ++◌) (append-nil (elements l.1 ++ elements right))
                    ∙ sym (append_assoc (contents l.0) (elements l.1) (elements right))
                    ∙ ap (λ xs. xs ++ elements right) e)))

    both_step :
        IsParent (height_of left) (elements left) (children_of left)
        → IsParent (height_of right) (elements right) (children_of right)
        → height_of left ≡ height_of right
        → 1 ≤ height_of left
        → ((l r : Node A)
            → IsNode l
            → IsNode r
            → height_of left ≡ height_of l + 1
            → height_of right ≡ height_of r + 1
            → Joins l r (sub l r))
        → Joins left right (
            split_last (children_of left) >>= λ l. split_first (children_of right) >>= λ r.
            sub l.1 r.0 >>= λ mid. rebalance (l.0 ++ (children_of mid ++ r.1)) (height_of left - 1))
    both_step p q same pos ih =
        let high = p.high in
        let high' = q.high in
        Returns-bind (split_last (children_of left)) _ (last-IsSplit p) λ l (s, e).
          Returns-bind (split_first (children_of right)) _ (first-IsSplit (children_of right) q)
            λ r (s', e').
              let up = s.height in
              let up' = s'.height in
              let count = s.count in
              let count' = s'.count in
              let top : height_of left ≡ max (height_of left) (height_of right) = omega arith in
              let under : max (height_of l.1) (height_of r.0) + 1 ≡ height_of left = omega arith in
              Returns-bind (sub l.1 r.0) _ (ih l.1 r.0 s.node s'.node up up') λ mid j.
                subst
                  (λ k.
                    Returns (IsJoined (k + 1) (elements left ++ elements right))
                      (rebalance (l.0 ++ (children_of mid ++ r.1)) (height_of left - 1)))
                  top
                  (around-IsJoined (height_of left) l.0 r.1 mid _ _ pos s.level
                    (subst (λ k. IsLevel k r.1) (sym same) s'.level)
                    (subst (λ k. IsJoined k (elements l.1 ++ elements r.0) mid) under j)
                    (omega arith) (omega arith)
                    (ap (contents l.0 ++◌)
                        (append_assoc (elements l.1) (elements r.0) (contents r.1))
                      ∙ sym (append_assoc (contents l.0) (elements l.1) _)
                      ∙ ap (λ xs. xs ++ (elements r.0 ++ contents r.1)) e
                      ∙ ap (elements left ++◌) e'))

  -- With more rounds than levels, `rrb_concat_sub` joins the two sequences.
  concat_sub_lem :
      (rounds : ℕ) (left right : Node A)
      → IsNode left
      → IsNode right
      → max (height_of left) (height_of right) < rounds
      → Joins left right (concat_sub rounds left right)
  unfolding concat_sub
  concat_sub_lem zero left right n m h = absurd (omega arith)
  concat_sub_lem (suc rounds) left right n m h =
      elim (compare-cases (height_of left) (height_of right)) [
        | inl (c, lt) ↦
            let (is, p) = branch-IsParent right m (omega arith) in
            rw (c, concat_sub, is)
              (right_step (concat_sub rounds) left right p lt
                λ r n' up. concat_sub_lem rounds left r n n' (omega arith))
        | inr (inl (c, same)) ↦ elim (same_height left right n m same) [
          | inl (xs, ys, a, b) ↦
              rw (c, concat_sub, a, b)
                (concat_leaves_lem xs ys (subst IsNode a n) (subst IsNode b m))
          | inr (none_leaf, hl, hr) ↦
              let (is, p) = branch-IsParent left n hl in
              let (is', q) = branch-IsParent right m hr in
              rw (c, concat_sub, none_leaf, is, is')
                (both_step (concat_sub rounds) left right p q same hl
                  λ l r n' m' up up'. concat_sub_lem rounds l r n' m' (omega arith))
        ]
        | inr (inr (c, gt)) ↦
            let (is, p) = branch-IsParent left n (omega arith) in
            rw (c, concat_sub, is)
              (left_step (concat_sub rounds) left right p gt
                λ l n' up. concat_sub_lem rounds l right n' m (omega arith))
      ]

  -- An only child that replaces its parent has the same items.
  only_child-IsNode :
      (top : Node A) (ts : List (Node A)) {h : ℕ} {xs : List A}
      → IsNode top
      → elements top ≡ xs
      → IsParent h xs ts
      → IsNode (only_child top ts) × (elements (only_child top ts) ≡ xs)
  only_child-IsNode top [] n e p = (n, e)
  only_child-IsNode top (t ∷ []) n e p =
      let (m, _, _) = p.level in (m, sym (append-nil (elements t)) ∙ p.holds)
  only_child-IsNode top (t ∷ u ∷ ts) n e p = (n, e)

  -- Concatenating two nodes returns a node, over the items of both.
  pub concat_roots_lem :
      (left right : Node A)
      → IsNode left
      → IsNode right
      → Returns
          (λ t. IsNode t × (elements t ≡ elements left ++ elements right))
          (concat_roots left right)
  unfolding concat_roots
  concat_roots_lem left right n m =
      Returns-bind (concat_sub _ left right) _ (concat_sub_lem _ left right n m (omega arith))
        λ top j. (_, refl, only_child-IsNode top (children_of top) j.node j.holds j.parent)
