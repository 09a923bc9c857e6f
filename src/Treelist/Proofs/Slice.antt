-- ===== src/Treelist/Proofs/Slice.antt =====
-- Slicing: `rrb_slice_node` and `rrb_canonical` of icecreme/treelist.c.
use creme.Common.{
  ℕ, ◌+◌, ◌-◌, ◌≤◌, ◌<◌, min, max, ◌≡◌, refl, ap, ◌∙◌, sym, subst, List, [], ◌∷◌, ◌++◌, ◌>>=◌,
  Result, ok, Returns, Returns-bind, Returns-weaken, length, length-append, drop, length-take,
  length-drop, arith, append-nil, inl, inr, true, leb, ltb, leb→le, lt→ltb, ltb→lt, le→ltb_false,
  Bool-cases, if◌then◌else◌, ◌&&◌, ◌==◌,
}
use creme.Treelist.Node.{
  Node, leaf, branch, Nodes, nil, cons, mk_branch, to_list, height_of, size_of,
}
use creme.Treelist.Slice.{slice_node, slice_children, canonical}
use creme.Treelist.WellFormed.{
  contents-append, IsLevel-append, elements, elements_all, contents, IsNode, IsForest, IsLevel,
  size_of-eq-length, elements-ne, mk_branch-IsNode,
}
use creme.Treelist.Proofs.Ranges.{
  range, take_all, range-append_left, range-append_right, range-append_across, range-eq,
}

module _ {A : Type 0} where
  -- What a slice of the node `t` is.
  abbrev IsSlice : Node A → List A → Node A → Type 0
  IsSlice t xs u = IsNode u × (height_of u ≡ height_of t) × (elements u ≡ xs)

  -- The slices of the children `ts`: at least one, on the same level.
  abbrev IsSliceAll : ℕ → Nodes A → List A → List (Node A) → Type 0
  IsSliceAll h ts xs us =
      IsLevel h us × (contents us ≡ xs) × (1 ≤ length us) × (length us ≤ length (to_list ts))

  -- One child: taken whole, or cut by `cut`.
  part_lem :
      (h : ℕ) (t : Node A) (lo a b : ℕ) (cut : Result (Node A))
      → IsNode t
      → h ≡ height_of t + 1
      → lo ≤ a
      → a < b
      → b ≤ lo + size_of t
      → Returns (IsSlice t (range (a - lo) (b - lo) (elements t))) cut
      → Returns
          (λ us.
            IsLevel h us × (contents us ≡ range (a - lo) (b - lo) (elements t)) × (length us ≡ 1))
          (if ltb a b
            then (if a == lo && b == (lo + size_of t)
                then ok (t ∷ [])
                else cut >>= λ u. ok (u ∷ []))
            else ok [])
  part_lem h t lo a b cut n up la lt lb ih =
      let size = size_of-eq-length t n in
      rw (lt→ltb a b lt) (elim (Bool-cases (a == lo && b == (lo + size_of t))) [
        | inl whole ↦
            let a_is : a ≡ lo = ground arith in
            let b_is : b ≡ lo + size_of t = ground arith in
            let from_is : a - lo ≡ 0 = omega arith in
            rw whole (
              _,
              refl,
              (
                (n, up, tt),
                append-nil (elements t)
                    ∙ sym (
                        ap (λ k. range k (b - lo) (elements t)) from_is
                        ∙ take_all (elements t) (b - lo - 0) (omega arith)),
                refl,
              ),
            )
        | inr part ↦ rw part (
            Returns-bind cut _ ih λ u (n', same, e).
              (_, refl, ((n', omega arith, tt), append-nil (elements u) ∙ e, refl)))
      ])

  -- The two parts of a range that crosses from one sequence to the next.
  range_across :
      (xs ys : List A) (a b c d p q : ℕ)
      → a ≡ p
      → b ≡ length xs
      → c ≡ 0
      → q ≡ length xs + d
      → p ≤ length xs
      → range a b xs ++ range c d ys ≡ range p q (xs ++ ys)
  range_across xs ys a b c d p q ea eb ec eq h =
      ap (λ zs. zs ++ range c d ys) (range-eq a b p (length xs) xs ea eb)
      ∙ ap (range p (length xs) xs ++◌) (range-eq c d 0 d ys ec refl)
      ∙ sym (range-append_across xs ys p q d h eq)

  -- The three rounds of the loop: the last one, one that takes from `t` and goes on, and one that
  -- skips `t`.
  module _ (h : ℕ) (t : Node A) (ts : Nodes A) (lo from to : ℕ) (n : IsNode t)
      (lt : from < to) where
    abbrev Part : List (Node A) → Type 0
    Part us =
        IsLevel h us
        × (contents us ≡ range (max from lo - lo) (min to (lo + size_of t) - lo) (elements t))
        × (length us ≡ 1)

    abbrev Rest : List (Node A) → Type 0
    Rest =
        IsSliceAll h ts (range (from - (lo + size_of t)) (to - (lo + size_of t)) (elements_all ts))

    abbrev Whole : List (Node A) → Type 0
    Whole = IsSliceAll h (cons t ts) (range (from - lo) (to - lo) (elements t ++ elements_all ts))

    slice_last :
        (part : Result (List (Node A)))
        → lo < to
        → to ≤ lo + size_of t
        → Returns Part part
        → Returns Whole (part >>= λ us. ok (us ++ []))
    slice_last part low le r =
        let size = size_of-eq-length t n in
        Returns-bind part _ r λ us (l, e, one). (
          _,
          refl,
          (
            subst (IsLevel h) (sym (append-nil us)) l,
            ap contents (append-nil us)
                ∙ e
                ∙ range-eq _ _ (from - lo) (to - lo) (elements t) (omega arith) (omega arith)
                ∙ sym (
                    range-append_left (elements t) (elements_all ts) (from - lo) (to - lo)
                      (omega arith) (omega arith)),
            omega (arith, length-append {0} us []),
            omega (arith, length-append {0} us []),
          ),
        )

    slice_across :
        (part rest : Result (List (Node A)))
        → from < lo + size_of t
        → lo + size_of t < to
        → Returns Part part
        → Returns Rest rest
        → Returns Whole (part >>= λ us. rest >>= λ ws. ok (us ++ ws))
    slice_across part rest starts gt r r' =
        let size = size_of-eq-length t n in
        Returns-bind part _ r λ us (l, e, one). Returns-bind rest _ r' λ ws (l', e', low', few). (
          _,
          refl,
          (
            IsLevel-append h us ws l l',
            contents-append us ws
                ∙ ap (λ xs. xs ++ contents ws) e
                ∙ ap (range (max from lo - lo) (min to (lo + size_of t) - lo) (elements t) ++◌) e'
                ∙ range_across (elements t) (elements_all ts) (max from lo - lo)
                    (min to (lo + size_of t) - lo) (from - (lo + size_of t)) (to - (lo + size_of t))
                    (from - lo) (to - lo) (omega arith) (omega arith) (omega arith) (omega arith)
                    (omega arith),
            omega (arith, length-append {0} us ws),
            omega (arith, length-append {0} us ws),
          ),
        )

    slice_skip :
        (rest : Result (List (Node A)))
        → lo + size_of t ≤ from
        → Returns Rest rest
        → Returns Whole (rest >>= λ ws. ok ws)
    slice_skip rest ge r =
        let size = size_of-eq-length t n in
        Returns-bind rest _ r λ ws (l', e', low', few). (
          _,
          refl,
          (
            l',
            e'
                ∙ sym (
                    range-append_right (elements t) (elements_all ts) (from - lo) (to - lo)
                      (from - (lo + size_of t)) (to - (lo + size_of t)) (omega arith)
                      (omega arith)),
            low',
            omega arith,
          ),
        )

  mutual
    unfolding slice_node

    slice_node-IsNode :
        (t : Node A) (from to : ℕ)
        → IsNode t
        → from < to
        → to ≤ length (elements t)
        → Returns (IsSlice t (range from to (elements t))) (slice_node t from to)
    slice_node-IsNode (leaf items) from to (low, high) lt le =
        let inside : (leb from to && leb to (length items)) ≡ true = ground arith in
        let ld = length-drop {0} from items in
        let l = length-take {0} (to - from) (drop from items) in
        rw inside (_, refl, ((omega arith, omega arith), refl, refl))
    slice_node-IsNode (branch h s sizes ts) from to (f, low, high, _, _) lt le =
        Returns-bind (slice_children ts 0 from to) mk_branch
          (slice_children-IsForest h ts 0 from to f lt (omega arith) (omega arith))
          λ us (l, e, some, few).
            Returns-weaken
              (λ t (n, up, _, e'). (
                n,
                up,
                e' ∙ e ∙ range-eq _ _ from to (elements_all ts) (omega arith) (omega arith),
              ))
              (mk_branch-IsNode h us l some (omega arith))

    slice_children-IsForest :
        (h : ℕ) (ts : Nodes A) (lo from to : ℕ)
        → IsForest h ts
        → from < to
        → lo < to
        → to ≤ lo + length (elements_all ts)
        → Returns
            (IsSliceAll h ts (range (from - lo) (to - lo) (elements_all ts)))
            (slice_children ts lo from to)
    slice_children-IsForest h nil lo from to f lt low high = absurd (omega arith)
    slice_children-IsForest h (cons t ts) lo from to (n, up, f) lt low high =
        let size = size_of-eq-length t n in
        let some = elements-ne t n in
        let both = length-append {0} (elements t) (elements_all ts) in
        let a : ℕ = max from lo in
        let b : ℕ = min to (lo + size_of t) in
        let cut = λ (p : a < b).
          part_lem h t lo a b (slice_node t (a - lo) (b - lo)) n up (omega arith) p (omega arith)
            (slice_node-IsNode t (a - lo) (b - lo) n (omega arith) (omega arith)) in
        elim (Bool-cases (leb to (lo + size_of t))) [
          | inl last ↦
              let le = leb→le to (lo + size_of t) last in
              rw last (slice_last h t ts lo from to n lt _ low le (cut (omega arith)))
          | inr more ↦
              let gt : lo + size_of t < to = ground arith in
              let rest =
                slice_children-IsForest h ts (lo + size_of t) from to f lt gt (omega arith) in
              elim (Bool-cases (ltb from (lo + size_of t))) [
                | inl here ↦
                    let starts = ltb→lt from (lo + size_of t) here in
                    rw more
                      (slice_across h t ts lo from to n lt _ _ starts gt (cut (omega arith)) rest)
                | inr skip ↦
                    let ge : lo + size_of t ≤ from = ground arith in
                    rw (more, le→ltb_false a b (omega arith))
                      (slice_skip h t ts lo from to n lt _ ge rest)
              ]
        ]

  -- Slicing a node between two positions gives a node of the same height over that range.
  pub slice_node_lem :
      (t : Node A) (from to : ℕ)
      → IsNode t
      → from < to
      → to ≤ length (elements t)
      → Returns (λ u. IsNode u × (elements u ≡ range from to (elements t))) (slice_node t from to)
  slice_node_lem t from to n lt le =
      Returns-weaken (λ u (m, _, e). (m, e)) (slice_node-IsNode t from to n lt le)

  -- Stripping the roots with a single child keeps the items.
  pub canonical-IsNode :
      (t : Node A) → IsNode t → IsNode (canonical t) × (elements (canonical t) ≡ elements t)
  unfolding canonical
  canonical-IsNode (leaf items) n = (n, refl)
  canonical-IsNode (branch h s sizes nil) n = (n, refl)
  canonical-IsNode (branch h s sizes (cons t nil)) ((n, _, _), _, _, _, _) =
      let (m, e) = canonical-IsNode t n in (m, e ∙ sym (append-nil (elements t)))
  canonical-IsNode (branch h s sizes (cons t (cons u ts))) n = (n, refl)
