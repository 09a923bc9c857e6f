-- ===== src/Treelist/Proofs/Tree.antt =====
-- The operations on roots: `tree_add` to `tree_reverse` of icecreme/treelist.c, each against the
-- sequence of the items.
use mathlib.Core.List.{reverse-cons}
use creme.Common.{
  ℕ, suc, zero, ◌+◌, ◌-◌, ◌⊎◌, subst, true, ltb, ltb→lt, lt→ltb, fail, int_overflow, length-append,
  length-take, ◌≤◌, ◌<◌, ◌≡◌, refl, ap, ◌∙◌, sym, List, [], ◌∷◌, ◌++◌, reverse, Option, none, some,
  ◌>>=◌, Result, ok, Returns, Returns-bind, Returns-weaken, length, take, drop, length-drop, arith,
  append_assoc, append-nil, inl, inr, false, leb, leb→le, Bool-cases, ◌==◌,
}
use creme.Treelist.Node.{Node, make_leaf, size_of, height_of}
use creme.Treelist.Access.{fast_push, fast_cons}
use creme.Treelist.Concat.{concat_roots}
use creme.Treelist.Slice.{slice_node, canonical}
use creme.Treelist.Tree.{
  tree_add, tree_cons, tree_concat, tree_take, tree_drop, tree_sublist, tree_insert, tree_delete,
  tree_reverse, from_int_array, within_int,
}
use creme.Treelist.WellFormed.{elements, IsNode, IsRoot, IsTree, size_of-eq-length, elements-ne}
use creme.Treelist.Proofs.Push.{IsPush, fast_push_lem, fast_cons_lem}
use creme.Treelist.Proofs.Bulk.{from_array_lem, to_array-elements}
use creme.Treelist.Proofs.Concat.{concat_roots_lem}
use creme.Treelist.Proofs.Ranges.{range, take_all}
use creme.Treelist.Proofs.Slice.{slice_node_lem, canonical-IsNode}

module _ {A : Type 0} where
  -- The operation returns a tree, and the tree holds `xs`.
  abbrev pub Gives : List A → Result (Node A) → Type 0
  Gives xs = Returns (λ t. IsTree t × (elements t ≡ xs))

  pub size_of-IsRoot : (t : Node A) → IsRoot t → size_of t ≡ length (elements t)
  size_of-IsRoot t (inl n) = size_of-eq-length t n
  size_of-IsRoot t (inr e) = rw e refl

  pub size_of-IsTree : (t : Node A) → IsTree t → size_of t ≡ length (elements t)
  size_of-IsTree t (w, fits) = size_of-IsRoot t w

  -- A root of this many items is a tree if they fit.
  Gives-fits :
      {xs : List A} {r : Result (Node A)}
      → length xs < 2147483648
      → Returns (λ t. IsRoot t × (elements t ≡ xs)) r
      → Gives xs r
  Gives-fits fits g =
      Returns-weaken
        (λ t (w, e). let l = ap length e in ((w, subst (λ n. n < 2147483648) (sym l) fits), e)) g

  -- The operation gives that tree, or its size is too large for an `int`.
  abbrev pub GivesInt : List A → Result (Node A) → Type 0
  GivesInt xs r = Gives xs r ⊎ (r ≡ fail int_overflow)

  within_int-Gives :
      {xs : List A} (n : ℕ) {r : Result (Node A)}
      → n < 2147483648
      → Gives xs r
      → Gives xs (within_int n r)
  within_int-Gives n fits g = rw (lt→ltb n 2147483648 fits) g

  within_int-GivesInt :
      {xs : List A} (n : ℕ) (r : Result (Node A))
      → (n < 2147483648 → Gives xs (within_int n r))
      → GivesInt xs (within_int n r)
  within_int-GivesInt n r k = elim (Bool-cases (ltb n 2147483648)) [
    | inl fits ↦ inl (k (ltb→lt n 2147483648 fits))
    | inr large ↦ inr (rw large refl)
  ]

  pub from_int_array_lem :
      (xs : List A) → length xs + 31 < 2147483648 → Gives xs (from_int_array xs)
  unfolding from_int_array
  from_int_array_lem xs fits =
      within_int-Gives (length xs + 31) fits (Gives-fits (omega arith) (from_array_lem xs))

  pub from_int_array_int : (xs : List A) → GivesInt xs (from_int_array xs)
  unfolding from_int_array
  from_int_array_int xs =
      within_int-GivesInt (length xs + 31) _ (λ fits. from_int_array_lem xs fits)

  single-IsNode : (v : A) → IsNode (make_leaf (v ∷ []))
  single-IsNode v = (omega arith, omega arith)

  concat_roots-Gives :
      (a b : Node A)
      → IsNode a
      → IsNode b
      → length (elements a) + length (elements b) < 2147483648
      → Gives (elements a ++ elements b) (concat_roots a b)
  concat_roots-Gives a b n m fits =
      Gives-fits (omega (arith, length-append (elements a) (elements b)))
        (Returns-weaken (λ t (k, e). (inl k, e)) (concat_roots_lem a b n m))

  -- A pushed node is the result; a full one is joined with a leaf of its own.
  after_push :
      (h : ℕ) (xs : List A) (r : Option (Node A)) (full : Result (Node A))
      → length xs < 2147483648
      → IsPush h xs r
      → Gives xs full
      → Gives xs (elim r [ some nr ↦ ok nr | none ↦ full ])
  after_push h xs none full fits p g = g
  after_push h xs (some t) full fits (n, _, e) g = Gives-fits fits (t, refl, (inl n, e))

  -- Adding to a well-formed tree with fewer than 2 ^ 31 - 1 items returns a well-formed tree with
  -- the item at its end, whether the last leaf is full or not.
  pub tree_add_lem :
      (t : Node A) (v : A)
      → IsTree t
      → length (elements t) + 1 < 2147483648
      → Gives (elements t ++ (v ∷ [])) (tree_add t v)
  unfolding tree_add fast_push
  tree_add_lem t v (inl n, fits) room =
      let size = size_of-eq-length t n in
      within_int-Gives (size_of t + 1) (omega arith) (
        Returns-bind (fast_push t v) _ (fast_push_lem t v n) λ r p.
          after_push (height_of t) _ r _ (omega (arith, length-append (elements t) (v ∷ []))) p
            (concat_roots-Gives t _ n (single-IsNode v) room))
  tree_add_lem t v (inr e, fits) room = rw e (_, refl, ((inl (single-IsNode v), omega arith), refl))

  -- Consing onto a well-formed tree with fewer than 2 ^ 31 - 1 items returns a well-formed tree
  -- with the item in front, whether the first leaf is full or not.
  pub tree_cons_lem :
      (t : Node A) (v : A)
      → IsTree t
      → length (elements t) + 1 < 2147483648
      → Gives (v ∷ elements t) (tree_cons t v)
  unfolding tree_cons fast_cons
  tree_cons_lem t v (inl n, fits) room =
      let size = size_of-eq-length t n in
      within_int-Gives (size_of t + 1) (omega arith) (
        Returns-bind (fast_cons t v) _ (fast_cons_lem t v n) λ r p.
          after_push (height_of t) _ r _ (omega arith) p
            (concat_roots-Gives _ t (single-IsNode v) n (omega arith)))
  tree_cons_lem t v (inr e, fits) room =
      rw e (_, refl, ((inl (single-IsNode v), omega arith), refl))

  size-ne : (t : Node A) → IsNode t → (size_of t == 0) ≡ false
  size-ne t n = let e = size_of-eq-length t n in let s = elements-ne t n in ground arith

  -- Concatenating two well-formed trees with fewer than 2 ^ 31 items together returns a
  -- well-formed tree over the items of the first and then of the second.
  pub tree_concat_lem :
      (a b : Node A)
      → IsTree a
      → IsTree b
      → length (elements a) + length (elements b) < 2147483648
      → Gives (elements a ++ elements b) (tree_concat a b)
  unfolding tree_concat
  tree_concat_lem a b (inl n, _) (inl m, _) room =
      let size = size_of-eq-length a n in
      let size' = size_of-eq-length b m in
      rw (size-ne a n) (
        rw (size-ne b m) (
          within_int-Gives (size_of a + size_of b) (omega arith) (concat_roots-Gives a b n m room)))
  tree_concat_lem a b (inl n, fits) (inr e, _) room =
      rw e (rw (size-ne a n) (_, refl, ((inl n, fits), sym (append-nil (elements a)))))
  tree_concat_lem a b (inr e, _) w room = rw e (_, refl, (w, refl))

  -- A position strictly inside the tree: there the tree is a node, and is cut.
  cut_lem :
      (t : Node A) (from to : ℕ)
      → IsTree t
      → from < to
      → to ≤ length (elements t)
      → Gives (range from to (elements t)) (slice_node t from to >>= λ u. ok (canonical u))
  cut_lem t from to (inl n, fits) lt le =
      let l = length-take {0} (to - from) (drop from (elements t)) in
      let l' = length-drop {0} from (elements t) in
      Gives-fits (omega arith) (
        Returns-bind (slice_node t from to) _ (slice_node_lem t from to n lt le)
          λ u (m, e). let (k, e') = canonical-IsNode u m in (_, refl, (inl k, e' ∙ e)))
  cut_lem t from to (inr e, _) lt le = absurd (omega (arith, ap (λ u. length (elements u)) e))

  -- Taking from a well-formed tree with fewer than 2 ^ 31 items returns a well-formed tree over
  -- the first items, all of them if there are not more.
  pub tree_take_lem : (t : Node A) (n : ℕ) → IsTree t → Gives (take n (elements t)) (tree_take t n)
  unfolding tree_take
  tree_take_lem t zero w = (_, refl, ((inr refl, omega arith), refl))
  tree_take_lem t (suc n) w =
      let size = size_of-IsTree t w in
      let some : (suc n == 0) ≡ false = ground arith in
      rw some (elim (Bool-cases (leb (size_of t) (suc n))) [
        | inl all ↦
            let le = leb→le (size_of t) (suc n) all in
            rw all (_, refl, (w, sym (take_all (elements t) (suc n) (omega arith))))
        | inr part ↦
            let lt : suc n < size_of t = ground arith in
            rw part (
              Returns-weaken
                (λ u (m, e). (m, e ∙ ap (λ k. take k (elements t)) {y = suc n} (omega arith)))
                (cut_lem t 0 (suc n) w (omega arith) (omega arith)))
      ])

  drop_all : (xs : List A) (n : ℕ) → length xs ≤ n → drop n xs ≡ []
  drop_all [] zero h = refl
  drop_all [] (suc n) h = refl
  drop_all (x ∷ xs) zero h = absurd (omega arith)
  drop_all (x ∷ xs) (suc n) h = drop_all xs n (omega arith)

  -- Dropping from a well-formed tree with fewer than 2 ^ 31 items returns a well-formed tree over
  -- the items behind the dropped ones.
  pub tree_drop_lem : (t : Node A) (n : ℕ) → IsTree t → Gives (drop n (elements t)) (tree_drop t n)
  unfolding tree_drop
  tree_drop_lem t zero w = (_, refl, (w, refl))
  tree_drop_lem t (suc n) w =
      let size = size_of-IsTree t w in
      let some : (suc n == 0) ≡ false = ground arith in
      rw some (elim (Bool-cases (leb (size_of t) (suc n))) [
        | inl all ↦
            let le = leb→le (size_of t) (suc n) all in
            rw all (
              _,
              refl,
              ((inr refl, omega arith), sym (drop_all (elements t) (suc n) (omega arith))),
            )
        | inr part ↦
            let lt : suc n < size_of t = ground arith in
            let l = length-drop {0} (suc n) (elements t) in
            rw part (
              Returns-weaken
                (λ u (m, e). (m, e ∙ take_all (drop (suc n) (elements t)) _ (omega arith)))
                (cut_lem t (suc n) (size_of t) w (omega arith) (omega arith)))
      ])

  pub tree_sublist_lem :
      (t : Node A) (from to : ℕ)
      → IsTree t
      → Gives (drop from (take to (elements t))) (tree_sublist t from to)
  unfolding tree_sublist
  tree_sublist_lem t from to w =
      Returns-bind (tree_take t to) _ (tree_take_lem t to w) λ u (m, e).
        Returns-weaken (λ v (k, e'). (k, e' ∙ ap (drop from) e)) (tree_drop_lem u from m)

  -- What is in front of a position and what is behind it are no more than all.
  rest_fits :
      (xs : List A) (i : ℕ) {ys zs : List A}
      → ys ≡ take i xs
      → zs ≡ drop (i + 1) xs
      → length xs < 2147483648
      → length ys + length zs < 2147483648
  rest_fits xs i e e' fits =
      let l = ap length e in
      let l' = ap length e' in omega (arith, length-take {0} i xs, length-drop {0} (i + 1) xs)

  -- Deleting at a position of a well-formed tree with fewer than 2 ^ 31 items returns a
  -- well-formed tree over the other items, in their order.
  pub tree_delete_lem :
      (t : Node A) (i : ℕ)
      → IsTree t
      → Gives (take i (elements t) ++ drop (i + 1) (elements t)) (tree_delete t i)
  unfolding tree_delete
  tree_delete_lem t i w = Returns-bind (tree_take t i) _ (tree_take_lem t i w) λ a (m, e).
      Returns-bind (tree_drop t (i + 1)) _ (tree_drop_lem t (i + 1) w) λ b (m', e').
        Returns-weaken
          (λ c (k, e''). (k, e'' ∙ ap (λ xs. xs ++ elements b) e ∙ ap (take i (elements t) ++◌) e'))
          (tree_concat_lem a b m m' (rest_fits (elements t) i e e' w.1))

  length_inserted :
      (xs : List A) (i : ℕ) (v : A) → length (take i xs ++ (v ∷ drop i xs)) ≡ length xs + 1
  length_inserted xs i v =
      omega (
        arith,
        length-append (take i xs) (v ∷ drop i xs),
        length-take {0} i xs,
        length-drop {0} i xs,
      )

  -- Inside, insertion ends in the concatenation of what is in front, with the item, and what is behind.
  insert_inside :
      (t : Node A) (i : ℕ) (v : A)
      → IsTree t
      → i < size_of t
      → (b : Node A) × (c : Node A) × ((do
        front ← tree_take t i
        with_v ← tree_concat front (make_leaf (v ∷ []))
        back ← tree_drop t i
        tree_concat with_v back)
          ≡ tree_concat b c)
        × IsTree b
        × IsTree c
        × (elements b ++ elements c ≡ take i (elements t) ++ (v ∷ drop i (elements t)))
  insert_inside t i v w inside =
      let size = size_of-IsTree t w in
      let fits = w.1 in
      let (a, p, (m, e)) = tree_take_lem t i w in
      let l = ap length e in
      let l' = length-take {0} i (elements t) in
      let (b, p', (m', e')) =
        tree_concat_lem a (make_leaf (v ∷ [])) m (inl (single-IsNode v), omega arith)
          (omega arith) in
      let (c, p'', (m'', e'')) = tree_drop_lem t i w in
      (
        b,
        c,
        rw p (rw p' (rw p'' refl)),
        m',
        m'',
        ap (λ xs. xs ++ elements c) (e' ∙ ap (λ xs. xs ++ (v ∷ [])) e)
            ∙ append_assoc (take i (elements t)) (v ∷ []) (elements c)
            ∙ ap (λ xs. take i (elements t) ++ (v ∷ xs)) e'',
      )

  -- The three ways to insert, each an operation that gives the list.
  insert_cases :
      (P : Result (Node A) → Type 0) (t : Node A) (i : ℕ) (v : A)
      → IsTree t
      → (i ≡ 0 → P (tree_cons t v))
      → (length (elements t) ≤ i → P (tree_add t v))
      → ((b c : Node A)
          → IsTree b
          → IsTree c
          → elements b ++ elements c ≡ take i (elements t) ++ (v ∷ drop i (elements t))
          → P (tree_concat b c))
      → P (tree_insert t i v)
  unfolding tree_insert
  insert_cases P t zero v w front end inside = front refl
  insert_cases P t (suc i) v w front end inside =
      let size = size_of-IsTree t w in
      let some : (suc i == 0) ≡ false = ground arith in
      rw some (elim (Bool-cases (leb (size_of t) (suc i))) [
        | inl over ↦ let le = leb→le (size_of t) (suc i) over in rw over (end (omega arith))
        | inr under ↦
            let (b, c, p, m, m', e) = insert_inside t (suc i) v w (ground arith) in
            rw under (subst P (sym p) (inside b c m m' e))
      ])

  inserted_front : (xs : List A) (i : ℕ) (v : A) → i ≡ 0 → take i xs ++ (v ∷ drop i xs) ≡ v ∷ xs
  inserted_front xs i v e = ap (λ k. take k xs ++ (v ∷ drop k xs)) e

  inserted_end :
      (xs : List A) (i : ℕ) (v : A) → length xs ≤ i → take i xs ++ (v ∷ drop i xs) ≡ xs ++ (v ∷ [])
  inserted_end xs i v le = rw (take_all xs i le, drop_all xs i le) refl

  -- Inserting into a well-formed tree with fewer than 2 ^ 31 - 1 items returns a well-formed tree
  -- over the old items with the new one before the item at the position, or behind all items if
  -- the position is not inside.
  pub tree_insert_lem :
      (t : Node A) (i : ℕ) (v : A)
      → IsTree t
      → length (elements t) + 1 < 2147483648
      → Gives (take i (elements t) ++ (v ∷ drop i (elements t))) (tree_insert t i v)
  tree_insert_lem t i v w room =
      insert_cases (Gives (take i (elements t) ++ (v ∷ drop i (elements t)))) t i v w
        (λ e.
          subst (λ xs. Gives xs (tree_cons t v)) (sym (inserted_front (elements t) i v e))
            (tree_cons_lem t v w room))
        (λ le.
          subst (λ xs. Gives xs (tree_add t v)) (sym (inserted_end (elements t) i v le))
            (tree_add_lem t v w room))
        (λ b c m m' e.
          let l = ap length e in
          let l' = length_inserted (elements t) i v in
          subst (λ xs. Gives xs (tree_concat b c)) e
            (tree_concat_lem b c m m' (omega (arith, length-append (elements b) (elements c)))))

  length-reverse : (xs : List A) → length (reverse xs) ≡ length xs
  length-reverse [] = refl
  length-reverse (x ∷ xs) =
      ap length (reverse-cons x xs)
      ∙ omega (arith, length-append (reverse xs) (x ∷ []), length-reverse xs)

  -- Reversing a well-formed tree with fewer than 2 ^ 31 - 31 items returns a well-formed tree over
  -- the reversed items.
  pub tree_reverse_lem :
      (t : Node A)
      → IsTree t
      → length (elements t) + 31 < 2147483648
      → Gives (reverse (elements t)) (tree_reverse t)
  unfolding tree_reverse
  tree_reverse_lem t w room =
      let size = size_of-IsTree t w in
      let whole : (length (elements t) == size_of t) ≡ true = ground arith in
      rw (to_array-elements t, whole)
        (from_int_array_lem (reverse (elements t)) (rw (length-reverse (elements t)) room))

  -- The same operations on any trees, which may be too large.
  pub tree_add_int :
      (t : Node A) (v : A) → IsTree t → GivesInt (elements t ++ (v ∷ [])) (tree_add t v)
  unfolding tree_add
  tree_add_int t v w =
      let size = size_of-IsTree t w in
      within_int-GivesInt (size_of t + 1) _ (λ fits. tree_add_lem t v w (omega arith))

  pub tree_cons_int : (t : Node A) (v : A) → IsTree t → GivesInt (v ∷ elements t) (tree_cons t v)
  unfolding tree_cons
  tree_cons_int t v w =
      let size = size_of-IsTree t w in
      within_int-GivesInt (size_of t + 1) _ (λ fits. tree_cons_lem t v w (omega arith))

  pub tree_concat_int :
      (a b : Node A) → IsTree a → IsTree b → GivesInt (elements a ++ elements b) (tree_concat a b)
  unfolding tree_concat
  tree_concat_int a b w w' =
      let size = size_of-IsTree a w in
      let size' = size_of-IsTree b w' in
      elim (Bool-cases (ltb (size_of a + size_of b) 2147483648)) [
        | inl fits ↦
            let lt = ltb→lt (size_of a + size_of b) 2147483648 fits in
            inl (tree_concat_lem a b w w' (omega arith))
        | inr large ↦
            let fits = w.1 in
            let fits' = w'.1 in
            let over : 2147483648 ≤ size_of a + size_of b = ground arith in
            let some : (size_of a == 0) ≡ false = ground arith in
            let some' : (size_of b == 0) ≡ false = ground arith in
            inr (rw (some, some', large) refl)
      ]

  pub tree_insert_int :
      (t : Node A) (i : ℕ) (v : A)
      → IsTree t
      → GivesInt (take i (elements t) ++ (v ∷ drop i (elements t))) (tree_insert t i v)
  tree_insert_int t i v w =
      insert_cases (GivesInt (take i (elements t) ++ (v ∷ drop i (elements t)))) t i v w
        (λ e.
          subst (λ xs. GivesInt xs (tree_cons t v)) (sym (inserted_front (elements t) i v e))
            (tree_cons_int t v w))
        (λ le.
          subst (λ xs. GivesInt xs (tree_add t v)) (sym (inserted_end (elements t) i v le))
            (tree_add_int t v w))
        (λ b c m m' e. subst (λ xs. GivesInt xs (tree_concat b c)) e (tree_concat_int b c m m'))

  pub tree_reverse_int : (t : Node A) → IsTree t → GivesInt (reverse (elements t)) (tree_reverse t)
  unfolding tree_reverse
  tree_reverse_int t w =
      let size = size_of-IsTree t w in
      let whole : (length (elements t) == size_of t) ≡ true = ground arith in
      rw (to_array-elements t, whole) (from_int_array_int (reverse (elements t)))
