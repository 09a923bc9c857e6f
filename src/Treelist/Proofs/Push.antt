-- ===== src/Treelist/Proofs/Push.antt =====
-- Pushing without a new node: `rrb_fast_push` and `rrb_fast_cons` of icecreme/treelist.c.
use mathlib.Core.Option
use creme.Common.{
  ℕ, suc, ◌+◌, ◌≤◌, ◌≡◌, refl, ap, ◌∙◌, sym, List, [], ◌∷◌, ◌++◌, map, Option, none, some, Returns,
  Returns-bind, length, length-append, arith, leb, Bool-cases, inl, inr, append_assoc, append-nil,
}
use creme.Treelist.Node.{
  Node, leaf, branch, Nodes, nil, cons, width, to_list, height_of, size_of, offsets, last_or,
}
use creme.Treelist.Access.{fast_push, push_last, fast_cons, cons_first, bump_last}
use creme.Treelist.WellFormed.{
  elements, elements_all, IsNode, IsForest, size_of-eq-length, last_or-offsets_lem,
}

module _ {A : Type 0} where
  -- The result of a push is NULL, or a node of the same height with these items.
  abbrev pub IsPush : ℕ → List A → Option (Node A) → Type 0
  IsPush h xs none = Unit
  IsPush h xs (some t) = IsNode t × (height_of t ≡ h) × (elements t ≡ xs)

  abbrev IsPushAll : ℕ → Nodes A → (List ℕ → List ℕ) → List A → Option (Nodes A) → Type 0
  IsPushAll h ts bump xs none = Unit
  IsPushAll h ts bump xs (some us) =
      IsForest h us
      × (length (to_list us) ≡ length (to_list ts))
      × ((acc : ℕ) → offsets acc (to_list us) ≡ bump (offsets acc (to_list ts)))
      × (elements_all us ≡ xs)

  -- A branch around the pushed children.
  branch-IsPush :
      (h s : ℕ) (sizes : List ℕ) (ts : Nodes A) (bump : List ℕ → List ℕ) (xs : List A)
      (r : Option (Nodes A))
      → IsNode (branch h s sizes ts)
      → length xs ≡ length (elements_all ts) + 1
      → IsPushAll h ts bump xs r
      → IsPush h xs (Option.map (λ us. branch h (s + 1) (bump sizes) us) r)
  branch-IsPush h s sizes ts bump xs none n e p = tt
  branch-IsPush h s sizes ts bump xs (some us) (f, low, high, table, total) e (f', m, o, e') =
      let table' : bump sizes ≡ offsets 0 (to_list us) = ap bump table ∙ sym (o 0) in
      let size : s ≡ length (elements_all ts) =
        total ∙ ap (last_or 0) table ∙ last_or-offsets_lem h ts f in
      let size' : last_or 0 (bump sizes) ≡ length (elements_all us) =
        ap (last_or 0) table' ∙ last_or-offsets_lem h us f' in
      ((f', omega arith, omega arith, table', omega (arith, ap length e')), refl, e')

  size_of-push :
      (t t' : Node A) (xs : List A)
      → IsNode t
      → IsNode t'
      → elements t' ≡ xs
      → length xs ≡ length (elements t) + 1
      → size_of t' ≡ size_of t + 1
  size_of-push t t' xs n n' e l =
      omega (arith, size_of-eq-length t n, size_of-eq-length t' n', ap length e)

  length-push : (xs : List A) (v : A) → length (xs ++ (v ∷ [])) ≡ length xs + 1
  length-push xs v = omega (arith, length-append {0} xs (v ∷ []))

  last-IsPush :
      (h : ℕ) (t : Node A) (v : A) (r : Option (Node A))
      → IsNode t
      → h ≡ height_of t + 1
      → IsPush (height_of t) (elements t ++ (v ∷ [])) r
      → IsPushAll h
          (cons t nil)
          bump_last
          ((elements t ++ []) ++ (v ∷ []))
          (Option.map (λ t'. cons t' nil) r)
  last-IsPush h t v none n up p = tt
  last-IsPush h t v (some t') n up (n', same, e) =
      let grown = size_of-push t t' _ n n' e (length-push (elements t) v) in
      (
        (n', omega arith, tt),
        refl,
        λ acc. ap (λ k. k ∷ []) (omega arith),
        ap (λ xs. xs ++ []) e ∙ simp append-nil,
      )

  skip-IsPush :
      (h : ℕ) (t u : Node A) (ts : Nodes A) (v : A) (r : Option (Nodes A))
      → IsNode t
      → h ≡ height_of t + 1
      → IsPushAll h (cons u ts) bump_last (elements_all (cons u ts) ++ (v ∷ [])) r
      → IsPushAll h
          (cons t (cons u ts))
          bump_last
          ((elements t ++ elements_all (cons u ts)) ++ (v ∷ []))
          (Option.map (λ us. cons t us) r)
  skip-IsPush h t u ts v none n up p = tt
  skip-IsPush h t u ts v (some us) n up (f, l, o, e) = (
    (n, up, f),
    ap suc l,
    λ acc. ap ((acc + size_of t) ∷◌) (o (acc + size_of t)),
    ap (elements t ++◌) e ∙ sym (append_assoc (elements t) _ (v ∷ [])),
  )

  -- Adding one to the first size adds one to every entry of the table.
  offsets-suc :
      (acc : ℕ) (ts : List (Node A)) → offsets (acc + 1) ts ≡ map (λ n. n + 1) (offsets acc ts)
  offsets-suc acc [] = refl
  offsets-suc acc (t ∷ ts) =
      let e : acc + 1 + size_of t ≡ acc + size_of t + 1 = omega arith in
      rw e (ap ((acc + size_of t + 1) ∷◌) (offsets-suc (acc + size_of t) ts))

  first-IsPush :
      (h : ℕ) (t : Node A) (ts : Nodes A) (v : A) (r : Option (Node A))
      → IsNode t
      → h ≡ height_of t + 1
      → IsForest h ts
      → IsPush (height_of t) (v ∷ elements t) r
      → IsPushAll h
          (cons t ts)
          (map (λ n. n + 1))
          (v ∷ (elements t ++ elements_all ts))
          (Option.map (λ t'. cons t' ts) r)
  first-IsPush h t ts v none n up f p = tt
  first-IsPush h t ts v (some t') n up f (n', same, e) =
      let grown = size_of-push t t' _ n n' e (omega arith) in
      (
        (n', omega arith, f),
        refl,
        λ acc.
            let e' : acc + size_of t' ≡ acc + size_of t + 1 = omega arith in
            rw e' (ap ((acc + size_of t + 1) ∷◌) (offsets-suc (acc + size_of t) (to_list ts))),
        ap (λ xs. xs ++ elements_all ts) e,
      )

  mutual
    unfolding fast_push

    fast_push-IsNode :
        (t : Node A) (v : A)
        → IsNode t
        → Returns (IsPush (height_of t) (elements t ++ (v ∷ []))) (fast_push t v)
    fast_push-IsNode (leaf items) v (low, high) = elim (Bool-cases (leb width (length items))) [
      | inl full ↦ rw full (_, refl, tt)
      | inr free ↦
          let l = length-push items v in
          let room : length items + 1 ≤ width = ground arith in
          rw free (_, refl, ((omega arith, omega arith), refl, refl))
    ]
    fast_push-IsNode (branch h s sizes ts) v (f, low, high, table, total) =
        Returns-bind (push_last ts v) _ (push_last-IsForest h ts v f low) λ r p. (
          _,
          refl,
          branch-IsPush h s sizes ts bump_last _ r (f, low, high, table, total)
              (length-push (elements_all ts) v) p,
        )

    push_last-IsForest :
        (h : ℕ) (ts : Nodes A) (v : A)
        → IsForest h ts
        → 1 ≤ length (to_list ts)
        → Returns (IsPushAll h ts bump_last (elements_all ts ++ (v ∷ []))) (push_last ts v)
    push_last-IsForest h nil v f low = absurd (omega arith)
    push_last-IsForest h (cons t nil) v (n, up, f) low =
        Returns-bind (fast_push t v) _ (fast_push-IsNode t v n)
          λ r p. (_, refl, last-IsPush h t v r n up p)
    push_last-IsForest h (cons t (cons u ts)) v (n, up, f) low =
        Returns-bind (push_last (cons u ts) v) _
          (push_last-IsForest h (cons u ts) v f (omega arith))
          λ r p. (_, refl, skip-IsPush h t u ts v r n up p)

  mutual
    unfolding fast_cons

    fast_cons-IsNode :
        (t : Node A) (v : A)
        → IsNode t
        → Returns (IsPush (height_of t) (v ∷ elements t)) (fast_cons t v)
    fast_cons-IsNode (leaf items) v (low, high) = elim (Bool-cases (leb width (length items))) [
      | inl full ↦ rw full (_, refl, tt)
      | inr free ↦
          let room : length items + 1 ≤ width = ground arith in
          rw free (_, refl, ((omega arith, omega arith), refl, refl))
    ]
    fast_cons-IsNode (branch h s sizes ts) v (f, low, high, table, total) =
        Returns-bind (cons_first ts v) _ (cons_first-IsForest h ts v f low) λ r p. (
          _,
          refl,
          branch-IsPush h s sizes ts (map (λ n. n + 1)) _ r (f, low, high, table, total)
              (omega arith) p,
        )

    cons_first-IsForest :
        (h : ℕ) (ts : Nodes A) (v : A)
        → IsForest h ts
        → 1 ≤ length (to_list ts)
        → Returns (IsPushAll h ts (map (λ n. n + 1)) (v ∷ elements_all ts)) (cons_first ts v)
    cons_first-IsForest h nil v f low = absurd (omega arith)
    cons_first-IsForest h (cons t ts) v (n, up, f) low =
        Returns-bind (fast_cons t v) _ (fast_cons-IsNode t v n)
          λ r p. (_, refl, first-IsPush h t ts v r n up f p)

  -- A push on a node returns NULL, or a node of the same height with the item at its end.
  pub fast_push_lem :
      (t : Node A) (v : A)
      → IsNode t
      → Returns (IsPush (height_of t) (elements t ++ (v ∷ []))) (fast_push t v)
  fast_push_lem t v n = fast_push-IsNode t v n

  pub fast_cons_lem :
      (t : Node A) (v : A)
      → IsNode t
      → Returns (IsPush (height_of t) (v ∷ elements t)) (fast_cons t v)
  fast_cons_lem t v n = fast_cons-IsNode t v n
