-- ===== src/Treelist/WellFormed.antt =====
-- What a tree stands for, and the invariant that every operation of icecreme/treelist.c keeps.
use creme.Common.{
  ℕ, ◌+◌, ◌≤◌, ◌<◌, ◌≡◌, refl, ap, subst, ◌∙◌, sym, List, [], ◌∷◌, ◌++◌, Returns, length,
  length-append, arith, append_assoc, ◌⊎◌,
}
use creme.Treelist.Node.{
  Node, leaf, branch, Nodes, nil, cons, width, to_list, of_list, height_of, size_of, offsets,
  last_or, mk_branch, empty_leaf,
}
use creme.Treelist.Concat.{children_of}

module _ {A : Type 0} where
  -- The sequence of the items, from left to right.
  abbrev mutual
    pub elements : Node A → List A
    elements (leaf items) = items
    elements (branch h s sizes ts) = elements_all ts

    pub elements_all : Nodes A → List A
    elements_all nil = []
    elements_all (cons t ts) = elements t ++ elements_all ts

  abbrev pub contents : List (Node A) → List A
  contents [] = []
  contents (t ∷ ts) = elements t ++ contents ts

  -- A leaf has 1 to `width` items; a branch has 1 to `width` children of the height below its own,
  -- the table of their sizes, and the last entry of the table as its size.
  abbrev mutual
    pub IsNode : Node A → Type 0
    IsNode (leaf items) = (1 ≤ length items) × (length items ≤ width)
    IsNode (branch h s sizes ts) =
        IsForest h ts
        × (1 ≤ length (to_list ts))
        × (length (to_list ts) ≤ width)
        × (sizes ≡ offsets 0 (to_list ts))
        × (s ≡ last_or 0 sizes)

    pub IsForest : ℕ → Nodes A → Type 0
    IsForest h nil = Unit
    IsForest h (cons t ts) = IsNode t × (h ≡ height_of t + 1) × IsForest h ts

  abbrev pub IsLevel : ℕ → List (Node A) → Type 0
  IsLevel h [] = Unit
  IsLevel h (t ∷ ts) = IsNode t × (h ≡ height_of t + 1) × IsLevel h ts

  -- A root may also be empty.
  abbrev pub IsRoot : Node A → Type 0
  IsRoot t = IsNode t ⊎ (t ≡ empty_leaf)

  -- The invariant of a tree: a root whose items a C `int` counts.
  abbrev pub IsTree : Node A → Type 0
  IsTree t = IsRoot t × (length (elements t) < 2147483648)

  pub to_list-of_list : (ts : List (Node A)) → to_list (of_list ts) ≡ ts
  to_list-of_list [] = refl
  to_list-of_list (t ∷ ts) = ap (t ∷◌) (to_list-of_list ts)

  pub contents-to_list : (ts : Nodes A) → contents (to_list ts) ≡ elements_all ts
  contents-to_list nil = refl
  contents-to_list (cons t ts) = ap (elements t ++◌) (contents-to_list ts)

  pub elements_all-of_list : (ts : List (Node A)) → elements_all (of_list ts) ≡ contents ts
  elements_all-of_list [] = refl
  elements_all-of_list (t ∷ ts) = ap (elements t ++◌) (elements_all-of_list ts)

  pub contents-append : (ts us : List (Node A)) → contents (ts ++ us) ≡ contents ts ++ contents us
  contents-append [] us = refl
  contents-append (t ∷ ts) us = simp (contents-append ts us, append_assoc)

  pub IsForest-of_list : (h : ℕ) (ts : List (Node A)) → IsLevel h ts → IsForest h (of_list ts)
  IsForest-of_list h [] l = tt
  IsForest-of_list h (t ∷ ts) (n, e, l) = (n, e, IsForest-of_list h ts l)

  pub IsLevel-to_list : (h : ℕ) (ts : Nodes A) → IsForest h ts → IsLevel h (to_list ts)
  IsLevel-to_list h nil l = tt
  IsLevel-to_list h (cons t ts) (n, e, l) = (n, e, IsLevel-to_list h ts l)

  pub IsLevel-append :
      (h : ℕ) (ts us : List (Node A)) → IsLevel h ts → IsLevel h us → IsLevel h (ts ++ us)
  IsLevel-append h [] us l m = m
  IsLevel-append h (t ∷ ts) us (n, e, l) m = (n, e, IsLevel-append h ts us l m)

  -- The field `size` is the number of items.
  mutual
    size_of-IsNode : (t : Node A) → IsNode t → size_of t ≡ length (elements t)
    size_of-IsNode (leaf items) n = refl
    size_of-IsNode (branch h s sizes ts) (f, _, _, table, total) =
        total ∙ ap (last_or 0) table ∙ omega (arith, last_or-offsets h ts 0 f)

    last_or-offsets :
        (h : ℕ) (ts : Nodes A) (acc : ℕ)
        → IsForest h ts
        → last_or acc (offsets acc (to_list ts)) ≡ acc + length (elements_all ts)
    last_or-offsets h nil acc f = omega arith
    last_or-offsets h (cons t ts) acc (n, _, f) =
        last_or-offsets h ts (acc + size_of t) f
        ∙ omega (arith, size_of-IsNode t n, length-append {0} (elements t) (elements_all ts))

  pub size_of-eq-length : (t : Node A) → IsNode t → size_of t ≡ length (elements t)
  size_of-eq-length t n = size_of-IsNode t n

  -- A node is not empty.
  pub elements-ne : (t : Node A) → IsNode t → 1 ≤ length (elements t)
  elements-ne (leaf items) (n, _) = n
  elements-ne (branch h s sizes nil) (_, n, _, _, _) = absurd (omega arith)
  elements-ne (branch h s sizes (cons t ts)) ((n, _, _), _, _, _, _) =
      omega (arith, elements-ne t n, length-append {0} (elements t) (elements_all ts))

  -- `rrb_mk_branch` on the children of a level.
  pub mk_branch-IsNode :
      (h : ℕ) (ts : List (Node A))
      → IsLevel h ts
      → 1 ≤ length ts
      → length ts ≤ width
      → Returns
          (λ t. IsNode t × (height_of t ≡ h) × (children_of t ≡ ts) × (elements t ≡ contents ts))
          (mk_branch ts)
  unfolding mk_branch
  mk_branch-IsNode h [] l low high = absurd (omega arith)
  mk_branch-IsNode h (t ∷ ts) (n, e, l) low high =
      let same = to_list-of_list (t ∷ ts) in
      (
        _,
        refl,
        (
          (
            subst (λ k. IsForest k (of_list (t ∷ ts))) e (IsForest-of_list h (t ∷ ts) (n, e, l)),
            omega (arith, ap length same),
            omega (arith, ap length same),
            ap (offsets 0) (sym same),
            refl,
          ),
          sym e,
          same,
          elements_all-of_list (t ∷ ts),
        ),
      )

  -- The last entry of the size table is the number of items below.
  pub last_or-offsets_lem :
      (h : ℕ) (ts : Nodes A)
      → IsForest h ts
      → last_or 0 (offsets 0 (to_list ts)) ≡ length (elements_all ts)
  last_or-offsets_lem h ts f = omega (arith, last_or-offsets h ts 0 f)
