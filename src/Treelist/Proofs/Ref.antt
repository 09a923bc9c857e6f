-- ===== src/Treelist/Proofs/Ref.antt =====
-- Reading and writing at an index: `rrb_node_ref` and `rrb_node_set` of icecreme/treelist.c.
use creme.Common.{
  ℕ, lt→ltb, leb→le, suc, zero, ◌+◌, ◌-◌, ◌<◌, ◌≡◌, refl, ap, ◌∙◌, sym, List, [], ◌∷◌, ◌++◌,
  Returns, Returns-bind, length, length-append, get_elem?, set, arith, leb, Bool-cases, inl, inr,
}
use creme.Treelist.Node.{
  Node, leaf, branch, Nodes, nil, cons, to_list, height_of, size_of, offsets, last_or,
}
use creme.Treelist.Access.{read, node_ref, child_ref, node_set, child_set}
use creme.Treelist.WellFormed.{elements, elements_all, IsNode, IsForest, size_of-eq-length}

module _ {A : Type 0} where
  get_elem?-append_left :
      (xs ys : List A) (i : ℕ) → i < length xs → get_elem? (xs ++ ys) i ≡ get_elem? xs i
  get_elem?-append_left [] ys i h = absurd (omega arith)
  get_elem?-append_left (x ∷ xs) ys zero h = refl
  get_elem?-append_left (x ∷ xs) ys (suc i) h = get_elem?-append_left xs ys i (omega arith)

  get_elem?-append_right :
      (xs ys : List A) (i j : ℕ) → i ≡ length xs + j → get_elem? (xs ++ ys) i ≡ get_elem? ys j
  get_elem?-append_right [] ys i j h = ap (get_elem? ys) (omega arith)
  get_elem?-append_right (x ∷ xs) ys zero j h = absurd (omega arith)
  get_elem?-append_right (x ∷ xs) ys (suc i) j h = get_elem?-append_right xs ys i j (omega arith)

  set-append_left :
      (xs ys : List A) (i : ℕ) (v : A) → i < length xs → set (xs ++ ys) i v ≡ set xs i v ++ ys
  set-append_left [] ys i v h = absurd (omega arith)
  set-append_left (x ∷ xs) ys zero v h = refl
  set-append_left (x ∷ xs) ys (suc i) v h = ap (x ∷◌) (set-append_left xs ys i v (omega arith))

  set-append_right :
      (xs ys : List A) (i j : ℕ) (v : A) → i ≡ length xs + j → set (xs ++ ys) i v ≡ xs ++ set ys j v
  set-append_right [] ys i j v h = ap (λ k. set ys k v) (omega arith)
  set-append_right (x ∷ xs) ys zero j v h = absurd (omega arith)
  set-append_right (x ∷ xs) ys (suc i) j v h =
      ap (x ∷◌) (set-append_right xs ys i j v (omega arith))

  read-append_left : (xs ys : List A) (i : ℕ) → i < length xs → read xs i ≡ read (xs ++ ys) i
  read-append_left xs ys i h = rw (read, get_elem?-append_left xs ys i h)

  read-append_right : (xs ys : List A) (i j : ℕ) → i ≡ length xs + j → read ys j ≡ read (xs ++ ys) i
  read-append_right xs ys i j h = rw (read, get_elem?-append_right xs ys i j h)

  mutual
    unfolding node_ref

    node_ref-IsNode :
        (t : Node A) (index : ℕ) → IsNode t → node_ref t index ≡ read (elements t) index
    node_ref-IsNode (leaf items) index n = refl
    node_ref-IsNode (branch h s sizes ts) index (f, _, _, table, _) =
        rw table (child_ref-IsForest h ts 0 index index f (omega arith))

    child_ref-IsForest :
        (h : ℕ) (ts : Nodes A) (prev index j : ℕ)
        → IsForest h ts
        → index ≡ prev + j
        → child_ref prev (offsets prev (to_list ts)) ts index ≡ read (elements_all ts) j
    child_ref-IsForest h nil prev index j f e = refl
    child_ref-IsForest h (cons t ts) prev index j (n, _, f) e =
        let size = size_of-eq-length t n in
        elim (Bool-cases (leb (prev + size_of t) index)) [
          | inl past ↦
              let after = leb→le (prev + size_of t) index past in
              rw past (
                child_ref-IsForest h ts (prev + size_of t) index (index - (prev + size_of t)) f
                  (omega arith)
                ∙ read-append_right (elements t) (elements_all ts) j (index - (prev + size_of t))
                    (omega arith))
          | inr here ↦
              let before : index < prev + size_of t = ground arith in
              let inside : index - prev ≡ j = omega arith in
              rw (here, inside)
                (node_ref-IsNode t j n
                  ∙ read-append_left (elements t) (elements_all ts) j (omega arith))
        ]

  -- What `rrb_node_set` returns: the heights and sizes of the old node, with one item replaced.
  abbrev IsUpdate : Node A → List A → Node A → Type 0
  IsUpdate t xs t' =
      IsNode t' × (height_of t' ≡ height_of t) × (size_of t' ≡ size_of t) × (elements t' ≡ xs)

  abbrev IsUpdateAll : ℕ → Nodes A → List A → Nodes A → Type 0
  IsUpdateAll h ts xs ts' =
      IsForest h ts'
      × (length (to_list ts') ≡ length (to_list ts))
      × ((acc : ℕ) → offsets acc (to_list ts') ≡ offsets acc (to_list ts))
      × (elements_all ts' ≡ xs)

  length-set : (xs : List A) (i : ℕ) (v : A) → length (set xs i v) ≡ length xs
  length-set [] i v = refl
  length-set (x ∷ xs) zero v = refl
  length-set (x ∷ xs) (suc i) v = ap suc (length-set xs i v)

  mutual
    unfolding node_set

    node_set-IsNode :
        (t : Node A) (index : ℕ) (v : A)
        → IsNode t
        → index < length (elements t)
        → Returns (IsUpdate t (set (elements t) index v)) (node_set t index v)
    node_set-IsNode (leaf items) index v (low, high) h =
        let same = length-set items index v in
        rw (lt→ltb index (length items) h)
          (_, refl, ((rw same low, rw same high), refl, same, refl))
    node_set-IsNode (branch h s sizes ts) index v (f, low, high, table, total) i = rw table (
        Returns-bind (child_set 0 (offsets 0 (to_list ts)) ts index v) _
          (child_set-IsForest h ts 0 index index v f (omega arith) i)
          λ ts' (f', n, o, e). (
            _,
            refl,
            ((f', rw n low, rw n high, sym (o 0), total ∙ ap (last_or 0) table), refl, refl, e),
          ))

    child_set-IsForest :
        (h : ℕ) (ts : Nodes A) (prev index j : ℕ) (v : A)
        → IsForest h ts
        → index ≡ prev + j
        → j < length (elements_all ts)
        → Returns
            (IsUpdateAll h ts (set (elements_all ts) j v))
            (child_set prev (offsets prev (to_list ts)) ts index v)
    child_set-IsForest h nil prev index j v f e i = absurd (omega arith)
    child_set-IsForest h (cons t ts) prev index j v (n, up, f) e i =
        let size = size_of-eq-length t n in
        let both = length-append {0} (elements t) (elements_all ts) in
        elim (Bool-cases (leb (prev + size_of t) index)) [
          | inl past ↦
              let after = leb→le (prev + size_of t) index past in
              let k : ℕ = index - (prev + size_of t) in
              rw past (
                Returns-bind (child_set (prev + size_of t) _ ts index v) _
                  (child_set-IsForest h ts (prev + size_of t) index k v f (omega arith)
                    (omega arith))
                  λ ts' (f', m, o, e'). (
                    _,
                    refl,
                    (
                      (n, up, f'),
                      ap suc m,
                      λ acc. ap ((acc + size_of t) ∷◌) (o (acc + size_of t)),
                      ap (elements t ++◌) e'
                          ∙ sym
                              (set-append_right (elements t) (elements_all ts) j k v (omega arith)),
                    ),
                  ))
          | inr here ↦
              let before : index < prev + size_of t = ground arith in
              let inside : index - prev ≡ j = omega arith in
              let short : j < length (elements t) = omega arith in
              rw (here, inside)
                (Returns-bind (node_set t j v) _ (node_set-IsNode t j v n short)
                  λ t' (n', same, size', e'). (
                    _,
                    refl,
                    (
                      (n', up ∙ ap (λ k. k + 1) (sym same), f),
                      refl,
                      λ acc. ap (λ k. (acc + k) ∷ offsets (acc + k) (to_list ts)) size',
                      ap (λ xs. xs ++ elements_all ts) e'
                          ∙ sym (set-append_left (elements t) (elements_all ts) j v short),
                    ),
                  ))
        ]

  -- In a well-formed node the walk by the size tables reads the item of the sequence at the index,
  -- and leaves an array exactly where the sequence ends.
  pub node_ref-eq-read :
      (t : Node A) (index : ℕ) → IsNode t → node_ref t index ≡ read (elements t) index
  node_ref-eq-read t index n = node_ref-IsNode t index n

  -- Setting an index inside a well-formed node returns a well-formed node of the same height and
  -- size whose sequence has that one item replaced.
  pub node_set_lem :
      (t : Node A) (index : ℕ) (v : A)
      → IsNode t
      → index < length (elements t)
      → Returns
          (λ t'.
            IsNode t'
            × (height_of t' ≡ height_of t)
            × (size_of t' ≡ size_of t)
            × (elements t' ≡ set (elements t) index v))
          (node_set t index v)
  node_set_lem t index v n h = node_set-IsNode t index v n h
