-- ===== src/Treelist/Proofs/Results.antt =====
-- What the treelist builtins of icecreme/treelist.c return, seen from Scheme.
use creme.Common.{
  ℕ, length-replicate, ◌+◌, suc, zero, ◌%◌, ◌^◌, ◌≤◌, ◌<◌, ◌≡◌, ◌⊎◌, inl, inr, refl, ◌∙◌, List, [],
  ◌∷◌, none, some, ok, fail, abort, out_of_range, length, get_elem?, replicate, arith, ltb, ltb→lt,
  lt→ltb, Bool-cases, true, false,
}
use creme.Treelist.Node.{Node, size_of}
use creme.Treelist.Access.{read, node_ref}
use creme.Treelist.WellFormed.{elements, IsRoot, IsTree}
use creme.Treelist.Proofs.Ref.{node_ref-eq-read}
use creme.Treelist.Proofs.Bulk.{from_array_lem}
use creme.Treelist.Proofs.Tree.{size_of-IsRoot, from_int_array_lem}
use creme.Treelist.Proofs.Safe.{get_elem?-lt, get_elem?-none}
use creme.Treelist.Builtins.{
  v_treelist, tl_arg, tl_bounds, tl_size_arg, list_to_value_array, bi_treelist_ref,
  bi_make_treelist, bi_list_to_treelist,
}
use creme.Value.{pos, treelist, Value, nil, int, pair, box, Heap}

node_ref-IsRoot : (t : Node Value) (i : ℕ) → IsRoot t → node_ref t i ≡ read (elements t) i
unfolding node_ref
node_ref-IsRoot t i (inl n) = node_ref-eq-read t i n
node_ref-IsRoot t i (inr e) = rw e refl

ref_step :
    (t : Node Value) (i : ℕ)
    → IsRoot t
    → ((ltb i (size_of t) ≡ true)
        × ((v : Value) × (get_elem? (elements t) i ≡ some v) × (node_ref t i ≡ ok v)))
      ⊎ ((ltb i (size_of t) ≡ false) × (get_elem? (elements t) i ≡ none))
ref_step t i w =
    let size = size_of-IsRoot t w in
    elim (Bool-cases (ltb i (size_of t))) [
      | inl lt ↦
          let below = ltb→lt i (size_of t) lt in
          let (v, e) = get_elem?-lt (elements t) i (omega arith) in
          inl (lt, (v, e, node_ref-IsRoot t i w ∙ rw (read, e)))
      | inr ge ↦
          let above : size_of t ≤ i = ground arith in
          inr (ge, get_elem?-none (elements t) i (omega arith))
    ]

-- treelist-ref on a well-formed treelist with a non-negative index returns the item at the index
-- and leaves the heap alone, and aborts with the range error exactly when there is no such item.
pub bi_treelist_ref_lem :
    (a i : ℕ) (h : Heap)
    → IsRoot (h.trees a)
    → bi_treelist_ref (box treelist a ∷ int (pos i) ∷ []) h
      ≡ (elim (get_elem? (elements (h.trees a)) i) [
        | none ↦ fail (abort out_of_range)
        | some v ↦ ok (v, h)
      ])
unfolding bi_treelist_ref tl_arg tl_bounds
bi_treelist_ref_lem a i h w = elim (ref_step (h.trees a) i w) [
  | inl (lt, (v, e, e')) ↦ rw (lt, e, e')
  | inr (ge, e) ↦ rw (ge, e)
]

-- The proper list of `xs` that begins at `v`.
abbrev pub IsListOf : Heap → Value → List Value → Type 0
IsListOf h v [] = v ≡ nil
IsListOf h v (x ∷ xs) =
    (a : ℕ) × (v ≡ pair a) × ((h.pairs a).car ≡ x) × IsListOf h (h.pairs a).cdr xs

-- On a proper list the walk ends, with one more round than the list has pairs.
list_to_value_array_lem :
    (rounds : ℕ) (h : Heap) (v : Value) (xs : List Value)
    → IsListOf h v xs
    → length xs < rounds
    → list_to_value_array rounds v h ≡ ok xs
unfolding list_to_value_array
list_to_value_array_lem zero h v xs l lt = absurd (omega arith)
list_to_value_array_lem (suc rounds) h v [] l lt = rw l refl
list_to_value_array_lem (suc rounds) h v (x ∷ xs) (a, e, e', l) lt =
    rw e (rw (list_to_value_array_lem rounds h (h.pairs a).cdr xs l (omega arith)) (rw e' refl))

-- list->treelist on a proper list makes a treelist of its items, for every bound on the walk above
-- the length of the list.
pub bi_list_to_treelist_lem :
    (rounds : ℕ) (h : Heap) (l : Value) (xs : List Value)
    → IsListOf h l xs
    → length xs < rounds
    → (t : Node Value) × (bi_list_to_treelist rounds (l ∷ []) h ≡ v_treelist t h)
      × IsRoot t
      × (elements t ≡ xs)
unfolding bi_list_to_treelist
bi_list_to_treelist_lem rounds h l xs is lt =
    let (t, e, (w, e')) = from_array_lem xs in
    (t, rw (list_to_value_array_lem rounds h l xs is lt, e) refl, w, e')

-- make-treelist with a size whose low 32 bits are below 2 ^ 31 - 31 makes a treelist with as many
-- copies of the value as those bits say.
pub bi_make_treelist_lem :
    (n : ℕ) (v : Value) (h : Heap)
    → n % 2 ^ 32 + 31 < 2147483648
    → (t : Node Value) × (bi_make_treelist (int (pos n) ∷ v ∷ []) h ≡ v_treelist t h)
      × IsTree t
      × (elements t ≡ replicate (n % 2 ^ 32) v)
unfolding bi_make_treelist tl_size_arg
bi_make_treelist_lem n v h lt =
    let (t, e, (w, e')) =
      from_int_array_lem (replicate (n % 2 ^ 32) v) (rw (length-replicate (n % 2 ^ 32) v) lt) in
    (t, rw (lt→ltb (n % 2 ^ 32) (2 ^ 31) (omega arith)) (rw e refl), w, e')
