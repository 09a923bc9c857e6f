-- ===== src/Treelist/Proofs/Bulk.antt =====
-- Chunking, bulk loading and collecting: `rrb_chunk_leaves`, `rrb_chunk_branches`,
-- `rrb_from_array` and `rrb_collect` of icecreme/treelist.c.
use creme.Common.{
  ℕ, suc, zero, ◌+◌, ◌*◌, ◌≤◌, ◌<◌, ◌≡◌, refl, ap, ◌∙◌, sym, List, [], ◌∷◌, ◌++◌, map, Returns,
  Returns-bind, Returns-weaken, subst, length, take, drop, take-append-drop, length-take,
  length-drop, arith, append_assoc, append-nil, inl, inr,
}
use creme.Treelist.Node.{
  Node, leaf, branch, Nodes, nil, cons, width, make_leaf, mk_branch, empty_leaf,
}
use creme.Treelist.Bulk.{
  chunks, chunk_leaves, mk_branches, chunk_branches, grow, from_array, collect, collect_all,
  to_array,
}
use creme.Treelist.WellFormed.{
  elements, elements_all, contents, contents-append, IsNode, IsLevel, IsRoot, mk_branch-IsNode,
}

module _ {ℓ} {B : Type ℓ} where
  abbrev joined : List (List B) → List B
  joined [] = []
  joined (c ∷ cs) = c ++ joined cs

  -- Every chunk holds 1 to `width` items.
  abbrev IsChunked : List (List B) → Type 0
  IsChunked [] = Unit
  IsChunked (c ∷ cs) = (1 ≤ length c) × (length c ≤ width) × IsChunked cs

  joined-chunks : (n : ℕ) (xs : List B) → length xs ≤ n → joined (chunks n xs) ≡ xs
  unfolding chunks
  joined-chunks zero [] h = refl
  joined-chunks zero (x ∷ xs) h = absurd (omega arith)
  joined-chunks (suc n) [] h = refl
  joined-chunks (suc n) (x ∷ xs) h =
      ap (take width (x ∷ xs) ++◌)
        (joined-chunks n (drop width (x ∷ xs)) (omega (arith, length-drop {ℓ} width (x ∷ xs))))
      ∙ take-append-drop width (x ∷ xs)

  chunks-IsChunked : (n : ℕ) (xs : List B) → IsChunked (chunks n xs)
  unfolding chunks
  chunks-IsChunked zero xs = tt
  chunks-IsChunked (suc n) [] = tt
  chunks-IsChunked (suc n) (x ∷ xs) =
      let l = length-take {ℓ} width (x ∷ xs) in
      (omega arith, omega arith, chunks-IsChunked n (drop width (x ∷ xs)))

  -- All chunks but the last are full.
  length-chunks :
      (n : ℕ) (xs : List B)
      → length xs ≤ n
      → (width * length (chunks n xs) < length xs + width)
        × (1 ≤ length xs → 1 ≤ length (chunks n xs))
  unfolding chunks
  length-chunks zero xs h = (omega arith, λ p. absurd (omega arith))
  length-chunks (suc n) [] h = (omega arith, λ p. p)
  length-chunks (suc n) (x ∷ xs) h =
      let l = length-drop {ℓ} width (x ∷ xs) in
      let (most, _) = length-chunks n (drop width (x ∷ xs)) (omega arith) in
      (omega arith, λ p. omega arith)

module _ {A : Type 0} where
  -- Nodes of one level over `n` things, packed full, with the items `xs`.
  abbrev pub IsPacked : ℕ → ℕ → List A → List (Node A) → Type 0
  IsPacked h n xs ts =
      IsLevel h ts × (contents ts ≡ xs) × (width * length ts < n + width) × (1 ≤ n → 1 ≤ length ts)

  leaves-IsLevel : (cs : List (List A)) → IsChunked cs → IsLevel 1 (map make_leaf cs)
  leaves-IsLevel [] c = tt
  leaves-IsLevel (c ∷ cs) (low, high, r) = ((low, high), omega arith, leaves-IsLevel cs r)

  contents-leaves : (cs : List (List A)) → contents (map make_leaf cs) ≡ joined cs
  contents-leaves [] = refl
  contents-leaves (c ∷ cs) = ap (c ++◌) (contents-leaves cs)

  length-leaves : (cs : List (List A)) → length (map make_leaf cs) ≡ length cs
  length-leaves [] = refl
  length-leaves (c ∷ cs) = ap suc (length-leaves cs)

  pub chunk_leaves-IsPacked :
      (items : List A) → IsPacked 1 (length items) items (chunk_leaves items)
  unfolding chunk_leaves
  chunk_leaves-IsPacked items =
      let cs = chunks (length items) items in
      let l = length-leaves cs in
      let (most, some_chunk) = length-chunks (length items) items (omega arith) in
      (
        leaves-IsLevel cs (chunks-IsChunked (length items) items),
        contents-leaves cs ∙ joined-chunks (length items) items (omega arith),
        omega arith,
        λ p. let q = some_chunk p in omega arith,
      )

  pub IsLevel-front :
      (h : ℕ) (ts us : List (Node A)) → IsLevel h (ts ++ us) → IsLevel h ts × IsLevel h us
  IsLevel-front h [] us l = (tt, l)
  IsLevel-front h (t ∷ ts) us (n, e, l) = let (a, b) = IsLevel-front h ts us l in ((n, e, a), b)

  mk_branches-IsLevel :
      (h : ℕ) (css : List (List (Node A)))
      → IsChunked css
      → IsLevel h (joined css)
      → Returns
          (λ us.
            IsLevel (h + 1) us × (contents us ≡ contents (joined css)) × (length us ≡ length css))
          (mk_branches css)
  unfolding mk_branches
  mk_branches-IsLevel h [] c l = (_, refl, (tt, refl, refl))
  mk_branches-IsLevel h (ts ∷ css) (low, high, c) l =
      let (here, there) = IsLevel-front h ts (joined css) l in
      Returns-bind (mk_branch ts) _ (mk_branch-IsNode h ts here low high) λ t (n, up, _, e).
        Returns-bind (mk_branches css) _ (mk_branches-IsLevel h css c there) λ us (m, e', count). (
          _,
          refl,
          (
            (n, ap (λ k. k + 1) (sym up), m),
            ap (λ xs. xs ++ contents us) e
                ∙ ap (contents ts ++◌) e'
                ∙ sym (contents-append ts (joined css)),
            ap suc count,
          ),
        )

  pub chunk_branches-IsPacked :
      (h : ℕ) (ts : List (Node A))
      → IsLevel h ts
      → Returns (IsPacked (h + 1) (length ts) (contents ts)) (chunk_branches ts)
  unfolding chunk_branches
  chunk_branches-IsPacked h ts l =
      let css = chunks (length ts) ts in
      let whole = joined-chunks (length ts) ts (omega arith) in
      let (most, some_chunk) = length-chunks (length ts) ts (omega arith) in
      let (us, r, (m, e, count)) =
        mk_branches-IsLevel h css (chunks-IsChunked (length ts) ts)
          (subst (IsLevel h) (sym whole) l) in
      (us, r, (m, e ∙ ap contents whole, omega arith, λ p. let q = some_chunk p in omega arith))

  -- A round for each node is enough.
  grow_lem :
      (rounds h : ℕ) (ts : List (Node A))
      → IsLevel h ts
      → 1 ≤ length ts
      → length ts ≤ rounds
      → Returns (λ t. IsNode t × (elements t ≡ contents ts)) (grow rounds ts)
  unfolding grow
  grow_lem zero h ts l low high = absurd (omega arith)
  grow_lem (suc rounds) h [] l low high = absurd (omega arith)
  grow_lem (suc rounds) h (t ∷ []) (n, _, _) low high =
      (t, refl, (n, sym (append-nil (elements t))))
  grow_lem (suc rounds) h (t ∷ u ∷ ts) l low high =
      Returns-bind (chunk_branches (t ∷ u ∷ ts)) _ (chunk_branches-IsPacked h (t ∷ u ∷ ts) l)
        λ us (m, e, most, some_chunk).
          let q = some_chunk (omega arith) in
          Returns-weaken (λ w (n, e'). (n, e' ∙ e)) (grow_lem rounds (h + 1) us m q (omega arith))

  -- Bulk loading returns a well-formed root over the array.
  pub from_array_lem : (xs : List A) → Returns (λ t. IsRoot t × (elements t ≡ xs)) (from_array xs)
  unfolding from_array
  from_array_lem [] = (empty_leaf, refl, (inr refl, refl))
  from_array_lem (x ∷ xs) =
      let (m, e, most, some_chunk) = chunk_leaves-IsPacked (x ∷ xs) in
      let q = some_chunk (omega arith) in
      Returns-weaken (λ t (n, e'). (inl n, e' ∙ e))
        (grow_lem (length (x ∷ xs)) 1 (chunk_leaves (x ∷ xs)) m q (omega arith))

  mutual
    unfolding collect

    collect-elements : (t : Node A) (out : List A) → collect t out ≡ out ++ elements t
    collect-elements (leaf items) out = refl
    collect-elements (branch h s sizes ts) out = collect_all-elements ts out

    collect_all-elements :
        (ts : Nodes A) (out : List A) → collect_all ts out ≡ out ++ elements_all ts
    collect_all-elements nil out = sym (append-nil out)
    collect_all-elements (cons t ts) out =
        collect_all-elements ts (collect t out)
        ∙ ap (λ xs. xs ++ elements_all ts) (collect-elements t out)
        ∙ append_assoc out (elements t) (elements_all ts)

  pub to_array-elements : (t : Node A) → to_array t ≡ elements t
  unfolding to_array
  to_array-elements t = collect-elements t []
