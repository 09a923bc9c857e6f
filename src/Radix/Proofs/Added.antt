-- ===== src/Radix/Proofs/Added.antt =====
-- The pattern that `radix_tree_add` of icecreme/radix.c adds is stored in the tree.
use creme.Common.{
  ℕ, zero, suc, ◌≡◌, ◌⊎◌, refl, sym, ap, ◌∙◌, inl, inr, Bool, true, false, ◌&&◌, Option, none, some,
  List, [], ◌∷◌, ◌++◌, append-nil, append_assoc, length, take, drop, ltb, ◌==◌, Bool-cases, arith,
}
use creme.Csv.Builtins.{same_bytes}
use creme.Csv.Parse.{Bytes}
use creme.Csv.Proofs.Cells.{and-true}
use creme.Csv.Proofs.Same.{same_bytes-eq}
use creme.Radix.Add.{
  Change, RadixTree, common_prefix, same_kind, both_normal, token, split_node, node_common,
  with_new_child, add_sibling, changed_or_new, behind_first, insert_token, insert_child, add_tokens,
  tokenize, radix_tree_add,
}
use creme.Radix.Node.{
  RadixKind, normal, named, glob, RadixNode, node, Children, no_children, child, Token, new_node,
  key_of, kind_of, child_rank, append_child, sink_child, sort_from,
}
use creme.Radix.Proofs.Tokens.{tokenize_lem}
use creme.Radix.Spec.{
  IsChild, first_child, other_child, Stored, stored_here, stored_below, IsTokens, Letter, literal,
  letters_of, letters,
}

take-common_prefix : (xs ys : Bytes) → take (common_prefix xs ys) xs ≡ take (common_prefix xs ys) ys
unfolding common_prefix
take-common_prefix [] ys = refl
take-common_prefix (c ∷ xs) [] = refl
take-common_prefix (c ∷ xs) (d ∷ ys) = elim (Bool-cases (c == d)) [
  | inl same ↦
      let equal : c ≡ d = ground arith in
      rw (same, take-common_prefix xs ys) (ap (λ x. x ∷ take (common_prefix xs ys) ys) equal)
  | inr differ ↦ rw differ refl
]

pub take_whole : (n : ℕ) (xs : Bytes) → n ≡ length xs → take n xs ≡ xs
take_whole zero [] e = refl
take_whole zero (x ∷ xs) e = absurd (omega arith)
take_whole (suc n) [] e = refl
take_whole (suc n) (x ∷ xs) e = ap (λ r. x ∷ r) (take_whole n xs (omega arith))

drop_whole : (key : Bytes) → drop (length key) key ≡ []
drop_whole [] = refl
drop_whole (c ∷ key) = drop_whole key

letters_of-cut :
    (n : ℕ) (key : Bytes)
    → letters_of normal (take n key) ++ letters_of normal (drop n key) ≡ letters_of normal key
letters_of-cut zero key = refl
letters_of-cut (suc n) [] = refl
letters_of-cut (suc n) (c ∷ key) = ap (λ ls. literal c ∷ ls) (letters_of-cut n key)

both_normal-eq : (k k' : RadixKind) → both_normal k k' ≡ true → (k ≡ normal) × (k' ≡ normal)
both_normal-eq normal normal e = (refl, refl)
both_normal-eq normal named e = absurd (cc e)
both_normal-eq normal glob e = absurd (cc e)
both_normal-eq named k' e = absurd (cc e)
both_normal-eq glob k' e = absurd (cc e)

same_kind-eq : (k k' : RadixKind) → same_kind k k' ≡ true → k ≡ k'
same_kind-eq normal normal e = refl
same_kind-eq named named e = refl
same_kind-eq glob glob e = refl
same_kind-eq normal named e = absurd (cc e)
same_kind-eq normal glob e = absurd (cc e)
same_kind-eq named normal e = absurd (cc e)
same_kind-eq named glob e = absurd (cc e)
same_kind-eq glob normal e = absurd (cc e)
same_kind-eq glob named e = absurd (cc e)

-- When the token ends with the front, the front spells it.
pub no_rest :
    (front : List Letter) (kind : RadixKind) (key : Bytes) (n : ℕ)
    → n ≡ length key
    → front ++ letters_of kind (drop n key) ≡ letters_of kind key
    → front ≡ letters_of kind key
no_rest front kind key n e spelt =
    sym (append-nil front)
    ∙ sym (ap (λ r. front ++ letters_of kind r) (ap (λ m. drop m key) e ∙ drop_whole key))
    ∙ spelt

module _ {V : Type 0} where
  -- What a node spells itself.
  abbrev pub label : RadixNode V → List Letter
  label t = letters_of (kind_of t) (key_of t)

  -- Where a node and a token overlap, both are runs with a common front, or one and the same name or
  -- glob.
  pub data Overlap (t : RadixNode V) (key : Bytes) (kind : RadixKind) : ℕ → Type 0 where
    none_common : Overlap t key kind 0
    same_token : kind_of t ≡ kind → key_of t ≡ key → Overlap t key kind (length key)
    runs :
        (n : ℕ)
        → kind_of t ≡ normal
        → kind ≡ normal
        → take n (key_of t) ≡ take n key
        → Overlap t key kind n

  pub node_common-Overlap :
      (t : RadixNode V) (key : Bytes) (kind : RadixKind)
      → Overlap t key kind (node_common t key kind)
  unfolding node_common
  node_common-Overlap t key kind = elim (Bool-cases (both_normal (kind_of t) kind)) [
    | inl is ↦
        let (k, k') = both_normal-eq (kind_of t) kind is in
        rw is (runs _ k k' (take-common_prefix (key_of t) key))
    | inr others ↦ elim (Bool-cases (same_kind (kind_of t) kind && same_bytes (key_of t) key)) [
      | inl same ↦
          let (k, equal) = and-true (same_kind (kind_of t) kind) (same_bytes (key_of t) key) same in
          rw (others, same)
            (same_token (same_kind-eq (kind_of t) kind k) (same_bytes-eq (key_of t) key equal))
      | inr differ ↦ rw (others, differ) none_common
    ]
  ]

  -- The front of the node and the rest of the token spell the token.
  pub front_token :
      (t : RadixNode V) (key : Bytes) (kind : RadixKind) {n : ℕ}
      → Overlap t key kind n
      → (n == 0) ≡ false
      → letters_of (kind_of t) (take n (key_of t)) ++ letters_of kind (drop n key)
        ≡ letters_of kind key
  front_token t key kind none_common e = absurd (cc e)
  front_token t key kind (same_token k same) e =
      rw (k, same, take_whole (length key) key refl, drop_whole key) (append-nil _)
  front_token t key kind (runs n k k' same) e = rw (k, k', same) (letters_of-cut n key)

  -- The front of the node and the run behind it spell the node.
  pub front_node :
      (t : RadixNode V) (key : Bytes) (kind : RadixKind) {n : ℕ}
      → Overlap t key kind n
      → (n == 0) ≡ false
      → letters_of (kind_of t) (take n (key_of t)) ++ letters_of normal (drop n (key_of t))
        ≡ label t
  front_node t key kind none_common e = absurd (cc e)
  front_node t key kind (same_token k same) e =
      rw (k, same, take_whole (length key) key refl, drop_whole key) (append-nil _)
  front_node t key kind (runs n k k' same) e = rw k (letters_of-cut n (key_of t))

  pub append_child-IsChild : (cs : Children V) (t : RadixNode V) → IsChild t (append_child cs t)
  append_child-IsChild no_children t = first_child
  append_child-IsChild (child u us) t = other_child (append_child-IsChild us t)

  sink_child-IsChild :
      (cs : Children V) (t u : RadixNode V) → (u ≡ t) ⊎ IsChild u cs → IsChild u (sink_child cs t)
  unfolding sink_child
  sink_child-IsChild no_children t u (inl e) = rw e first_child
  sink_child-IsChild no_children t u (inr c) = elim c [ ]
  sink_child-IsChild (child w ws) t u (inl e) =
      elim (Bool-cases (ltb (child_rank (kind_of t)) (child_rank (kind_of w)))) [
        | inl before ↦ rw (before, e) first_child
        | inr after ↦ rw after (other_child (sink_child-IsChild ws t u (inl e)))
      ]
  sink_child-IsChild (child w ws) t _ (inr first_child) =
      elim (Bool-cases (ltb (child_rank (kind_of t)) (child_rank (kind_of w)))) [
        | inl before ↦ rw before (other_child first_child)
        | inr after ↦ rw after first_child
      ]
  sink_child-IsChild (child w ws) t u (inr (other_child c)) =
      elim (Bool-cases (ltb (child_rank (kind_of t)) (child_rank (kind_of w)))) [
        | inl before ↦ rw before (other_child (other_child c))
        | inr after ↦ rw after (other_child (sink_child-IsChild ws t u (inr c)))
      ]

  pub sort_from-IsChild :
      (sorted cs : Children V) (u : RadixNode V)
      → IsChild u sorted ⊎ IsChild u cs
      → IsChild u (sort_from sorted cs)
  unfolding sort_from
  sort_from-IsChild sorted no_children u (inl c) = c
  sort_from-IsChild sorted no_children u (inr c) = elim c [ ]
  sort_from-IsChild sorted (child t ts) u (inl c) =
      sort_from-IsChild (sink_child sorted t) ts u (inl (sink_child-IsChild sorted t u (inr c)))
  sort_from-IsChild sorted (child t ts) _ (inr first_child) =
      sort_from-IsChild (sink_child sorted t) ts t (inl (sink_child-IsChild sorted t t (inl refl)))
  sort_from-IsChild sorted (child t ts) u (inr (other_child c)) =
      sort_from-IsChild (sink_child sorted t) ts u (inr c)

  pub with_new_child-IsChild : (cs : Children V) (t : RadixNode V) → IsChild t (with_new_child cs t)
  with_new_child-IsChild cs t =
      sort_from-IsChild no_children (append_child cs t) t (inr (append_child-IsChild cs t))

  -- A pattern that spells this below a node.
  abbrev pub Holds : V → RadixNode V → List Letter → Type 0
  Holds v t spelt_out = (toks : List Token) × Stored v t toks × (letters toks ≡ spelt_out)

  -- The same, what the node spells included.
  abbrev pub HoldsChild : V → Children V → List Letter → Type 0
  HoldsChild v cs spelt_out =
      (u : RadixNode V) × (rest : List Letter) × IsChild u cs
      × Holds v u rest
      × (label u ++ rest ≡ spelt_out)

  pub Holds-HoldsChild :
      {v : V} {cs : Children V} {spelt_out : List Letter} (key : Bytes) (kind : RadixKind)
      (payload : Option V)
      → HoldsChild v cs spelt_out
      → Holds v (node key kind cs payload) spelt_out
  Holds-HoldsChild key kind payload (u, rest, c, (toks, stored, e), e') =
      (token (kind_of u) (key_of u) ∷ toks, stored_below c stored, ap (λ r. label u ++ r) e ∙ e')

  -- A change keeps what its node spells and adds a pattern that spells this below it.
  abbrev pub Adds : V → List Letter → Change V → Type 0
  Adds v suffix change =
      (t : RadixNode V) → (label (change t).0 ≡ label t) × Holds v (change t).0 suffix

  abbrev HoldsResult : V → Option (Children V × Bool) → List Letter → Type 0
  HoldsResult v none spelt_out = Unit
  HoldsResult v (some r) spelt_out = HoldsChild v r.0 spelt_out

  -- A child in the place of the first.
  in_place :
      {v : V} {spelt_out : List Letter} (u : RadixNode V) (ts : Children V)
      (prefix rest : List Letter)
      → label u ≡ prefix
      → Holds v u rest
      → prefix ++ rest ≡ spelt_out
      → HoldsChild v (child u ts) spelt_out
  in_place u ts prefix rest key holds e = (u, rest, first_child, holds, ap (λ k. k ++ rest) key ∙ e)

  pub label-split_node :
      (t : RadixNode V) (n : ℕ)
      → label (split_node t n) ≡ letters_of (kind_of t) (take n (key_of t))
  unfolding split_node
  label-split_node (node key kind cs payload) n = refl

  pub label-add_sibling : (t u : RadixNode V) → label (add_sibling t u) ≡ label t
  label-add_sibling (node key kind cs payload) u = refl

  add_sibling-Holds :
      {v : V} (t u : RadixNode V) (rest : List Letter)
      → Holds v u rest
      → Holds v (add_sibling t u) (label u ++ rest)
  add_sibling-Holds (node key kind cs payload) u rest holds =
      Holds-HoldsChild key kind payload (u, rest, with_new_child-IsChild cs u, holds, refl)

  behind_first-Holds :
      (v : V) (spelt_out : List Letter) (t : RadixNode V) (r : Option (Children V × Bool))
      → HoldsResult v r spelt_out
      → HoldsResult v (behind_first t r) spelt_out
  behind_first-Holds v spelt_out t none h = tt
  behind_first-Holds v spelt_out t (some r) (u, rest, c, holds, e) =
      (u, rest, other_child c, holds, e)

  changed_or_new-Holds :
      {v : V} {spelt_out : List Letter} (k : Bytes) (kd : RadixKind) (cs : Children V)
      (payload : Option V) (fresh : RadixNode V × Bool) (r : Option (Children V × Bool))
      (rest : List Letter)
      → Holds v fresh.0 rest
      → label fresh.0 ++ rest ≡ spelt_out
      → HoldsResult v r spelt_out
      → (label (changed_or_new k kd cs payload fresh r).0 ≡ letters_of kd k)
        × Holds v (changed_or_new k kd cs payload fresh r).0 spelt_out
  changed_or_new-Holds k kd cs payload fresh none rest holds e h = (
    refl,
    Holds-HoldsChild k kd payload (fresh.0, rest, with_new_child-IsChild cs fresh.0, holds, e),
  )
  changed_or_new-Holds k kd cs payload fresh (some r) rest holds e h =
      (refl, Holds-HoldsChild k kd payload h)

  mutual
    unfolding insert_token insert_child

    pub insert_token-Holds :
        {v : V} {suffix : List Letter} (t : RadixNode V) (key : Bytes) (kind : RadixKind)
        (change : Change V)
        → Adds v suffix change
        → (label (insert_token t key kind change).0 ≡ label t)
          × Holds v (insert_token t key kind change).0 (letters_of kind key ++ suffix)
    insert_token-Holds {suffix} (node k kd cs payload) key kind change adds =
        let (same, holds) = adds (new_node key kind) in
        changed_or_new-Holds k kd cs payload (change (new_node key kind))
          (insert_child cs key kind change) suffix holds (ap (λ r. r ++ suffix) same)
          (insert_child-Holds cs key kind change adds)

    insert_child-Holds :
        {v : V} {suffix : List Letter} (cs : Children V) (key : Bytes) (kind : RadixKind)
        (change : Change V)
        → Adds v suffix change
        → HoldsResult v (insert_child cs key kind change) (letters_of kind key ++ suffix)
    insert_child-Holds no_children key kind change adds = tt
    insert_child-Holds {v} {suffix} (child t ts) key kind change adds =
        let common = node_common t key kind in
        let over = node_common-Overlap t key kind in
        let front = letters_of (kind_of t) (take common (key_of t)) in
        let behind = letters_of kind (drop common key) in
        elim (Bool-cases (common == 0)) [
          | inl apart ↦ rw apart (
              behind_first-Holds v (letters_of kind key ++ suffix) t
                (insert_child ts key kind change) (insert_child-Holds ts key kind change adds))
          | inr overlap ↦
              let spelt = front_token t key kind over overlap in
              let whole : front ++ (behind ++ suffix) ≡ letters_of kind key ++ suffix =
                sym (append_assoc front behind suffix) ∙ ap (λ r. r ++ suffix) spelt in
              elim (Bool-cases (common == length (key_of t))) [
                | inl whole_child ↦
                    let is_all : common ≡ length (key_of t) = ground arith in
                    let child_key : label t ≡ front =
                      ap (letters_of (kind_of t)) (sym (take_whole common (key_of t) is_all)) in
                    elim (Bool-cases (common == length key)) [
                      | inl whole_key ↦
                          let all_key : common ≡ length key = ground arith in
                          let (same, holds) = adds t in
                          rw (overlap, whole_child, whole_key)
                            (in_place (change t).0 ts (letters_of kind key) suffix
                              (same ∙ child_key ∙ no_rest front kind key common all_key spelt) holds
                              refl)
                      | inr more ↦
                          let (same, holds) =
                            insert_token-Holds t (drop common key) kind change adds in
                          rw (overlap, whole_child, more)
                            (in_place _ ts front (behind ++ suffix) (same ∙ child_key) holds whole)
                    ]
                | inr part ↦ elim (Bool-cases (common == length key)) [
                  | inl whole_key ↦
                      let all_key : common ≡ length key = ground arith in
                      let (same, holds) = adds (split_node t common) in
                      rw (overlap, part, whole_key)
                        (in_place _ ts (letters_of kind key) suffix
                          (same
                            ∙ label-split_node t common
                            ∙ no_rest front kind key common all_key spelt)
                          holds refl)
                  | inr more ↦
                      let sibling = change (new_node (drop common key) kind) in
                      let (same, holds) = adds (new_node (drop common key) kind) in
                      rw (overlap, part, more)
                        (in_place (add_sibling (split_node t common) sibling.0) ts front
                          (label sibling.0 ++ suffix)
                          (label-add_sibling (split_node t common) sibling.0
                            ∙ label-split_node t common)
                          (add_sibling-Holds (split_node t common) sibling.0 suffix holds)
                          (ap (λ k. front ++ (k ++ suffix)) same ∙ whole))
                ]
              ]
        ]

  pub add_tokens-Adds : (toks : List Token) (v : V) → Adds v (letters toks) (add_tokens toks v)
  unfolding add_tokens
  add_tokens-Adds [] v (node key kind cs payload) = (refl, ([], stored_here refl, refl))
  add_tokens-Adds (tok ∷ toks) v t =
      insert_token-Holds t tok.bytes tok.kind (add_tokens toks v) (add_tokens-Adds toks v)

  -- After a pattern is added to any tree, the tree stores its payload under what the tokens of the
  -- pattern spell: the same literal bytes and the same whole names and globs, in their order,
  -- however the runs are cut among nodes.
  pub radix_tree_add-Holds :
      (t : RadixTree V) (key : Bytes) (v : V)
      → (toks : List Token) × IsTokens key toks
        × Holds v (RadixTree.root (radix_tree_add t key v)) (letters toks)
  unfolding radix_tree_add
  radix_tree_add-Holds t key v =
      let toks = tokenize (length key) key in
      (toks, tokenize_lem key, (add_tokens-Adds toks v t.root).1)
