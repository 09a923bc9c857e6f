-- ===== src/Radix/Proofs/Kept.antt =====
-- `radix_tree_add` of icecreme/radix.c loses no pattern but the one that it overwrites.
use creme.Common.{
  ℕ, ◌≡◌, ◌⊎◌, refl, sym, ap, ◌∙◌, inl, inr, Bool, Option, none, some, List, [], ◌∷◌, ◌++◌,
  append_assoc, length, take, drop, ◌==◌, Bool-cases, arith,
}
use creme.Csv.Parse.{Bytes}
use creme.Radix.Add.{
  Change, RadixTree, split_node, node_common, with_new_child, add_sibling, changed_or_new,
  behind_first, insert_token, insert_child, add_tokens, tokenize, radix_tree_add,
}
use creme.Radix.Node.{
  RadixKind, normal, RadixNode, node, Children, no_children, child, Token, new_node, key_of,
  kind_of, append_child,
}
use creme.Radix.Proofs.Added.{
  take_whole, sort_from-IsChild, Holds, HoldsChild, Holds-HoldsChild, Adds, label,
  node_common-Overlap, front_token, front_node, no_rest, label-split_node, label-add_sibling,
  insert_token-Holds, add_tokens-Adds,
}
use creme.Radix.Proofs.Tokens.{tokenize_lem}
use creme.Radix.Spec.{
  IsChild, first_child, other_child, stored_here, stored_below, IsTokens, Letter, letters_of,
  letters,
}

module _ {V : Type 0} where
  append_child-old :
      (cs : Children V) (t u : RadixNode V) → IsChild u cs → IsChild u (append_child cs t)
  append_child-old no_children t u c = elim c [ ]
  append_child-old (child w ws) t _ first_child = first_child
  append_child-old (child w ws) t u (other_child c) = other_child (append_child-old ws t u c)

  with_new_child-old :
      {w : V} {spelt_out : List Letter} (cs : Children V) (t : RadixNode V)
      → HoldsChild w cs spelt_out
      → HoldsChild w (with_new_child cs t) spelt_out
  with_new_child-old cs t (u, rest, c, holds, e) = (
    u,
    rest,
    sort_from-IsChild no_children (append_child cs t) u (inr (append_child-old cs t u c)),
    holds,
    e,
  )

  -- A pattern at a node ends there or goes on in a child.
  Holds-cases :
      (w : V) (spelt_out : List Letter) (key : Bytes) (kind : RadixKind) (cs : Children V)
      (payload : Option V)
      → Holds w (node key kind cs payload) spelt_out
      → ((payload ≡ some w) × (spelt_out ≡ [])) ⊎ HoldsChild w cs spelt_out
  Holds-cases w spelt_out key kind cs payload ([], stored_here e, e') = inl (e, sym e')
  Holds-cases w spelt_out key kind cs payload (_ ∷ toks, stored_below {t} c stored, e) =
      inr (t, letters toks, c, (toks, stored, refl), e)

  at_node :
      (w : V) (spelt_out : List Letter) (key : Bytes) (kind : RadixKind) (cs : Children V)
      (payload : Option V)
      → payload ≡ some w
      → spelt_out ≡ []
      → Holds w (node key kind cs payload) spelt_out
  at_node w spelt_out key kind cs payload e e' = ([], stored_here e, sym e')

  first_or_other :
      (w : V) (spelt_out : List Letter) (t : RadixNode V) (ts : Children V)
      → HoldsChild w (child t ts) spelt_out
      → ((rest : List Letter) × Holds w t rest × (label t ++ rest ≡ spelt_out))
        ⊎ HoldsChild w ts spelt_out
  first_or_other w spelt_out t ts (_, rest, first_child, holds, e) = inl (rest, holds, e)
  first_or_other w spelt_out t ts (u, rest, other_child c, holds, e) = inr (u, rest, c, holds, e)

  other :
      {w : V} {spelt_out : List Letter} (u : RadixNode V) (ts : Children V)
      → HoldsChild w ts spelt_out
      → HoldsChild w (child u ts) spelt_out
  other u ts (t, rest, c, holds, e) = (t, rest, other_child c, holds, e)

  -- The patterns of a node are those of its split, behind the rest of its key.
  split_node-Holds :
      (w : V) (rest : List Letter) (t : RadixNode V) (n : ℕ)
      → Holds w t rest
      → Holds w (split_node t n) (letters_of normal (drop n (key_of t)) ++ rest)
  unfolding split_node
  split_node-Holds w rest (node key kind cs payload) n holds =
      let tail = node (drop n key) normal cs payload in
      let inside : Holds w tail rest = elim (Holds-cases w rest key kind cs payload holds) [
        | inl (e, e') ↦ at_node w rest (drop n key) normal cs payload e e'
        | inr below ↦ Holds-HoldsChild (drop n key) normal payload below
      ] in
      Holds-HoldsChild (take n key) kind none (tail, rest, first_child, inside, refl)

  add_sibling-old :
      (w : V) (rest : List Letter) (t u : RadixNode V)
      → Holds w t rest
      → Holds w (add_sibling t u) rest
  add_sibling-old w rest (node key kind cs payload) u holds =
      elim (Holds-cases w rest key kind cs payload holds) [
        | inl (e, e') ↦ at_node w rest key kind (with_new_child cs u) payload e e'
        | inr below ↦ Holds-HoldsChild key kind payload (with_new_child-old cs u below)
      ]

  -- What was there still is, but for the pattern that is added.
  abbrev Keeps : List Letter → RadixNode V → RadixNode V → Type 0
  Keeps added t u =
      (w : V) (spelt_out : List Letter)
      → Holds w t spelt_out
      → Holds w u spelt_out ⊎ (spelt_out ≡ added)

  abbrev KeepsChildren : List Letter → Children V → Children V → Type 0
  KeepsChildren added cs cs' =
      (w : V) (spelt_out : List Letter)
      → HoldsChild w cs spelt_out
      → HoldsChild w cs' spelt_out ⊎ (spelt_out ≡ added)

  abbrev KeepsResult : List Letter → Children V → Option (Children V × Bool) → Type 0
  KeepsResult added cs none = Unit
  KeepsResult added cs (some r) = KeepsChildren added cs r.0

  behind_first-Keeps :
      (added : List Letter) (t : RadixNode V) (ts : Children V) (r : Option (Children V × Bool))
      → KeepsResult added ts r
      → KeepsResult added (child t ts) (behind_first t r)
  behind_first-Keeps added t ts none k = tt
  behind_first-Keeps added t ts (some r) k = λ w spelt_out h.
      elim (first_or_other w spelt_out t ts h) [
        | inl (rest, holds, e) ↦ inl (t, rest, first_child, holds, e)
        | inr below ↦ elim (k w spelt_out below) [
          | inl kept ↦ inl (other t r.0 kept)
          | inr same ↦ inr same
        ]
      ]

  -- The first child has changed below its key.
  first_changed :
      (added suffix : List Letter) (t u : RadixNode V) (ts : Children V)
      → label u ≡ label t
      → Keeps suffix t u
      → label t ++ suffix ≡ added
      → KeepsChildren added (child t ts) (child u ts)
  first_changed added suffix t u ts same keeps whole w spelt_out h =
      elim (first_or_other w spelt_out t ts h) [
        | inl (rest, holds, e) ↦ elim (keeps w rest holds) [
          | inl kept ↦ inl (u, rest, first_child, kept, ap (λ k. k ++ rest) same ∙ e)
          | inr is_suffix ↦ inr (sym e ∙ ap (λ r. label t ++ r) is_suffix ∙ whole)
        ]
        | inr below ↦ inl (other u ts below)
      ]

  -- The first child has been split, and then changed below its new key.
  first_split :
      (added suffix : List Letter) (n : ℕ) (t u : RadixNode V) (ts : Children V)
      → label u ≡ letters_of (kind_of t) (take n (key_of t))
      → letters_of (kind_of t) (take n (key_of t)) ++ letters_of normal (drop n (key_of t))
        ≡ label t
      → Keeps suffix (split_node t n) u
      → letters_of (kind_of t) (take n (key_of t)) ++ suffix ≡ added
      → KeepsChildren added (child t ts) (child u ts)
  first_split added suffix n t u ts same cut keeps whole w spelt_out h =
      let front = letters_of (kind_of t) (take n (key_of t)) in
      let behind = letters_of normal (drop n (key_of t)) in
      elim (first_or_other w spelt_out t ts h) [
        | inl (rest, holds, e) ↦
            let moved : front ++ (behind ++ rest) ≡ spelt_out =
              sym (append_assoc front behind rest) ∙ ap (λ k. k ++ rest) cut ∙ e in
            elim (keeps w (behind ++ rest) (split_node-Holds w rest t n holds)) [
              | inl kept ↦ inl (
                u,
                behind ++ rest,
                first_child,
                kept,
                ap (λ k. k ++ (behind ++ rest)) same ∙ moved,
              )
              | inr is_suffix ↦ inr (sym moved ∙ ap (λ r. front ++ r) is_suffix ∙ whole)
            ]
        | inr below ↦ inl (other u ts below)
      ]

  changed_or_new-Keeps :
      (added : List Letter) (k : Bytes) (kd : RadixKind) (cs : Children V) (payload : Option V)
      (fresh : RadixNode V × Bool) (r : Option (Children V × Bool))
      → KeepsResult added cs r
      → Keeps added (node k kd cs payload) (changed_or_new k kd cs payload fresh r).0
  changed_or_new-Keeps added k kd cs payload fresh none keeps w spelt_out h =
      inl (add_sibling-old w spelt_out (node k kd cs payload) fresh.0 h)
  changed_or_new-Keeps added k kd cs payload fresh (some r) keeps w spelt_out h =
      elim (Holds-cases w spelt_out k kd cs payload h) [
        | inl (e, e') ↦ inl (at_node w spelt_out k kd r.0 payload e e')
        | inr below ↦ elim (keeps w spelt_out below) [
          | inl kept ↦ inl (Holds-HoldsChild k kd payload kept)
          | inr same ↦ inr same
        ]
      ]

  -- A change that adds a pattern and loses no other.
  abbrev KeepsAll : List Letter → Change V → Type 0
  KeepsAll suffix change = (t : RadixNode V) → Keeps suffix t (change t).0

  mutual
    unfolding insert_token insert_child

    insert_token-Keeps :
        {v : V} {suffix : List Letter} (t : RadixNode V) (key : Bytes) (kind : RadixKind)
        (change : Change V)
        → Adds v suffix change
        → KeepsAll suffix change
        → Keeps (letters_of kind key ++ suffix) t (insert_token t key kind change).0
    insert_token-Keeps {suffix} (node k kd cs payload) key kind change adds keeps =
        changed_or_new-Keeps (letters_of kind key ++ suffix) k kd cs payload
          (change (new_node key kind)) (insert_child cs key kind change)
          (insert_child-Keeps cs key kind change adds keeps)

    insert_child-Keeps :
        {v : V} {suffix : List Letter} (cs : Children V) (key : Bytes) (kind : RadixKind)
        (change : Change V)
        → Adds v suffix change
        → KeepsAll suffix change
        → KeepsResult (letters_of kind key ++ suffix) cs (insert_child cs key kind change)
    insert_child-Keeps no_children key kind change adds keeps = tt
    insert_child-Keeps {suffix} (child t ts) key kind change adds keeps =
        let common = node_common t key kind in
        let over = node_common-Overlap t key kind in
        let front = letters_of (kind_of t) (take common (key_of t)) in
        let behind = letters_of kind (drop common key) in
        elim (Bool-cases (common == 0)) [
          | inl apart ↦ rw apart (
              behind_first-Keeps (letters_of kind key ++ suffix) t ts
                (insert_child ts key kind change)
                (insert_child-Keeps ts key kind change adds keeps))
          | inr overlap ↦
              let spelt = front_token t key kind over overlap in
              let cut = front_node t key kind over overlap in
              let whole : front ++ (behind ++ suffix) ≡ letters_of kind key ++ suffix =
                sym (append_assoc front behind suffix) ∙ ap (λ r. r ++ suffix) spelt in
              elim (Bool-cases (common == length (key_of t))) [
                | inl whole_child ↦
                    let is_all : common ≡ length (key_of t) = ground arith in
                    let child_key : label t ≡ front =
                      ap (letters_of (kind_of t)) (sym (take_whole common (key_of t) is_all)) in
                    elim (Bool-cases (common == length key)) [
                      | inl whole_key ↦
                          let all_key : common ≡ length key = ground arith in
                          rw (overlap, whole_child, whole_key)
                            (first_changed (letters_of kind key ++ suffix) suffix t (change t).0 ts
                              (adds t).0 (keeps t)
                              (ap (λ k. k ++ suffix)
                                (child_key ∙ no_rest front kind key common all_key spelt)))
                      | inr more ↦
                          rw (overlap, whole_child, more)
                            (first_changed (letters_of kind key ++ suffix) (behind ++ suffix) t _ ts
                              (insert_token-Holds t (drop common key) kind change adds).0
                              (insert_token-Keeps t (drop common key) kind change adds keeps)
                              (ap (λ k. k ++ (behind ++ suffix)) child_key ∙ whole))
                    ]
                | inr part ↦ elim (Bool-cases (common == length key)) [
                  | inl whole_key ↦
                      let all_key : common ≡ length key = ground arith in
                      rw (overlap, part, whole_key)
                        (first_split (letters_of kind key ++ suffix) suffix common t _ ts
                          ((adds (split_node t common)).0 ∙ label-split_node t common) cut
                          (keeps (split_node t common))
                          (ap (λ k. k ++ suffix) (no_rest front kind key common all_key spelt)))
                  | inr more ↦
                      let sibling = change (new_node (drop common key) kind) in
                      rw (overlap, part, more)
                        (first_split (letters_of kind key ++ suffix) (behind ++ suffix) common t
                          (add_sibling (split_node t common) sibling.0) ts
                          (label-add_sibling (split_node t common) sibling.0
                            ∙ label-split_node t common)
                          cut
                          (λ w rest h.
                            inl (add_sibling-old w rest (split_node t common) sibling.0 h))
                          whole)
                ]
              ]
        ]

  add_tokens-KeepsAll : (toks : List Token) (v : V) → KeepsAll (letters toks) (add_tokens toks v)
  unfolding add_tokens
  add_tokens-KeepsAll [] v (node key kind cs payload) = λ w spelt_out h.
      elim (Holds-cases w spelt_out key kind cs payload h) [
        | inl (e, e') ↦ inr e'
        | inr below ↦ inl (Holds-HoldsChild key kind (some v) below)
      ]
  add_tokens-KeepsAll (tok ∷ toks) v t =
      insert_token-Keeps t tok.bytes tok.kind (add_tokens toks v) (add_tokens-Adds toks v)
        (add_tokens-KeepsAll toks v)

  -- What a tree stores, as literal bytes and whole names and globs with a payload, it still stores
  -- after a pattern is added, whether nodes were split, extended or new; only what the tokens of
  -- the added pattern spell may be overwritten.
  pub radix_tree_add-Keeps :
      (t : RadixTree V) (key : Bytes) (v w : V) (spelt_out : List Letter)
      → Holds w t.root spelt_out
      → Holds w (RadixTree.root (radix_tree_add t key v)) spelt_out
        ⊎ ((toks : List Token) × IsTokens key toks × (spelt_out ≡ letters toks))
  unfolding radix_tree_add
  radix_tree_add-Keeps t key v w spelt_out h =
      let toks = tokenize (length key) key in
      elim (add_tokens-KeepsAll toks v t.root w spelt_out h) [
        | inl kept ↦ inl kept
        | inr same ↦ inr (toks, tokenize_lem key, same)
      ]
