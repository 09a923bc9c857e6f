-- ===== src/Radix/Add.antt =====
-- Adding a pattern: `split_node`, `node_common`, `insert_token` and `radix_tree_add` of icecreme/
-- radix.c. The C code changes the nodes in place and returns the node that a token ends at; here the
-- change of that node is an argument, `change`, that also tells whether a pattern is new.
use creme.Common.{
  ℕ, zero, suc, Bool, true, false, ◌&&◌, ◌||◌, Option, none, some, List, [], ◌∷◌, length, take,
  drop, ◌==◌, if◌then◌else◌,
}
use creme.Csv.Builtins.{same_bytes}
use creme.Csv.Parse.{Bytes}
use creme.Radix.Node.{
  RadixKind, normal, named, glob, RadixNode, node, Children, no_children, child, Token, new_node,
  key_of, kind_of, append_child, sort_children,
}

-- The length of the common prefix of two runs.
unfoldable pub common_prefix : Bytes → Bytes → ℕ
common_prefix (c ∷ key) (d ∷ key') =
    let more = suc (common_prefix key key') in if c == d then more else 0
common_prefix [] _ = 0
common_prefix (c ∷ key) [] = 0

abbrev pub same_kind : RadixKind → RadixKind → Bool
same_kind normal normal = true
same_kind named named = true
same_kind glob glob = true
same_kind _ _ = false

abbrev pub both_normal : RadixKind → RadixKind → Bool
both_normal normal normal = true
both_normal _ _ = false

-- The tokenizer loop of `radix_tree_add`. A byte ends a literal run if it begins a parameter.
abbrev pub starts_param : ℕ → Bool
starts_param c = c == b':' || c == b'*'

-- The bytes before the first that stops, and the others.
unfoldable pub run_until : (ℕ → Bool) → Bytes → Bytes × Bytes
run_until stop [] = ([], [])
run_until stop (c ∷ key) =
    let more = run_until stop key in if stop c then ([], c ∷ key) else (c ∷ more.0, more.1)

abbrev pub token : RadixKind → Bytes → Token
token kind bytes = record { bytes = bytes; kind = kind }

-- A token takes at least one byte.
unfoldable pub tokenize : ℕ → Bytes → List Token
tokenize zero key = []
tokenize (suc rounds) [] = []
tokenize (suc rounds) (c ∷ key) =
    let segment = run_until (λ d. d == b'/') key in
    let literal = run_until starts_param key in
    let after_name = tokenize rounds segment.1 in
    let after_run = tokenize rounds literal.1 in
    if c == b':'
    then token named (c ∷ segment.0) ∷ after_name
    else if c == b'*'
    then token glob (c ∷ key) ∷ []
    else token normal (c ∷ literal.0) ∷ after_run

-- The change of the node that a token ends at, and whether a pattern is new.
abbrev pub Change : Type 0 → Type 0
Change V = RadixNode V → RadixNode V × Bool

pub record RadixTree (V : Type 0) : Type 0 where
  pub root : RadixNode V
  pub count : ℕ

module _ {V : Type 0} where
  -- The key keeps its first `common` bytes; the rest, the children and the payload go to a new child.
  unfoldable pub split_node : RadixNode V → ℕ → RadixNode V
  split_node (node key kind cs payload) common =
      node (take common key) kind (child (node (drop common key) normal cs payload) no_children)
        none

  unfoldable pub node_common : RadixNode V → Bytes → RadixKind → ℕ
  node_common t key kind =
      if both_normal (kind_of t) kind
      then common_prefix (key_of t) key
      else if same_kind (kind_of t) kind && same_bytes (key_of t) key
      then length key
      else 0

  -- `append_child` and `sort_children`: the change keeps the kind that the order depends on.
  abbrev pub with_new_child : Children V → RadixNode V → Children V
  with_new_child cs t = sort_children (append_child cs t)

  abbrev pub replace_children : RadixNode V → Children V → RadixNode V
  replace_children (node key kind cs payload) cs' = node key kind cs' payload

  -- The shared prefix, over the tail and the new sibling.
  abbrev pub add_sibling : RadixNode V → RadixNode V → RadixNode V
  add_sibling (node key kind cs payload) sibling = node key kind (with_new_child cs sibling) payload

  abbrev pub on_first : Children V → RadixNode V × Bool → Option (Children V × Bool)
  on_first ts r = some (child r.0 ts, r.1)

  abbrev pub behind_first : RadixNode V → Option (Children V × Bool) → Option (Children V × Bool)
  behind_first t none = none
  behind_first t (some r) = some (child t r.0, r.1)

  -- The node with the child that was changed, or with a new one where none overlaps.
  abbrev pub changed_or_new :
      Bytes
      → RadixKind
      → Children V
      → Option V
      → RadixNode V × Bool
      → Option (Children V × Bool)
      → RadixNode V × Bool
  changed_or_new k kd cs payload fresh none =
      (node k kd (with_new_child cs fresh.0) payload, fresh.1)
  changed_or_new k kd cs payload fresh (some r) = (node k kd r.0 payload, r.1)

  unfoldable mutual
    pub insert_token : RadixNode V → Bytes → RadixKind → Change V → RadixNode V × Bool
    insert_token (node k kd cs payload) key kind change =
        changed_or_new k kd cs payload (change (new_node key kind))
          (insert_child cs key kind change)

    -- The loop over the children; `none` when no one overlaps.
    pub insert_child : Children V → Bytes → RadixKind → Change V → Option (Children V × Bool)
    insert_child no_children key kind change = none
    insert_child (child t ts) key kind change =
        let common = node_common t key kind in
        let others = behind_first t (insert_child ts key kind change) in
        let inside = on_first ts (insert_token t (drop common key) kind change) in
        let sibling = change (new_node (drop common key) kind) in
        if common == 0
        then others
        else if common == length (key_of t)
        then (if common == length key then on_first ts (change t) else inside)
        else if common == length key
        then on_first ts (change (split_node t common))
        else some (child (add_sibling (split_node t common) sibling.0) ts, sibling.1)

  abbrev pub is_null : Option V → Bool
  is_null none = true
  is_null (some v) = false

  unfoldable pub add_tokens : List Token → V → RadixNode V → RadixNode V × Bool
  add_tokens [] v (node key kind cs payload) = (node key kind cs (some v), is_null payload)
  add_tokens (tok ∷ toks) v t = insert_token t tok.bytes tok.kind (add_tokens toks v)

  unfoldable pub radix_tree_new : RadixTree V
  radix_tree_new = record { root = new_node [] normal; count = 0 }

  unfoldable pub radix_tree_add : RadixTree V → Bytes → V → RadixTree V
  radix_tree_add t key v =
      let r = add_tokens (tokenize (length key) key) v t.root in
      record { root = r.0; count = (if r.1 then suc t.count else t.count) }
