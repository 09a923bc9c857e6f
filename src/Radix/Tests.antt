-- ===== src/Radix/Tests.antt =====
-- A concrete tree for the theorems on icecreme/radix.c.
use creme.Common.{ℕ, ◌≡◌, ◌⊎◌, refl, true, none, some, List, [], ◌∷◌, take, ok, Returns, arith}
use creme.Csv.Parse.{Bytes}
use creme.Radix.Add.{
  radix_tree_new, add_tokens, insert_token, insert_child, RadixTree, run_until, token, tokenize,
  radix_tree_add,
}
use creme.Radix.Find.{RadixParam, find_rec, find_child, radix_tree_find}
use creme.Radix.Builtins.{bi_radix_tree_ref, bi_radix_tree_match}
use creme.Radix.Proofs.Match.{IsMatch, bi_radix_tree_match_lem}
use creme.Json.Decoded.{Keeps}
use creme.Treelist.Node.{empty_leaf}
use creme.Value.{Value, nil, bool, str, box, radix_tree, Heap}
use creme.Radix.Node.{
  sort_from, sink_child, normal, named, RadixNode, node, Children, no_children, child, Token,
  kind_of,
}
use creme.Radix.Proofs.Added.{Holds, radix_tree_add-Holds}
use creme.Radix.Proofs.Count.{payloads, radix_tree_add-count}
use creme.Radix.Proofs.Find.{is_found, radix_tree_find_sound, radix_tree_find_complete}
use creme.Radix.Proofs.Kept.{radix_tree_add-Keeps}
use creme.Radix.Proofs.Order.{IsOrdered, IsOrderedFrom, radix_tree_add-IsOrdered}
use creme.Radix.Proofs.Precedence.{attempt_at, find_child-normal_first}
use creme.Radix.Proofs.Tokens.{tokenize_lem}
use creme.Radix.Spec.{
  IsChild, first_child, other_child, Stored, stored_here, stored_below, Matches, at_end, match_run,
  match_name, free_byte, free_end, stopped_end, IsTokens, Letter, literal, whole_name, letters,
}

-- The patterns /a and /:x.
abbrev a_node : RadixNode ℕ
a_node = node (b'a' ∷ []) normal no_children (some 1)

abbrev x_node : RadixNode ℕ
x_node = node (b':' ∷ b'x' ∷ []) named no_children (some 2)

abbrev below_slash : Children ℕ
below_slash = child a_node (child x_node no_children)

abbrev small_tree : RadixTree ℕ
small_tree = record {
  root = node [] normal (child (node (b'/' ∷ []) normal below_slash none) no_children) none;
  count = 2;
}

abbrev x_is_b : List RadixParam
x_is_b = record { name = b'x' ∷ []; value = b'b' ∷ [] } ∷ []

-- /:x/*
abbrev all_kinds : Bytes
all_kinds = b'/' ∷ b':' ∷ b'x' ∷ b'/' ∷ b'*' ∷ []

tokenize_example : IsTokens all_kinds (tokenize 5 all_kinds)
tokenize_example = tokenize_lem all_kinds

radix_tree_find_sound_example :
    (toks : List Token) × (captures : List RadixParam) × Stored 2 small_tree.root toks
    × Matches toks (b'/' ∷ b'b' ∷ []) captures
    × (x_is_b ≡ take 64 captures)
unfolding radix_tree_find find_rec find_child run_until
radix_tree_find_sound_example = radix_tree_find_sound 64 small_tree (b'/' ∷ b'b' ∷ []) 2 x_is_b refl

radix_tree_find_complete_example :
    is_found 64 (radix_tree_find 64 small_tree (b'/' ∷ b'b' ∷ [])) ≡ true
unfolding run_until
radix_tree_find_complete_example =
    radix_tree_find_complete 64 small_tree (b'/' ∷ b'b' ∷ [])
      (token normal (b'/' ∷ []) ∷ token named (b':' ∷ b'x' ∷ []) ∷ []) 2 x_is_b
      (stored_below first_child (stored_below (other_child first_child) (stored_here refl)))
      (match_run {rest = b'b' ∷ []} refl (
        match_name {value = b'b' ∷ []} {rest = []} refl (free_byte refl free_end) stopped_end
          at_end))

radix_tree_add-count_example :
    RadixTree.count (radix_tree_add small_tree (b'/' ∷ b'b' ∷ []) 3)
    ≡ payloads (RadixTree.root (radix_tree_add small_tree (b'/' ∷ b'b' ∷ []) 3))
unfolding payloads
radix_tree_add-count_example = radix_tree_add-count small_tree (b'/' ∷ b'b' ∷ []) 3 refl

small_tree-IsOrdered : IsOrdered small_tree.root
unfolding IsOrdered IsOrderedFrom
small_tree-IsOrdered = (omega arith, (omega arith, tt, (omega arith, tt, tt)), tt)

radix_tree_add-IsOrdered_example :
    IsOrdered (RadixTree.root (radix_tree_add small_tree (b'/' ∷ b'b' ∷ []) 3))
radix_tree_add-IsOrdered_example =
    radix_tree_add-IsOrdered small_tree (b'/' ∷ b'b' ∷ []) 3 small_tree-IsOrdered

below_slash-IsOrderedFrom : IsOrderedFrom 0 below_slash
unfolding IsOrdered IsOrderedFrom
below_slash-IsOrderedFrom = (omega arith, tt, (omega arith, tt, tt))

find_child-normal_first_example :
    (u : RadixNode ℕ) × IsChild u below_slash
    × (kind_of u ≡ normal)
    × (find_child 64 below_slash (b'a' ∷ []) [] ≡ attempt_at 64 u (b'a' ∷ []) [])
unfolding find_rec find_child
find_child-normal_first_example =
    find_child-normal_first 64 0 below_slash (b'a' ∷ []) [] a_node below_slash-IsOrderedFrom
      first_child refl refl

radix_tree_add-Holds_example :
    (toks : List Token) × IsTokens (b'/' ∷ b'b' ∷ []) toks
    × Holds 3 (RadixTree.root (radix_tree_add small_tree (b'/' ∷ b'b' ∷ []) 3)) (letters toks)
radix_tree_add-Holds_example = radix_tree_add-Holds small_tree (b'/' ∷ b'b' ∷ []) 3

abbrev path_b : Bytes
path_b = b'/' ∷ b'b' ∷ []

-- What /:x spells.
abbrev name_below_slash : List Letter
name_below_slash = literal b'/' ∷ whole_name (b':' ∷ b'x' ∷ []) ∷ []

radix_tree_add-Keeps_example :
    Holds 2 (RadixTree.root (radix_tree_add small_tree path_b 3)) name_below_slash
    ⊎ ((toks : List Token) × IsTokens path_b toks × (name_below_slash ≡ letters toks))
radix_tree_add-Keeps_example = radix_tree_add-Keeps small_tree path_b 3 2 name_below_slash (
  token normal (b'/' ∷ []) ∷ token named (b':' ∷ b'x' ∷ []) ∷ [],
  stored_below first_child (stored_below (other_child first_child) (stored_here refl)),
  refl,
)

-- The pattern /:x, in the only tree.
abbrev one_route : RadixTree Value
one_route = radix_tree_add radix_tree_new (b'/' ∷ b':' ∷ b'x' ∷ []) (bool true)

abbrev no_objects : Heap
no_objects = record {
  next = 0;
  pairs = λ p. record { car = nil; cdr = nil };
  vectors = λ p. [];
  trees = λ p. empty_leaf;
  mutables = λ p. empty_leaf;
}

bi_radix_tree_match_example :
    Returns
      (λ r.
        Keeps no_objects r.1
        × ((v : Value) × IsMatch (RadixTree.root one_route) path_b r.1 r.0 v
            × (bi_radix_tree_ref (λ a. one_route) (box radix_tree 0 ∷ str path_b ∷ []) no_objects
                ≡ ok (v, no_objects))))
      (bi_radix_tree_match (λ a. one_route) (box radix_tree 0 ∷ str path_b ∷ []) no_objects)
bi_radix_tree_match_example = bi_radix_tree_match_lem (λ a. one_route) 0 path_b no_objects

ref_route :
    bi_radix_tree_ref (λ a. one_route) (box radix_tree 0 ∷ str path_b ∷ []) no_objects
    ≡ ok (bool true, no_objects)
unfolding bi_radix_tree_ref radix_tree_find find_rec find_child radix_tree_add radix_tree_new
    add_tokens insert_token insert_child tokenize run_until sort_from sink_child
ref_route = refl
