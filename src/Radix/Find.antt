-- ===== src/Radix/Find.antt =====
-- Looking up a path: `find_rec` and `radix_tree_find` of icecreme/radix.c.
use creme.Common.{
  ℕ, Bool, true, false, ◌&&◌, Option, none, some, List, [], ◌∷◌, ◌++◌, length, drop, ltb, ◌==◌,
  if◌then◌else◌,
}
use creme.Csv.Parse.{Bytes}
use creme.Radix.Add.{run_until, RadixTree}
use creme.Radix.Node.{
  RadixKind, normal, named, glob, RadixNode, node, Children, no_children, child, key_of, kind_of,
}

pub record RadixParam : Type 0 where
  pub name : Bytes
  pub value : Bytes

-- `key_len <= path_len` and `memcmp` of the first `key_len` bytes.
abbrev pub is_prefix : Bytes → Bytes → Bool
is_prefix [] path = true
is_prefix (c ∷ key) [] = false
is_prefix (c ∷ key) (d ∷ path) = (c == d) && is_prefix key path

abbrev pub behind_first_byte : Bytes → Bytes
behind_first_byte [] = []
behind_first_byte (c ∷ key) = key

-- Up to the next slash, and the slash and what is behind it.
abbrev pub segment : Bytes → Bytes × Bytes
segment path = run_until (λ d. d == b'/') path

-- A payload and the captures; `none` is NULL.
abbrev pub Found : Type 0 → Type 0
Found V = Option (V × List RadixParam)

module _ (max_params : ℕ) where
  -- A capture beyond the maximum is dropped.
  abbrev pub capture : List RadixParam → Bytes → Bytes → List RadixParam
  capture params key value =
      if ltb (length params) max_params
      then params ++ (record { name = behind_first_byte key; value = value } ∷ [])
      else params

  module _ {V : Type 0} where
    abbrev pub with_params : Option V → List RadixParam → Found V
    with_params none params = none
    with_params (some v) params = some (v, params)

    abbrev pub or_else : Found V → Found V → Found V
    or_else none other = other
    or_else (some r) other = some r

    -- The attempt at one child: `visit` is `find_rec` of the child.
    abbrev pub attempt :
        RadixKind → Bytes → Bytes → List RadixParam → (Bytes → List RadixParam → Found V) → Found V
    attempt normal key path params visit =
        if is_prefix key path then visit (drop (length key) path) params else none
    attempt named key path params visit =
        visit (segment path).1 (capture params key (segment path).0)
    attempt glob key path params visit = visit [] (capture params key path)

    -- `params` are the first `*n` of `out_params`; a failed attempt leaves none of its own.
    unfoldable mutual
      pub find_rec : RadixNode V → Bytes → List RadixParam → Found V
      find_rec (node key kind cs payload) [] params = with_params payload params
      find_rec (node key kind cs payload) (c ∷ path) params = find_child cs (c ∷ path) params

      -- The loop over the children.
      pub find_child : Children V → Bytes → List RadixParam → Found V
      find_child no_children path params = none
      find_child (child t ts) path params =
          or_else
            (attempt (kind_of t) (key_of t) path params (λ rest params'. find_rec t rest params'))
            (find_child ts path params)

    unfoldable pub radix_tree_find : RadixTree V → Bytes → Found V
    radix_tree_find t path = find_rec t.root path []
