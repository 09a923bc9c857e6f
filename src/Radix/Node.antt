-- ===== src/Radix/Node.antt =====
-- The nodes of icecreme/radix.c (RadixNode of icecreme/radix.h).
use creme.Common.{ℕ, Option, none, ltb, if◌then◌else◌}
use creme.Csv.Parse.{Bytes}

pub data RadixKind : Type 0 where
  normal named glob : RadixKind

-- `none` is the payload NULL.
mutual
  pub data RadixNode (V : Type 0) : Type 0 where
    node : Bytes → RadixKind → Children V → Option V → RadixNode V

  -- `children`, up to `n_children`.
  pub data Children (V : Type 0) : Type 0 where
    no_children : Children V
    child : RadixNode V → Children V → Children V

-- A token of a key: a run of literal bytes, or a whole `:name` or `*name`.
pub record Token : Type 0 where
  pub bytes : Bytes
  pub kind : RadixKind

abbrev pub child_rank : RadixKind → ℕ
child_rank normal = 0
child_rank named = 1
child_rank glob = 2

module _ {V : Type 0} where
  abbrev pub new_node : Bytes → RadixKind → RadixNode V
  new_node key kind = node key kind no_children none

  abbrev pub key_of : RadixNode V → Bytes
  key_of (node key kind cs payload) = key

  abbrev pub kind_of : RadixNode V → RadixKind
  kind_of (node key kind cs payload) = kind

  abbrev pub append_child : Children V → RadixNode V → Children V
  append_child no_children t = child t no_children
  append_child (child u us) t = child u (append_child us t)

  -- The inner loop of `sort_children`, on the sorted children from the back.
  unfoldable pub sink_child : Children V → RadixNode V → Children V
  sink_child no_children cur = child cur no_children
  sink_child (child t ts) cur =
      let behind = child t (sink_child ts cur) in
      if ltb (child_rank (kind_of cur)) (child_rank (kind_of t))
      then child cur (child t ts)
      else behind

  -- The outer loop: `sorted` are the children before `i`.
  unfoldable pub sort_from : Children V → Children V → Children V
  sort_from sorted no_children = sorted
  sort_from sorted (child cur ts) = sort_from (sink_child sorted cur) ts

  abbrev pub sort_children : Children V → Children V
  sort_children ts = sort_from no_children ts
