-- ===== src/Treelist/Higher.antt =====
-- The builtins of (creme treelist) that call a procedure or compare values (icecreme/treelist.c).
use creme.Common.{
  ℕ, suc, Bool, true, false, not, Option, none, some, List, [], ◌∷◌, reverse, if◌then◌else◌,
}
use creme.Treelist.Bulk.{from_array, to_array}
use creme.Treelist.Builtins.{v_treelist, tl_arg, on_treelist}
use creme.Treelist.Mutable.{on_mutable, set_root}
use creme.Value.{
  pos, Value, nil, bool, int, Heap, M, pure, ◌>>=◌, ◌>>◌, lift, gets, v_falsy, arg, check_min_args,
}

-- The procedures are the user's: `apply` stands for `creme_apply`, whatever it does to the heap, and
-- `equal` for `creme_equal`.
module _ (apply : Value → List Value → M Value) (equal : Heap → Value → Value → Bool) where
  -- The loops that call a procedure on each item.
  unfoldable pub map_items : Value → List Value → M (List Value)
  map_items f [] = pure []
  map_items f (x ∷ xs) = do y ← apply f (x ∷ []); ys ← map_items f xs; pure (y ∷ ys)

  unfoldable pub filter_items : Value → List Value → M (List Value)
  filter_items f [] = pure []
  filter_items f (x ∷ xs) = do
    r ← apply f (x ∷ [])
    kept ← filter_items f xs
    pure (if v_falsy r then kept else (x ∷ kept))

  unfoldable pub for_each_item : Value → List Value → M Value
  for_each_item f [] = pure nil
  for_each_item f (x ∷ xs) = do r ← apply f (x ∷ []); for_each_item f xs

  unfoldable pub find_item : Value → List Value → M Value
  find_item f [] = pure (bool false)
  find_item f (x ∷ xs) = do
    r ← apply f (x ∷ [])
    elim (v_falsy r) [ true ↦ find_item f xs | false ↦ pure x ]

  -- The test of `find_index`: `eql` if it is given, or `creme_equal`.
  unfoldable pub matches : Option Value → Value → Value → M Bool
  matches (some eql) needle x = do r ← apply eql (needle ∷ x ∷ []); pure (not (v_falsy r))
  matches none needle x = gets (λ h. equal h needle x)

  -- `i` is the index of the first item; `none` stands for -1.
  unfoldable pub find_index : Option Value → Value → ℕ → List Value → M (Option ℕ)
  find_index eql needle i [] = pure none
  find_index eql needle i (x ∷ xs) = do
    found ← matches eql needle x
    elim found [ true ↦ pure (some i) | false ↦ find_index eql needle (suc i) xs ]

  -- The inner loop of `tl_insertion_sort`: the sorted front, last item first.
  unfoldable pub sink : Value → Value → List Value → M (List Value)
  sink less key [] = pure (key ∷ [])
  sink less key (x ∷ xs) = do
    r ← apply less (key ∷ x ∷ [])
    elim (v_falsy r) [
      | true ↦ pure (key ∷ x ∷ xs)
      | false ↦ do ys ← sink less key xs; pure (x ∷ ys)
    ]

  -- The outer loop, with the sorted front reversed.
  unfoldable pub insertion_sort : Value → List Value → List Value → M (List Value)
  insertion_sort less front [] = pure (reverse front)
  insertion_sort less front (key ∷ rest) = do
    front' ← sink less key front
    insertion_sort less front' rest

  unfoldable pub tl_insertion_sort : List Value → Value → M (List Value)
  tl_insertion_sort arr less = insertion_sort less [] arr

  unfoldable pub bi_treelist_map : List Value → M Value
  bi_treelist_map args =
      on_treelist 2
        (λ t. do
          f ← arg args 1
          mapped ← map_items f (to_array t)
          root ← lift (from_array mapped)
          v_treelist root)
        args

  -- Here the procedure is the first argument.
  unfoldable pub bi_treelist_filter : List Value → M Value
  bi_treelist_filter args = do
    check_min_args args 2
    v ← arg args 1
    t ← tl_arg v
    f ← arg args 0
    kept ← filter_items f (to_array t)
    root ← lift (from_array kept)
    v_treelist root

  unfoldable pub bi_treelist_for_each : List Value → M Value
  bi_treelist_for_each args =
      on_treelist 2 (λ t. do f ← arg args 1; for_each_item f (to_array t)) args

  unfoldable pub bi_treelist_sort : List Value → M Value
  bi_treelist_sort args =
      on_treelist 2
        (λ t. do
          less ← arg args 1
          arr ← tl_insertion_sort (to_array t) less
          root ← lift (from_array arr)
          v_treelist root)
        args

  -- `nargs >= 3 ? &args[2] : NULL`
  abbrev eql_arg : List Value → Option Value
  eql_arg (t ∷ needle ∷ eql ∷ args) = some eql
  eql_arg _ = none

  unfoldable pub bi_treelist_member_p : List Value → M Value
  bi_treelist_member_p args =
      on_treelist 2
        (λ t. do
          needle ← arg args 1
          r ← find_index (eql_arg args) needle 0 (to_array t)
          pure (bool (elim r [ none ↦ false | some i ↦ true ])))
        args

  unfoldable pub bi_treelist_index_of : List Value → M Value
  bi_treelist_index_of args =
      on_treelist 2
        (λ t. do
          needle ← arg args 1
          r ← find_index (eql_arg args) needle 0 (to_array t)
          pure (elim r [ none ↦ bool false | some i ↦ int (pos i) ]))
        args

  unfoldable pub bi_treelist_find : List Value → M Value
  bi_treelist_find args = on_treelist 2 (λ t. do f ← arg args 1; find_item f (to_array t)) args

  unfoldable pub bi_mutable_treelist_map_bang : List Value → M Value
  bi_mutable_treelist_map_bang args =
      on_mutable 2
        (λ m t. do
          f ← arg args 1
          mapped ← map_items f (to_array t)
          root ← lift (from_array mapped)
          set_root m root)
        args

  unfoldable pub bi_mutable_treelist_sort_bang : List Value → M Value
  bi_mutable_treelist_sort_bang args =
      on_mutable 2
        (λ m t. do
          less ← arg args 1
          arr ← tl_insertion_sort (to_array t) less
          root ← lift (from_array arr)
          set_root m root)
        args

  unfoldable pub bi_mutable_treelist_for_each : List Value → M Value
  bi_mutable_treelist_for_each args =
      on_mutable 2 (λ m t. do f ← arg args 1; for_each_item f (to_array t)) args

  unfoldable pub bi_mutable_treelist_member_p : List Value → M Value
  bi_mutable_treelist_member_p args =
      on_mutable 2
        (λ m t. do
          needle ← arg args 1
          r ← find_index (eql_arg args) needle 0 (to_array t)
          pure (bool (elim r [ none ↦ false | some i ↦ true ])))
        args

  unfoldable pub bi_mutable_treelist_find : List Value → M Value
  bi_mutable_treelist_find args =
      on_mutable 2 (λ m t. do f ← arg args 1; find_item f (to_array t)) args
