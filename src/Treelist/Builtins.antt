-- ===== src/Treelist/Builtins.antt =====
-- The builtins of (creme treelist) on immutable treelists that call no procedure (icecreme/
-- treelist.c), and the checks of their arguments.
use creme.Common.{
  ℕ, zero, suc, ◌-◌, ◌%◌, ◌^◌, Bool, true, false, List, [], ◌∷◌, Result, ok, fail, bad_access,
  no_fuel, negative_size, out_of_range, wrong_type, empty_treelist, bad_range, replicate, reverse,
  ltb, leb, ◌==◌, if◌then◌else◌,
}
use creme.Treelist.Node.{Node, empty_leaf, size_of}
use creme.Treelist.Access.{node_ref, node_set}
use creme.Treelist.Bulk.{from_array, to_array}
use creme.Treelist.Tree.{
  from_int_array, tree_add, tree_cons, tree_concat, tree_take, tree_drop, tree_sublist, tree_insert,
  tree_delete, tree_reverse,
}
use creme.Value.{
  pos, negsuc, treelist, Value, nil, bool, int, pair, vector, box, Heap, M, pure, ◌>>=◌, ◌>>◌, lift,
  stop, gets, check, update, arg, check_min_args, cons, new_vector,
}

-- `v_treelist`: a box around the root.
unfoldable pub v_treelist : Node Value → M Value
v_treelist root h =
    ok (box treelist h.next, record h { next = suc h.next; trees = update h.trees h.next root })

unfoldable pub tl_arg : Value → M (Node Value)
tl_arg (box treelist a) = gets (λ h. h.trees a)
tl_arg _ = stop wrong_type

-- The C cast of a non-negative `int64_t` to `int`: `fail` stands for a negative result, with which
-- the callers go on to an array that was never allocated.
abbrev pub to_int : ℕ → Result ℕ
to_int n = let low = n % 2 ^ 32 in if ltb low (2 ^ 31) then ok low else fail bad_access

unfoldable pub tl_size_arg : Value → M ℕ
tl_size_arg (int (pos n)) = lift (to_int n)
tl_size_arg _ = stop negative_size

-- An index within [0, size).
unfoldable pub tl_bounds : Value → ℕ → M ℕ
tl_bounds (int (pos i)) size = do check (ltb i size) out_of_range; pure i
tl_bounds (int (negsuc i)) size = stop out_of_range
tl_bounds _ size = stop wrong_type

-- A position within [0, size].
unfoldable pub tl_bounds_incl : Value → ℕ → M ℕ
tl_bounds_incl (int (pos i)) size = do check (leb i size) out_of_range; pure i
tl_bounds_incl (int (negsuc i)) size = stop out_of_range
tl_bounds_incl _ size = stop wrong_type

-- A count within [0, size].
unfoldable pub tl_count : Value → ℕ → M ℕ
tl_count (int (pos i)) size = do check (leb i size) out_of_range; pure i
tl_count (int (negsuc i)) size = stop out_of_range
tl_count _ size = stop wrong_type

-- The two walks of `list_to_value_array` over the pairs; a list that ends in no pair ends there.
-- On a cyclic list the C code does not return, whatever the rounds.
unfoldable pub list_to_value_array : ℕ → Value → Heap → Result (List Value)
list_to_value_array zero v h = fail no_fuel
list_to_value_array (suc rounds) (pair a) h =
    let rest = list_to_value_array rounds (Heap.pairs h a).cdr h in
    elim rest [ fail e ↦ fail e | ok xs ↦ ok ((Heap.pairs h a).car ∷ xs) ]
list_to_value_array (suc rounds) _ h = ok []

-- `for (i = n - 1; i >= 0; i--) r = creme_cons(vm, arr[i], r)`, on the reversed array.
unfoldable pub cons_all : List Value → Value → M Value
cons_all [] r = pure r
cons_all (x ∷ xs) r = do p ← cons x r; cons_all xs p

unfoldable pub array_to_list : List Value → M Value
array_to_list items = cons_all (reverse items) nil

unfoldable pub vector_arg : List Value → M (List Value)
vector_arg [] = stop wrong_type
vector_arg (vector a ∷ args) = gets (λ h. h.vectors a)
vector_arg (_ ∷ args) = stop wrong_type

unfoldable pub bi_treelist : List Value → M Value
bi_treelist args = do root ← lift (from_int_array args); v_treelist root

unfoldable pub bi_make_treelist : List Value → M Value
bi_make_treelist args = do
  check_min_args args 2
  size ← arg args 0
  n ← tl_size_arg size
  v ← arg args 1
  root ← lift (from_int_array (replicate n v))
  v_treelist root

module _ (rounds : ℕ) where
  unfoldable pub bi_list_to_treelist : List Value → M Value
  bi_list_to_treelist args = do
    check_min_args args 1
    l ← arg args 0
    r ← gets (list_to_value_array rounds l)
    arr ← lift r
    root ← lift (from_array arr)
    v_treelist root

unfoldable pub bi_treelist_to_list : List Value → M Value
bi_treelist_to_list args = do
  check_min_args args 1
  v ← arg args 0
  root ← tl_arg v
  array_to_list (to_array root)

unfoldable pub bi_vector_to_treelist : List Value → M Value
bi_vector_to_treelist args = do
  items ← vector_arg args
  root ← lift (from_int_array items)
  v_treelist root

unfoldable pub bi_treelist_to_vector : List Value → M Value
bi_treelist_to_vector args = do
  check_min_args args 1
  v ← arg args 0
  root ← tl_arg v
  new_vector (to_array root)

abbrev pub is_treelist : Value → Bool
is_treelist (box treelist a) = true
is_treelist _ = false

unfoldable pub bi_treelist_p : List Value → M Value
bi_treelist_p args = do check_min_args args 1; v ← arg args 0; pure (bool (is_treelist v))

-- Builtins that look at the treelist `args[0]`, or make a new one from it: `min` arguments at
-- least, and what is done with the root.
abbrev pub on_treelist : {A : Type 0} → ℕ → (Node Value → M A) → List Value → M A
on_treelist n body args = do check_min_args args n; v ← arg args 0; t ← tl_arg v; body t

unfoldable pub bi_treelist_empty_p : List Value → M Value
bi_treelist_empty_p = on_treelist 1 (λ t. pure (bool (size_of t == 0)))

unfoldable pub bi_treelist_length : List Value → M Value
bi_treelist_length = on_treelist 1 (λ t. pure (int (pos (size_of t))))

unfoldable pub bi_treelist_ref : List Value → M Value
bi_treelist_ref args =
    on_treelist 2 (λ t. do v ← arg args 1; i ← tl_bounds v (size_of t); lift (node_ref t i)) args

unfoldable pub bi_treelist_first : List Value → M Value
bi_treelist_first =
    on_treelist 1 (λ t. if size_of t == 0 then stop empty_treelist else lift (node_ref t 0))

unfoldable pub bi_treelist_last : List Value → M Value
bi_treelist_last =
    on_treelist 1
      (λ t. if size_of t == 0 then stop empty_treelist else lift (node_ref t (size_of t - 1)))

unfoldable pub bi_treelist_add : List Value → M Value
bi_treelist_add args =
    on_treelist 2 (λ t. do v ← arg args 1; u ← lift (tree_add t v); v_treelist u) args

unfoldable pub bi_treelist_cons : List Value → M Value
bi_treelist_cons args =
    on_treelist 2 (λ t. do v ← arg args 1; u ← lift (tree_cons t v); v_treelist u) args

-- The builtins that take a number checked by `bound`, and make a new treelist.
abbrev pub from_index :
    (Value → ℕ → M ℕ) → ℕ → (Node Value → ℕ → M (Node Value)) → List Value → M Value
from_index bound n body args =
    on_treelist n (λ t. do v ← arg args 1; i ← bound v (size_of t); u ← body t i; v_treelist u) args

unfoldable pub bi_treelist_set : List Value → M Value
bi_treelist_set args = from_index tl_bounds 3 (λ t i. do v ← arg args 2; lift (node_set t i v)) args

unfoldable pub bi_treelist_insert : List Value → M Value
bi_treelist_insert args =
    from_index tl_bounds_incl 3 (λ t i. do v ← arg args 2; lift (tree_insert t i v)) args

unfoldable pub bi_treelist_delete : List Value → M Value
bi_treelist_delete = from_index tl_bounds 2 (λ t i. lift (tree_delete t i))

unfoldable pub bi_treelist_take : List Value → M Value
bi_treelist_take = from_index tl_count 2 (λ t n. lift (tree_take t n))

unfoldable pub bi_treelist_drop : List Value → M Value
bi_treelist_drop = from_index tl_count 2 (λ t n. lift (tree_drop t n))

unfoldable pub bi_treelist_take_right : List Value → M Value
bi_treelist_take_right = from_index tl_count 2 (λ t n. lift (tree_drop t (size_of t - n)))

unfoldable pub bi_treelist_drop_right : List Value → M Value
bi_treelist_drop_right = from_index tl_count 2 (λ t n. lift (tree_take t (size_of t - n)))

unfoldable pub bi_treelist_sublist : List Value → M Value
bi_treelist_sublist args =
    from_index tl_count 3
      (λ t from. do
        v ← arg args 2
        to ← tl_count v (size_of t)
        check (leb from to) bad_range
        lift (tree_sublist t from to))
      args

unfoldable pub bi_treelist_rest : List Value → M Value
bi_treelist_rest =
    on_treelist 1 (λ t.
      if size_of t == 0 then stop empty_treelist else do u ← lift (tree_drop t 1); v_treelist u)

-- The loop of `treelist-append` over the arguments.
unfoldable pub append_all : List Value → Node Value → M (Node Value)
append_all [] acc = pure acc
append_all (v ∷ vs) acc = do t ← tl_arg v; acc' ← lift (tree_concat acc t); append_all vs acc'

unfoldable pub bi_treelist_append : List Value → M Value
bi_treelist_append args = do root ← append_all args empty_leaf; v_treelist root

unfoldable pub bi_treelist_reverse : List Value → M Value
bi_treelist_reverse = on_treelist 1 (λ t. do u ← lift (tree_reverse t); v_treelist u)
