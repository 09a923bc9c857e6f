-- ===== src/HashTable/Builtins.antt =====
-- The builtins of (creme hash-table), icecreme/hashtable.c. `eq-hash`, which reads an address as a
-- number, is left out.
use creme.Common.{
  ℕ, suc, Bool, true, false, Option, none, some, List, [], ◌∷◌, Result, ok, fail, abort, wrong_type,
  bad_access, bad_arity, key_not_found, length, get_elem?, leb, if◌then◌else◌,
}
use creme.HashTable.IndexMap.{IndexMap}
use creme.HashTable.Table.{
  Slot, CremeHashTable, make_hash_table, collect_live, hash_table_set, hash_table_lookup,
  hash_table_delete,
}
use creme.Treelist.Builtins.{array_to_list}
use creme.Value.{Value, nil, bool, closure, builtin, box, hashtable, Heap, M, update}
use creme.Value

module _ (I : IndexMap) where
  -- The tables that boxes point to, beside the heap.
  pub record State : Type 0 where
    pub heap : Heap
    pub tables : ℕ → CremeHashTable I

  abbrev pub S : Type 0 → Type 0
  S A = State → Result (A × State)

  abbrev pub pure : {A : Type 0} → A → S A
  pure a s = ok (a, s)

  infixl 5 ◌>>=◌ ◌>>◌
  abbrev pub ◌>>=◌ : {A B : Type 0} → S A → (A → S B) → S B
  ◌>>=◌ m f s = elim (m s) [ fail e ↦ fail e | ok r ↦ f r.0 r.1 ]

  abbrev pub ◌>>◌ : {B : Type 0} → S (Unit {0}) → S B → S B
  m >> k = m >>= λ _. k

  abbrev pub lift : {A : Type 0} → Result A → S A
  lift r s = elim r [ fail e ↦ fail e | ok a ↦ ok (a, s) ]

  -- A step on the heap.
  abbrev pub on_heap : {A : Type 0} → M A → S A
  on_heap m s = elim (m s.heap) [ fail e ↦ fail e | ok r ↦ ok (r.0, record s { heap = r.1 }) ]

  abbrev pub get_table : ℕ → S (CremeHashTable I)
  get_table a s = ok (s.tables a, s)

  abbrev pub put_table : ℕ → CremeHashTable I → S (Unit {0})
  put_table a ht s = ok (tt, record s { tables = update s.tables a ht })

  abbrev pub check_min_args : List Value → ℕ → S (Unit {0})
  check_min_args args n s = if leb n (length args) then ok (tt, s) else fail (abort bad_arity)

  abbrev pub arg : List Value → ℕ → S Value
  arg args i s = elim (get_elem? args i) [ none ↦ fail bad_access | some v ↦ ok (v, s) ]

  -- `as_hash_table`: the address in the box.
  abbrev pub as_hash_table : Value → S ℕ
  as_hash_table (box hashtable a) = pure a
  as_hash_table _ = lift (fail (abort wrong_type))

  abbrev pub table_arg : ℕ → List Value → S ℕ
  table_arg n args = do check_min_args args n; v ← arg args 0; as_hash_table v

  unfoldable pub bi_make_hash_table : List Value → S Value
  bi_make_hash_table args s =
      let a = Heap.next s.heap in
      ok (
        box hashtable a,
        record {
          heap = record (s.heap) { next = suc a };
          tables = update s.tables a (make_hash_table I);
        },
      )

  abbrev pub is_hash_table : Value → Bool
  is_hash_table (box hashtable a) = true
  is_hash_table _ = false

  unfoldable pub bi_hash_table_p : List Value → S Value
  bi_hash_table_p args = do check_min_args args 1; v ← arg args 0; pure (bool (is_hash_table v))

  unfoldable pub bi_hash_table_set : List Value → S Value
  bi_hash_table_set args = do
    a ← table_arg 3 args
    ht ← get_table a
    key ← arg args 1
    value ← arg args 2
    ht' ← lift (hash_table_set I ht key value)
    put_table a ht'
    pure nil

  abbrev is_some : Option Value → Bool
  is_some none = false
  is_some (some v) = true

  unfoldable pub bi_hash_table_contains_p : List Value → S Value
  bi_hash_table_contains_p args = do
    a ← table_arg 2 args
    ht ← get_table a
    key ← arg args 1
    found ← lift (hash_table_lookup I ht key)
    pure (bool (is_some found))

  unfoldable pub bi_hash_table_delete : List Value → S Value
  bi_hash_table_delete args = do
    a ← table_arg 2 args
    ht ← get_table a
    key ← arg args 1
    ht' ← lift (hash_table_delete I ht key)
    put_table a ht'
    pure nil

  -- `apply` stands for `creme_apply` on no arguments.
  module _ (apply : Value → S Value) where
    abbrev default_value : Value → S Value
    default_value (closure a) = apply (closure a)
    default_value (builtin a) = apply (builtin a)
    default_value def = pure def

    abbrev or_default : Option Value → S Value
    or_default none = lift (fail (abort key_not_found))
    or_default (some def) = default_value def

    abbrev pub found_or : Option Value → Option Value → S Value
    found_or none def = or_default def
    found_or (some v) def = pure v

    unfoldable pub bi_hash_table_ref : List Value → S Value
    bi_hash_table_ref args = do
      a ← table_arg 2 args
      ht ← get_table a
      key ← arg args 1
      found ← lift (hash_table_lookup I ht key)
      found_or found (get_elem? args 2)

  -- The three kinds of `collect_live`.
  abbrev pub collected : {A : Type 0} → (Slot → A) → List Value → S (List A)
  collected f args = do a ← table_arg 1 args; ht ← get_table a; pure (collect_live I f ht)

  unfoldable pub bi_hash_table_keys : List Value → S Value
  bi_hash_table_keys args = do keys ← collected Slot.key args; on_heap (array_to_list keys)

  unfoldable pub bi_hash_table_values : List Value → S Value
  bi_hash_table_values args = do values ← collected Slot.value args; on_heap (array_to_list values)

  -- The entries are consed in the loop, the list behind it.
  unfoldable pub cons_entries : List Slot → S (List Value)
  cons_entries [] = pure []
  cons_entries (slot ∷ slots) = do
    entry ← on_heap (Value.cons slot.key slot.value)
    entries ← cons_entries slots
    pure (entry ∷ entries)

  unfoldable pub bi_hash_table_to_alist : List Value → S Value
  bi_hash_table_to_alist args = do
    slots ← collected (λ slot. slot) args
    entries ← cons_entries slots
    on_heap (array_to_list entries)
