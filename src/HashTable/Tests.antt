-- ===== src/HashTable/Tests.antt =====
-- A concrete index map and table for the theorems on icecreme/hashtable.c.
use creme.Common.{
  ℕ, suc, ◌≡◌, refl, sym, subst, ap, ◌∙◌, ◌&&◌, inl, inr, Bool, true, false, Option, none, some,
  List, [], ◌∷◌, Result, ok, fail, abort, wrong_type, key_not_found, get_elem?, Returns, ◌==◌,
  if◌then◌else◌, Bool-cases, arith,
}
use creme.HashTable.Builtins.{State, bi_hash_table_ref, bi_hash_table_set}
use creme.Csv.Builtins.{same_bytes}
use creme.Csv.Proofs.Cells.{and-true}
use creme.Csv.Proofs.Same.{same_bytes-eq, same_bytes_refl}
use creme.HashTable.Equal.{tag_of, compared, has_case, creme_eqv}
use creme.HashTable.IndexMap.{IndexMap, IsIndexMap}
use creme.HashTable.Proofs.Builtins.{
  bi_hash_table_ref_lem, bi_hash_table_ref-bi_hash_table_set, value_or_abort,
}
use creme.HashTable.Proofs.Entries.{assoc}
use creme.HashTable.Proofs.Compaction.{entries, IsHashTable}
use creme.HashTable.Proofs.Operations.{
  hash_table_lookup_lem, hash_table_set_lem, hash_table_delete_lem,
}
use creme.HashTable.Table.{
  CremeHashTable, Slot, hash_table_set, hash_table_delete, hash_table_lookup, live_slots,
}
use creme.Treelist.Node.{empty_leaf}
use creme.Value.{Value, nil, int, pos, box, hashtable, Heap, update}

-- The keys of these tables have no parts.
abbrev same : Value → Value → Bool
same = creme_eqv

abbrev Assoc : Type 0
Assoc = List (Value × ℕ)

abbrev find : Assoc → Value → Option ℕ
find [] k = none
find (e ∷ m) k = let rest = find m k in if same e.0 k then some e.1 else rest

abbrev remove : Assoc → Value → Assoc
remove [] k = []
remove (e ∷ m) k = let rest = remove m k in if same k e.0 then rest else e ∷ rest

abbrev assoc_map : IndexMap
assoc_map = record {
  equal = same;
  Map = Assoc;
  init = [];
  get = find;
  insert = λ m k i. (k, i) ∷ m;
  erase = remove;
}

-- What it says that two values are equal.
creme_eqv-parts :
    (a b : Value)
    → same a b ≡ true
    → (tag_of a ≡ tag_of b) × (has_case (tag_of a) ≡ true) × (compared a ≡ compared b)
creme_eqv-parts a b e =
    let (tags, rest) = and-true (tag_of a == tag_of b) _ e in
    let (known, bytes) = and-true (has_case (tag_of a)) _ rest in
    (ground arith, known, same_bytes-eq (compared a) (compared b) bytes)

same-right : (a b c : Value) → same a b ≡ true → same c a ≡ same c b
same-right a b c e =
    let (tags, known, parts) = creme_eqv-parts a b e in
    ap (λ t. (tag_of c == t) && (has_case (tag_of c) && same_bytes (compared c) (compared a))) tags
    ∙ ap (λ p. (tag_of c == tag_of b) && (has_case (tag_of c) && same_bytes (compared c) p)) parts

same_sym_true : (a b : Value) → same a b ≡ true → same b a ≡ true
same_sym_true a b e =
    let (tags, known, parts) = creme_eqv-parts a b e in
    let self : same b b ≡ true =
      let known' : has_case (tag_of b) ≡ true = subst (λ t. has_case t ≡ true) tags known in
      let tag : (tag_of b == tag_of b) ≡ true = ground arith in
      rw (tag, known', same_bytes_refl (compared b)) refl in
    same-right a b b e ∙ self

same_sym : (a b : Value) → same a b ≡ same b a
same_sym a b = elim (Bool-cases (same a b)) [
  | inl e ↦ e ∙ sym (same_sym_true a b e)
  | inr e ↦ elim (Bool-cases (same b a)) [
    | inl e' ↦ absurd (cc (sym e ∙ same_sym_true b a e'))
    | inr e' ↦ e ∙ sym e'
  ]
]

find-same : (m : Assoc) (a b : Value) → same a b ≡ true → find m a ≡ find m b
find-same [] a b e = refl
find-same (x ∷ m) a b e = rw (same-right a b x.0 e, find-same m a b e) refl

find-remove : (m : Assoc) (a b : Value) → same a b ≡ true → find (remove m a) b ≡ none
find-remove [] a b e = refl
find-remove (x ∷ m) a b e = elim (Bool-cases (same a x.0)) [
  | inl hit ↦ rw hit (find-remove m a b e)
  | inr miss ↦
      let other : same x.0 b ≡ false = sym (same-right a b x.0 e) ∙ same_sym x.0 a ∙ miss in
      rw (miss, other) (find-remove m a b e)
]

find-remove_other : (m : Assoc) (a b : Value) → same a b ≡ false → find (remove m a) b ≡ find m b
find-remove_other [] a b e = refl
find-remove_other (x ∷ m) a b e = elim (Bool-cases (same a x.0)) [
  | inl hit ↦
      let other : same x.0 b ≡ false =
        same_sym x.0 b ∙ sym (same-right a x.0 b hit) ∙ same_sym b a ∙ e in
      rw (hit, other) (find-remove_other m a b e)
  | inr miss ↦ rw miss (ap (λ r. if same x.0 b then some x.1 else r) (find-remove_other m a b e))
]

abbrev assoc_laws : IsIndexMap assoc_map
assoc_laws = record {
  equal_sym = same_sym;
  equal_right = same-right;
  get-equal = find-same;
  get-init = λ k. refl;
  get-insert = λ m k k' i e. rw e refl;
  get-insert_other = λ m k k' i e. rw e refl;
  get-erase = find-remove;
  get-erase_other = find-remove_other;
}

-- 1 is set to 10 and overwritten with 20, and 2 is set: slot 0 is not live.
abbrev slot_of : ℕ → ℕ → Slot
slot_of k v = record { key = int (pos k); value = int (pos v) }

abbrev small_table : CremeHashTable assoc_map
small_table = record {
  map = (int (pos 2), 3) ∷ (int (pos 1), 2) ∷ (int (pos 1), 1) ∷ [];
  slots = slot_of 1 10 ∷ slot_of 1 20 ∷ slot_of 2 30 ∷ [];
  cap_values = 8;
  n_live = 2;
}

same_index : {x y : ℕ} → Path (Option ℕ) (some x) (some y) → x ≡ y
same_index {x} e = ap (λ o. elim o [ some z ↦ z | none ↦ x ]) e

small_table-points :
    (k : Value) (x : ℕ)
    → find (small_table.map) k ≡ some x
    → (i : ℕ) × (s : Slot) × (x ≡ suc i)
      × (get_elem? small_table.slots i ≡ some s)
      × (same s.key k ≡ true)
small_table-points k x e = elim (Bool-cases (same (int (pos 2)) k)) [
  | inl hit ↦ (2, slot_of 2 30, same_index (sym (rw hit at e)), refl, hit)
  | inr miss ↦ elim (Bool-cases (same (int (pos 1)) k)) [
    | inl hit ↦ (1, slot_of 1 20, same_index (sym (rw (miss, hit) at e)), refl, hit)
    | inr miss' ↦ absurd (cc (rw (miss, miss') at e))
  ]
]

small_table-IsHashTable : IsHashTable assoc_map small_table
unfolding live_slots
small_table-IsHashTable = record { points = small_table-points; counted = refl; room = omega arith }

hash_table_lookup_example :
    hash_table_lookup assoc_map small_table (int (pos 1)) ≡ ok (some (int (pos 20)))
unfolding live_slots
hash_table_lookup_example =
    hash_table_lookup_lem assoc_laws small_table (int (pos 1)) small_table-IsHashTable

hash_table_set_example :
    Returns
      (λ ht. IsHashTable assoc_map ht × (entries assoc_map ht ≡ slot_of 2 30 ∷ slot_of 1 40 ∷ []))
      (hash_table_set assoc_map small_table (int (pos 1)) (int (pos 40)))
unfolding live_slots
hash_table_set_example =
    hash_table_set_lem assoc_laws small_table (int (pos 1)) (int (pos 40)) refl
      small_table-IsHashTable (omega arith)

hash_table_delete_example :
    Returns
      (λ ht. IsHashTable assoc_map ht × (entries assoc_map ht ≡ slot_of 1 20 ∷ []))
      (hash_table_delete assoc_map small_table (int (pos 2)))
unfolding live_slots
hash_table_delete_example =
    hash_table_delete_lem assoc_laws small_table (int (pos 2)) small_table-IsHashTable

abbrev empty_heap : Heap
empty_heap = record {
  next = 1;
  pairs = λ a. record { car = nil; cdr = nil };
  vectors = λ a. [];
  trees = λ a. empty_leaf;
  mutables = λ a. empty_leaf;
}

-- Table 0 is the small one.
abbrev small_state : State assoc_map
small_state = record { heap = empty_heap; tables = λ a. small_table }

abbrev no_apply : Value → State assoc_map → Result (Value × State assoc_map)
no_apply f s = fail (abort wrong_type)

bi_hash_table_ref_example :
    bi_hash_table_ref assoc_map no_apply (box hashtable 0 ∷ int (pos 7) ∷ []) small_state
    ≡ fail (abort key_not_found)
unfolding live_slots
bi_hash_table_ref_example =
    bi_hash_table_ref_lem assoc_laws no_apply 0 (int (pos 7)) small_state small_table-IsHashTable

abbrev AfterSet : Value × State assoc_map → Type 0
AfterSet r =
    IsHashTable assoc_map (State.tables r.1 0)
    × (State.heap r.1 ≡ empty_heap)
    × (State.tables r.1 ≡ update (λ a. small_table) 0 (State.tables r.1 0))
    × ((k' : Value)
        → bi_hash_table_ref assoc_map no_apply (box hashtable 0 ∷ k' ∷ []) r.1
          ≡ value_or_abort assoc_laws no_apply r.1 (
              if same (int (pos 1)) k'
              then some (int (pos 40))
              else assoc assoc_map k' (entries assoc_map small_table)))

bi_hash_table_set_example :
    Returns AfterSet
      (bi_hash_table_set assoc_map (box hashtable 0 ∷ int (pos 1) ∷ int (pos 40) ∷ []) small_state)
bi_hash_table_set_example =
    bi_hash_table_ref-bi_hash_table_set assoc_laws no_apply 0 (int (pos 1)) (int (pos 40))
      small_state refl small_table-IsHashTable (omega arith)
