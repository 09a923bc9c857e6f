-- ===== src/HashTable/Proofs/Builtins.antt =====
-- What the hash table builtins of icecreme/hashtable.c return.
use creme.Common.{
  ℕ, ◌<◌, ◌≡◌, refl, sym, ap, ◌∙◌, subst, none, some, List, [], ◌∷◌, ◌++◌, ok, fail, abort,
  key_not_found, Result, Returns, ◌==◌, Option, Bool-cases, inl, inr, true, false, arith,
  if◌then◌else◌,
}
use creme.HashTable.Builtins.{State, bi_hash_table_set, bi_hash_table_ref, found_or}
use creme.HashTable.IndexMap.{IndexMap, IsIndexMap}
use creme.HashTable.Proofs.Entries.{assoc, without}
use creme.HashTable.Proofs.Compaction.{entries, IsHashTable}
use creme.HashTable.Proofs.Operations.{hash_table_lookup_lem, hash_table_set_lem}
use creme.HashTable.Table.{Slot, CremeHashTable}
use creme.Value.{Value, nil, box, hashtable, update}

module _ {I : IndexMap} (laws : IsIndexMap I) where
  -- The value of a key after another entry was set.
  assoc-set :
      (k v k' : Value) (ss : List Slot)
      → assoc I k' (without I k ss ++ (record { key = k; value = v } ∷ []))
        ≡ (if I.equal k k' then some v else assoc I k' ss)
  assoc-set k v k' [] = refl
  assoc-set k v k' (s ∷ ss) =
      let rest = assoc-set k v k' ss in
      elim (Bool-cases (I.equal s.key k)) [
        | inl same ↦ elim (Bool-cases (I.equal k k')) [
          | inl hit ↦ rw (same, hit) (rw hit at rest)
          | inr miss ↦
              let other : I.equal s.key k' ≡ false =
                laws.equal_sym s.key k'
                ∙ laws.equal_right s.key k k' same
                ∙ laws.equal_sym k' k
                ∙ miss in
              rw (same, miss, other) (rw miss at rest)
        ]
        | inr differ ↦ elim (Bool-cases (I.equal k k')) [
          | inl hit ↦
              let other : I.equal s.key k' ≡ false =
                sym (laws.equal_right k k' s.key hit) ∙ differ in
              rw (differ, hit, other) (rw hit at rest)
          | inr miss ↦
              rw (differ, miss)
                (ap (λ o. if I.equal s.key k' then some s.value else o) (rw miss at rest))
        ]
      ]

  module _ (apply : Value → State I → Result (Value × State I)) where
    -- The result of a lookup with no default.
    abbrev pub value_or_abort : State I → Option Value → Result (Value × State I)
    value_or_abort s none = fail (abort key_not_found)
    value_or_abort s (some v) = ok (v, s)

    found_or_lem : (o : Option Value) (s : State I) → found_or I apply o none s ≡ value_or_abort s o
    found_or_lem none s = refl
    found_or_lem (some v) s = refl

    -- hash-table-ref with no default on a well-formed table returns the value of the entry of the
    -- key and changes nothing, and aborts with the error for a missing key exactly when there is
    -- no such entry.
    pub bi_hash_table_ref_lem :
        (a : ℕ) (k : Value) (s : State I)
        → IsHashTable I (s.tables a)
        → bi_hash_table_ref I apply (box hashtable a ∷ k ∷ []) s
          ≡ value_or_abort s (assoc I k (entries I (s.tables a)))
    unfolding bi_hash_table_ref
    bi_hash_table_ref_lem a k s w =
        rw (hash_table_lookup_lem laws (s.tables a) k w)
          (found_or_lem (assoc I k (entries I (s.tables a))) s)

    -- After hash-table-set! with a key that is equal to itself, on a well-formed table whose side
    -- arrays are below 2 ^ 30 slots, hash-table-ref returns the new value for every key equal to
    -- the one set and what the entries held before for every other key; the heap and the other
    -- tables are as they were.
    pub bi_hash_table_ref-bi_hash_table_set :
        (a : ℕ) (k v : Value) (s : State I)
        → I.equal k k ≡ true
        → IsHashTable I (s.tables a)
        → CremeHashTable.cap_values (s.tables a) < 1073741824
        → Returns
            (λ r.
              IsHashTable I (State.tables r.1 a)
              × (State.heap r.1 ≡ s.heap)
              × (State.tables r.1 ≡ update s.tables a (State.tables r.1 a))
              × ((k' : Value)
                  → bi_hash_table_ref I apply (box hashtable a ∷ k' ∷ []) r.1
                    ≡ value_or_abort r.1
                        (if I.equal k k' then some v else assoc I k' (entries I (s.tables a)))))
            (bi_hash_table_set I (box hashtable a ∷ k ∷ v ∷ []) s)
    unfolding bi_hash_table_set
    bi_hash_table_ref-bi_hash_table_set a k v s self w small =
        let (ht', e, (w', set)) = hash_table_set_lem laws (s.tables a) k v self w small in
        let q : (a == a) ≡ true = ground arith in
        let s' : State I = record s { tables = update s.tables a ht' } in
        let here : State.tables s' a ≡ ht' = rw q refl in
        rw e (
          (nil, s'),
          refl,
          (
            subst (IsHashTable I) (sym here) w',
            refl,
            ap (update s.tables a) (sym here),
            λ k'.
                bi_hash_table_ref_lem a k' s' (subst (IsHashTable I) (sym here) w')
                ∙ ap (λ t. value_or_abort s' (assoc I k' (entries I t))) here
                ∙ ap (λ ss. value_or_abort s' (assoc I k' ss)) set
                ∙ ap (value_or_abort s') (assoc-set k v k' (entries I (s.tables a))),
          ),
        )
