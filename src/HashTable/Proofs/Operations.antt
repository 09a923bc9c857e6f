-- ===== src/HashTable/Proofs/Operations.antt =====
-- The operations of icecreme/hashtable.c on the entries of a table.
use creme.Common.{
  ℕ, zero, suc, ◌+◌, ◌-◌, ◌*◌, ◌≤◌, ◌<◌, ◌≡◌, refl, sym, ap, ◌∙◌, inl, inr, true, false, not, some,
  List, [], ◌∷◌, ◌++◌, length, length-append, get_elem?, leb, lt→ltb, ◌==◌, Bool-cases, ok, Returns,
  if◌then◌else◌, arith,
}
use creme.HashTable.IndexMap.{IndexMap, IsIndexMap}
use creme.HashTable.Proofs.Entries.{
  assoc, without, points_at-index, live_slots-IsApart, some-injective, without-absent,
  length-without, live_slots-without, live_slots-append,
}
use creme.HashTable.Table.{
  Slot, CremeHashTable, int_max, value_at, points_at, is_end, live_slots, grown_cap, hash_table_set,
  hash_table_lookup, hash_table_delete, make_hash_table,
}
use creme.Value.{Value}
use creme.HashTable.Proofs.Compaction.{entries, IsHashTable, get-assoc, ht_maybe_compact_lem}

module _ {I : IndexMap} (laws : IsIndexMap I) where
  -- In a well-formed table a lookup never leaves the side arrays, and finds the value that the
  -- list of live entries has for the key, or nothing where it has none.
  pub hash_table_lookup_lem :
      (ht : CremeHashTable I) (k : Value)
      → IsHashTable I ht
      → hash_table_lookup I ht k ≡ ok (assoc I k (entries I ht))
  unfolding hash_table_lookup
  hash_table_lookup_lem ht k w = elim (get-assoc laws ht k w) [
    | inl (gone, absent) ↦ rw (gone, hash_table_lookup, absent) refl
    | inr (i, s, at, slot, found) ↦ rw (at, hash_table_lookup, value_at, slot, found) refl
  ]

  grown_cap_lem :
      (n cap : ℕ) → n ≤ cap → cap < 1073741824 → Returns (λ c. n < c) (grown_cap I n cap)
  unfolding grown_cap
  grown_cap_lem n zero room small = elim (Bool-cases (leb 0 n)) [
    | inl full ↦ rw full (8, refl, omega arith)
    | inr free ↦ rw free (0, refl, ground arith)
  ]
  grown_cap_lem n (suc cap) room small =
      let some_cap : (suc cap == 0) ≡ false = ground arith in
      let fits : leb (suc cap * 2) int_max ≡ true = ground arith in
      elim (Bool-cases (leb (suc cap) n)) [
        | inl full ↦ rw (full, some_cap, fits) (suc cap * 2, refl, omega arith)
        | inr free ↦ rw free (suc cap, refl, ground arith)
      ]

  get_elem?-last : (ss : List Slot) (s : Slot) → get_elem? (ss ++ (s ∷ [])) (length ss) ≡ some s
  get_elem?-last [] s = refl
  get_elem?-last (t ∷ ss) s = get_elem?-last ss s

  get_elem?-front :
      (ss : List Slot) (i : ℕ) (s t : Slot)
      → get_elem? ss i ≡ some s
      → get_elem? (ss ++ (t ∷ [])) i ≡ some s
  get_elem?-front [] i s t e = absurd (cc e)
  get_elem?-front (u ∷ ss) zero s t e = e
  get_elem?-front (u ∷ ss) (suc i) s t e = get_elem?-front ss i s t e

  -- `hash_table_set` behind the compaction.
  abbrev entry : Value → Value → Slot
  entry k v = record { key = k; value = v }

  abbrev with_entry : CremeHashTable I → Value → Value → ℕ → CremeHashTable I
  with_entry ht k v cap = record {
    map = I.insert ht.map k (suc (length ht.slots));
    slots = ht.slots ++ (entry k v ∷ []);
    cap_values = cap;
    n_live = (if not (is_end I (I.get ht.map k)) then ht.n_live else suc ht.n_live);
  }

  entries-with_entry :
      (ht : CremeHashTable I) (k v : Value) (cap : ℕ)
      → I.equal k k ≡ true
      → entries I (with_entry ht k v cap) ≡ without I k (entries I ht) ++ (entry k v ∷ [])
  entries-with_entry ht k v cap self =
      let n = length ht.slots in
      let m = I.insert ht.map k (suc n) in
      let here : points_at I (I.get m k) (0 + n) ≡ true =
        ap (λ o. points_at I o (0 + n)) (laws.get-insert ht.map k k (suc n) self)
        ∙ ap (λ i. points_at I (some (suc n)) i) (omega arith)
        ∙ points_at-index laws n in
      live_slots-append laws m 0 ht.slots (entry k v) here
      ∙ ap (λ ss. ss ++ (entry k v ∷ []))
          (live_slots-without laws ht.map m k 0 n ht.slots
            (λ k' j below same. rw (laws.get-insert ht.map k k' (suc n) same) (ground arith))
            (λ k' other. laws.get-insert_other ht.map k k' (suc n) other) (omega arith))

  with_entry-counted :
      (ht : CremeHashTable I) (k v : Value) (cap : ℕ)
      → IsHashTable I ht
      → CremeHashTable.n_live (with_entry ht k v cap) ≡ suc (length (without I k (entries I ht)))
  with_entry-counted ht k v cap w = elim (get-assoc laws ht k w) [
    | inl (gone, absent) ↦ rw (gone, without-absent laws k (entries I ht) absent) (ap suc w.counted)
    | inr (i, s, at, slot, found) ↦
        rw
          (
            at,
            length-without laws k (entries I ht) (live_slots-IsApart laws ht.map 0 ht.slots) found,
          )
          w.counted
  ]

  with_entry-IsHashTable :
      (ht : CremeHashTable I) (k v : Value) (cap : ℕ)
      → I.equal k k ≡ true
      → IsHashTable I ht
      → length ht.slots < cap
      → IsHashTable I (with_entry ht k v cap)
  with_entry-IsHashTable ht k v cap self w room =
      let n = length ht.slots in
      record {
        points = λ k' x e. elim (Bool-cases (I.equal k k')) [
          | inl same ↦
              let is_x = some-injective laws (sym (laws.get-insert ht.map k k' (suc n) same) ∙ e) in
              (n, entry k v, sym is_x, get_elem?-last ht.slots (entry k v), same)
          | inr other ↦
              let (i, s, is_x, at, same) =
                w.points k' x (sym (laws.get-insert_other ht.map k k' (suc n) other) ∙ e) in
              (i, s, is_x, get_elem?-front ht.slots i s (entry k v) at, same)
        ];
        counted = omega (
          arith,
          with_entry-counted ht k v cap w,
          ap length (entries-with_entry ht k v cap self),
          length-append (without I k (entries I ht)) (entry k v ∷ []),
        );
        room = omega (arith, length-append ht.slots (entry k v ∷ []));
      }

  -- Setting a key that is equal to itself in a well-formed table whose side arrays are below 2 ^
  -- 30 slots returns a well-formed table, compacted or not, whose entries are the old ones without
  -- those of an equal key, in their order, and then the new one.
  pub hash_table_set_lem :
      (ht : CremeHashTable I) (k v : Value)
      → I.equal k k ≡ true
      → IsHashTable I ht
      → ht.cap_values < 1073741824
      → Returns
          (λ ht'.
            IsHashTable I ht'
            × (entries I ht' ≡ without I k (entries I ht) ++ (record { key = k; value = v } ∷ [])))
          (hash_table_set I ht k v)
  unfolding hash_table_set
  hash_table_set_lem ht k v self w small =
      let (ht', e, (w', same, less)) = ht_maybe_compact_lem laws ht w in
      let (c, e', room) = grown_cap_lem (length ht'.slots) ht'.cap_values w'.room (omega arith) in
      rw (e, hash_table_set, e', lt→ltb (length ht'.slots) c room)
        (
          with_entry ht' k v c,
          refl,
          (
            with_entry-IsHashTable ht' k v c self w' room,
            entries-with_entry ht' k v c self ∙ ap (λ ss. without I k ss ++ (entry k v ∷ [])) same,
          ),
        )

  -- `hash_table_delete` of a key that is there, before the compaction.
  abbrev erased : CremeHashTable I → Value → CremeHashTable I
  erased ht k = record ht { map = I.erase ht.map k; n_live = ht.n_live - 1 }

  entries-erased :
      (ht : CremeHashTable I) (k : Value) → entries I (erased ht k) ≡ without I k (entries I ht)
  entries-erased ht k =
      live_slots-without laws ht.map (I.erase ht.map k) k 0 (length ht.slots) ht.slots
        (λ k' j below same. rw (laws.get-erase ht.map k k' same) refl)
        (λ k' other. laws.get-erase_other ht.map k k' other) (omega arith)

  erased-IsHashTable :
      (ht : CremeHashTable I) (k : Value) {v : Value}
      → IsHashTable I ht
      → assoc I k (entries I ht) ≡ some v
      → IsHashTable I (erased ht k)
  erased-IsHashTable ht k w found = record {
    points = λ k' x e. elim (Bool-cases (I.equal k k')) [
      | inl same ↦ absurd (cc (sym (laws.get-erase ht.map k k' same) ∙ e))
      | inr other ↦ w.points k' x (sym (laws.get-erase_other ht.map k k' other) ∙ e)
    ];
    counted = omega (
      arith,
      w.counted,
      ap length (entries-erased ht k),
      length-without laws k (entries I ht) (live_slots-IsApart laws ht.map 0 ht.slots) found,
    );
    room = w.room;
  }

  -- Deleting a key of a well-formed table returns a well-formed table, compacted or not, with the
  -- entries whose keys are not equal to it, in their order.
  pub hash_table_delete_lem :
      (ht : CremeHashTable I) (k : Value)
      → IsHashTable I ht
      → Returns
          (λ ht'. IsHashTable I ht' × (entries I ht' ≡ without I k (entries I ht)))
          (hash_table_delete I ht k)
  unfolding hash_table_delete
  hash_table_delete_lem ht k w = elim (get-assoc laws ht k w) [
    | inl (gone, absent) ↦
        rw gone (ht, refl, (w, sym (without-absent laws k (entries I ht) absent)))
    | inr (i, s, at, slot, found) ↦
        let (ht', e, (w', same, less)) =
          ht_maybe_compact_lem laws (erased ht k) (erased-IsHashTable ht k w found) in
        rw (at, hash_table_delete, e) (ht', refl, (w', same ∙ entries-erased ht k))
  ]

  -- A new table has no entries.
  make_hash_table-IsHashTable : IsHashTable I (make_hash_table I)
  unfolding make_hash_table live_slots
  make_hash_table-IsHashTable = record {
    points = λ k x e. absurd (cc (sym (laws.get-init k) ∙ e));
    counted = refl;
    room = omega arith;
  }
