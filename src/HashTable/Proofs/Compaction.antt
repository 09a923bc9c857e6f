-- ===== src/HashTable/Proofs/Compaction.antt =====
-- The well-formed tables of icecreme/hashtable.c, which compaction preserves.
use creme.Common.{
  ℕ, zero, suc, subst, ◌+◌, ◌*◌, ◌≤◌, ◌≡◌, ◌⊎◌, refl, sym, ap, ◌∙◌, inl, inr, true, ◌&&◌, none,
  some, List, [], ◌∷◌, length, get_elem?, leb, Bool-cases, Option-cases, Returns, arith,
}
use creme.HashTable.IndexMap.{IndexMap, IsIndexMap}
use creme.HashTable.Proofs.Entries.{
  assoc, points_at-some, points_at-index, live_slots-IsApart, live_slots-below, some-injective,
  assoc-live_slots,
}
use creme.HashTable.Proofs.Repoint.{
  place, get-repoint, place-slot, place-none, place-some, all_live,
}
use creme.HashTable.Table.{
  Slot, CremeHashTable, is_live, live_slots, repoint, ht_compact, ht_maybe_compact,
}
use creme.Value.{Value}

module _ (I : IndexMap) where
  -- The entries of a table, in the order of insertion.
  abbrev pub entries : CremeHashTable I → List Slot
  entries ht = live_slots I ht.map 0 ht.slots

  -- The map points into the slots, at an equal key; `n_live` counts the entries; the side arrays are
  -- not longer than they are allocated.
  pub record IsHashTable (ht : CremeHashTable I) : Type 0 where
    pub points :
        (k : Value) (x : ℕ)
        → I.get ht.map k ≡ some x
        → (i : ℕ) × (s : Slot) × (x ≡ suc i)
          × (get_elem? ht.slots i ≡ some s)
          × (I.equal s.key k ≡ true)
    pub counted : ht.n_live ≡ length (entries ht)
    pub room : length ht.slots ≤ ht.cap_values

  -- A table that is compacted or not has the same entries.
  abbrev pub IsCompactionOf : CremeHashTable I → CremeHashTable I → Type 0
  IsCompactionOf ht ht' =
      IsHashTable ht' × (entries ht' ≡ entries ht) × (ht'.cap_values ≤ ht.cap_values)

module _ {I : IndexMap} (laws : IsIndexMap I) where
  length-live_slots :
      (m : I.Map) (i : ℕ) (ss : List Slot) → length (live_slots I m i ss) ≤ length ss
  unfolding live_slots
  length-live_slots m i [] = omega arith
  length-live_slots m i (s ∷ ss) =
      let l = length-live_slots m (suc i) ss in
      elim (Bool-cases (is_live I m i s)) [
        | inl live ↦ rw live (omega arith)
        | inr dead ↦ rw dead (omega arith)
      ]

  -- The map has the key exactly where the entries have it.
  pub get-assoc :
      (ht : CremeHashTable I) (k : Value)
      → IsHashTable I ht
      → (I.get ht.map k ≡ none) × (assoc I k (entries I ht) ≡ none)
        ⊎ (i : ℕ) × (s : Slot) × (I.get ht.map k ≡ some (suc i))
          × (get_elem? ht.slots i ≡ some s)
          × (assoc I k (entries I ht) ≡ some s.value)
  get-assoc ht k w = elim (Option-cases (I.get ht.map k)) [
    | inl gone ↦
        inl
          (gone, live_slots-below laws ht.map k 0 ht.slots (λ j low e. absurd (cc (sym gone ∙ e))))
    | inr (x, found) ↦
        let (i, s, is_x, slot, same) = w.points k x found in
        let at : I.get ht.map k ≡ some (suc i) = found ∙ ap some is_x in
        let at' : I.get ht.map k ≡ some (suc (0 + i)) = at ∙ ap (λ n. some (suc n)) (omega arith) in
        inr (i, s, at, slot, assoc-live_slots laws ht.map k 0 i ht.slots s at' slot same)
  ]

  -- What a compaction makes of a table.
  abbrev compacted : CremeHashTable I → CremeHashTable I
  compacted ht = record {
    map = repoint I ht.map 0 (entries I ht);
    slots = entries I ht;
    cap_values = ht.n_live;
    n_live = length (entries I ht);
  }

  -- The map knows the key of every live slot.
  live_slots-known :
      (m : I.Map) (i j : ℕ) (ss : List Slot) (s : Slot)
      → get_elem? (live_slots I m i ss) j ≡ some s
      → (x : ℕ) × (I.get m s.key ≡ some x)
  unfolding live_slots
  live_slots-known m i j [] s at = absurd (cc at)
  live_slots-known m i zero (t ∷ ss) s at = elim (Bool-cases (is_live I m i t)) [
    | inl live ↦
        let is_s : t ≡ s = ap (λ o. elim o [ some x ↦ x | none ↦ t ]) (rw live at at) in
        (suc i, subst (λ u. I.get m u.key ≡ some (suc i)) is_s (points_at-some laws _ i live))
    | inr dead ↦ live_slots-known m (suc i) zero ss s (rw dead at at)
  ]
  live_slots-known m i (suc j) (t ∷ ss) s at = elim (Bool-cases (is_live I m i t)) [
    | inl live ↦ live_slots-known m (suc i) j ss s (rw live at at)
    | inr dead ↦ live_slots-known m (suc i) (suc j) ss s (rw dead at at)
  ]

  -- A key that the map knows is equal to itself.
  known_self :
      (ht : CremeHashTable I) (k : Value) {x : ℕ}
      → IsHashTable I ht
      → I.get ht.map k ≡ some x
      → I.equal k k ≡ true
  known_self ht k w e =
      let (i, s, is_x, slot, same) = w.points k _ e in
      sym (laws.equal_right s.key k k same) ∙ laws.equal_sym k s.key ∙ same

  entries-compacted :
      (ht : CremeHashTable I) → IsHashTable I ht → entries I (compacted ht) ≡ entries I ht
  entries-compacted ht w =
      let live = entries I ht in
      all_live laws (repoint I ht.map 0 live) 0 live (λ j s at.
        rw
          (
            get-repoint laws ht.map s.key 0 live,
            place-slot laws 0 j live s (live_slots-IsApart laws ht.map 0 ht.slots)
                (known_self ht s.key w ((live_slots-known ht.map 0 j ht.slots s at).1)) at,
          )
          (points_at-index laws (0 + j)))

  compacted-IsHashTable : (ht : CremeHashTable I) → IsHashTable I ht → IsHashTable I (compacted ht)
  compacted-IsHashTable ht w =
      let live = entries I ht in
      record {
        points = λ k x e.
            let e' = sym (get-repoint laws ht.map k 0 live) ∙ e in
            elim (Option-cases (place I k 0 live)) [
              | inl gone ↦ elim (get-assoc ht k w) [
                | inl (unknown, absent) ↦ absurd (cc (sym unknown ∙ (rw gone at e')))
                | inr (i, s, at, slot, found) ↦
                    absurd (cc (sym (place-none laws k 0 live gone) ∙ found))
              ]
              | inr (y, found) ↦
                  let is_x : y ≡ x = some-injective laws (rw found at e') in
                  let (j, s, is_y, slot, same) = place-some laws k 0 y live found in
                  (j, s, omega arith, slot, same)
            ];
        counted = sym (ap length (entries-compacted ht w));
        room = omega (arith, w.counted);
      }

  ht_compact_lem :
      (ht : CremeHashTable I) → IsHashTable I ht → Returns (IsCompactionOf I ht) (ht_compact I ht)
  unfolding ht_compact
  ht_compact_lem ht w =
      let fits : leb (length (entries I ht)) ht.n_live ≡ true = let c = w.counted in grind arith in
      let short = length-live_slots ht.map 0 ht.slots in
      rw fits (
        compacted ht,
        refl,
        (compacted-IsHashTable ht w, entries-compacted ht w, omega (arith, w.room, w.counted)),
      )

  pub ht_maybe_compact_lem :
      (ht : CremeHashTable I)
      → IsHashTable I ht
      → Returns (IsCompactionOf I ht) (ht_maybe_compact I ht)
  unfolding ht_maybe_compact
  ht_maybe_compact_lem ht w =
      elim (Bool-cases (leb 16 (length ht.slots) && leb (2 * ht.n_live) (length ht.slots))) [
        | inl due ↦ rw due (ht_compact_lem ht w)
        | inr early ↦ rw early (ht, refl, (w, refl, omega arith))
      ]
