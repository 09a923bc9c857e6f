-- ===== src/HashTable/Proofs/Repoint.antt =====
-- The map after the loop of `ht_compact` that repoints it at the new indices.
use creme.Common.{
  ℕ, zero, suc, ◌+◌, ◌≡◌, refl, sym, ap, ◌∙◌, subst, inl, inr, true, Option, none, some, List, [],
  ◌∷◌, get_elem?, Bool-cases, Option-cases, if◌then◌else◌, arith,
}
use creme.HashTable.IndexMap.{IndexMap, IsIndexMap}
use creme.HashTable.Proofs.Entries.{assoc, IsApart, some-injective}
use creme.HashTable.Table.{Slot, is_live, live_slots, repoint}
use creme.Value.{Value}

module _ (I : IndexMap) where
  abbrev if_none : Option ℕ → Option ℕ → Option ℕ
  if_none none o = o
  if_none (some x) o = some x

  -- The index plus one of the last slot with an equal key.
  abbrev pub place : Value → ℕ → List Slot → Option ℕ
  place k i [] = none
  place k i (s ∷ ss) = if_none (place k (suc i) ss) (if I.equal s.key k then some (suc i) else none)

module _ {I : IndexMap} (laws : IsIndexMap I) where
  if_none_assoc : (a b c : Option ℕ) → if_none I (if_none I a b) c ≡ if_none I a (if_none I b c)
  if_none_assoc none b c = refl
  if_none_assoc (some x) b c = refl

  -- A lookup finds the last slot with the key, and what the map held where there is none.
  pub get-repoint :
      (m : I.Map) (k : Value) (i : ℕ) (ss : List Slot)
      → I.get (repoint I m i ss) k ≡ if_none I (place I k i ss) (I.get m k)
  unfolding repoint
  get-repoint m k i [] = refl
  get-repoint m k i (s ∷ ss) =
      let rest = place I k (suc i) ss in
      get-repoint (I.insert m s.key (suc i)) k (suc i) ss ∙ elim (Bool-cases (I.equal s.key k)) [
        | inl same ↦
            rw (same, laws.get-insert m s.key k (suc i) same)
              (sym (if_none_assoc rest (some (suc i)) (I.get m k)))
        | inr other ↦
            rw (other, laws.get-insert_other m s.key k (suc i) other)
              (sym (if_none_assoc rest none (I.get m k)))
      ]

  place-absent : (k : Value) (i : ℕ) (ss : List Slot) → assoc I k ss ≡ none → place I k i ss ≡ none
  place-absent k i [] e = refl
  place-absent k i (s ∷ ss) e = elim (Bool-cases (I.equal s.key k)) [
    | inl same ↦ absurd (cc (rw same at e))
    | inr other ↦ rw (other, place-absent k (suc i) ss (rw other at e)) refl
  ]

  -- With keys apart the place of a key is where its slot is.
  pub place-slot :
      (i j : ℕ) (ss : List Slot) (s : Slot)
      → IsApart I ss
      → I.equal s.key s.key ≡ true
      → get_elem? ss j ≡ some s
      → place I s.key i ss ≡ some (suc (i + j))
  place-slot i j [] s apart self at = absurd (cc at)
  place-slot i zero (t ∷ ss) s (here, apart) self at =
      let is_s : t ≡ s = ap (λ o. elim o [ some x ↦ x | none ↦ t ]) at in
      let here' = subst (λ u. assoc I u.key ss ≡ none) is_s here in
      rw (is_s, place-absent s.key (suc i) ss here', self) (ap (λ n. some (suc n)) (omega arith))
  place-slot i (suc j) (t ∷ ss) s (here, apart) self at =
      rw (place-slot (suc i) j ss s apart self at) (ap (λ n. some (suc n)) (omega arith))

  pub place-none :
      (k : Value) (i : ℕ) (ss : List Slot) → place I k i ss ≡ none → assoc I k ss ≡ none
  place-none k i [] e = refl
  place-none k i (s ∷ ss) e = elim (Option-cases (place I k (suc i) ss)) [
    | inl gone ↦ elim (Bool-cases (I.equal s.key k)) [
      | inl same ↦ absurd (cc (rw (gone, same) at e))
      | inr other ↦ rw other (place-none k (suc i) ss gone)
    ]
    | inr (x, found) ↦ absurd (cc (rw found at e))
  ]

  -- What stands at a place.
  pub place-some :
      (k : Value) (i x : ℕ) (ss : List Slot)
      → place I k i ss ≡ some x
      → (j : ℕ) × (s : Slot) × (x ≡ suc (i + j))
        × (get_elem? ss j ≡ some s)
        × (I.equal s.key k ≡ true)
  place-some k i x [] e = absurd (cc e)
  place-some k i x (s ∷ ss) e = elim (Option-cases (place I k (suc i) ss)) [
    | inl gone ↦ elim (Bool-cases (I.equal s.key k)) [
      | inl same ↦
          let here : suc i ≡ x = some-injective laws (rw (gone, same) at e) in
          (0, s, omega arith, refl, same)
      | inr other ↦ absurd (cc (rw (gone, other) at e))
    ]
    | inr (y, found) ↦
        let same_place : y ≡ x = some-injective laws (rw found at e) in
        let (j, t, at_j, slot, same) = place-some k (suc i) y ss found in
        (suc j, t, omega arith, slot, same)
  ]

  -- Slots that the map points at are all live.
  pub all_live :
      (m : I.Map) (i : ℕ) (ss : List Slot)
      → ((j : ℕ) (s : Slot) → get_elem? ss j ≡ some s → is_live I m (i + j) s ≡ true)
      → live_slots I m i ss ≡ ss
  unfolding live_slots
  all_live m i [] h = refl
  all_live m i (s ∷ ss) h =
      let here : is_live I m i s ≡ true =
        subst (λ n. is_live I m n s ≡ true) (omega arith) (h 0 s refl) in
      let rest =
        all_live m (suc i) ss
          (λ j t at. subst (λ n. is_live I m n t ≡ true) (omega arith) (h (suc j) t at)) in
      rw here (ap (λ r. s ∷ r) rest)
