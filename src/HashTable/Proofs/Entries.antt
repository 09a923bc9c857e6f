-- ===== src/HashTable/Proofs/Entries.antt =====
-- The live slots of a table, as an association list.
use creme.Common.{
  ℕ, zero, suc, ◌+◌, ◌≤◌, ◌<◌, ◌≡◌, refl, sym, ap, ◌∙◌, subst, inl, inr, true, false, Option, none,
  some, List, [], ◌∷◌, ◌++◌, length, get_elem?, Bool-cases, if◌then◌else◌, arith,
}
use creme.HashTable.IndexMap.{IndexMap, IsIndexMap}
use creme.HashTable.Table.{Slot, points_at, is_live, live_slots}
use creme.Value.{Value}

module _ (I : IndexMap) where
  -- The value of the first entry whose key is equal.
  abbrev pub assoc : Value → List Slot → Option Value
  assoc k [] = none
  assoc k (s ∷ ss) = let rest = assoc k ss in if I.equal s.key k then some s.value else rest

  -- The entries whose keys are not equal.
  abbrev pub without : Value → List Slot → List Slot
  without k [] = []
  without k (s ∷ ss) = let rest = without k ss in if I.equal s.key k then rest else s ∷ rest

  -- No two entries have equal keys.
  abbrev pub IsApart : List Slot → Type 0
  IsApart [] = Unit
  IsApart (s ∷ ss) = (assoc s.key ss ≡ none) × IsApart ss

module _ {I : IndexMap} (laws : IsIndexMap I) where
  pub points_at-some : (o : Option ℕ) (i : ℕ) → points_at I o i ≡ true → o ≡ some (suc i)
  points_at-some none i e = absurd (cc e)
  points_at-some (some val) i e = let same : val ≡ suc i = ground arith in ap some same

  pub points_at-index : (i : ℕ) → points_at I (some (suc i)) i ≡ true
  points_at-index i = ground arith

  -- A key whose index is below the slots from `i` on has no live slot there.
  pub live_slots-below :
      (m : I.Map) (k : Value) (i : ℕ) (ss : List Slot)
      → ((j : ℕ) → i ≤ j → I.get m k ≡ some (suc j) → ⊥)
      → assoc I k (live_slots I m i ss) ≡ none
  unfolding live_slots
  live_slots-below m k i [] h = refl
  live_slots-below m k i (s ∷ ss) h =
      let rest = live_slots-below m k (suc i) ss (λ j below. h j (omega arith)) in
      elim (Bool-cases (is_live I m i s)) [
        | inl live ↦ elim (Bool-cases (I.equal s.key k)) [
          | inl same ↦ absurd (
              h i (omega arith)
                (sym (laws.get-equal m s.key k same) ∙ points_at-some (I.get m s.key) i live))
          | inr other ↦ rw (live, other) rest
        ]
        | inr dead ↦ rw dead rest
      ]

  pub some-injective : {a b : ℕ} → Path (Option ℕ) (some a) (some b) → a ≡ b
  some-injective {a} e = ap (λ o. elim o [ some x ↦ x | none ↦ a ]) e

  pub live_slots-IsApart : (m : I.Map) (i : ℕ) (ss : List Slot) → IsApart I (live_slots I m i ss)
  unfolding live_slots
  live_slots-IsApart m i [] = tt
  live_slots-IsApart m i (s ∷ ss) = elim (Bool-cases (is_live I m i s)) [
    | inl live ↦
        let here = points_at-some (I.get m s.key) i live in
        rw live (
          live_slots-below m s.key (suc i) ss
              (λ j above e. absurd (omega (arith, some-injective (sym here ∙ e)))),
          live_slots-IsApart m (suc i) ss,
        )
    | inr dead ↦ rw dead (live_slots-IsApart m (suc i) ss)
  ]

  -- The slot that the map points at is the live one of its key.
  pub assoc-live_slots :
      (m : I.Map) (k : Value) (i j : ℕ) (ss : List Slot) (s : Slot)
      → I.get m k ≡ some (suc (i + j))
      → get_elem? ss j ≡ some s
      → I.equal s.key k ≡ true
      → assoc I k (live_slots I m i ss) ≡ some s.value
  unfolding live_slots
  assoc-live_slots m k i j [] s e at same = absurd (cc at)
  assoc-live_slots m k i zero (t ∷ ss) s e at same =
      let is_s : t ≡ s = ap (λ o. elim o [ some x ↦ x | none ↦ t ]) at in
      let here : I.get m s.key ≡ some (suc i) =
        laws.get-equal m s.key k same ∙ e ∙ ap (λ n. some (suc n)) (omega arith) in
      rw (is_s, here, points_at-index i, same) refl
  assoc-live_slots m k i (suc j) (t ∷ ss) s e at same =
      let rest =
        assoc-live_slots m k (suc i) j ss s (e ∙ ap (λ n. some (suc n)) (omega arith)) at same in
      elim (Bool-cases (is_live I m i t)) [
        | inl live ↦ elim (Bool-cases (I.equal t.key k)) [
          | inl same' ↦ absurd (
              omega (
                arith,
                some-injective (
                    sym (points_at-some (I.get m t.key) i live)
                    ∙ laws.get-equal m t.key k same'
                    ∙ e),
              ))
          | inr other ↦ rw (live, other) rest
        ]
        | inr dead ↦ rw dead rest
      ]

  assoc-equal : (a b : Value) (ss : List Slot) → I.equal a b ≡ true → assoc I a ss ≡ assoc I b ss
  assoc-equal a b [] e = refl
  assoc-equal a b (s ∷ ss) e = rw (laws.equal_right a b s.key e, assoc-equal a b ss e) refl

  pub without-absent : (k : Value) (ss : List Slot) → assoc I k ss ≡ none → without I k ss ≡ ss
  without-absent k [] e = refl
  without-absent k (s ∷ ss) e = elim (Bool-cases (I.equal s.key k)) [
    | inl same ↦ absurd (cc (rw same at e))
    | inr other ↦ rw other (ap (λ r. s ∷ r) (without-absent k ss (rw other at e)))
  ]

  pub length-without :
      (k : Value) (ss : List Slot) {v : Value}
      → IsApart I ss
      → assoc I k ss ≡ some v
      → suc (length (without I k ss)) ≡ length ss
  length-without k [] apart e = absurd (cc e)
  length-without k (s ∷ ss) (here, apart) e = elim (Bool-cases (I.equal s.key k)) [
    | inl same ↦
        rw same (
          ap (λ r. suc (length r)) (without-absent k ss (sym (assoc-equal s.key k ss same) ∙ here)))
    | inr other ↦ rw other (ap suc (length-without k ss apart (rw other at e)))
  ]

  -- The live slots of a map that has lost the key `k`.
  pub live_slots-without :
      (m m' : I.Map) (k : Value) (i n : ℕ) (ss : List Slot)
      → ((k' : Value) (j : ℕ) → j < n → I.equal k k' ≡ true → points_at I (I.get m' k') j ≡ false)
      → ((k' : Value) → I.equal k k' ≡ false → I.get m' k' ≡ I.get m k')
      → i + length ss ≤ n
      → live_slots I m' i ss ≡ without I k (live_slots I m i ss)
  unfolding live_slots
  live_slots-without m m' k i n [] gone kept fits = refl
  live_slots-without m m' k i n (s ∷ ss) gone kept fits =
      let rest = live_slots-without m m' k (suc i) n ss gone kept (omega arith) in
      elim (Bool-cases (I.equal k s.key)) [
        | inl same ↦
            let same' = laws.equal_sym s.key k ∙ same in
            rw (gone s.key i (omega arith) same) (elim (Bool-cases (is_live I m i s)) [
              | inl live ↦ rw (live, same') rest
              | inr dead ↦ rw dead rest
            ])
        | inr other ↦
            let other' = laws.equal_sym s.key k ∙ other in
            rw (kept s.key other) (elim (Bool-cases (is_live I m i s)) [
              | inl live ↦ rw (live, other') (ap (λ r. s ∷ r) rest)
              | inr dead ↦ rw dead rest
            ])
      ]

  pub live_slots-append :
      (m : I.Map) (i : ℕ) (ss : List Slot) (s : Slot)
      → is_live I m (i + length ss) s ≡ true
      → live_slots I m i (ss ++ (s ∷ [])) ≡ live_slots I m i ss ++ (s ∷ [])
  unfolding live_slots
  live_slots-append m i [] s e =
      let e' : is_live I m i s ≡ true = subst (λ n. is_live I m n s ≡ true) (omega arith) e in
      rw e' refl
  live_slots-append m i (t ∷ ss) s e =
      let rest =
        live_slots-append m (suc i) ss s (subst (λ n. is_live I m n s ≡ true) (omega arith) e) in
      elim (Bool-cases (is_live I m i t)) [
        | inl live ↦ rw live (ap (λ r. t ∷ r) rest)
        | inr dead ↦ rw dead rest
      ]
