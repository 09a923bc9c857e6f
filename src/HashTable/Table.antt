-- ===== src/HashTable/Table.antt =====
-- The hash table of icecreme/hashtable.c: the index map and the side arrays.
use creme.Common.{
  ℕ, zero, suc, ◌-◌, ◌*◌, Bool, true, false, not, ◌&&◌, Option, none, some, List, [], ◌∷◌, ◌++◌,
  map, Result, ok, fail, ◌>>=◌, ◌>>◌, require, bad_access, too_large, length, get_elem?, leb, ltb,
  ◌==◌, if◌then◌else◌,
}
use creme.HashTable.IndexMap.{IndexMap}
use creme.Value.{Value}

-- `keys[i]` and `values[i]`.
pub record Slot : Type 0 where
  pub key : Value
  pub value : Value

abbrev pub int_max : ℕ
int_max = 2147483647

module _ (I : IndexMap) where
  -- `n_values` is the length of the slots.
  pub record CremeHashTable : Type 0 where
    pub map : I.Map
    pub slots : List Slot
    pub cap_values : ℕ
    pub n_live : ℕ

  unfoldable pub make_hash_table : CremeHashTable
  make_hash_table = record { map = I.init; slots = []; cap_values = 0; n_live = 0 }

  abbrev pub points_at : Option ℕ → ℕ → Bool
  points_at none i = false
  points_at (some val) i = val == suc i

  -- Whether the map points at the slot; `val` is an index plus one.
  abbrev pub is_live : I.Map → ℕ → Slot → Bool
  is_live m i slot = points_at (I.get m slot.key) i

  -- The loop over the slots from `i` on that skips those overwritten or deleted.
  unfoldable pub live_slots : I.Map → ℕ → List Slot → List Slot
  live_slots m i [] = []
  live_slots m i (slot ∷ slots) =
      let rest = live_slots m (suc i) slots in if is_live m i slot then slot ∷ rest else rest

  -- The loop that repoints the map at the new indices, from `i` on.
  unfoldable pub repoint : I.Map → ℕ → List Slot → I.Map
  repoint m i [] = m
  repoint m i (slot ∷ slots) = repoint (I.insert m slot.key (suc i)) (suc i) slots

  -- `nk` and `nv` have room for `n_live` entries.
  unfoldable pub ht_compact : CremeHashTable → Result CremeHashTable
  ht_compact ht =
      let live = live_slots ht.map 0 ht.slots in
      if leb (length live) ht.n_live
      then ok (record {
        map = repoint ht.map 0 live;
        slots = live;
        cap_values = ht.n_live;
        n_live = length live;
      })
      else fail bad_access

  unfoldable pub ht_maybe_compact : CremeHashTable → Result CremeHashTable
  ht_maybe_compact ht =
      if leb 16 (length ht.slots) && leb (2 * ht.n_live) (length ht.slots)
      then ht_compact ht
      else ok ht

  abbrev pub is_end : Option ℕ → Bool
  is_end none = true
  is_end (some val) = false

  -- The growth of the side arrays.
  unfoldable pub grown_cap : ℕ → ℕ → Result ℕ
  grown_cap n_values cap =
      let newcap = if cap == 0 then 8 else cap * 2 in
      if leb cap n_values then (do require (leb newcap int_max) too_large; ok newcap) else ok cap

  -- A write at `idx` of the side arrays.
  abbrev pub require_room : Bool → Result (Unit {0})
  require_room true = ok tt
  require_room false = fail bad_access

  unfoldable pub hash_table_set : CremeHashTable → Value → Value → Result CremeHashTable
  hash_table_set ht key value = do
    ht' ← ht_maybe_compact ht
    let existed = not (is_end (I.get ht'.map key))
    let idx = length ht'.slots
    cap ← grown_cap idx ht'.cap_values
    require_room (ltb idx cap)
    ok (record {
      map = I.insert ht'.map key (suc idx);
      slots = ht'.slots ++ (record { key = key; value = value } ∷ []);
      cap_values = cap;
      n_live = (if existed then ht'.n_live else suc ht'.n_live);
    })

  -- `values[val - 1]`
  abbrev pub value_at : List Slot → ℕ → Result Value
  value_at slots zero = fail bad_access
  value_at slots (suc i) = elim (get_elem? slots i) [
    | none ↦ fail bad_access
    | some slot ↦ ok slot.value
  ]

  -- `none` is the result 0.
  unfoldable pub hash_table_lookup : CremeHashTable → Value → Result (Option Value)
  hash_table_lookup ht key = elim (I.get ht.map key) [
    | none ↦ ok none
    | some val ↦ do v ← value_at ht.slots val; ok (some v)
  ]

  unfoldable pub hash_table_delete : CremeHashTable → Value → Result CremeHashTable
  hash_table_delete ht key =
      if is_end (I.get ht.map key)
      then ok ht
      else ht_maybe_compact (record ht { map = I.erase ht.map key; n_live = ht.n_live - 1 })

  -- `collect_live`, before the values are made a list.
  abbrev pub collect_live : {A : Type 0} → (Slot → A) → CremeHashTable → List A
  collect_live f ht = map f (live_slots ht.map 0 ht.slots)
