-- ===== src/HashTable/IndexMap.antt =====
-- The map from keys to indices that icecreme/hashtable.c keeps: a Verstable instance, whose code is
-- another project's. It compares keys by `creme_equal` and finds the index that was inserted last
-- for a key, unless the key was erased since.
use creme.Common.{ℕ, ◌≡◌, Bool, true, false, Option, none, some}
use creme.Value.{Value}

pub record IndexMap : Type 1 where
  pub equal : Value → Value → Bool
  pub Map : Type 0
  pub init : Map
  pub get : Map → Value → Option ℕ
  pub insert : Map → Value → ℕ → Map
  pub erase : Map → Value → Map

-- The behaviour that hashtable.c relies on, while no key in the table is changed: `equal` is symmetric
-- and transitive, and an operation on a key touches the keys that are equal to it and no others. A key
-- may be not even equal to itself, as a continuation is not.
pub record IsIndexMap (I : IndexMap) : Type 0 where
  pub equal_sym : (k k' : Value) → I.equal k k' ≡ I.equal k' k
  pub equal_right : (a b c : Value) → I.equal a b ≡ true → I.equal c a ≡ I.equal c b
  pub get-equal : (m : I.Map) (k k' : Value) → I.equal k k' ≡ true → I.get m k ≡ I.get m k'
  pub get-init : (k : Value) → I.get I.init k ≡ none
  pub get-insert :
      (m : I.Map) (k k' : Value) (i : ℕ) → I.equal k k' ≡ true → I.get (I.insert m k i) k' ≡ some i
  pub get-insert_other :
      (m : I.Map) (k k' : Value) (i : ℕ)
      → I.equal k k' ≡ false
      → I.get (I.insert m k i) k' ≡ I.get m k'
  pub get-erase : (m : I.Map) (k k' : Value) → I.equal k k' ≡ true → I.get (I.erase m k) k' ≡ none
  pub get-erase_other :
      (m : I.Map) (k k' : Value) → I.equal k k' ≡ false → I.get (I.erase m k) k' ≡ I.get m k'
