-- ===== src/Json/Decoded.antt =====
-- The values that the reader of icecreme/json.c makes of a document: what they stand for.
use creme.Common.{ℕ, suc, ◌≤◌, ◌<◌, ◌≡◌, Bool, List, [], ◌∷◌}
use creme.Csv.Parse.{Bytes}
use creme.Json.Decimal.{IsDecimal}
use creme.Json.Proofs.Numbers.{IsInt64}
use creme.Json.Spec.{
  Json, Items, Members, null, boolean, integer, real, string, array, object, no_items, item,
  no_members, member, float_text,
}
use creme.Value.{ℤ, Value, nil, bool, int, flo, str, pair, vector, Heap}

-- Every object of the first heap is as it was.
pub record Keeps (h h' : Heap) : Type 0 where
  pub next_le : h.next ≤ h'.next
  pub same_pairs : (p : ℕ) → p < h.next → h'.pairs p ≡ h.pairs p
  pub same_vectors : (p : ℕ) → p < h.next → h'.vectors p ≡ h.vectors p
  pub same_trees : h'.trees ≡ h.trees
  pub same_mutables : h'.mutables ≡ h.mutables

-- An array is a vector, an object an alist; null and the object with no members are nil. The
-- objects are below `next`.
mutual
  pub data Decodes (h : Heap) : Value → Json → Type 0 where
    decodes_null : Decodes h nil null
    decodes_bool : (b : Bool) → Decodes h (bool b) (boolean b)
    decodes_int : (i : ℤ) → Decodes h (int i) (integer i)
    decodes_flo : (f : ℕ) → Decodes h (flo f) (real f)
    decodes_str : (s : Bytes) → Decodes h (str s) (string s)
    decodes_vector :
        (a : ℕ) {vs : List Value} {js : Items}
        → a < h.next
        → h.vectors a ≡ vs
        → DecodeItems h vs js
        → Decodes h (vector a) (array js)
    decodes_alist : {v : Value} {ms : Members} → DecodeAlist h v ms → Decodes h v (object ms)

  pub data DecodeItems (h : Heap) : List Value → Items → Type 0 where
    decode_no_items : DecodeItems h [] no_items
    decode_item :
        {v : Value} {vs : List Value} {j : Json} {js : Items}
        → Decodes h v j
        → DecodeItems h vs js
        → DecodeItems h (v ∷ vs) (item j js)

  pub data DecodeAlist (h : Heap) : Value → Members → Type 0 where
    decode_end : DecodeAlist h nil no_members
    decode_entry :
        (a e : ℕ) {v d : Value} {key : Bytes} {j : Json} {ms : Members}
        → a < h.next
        → h.pairs a ≡ record { car = pair e; cdr = d }
        → e < h.next
        → h.pairs e ≡ record { car = str key; cdr = v }
        → Decodes h v j
        → DecodeAlist h d ms
        → DecodeAlist h (pair a) (member key j ms)

-- A document that the reader accepts, nested no deeper than `depth`: its integers are machine
-- integers, and each of its floats is printed in decimal and read back by `strtod` as itself.
module _ (print_float : ℕ → Bytes) (strtod : Bytes → ℕ) where
  mutual
    pub data Readable : ℕ → Json → Type 0 where
      readable_null : (depth : ℕ) → Readable (suc depth) null
      readable_boolean : (depth : ℕ) (b : Bool) → Readable (suc depth) (boolean b)
      readable_integer : (depth : ℕ) (i : ℤ) → IsInt64 i → Readable (suc depth) (integer i)
      readable_real :
          (depth : ℕ) (f : ℕ)
          → IsDecimal (print_float f)
          → strtod (float_text print_float f) ≡ f
          → Readable (suc depth) (real f)
      readable_string : (depth : ℕ) (s : Bytes) → Readable (suc depth) (string s)
      readable_array :
          (depth : ℕ) {js : Items} → ReadableItems depth js → Readable (suc depth) (array js)
      readable_object :
          (depth : ℕ) {ms : Members} → ReadableMembers depth ms → Readable (suc depth) (object ms)

    pub data ReadableItems : ℕ → Items → Type 0 where
      readable_no_items : (depth : ℕ) → ReadableItems depth no_items
      readable_item :
          {depth : ℕ} {j : Json} {js : Items}
          → Readable depth j
          → ReadableItems depth js
          → ReadableItems depth (item j js)

    pub data ReadableMembers : ℕ → Members → Type 0 where
      readable_no_members : (depth : ℕ) → ReadableMembers depth no_members
      readable_member :
          {depth : ℕ} (key : Bytes) {j : Json} {ms : Members}
          → Readable depth j
          → ReadableMembers depth ms
          → ReadableMembers depth (member key j ms)
