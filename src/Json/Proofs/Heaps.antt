-- ===== src/Json/Proofs/Heaps.antt =====
-- What the reader of icecreme/json.c allocates leaves the objects that there are as they are.
use creme.Common.{
  ℕ, suc, ◌<◌, ◌≡◌, refl, ◌∙◌, true, false, List, [], ◌∷◌, Result, ok, fail, ◌==◌, arith,
}
use creme.Csv.Parse.{Bytes}
use creme.Json.Decoded.{
  Keeps, Decodes, DecodeItems, DecodeAlist, decodes_null, decodes_bool, decodes_int, decodes_flo,
  decodes_str, decodes_vector, decodes_alist, decode_no_items, decode_item, decode_end,
  decode_entry,
}
use creme.Json.Spec.{Json, Items, Members, no_members, member, array}
use creme.Json.Values.{alist_of}
use creme.Value.{Value, str, nil, pair, vector, Pair, Heap, M, update, cons, new_vector}
use creme.Value

pub Keeps-refl : (h : Heap) → Keeps h h
Keeps-refl h = record {
  next_le = omega arith;
  same_pairs = λ p l. refl;
  same_vectors = λ p l. refl;
  same_trees = refl;
  same_mutables = refl;
}

pub Keeps-trans : {h h' h'' : Heap} → Keeps h h' → Keeps h' h'' → Keeps h h''
Keeps-trans {h} {h'} {h''} k l =
    let le = k.next_le in
    let le' = l.next_le in
    record {
      next_le = omega arith;
      same_pairs = λ p below. l.same_pairs p (omega arith) ∙ k.same_pairs p below;
      same_vectors = λ p below. l.same_vectors p (omega arith) ∙ k.same_vectors p below;
      same_trees = l.same_trees ∙ k.same_trees;
      same_mutables = l.same_mutables ∙ k.same_mutables;
    }

update_other : {A : Type 0} (f : ℕ → A) (n p : ℕ) (v : A) → p < n → update f n v p ≡ f p
update_other f n p v h = let other : (n == p) ≡ false = ground arith in rw other refl

pub update_self : {A : Type 0} (f : ℕ → A) (n : ℕ) (v : A) → update f n v n ≡ v
update_self f n v = let same : (n == n) ≡ true = ground arith in rw same refl

mutual
  pub Decodes-Keeps :
      {h h' : Heap} {v : Value} (j : Json) → Keeps h h' → Decodes h v j → Decodes h' v j
  Decodes-Keeps _ k decodes_null = decodes_null
  Decodes-Keeps _ k (decodes_bool b) = decodes_bool b
  Decodes-Keeps _ k (decodes_int i) = decodes_int i
  Decodes-Keeps _ k (decodes_flo f) = decodes_flo f
  Decodes-Keeps _ k (decodes_str s) = decodes_str s
  Decodes-Keeps _ k (decodes_vector a below e ds) =
      let le = k.next_le in
      decodes_vector a (omega arith) (k.same_vectors a below ∙ e) (DecodeItems-Keeps _ k ds)
  Decodes-Keeps _ k (decodes_alist ds) = decodes_alist (DecodeAlist-Keeps _ k ds)

  pub DecodeItems-Keeps :
      {h h' : Heap} {vs : List Value} (js : Items)
      → Keeps h h'
      → DecodeItems h vs js
      → DecodeItems h' vs js
  DecodeItems-Keeps _ k decode_no_items = decode_no_items
  DecodeItems-Keeps _ k (decode_item d ds) =
      decode_item (Decodes-Keeps _ k d) (DecodeItems-Keeps _ k ds)

  pub DecodeAlist-Keeps :
      {h h' : Heap} {v : Value} (ms : Members)
      → Keeps h h'
      → DecodeAlist h v ms
      → DecodeAlist h' v ms
  DecodeAlist-Keeps _ k decode_end = decode_end
  DecodeAlist-Keeps _ k (decode_entry a e below pa below' pe d ds) =
      let le = k.next_le in
      decode_entry a e (omega arith) (k.same_pairs a below ∙ pa) (omega arith)
        (k.same_pairs e below' ∙ pe) (Decodes-Keeps _ k d) (DecodeAlist-Keeps _ k ds)

-- A step returns, leaves these bytes, and keeps the heap; its result satisfies `P` there.
pub data Reads {A : Type 0} (h : Heap) (rest : Bytes) (P : Heap → A → Type 0)
    : Result ((A × Bytes) × Heap) → Type 0 where
  did_read : (a : A) (h' : Heap) → Keeps h h' → P h' a → Reads h rest P (ok ((a, rest), h'))

module _ {B : Type 0} {Q : Heap → B → Type 0} where
  pub Reads-later :
      {h h' : Heap} {rest : Bytes} {r : Result ((B × Bytes) × Heap)}
      → Keeps h h'
      → Reads h' rest Q r
      → Reads h rest Q r
  Reads-later k (did_read b h'' l q) = did_read b h'' (Keeps-trans k l) q

module _ {A B : Type 0} {P : Heap → A → Type 0} {Q : Heap → B → Type 0} where
  pub Reads-bind :
      {h : Heap} {s rest : Bytes} {r : Result ((A × Bytes) × Heap)} (f : A × Bytes → M (B × Bytes))
      → Reads h s P r
      → ((a : A) (h' : Heap) → Keeps h h' → P h' a → Reads h' rest Q (f (a, s) h'))
      → Reads h rest Q (elim r [ fail e ↦ fail e | ok r ↦ f r.0 r.1 ])
  Reads-bind f (did_read a h' k p) next = Reads-later k (next a h' k p)

-- A new object keeps the others.
pub cons-Keeps :
    (h : Heap) (p : Pair)
    → Keeps h (record h { next = suc h.next; pairs = update h.pairs h.next p })
cons-Keeps h p = record {
  next_le = omega arith;
  same_pairs = λ q below. update_other h.pairs h.next q p below;
  same_vectors = λ q below. refl;
  same_trees = refl;
  same_mutables = refl;
}

pub new_vector-Keeps :
    (h : Heap) (vs : List Value)
    → Keeps h (record h { next = suc h.next; vectors = update h.vectors h.next vs })
new_vector-Keeps h vs = record {
  next_le = omega arith;
  same_pairs = λ q below. refl;
  same_vectors = λ q below. update_other h.vectors h.next q vs below;
  same_trees = refl;
  same_mutables = refl;
}

-- The entries that the loop over an object has made, each a pair of its own.
pub data DecodeEntries (h : Heap) : List Value → Members → Type 0 where
  decode_no_entries : DecodeEntries h [] no_members
  decode_new_entry :
      (e : ℕ) {v : Value} {vs : List Value} {key : Bytes} {j : Json} {ms : Members}
      → e < h.next
      → h.pairs e ≡ record { car = str key; cdr = v }
      → Decodes h v j
      → DecodeEntries h vs ms
      → DecodeEntries h (pair e ∷ vs) (member key j ms)

pub DecodeEntries-Keeps :
    {h h' : Heap} {vs : List Value} (ms : Members)
    → Keeps h h'
    → DecodeEntries h vs ms
    → DecodeEntries h' vs ms
DecodeEntries-Keeps _ k decode_no_entries = decode_no_entries
DecodeEntries-Keeps _ k (decode_new_entry e below pe d ds) =
    let le = k.next_le in
    decode_new_entry e (omega arith) (k.same_pairs e below ∙ pe) (Decodes-Keeps _ k d)
      (DecodeEntries-Keeps _ k ds)

-- The alist of the entries.
pub data MadeAlist (h : Heap) (ms : Members) : Result (Value × Heap) → Type 0 where
  made_alist :
      (v : Value) (h' : Heap) → Keeps h h' → DecodeAlist h' v ms → MadeAlist h ms (ok (v, h'))

put_before :
    {h : Heap} (e : ℕ) {v : Value} {key : Bytes} {j : Json} {ms : Members}
    → {r : Result (Value × Heap)} → e < h.next
    → h.pairs e ≡ record { car = str key; cdr = v }
    → Decodes h v j
    → MadeAlist h ms r
    → MadeAlist h (member key j ms) (elim r [ fail e ↦ fail e | ok r ↦ cons (pair e) r.0 r.1 ])
unfolding cons
put_before e below pe d (made_alist v h' k ds) =
    let new : Pair = record { car = pair e; cdr = v } in
    let le = k.next_le in
    let k' = cons-Keeps h' new in
    let k'' = Keeps-trans k k' in
    made_alist _ _ k'' (
      decode_entry _ e (omega arith) (update_self h'.pairs h'.next new) (omega arith)
        (k''.same_pairs e below ∙ pe) (Decodes-Keeps _ k'' d) (DecodeAlist-Keeps _ k' ds))

pub alist_of-MadeAlist :
    (h : Heap) (vs : List Value) (ms : Members)
    → DecodeEntries h vs ms
    → MadeAlist h ms (alist_of vs h)
unfolding alist_of
alist_of-MadeAlist h _ _ decode_no_entries = made_alist nil h (Keeps-refl h) decode_end
alist_of-MadeAlist h _ _ (decode_new_entry e below pe d ds) =
    put_before e below pe d (alist_of-MadeAlist h _ _ ds)

-- A new vector of the items.
pub new_vector-Reads :
    (h : Heap) (vs : List Value) (js : Items) (rest : Bytes)
    → DecodeItems h vs js
    → Reads h rest
        (λ h' v. Decodes h' v (array js))
        ((Value.◌>>=◌ (new_vector vs) (λ v. Value.pure (v, rest))) h)
unfolding new_vector
new_vector-Reads h vs js rest ds =
    let k = new_vector-Keeps h vs in
    did_read _ _ k
      (decodes_vector _ (omega arith) (update_self h.vectors h.next vs) (DecodeItems-Keeps _ k ds))
