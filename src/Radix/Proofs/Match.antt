-- ===== src/Radix/Proofs/Match.antt =====
-- What radix-tree-match and radix-tree-ref of icecreme/radix.c return, seen from Scheme.
use creme.Common.{
  ℕ, suc, take, ◌<◌, ◌≡◌, refl, sym, ◌∙◌, subst, false, none, some, List, [], ◌∷◌, ok, fail,
  Returns, arith,
}
use creme.Csv.Parse.{Bytes}
use creme.Json.Decoded.{Keeps}
use creme.Json.Proofs.Heaps.{Keeps-refl, Keeps-trans, cons-Keeps, update_self}
use creme.Radix.Add.{RadixTree}
use creme.Radix.Builtins.{
  Trees, radix_max_params, unbox_value, params_alist, match_result, bi_radix_tree_ref,
  bi_radix_tree_match,
}
use creme.Radix.Find.{RadixParam, Found, radix_tree_find}
use creme.Radix.Node.{RadixNode, Token}
use creme.Radix.Proofs.Find.{radix_tree_find_sound, radix_tree_find_complete}
use creme.Radix.Spec.{Stored, Matches}
use creme.Value.{Value, nil, bool, str, pair, box, radix_tree, Pair, Heap, M, ◌>>=◌, update, cons}

-- The alist that begins at a value: names and what they stand for, in this order.
pub data IsAlist (h : Heap) : Value → List RadixParam → Type 0 where
  no_entries : IsAlist h nil []
  entry_before :
      (a e : ℕ) {rest : Value} {p : RadixParam} {params : List RadixParam}
      → a < h.next
      → e < h.next
      → h.pairs a ≡ record { car = pair e; cdr = rest }
      → h.pairs e ≡ record { car = str p.name; cdr = str p.value }
      → IsAlist h rest params
      → IsAlist h (pair a) (p ∷ params)

IsAlist-Keeps :
    {h h' : Heap} {v : Value} {params : List RadixParam}
    → Keeps h h'
    → IsAlist h v params
    → IsAlist h' v params
IsAlist-Keeps k no_entries = no_entries
IsAlist-Keeps k (entry_before a e below below' pa pe rest) =
    let le = k.next_le in
    entry_before a e (omega arith) (omega arith) (k.same_pairs a below ∙ pa)
      (k.same_pairs e below' ∙ pe) (IsAlist-Keeps k rest)

-- The captures, the last one first, before those that there are.
abbrev pub reversed_onto : List RadixParam → List RadixParam → List RadixParam
reversed_onto [] before = before
reversed_onto (p ∷ params) before = reversed_onto params (p ∷ before)

-- The objects that there were are kept, and the value is the alist of the captures.
abbrev MadeAlist : Heap → List RadixParam → Value × Heap → Type 0
MadeAlist h params r = Keeps h r.1 × IsAlist r.1 r.0 params

params_alist_lem :
    (params before : List RadixParam) (alist : Value) (h : Heap)
    → IsAlist h alist before
    → Returns (MadeAlist h (reversed_onto params before)) (params_alist params alist h)
unfolding params_alist cons
params_alist_lem [] before alist h is = ((alist, h), refl, (Keeps-refl h, is))
params_alist_lem (p ∷ params) before alist h is =
    let entry : Pair = record { car = str p.name; cdr = str p.value } in
    let h1 : Heap = record h { next = suc h.next; pairs = update h.pairs h.next entry } in
    let link : Pair = record { car = pair h.next; cdr = alist } in
    let h2 : Heap = record h1 { next = suc h1.next; pairs = update h1.pairs h1.next link } in
    let k1 = cons-Keeps h entry in
    let k2 = cons-Keeps h1 link in
    let below : h.next < h1.next = omega arith in
    let (r, e, (k, made)) = params_alist_lem params (p ∷ before) (pair h1.next) h2 (
      entry_before h1.next h.next (omega arith) (omega arith) (update_self h1.pairs h1.next link)
        (k2.same_pairs h.next below ∙ update_self h.pairs h.next entry)
        (IsAlist-Keeps (Keeps-trans k1 k2) is)) in
    (r, e, (Keeps-trans (Keeps-trans k1 k2) k, made))

-- What a match is: #f where no stored pattern matches the path, or else a pair of the payload of a
-- stored pattern that does and the alist of the first 64 of
-- its captures, the last one first.
pub data IsMatch (root : RadixNode Value) (path : Bytes) (h : Heap) : Value → Value → Type 0 where
  no_match :
      ((toks : List Token) (v : Value) (captures : List RadixParam)
        → Stored v root toks
        → ¬ Matches toks path captures)
      → IsMatch root path h (bool false) (bool false)
  a_match :
      (a : ℕ) (v alist : Value) (captures : List RadixParam) (toks : List Token)
      → h.pairs a ≡ record { car = v; cdr = alist }
      → IsAlist h alist (reversed_onto (take radix_max_params captures) [])
      → Stored v root toks
      → Matches toks path captures
      → IsMatch root path h (pair a) v

-- A step that returns, and what runs on its result.
Returns-then :
    {A B : Type 0} {P : A × Heap → Type 0} {Q : B × Heap → Type 0} (m : M A) (f : A → M B)
    (h : Heap)
    → Returns P (m h)
    → ((r : A × Heap) → P r → Returns Q (f r.0 r.1))
    → Returns Q ((m >>= f) h)
Returns-then {Q} m f h (r, e, p) k =
    subst (λ x. Returns Q (elim x [ fail why ↦ fail why | ok q ↦ f q.0 q.1 ])) (sym e) (k r p)

match_result_lem :
    (t : RadixTree Value) (path : Bytes) (h : Heap) (found : Found Value)
    → radix_tree_find radix_max_params t path ≡ found
    → Returns
        (λ r. Keeps h r.1 × IsMatch t.root path r.1 r.0 (unbox_value found))
        (match_result found h)
unfolding cons
match_result_lem t path h none e = (
  (bool false, h),
  refl,
  (
    Keeps-refl h,
    no_match (λ toks v params stored matches.
        let yes = radix_tree_find_complete radix_max_params t path toks v params stored matches in
        cc (rw e at yes)),
  ),
)
match_result_lem t path h (some (v, params)) e =
    let (toks, captures, stored, matches, q) =
      radix_tree_find_sound radix_max_params t path v params e in
    Returns-then (params_alist params nil) (cons v) h (params_alist_lem params [] nil h no_entries)
      (λ r made.
        let (k, is) = made in
        let whole : Pair = record { car = v; cdr = r.0 } in
        let k' = cons-Keeps r.1 whole in
        (
          _,
          refl,
          (
            Keeps-trans k k',
            a_match (Heap.next r.1) v r.0 captures toks
                (update_self (Heap.pairs r.1) (Heap.next r.1) whole)
                (IsAlist-Keeps k' (subst (λ ps. IsAlist r.1 r.0 (reversed_onto ps [])) q is)) stored
                matches,
          ),
        ))

-- On a box of any tree and a path, radix-tree-match returns #f where no stored pattern matches the
-- path, and otherwise a pair of the payload of a stored pattern that matches and the alist of the
-- first 64 captures of that pattern, the last one first; radix-tree-ref returns the same payload,
-- or #f, and the pairs and vectors on the heap are as they were.
pub bi_radix_tree_match_lem :
    (trees : Trees) (a : ℕ) (path : Bytes) (h : Heap)
    → Returns
        (λ r.
          Keeps h r.1
          × ((v : Value) × IsMatch (RadixTree.root (trees a)) path r.1 r.0 v
              × (bi_radix_tree_ref trees (box radix_tree a ∷ str path ∷ []) h ≡ ok (v, h))))
        (bi_radix_tree_match trees (box radix_tree a ∷ str path ∷ []) h)
unfolding bi_radix_tree_match bi_radix_tree_ref
bi_radix_tree_match_lem trees a path h =
    let found = radix_tree_find radix_max_params (trees a) path in
    let (r, e, (k, is)) = match_result_lem (trees a) path h found refl in
    (r, e, (k, (unbox_value found, is, refl)))
