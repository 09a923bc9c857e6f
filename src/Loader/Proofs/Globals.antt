-- ===== src/Loader/Proofs/Globals.antt =====
-- The table of globals of icecreme/vm.c: a name gets one slot, and slots are never taken back.
use creme.Common.{
  ℕ, zero, suc, ◌∙◌, subst, append-nil, append_assoc, Result, ◌+◌, ◌≤◌, ◌<◌, ◌≡◌, refl, sym, ap,
  inl, inr, true, none, some, List, [], ◌∷◌, ◌++◌, ok, fail, abort, globals_full, length,
  length-append, get_elem?, ltb, ltb→lt, ◌==◌, Bool-cases, Option-cases, arith,
}
use creme.Csv.Parse.{Bytes}
use creme.Loader.Globals.{
  c_string, is_named, find_global, globals_cap, new_global, creme_global_intern,
}
use creme.Loader.Proofs.Ends.{LoadEnds, load_returned, load_aborted}
use creme.Csv.Proofs.Same.{same_bytes-eq, same_bytes_refl}
use creme.Loader.Spec.{Names, is_zero}
use creme.Radix.Spec.{IsFree, free_end, free_byte, IsStopped, stopped_end, stopped_byte}
use creme.Loader.State.{GlobalCell, LoadState}

-- The global at the slot has the name.
pub record IsSlot (globals : List GlobalCell) (name : Bytes) (slot : ℕ) : Type 0 where
  pub cell : GlobalCell
  pub at_slot : get_elem? globals slot ≡ some cell
  pub names : Names cell.name name

-- More globals, behind those that there were.
pub record Extends (globals globals' : List GlobalCell) : Type 0 where
  pub added : List GlobalCell
  pub is_append : globals' ≡ globals ++ added

c_string-Names : (s : Bytes) → Names s (c_string s)
unfolding c_string
c_string-Names [] = ([], refl, free_end, stopped_end)
c_string-Names (c ∷ s) = elim (Bool-cases (c == 0)) [
  | inl q ↦ rw (q, c_string) (c ∷ s, refl, free_end, stopped_byte q)
  | inr q ↦
      let (rest, e, free, stopped) = c_string-Names s in
      rw (q, c_string) (rest, ap (λ t. c ∷ t) e, free_byte q free, stopped)
]

c_string-append :
    {name rest : Bytes}
    → IsFree is_zero name
    → IsStopped is_zero rest
    → c_string (name ++ rest) ≡ name
unfolding c_string
c_string-append free_end stopped_end = refl
c_string-append free_end (stopped_byte at) = rw (at, c_string) refl
c_string-append (free_byte {c} before free) stopped =
    rw (before, c_string) (ap (λ t. c ∷ t) (c_string-append free stopped))

-- The comparison of `creme_global_intern` decides the name.
is_named-Names :
    (name : Bytes) (cell : GlobalCell) → is_named name cell ≡ true → Names cell.name name
is_named-Names name cell e =
    subst (λ n. Names cell.name n) (same_bytes-eq (c_string cell.name) name e)
      (c_string-Names cell.name)

Names-is_named :
    (name : Bytes) (cell : GlobalCell) → Names cell.name name → is_named name cell ≡ true
Names-is_named name cell (rest, e, free, stopped) =
    rw (ap c_string e ∙ c_string-append free stopped) (same_bytes_refl name)

get_elem?-length :
    {A : Type 0} (items : List A) (i : ℕ) {a : A} → get_elem? items i ≡ some a → i < length items
get_elem?-length [] i e = absurd (cc e)
get_elem?-length (x ∷ items) zero e = omega arith
get_elem?-length (x ∷ items) (suc i) e = omega (arith, get_elem?-length items i e)

pub IsSlot-below :
    {globals : List GlobalCell} {name : Bytes} {slot : ℕ}
    → IsSlot globals name slot
    → slot < length globals
IsSlot-below {globals} {slot} w = get_elem?-length globals slot w.at_slot

-- What the search finds, at the distance from where it starts.
abbrev Found : List GlobalCell → Bytes → ℕ → ℕ → Type 0
Found globals name i slot = (j : ℕ) × (slot ≡ i + j) × IsSlot globals name j

find_global-Found :
    (globals : List GlobalCell) (name : Bytes) (i : ℕ) {slot : ℕ}
    → find_global globals name i ≡ some slot
    → Found globals name i slot
unfolding find_global
find_global-Found [] name i e = absurd (cc e)
find_global-Found (cell ∷ globals) name i {slot} e = elim (Bool-cases (is_named name cell)) [
  | inl q ↦
      let e' = rw (q, find_global) at e in
      let same : i ≡ slot = cc e' in
      (0, omega arith, record { cell = cell; at_slot = refl; names = is_named-Names name cell q })
  | inr q ↦ let e' = rw (q, find_global) at e in later (find_global-Found globals name (suc i) e')
]
  where
    later : {j : ℕ} → Found globals name (suc i) j → Found (cell ∷ globals) name i j
    later (k, p, w) =
        (suc k, omega arith, record { cell = w.cell; at_slot = w.at_slot; names = w.names })

-- A search that fails has passed no global of the name.
find_global-none :
    (globals : List GlobalCell) (name : Bytes) (i slot : ℕ)
    → find_global globals name i ≡ none
    → ¬ IsSlot globals name slot
unfolding find_global
find_global-none [] name i slot e w = absurd (cc w.at_slot)
find_global-none (cell ∷ globals) name i zero e w = elim (Bool-cases (is_named name cell)) [
  | inl q ↦ cc (rw (q, find_global) at e)
  | inr q ↦
      let same : cell ≡ w.cell = cc w.at_slot in
      let named =
        Names-is_named name cell (subst (λ c. Names (GlobalCell.name c) name) (sym same) w.names) in
      cc (sym q ∙ named)
]
find_global-none (cell ∷ globals) name i (suc j) e w = elim (Bool-cases (is_named name cell)) [
  | inl q ↦ cc (rw (q, find_global) at e)
  | inr q ↦
      find_global-none globals name (suc i) j (rw (q, find_global) at e)
        (record { cell = w.cell; at_slot = w.at_slot; names = w.names })
]

get_elem?-last :
    {A : Type 0} (items : List A) (a : A) → get_elem? (items ++ (a ∷ [])) (length items) ≡ some a
get_elem?-last [] a = refl
get_elem?-last (x ∷ items) a = get_elem?-last items a

-- A name that is not found is found once it has been added.
find_global-append :
    (globals : List GlobalCell) (name : Bytes) (i : ℕ)
    → find_global globals name i ≡ none
    → c_string name ≡ name
    → find_global (globals ++ (new_global name ∷ [])) name i ≡ some (i + length globals)
unfolding find_global
find_global-append [] name i e whole =
    let named : is_named name (new_global name) ≡ true = rw whole (same_bytes_refl name) in
    rw (named, find_global) (ap some (omega arith))
find_global-append (cell ∷ globals) name i e whole = elim (Bool-cases (is_named name cell)) [
  | inl q ↦ absurd (cc (rw (q, find_global) at e))
  | inr q ↦
      let e' = rw (q, find_global) at e in
      rw (q, find_global, find_global-append globals name (suc i) e' whole) (ap some (omega arith))
]

-- The table is in its array, and `globals` are the first of it.
pub record KeepsGlobals (globals : List GlobalCell) (s : LoadState) : Type 0 where
  pub extends : Extends globals s.globals
  pub in_cap : length s.globals ≤ globals_cap

-- Interning gives an index into the table.
pub record IsInterned (globals : List GlobalCell) (slot : ℕ) (s : LoadState) : Type 0 where
  pub below : slot < length s.globals
  pub keeps : KeepsGlobals globals s

pub Extends-refl : (globals : List GlobalCell) → Extends globals globals
Extends-refl globals = record { added = []; is_append = sym (append-nil globals) }

pub Extends-trans :
    {globals globals' globals'' : List GlobalCell}
    → Extends globals globals'
    → Extends globals' globals''
    → Extends globals globals''
Extends-trans {globals} e f = record {
  added = e.added ++ f.added;
  is_append =
      f.is_append ∙ ap (λ g. g ++ f.added) e.is_append ∙ append_assoc globals e.added f.added;
}

pub Extends-length :
    {globals globals' : List GlobalCell}
    → Extends globals globals'
    → length globals ≤ length globals'
Extends-length {globals} {globals'} e =
    let l : length globals' ≡ length (globals ++ e.added) = ap length e.is_append in
    omega (arith, length-append globals e.added)

pub creme_global_intern-IsInterned :
    (name : Bytes) (s : LoadState)
    → length s.globals ≤ globals_cap
    → LoadEnds (IsInterned s.globals) (creme_global_intern name s)
unfolding creme_global_intern
creme_global_intern-IsInterned name s small = elim (Option-cases (find_global s.globals name 0)) [
  | inr (slot, e) ↦
      let (j, p, w) = find_global-Found s.globals name 0 e in
      let low = IsSlot-below w in
      rw (e, creme_global_intern)
        (load_returned slot s (record {
          below = omega arith;
          keeps = record { extends = Extends-refl s.globals; in_cap = small };
        }))
  | inl e ↦ elim (Bool-cases (ltb (length s.globals) globals_cap)) [
    | inl q ↦
        let room = ltb→lt (length s.globals) globals_cap q in
        let l = length-append s.globals (new_global name ∷ []) in
        rw (e, creme_global_intern, q)
          (load_returned _ _ (record {
            below = omega arith;
            keeps = record {
              extends = record { added = new_global name ∷ []; is_append = refl };
              in_cap = omega arith;
            };
          }))
    | inr q ↦ rw (e, creme_global_intern, q) (load_aborted globals_full)
  ]
]

-- A slot that has the name, in a table that keeps the globals it had, and the slot of the name from
-- now on.
pub record IsSlotOf (globals : List GlobalCell) (name : Bytes) (slot : ℕ) (s : LoadState)
    : Type 0 where
  pub is_slot : IsSlot s.globals name slot
  pub keeps : KeepsGlobals globals s
  pub again : creme_global_intern name s ≡ ok (slot, s)

-- The abort comes only when the table is full and has no such name.
pub data InternEnds (s : LoadState) (name : Bytes) : Result (ℕ × LoadState) → Type 0 where
  interned :
      (slot : ℕ) (s' : LoadState)
      → IsSlotOf s.globals name slot s'
      → InternEnds s name (ok (slot, s'))
  table_full :
      length s.globals ≡ globals_cap
      → ((slot : ℕ) → ¬ IsSlot s.globals name slot)
      → InternEnds s name (fail (abort globals_full))

-- Interning a name without a zero byte, in a table that is no larger than its array, returns a
-- slot whose global has the name, byte for byte up to the first zero byte, keeps the globals that
-- there were in their slots, and returns the same slot when it is called again; it aborts only
-- when the table is full and has no such name.
pub creme_global_intern_lem :
    (name : Bytes) (s : LoadState)
    → IsFree is_zero name
    → length s.globals ≤ globals_cap
    → InternEnds s name (creme_global_intern name s)
unfolding creme_global_intern
creme_global_intern_lem name s free small =
    let whole : c_string name ≡ name =
      ap c_string (sym (append-nil name)) ∙ c_string-append free stopped_end in
    elim (Option-cases (find_global s.globals name 0)) [
      | inr (slot, e) ↦
          let (j, p, w) = find_global-Found s.globals name 0 e in
          let same : j ≡ slot = omega arith in
          rw (e, creme_global_intern)
            (interned slot s (record {
              is_slot = subst (λ i. IsSlot s.globals name i) same w;
              keeps = record { extends = Extends-refl s.globals; in_cap = small };
              again = rw (e, creme_global_intern) refl;
            }))
      | inl e ↦ elim (Bool-cases (ltb (length s.globals) globals_cap)) [
        | inl q ↦
            let room = ltb→lt (length s.globals) globals_cap q in
            let l = length-append s.globals (new_global name ∷ []) in
            let named : is_named name (new_global name) ≡ true = rw whole (same_bytes_refl name) in
            let next : find_global (s.globals ++ (new_global name ∷ [])) name 0
                ≡ some (length s.globals) =
              find_global-append s.globals name 0 e whole ∙ ap some (omega arith) in
            rw (e, creme_global_intern, q)
              (interned _ _ (record {
                is_slot = record {
                  cell = new_global name;
                  at_slot = get_elem?-last s.globals (new_global name);
                  names = is_named-Names name (new_global name) named;
                };
                keeps = record {
                  extends = record { added = new_global name ∷ []; is_append = refl };
                  in_cap = omega arith;
                };
                again = rw (next, creme_global_intern) refl;
              }))
        | inr q ↦
            let full : globals_cap ≤ length s.globals = ground arith in
            rw (e, creme_global_intern, q)
              (table_full (omega arith) (λ slot w. find_global-none s.globals name 0 slot e w))
      ]
    ]
