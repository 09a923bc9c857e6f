-- ===== src/Loader/Proofs/Loaded.antt =====
-- The chunks that icecreme/loader.c returns have operands inside their pools and inside the table of
-- globals.
use creme.Common.{
  ℕ, suc, ◌≤◌, ◌<◌, ◌≡◌, refl, sym, ap, ◌∙◌, subst, inl, inr, Bool, true, false, ◌&&◌, Option, none,
  some, List, [], ◌∷◌, bad_bytecode, length, ltb→lt, ◌==◌, Bool-cases, Option-cases, arith,
}
use creme.Csv.Proofs.Cells.{and-true}
use creme.Loader.Code.{Instruction, InsPos, Body, Chunk, Protos, chunk, no_protos, proto, in_range}
use creme.Loader.Globals.{globals_cap}
use creme.Loader.Proofs.Ends.{
  LoadEnds, load_returned, load_aborted, LoadEnds-bind, LoadEnds-weaken, insist-LoadEnds,
  element-Ending,
}
use creme.Loader.Proofs.Globals.{
  Extends-refl, Extends-trans, Extends-length, KeepsGlobals, creme_global_intern-IsInterned,
}
use creme.Loader.State.{GlobalCell, LoadState}
use creme.Loader.Validate.{
  Operand, in_a, in_b, in_c, in_d, operand, with_operand, Pool, const_pool, template_pool,
  table_pool, proto_pool, proto_count, pool_size, case_of, pool_cases, global_cases, name_of,
  global_name_const, global_case, resolve_instruction, resolve_code, resolve_globals,
  resolve_proto_globals,
}
use creme.Value.{
  ℤ, pos, negsuc, Value, nil, bool, int, flo, char, str, pair, vector, closure, builtin, box, other,
}
use creme.Loader.Proofs.Checked.{
  pool_case_lem, global_case_lem, IsIndex, IsChecked, IsResolved, AllCode, no_code, more_code,
  AllCode-weaken, IsValid, is_valid, AreValid, no_valid, more_valid, IsLoaded, is_loaded, AreLoaded,
  no_loaded, more_loaded,
}

-- No operation uses a pool and names a global.
is_none : {A : Type 0} → Option A → Bool
is_none none = true
is_none (some a) = false

is_none-eq : {A : Type 0} (o : Option A) → is_none o ≡ true → o ≡ none
unfolding is_none
is_none-eq none e = refl
is_none-eq (some a) e = absurd (cc e)

no_pool : List (ℕ × Operand) → Bool
no_pool [] = true
no_pool (c ∷ cases) = is_none (case_of pool_cases c.0) && no_pool cases

no_pool-none :
    (cases : List (ℕ × Operand)) (n : ℕ) {f : Operand}
    → no_pool cases ≡ true
    → case_of cases n ≡ some f
    → case_of pool_cases n ≡ none
unfolding no_pool
no_pool-none [] n h e = absurd (cc e)
no_pool-none (c ∷ cases) n h e =
    let (here, rest) = and-true (is_none (case_of pool_cases c.0)) (no_pool cases) h in
    elim (Bool-cases (n == c.0)) [
      | inl q ↦
          let same : c.0 ≡ n = ground arith in
          subst (λ x. case_of pool_cases x ≡ none) same (is_none-eq _ here)
      | inr q ↦ no_pool-none cases n rest (rw q at e)
    ]

global-no_pool :
    (n : ℕ) {f : Operand} → case_of global_cases n ≡ some f → case_of pool_cases n ≡ none
unfolding no_pool is_none
global-no_pool n e = no_pool-none global_cases n refl e

-- The instruction after its operand has been replaced.
operand-with_operand :
    (f : Operand) (z : ℤ) (ins : Instruction) → operand f (with_operand f z ins) ≡ z
operand-with_operand in_a z ins = refl
operand-with_operand in_b z ins = refl
operand-with_operand in_c z ins = refl
operand-with_operand in_d z ins = refl

op-with_operand : (f : Operand) (z : ℤ) (ins : Instruction) → (with_operand f z ins).op ≡ ins.op
op-with_operand in_a z ins = refl
op-with_operand in_b z ins = refl
op-with_operand in_c z ins = refl
op-with_operand in_d z ins = refl

IsResolved-more :
    {body : Body} {inner : Protos} {n n' : ℕ} (ins : Instruction)
    → n ≤ n'
    → IsResolved body inner n ins
    → IsResolved body inner n' ins
IsResolved-more ins le w = record {
  checked = w.checked;
  in_table = λ f e. let (i, q, below) = w.in_table f e in (i, q, omega arith);
}

-- An operation that names a global, whose name has been replaced by a slot.
with_slot-IsResolved :
    {body : Body} {inner : Protos} {n : ℕ} (ins : Instruction) (f : Operand) (slot : ℕ)
    → IsChecked body inner ins
    → global_case ins.op ≡ some f
    → slot < n
    → IsResolved body inner n (with_operand f (pos slot) ins)
with_slot-IsResolved {n} ins f slot w e below =
    let named : case_of global_cases w.code ≡ some f =
      subst (λ z. global_case z ≡ some f) w.is_op e in
    record {
      checked = record {
        code = w.code;
        is_op = op-with_operand f (pos slot) ins ∙ w.is_op;
        is_real = w.is_real;
        in_pool = λ o p is_used.
            absurd (cc (sym (global-no_pool w.code named) ∙ pool_case_lem w.code o p is_used));
      };
      in_table = λ g is_used.
          let same : f ≡ g = cc (sym named ∙ global_case_lem w.code g is_used) in
          subst (λ x. IsIndex (operand x (with_operand f (pos slot) ins)) n) same
            (slot, operand-with_operand f (pos slot) ins, below);
    }

-- The name of a constant.
global_name_const-LoadEnds :
    (body : Body) (z : ℤ) (s : LoadState)
    → LoadEnds (λ name s'. s'.globals ≡ s.globals) (global_name_const body z s)
unfolding global_name_const
global_name_const-LoadEnds body (negsuc n) s = load_aborted bad_bytecode
global_name_const-LoadEnds body (pos n) s =
    LoadEnds-bind _ (insist-LoadEnds (in_range (pos n) (length body.consts)) bad_bytecode s)
      (λ t s1 (e, q1).
        LoadEnds-bind _ (element-Ending body.consts n (ltb→lt n (length body.consts) e) s1)
          (λ v s2 q2. LoadEnds-weaken (name_of-LoadEnds v s2) (λ name s3 q3. q3 ∙ q2 ∙ q1)))
  where
    name_of-LoadEnds :
        (v : Value) (s : LoadState) → LoadEnds (λ name s'. s'.globals ≡ s.globals) (name_of v s)
    name_of-LoadEnds (Value.sym name) s = load_returned name s refl
    name_of-LoadEnds (str name) s = load_returned name s refl
    name_of-LoadEnds nil s = load_aborted bad_bytecode
    name_of-LoadEnds (bool b) s = load_aborted bad_bytecode
    name_of-LoadEnds (int i) s = load_aborted bad_bytecode
    name_of-LoadEnds (flo f) s = load_aborted bad_bytecode
    name_of-LoadEnds (char c) s = load_aborted bad_bytecode
    name_of-LoadEnds (pair a) s = load_aborted bad_bytecode
    name_of-LoadEnds (vector a) s = load_aborted bad_bytecode
    name_of-LoadEnds (closure a) s = load_aborted bad_bytecode
    name_of-LoadEnds (builtin a) s = load_aborted bad_bytecode
    name_of-LoadEnds (box k a) s = load_aborted bad_bytecode
    name_of-LoadEnds (other t a) s = load_aborted bad_bytecode

-- The globals that the step finds stay, and its result is resolved for those that it leaves.
abbrev pub Resolves : {A : Type 0} → (ℕ → A → Type 0) → LoadState → A → LoadState → Type 0
Resolves P s a s' = P (length s'.globals) a × KeepsGlobals s.globals s'

resolve_instruction-LoadEnds :
    {body : Body} {inner : Protos} (ins : Instruction) (s : LoadState)
    → IsChecked body inner ins
    → length s.globals ≤ globals_cap
    → LoadEnds (Resolves (IsResolved body inner) s) (resolve_instruction body ins s)
unfolding resolve_instruction
resolve_instruction-LoadEnds {body} {inner} ins s w small =
    elim (Option-cases (global_case ins.op)) [
      | inl e ↦
          rw (e, resolve_instruction)
            (load_returned ins s (
              record {
                checked = w;
                in_table = λ f is_used.
                    absurd (cc (sym e ∙ ap global_case w.is_op ∙ global_case_lem w.code f is_used));
              },
              record { extends = Extends-refl s.globals; in_cap = small },
            ))
      | inr (f, e) ↦
          rw (e, resolve_instruction)
            (LoadEnds-bind _ (global_name_const-LoadEnds body (operand f ins) s) (λ name s1 q1.
              LoadEnds-bind _
                (creme_global_intern-IsInterned name s1
                  (subst (λ g. length g ≤ globals_cap) (sym q1) small))
                (λ slot s2 i. load_returned _ s2 (
                  with_slot-IsResolved ins f slot w e i.below,
                  subst (λ g. KeepsGlobals g s2) q1 i.keeps,
                ))))
    ]

KeepsGlobals-trans :
    {globals : List GlobalCell} {s s' : LoadState}
    → KeepsGlobals globals s
    → KeepsGlobals s.globals s'
    → KeepsGlobals globals s'
KeepsGlobals-trans k l = record { extends = Extends-trans k.extends l.extends; in_cap = l.in_cap }

resolve_code-LoadEnds :
    {body : Body} {inner : Protos} (code : List (Instruction × InsPos)) (s : LoadState)
    → AllCode (IsChecked body inner) code
    → length s.globals ≤ globals_cap
    → LoadEnds
        (Resolves (λ n code'. AllCode (IsResolved body inner n) code') s)
        (resolve_code body code s)
unfolding resolve_code
resolve_code-LoadEnds [] s no_code small =
    load_returned [] s (no_code, record { extends = Extends-refl s.globals; in_cap = small })
resolve_code-LoadEnds (ins ∷ code) s (more_code w ws) small =
    LoadEnds-bind _ (resolve_instruction-LoadEnds ins.0 s w small) (λ ins' s1 (r, k).
      LoadEnds-bind _ (resolve_code-LoadEnds code s1 ws k.in_cap) (λ code' s2 (rs, l).
        let le = Extends-length l.extends in
        load_returned _ s2 (more_code (IsResolved-more ins' le r) rs, KeepsGlobals-trans k l)))

-- The pools do not change when the code and the protos are resolved.
same_size :
    (p : Pool) (body : Body) (inner inner' : Protos) (code : List (Instruction × InsPos))
    → proto_count inner' ≡ proto_count inner
    → pool_size p body inner ≡ pool_size p (record body { code = code }) inner'
same_size const_pool body inner inner' code e = refl
same_size template_pool body inner inner' code e = refl
same_size table_pool body inner inner' code e = refl
same_size proto_pool body inner inner' code e = sym e

IsResolved-move :
    {body : Body} {inner : Protos} {n : ℕ} (inner' : Protos) (code : List (Instruction × InsPos))
    → (ins : Instruction) → proto_count inner' ≡ proto_count inner
    → IsResolved body inner n ins
    → IsResolved (record body { code = code }) inner' n ins
IsResolved-move {body} {inner} inner' code ins e w =
    let checked = w.checked in
    record {
      checked = record {
        code = checked.code;
        is_op = checked.is_op;
        is_real = checked.is_real;
        in_pool = λ o p is_used.
            subst (λ size. IsIndex (operand o ins) size) (same_size p body inner inner' code e)
              (checked.in_pool o p is_used);
      };
      in_table = w.in_table;
    }

mutual
  IsLoaded-more : {n n' : ℕ} (c : Chunk) → n ≤ n' → IsLoaded n c → IsLoaded n' c
  IsLoaded-more (chunk body inner) le (is_loaded code ws) =
      is_loaded (AllCode-weaken _ (λ ins. IsResolved-more ins le) code) (AreLoaded-more inner le ws)

  AreLoaded-more : {n n' : ℕ} (cs : Protos) → n ≤ n' → AreLoaded n cs → AreLoaded n' cs
  AreLoaded-more no_protos le no_loaded = no_loaded
  AreLoaded-more (proto c cs) le (more_loaded w ws) =
      more_loaded (IsLoaded-more c le w) (AreLoaded-more cs le ws)

mutual
  unfolding resolve_globals

  pub resolve_globals-LoadEnds :
      (c : Chunk) (s : LoadState)
      → IsValid c
      → length s.globals ≤ globals_cap
      → LoadEnds (Resolves IsLoaded s) (resolve_globals c s)
  resolve_globals-LoadEnds (chunk body inner) s (is_valid code ws) small =
      LoadEnds-bind _ (resolve_code-LoadEnds body.code s code small) (λ code' s1 (r, k).
        LoadEnds-bind _ (resolve_proto_globals-LoadEnds inner s1 ws k.in_cap)
          (λ inner' s2 (rs, e, l).
            let le = Extends-length l.extends in
            load_returned _ s2 (
              is_loaded
                  (AllCode-weaken code'
                    (λ ins w. IsResolved-move inner' code' ins e (IsResolved-more ins le w)) r)
                  rs,
              KeepsGlobals-trans k l,
            )))

  resolve_proto_globals-LoadEnds :
      (cs : Protos) (s : LoadState)
      → AreValid cs
      → length s.globals ≤ globals_cap
      → LoadEnds
          (λ cs' s'.
            AreLoaded (length s'.globals) cs'
            × (proto_count cs' ≡ proto_count cs)
            × KeepsGlobals s.globals s')
          (resolve_proto_globals cs s)
  resolve_proto_globals-LoadEnds no_protos s no_valid small =
      load_returned no_protos s
        (no_loaded, refl, record { extends = Extends-refl s.globals; in_cap = small })
  resolve_proto_globals-LoadEnds (proto c cs) s (more_valid w ws) small =
      LoadEnds-bind _ (resolve_globals-LoadEnds c s w small) (λ c' s1 (r, k).
        LoadEnds-bind _ (resolve_proto_globals-LoadEnds cs s1 ws k.in_cap) (λ cs' s2 (rs, e, l).
          let le = Extends-length l.extends in
          load_returned _ s2
            (more_loaded (IsLoaded-more c' le r) rs, ap suc e, KeepsGlobals-trans k l)))
