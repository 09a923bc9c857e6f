-- ===== src/Loader/Proofs/Checked.antt =====
-- What the checks of icecreme/loader.c say of a chunk: real opcodes, and operands inside their pools.
use creme.Common.{
  ℕ, ◌<◌, ◌≡◌, refl, subst, Bool, true, false, Option, none, some, List, [], ◌∷◌, ok, Abort,
  bad_bytecode, ltb→lt, require,
}
use creme.Csv.Proofs.Writer.{ok-bind}
use creme.Loader.Code.{
  Instruction, InsPos, Body, Chunk, Protos, chunk, no_protos, proto, op_count, in_range,
}
use creme.Loader.Validate.{
  Operand, operand, Pool, pool_size, case_of, pool_cases, check_pool_use, validate_opcode,
  validate_instruction, validate_code, validate_chunk, validate_protos, global_cases,
}
use creme.Loader.Spec.{
  PoolUse, loadk_use, casematch_use, casedispatch_use, throw_use, closure_use, quasiquote_use,
  helperform_use, helperformlocal_use, GlobalUse, getglobal_use, defglobal_use, setglobal_use,
  callglobal_use, tailcallglobal_use, returnglobal_use, forloopguardedinc_use,
  forloopguardeddec_use, testglobalidentity_use,
}
use creme.Value.{ℤ, pos, negsuc}

-- An index below the number.
abbrev pub IsIndex : ℤ → ℕ → Type 0
IsIndex z n = (i : ℕ) × (z ≡ pos i) × (i < n)

-- A real opcode, with its pool operand inside its pool.
pub record IsChecked (body : Body) (inner : Protos) (ins : Instruction) : Type 0 where
  pub code : ℕ
  pub is_op : ins.op ≡ pos code
  pub is_real : code < op_count
  pub in_pool :
      (o : Operand) (p : Pool) → PoolUse code o p → IsIndex (operand o ins) (pool_size p body inner)

-- Such an instruction, with its global operand inside a table of `n` globals.
pub record IsResolved (body : Body) (inner : Protos) (n : ℕ) (ins : Instruction) : Type 0 where
  pub checked : IsChecked body inner ins
  pub in_table : (f : Operand) → GlobalUse checked.code f → IsIndex (operand f ins) n

pub data AllCode (P : Instruction → Type 0) : List (Instruction × InsPos) → Type 0 where
  no_code : AllCode P []
  more_code :
      {ins : Instruction × InsPos} {code : List (Instruction × InsPos)}
      → P ins.0
      → AllCode P code
      → AllCode P (ins ∷ code)

pub AllCode-weaken :
    {P Q : Instruction → Type 0} (code : List (Instruction × InsPos))
    → ((ins : Instruction) → P ins → Q ins)
    → AllCode P code
    → AllCode Q code
AllCode-weaken [] k no_code = no_code
AllCode-weaken (ins ∷ code) k (more_code p ps) = more_code (k ins.0 p) (AllCode-weaken code k ps)

-- Every instruction of the chunk and of the chunks inside it is checked.
mutual
  pub data IsValid : Chunk → Type 0 where
    is_valid :
        {body : Body} {inner : Protos}
        → AllCode (IsChecked body inner) body.code
        → AreValid inner
        → IsValid (chunk body inner)

  pub data AreValid : Protos → Type 0 where
    no_valid : AreValid no_protos
    more_valid : {c : Chunk} {cs : Protos} → IsValid c → AreValid cs → AreValid (proto c cs)

-- Every instruction is resolved for a table of `n` globals.
mutual
  pub data IsLoaded (n : ℕ) : Chunk → Type 0 where
    is_loaded :
        {body : Body} {inner : Protos}
        → AllCode (IsResolved body inner n) body.code
        → AreLoaded n inner
        → IsLoaded n (chunk body inner)

  pub data AreLoaded (n : ℕ) : Protos → Type 0 where
    no_loaded : AreLoaded n no_protos
    more_loaded :
        {c : Chunk} {cs : Protos} → IsLoaded n c → AreLoaded n cs → AreLoaded n (proto c cs)

-- The checks have a case for every operation that reads a pool.
pub pool_case_lem :
    (n : ℕ) (o : Operand) (p : Pool) → PoolUse n o p → case_of pool_cases n ≡ some (o, p)
pool_case_lem n o p loadk_use = refl
pool_case_lem n o p casematch_use = refl
pool_case_lem n o p casedispatch_use = refl
pool_case_lem n o p throw_use = refl
pool_case_lem n o p closure_use = refl
pool_case_lem n o p quasiquote_use = refl
pool_case_lem n o p helperform_use = refl
pool_case_lem n o p helperformlocal_use = refl

-- The resolution has a case for every operation on a global.
pub global_case_lem : (n : ℕ) (o : Operand) → GlobalUse n o → case_of global_cases n ≡ some o
global_case_lem n o getglobal_use = refl
global_case_lem n o defglobal_use = refl
global_case_lem n o setglobal_use = refl
global_case_lem n o callglobal_use = refl
global_case_lem n o tailcallglobal_use = refl
global_case_lem n o returnglobal_use = refl
global_case_lem n o forloopguardedinc_use = refl
global_case_lem n o forloopguardeddec_use = refl
global_case_lem n o testglobalidentity_use = refl

require-true : (b : Bool) (why : Abort) {t : Unit {0}} → require b why ≡ ok t → b ≡ true
require-true true why e = refl
require-true false why e = absurd (cc e)

in_range-IsIndex : (z : ℤ) (n : ℕ) → in_range z n ≡ true → IsIndex z n
in_range-IsIndex (pos i) n e = (i, refl, ltb→lt i n e)
in_range-IsIndex (negsuc i) n e = absurd (cc e)

check_pool_use-IsIndex :
    (body : Body) (inner : Protos) (ins : Instruction) (o : Option (Operand × Pool)) {t : Unit {0}}
    → check_pool_use body inner ins o ≡ ok t
    → (u : Operand × Pool) → o ≡ some u
    → IsIndex (operand u.0 ins) (pool_size u.1 body inner)
check_pool_use-IsIndex body inner ins none e u q = absurd (cc q)
check_pool_use-IsIndex body inner ins (some w) e u q =
    let same : w ≡ u = cc q in
    subst (λ x. IsIndex (operand x.0 ins) (pool_size x.1 body inner)) same
      (in_range-IsIndex (operand w.0 ins) (pool_size w.1 body inner) (require-true _ _ e))

validate_opcode-IsChecked :
    (body : Body) (inner : Protos) (ins : Instruction) (op : ℤ) {t : Unit {0}}
    → ins.op ≡ op
    → validate_opcode body inner ins op ≡ ok t
    → IsChecked body inner ins
validate_opcode-IsChecked body inner ins (negsuc n) q e = absurd (cc e)
validate_opcode-IsChecked body inner ins (pos n) q e =
    let (t1, e1, e2) = ok-bind (require (in_range (pos n) op_count) bad_bytecode) _ e in
    record {
      code = n;
      is_op = q;
      is_real = ltb→lt n op_count (require-true _ _ e1);
      in_pool = λ o p is_used.
          check_pool_use-IsIndex body inner ins (case_of pool_cases n) e2 (o, p)
            (pool_case_lem n o p is_used);
    }

validate_code-AllCode :
    (body : Body) (inner : Protos) (code : List (Instruction × InsPos)) {t : Unit {0}}
    → validate_code body inner code ≡ ok t
    → AllCode (IsChecked body inner) code
unfolding validate_code validate_instruction
validate_code-AllCode body inner [] e = no_code
validate_code-AllCode body inner (ins ∷ code) e =
    let (t1, e1, e2) = ok-bind (validate_instruction body inner ins.0) _ e in
    more_code (validate_opcode-IsChecked body inner ins.0 (ins.0).op refl e1)
      (validate_code-AllCode body inner code e2)

mutual
  unfolding validate_chunk

  pub validate_chunk-IsValid : (c : Chunk) {t : Unit {0}} → validate_chunk c ≡ ok t → IsValid c
  validate_chunk-IsValid (chunk body inner) e =
      let (t1, e1, e2) = ok-bind (validate_code body inner body.code) _ e in
      is_valid (validate_code-AllCode body inner body.code e1) (validate_protos-AreValid inner e2)

  pub validate_protos-AreValid :
      (cs : Protos) {t : Unit {0}} → validate_protos cs ≡ ok t → AreValid cs
  validate_protos-AreValid no_protos e = no_valid
  validate_protos-AreValid (proto c cs) e =
      let (t1, e1, e2) = ok-bind (validate_chunk c) _ e in
      more_valid (validate_chunk-IsValid c e1) (validate_protos-AreValid cs e2)
