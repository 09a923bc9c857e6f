-- ===== src/Loader/Proofs/Load.antt =====
-- A whole load of icecreme/loader.c, from any bytes.
use creme.Common.{
  zero, suc, ◌+◌, ◌*◌, ◌^◌, ◌<◌, Bool, true, false, Option, none, some, List, [], ◌∷◌, Result, ok,
  fail, abort, Abort, bad_bytecode, require, if◌then◌else◌,
}
use creme.Common
use creme.Loader.Code.{
  Instruction, InsPos, Body, Chunk, Protos, chunk, no_protos, proto, op_count, in_range,
}
use creme.Loader.Validate.{
  Operand, Pool, case_of, pool_cases, check_pool_use, validate_opcode, validate_instruction,
  validate_code, validate_chunk, validate_protos,
}
use creme.Value.{ℤ, pos, negsuc}

-- It returns or aborts.
data OnlyAborts {A : Type 0} : Result A → Type 0 where
  does_return : (a : A) → OnlyAborts (ok a)
  does_abort : (why : Abort) → OnlyAborts (fail (abort why))

both-OnlyAborts :
    {m n : Result (Unit {0})} → OnlyAborts m → OnlyAborts n → OnlyAborts (Common.◌>>◌ m n)
both-OnlyAborts (does_return t) k = k
both-OnlyAborts (does_abort why) k = does_abort why

require-OnlyAborts : (b : Bool) (why : Abort) → OnlyAborts (require b why)
require-OnlyAborts true why = does_return tt
require-OnlyAborts false why = does_abort why

check_pool_use-OnlyAborts :
    (body : Body) (inner : Protos) (ins : Instruction) (o : Option (Operand × Pool))
    → OnlyAborts (check_pool_use body inner ins o)
check_pool_use-OnlyAborts body inner ins none = does_return tt
check_pool_use-OnlyAborts body inner ins (some u) = require-OnlyAborts _ bad_bytecode

validate_opcode-OnlyAborts :
    (body : Body) (inner : Protos) (ins : Instruction) (op : ℤ)
    → OnlyAborts (validate_opcode body inner ins op)
validate_opcode-OnlyAborts body inner ins (negsuc n) = does_abort bad_bytecode
validate_opcode-OnlyAborts body inner ins (pos n) =
    both-OnlyAborts (require-OnlyAborts (in_range (pos n) op_count) bad_bytecode)
      (check_pool_use-OnlyAborts body inner ins (case_of pool_cases n))

validate_code-OnlyAborts :
    (body : Body) (inner : Protos) (code : List (Instruction × InsPos))
    → OnlyAborts (validate_code body inner code)
unfolding validate_code validate_instruction
validate_code-OnlyAborts body inner [] = does_return tt
validate_code-OnlyAborts body inner (ins ∷ code) =
    both-OnlyAborts (validate_opcode-OnlyAborts body inner ins.0 (ins.0).op)
      (validate_code-OnlyAborts body inner code)

mutual
  unfolding validate_chunk

  validate_chunk-OnlyAborts : (c : Chunk) → OnlyAborts (validate_chunk c)
  validate_chunk-OnlyAborts (chunk body inner) =
      both-OnlyAborts (validate_code-OnlyAborts body inner body.code)
        (validate_protos-OnlyAborts inner)

  validate_protos-OnlyAborts : (cs : Protos) → OnlyAborts (validate_protos cs)
  validate_protos-OnlyAborts no_protos = does_return tt
  validate_protos-OnlyAborts (proto c cs) =
      both-OnlyAborts (validate_chunk-OnlyAborts c) (validate_protos-OnlyAborts cs)
