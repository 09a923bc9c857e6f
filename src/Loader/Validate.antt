-- ===== src/Loader/Validate.antt =====
-- The checks of a chunk, the resolution of its globals, and the whole load (icecreme/loader.c).
use creme.Common.{
  ℕ, zero, suc, Bool, true, false, Option, none, some, List, [], ◌∷◌, Result, ok, fail, abort,
  bad_bytecode, too_large, length, leb, ◌==◌, if◌then◌else◌, require,
}
use creme.Common
use creme.Csv.Parse.{Bytes}
use creme.Csv.Write.{int_max}
use creme.Loader.Code.{
  Instruction, InsPos, Body, Chunk, Protos, chunk, no_protos, proto, op_count, in_range, read_chunk,
  loader_max_chunk_depth,
}
use creme.Loader.Datum.{Numbers}
use creme.Loader.Globals.{creme_global_intern}
use creme.Loader.Primitives.{
  element, check_magic_and_version, read_string_pool, read_required_families,
}
use creme.Loader.State.{
  GlobalCell, LoadState, Load, done, ◌>>=◌, ◌>>◌, corrupt, insist, reading, lifted,
}
use creme.Value.{ℤ, pos, negsuc, Value, str, sym, Heap}

-- The operands of an instruction.
pub data Operand : Type 0 where
  in_a in_b in_c in_d : Operand

abbrev pub operand : Operand → Instruction → ℤ
operand in_a ins = ins.a
operand in_b ins = ins.b
operand in_c ins = ins.c
operand in_d ins = ins.d

abbrev pub with_operand : Operand → ℤ → Instruction → Instruction
with_operand in_a i ins = record ins { a = i }
with_operand in_b i ins = record ins { b = i }
with_operand in_c i ins = record ins { c = i }
with_operand in_d i ins = record ins { d = i }

pub data Pool : Type 0 where
  const_pool template_pool table_pool proto_pool : Pool

abbrev pub proto_count : Protos → ℕ
proto_count no_protos = 0
proto_count (proto c cs) = suc (proto_count cs)

abbrev pub pool_size : Pool → Body → Protos → ℕ
pool_size const_pool body inner = length body.consts
pool_size template_pool body inner = length body.qq_templates
pool_size table_pool body inner = length body.case_tables
pool_size proto_pool body inner = proto_count inner

-- The `case` of a `switch`.
abbrev pub case_of : {A : Type 0} → List (ℕ × A) → ℕ → Option A
case_of [] op = none
case_of (c ∷ cases) op = if op == c.0 then some c.1 else case_of cases op

-- The operations whose operand is an index into a pool: LOADK, THROW, HELPERFORM, HELPERFORMLOCAL,
-- CASEMATCH, QUASIQUOTE, CASEDISPATCH and CLOSURE.
abbrev pub pool_cases : List (ℕ × (Operand × Pool))
pool_cases =
    (0, (in_b, const_pool))
    ∷ (66, (in_a, const_pool))
    ∷ (117, (in_b, const_pool))
    ∷ (118, (in_b, const_pool))
    ∷ (64, (in_c, const_pool))
    ∷ (115, (in_b, template_pool))
    ∷ (65, (in_b, table_pool))
    ∷ (107, (in_b, proto_pool))
    ∷ []

-- Those whose operand is a name: GETGLOBAL, DEFGLOBAL, SETGLOBAL, CALLGLOBAL, TAILCALLGLOBAL,
-- FORLOOPGUARDEDINC, FORLOOPGUARDEDDEC, RETURNGLOBAL and TESTGLOBALIDENTITY.
abbrev pub global_cases : List (ℕ × Operand)
global_cases =
    (7, in_b)
    ∷ (8, in_a)
    ∷ (9, in_a)
    ∷ (89, in_d)
    ∷ (90, in_d)
    ∷ (121, in_d)
    ∷ (122, in_d)
    ∷ (96, in_a)
    ∷ (123, in_a)
    ∷ []

abbrev pub check_pool_index : ℤ → ℕ → Result (Unit {0})
check_pool_index idx count = require (in_range idx count) bad_bytecode

abbrev pub check_pool_use :
    Body → Protos → Instruction → Option (Operand × Pool) → Result (Unit {0})
check_pool_use body inner ins none = ok tt
check_pool_use body inner ins (some u) =
    check_pool_index (operand u.0 ins) (pool_size u.1 body inner)

-- An opcode that is a real one, and its use of a pool.
abbrev pub validate_opcode : Body → Protos → Instruction → ℤ → Result (Unit {0})
validate_opcode body inner ins (negsuc n) = fail (abort bad_bytecode)
validate_opcode body inner ins (pos n) =
    Common.◌>>◌ (require (in_range (pos n) op_count) bad_bytecode)
      (check_pool_use body inner ins (case_of pool_cases n))

unfoldable pub validate_instruction : Body → Protos → Instruction → Result (Unit {0})
validate_instruction body inner ins = validate_opcode body inner ins ins.op

-- The loop over the instructions.
unfoldable pub validate_code : Body → Protos → List (Instruction × InsPos) → Result (Unit {0})
validate_code body inner [] = ok tt
validate_code body inner (ins ∷ code) =
    Common.◌>>◌ (validate_instruction body inner ins.0) (validate_code body inner code)

unfoldable mutual
  pub validate_chunk : Chunk → Result (Unit {0})
  validate_chunk (chunk body inner) =
      Common.◌>>◌ (validate_code body inner body.code) (validate_protos inner)

  pub validate_protos : Protos → Result (Unit {0})
  validate_protos no_protos = ok tt
  validate_protos (proto c cs) = Common.◌>>◌ (validate_chunk c) (validate_protos cs)

-- The bytes of a symbol or a string.
abbrev pub name_of : Value → Load Bytes
name_of (sym s) = done s
name_of (str s) = done s
name_of _ = corrupt

unfoldable pub global_name_const : Body → ℤ → Load Bytes
global_name_const body (negsuc n) = corrupt
global_name_const body (pos n) = do
  insist (in_range (pos n) (length body.consts)) bad_bytecode
  v ← element body.consts n
  name_of v

abbrev pub global_case : ℤ → Option Operand
global_case (pos n) = case_of global_cases n
global_case (negsuc n) = none

-- The name at the operand is replaced by the index of its global.
abbrev pub resolve_operand : Body → Instruction → Option Operand → Load Instruction
resolve_operand body ins none = done ins
resolve_operand body ins (some f) = do
  name ← global_name_const body (operand f ins)
  slot ← creme_global_intern name
  done (with_operand f (pos slot) ins)

unfoldable pub resolve_instruction : Body → Instruction → Load Instruction
resolve_instruction body ins = resolve_operand body ins (global_case ins.op)

-- The loop over the instructions.
unfoldable pub resolve_code :
    Body → List (Instruction × InsPos) → Load (List (Instruction × InsPos))
resolve_code body [] = done []
resolve_code body (ins ∷ code) = do
  ins' ← resolve_instruction body ins.0
  code' ← resolve_code body code
  done ((ins', ins.1) ∷ code')

unfoldable mutual
  pub resolve_globals : Chunk → Load Chunk
  resolve_globals (chunk body inner) = do
    code ← resolve_code body body.code
    inner' ← resolve_proto_globals inner
    done (chunk (record body { code = code }) inner')

  pub resolve_proto_globals : Protos → Load Protos
  resolve_proto_globals no_protos = done no_protos
  resolve_proto_globals (proto c cs) = do
    c' ← resolve_globals c
    cs' ← resolve_proto_globals cs
    done (proto c' cs')

-- What `ZSTD_getFrameContentSize` gives.
pub data FrameSize : Type 0 where
  contentsize_error contentsize_unknown : FrameSize
  content_size : ℕ → FrameSize

-- The two functions of zstd that the loader calls; `none` is an error of the second.
pub record Zstd : Type 0 where
  pub get_frame_content_size : Bytes → FrameSize
  pub decompress : ℕ → Bytes → Option Bytes

module _ (Z : Zstd) where
  abbrev pub decompressed : FrameSize → Bytes → Result Bytes
  decompressed contentsize_error comp = fail (abort bad_bytecode)
  decompressed contentsize_unknown comp = fail (abort bad_bytecode)
  decompressed (content_size sz) comp =
      if leb sz int_max
      then (elim (Zstd.decompress Z sz comp) [
        | none ↦ fail (abort bad_bytecode)
        | some body ↦ ok body
      ])
      else fail (abort bad_bytecode)

  -- In the buffer mode: what is left is one frame, whose content is read from now on.
  unfoldable pub reader_decompress_body : Load (Unit {0})
  reader_decompress_body = do
    comp ← reading (λ s. LoadState.rest s)
    body ← lifted (decompressed (Zstd.get_frame_content_size Z comp) comp)
    λ s. ok (tt, record s { rest = body })

module _ (Z : Zstd) (N : Numbers) where
  abbrev pub load_body : Load (Chunk × List Bytes)
  load_body = do
    check_magic_and_version
    reader_decompress_body Z
    read_string_pool
    families ← read_required_families
    c ← read_chunk N loader_max_chunk_depth
    lifted (validate_chunk c)
    c' ← resolve_globals c
    done (c', families)

  -- A fresh reader on the bytes, in a machine with a heap, bytevectors and globals.
  unfoldable pub creme_load_from_bytes :
      Heap → (ℕ → Bytes) → List GlobalCell → Bytes → Result ((Chunk × List Bytes) × LoadState)
  creme_load_from_bytes h bytevectors globals bytes = load_body (record {
    rest = bytes;
    strings = [];
    labels = [];
    heap = h;
    bytevectors = bytevectors;
    globals = globals;
  })
