-- ===== src/Loader/Code.antt =====
-- The chunks that icecreme/loader.c reads.
use creme.Common.{
  ℕ, zero, suc, Bool, true, false, Option, none, some, List, [], ◌∷◌, fail, abort, bad_bytecode,
  too_deep, ltb, ◌==◌,
}
use creme.Csv.Parse.{Bytes}
use creme.Loader.Datum.{Numbers, read_datum}
use creme.Loader.Primitives.{read_i32, read_u8, read_u24, read_u16, read_count, read_pooled_string}
use creme.Loader.State.{Load, done, ◌>>=◌, ◌>>◌, insist, read_each}
use creme.Loader.Template.{
  QqTemplate, CaseDispatchTable, loader_max_qq_depth, read_qq_template, read_case_dispatch_table,
}
use creme.Value.{ℤ, pos, negsuc, Value}

pub record Instruction : Type 0 where
  pub op : ℤ
  pub a : ℤ
  pub b : ℤ
  pub c : ℤ
  pub d : ℤ

-- A position that `has_pos`.
pub record SourcePos : Type 0 where
  pub file : Bytes
  pub line : ℕ
  pub col : ℕ

-- `none` is a position without `has_pos`.
abbrev pub InsPos : Type 0
InsPos = Option SourcePos

pub record UpvalDesc : Type 0 where
  pub from_parent_local : ℕ
  pub index : ℤ
  pub name : Bytes

-- A chunk but for its protos.
pub record Body : Type 0 where
  pub code : List (Instruction × InsPos)
  pub consts : List Value
  pub upvalues : List UpvalDesc
  pub param_count : ℤ
  pub has_rest : ℕ
  pub num_registers : ℤ
  pub name : Bytes
  pub qq_templates : List QqTemplate
  pub case_tables : List CaseDispatchTable

mutual
  pub data Chunk : Type 0 where
    chunk : Body → Protos → Chunk

  pub data Protos : Type 0 where
    no_protos : Protos
    proto : Chunk → Protos → Protos

abbrev pub op_count : ℕ
op_count = 124

-- Whether an `int32_t` is an index below the number.
abbrev pub in_range : ℤ → ℕ → Bool
in_range (pos i) count = ltb i count
in_range (negsuc i) count = false

unfoldable pub read_source_pos : Load InsPos
read_source_pos = do
  file ← read_pooled_string
  line ← read_u24
  col ← read_u16
  done (some (record { file = file; line = line; col = col }))

-- A record of the position, or that of the instruction before: none has no position.
unfoldable pub read_position : InsPos → Load InsPos
read_position before = do
  has ← read_u8
  elim (has == 0) [ true ↦ done before | false ↦ read_source_pos ]

unfoldable pub read_instruction : InsPos → Load (Instruction × InsPos)
read_instruction before = do
  op ← read_i32
  a ← read_i32
  b ← read_i32
  c ← read_i32
  d ← read_i32
  position ← read_position before
  insist (in_range op op_count) bad_bytecode
  done (record { op = op; a = a; b = b; c = c; d = d }, position)

-- The loop over `n` instructions, behind one with the position `before`.
unfoldable pub read_instructions : ℕ → InsPos → Load (List (Instruction × InsPos))
read_instructions zero before = done []
read_instructions (suc n) before = do
  ins ← read_instruction before
  code ← read_instructions n ins.1
  done (ins ∷ code)

unfoldable pub read_upvalue : Load UpvalDesc
read_upvalue = do
  from_parent_local ← read_u8
  index ← read_i32
  name ← read_pooled_string
  done (record { from_parent_local = from_parent_local; index = index; name = name })

-- The loop over `n` protos.
unfoldable pub read_protos : Load Chunk → ℕ → Load Protos
read_protos read zero = done no_protos
read_protos read (suc n) = do c ← read; cs ← read_protos read n; done (proto c cs)

abbrev pub loader_max_chunk_depth : ℕ
loader_max_chunk_depth = 10000

module _ (N : Numbers) where
  -- `read` reads a proto.
  unfoldable pub read_chunk_impl : Load Chunk → Load Chunk
  read_chunk_impl read = do
    n_instrs ← read_count
    code ← read_instructions n_instrs none
    n_consts ← read_count
    consts ← read_each (read_datum N) n_consts
    n_protos ← read_count
    protos ← read_protos read n_protos
    n_upvalues ← read_count
    upvalues ← read_each read_upvalue n_upvalues
    param_count ← read_i32
    has_rest ← read_u8
    num_registers ← read_i32
    name ← read_pooled_string
    n_templates ← read_count
    qq_templates ← read_each (read_qq_template N loader_max_qq_depth) n_templates
    n_tables ← read_count
    case_tables ← read_each read_case_dispatch_table n_tables
    let body : Body = record {
      code = code;
      consts = consts;
      upvalues = upvalues;
      param_count = param_count;
      has_rest = has_rest;
      num_registers = num_registers;
      name = name;
      qq_templates = qq_templates;
      case_tables = case_tables;
    }
    done (chunk body protos)

  -- `room` is what is left of the depth, so that the calls end.
  unfoldable pub read_chunk : ℕ → Load Chunk
  read_chunk zero = λ s. fail (abort too_deep)
  read_chunk (suc room) = read_chunk_impl (read_chunk room)
