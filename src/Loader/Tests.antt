-- ===== src/Loader/Tests.antt =====
-- The loader of icecreme/loader.c on a file of one instruction.
use creme.Common.{ℕ, ◌≡◌, refl, true, some, List, [], ◌∷◌, Result, ok, length, arith}
use creme.Csv.Parse.{Bytes}
use creme.Loader.Code.{Chunk}
use creme.Loader.Datum.{Numbers}
use creme.Loader.Globals.{creme_global_intern}
use creme.Loader.Primitives.{read_i32}
use creme.Loader.Proofs.Globals.{InternEnds, creme_global_intern_lem}
use creme.Loader.Proofs.Words.{le_bytes, read_i32-le_bytes}
use creme.Radix.Spec.{free_end, free_byte}
use creme.Loader.State.{GlobalCell, LoadState}
use creme.Loader.Validate.{Zstd, content_size, creme_load_from_bytes}
use creme.Treelist.Node.{empty_leaf}
use creme.Value.{pos, negsuc, nil, int, Heap}

-- A frame that holds its content as it is.
abbrev stored : Zstd
stored = record {
  get_frame_content_size = λ comp. content_size (length comp);
  decompress = λ size comp. some comp;
}

-- Every text is the number 0.
abbrev zeros : Numbers
zeros = record {
  mpz_set_str = λ text. some (pos 0);
  make_bigint_from_mpz = int;
  make_rational_from_mpq = λ num den. int num;
  make_complex = λ real imag. real;
}

abbrev blank_heap : Heap
blank_heap = record {
  next = 0;
  pairs = λ a. record { car = nil; cdr = nil };
  vectors = λ a. [];
  trees = λ a. empty_leaf;
  mutables = λ a. empty_leaf;
}

abbrev no_bytevectors : ℕ → Bytes
no_bytevectors a = []

abbrev car_global : GlobalCell
car_global = record { name = b'c' ∷ b'a' ∷ b'r' ∷ []; value = nil; bound = true }

-- A pool with the name f, no families, and a chunk with GETGLOBAL of the constant 0, the symbol f.
abbrev one_instruction : Bytes
one_instruction =
    b'I' ∷ b'C' ∷ b'E' ∷ b'1' ∷ 1 ∷ 0 ∷ 0 ∷ 0 ∷ 1 ∷ 0 ∷ 0 ∷ 0 ∷ b'f' ∷ 0 ∷ 0 ∷ 0 ∷ 0 ∷ 1 ∷ 0 ∷ 0 ∷ 0
    ∷ 7 ∷ 0 ∷ 0 ∷ 0 ∷ 0 ∷ 0 ∷ 0 ∷ 0 ∷ 0 ∷ 0 ∷ 0 ∷ 0 ∷ 0 ∷ 0 ∷ 0 ∷ 0 ∷ 0 ∷ 0 ∷ 0 ∷ 0 ∷ 0 ∷ 1 ∷ 0 ∷ 0
    ∷ 0 ∷ 4 ∷ 0 ∷ 0 ∷ 0 ∷ 0 ∷ 0 ∷ 0 ∷ 0 ∷ 0 ∷ 0 ∷ 0 ∷ 0 ∷ 0 ∷ 0 ∷ 0 ∷ 0 ∷ 0 ∷ 2 ∷ 0 ∷ 0 ∷ 0 ∷ 0 ∷ 0
    ∷ 0 ∷ 0 ∷ 0 ∷ 0 ∷ 0 ∷ 0 ∷ 0 ∷ 0 ∷ 0 ∷ []

abbrev load_one : Result ((Chunk × List Bytes) × LoadState)
load_one =
    creme_load_from_bytes stored zeros blank_heap no_bytevectors (car_global ∷ []) one_instruction

abbrev some_state : LoadState
some_state = record {
  rest = 254 ∷ 255 ∷ 255 ∷ 255 ∷ 9 ∷ [];
  strings = [];
  labels = [];
  heap = blank_heap;
  bytevectors = no_bytevectors;
  globals = car_global ∷ [];
}

creme_global_intern_example :
    InternEnds some_state
      (b'c' ∷ b'd' ∷ b'r' ∷ [])
      (creme_global_intern (b'c' ∷ b'd' ∷ b'r' ∷ []) some_state)
creme_global_intern_example =
    creme_global_intern_lem (b'c' ∷ b'd' ∷ b'r' ∷ []) some_state
      (free_byte refl (free_byte refl (free_byte refl free_end))) (omega arith)

read_i32-le_bytes_example : read_i32 some_state ≡ ok (negsuc 1, record some_state { rest = 9 ∷ [] })
unfolding le_bytes
read_i32-le_bytes_example = read_i32-le_bytes (negsuc 1) (9 ∷ []) some_state (omega arith) refl
