-- ===== src/Loader/Primitives.antt =====
-- The primitives of the loader (icecreme/loader.c): little-endian numbers, counts, bytes, and the
-- string pool.
use creme.Common.{
  ℕ, ◌+◌, ◌-◌, ◌*◌, ◌^◌, none, some, List, [], ◌∷◌, ok, fail, abort, bad_access, bad_bytecode,
  length, get_elem?, take, drop, ltb, leb, if◌then◌else◌,
}
use creme.Csv.Builtins.{same_bytes}
use creme.Csv.Parse.{Bytes}
use creme.Loader.State.{LoadState, Load, done, ◌>>=◌, ◌>>◌, corrupt, insist, reading, read_each}
use creme.Value.{ℤ, pos, negsuc}

-- In the buffer mode, which the reader is in when it has decompressed the body.
unfoldable pub must_read : ℕ → Load Bytes
must_read n s =
    if leb n (length s.rest)
    then ok (take n s.rest, record s { rest = drop n s.rest })
    else fail (abort bad_bytecode)

-- The number whose bytes are given, the lowest first.
unfoldable pub little_endian : Bytes → ℕ
little_endian [] = 0
little_endian (c ∷ bytes) = c + little_endian bytes * 256

-- The two's complement number of `2 * half` patterns.
abbrev pub signed : ℕ → ℕ → ℤ
signed half n = if ltb n half then pos n else negsuc (half * 2 - 1 - n)

unfoldable pub read_i32 : Load ℤ
read_i32 = do b ← must_read 4; done (signed (2 ^ 31) (little_endian b))

unfoldable pub read_i64 : Load ℤ
read_i64 = do b ← must_read 8; done (signed (2 ^ 63) (little_endian b))

-- The bits of a double.
unfoldable pub read_f64 : Load ℕ
read_f64 = do b ← must_read 8; done (little_endian b)

unfoldable pub read_u8 : Load ℕ
read_u8 = do b ← must_read 1; done (little_endian b)

unfoldable pub read_u24 : Load ℕ
read_u24 = do b ← must_read 3; done (little_endian b)

unfoldable pub read_u16 : Load ℕ
read_u16 = do b ← must_read 2; done (little_endian b)

abbrev pub loader_max_count : ℕ
loader_max_count = 2097152

-- A length or count, from 0 to the largest that is plausible.
abbrev pub plausible : ℤ → Load ℕ
plausible (pos n) = do insist (leb n loader_max_count) bad_bytecode; done n
plausible (negsuc n) = corrupt

unfoldable pub read_count : Load ℕ
read_count = do v ← read_i32; plausible v

unfoldable pub read_bytes : ℤ → Load Bytes
read_bytes len = do n ← plausible len; must_read n

abbrev pub read_pool_entry : Load Bytes
read_pool_entry = do len ← read_i32; read_bytes len

unfoldable pub read_string_pool : Load (Unit {0})
read_string_pool = do
  n ← read_count
  strings ← read_each read_pool_entry n
  λ s. ok (tt, record s { strings = strings })

-- An element of an array, whose index has been checked.
abbrev pub element : {A : Type 0} → List A → ℕ → Load A
element items i s = elim (get_elem? items i) [ none ↦ fail bad_access | some a ↦ ok (a, s) ]

unfoldable pub read_pooled_string : Load Bytes
read_pooled_string = do
  idx ← read_u24
  strings ← reading (λ s. LoadState.strings s)
  insist (ltb idx (length strings)) bad_bytecode
  element strings idx

abbrev pub format_version : ℕ
format_version = 1

-- The version is the fourth byte of the magic, from '0' on.
unfoldable pub check_magic_and_version : Load (Unit {0})
check_magic_and_version = do
  magic ← must_read 4
  insist (same_bytes (take 3 magic) (b'I' ∷ b'C' ∷ b'E' ∷ [])) bad_bytecode
  insist (same_bytes (drop 3 magic) ((b'0' + format_version) ∷ [])) bad_bytecode

-- The family names that a file requires.
unfoldable pub read_required_families : Load (List Bytes)
read_required_families = do n ← read_count; read_each read_pooled_string n
