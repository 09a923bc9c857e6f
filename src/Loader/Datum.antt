-- ===== src/Loader/Datum.antt =====
-- The datum reader of icecreme/loader.c: constants, with labels for shared and cyclic parts.
use creme.Common.{
  ℕ, zero, suc, ◌-◌, ◌^◌, Bool, false, not, Option, none, some, List, [], ◌∷◌, ◌++◌, ok, fail,
  abort, bad_bytecode, too_deep, length, get_elem?, set, replicate, ltb, leb, ◌==◌, if◌then◌else◌,
}
use creme.Csv.Parse.{Bytes}
use creme.Loader.Globals.{resolve_builtin_const}
use creme.Loader.Primitives.{
  read_i32, read_i64, read_f64, read_u8, read_count, read_bytes, read_pooled_string,
}
use creme.Loader.State.{
  DatumLabel, LoadState, Load, done, ◌>>=◌, ◌>>◌, corrupt, insist, reading, read_each,
}
use creme.Value.{ℤ, pos, negsuc, Value, nil, bool, flo, char, sym, str, pair, vector, other, update}

-- The tags in the order of their numbers; the last two stand before the tag of another datum, or
-- for a datum that has been read.
pub data DatumTag : Type 0 where
  tag_int tag_float tag_rational tag_complex tag_sym tag_str tag_bool tag_nil : DatumTag
  tag_char tag_pair tag_vector tag_blob tag_builtin tag_label_def tag_label_ref : DatumTag

abbrev pub datum_tags : List DatumTag
datum_tags =
    tag_int ∷ tag_float ∷ tag_rational ∷ tag_complex ∷ tag_sym ∷ tag_str ∷ tag_bool ∷ tag_nil
    ∷ tag_char ∷ tag_pair ∷ tag_vector ∷ tag_blob ∷ tag_builtin ∷ tag_label_def ∷ tag_label_ref ∷ []

unfoldable pub read_tag : Load DatumTag
read_tag = do
  tag ← read_u8
  λ s. elim (get_elem? datum_tags tag) [ none ↦ fail (abort bad_bytecode) | some t ↦ ok (t, s) ]

abbrev pub datum_labels_cap : ℕ
datum_labels_cap = 256

unfoldable pub datum_label_add : ℤ → Value → Load (Unit {0})
datum_label_add id v s =
    if leb datum_labels_cap (length s.labels)
    then fail (abort bad_bytecode)
    else ok (tt, record s { labels = s.labels ++ (record { id = id; value = v } ∷ []) })

abbrev pub same_int : ℤ → ℤ → Bool
same_int (pos a) (pos b) = a == b
same_int (negsuc a) (negsuc b) = a == b
same_int _ _ = false

unfoldable pub datum_label_find : List DatumLabel → ℤ → Option Value
datum_label_find [] id = none
datum_label_find (label ∷ labels) id =
    if same_int label.id id then some label.value else datum_label_find labels id

-- `def_id`, which is -1 with no label, and the value that gets it.
unfoldable pub label_value : ℤ → Value → Load Value
label_value (pos id) v = do datum_label_add (pos id) v; done v
label_value (negsuc id) v = done v

-- A pair whose parts are not read yet.
unfoldable pub new_pair : Load ℕ
new_pair s =
    let h = s.heap in
    ok (
      h.next,
      record s {
        heap = record h {
          next = suc h.next;
          pairs = update h.pairs h.next (record { car = nil; cdr = nil });
        };
      },
    )

abbrev pub set_car : ℕ → Value → Load (Unit {0})
set_car a v s =
    let h = s.heap in
    let p = h.pairs a in
    ok (tt, record s { heap = record h { pairs = update h.pairs a (record p { car = v }) } })

abbrev pub set_cdr : ℕ → Value → Load (Unit {0})
set_cdr a v s =
    let h = s.heap in
    let p = h.pairs a in
    ok (tt, record s { heap = record h { pairs = update h.pairs a (record p { cdr = v }) } })

-- A vector whose items are not read yet.
unfoldable pub new_items : ℕ → Load ℕ
new_items n s =
    let h = s.heap in
    ok (
      h.next,
      record s {
        heap = record h { next = suc h.next; vectors = update h.vectors h.next (replicate n nil) };
      },
    )

abbrev pub set_item : ℕ → ℕ → Value → Load (Unit {0})
set_item a i v s =
    let h = s.heap in
    ok (tt, record s { heap = record h { vectors = update h.vectors a (set (h.vectors a) i v) } })

-- `T_BYTEVECTOR`
abbrev pub bytevector_tag : ℕ
bytevector_tag = 9

unfoldable pub new_bytevector : Bytes → Load Value
new_bytevector bytes s =
    let h = s.heap in
    ok (
      other bytevector_tag h.next,
      record s {
        heap = record h { next = suc h.next };
        bytevectors = update s.bytevectors h.next bytes;
      },
    )

-- The loop over the items of a vector from the index `i`, `n` of which are left.
unfoldable pub read_items : Load Value → ℕ → ℕ → ℕ → Load (Unit {0})
read_items read a i zero = done tt
read_items read a i (suc n) = do v ← read; set_item a i v; read_items read a (suc i) n

abbrev pub loader_max_datum_depth : ℕ
loader_max_datum_depth = 4000

abbrev pub is_positive : ℤ → Bool
is_positive (pos n) = ltb 0 n
is_positive (negsuc n) = false

-- The numbers of GMP, and the values that the machine makes of them: `mpz_set_str` in base 10
-- refuses a text that is no integer, `make_bigint_from_mpz`, `make_rational_from_mpq` and
-- `make_complex` make a value of a number's tag.
pub record Numbers : Type 0 where
  pub mpz_set_str : Bytes → Option ℤ
  pub make_bigint_from_mpz : ℤ → Value
  pub make_rational_from_mpq : ℤ → ℤ → Value
  pub make_complex : Value → Value → Value

-- A character holds an `int64_t`, here as its bits.
abbrev pub char_of : ℤ → Value
char_of (pos n) = char n
char_of (negsuc n) = char (2 ^ 64 - 1 - n)

module _ (N : Numbers) where
  abbrev pub parsed : Bytes → Load ℤ
  parsed buf s = elim (Numbers.mpz_set_str N buf) [
    | none ↦ fail (abort bad_bytecode)
    | some z ↦ ok (z, s)
  ]

  unfoldable pub read_int_str_into : Load ℤ
  read_int_str_into = do len ← read_i32; buf ← read_bytes len; parsed buf

  -- Behind the tag; `read` reads a datum inside.
  unfoldable pub read_payload : Load Value → ℤ → DatumTag → Load Value
  read_payload read id tag_int = do
    z ← read_int_str_into
    label_value id (Numbers.make_bigint_from_mpz N z)
  read_payload read id tag_float = do f ← read_f64; label_value id (flo f)
  read_payload read id tag_rational = do
    num ← read_int_str_into
    den ← read_int_str_into
    insist (is_positive den) bad_bytecode
    label_value id (Numbers.make_rational_from_mpq N num den)
  read_payload read id tag_complex = do
    real ← read
    imag ← read
    label_value id (Numbers.make_complex N real imag)
  read_payload read id tag_sym = do s ← read_pooled_string; label_value id (sym s)
  read_payload read id tag_str = do s ← read_pooled_string; label_value id (str s)
  read_payload read id tag_bool = do b ← read_u8; label_value id (bool (not (b == 0)))
  read_payload read id tag_nil = label_value id nil
  read_payload read id tag_char = do c ← read_i64; label_value id (char_of c)
  read_payload read id tag_pair = do
    p ← new_pair
    result ← label_value id (pair p)
    a ← read
    set_car p a
    d ← read
    set_cdr p d
    done result
  read_payload read id tag_vector = do
    n ← read_count
    vec ← new_items n
    result ← label_value id (vector vec)
    read_items read vec 0 n
    done result
  read_payload read id tag_blob = do
    n ← read_count
    bytes ← read_each read_u8 n
    v ← new_bytevector bytes
    label_value id v
  read_payload read id tag_builtin = do
    name ← read_pooled_string
    v ← resolve_builtin_const name
    label_value id v
  read_payload read id tag_label_def = corrupt
  read_payload read id tag_label_ref = corrupt

  -- A reference to a label, a labelled datum, or a datum with no label.
  unfoldable pub read_tagged : Load Value → DatumTag → Load Value
  read_tagged read tag_label_ref = do
    id ← read_i32
    labels ← reading (λ s. LoadState.labels s)
    λ s. elim (datum_label_find labels id) [ none ↦ fail (abort bad_bytecode) | some v ↦ ok (v, s) ]
  read_tagged read tag_label_def = do id ← read_i32; tag ← read_tag; read_payload read id tag
  read_tagged read tag = read_payload read (negsuc 0) tag

  abbrev pub read_datum_rec_impl : Load Value → Load Value
  read_datum_rec_impl read = do tag ← read_tag; read_tagged read tag

  -- `room` is what is left of the depth, so that the calls end.
  unfoldable pub read_datum_rec : ℕ → Load Value
  read_datum_rec zero = λ s. fail (abort too_deep)
  read_datum_rec (suc room) = read_datum_rec_impl (read_datum_rec room)

  unfoldable pub read_datum : Load Value
  read_datum = do (λ s. ok (tt, record s { labels = [] })); read_datum_rec loader_max_datum_depth
