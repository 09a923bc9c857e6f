-- ===== src/Json/Values.antt =====
-- The recursive part of the reader of icecreme/json.c, and `json-read`.
use creme.Common.{
  ℕ, zero, suc, ◌*◌, Bool, Option, none, some, true, false, ◌||◌, List, [], ◌∷◌, fail, no_fuel,
  bad_json, too_deep, length, get_elem?, leb, ◌==◌, if◌then◌else◌,
}
use creme.Csv.Builtins.{arg_bytes}
use creme.Csv.Parse.{Bytes}
use creme.Json.Buffer.{true_text, false_text, null_text}
use creme.Json.Reader.{jr_skip_ws, json_parse_string, is_digit, json_parse_number}
use creme.Value.{Value, nil, bool, str, M, pure, ◌>>=◌, ◌>>◌, lift, stop, check, cons, new_vector}

abbrev pub json_max_depth : ℕ
json_max_depth = 1000

-- `memcmp` with a text, and what is left behind it.
abbrev pub strip : Bytes → Bytes → Option Bytes
strip [] s = some s
strip (c ∷ text) [] = none
strip (c ∷ text) (d ∷ s) = if d == c then strip text s else none

abbrev pub literal : Bytes → Value → Bytes → M (Value × Bytes)
literal text v s = elim (strip text s) [ none ↦ stop bad_json | some rest ↦ pure (v, rest) ]

abbrev pub parse_string_value : Bytes → M (Value × Bytes)
parse_string_value s = do r ← lift (json_parse_string s); pure (str r.0, r.1)

-- The byte must come next, and is taken.
unfoldable pub expect : ℕ → Bytes → M Bytes
expect c [] = stop bad_json
expect c (d ∷ s) = if d == c then pure s else stop bad_json

-- A key and the colon behind it.
unfoldable pub parse_key : Bytes → M (Value × Bytes)
parse_key s = do
  s1 ← expect b'"' (jr_skip_ws s)
  key ← lift (json_parse_string s1)
  s2 ← expect b':' (jr_skip_ws key.1)
  pure (str key.0, jr_skip_ws s2)

-- The loop that makes the alist, the last entry first.
unfoldable pub alist_of : List Value → M Value
alist_of [] = pure nil
alist_of (entry ∷ entries) = do result ← alist_of entries; cons entry result

abbrev pub first_is : ℕ → Bytes → Bool
first_is c [] = false
first_is c (d ∷ s) = d == c

abbrev pub behind_first_byte : Bytes → Bytes
behind_first_byte [] = []
behind_first_byte (c ∷ s) = s

-- Behind an entry or an item, `next` is the next round of the loop, which `close` ends.
unfoldable pub more : ℕ → (Bytes → M (List Value × Bytes)) → Value → Bytes → M (List Value × Bytes)
more close next v s = elim (first_is b',' s) [
  | true ↦ do r ← next (behind_first_byte s); pure (v ∷ r.0, r.1)
  | false ↦ if first_is close s then pure (v ∷ [], behind_first_byte s) else stop bad_json
]

-- Behind the opening brace and the white space; `entries` is the loop over the entries.
unfoldable pub json_parse_object : (Bytes → M (List Value × Bytes)) → Bytes → M (Value × Bytes)
json_parse_object entries s = elim (first_is b'}' s) [
  | true ↦ pure (nil, behind_first_byte s)
  | false ↦ do r ← entries s; result ← alist_of r.0; pure (result, r.1)
]

-- Behind the opening bracket and the white space; `items` is the loop over the items.
unfoldable pub json_parse_array : (Bytes → M (List Value × Bytes)) → Bytes → M (Value × Bytes)
json_parse_array items s = elim (first_is b']' s) [
  | true ↦ do vec ← new_vector []; pure (vec, behind_first_byte s)
  | false ↦ do r ← items s; vec ← new_vector r.0; pure (vec, r.1)
]

module _ (strtod : Bytes → ℕ) where
  unfoldable pub parse_scalar : ℕ → Bytes → M (Value × Bytes)
  parse_scalar c s =
      if c == b'"'
      then parse_string_value s
      else if c == b't'
      then literal true_text (bool true) (c ∷ s)
      else if c == b'f'
      then literal false_text (bool false) (c ∷ s)
      else if c == b'n'
      then literal null_text nil (c ∷ s)
      else if c == b'-' || is_digit c
      then lift (json_parse_number strtod (c ∷ s))
      else stop bad_json

  -- Behind the white space.
  unfoldable pub json_parse_value_impl :
      (entries items : Bytes → M (List Value × Bytes)) → Bytes → M (Value × Bytes)
  json_parse_value_impl entries items [] = stop bad_json
  json_parse_value_impl entries items (c ∷ s) = elim (c == b'{') [
    | true ↦ json_parse_object entries (jr_skip_ws s)
    | false ↦ elim (c == b'[') [
      | true ↦ json_parse_array items (jr_skip_ws s)
      | false ↦ parse_scalar c s
    ]
  ]

  -- Each value and each round of a loop takes from `rounds`.
  unfoldable mutual
    -- At the depth of the value around it.
    pub json_parse_value : ℕ → ℕ → Bytes → M (Value × Bytes)
    json_parse_value zero depth s = lift (fail no_fuel)
    json_parse_value (suc rounds) depth s = elim (leb (suc depth) json_max_depth) [
      | true ↦
          json_parse_value_impl (λ s'. parse_entries rounds (suc depth) s')
            (λ s'. parse_items rounds (suc depth) s') (jr_skip_ws s)
      | false ↦ stop too_deep
    ]

    -- The loop over the entries of an object.
    pub parse_entries : ℕ → ℕ → Bytes → M (List Value × Bytes)
    parse_entries zero depth s = lift (fail no_fuel)
    parse_entries (suc rounds) depth s = do
      key ← parse_key s
      val ← json_parse_value rounds depth key.1
      entry ← cons key.0 val.0
      more b'}' (λ s'. parse_entries rounds depth s') entry (jr_skip_ws val.1)

    -- The loop over the items of an array.
    pub parse_items : ℕ → ℕ → Bytes → M (List Value × Bytes)
    parse_items zero depth s = lift (fail no_fuel)
    parse_items (suc rounds) depth s = do
      v ← json_parse_value rounds depth (jr_skip_ws s)
      more b']' (λ s'. parse_items rounds depth s') v.0 (jr_skip_ws v.1)

  -- The document, and nothing but white space behind it: two rounds for each byte are enough.
  unfoldable pub json_read_bytes : Bytes → M Value
  json_read_bytes bytes = do
    v ← json_parse_value (suc (length bytes * 2)) 0 bytes
    check (length (jr_skip_ws v.1) == 0) bad_json
    pure v.0

  unfoldable pub bi_json_read : List Value → M Value
  bi_json_read args = do bytes ← arg_bytes (get_elem? args 0); json_read_bytes bytes
