-- ===== src/Json/Proofs/Safe.antt =====
-- The recursive part of the reader of icecreme/json.c ends on every input, and two rounds for each
-- byte are enough.
use creme.Common.{
  ℕ, zero, suc, ◌+◌, ◌*◌, ◌<◌, ◌≡◌, bad_json, inl, inr, true, false, ◌||◌, Bool, List, [], ◌∷◌,
  Abort, length, leb, ◌==◌, Bool-cases, if◌then◌else◌, arith,
}
use creme.Csv.Parse.{Bytes}
use creme.Json.Buffer.{true_text, false_text, null_text}
use creme.Json.Proofs.Total.{Left, Some, length-jr_skip_ws}
use creme.Json.Reader.{jr_skip_ws, is_digit}
use creme.Json.Values.{
  json_max_depth, first_is, behind_first_byte, more, json_parse_object, json_parse_array,
  parse_scalar, json_parse_value_impl, json_parse_value, parse_entries, parse_items,
  json_read_bytes,
}
use creme.Value.{ℤ, Value, Heap, M, lift, cons, new_vector, nil, bool, str}
use creme.Value
use creme.Json.Proofs.Steps.{
  finished, gave_up, EndsOn, EndsOn-bind, EndsOn-lift, Finishes-weaken, literal-EndsOn,
  parse_string_value-EndsOn, parse_key-EndsOn, cons-EndsOn, alist_of-EndsOn, json_parse_number-Ends,
}

first_is-behind :
    (c : ℕ) (s : Bytes) → first_is c s ≡ true → length (behind_first_byte s) < length s
first_is-behind c [] e = absurd (cc e)
first_is-behind c (d ∷ s) e = omega arith

more-EndsOn :
    (close : ℕ) (next : Bytes → M (List Value × Bytes)) (v : Value) (s : Bytes)
    → ((s' : Bytes) → length s' < length s → EndsOn (Left (length s')) (next s'))
    → EndsOn (Left (length s)) (more close next v s)
unfolding more
more-EndsOn close next v s k h = elim (Bool-cases (first_is b',' s)) [
  | inl e ↦
      let less = first_is-behind b',' s e in
      rw (e, more)
        (EndsOn-bind _ _ (k (behind_first_byte s) less)
          (λ r left h'. finished (v ∷ r.0, r.1) h' (omega arith)) h)
  | inr e ↦ elim (Bool-cases (first_is close s)) [
    | inl e' ↦
        let less = first_is-behind close s e' in rw (e, more, e') (finished _ h (omega arith))
    | inr e' ↦ rw (e, more, e') (gave_up _)
  ]
]

json_parse_object-EndsOn :
    (entries : Bytes → M (List Value × Bytes)) (s : Bytes)
    → EndsOn (Left (length s)) (entries s)
    → EndsOn (Left (length s)) (json_parse_object entries s)
unfolding json_parse_object
json_parse_object-EndsOn entries s k h = elim (Bool-cases (first_is b'}' s)) [
  | inl e ↦
      let less = first_is-behind b'}' s e in rw (e, json_parse_object) (finished _ h (omega arith))
  | inr e ↦
      rw (e, json_parse_object)
        (EndsOn-bind _ _ k
          (λ r left.
            EndsOn-bind _ _ (alist_of-EndsOn r.0) (λ result t h'. finished (result, r.1) h' left))
          h)
]

json_parse_array-EndsOn :
    (items : Bytes → M (List Value × Bytes)) (s : Bytes)
    → EndsOn (Left (length s)) (items s)
    → EndsOn (Left (length s)) (json_parse_array items s)
unfolding json_parse_array new_vector
json_parse_array-EndsOn items s k h = elim (Bool-cases (first_is b']' s)) [
  | inl e ↦
      let less = first_is-behind b']' s e in rw (e, json_parse_array) (finished _ _ (omega arith))
  | inr e ↦ rw (e, json_parse_array) (EndsOn-bind _ _ k (λ r left h'. finished _ _ left) h)
]

if-EndsOn :
    {A : Type 0} {P : A → Type 0} (b : Bool) {m n : M A}
    → EndsOn P m
    → EndsOn P n
    → EndsOn P (if b then m else n)
if-EndsOn true k l = k
if-EndsOn false k l = l

check-EndsOn :
    (b : Bool) (why : Abort) (v : Value)
    → EndsOn Some (Value.◌>>◌ (Value.check b why) (Value.pure v))
check-EndsOn true why v h = finished v h tt
check-EndsOn false why v h = gave_up why

module _ (strtod : Bytes → ℕ) where
  parse_scalar-EndsOn :
      (c : ℕ) (s : Bytes) → EndsOn (Left (suc (length s))) (parse_scalar strtod c s)
  unfolding parse_scalar
  parse_scalar-EndsOn c s =
      if-EndsOn (c == b'"')
        (λ h. Finishes-weaken (parse_string_value-EndsOn s h) (λ r left. omega arith))
        (if-EndsOn (c == b't') (literal-EndsOn true_text (c ∷ s) (bool true)) (
          if-EndsOn (c == b'f') (literal-EndsOn false_text (c ∷ s) (bool false)) (
            if-EndsOn (c == b'n') (literal-EndsOn null_text (c ∷ s) nil) (
              if-EndsOn (c == b'-' || is_digit c)
                (EndsOn-lift (json_parse_number-Ends strtod (c ∷ s))) (λ h. gave_up _)))))

  json_parse_value_impl-EndsOn :
      (entries items : Bytes → M (List Value × Bytes)) (s : Bytes)
      → ((s' : Bytes) → length s' < length s → EndsOn (Left (length s')) (entries s'))
      → ((s' : Bytes) → length s' < length s → EndsOn (Left (length s')) (items s'))
      → EndsOn (Left (length s)) (json_parse_value_impl strtod entries items s)
  unfolding json_parse_value_impl
  json_parse_value_impl-EndsOn entries items [] k l h = gave_up _
  json_parse_value_impl-EndsOn entries items (c ∷ s) k l h =
      let short = length-jr_skip_ws s in
      elim (Bool-cases (c == b'{')) [
        | inl e ↦
            rw (e, json_parse_value_impl)
              (Finishes-weaken
                (json_parse_object-EndsOn entries (jr_skip_ws s) (k (jr_skip_ws s) (omega arith)) h)
                (λ r left. omega arith))
        | inr e ↦ elim (Bool-cases (c == b'[')) [
          | inl e' ↦
              rw (e, json_parse_value_impl, e')
                (Finishes-weaken
                  (json_parse_array-EndsOn items (jr_skip_ws s) (l (jr_skip_ws s) (omega arith)) h)
                  (λ r left. omega arith))
          | inr e' ↦ rw (e, json_parse_value_impl, e') (parse_scalar-EndsOn c s h)
        ]
      ]

  mutual
    unfolding json_parse_value

    json_parse_value-EndsOn :
        (rounds depth : ℕ) (s : Bytes)
        → length s * 2 < rounds
        → EndsOn (Left (length s)) (json_parse_value strtod rounds depth s)
    json_parse_value-EndsOn zero depth s enough h = elim enough [ ]
    json_parse_value-EndsOn (suc rounds) depth s enough h =
        let short = length-jr_skip_ws s in
        elim (Bool-cases (leb (suc depth) json_max_depth)) [
          | inl e ↦
              rw (e, json_parse_value)
                (Finishes-weaken
                  (json_parse_value_impl-EndsOn (λ s'. parse_entries strtod rounds (suc depth) s')
                    (λ s'. parse_items strtod rounds (suc depth) s') (jr_skip_ws s)
                    (λ s' less. parse_entries-EndsOn rounds (suc depth) s' (omega arith))
                    (λ s' less. parse_items-EndsOn rounds (suc depth) s' (omega arith)) h)
                  (λ r left. omega arith))
          | inr e ↦ rw (e, json_parse_value) (gave_up _)
        ]

    parse_entries-EndsOn :
        (rounds depth : ℕ) (s : Bytes)
        → length s * 2 + 1 < rounds
        → EndsOn (Left (length s)) (parse_entries strtod rounds depth s)
    parse_entries-EndsOn zero depth s enough h = elim enough [ ]
    parse_entries-EndsOn (suc rounds) depth s enough h =
        EndsOn-bind _ _ (parse_key-EndsOn s)
          (λ key less.
            EndsOn-bind _ _ (json_parse_value-EndsOn rounds depth key.1 (omega arith)) (λ val left.
              EndsOn-bind _ _ (cons-EndsOn key.0 val.0) (λ entry t h'.
                let short = length-jr_skip_ws val.1 in
                Finishes-weaken
                  (more-EndsOn b'}' (λ s'. parse_entries strtod rounds depth s') entry
                    (jr_skip_ws val.1)
                    (λ s' less'. parse_entries-EndsOn rounds depth s' (omega arith)) h')
                  (λ r left'. omega arith))))
          h

    parse_items-EndsOn :
        (rounds depth : ℕ) (s : Bytes)
        → length s * 2 + 1 < rounds
        → EndsOn (Left (length s)) (parse_items strtod rounds depth s)
    parse_items-EndsOn zero depth s enough h = elim enough [ ]
    parse_items-EndsOn (suc rounds) depth s enough h =
        let short = length-jr_skip_ws s in
        EndsOn-bind _ _ (json_parse_value-EndsOn rounds depth (jr_skip_ws s) (omega arith))
          (λ v left h'.
            let short' = length-jr_skip_ws v.1 in
            Finishes-weaken
              (more-EndsOn b']' (λ s'. parse_items strtod rounds depth s') v.0 (jr_skip_ws v.1)
                (λ s' less'. parse_items-EndsOn rounds depth s' (omega arith)) h')
              (λ r left'. omega arith))
          h

  -- `json-read` of any bytes returns a value or aborts: no access fails, and no loop and no nesting
  -- of calls is longer than the rounds that the length of the input gives.
  pub json_read_bytes_total : (bytes : Bytes) → EndsOn Some (json_read_bytes strtod bytes)
  unfolding json_read_bytes
  json_read_bytes_total bytes =
      EndsOn-bind _ _ (json_parse_value-EndsOn (suc (length bytes * 2)) 0 bytes (omega arith))
        (λ v left. check-EndsOn (length (jr_skip_ws v.1) == 0) bad_json v.0)
