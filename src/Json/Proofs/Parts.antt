-- ===== src/Json/Proofs/Parts.antt =====
-- The parts of a document that the reader of icecreme/json.c reads without recursion.
use creme.Common.{
  ℕ, suc, ◌≤◌, ◌≡◌, refl, sym, subst, true, false, List, [], ◌∷◌, ◌++◌, append_assoc, Result, ok,
  fail, length, leb, ◌==◌, arith,
}
use creme.Csv.Parse.{Bytes}
use creme.Csv.Proofs.Buffer.{limit}
use creme.Json.Buffer.{true_text, false_text, null_text}
use creme.Json.Proofs.Heaps.{Keeps-refl, Reads, did_read}
use creme.Json.Proofs.Numbers.{stops, starts_number, IsNumberText, json_parse_number-append}
use creme.Json.Proofs.Strings.{json_parse_string-bytes_text}
use creme.Json.Reader.{is_space, jr_skip_ws}
use creme.Json.Spec.{bytes_text, quoted_text}
use creme.Json.Values.{
  json_max_depth, expect, parse_key, first_is, more, parse_scalar, json_parse_value_impl,
  json_parse_value, parse_entries, parse_items,
}
use creme.Value
use creme.Value.{Value, nil, bool, str, Heap, M, cons}

pub stops-skip : (s : Bytes) → stops s ≡ true → jr_skip_ws s ≡ s
unfolding jr_skip_ws
stops-skip [] h = refl
stops-skip (c ∷ s) h = let e : is_space c ≡ false = ground arith in rw (e, jr_skip_ws) refl

-- A text that begins neither with white space nor with a closing bracket.
pub record IsStart (t : Bytes) : Type 0 where
  pub skips : (rest : Bytes) → jr_skip_ws (t ++ rest) ≡ t ++ rest
  pub opens : (rest : Bytes) → first_is b']' (t ++ rest) ≡ false

pub cons-IsStart : (c : ℕ) (t : Bytes) → is_space c ≡ false → (c == b']') ≡ false → IsStart (c ∷ t)
unfolding jr_skip_ws
cons-IsStart c t e q = record { skips = λ rest. rw (e, jr_skip_ws) refl; opens = λ rest. q }

pub starts_number-IsStart : (t : Bytes) → starts_number t ≡ true → IsStart t
starts_number-IsStart [] h = absurd (cc h)
starts_number-IsStart (c ∷ t) h = cons-IsStart c t (ground arith) (ground arith)

module _ (strtod : Bytes → ℕ) (entries items : Bytes → M (List Value × Bytes)) where
  pub impl-number :
      (t rest : Bytes) {v : Value} (h : Heap)
      → IsNumberText strtod t v
      → stops rest ≡ true
      → json_parse_value_impl strtod entries items (t ++ rest) h ≡ ok ((v, rest), h)
  unfolding json_parse_value_impl parse_scalar
  impl-number [] rest h w k = absurd (cc (w.starts))
  impl-number (c ∷ t) rest h w k =
      let first = w.starts in
      let brace : (c == b'{') ≡ false = ground arith in
      let bracket : (c == b'[') ≡ false = ground arith in
      let quote : (c == b'"') ≡ false = ground arith in
      let not_t : (c == b't') ≡ false = ground arith in
      let not_f : (c == b'f') ≡ false = ground arith in
      let not_n : (c == b'n') ≡ false = ground arith in
      rw
        (
          brace,
          json_parse_value_impl,
          bracket,
          quote,
          parse_scalar,
          not_t,
          not_f,
          not_n,
          first,
          json_parse_number-append strtod (c ∷ t) rest w.reads k,
        )
        refl

  pub impl-string :
      (s rest : Bytes) (h : Heap)
      → length s ≤ limit
      → json_parse_value_impl strtod entries items (quoted_text s ++ rest) h ≡ ok ((str s, rest), h)
  unfolding json_parse_value_impl parse_scalar
  impl-string s rest h fits =
      rw (append_assoc (bytes_text s) (b'"' ∷ []) rest, json_parse_string-bytes_text s rest fits)
        refl

  pub impl-null :
      (rest : Bytes) (h : Heap)
      → json_parse_value_impl strtod entries items (null_text ++ rest) h ≡ ok ((nil, rest), h)
  unfolding json_parse_value_impl parse_scalar
  impl-null rest h = refl

  pub impl-true :
      (rest : Bytes) (h : Heap)
      → json_parse_value_impl strtod entries items (true_text ++ rest) h ≡ ok ((bool true, rest), h)
  unfolding json_parse_value_impl parse_scalar
  impl-true rest h = refl

  pub impl-false :
      (rest : Bytes) (h : Heap)
      → json_parse_value_impl strtod entries items (false_text ++ rest) h
        ≡ ok ((bool false, rest), h)
  unfolding json_parse_value_impl parse_scalar
  impl-false rest h = refl

-- A key, its colon, and what follows.
pub parse_key-quoted_text :
    (key t : Bytes) (h : Heap)
    → length key ≤ limit
    → jr_skip_ws t ≡ t
    → parse_key (quoted_text key ++ (b':' ∷ t)) h ≡ ok ((str key, t), h)
unfolding parse_key expect jr_skip_ws
parse_key-quoted_text key t h fits e =
    rw
      (
        append_assoc (bytes_text key) (b'"' ∷ []) (b':' ∷ t),
        json_parse_string-bytes_text key (b':' ∷ t) fits,
      )
      (rw e refl)

-- The depth has room for one more value.
pub json_parse_value-Reads :
    {h : Heap} (P : Heap → Value → Type 0) (strtod : Bytes → ℕ) (rounds depth : ℕ) (t rest : Bytes)
    → IsStart t
    → suc depth ≤ json_max_depth
    → Reads h rest P (
        json_parse_value_impl strtod
          (λ s'. parse_entries strtod rounds (suc depth) s')
          (λ s'. parse_items strtod rounds (suc depth) s')
          (t ++ rest)
          h)
    → Reads h rest P (json_parse_value strtod (suc rounds) depth (t ++ rest) h)
unfolding json_parse_value
json_parse_value-Reads P strtod rounds depth t rest start room reads =
    let e : leb (suc depth) json_max_depth ≡ true = ground arith in
    rw (e, json_parse_value, start.skips rest) reads

-- A part that is read with the heap unchanged.
pub unchanged-Reads :
    {A : Type 0} {h : Heap} {rest : Bytes} {P : Heap → A → Type 0} {a : A}
    → {r : Result ((A × Bytes) × Heap)} → r ≡ ok ((a, rest), h)
    → P h a
    → Reads h rest P r
unchanged-Reads {h} {a} e p = rw e (did_read a h (Keeps-refl h) p)

-- A value with no parts, which the reader makes without the loops.
pub scalar-Reads :
    {h : Heap} {v : Value} (P : Heap → Value → Type 0) (strtod : Bytes → ℕ) (rounds depth : ℕ)
    → (t rest : Bytes) → IsStart t
    → suc depth ≤ json_max_depth
    → ((entries items : Bytes → M (List Value × Bytes))
        → json_parse_value_impl strtod entries items (t ++ rest) h ≡ ok ((v, rest), h))
    → P h v
    → Reads h rest P (json_parse_value strtod (suc rounds) depth (t ++ rest) h)
scalar-Reads P strtod rounds depth t rest start room reads p =
    json_parse_value-Reads P strtod rounds depth t rest start room (unchanged-Reads (reads _ _) p)

-- A first step whose result is known.
done-Reads :
    {A B : Type 0} {h h' : Heap} {rest : Bytes} {P : Heap → B → Type 0} {a : A} (m : M A)
    → (f : A → M (B × Bytes)) → m h ≡ ok (a, h')
    → Reads h rest P (f a h')
    → Reads h rest P ((Value.◌>>=◌ m f) h)
done-Reads {h} {rest} {P} m f e reads =
    subst (λ r. Reads h rest P (elim r [ fail why ↦ fail why | ok a ↦ f a.0 a.1 ])) (sym e) reads

-- A round of the loop over an object, behind its key.
pub parse_entries-Reads :
    {h : Heap} (P : Heap → List Value → Type 0) (strtod : Bytes → ℕ) (rounds depth : ℕ)
    → (s t rest : Bytes) (key : Value) → parse_key s h ≡ ok ((key, t), h)
    → Reads h rest P (
        Value.◌>>=◌
          (json_parse_value strtod rounds depth t)
          (λ val. Value.◌>>=◌ (cons key val.0) (λ entry.
            more b'}' (λ s'. parse_entries strtod rounds depth s') entry (jr_skip_ws val.1)))
          h)
    → Reads h rest P (parse_entries strtod (suc rounds) depth s h)
unfolding json_parse_value
parse_entries-Reads P strtod rounds depth s t rest key e reads = done-Reads (parse_key s) _ e reads
