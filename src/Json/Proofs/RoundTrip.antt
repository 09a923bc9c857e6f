-- ===== src/Json/Proofs/RoundTrip.antt =====
-- The builtins of icecreme/json.c: what json-write makes, json-read reads.
use creme.Common.{
  ℕ, suc, ◌*◌, ◌≤◌, ◌≡◌, refl, sym, ap, List, [], ◌∷◌, append-nil, Result, ok, fail, ◌>>=◌,
  bad_json, wrong_type, length, ◌==◌, arith, subst,
}
use creme.Csv.Parse.{Bytes}
use creme.Csv.Proofs.Buffer.{limit}
use creme.Json.Buffer.{GBuf, gbuf_init}
use creme.Json.Decoded.{Keeps, Decodes, Readable}
use creme.Json.Proofs.Heaps.{Reads, did_read}
use creme.Json.Proofs.Puts.{Puts, has_put, gbuf_init-IsGBuf}
use creme.Json.Proofs.Reads.{json_parse_value_lem}
use creme.Json.Proofs.Safe.{json_read_bytes_total}
use creme.Json.Proofs.Steps.{EndsOn, gave_up}
use creme.Json.Proofs.Total.{Some}
use creme.Json.Proofs.Writer.{json_write_value_lem}
use creme.Json.Reader.{jr_skip_ws}
use creme.Json.Spec.{Json, json_text, json_size, Denotes}
use creme.Json.Values.{json_max_depth, json_parse_value, json_read_bytes, bi_json_read}
use creme.Json.Writer.{bi_json_write}
use creme.Value
use creme.Value.{
  Value, nil, bool, int, flo, char, str, pair, vector, closure, builtin, box, other, Heap, M,
}

-- A value that stands for the document is read, and the objects that there were are as before.
pub data ReadsAs (h : Heap) (j : Json) : Result (Value × Heap) → Type 0 where
  reads_as : (v : Value) (h' : Heap) → Keeps h h' → Decodes h' v j → ReadsAs h j (ok (v, h'))

written :
    {text : Bytes} (h : Heap) {r : Result GBuf}
    → Puts gbuf_init text r
    → Path (Result (Value × Heap)) (r >>= λ w. ok (str w.buf, h)) (ok (str text, h))
written h (has_put w inside e) = ap (λ bytes. ok (str bytes, h)) e

whole_document :
    {h : Heap} {j : Json} {r : Result ((Value × Bytes) × Heap)}
    → Reads h [] (λ h' v. Decodes h' v j) r
    → ReadsAs h j (elim r [
      | fail e ↦ fail e
      | ok r ↦
          (Value.◌>>◌ (Value.check (length (jr_skip_ws r.0.1) == 0) bad_json) (Value.pure r.0.0))
            r.1
    ])
unfolding jr_skip_ws
whole_document (did_read v h' keeps d) = reads_as v h' keeps d

-- json-read on any arguments and any heap returns a value or aborts: no loop and no nesting of
-- calls is longer than the rounds that the length of the input gives.
pub bi_json_read_total :
    (strtod : Bytes → ℕ) (args : List Value) → EndsOn Some (bi_json_read strtod args)
unfolding bi_json_read
bi_json_read_total strtod [] h = gave_up wrong_type
bi_json_read_total strtod (str bytes ∷ args) h = json_read_bytes_total strtod bytes h
bi_json_read_total strtod (nil ∷ args) h = gave_up wrong_type
bi_json_read_total strtod (bool b ∷ args) h = gave_up wrong_type
bi_json_read_total strtod (int i ∷ args) h = gave_up wrong_type
bi_json_read_total strtod (flo f ∷ args) h = gave_up wrong_type
bi_json_read_total strtod (char c ∷ args) h = gave_up wrong_type
bi_json_read_total strtod (Value.sym s ∷ args) h = gave_up wrong_type
bi_json_read_total strtod (pair a ∷ args) h = gave_up wrong_type
bi_json_read_total strtod (vector a ∷ args) h = gave_up wrong_type
bi_json_read_total strtod (closure a ∷ args) h = gave_up wrong_type
bi_json_read_total strtod (builtin a ∷ args) h = gave_up wrong_type
bi_json_read_total strtod (box k a ∷ args) h = gave_up wrong_type
bi_json_read_total strtod (other t a ∷ args) h = gave_up wrong_type

module _ (print_float : ℕ → Bytes) where
  -- json-write of a value that stands for a document returns the text of the document and leaves
  -- the heap alone, if the text is no longer than 2 ^ 30 bytes and the writer has as many rounds
  -- as the document has parts.
  pub bi_json_write_lem :
      (h : Heap) (v : Value) (j : Json) (rounds : ℕ)
      → Denotes h v j
      → json_size j ≤ rounds
      → length (json_text print_float j) ≤ limit
      → bi_json_write print_float rounds (v ∷ []) h ≡ ok (str (json_text print_float j), h)
  unfolding bi_json_write
  bi_json_write_lem h v j rounds d enough fits =
      written h (
        json_write_value_lem print_float j rounds gbuf_init d enough gbuf_init-IsGBuf (omega arith))

module _ (print_float : ℕ → Bytes) (strtod : Bytes → ℕ) where
  -- json-read of a text
  pub bi_json_read_lem :
      (h : Heap) (j : Json)
      → Readable print_float strtod json_max_depth j
      → length (json_text print_float j) ≤ limit
      → ReadsAs h j (bi_json_read strtod (str (json_text print_float j) ∷ []) h)
  unfolding bi_json_read json_read_bytes
  bi_json_read_lem h j w fits =
      let text = json_text print_float j in
      whole_document (
        subst
          (λ t.
            Reads h [] (λ h' v. Decodes h' v j)
              (json_parse_value strtod (suc (length text * 2)) 0 t h))
          (append-nil text)
          (json_parse_value_lem print_float strtod j (suc (length text * 2)) 0 [] w (omega arith)
            (omega arith) fits refl))

  -- json-read of the text that json-write makes of a value returns a value that stands for the
  -- same document, with arrays as vectors and objects as alists, and leaves the pairs, vectors and
  -- treelists that there were as they were, if the value stands for a document (no cycle, no
  -- improper list, no value of another kind), the document is nested at most 1000 deep, its
  -- integers are 64-bit, each of its floats is printed in decimal (finite) and read back by strtod
  -- as itself, the text is no longer than 2 ^ 30 bytes, and the writer has as many rounds as the
  -- document has parts.
  pub bi_json_read-bi_json_write :
      (h : Heap) (v : Value) (j : Json) (rounds : ℕ)
      → Denotes h v j
      → Readable print_float strtod json_max_depth j
      → json_size j ≤ rounds
      → length (json_text print_float j) ≤ limit
      → ReadsAs h j (
          (Value.◌>>=◌
              (bi_json_write print_float rounds (v ∷ []))
              (λ text. bi_json_read strtod (text ∷ [])))
            h)
  bi_json_read-bi_json_write h v j rounds d w enough fits =
      subst
        (λ r. ReadsAs h j (elim r [ fail e ↦ fail e | ok r ↦ bi_json_read strtod (r.0 ∷ []) r.1 ]))
        (sym (bi_json_write_lem print_float h v j rounds d enough fits))
        (bi_json_read_lem h j w fits)
