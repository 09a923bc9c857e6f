-- ===== src/Json/Proofs/Reads.antt =====
-- The reader of icecreme/json.c reads the text of a document as a value that stands for it.
use creme.Common.{
  ℕ, zero, suc, ◌+◌, ◌*◌, ◌≤◌, ◌<◌, ◌≡◌, refl, sym, ◌∙◌, subst, true, false, List, [], ◌∷◌, ◌++◌,
  append_assoc, Result, ok, fail, length, length-append, arith,
}
use creme.Csv.Parse.{Bytes}
use creme.Csv.Proofs.Buffer.{limit}
use creme.Csv.Write.{show_int}
use creme.Json.Buffer.{null_text, true_text, false_text}
use creme.Json.Decoded.{
  Decodes, DecodeItems, decodes_null, decodes_bool, decodes_int, decodes_flo, decodes_str,
  decodes_alist, decode_no_items, decode_item, decode_end, Readable, ReadableItems, ReadableMembers,
  readable_null, readable_boolean, readable_integer, readable_real, readable_string, readable_array,
  readable_object, readable_item, readable_member,
}
use creme.Json.Proofs.Heaps.{
  Keeps-refl, Decodes-Keeps, Reads, did_read, Reads-bind, Reads-later, cons-Keeps, DecodeEntries,
  decode_no_entries, decode_new_entry, MadeAlist, made_alist, alist_of-MadeAlist, new_vector-Reads,
  update_self,
}
use creme.Json.Proofs.Numbers.{stops, show_int-IsNumberText}
use creme.Json.Proofs.Reals.{float_text-IsNumberText}
use creme.Json.Proofs.Parts.{
  stops-skip, cons-IsStart, starts_number-IsStart, impl-number, impl-string, impl-null, impl-true,
  impl-false, parse_key-quoted_text, json_parse_value-Reads, scalar-Reads, parse_entries-Reads,
}
use creme.Json.Proofs.Strings.{length-bytes_text}
use creme.Json.Reader.{jr_skip_ws}
use creme.Json.Spec.{
  Json, Items, Members, null, boolean, integer, real, string, array, object, no_items, item,
  no_members, member, bytes_text, quoted_text, float_text, json_text, items_text, members_text,
}
use creme.Json.Values.{
  json_max_depth, more, json_parse_object, json_parse_array, json_parse_value_impl,
  json_parse_value, parse_entries, parse_items,
}
use creme.Value
use creme.Value.{Value, nil, str, pair, vector, Pair, Heap, M, cons}
use creme.Json.Proofs.Texts.{
  is_item, is_member, append-entry, length-entry, items_text-stops, members_text-stops,
  items_text-comma, members_text-comma, json_text-IsStart,
}

from_alist :
    {h : Heap} {ms : Members} (rest : Bytes) {r : Result (Value × Heap)}
    → MadeAlist h ms r
    → Reads h rest
        (λ h' v. Decodes h' v (object ms))
        (elim r [ fail e ↦ fail e | ok r ↦ ok ((r.0, rest), r.1) ])
from_alist rest (made_alist v h' keeps ds) = did_read v h' keeps (decodes_alist ds)

module _ (print_float : ℕ → Bytes) (strtod : Bytes → ℕ) where
  -- Behind an item: the end of the array, or the next round.
  more_items :
      (js : Items) (rest : Bytes) (next : Bytes → M (List Value × Bytes)) (v : Value) (h : Heap)
      → {j : Json} → Decodes h v j
      → (is_item js ≡ true
          → Reads h rest
              (λ h' vs. DecodeItems h' vs js)
              (next (items_text print_float true js ++ (b']' ∷ rest)) h))
      → Reads h rest
          (λ h' vs. DecodeItems h' vs (item j js))
          (more b']' next v (items_text print_float false js ++ (b']' ∷ rest)) h)
  unfolding json_text more
  more_items no_items rest next v h d k =
      did_read _ h (Keeps-refl h) (decode_item d decode_no_items)
  more_items (item j js) rest next v h d k =
      Reads-bind _ (k refl)
        (λ vs h' keeps ds. did_read _ h' (Keeps-refl h') (decode_item (Decodes-Keeps _ keeps d) ds))

  -- Behind an entry.
  more_members :
      (ms : Members) (rest : Bytes) (next : Bytes → M (List Value × Bytes)) (e : ℕ) (h : Heap)
      → {v : Value} {key : Bytes} {j : Json} → e < h.next
      → h.pairs e ≡ record { car = str key; cdr = v }
      → Decodes h v j
      → (is_member ms ≡ true
          → Reads h rest
              (λ h' vs. DecodeEntries h' vs ms)
              (next (members_text print_float true ms ++ (b'}' ∷ rest)) h))
      → Reads h rest
          (λ h' vs. DecodeEntries h' vs (member key j ms))
          (more b'}' next (pair e) (members_text print_float false ms ++ (b'}' ∷ rest)) h)
  unfolding json_text more
  more_members no_members rest next e h below pe d k =
      did_read _ h (Keeps-refl h) (decode_new_entry e below pe d decode_no_entries)
  more_members (member key j ms) rest next e h below pe d k =
      Reads-bind _ (k refl) (λ vs h' keeps ds.
        let le = keeps.next_le in
        did_read _ h' (Keeps-refl h') (
          decode_new_entry e (omega arith) (keeps.same_pairs e below ∙ pe) (Decodes-Keeps _ keeps d)
            ds))

  -- A whole array, behind its bracket.
  array-Reads :
      (js : Items) {depth : ℕ} (rest : Bytes) (items : Bytes → M (List Value × Bytes)) (h : Heap)
      → ReadableItems print_float strtod depth js
      → (is_item js ≡ true
          → Reads h rest
              (λ h' vs. DecodeItems h' vs js)
              (items (items_text print_float true js ++ (b']' ∷ rest)) h))
      → Reads h rest
          (λ h' v. Decodes h' v (array js))
          (json_parse_array items (jr_skip_ws (items_text print_float true js ++ (b']' ∷ rest))) h)
  unfolding json_text json_parse_array jr_skip_ws
  array-Reads no_items rest items h w k = new_vector-Reads h [] no_items rest decode_no_items
  array-Reads (item j js) rest items h (readable_item w ws) k =
      let start = json_text-IsStart print_float strtod j w in
      let behind = items_text print_float false js ++ (b']' ∷ rest) in
      let assoc =
        append_assoc (json_text print_float j) (items_text print_float false js) (b']' ∷ rest) in
      rw
        (assoc, start.skips behind, json_parse_array, start.opens behind, assoc, start.skips behind)
        (Reads-bind _
          (subst (λ t. Reads h rest (λ h' vs. DecodeItems h' vs (item j js)) (items t h)) assoc
            (k refl))
          (λ vs h' keeps ds. new_vector-Reads h' vs (item j js) rest ds))

  -- A whole object, behind its brace.
  object-Reads :
      (ms : Members) (rest : Bytes) (entries : Bytes → M (List Value × Bytes)) (h : Heap)
      → (is_member ms ≡ true
          → Reads h rest
              (λ h' vs. DecodeEntries h' vs ms)
              (entries (members_text print_float true ms ++ (b'}' ∷ rest)) h))
      → Reads h rest
          (λ h' v. Decodes h' v (object ms))
          (json_parse_object entries
            (jr_skip_ws (members_text print_float true ms ++ (b'}' ∷ rest)))
            h)
  unfolding json_text json_parse_object jr_skip_ws
  object-Reads no_members rest entries h k = did_read _ h (Keeps-refl h) (decodes_alist decode_end)
  object-Reads (member key j ms) rest entries h k =
      Reads-bind _ (k refl) (λ vs h' keeps ds. from_alist rest (alist_of-MadeAlist h' vs _ ds))

  -- A new entry is a pair behind the objects that there are.
  new_entry :
      (ms : Members) (rest : Bytes) (v : Value) (key : Bytes) (h : Heap) {j : Json}
      → Decodes h v j
      → (m : Value → M (List Value × Bytes))
      → ((h' : Heap)
          → h.next < h'.next
          → h'.pairs h.next ≡ record { car = str key; cdr = v }
          → Decodes h' v j
          → Reads h' rest (λ h'' vs. DecodeEntries h'' vs (member key j ms)) (m (pair h.next) h'))
      → Reads h rest
          (λ h'' vs. DecodeEntries h'' vs (member key j ms))
          ((Value.◌>>=◌ (cons (str key) v) m) h)
  unfolding cons
  new_entry ms rest v key h d m k =
      let p : Pair = record { car = str key; cdr = v } in
      let keeps = cons-Keeps h p in
      Reads-later keeps (k _ (omega arith) (update_self h.pairs h.next p) (Decodes-Keeps _ keeps d))

  mutual
    unfolding json_parse_value json_parse_value_impl json_text

    -- Two rounds for each byte are enough.
    pub json_parse_value_lem :
        {h : Heap} (j : Json) {left : ℕ} (rounds depth : ℕ) (rest : Bytes)
        → Readable print_float strtod left j
        → depth + left ≤ json_max_depth
        → length (json_text print_float j) * 2 < rounds
        → length (json_text print_float j) ≤ limit
        → stops rest ≡ true
        → Reads h rest
            (λ h' v. Decodes h' v j)
            (json_parse_value strtod rounds depth (json_text print_float j ++ rest) h)
    json_parse_value_lem j zero depth rest w room enough fits k = elim enough [ ]
    json_parse_value_lem {h} null (suc rounds) depth rest (readable_null _) room enough fits k =
        scalar-Reads (λ h' v. Decodes h' v null) strtod rounds depth null_text rest
          (cons-IsStart _ _ refl refl) (omega arith)
          (λ entries items. impl-null strtod entries items rest h) decodes_null
    json_parse_value_lem {h} (boolean true) (suc rounds) depth rest (readable_boolean _ _) room
          enough fits k =
        scalar-Reads (λ h' v. Decodes h' v (boolean true)) strtod rounds depth true_text rest
          (cons-IsStart _ _ refl refl) (omega arith)
          (λ entries items. impl-true strtod entries items rest h) (decodes_bool true)
    json_parse_value_lem {h} (boolean false) (suc rounds) depth rest (readable_boolean _ _) room
          enough fits k =
        scalar-Reads (λ h' v. Decodes h' v (boolean false)) strtod rounds depth false_text rest
          (cons-IsStart _ _ refl refl) (omega arith)
          (λ entries items. impl-false strtod entries items rest h) (decodes_bool false)
    json_parse_value_lem {h} (integer i) (suc rounds) depth rest (readable_integer _ _ word) room
          enough fits k =
        let number = show_int-IsNumberText strtod i word in
        scalar-Reads (λ h' v. Decodes h' v (integer i)) strtod rounds depth (show_int i) rest
          (starts_number-IsStart (show_int i) number.starts) (omega arith)
          (λ entries items. impl-number strtod entries items (show_int i) rest h number k)
          (decodes_int i)
    json_parse_value_lem {h} (real f) (suc rounds) depth rest (readable_real _ _ printed exact) room
          enough fits k =
        let number = float_text-IsNumberText print_float strtod f printed exact in
        let text = float_text print_float f in
        scalar-Reads (λ h' v. Decodes h' v (real f)) strtod rounds depth text rest
          (starts_number-IsStart text number.starts) (omega arith)
          (λ entries items. impl-number strtod entries items text rest h number k) (decodes_flo f)
    json_parse_value_lem {h} (string s) (suc rounds) depth rest (readable_string _ _) room enough
          fits k =
        let short : length s ≤ limit =
          omega (arith, length-bytes_text s, length-append (bytes_text s) (b'"' ∷ [])) in
        scalar-Reads (λ h' v. Decodes h' v (string s)) strtod rounds depth (quoted_text s) rest
          (cons-IsStart _ _ refl refl) (omega arith)
          (λ entries items. impl-string strtod entries items s rest h short) (decodes_str s)
    json_parse_value_lem {h} (array js) (suc rounds) depth rest (readable_array _ ws) room enough
          fits k =
        let inside = items_text print_float true js in
        let l = length-append inside (b']' ∷ []) in
        json_parse_value-Reads (λ h' v. Decodes h' v (array js)) strtod rounds depth
          (b'[' ∷ (inside ++ (b']' ∷ []))) rest (cons-IsStart _ _ refl refl) (omega arith)
          (rw (append_assoc inside (b']' ∷ []) rest) (
            array-Reads js rest (λ s'. parse_items strtod rounds (suc depth) s') h ws
              (λ some.
                parse_items_lem js rounds (suc depth) rest some ws (omega arith) (omega arith)
                  (omega arith))))
    json_parse_value_lem {h} (object ms) (suc rounds) depth rest (readable_object _ ws) room enough
          fits k =
        let inside = members_text print_float true ms in
        let l = length-append inside (b'}' ∷ []) in
        json_parse_value-Reads (λ h' v. Decodes h' v (object ms)) strtod rounds depth
          (b'{' ∷ (inside ++ (b'}' ∷ []))) rest (cons-IsStart _ _ refl refl) (omega arith)
          (rw (append_assoc inside (b'}' ∷ []) rest) (
            object-Reads ms rest (λ s'. parse_entries strtod rounds (suc depth) s') h
              (λ some.
                parse_entries_lem ms rounds (suc depth) rest some ws (omega arith) (omega arith)
                  (omega arith))))

    parse_items_lem :
        {h : Heap} (js : Items) {left : ℕ} (rounds depth : ℕ) (rest : Bytes)
        → is_item js ≡ true
        → ReadableItems print_float strtod left js
        → depth + left ≤ json_max_depth
        → length (items_text print_float true js) * 2 + 1 < rounds
        → length (items_text print_float true js) ≤ limit
        → Reads h rest
            (λ h' vs. DecodeItems h' vs js)
            (parse_items strtod rounds depth (items_text print_float true js ++ (b']' ∷ rest)) h)
    parse_items_lem js zero depth rest some ws room enough fits = elim enough [ ]
    parse_items_lem no_items (suc rounds) depth rest some ws room enough fits = absurd (cc some)
    parse_items_lem (item j js) (suc rounds) depth rest some (readable_item w ws) room enough fits =
        let text = json_text print_float j in
        let later = items_text print_float false js in
        let l = length-append text later in
        let start = json_text-IsStart print_float strtod j w in
        let follows = items_text-stops print_float js rest in
        rw (append_assoc text later (b']' ∷ rest), start.skips (later ++ (b']' ∷ rest)))
          (Reads-bind _
            (json_parse_value_lem j rounds depth (later ++ (b']' ∷ rest)) w room (omega arith)
              (omega arith) follows)
            (λ v h' keeps d. rw (stops-skip (later ++ (b']' ∷ rest)) follows) (
              more_items js rest (λ s'. parse_items strtod rounds depth s') v h' d
                (λ some'.
                  let l' = items_text-comma print_float js some' in
                  parse_items_lem js rounds depth rest some' ws room (omega arith) (omega arith)))))

    parse_entries_lem :
        {h : Heap} (ms : Members) {left : ℕ} (rounds depth : ℕ) (rest : Bytes)
        → is_member ms ≡ true
        → ReadableMembers print_float strtod left ms
        → depth + left ≤ json_max_depth
        → length (members_text print_float true ms) * 2 + 1 < rounds
        → length (members_text print_float true ms) ≤ limit
        → Reads h rest
            (λ h' vs. DecodeEntries h' vs ms)
            (parse_entries strtod rounds depth
              (members_text print_float true ms ++ (b'}' ∷ rest))
              h)
    parse_entries_lem ms zero depth rest some ws room enough fits = elim enough [ ]
    parse_entries_lem no_members (suc rounds) depth rest some ws room enough fits = absurd (cc some)
    parse_entries_lem {h} (member key j ms) (suc rounds) depth rest some (readable_member _ w ws)
          room enough fits =
        let text = json_text print_float j in
        let later = members_text print_float false ms in
        let behind = later ++ (b'}' ∷ rest) in
        let l = length-entry key text later in
        let start = json_text-IsStart print_float strtod j w in
        let follows = members_text-stops print_float ms rest in
        subst
          (λ t.
            Reads h rest (λ h' vs. DecodeEntries h' vs (member key j ms))
              (parse_entries strtod (suc rounds) depth t h))
          (sym (append-entry key text later (b'}' ∷ rest)))
          (parse_entries-Reads (λ h' vs. DecodeEntries h' vs (member key j ms)) strtod rounds depth
            (quoted_text key ++ (b':' ∷ (text ++ behind))) (text ++ behind) rest (str key)
            (parse_key-quoted_text key (text ++ behind) h (omega arith) (start.skips behind))
            (Reads-bind _
              (json_parse_value_lem j rounds depth behind w room (omega arith) (omega arith)
                follows)
              (λ v h' keeps d. rw (stops-skip behind follows) (
                new_entry ms rest v key h' d
                  (λ entry. more b'}' (λ s'. parse_entries strtod rounds depth s') entry behind)
                  (λ h'' below pe d'.
                    more_members ms rest (λ s'. parse_entries strtod rounds depth s') h'.next h''
                      below pe d'
                      (λ some'.
                        let l' = members_text-comma print_float ms some' in
                        parse_entries_lem ms rounds depth rest some' ws room (omega arith)
                          (omega arith)))))))
