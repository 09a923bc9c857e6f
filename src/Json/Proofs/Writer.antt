-- ===== src/Json/Proofs/Writer.antt =====
-- The writer of icecreme/json.c puts the text of the document that a value stands for.
use creme.Common.{
  ℕ, zero, suc, ◌≤◌, ◌≡◌, refl, Bool, true, false, List, [], ◌∷◌, ◌++◌, Result, ok, ltb, ◌==◌,
  if◌then◌else◌, arith,
}
use creme.Csv.Parse.{Bytes}
use creme.Json.Buffer.{GBuf}
use creme.Json.Proofs.Puts.{
  IsGBuf, Puts, Fits, gbuf_puts_lem, gbuf_putc_lem, put_step, put_nothing, put_if,
}
use creme.Json.Spec.{
  Json, Items, Members, null, boolean, integer, real, string, array, object, no_items, item,
  no_members, member, byte_text, bytes_text, quoted_text, comma, float_text, json_text, items_text,
  members_text, json_size, items_size, members_size, HasPlain, plain_here, plain_later, Denotes,
  DenoteItems, DenoteList, DenoteAlist, denotes_nil, denotes_bool, denotes_int, denotes_flo,
  denotes_str, denotes_char, denotes_vector, denotes_list, denotes_alist, denote_no_items,
  denote_item, denote_nil, denote_pair, denote_end, denote_entry,
}
use creme.Json.Writer.{
  write_byte, write_bytes, json_write_string, looks_whole, separator, is_proper_list, all_entries,
  is_json_alist, write_entry, write_float, json_write_value, write_items, write_list, write_entries,
}
use creme.Value.{Value, str, pair, Heap}

write_byte_lem :
    (w : GBuf) (c : ℕ) → IsGBuf w → Fits w (byte_text c) → Puts w (byte_text c) (write_byte w c)
unfolding write_byte byte_text
write_byte_lem w c inside = put_if (c == b'"') (gbuf_puts_lem w _ inside) (
    put_if (c == b'\\') (gbuf_puts_lem w _ inside) (
      put_if (c == b'\n') (gbuf_puts_lem w _ inside) (
        put_if (c == b'\r') (gbuf_puts_lem w _ inside) (
          put_if (c == b'\t') (gbuf_puts_lem w _ inside)
            (put_if (ltb c 32) (gbuf_puts_lem w _ inside) (gbuf_putc_lem w c inside))))))

write_bytes_lem :
    (s : Bytes) (w : GBuf)
    → IsGBuf w
    → Fits w (bytes_text s)
    → Puts w (bytes_text s) (write_bytes w s)
unfolding write_bytes bytes_text
write_bytes_lem [] w inside fits = put_nothing w inside
write_bytes_lem (c ∷ s) w inside fits =
    put_step (byte_text c) (bytes_text s) _ fits (write_byte_lem w c inside) (write_bytes_lem s)

json_write_string_lem :
    (s : Bytes) (w : GBuf)
    → IsGBuf w
    → Fits w (quoted_text s)
    → Puts w (quoted_text s) (json_write_string w s)
unfolding json_write_string
json_write_string_lem s w inside fits =
    put_step (b'"' ∷ []) (bytes_text s ++ (b'"' ∷ [])) _ fits (gbuf_putc_lem w b'"' inside)
      (λ w1 inside1 fits1.
        put_step (bytes_text s) (b'"' ∷ []) _ fits1 (write_bytes_lem s w1 inside1)
          (λ w2 inside2. gbuf_putc_lem w2 b'"' inside2))

separator_lem :
    (first : Bool) (w : GBuf)
    → IsGBuf w
    → Fits w (comma first)
    → Puts w (comma first) (separator w first)
separator_lem true w inside fits = put_nothing w inside
separator_lem false w inside fits = gbuf_putc_lem w b',' inside fits

-- The checks of a list before it is written.
DenoteList-proper :
    {h : Heap} {v : Value} (js : Items) (rounds : ℕ)
    → DenoteList h v js
    → items_size js ≤ rounds
    → is_proper_list rounds v h ≡ ok true
unfolding is_proper_list items_size json_size
DenoteList-proper no_items zero denote_nil enough = absurd (omega arith)
DenoteList-proper no_items (suc rounds) denote_nil enough = refl
DenoteList-proper (item j js) zero (denote_pair a d ds) enough = absurd (omega arith)
DenoteList-proper (item j js) (suc rounds) (denote_pair a d ds) enough =
    DenoteList-proper js rounds ds (omega arith)

HasPlain-not_all :
    {h : Heap} {v : Value} (js : Items) (rounds : ℕ)
    → DenoteList h v js
    → HasPlain h v
    → items_size js ≤ rounds
    → all_entries rounds v h ≡ ok false
unfolding all_entries items_size json_size
HasPlain-not_all no_items zero d p enough = absurd (omega arith)
HasPlain-not_all no_items (suc rounds) denote_nil p enough = elim p [ ]
HasPlain-not_all (item j js) zero d p enough = absurd (omega arith)
HasPlain-not_all (item j js) (suc rounds) (denote_pair a d ds) (plain_here _ e) enough =
    rw (e, all_entries) refl
HasPlain-not_all (item j js) (suc rounds) (denote_pair a d ds) (plain_later _ e p) enough =
    rw (e, all_entries) (HasPlain-not_all js rounds ds p (omega arith))

DenoteAlist-proper :
    {h : Heap} {v : Value} (ms : Members) (rounds : ℕ)
    → DenoteAlist h v ms
    → members_size ms ≤ rounds
    → is_proper_list rounds v h ≡ ok true
unfolding is_proper_list members_size json_size
DenoteAlist-proper no_members zero denote_end enough = absurd (omega arith)
DenoteAlist-proper no_members (suc rounds) denote_end enough = refl
DenoteAlist-proper (member key j ms) zero (denote_entry a e c k d ds) enough = absurd (omega arith)
DenoteAlist-proper (member key j ms) (suc rounds) (denote_entry a e c k d ds) enough =
    DenoteAlist-proper ms rounds ds (omega arith)

DenoteAlist-all :
    {h : Heap} {v : Value} (ms : Members) (rounds : ℕ)
    → DenoteAlist h v ms
    → members_size ms ≤ rounds
    → all_entries rounds v h ≡ ok true
unfolding all_entries members_size json_size
DenoteAlist-all no_members zero denote_end enough = absurd (omega arith)
DenoteAlist-all no_members (suc rounds) denote_end enough = refl
DenoteAlist-all (member key j ms) zero (denote_entry a e c k d ds) enough = absurd (omega arith)
DenoteAlist-all (member key j ms) (suc rounds) (denote_entry a e c k d ds) enough =
    rw (c, all_entries, k) (DenoteAlist-all ms rounds ds (omega arith))

write_entry_lem :
    (h : Heap) {v : Value} {e : ℕ} (write : GBuf → Value → Result GBuf) (text : Bytes) (w : GBuf)
    → (key : Bytes) → v ≡ pair e
    → (h.pairs e).car ≡ str key
    → ((w' : GBuf) → IsGBuf w' → Fits w' text → Puts w' text (write w' ((h.pairs e).cdr)))
    → IsGBuf w
    → Fits w (quoted_text key ++ (b':' ∷ text))
    → Puts w (quoted_text key ++ (b':' ∷ text)) (write_entry write w v h)
unfolding write_entry
write_entry_lem h write text w key c k writes inside fits =
    rw (c, write_entry, k)
      (put_step (quoted_text key) (b':' ∷ text) _ fits (json_write_string_lem key w inside)
        (λ w1 inside1 fits1.
          put_step (b':' ∷ []) text _ fits1 (gbuf_putc_lem w1 b':' inside1) writes))

module _ (print_float : ℕ → Bytes) where
  write_float_lem :
      (f : ℕ) (w : GBuf)
      → IsGBuf w
      → Fits w (float_text print_float f)
      → Puts w (float_text print_float f) (write_float print_float w f)
  unfolding write_float
  write_float_lem f w inside fits =
      put_step (print_float f) (if looks_whole (print_float f) then b'.' ∷ b'0' ∷ [] else []) _ fits
        (gbuf_puts_lem w _ inside)
        (λ w' inside'.
          put_if (looks_whole (print_float f)) (gbuf_puts_lem w' _ inside')
            (λ f. put_nothing w' inside'))

  mutual
    unfolding json_write_value json_text json_size is_json_alist items_text write_items

    -- While the text fits, and given as many calls and rounds as the document has parts.
    pub json_write_value_lem :
        {h : Heap} {v : Value} (j : Json) (rounds : ℕ) (w : GBuf)
        → Denotes h v j
        → json_size j ≤ rounds
        → IsGBuf w
        → Fits w (json_text print_float j)
        → Puts w (json_text print_float j) (json_write_value print_float rounds w v h)
    json_write_value_lem null zero w d enough inside fits = absurd (omega arith)
    json_write_value_lem (boolean b) zero w d enough inside fits = absurd (omega arith)
    json_write_value_lem (integer i) zero w d enough inside fits = absurd (omega arith)
    json_write_value_lem (real f) zero w d enough inside fits = absurd (omega arith)
    json_write_value_lem (string s) zero w d enough inside fits = absurd (omega arith)
    json_write_value_lem (array js) zero w d enough inside fits = absurd (omega arith)
    json_write_value_lem (object ms) zero w d enough inside fits = absurd (omega arith)
    json_write_value_lem null (suc rounds) w denotes_nil enough inside fits =
        gbuf_puts_lem w _ inside fits
    json_write_value_lem (boolean true) (suc rounds) w (denotes_bool _) enough inside fits =
        gbuf_puts_lem w _ inside fits
    json_write_value_lem (boolean false) (suc rounds) w (denotes_bool _) enough inside fits =
        gbuf_puts_lem w _ inside fits
    json_write_value_lem (integer i) (suc rounds) w (denotes_int _) enough inside fits =
        gbuf_puts_lem w _ inside fits
    json_write_value_lem (real f) (suc rounds) w (denotes_flo _) enough inside fits =
        write_float_lem f w inside fits
    json_write_value_lem (string s) (suc rounds) w (denotes_str _) enough inside fits =
        json_write_string_lem s w inside fits
    json_write_value_lem (string s) (suc rounds) w (denotes_char c) enough inside fits =
        json_write_string_lem s w inside fits
    json_write_value_lem (array js) (suc rounds) w (denotes_vector a ds) enough inside fits =
        put_step (b'[' ∷ []) (items_text print_float true js ++ (b']' ∷ [])) _ fits
          (gbuf_putc_lem w b'[' inside)
          (λ w1 inside1 fits1.
            put_step (items_text print_float true js) (b']' ∷ []) _ fits1
              (write_items_lem js rounds w1 true ds (omega arith) inside1)
              (λ w2 inside2. gbuf_putc_lem w2 b']' inside2))
    json_write_value_lem {h} (array js) (suc rounds) w (denotes_list a p ds) enough inside fits =
        rw
          (
            DenoteList-proper js rounds ds (omega arith),
            HasPlain-not_all js rounds ds p (omega arith),
            DenoteList-proper js rounds ds (omega arith),
          )
          (put_step (b'[' ∷ []) (items_text print_float true js ++ (b']' ∷ [])) _ fits
            (gbuf_putc_lem w b'[' inside)
            (λ w1 inside1 fits1.
              put_step (items_text print_float true js) (b']' ∷ []) _ fits1
                (write_list_lem js rounds w1 true ds (omega arith) inside1)
                (λ w2 inside2. gbuf_putc_lem w2 b']' inside2)))
    json_write_value_lem {h} (object ms) (suc rounds) w (denotes_alist a ds) enough inside fits =
        rw
          (
            DenoteAlist-proper ms rounds ds (omega arith),
            DenoteAlist-all ms rounds ds (omega arith),
          )
          (put_step (b'{' ∷ []) (members_text print_float true ms ++ (b'}' ∷ [])) _ fits
            (gbuf_putc_lem w b'{' inside)
            (λ w1 inside1 fits1.
              put_step (members_text print_float true ms) (b'}' ∷ []) _ fits1
                (write_entries_lem ms rounds w1 true ds (omega arith) inside1)
                (λ w2 inside2. gbuf_putc_lem w2 b'}' inside2)))

    write_items_lem :
        {h : Heap} {vs : List Value} (js : Items) (rounds : ℕ) (w : GBuf) (first : Bool)
        → DenoteItems h vs js
        → items_size js ≤ rounds
        → IsGBuf w
        → Fits w (items_text print_float first js)
        → Puts w (items_text print_float first js) (write_items print_float rounds w first vs h)
    write_items_lem no_items zero w first d enough inside fits = absurd (omega arith)
    write_items_lem (item j js) zero w first d enough inside fits = absurd (omega arith)
    write_items_lem no_items (suc rounds) w first denote_no_items enough inside fits =
        put_nothing w inside
    write_items_lem (item j js) (suc rounds) w first (denote_item d ds) enough inside fits =
        put_step (comma first) (json_text print_float j ++ items_text print_float false js) _ fits
          (separator_lem first w inside)
          (λ w1 inside1 fits1.
            put_step (json_text print_float j) (items_text print_float false js) _ fits1
              (json_write_value_lem j rounds w1 d (omega arith) inside1)
              (λ w2. write_items_lem js rounds w2 false ds (omega arith)))

    write_list_lem :
        {h : Heap} {v : Value} (js : Items) (rounds : ℕ) (w : GBuf) (first : Bool)
        → DenoteList h v js
        → items_size js ≤ rounds
        → IsGBuf w
        → Fits w (items_text print_float first js)
        → Puts w (items_text print_float first js) (write_list print_float rounds w first v h)
    write_list_lem no_items zero w first d enough inside fits = absurd (omega arith)
    write_list_lem (item j js) zero w first d enough inside fits = absurd (omega arith)
    write_list_lem no_items (suc rounds) w first denote_nil enough inside fits =
        put_nothing w inside
    write_list_lem (item j js) (suc rounds) w first (denote_pair a d ds) enough inside fits =
        put_step (comma first) (json_text print_float j ++ items_text print_float false js) _ fits
          (separator_lem first w inside)
          (λ w1 inside1 fits1.
            put_step (json_text print_float j) (items_text print_float false js) _ fits1
              (json_write_value_lem j rounds w1 d (omega arith) inside1)
              (λ w2. write_list_lem js rounds w2 false ds (omega arith)))

    write_entries_lem :
        {h : Heap} {v : Value} (ms : Members) (rounds : ℕ) (w : GBuf) (first : Bool)
        → DenoteAlist h v ms
        → members_size ms ≤ rounds
        → IsGBuf w
        → Fits w (members_text print_float first ms)
        → Puts w (members_text print_float first ms) (write_entries print_float rounds w first v h)
    write_entries_lem no_members zero w first d enough inside fits = absurd (omega arith)
    write_entries_lem (member key j ms) zero w first d enough inside fits = absurd (omega arith)
    write_entries_lem no_members (suc rounds) w first denote_end enough inside fits =
        put_nothing w inside
    write_entries_lem {h} (member key j ms) (suc rounds) w first (denote_entry a e c k d ds) enough
          inside fits =
        let entry = quoted_text key ++ (b':' ∷ json_text print_float j) in
        put_step (comma first) (entry ++ members_text print_float false ms) _ fits
          (separator_lem first w inside)
          (λ w1 inside1 fits1.
            put_step entry (members_text print_float false ms) _ fits1
              (write_entry_lem h (λ w' v'. json_write_value print_float rounds w' v' h)
                (json_text print_float j) w1 key c k
                (λ w'. json_write_value_lem j rounds w' d (omega arith)) inside1)
              (λ w2. write_entries_lem ms rounds w2 false ds (omega arith)))
