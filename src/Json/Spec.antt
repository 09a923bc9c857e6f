-- ===== src/Json/Spec.antt =====
-- The documents that icecreme/json.c reads and writes, as trees; their text, and the values that
-- stand for them.
use creme.Common.{
  ℕ, suc, ◌+◌, ◌%◌, ◌≡◌, Bool, true, false, List, [], ◌∷◌, ◌++◌, ltb, ◌==◌, if◌then◌else◌,
}
use creme.Csv.Parse.{Bytes}
use creme.Csv.Write.{show_int}
use creme.Json.Buffer.{true_text, false_text, null_text}
use creme.Json.Writer.{control_escape, looks_whole, is_entry}
use creme.Value.{ℤ, Value, nil, bool, int, flo, char, str, pair, vector, Heap}

mutual
  pub data Json : Type 0 where
    null : Json
    boolean : Bool → Json
    integer : ℤ → Json
    real : ℕ → Json
    string : Bytes → Json
    array : Items → Json
    object : Members → Json

  pub data Items : Type 0 where
    no_items : Items
    item : Json → Items → Items

  pub data Members : Type 0 where
    no_members : Members
    member : Bytes → Json → Members → Members

unfoldable pub byte_text : ℕ → Bytes
byte_text c =
    if c == b'"'
    then b'\\' ∷ b'"' ∷ []
    else if c == b'\\'
    then b'\\' ∷ b'\\' ∷ []
    else if c == b'\n'
    then b'\\' ∷ b'n' ∷ []
    else if c == b'\r'
    then b'\\' ∷ b'r' ∷ []
    else if c == b'\t'
    then b'\\' ∷ b't' ∷ []
    else if ltb c 32
    then control_escape c
    else c ∷ []

unfoldable pub bytes_text : Bytes → Bytes
bytes_text [] = []
bytes_text (c ∷ s) = byte_text c ++ bytes_text s

abbrev pub quoted_text : Bytes → Bytes
quoted_text s = (b'"' ∷ []) ++ bytes_text s ++ (b'"' ∷ [])

abbrev pub comma : Bool → Bytes
comma true = []
comma false = b',' ∷ []

module _ (print_float : ℕ → Bytes) where
  -- A float has a point, an exponent, or is no number.
  abbrev pub float_text : ℕ → Bytes
  float_text f = print_float f ++ (if looks_whole (print_float f) then b'.' ∷ b'0' ∷ [] else [])

  unfoldable mutual
    pub json_text : Json → Bytes
    json_text null = null_text
    json_text (boolean true) = true_text
    json_text (boolean false) = false_text
    json_text (integer i) = show_int i
    json_text (real f) = float_text f
    json_text (string s) = quoted_text s
    json_text (array js) = (b'[' ∷ []) ++ items_text true js ++ (b']' ∷ [])
    json_text (object ms) = (b'{' ∷ []) ++ members_text true ms ++ (b'}' ∷ [])

    pub items_text : Bool → Items → Bytes
    items_text first no_items = []
    items_text first (item j js) = comma first ++ (json_text j ++ items_text false js)

    pub members_text : Bool → Members → Bytes
    members_text first no_members = []
    members_text first (member key j ms) =
        comma first ++ ((quoted_text key ++ (b':' ∷ json_text j)) ++ members_text false ms)

-- The calls and rounds that the writer needs.
unfoldable mutual
  pub json_size : Json → ℕ
  json_size null = 1
  json_size (boolean b) = 1
  json_size (integer i) = 1
  json_size (real f) = 1
  json_size (string s) = 1
  json_size (array js) = suc (items_size js)
  json_size (object ms) = suc (members_size ms)

  pub items_size : Items → ℕ
  items_size no_items = 1
  items_size (item j js) = suc (json_size j + items_size js)

  pub members_size : Members → ℕ
  members_size no_members = 1
  members_size (member key j ms) = suc (json_size j + members_size ms)

-- A list that is written as an array: one of its elements is no entry.
pub data HasPlain (h : Heap) : Value → Type 0 where
  plain_here : (a : ℕ) → is_entry ((h.pairs a).car) h ≡ false → HasPlain h (pair a)
  plain_later :
      (a : ℕ)
      → is_entry ((h.pairs a).car) h ≡ true
      → HasPlain h ((h.pairs a).cdr)
      → HasPlain h (pair a)

-- What a value stands for. A char is a string, a list an array unless all its elements are pairs
-- whose car is a string: then it is an object.
mutual
  pub data Denotes (h : Heap) : Value → Json → Type 0 where
    denotes_nil : Denotes h nil null
    denotes_bool : (b : Bool) → Denotes h (bool b) (boolean b)
    denotes_int : (i : ℤ) → Denotes h (int i) (integer i)
    denotes_flo : (f : ℕ) → Denotes h (flo f) (real f)
    denotes_str : (s : Bytes) → Denotes h (str s) (string s)
    denotes_char : (c : ℕ) → Denotes h (char c) (string ((c % 256) ∷ []))
    denotes_vector :
        (a : ℕ) {js : Items} → DenoteItems h (h.vectors a) js → Denotes h (vector a) (array js)
    denotes_list :
        (a : ℕ) {js : Items}
        → HasPlain h (pair a)
        → DenoteList h (pair a) js
        → Denotes h (pair a) (array js)
    denotes_alist :
        (a : ℕ) {ms : Members} → DenoteAlist h (pair a) ms → Denotes h (pair a) (object ms)

  pub data DenoteItems (h : Heap) : List Value → Items → Type 0 where
    denote_no_items : DenoteItems h [] no_items
    denote_item :
        {v : Value} {vs : List Value} {j : Json} {js : Items}
        → Denotes h v j
        → DenoteItems h vs js
        → DenoteItems h (v ∷ vs) (item j js)

  pub data DenoteList (h : Heap) : Value → Items → Type 0 where
    denote_nil : DenoteList h nil no_items
    denote_pair :
        (a : ℕ) {j : Json} {js : Items}
        → Denotes h ((h.pairs a).car) j
        → DenoteList h ((h.pairs a).cdr) js
        → DenoteList h (pair a) (item j js)

  pub data DenoteAlist (h : Heap) : Value → Members → Type 0 where
    denote_end : DenoteAlist h nil no_members
    denote_entry :
        (a e : ℕ) {key : Bytes} {j : Json} {ms : Members}
        → (h.pairs a).car ≡ pair e
        → (h.pairs e).car ≡ str key
        → Denotes h ((h.pairs e).cdr) j
        → DenoteAlist h ((h.pairs a).cdr) ms
        → DenoteAlist h (pair a) (member key j ms)
