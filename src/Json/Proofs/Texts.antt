-- ===== src/Json/Proofs/Texts.antt =====
-- The parts of the text of a document, as the reader of icecreme/json.c meets them.
use creme.Common.{
  ℕ, suc, ◌+◌, ◌≤◌, ◌≡◌, refl, ◌∙◌, Bool, true, false, [], ◌∷◌, ◌++◌, append_assoc, length,
  length-append, arith,
}
use creme.Csv.Parse.{Bytes}
use creme.Csv.Write.{show_int}
use creme.Json.Decoded.{Readable, readable_integer, readable_real}
use creme.Json.Proofs.Numbers.{stops, show_int-IsNumberText}
use creme.Json.Proofs.Reals.{float_text-IsNumberText}
use creme.Json.Proofs.Parts.{IsStart, cons-IsStart, starts_number-IsStart}
use creme.Json.Proofs.Strings.{length-bytes_text}
use creme.Json.Spec.{
  Json, Items, Members, null, boolean, integer, real, string, array, object, no_items, item,
  no_members, member, bytes_text, quoted_text, float_text, json_text, items_text, members_text,
}

abbrev pub is_item : Items → Bool
is_item no_items = false
is_item (item j js) = true

abbrev pub is_member : Members → Bool
is_member no_members = false
is_member (member key j ms) = true

pub append-entry :
    (key text later rest : Bytes)
    → ((quoted_text key ++ (b':' ∷ text)) ++ later) ++ rest
      ≡ quoted_text key ++ (b':' ∷ (text ++ (later ++ rest)))
append-entry key text later rest =
    append_assoc (quoted_text key ++ (b':' ∷ text)) later rest
    ∙ append_assoc (quoted_text key) (b':' ∷ text) (later ++ rest)

-- The parts of an entry are shorter than its text.
pub length-entry :
    (key text later : Bytes)
    → length key + length text + length later + 2
      ≤ length ((quoted_text key ++ (b':' ∷ text)) ++ later)
length-entry key text later = omega (
  arith,
  length-append (quoted_text key ++ (b':' ∷ text)) later,
  length-append (quoted_text key) (b':' ∷ text),
  length-append (bytes_text key) (b'"' ∷ []),
  length-bytes_text key,
)

module _ (print_float : ℕ → Bytes) where
  -- What follows an item.
  pub items_text-stops :
      (js : Items) (rest : Bytes) → stops (items_text print_float false js ++ (b']' ∷ rest)) ≡ true
  unfolding json_text
  items_text-stops no_items rest = refl
  items_text-stops (item j js) rest = refl

  pub members_text-stops :
      (ms : Members) (rest : Bytes)
      → stops (members_text print_float false ms ++ (b'}' ∷ rest)) ≡ true
  unfolding json_text
  members_text-stops no_members rest = refl
  members_text-stops (member key j ms) rest = refl

  -- The comma is one more byte.
  pub items_text-comma :
      (js : Items)
      → is_item js ≡ true
      → length (items_text print_float false js) ≡ suc (length (items_text print_float true js))
  unfolding json_text
  items_text-comma no_items e = absurd (cc e)
  items_text-comma (item j js) e = omega arith

  pub members_text-comma :
      (ms : Members)
      → is_member ms ≡ true
      → length (members_text print_float false ms) ≡ suc (length (members_text print_float true ms))
  unfolding json_text
  members_text-comma no_members e = absurd (cc e)
  members_text-comma (member key j ms) e = omega arith

module _ (print_float : ℕ → Bytes) (strtod : Bytes → ℕ) where
  pub json_text-IsStart :
      {depth : ℕ} (j : Json)
      → Readable print_float strtod depth j
      → IsStart (json_text print_float j)
  unfolding json_text
  json_text-IsStart null w = cons-IsStart _ _ refl refl
  json_text-IsStart (boolean true) w = cons-IsStart _ _ refl refl
  json_text-IsStart (boolean false) w = cons-IsStart _ _ refl refl
  json_text-IsStart (integer i) (readable_integer _ _ word) =
      let number = show_int-IsNumberText strtod i word in
      starts_number-IsStart (show_int i) number.starts
  json_text-IsStart (real f) (readable_real _ _ printed exact) =
      let number = float_text-IsNumberText print_float strtod f printed exact in
      starts_number-IsStart (float_text print_float f) number.starts
  json_text-IsStart (string s) w = cons-IsStart _ _ refl refl
  json_text-IsStart (array js) w = cons-IsStart _ _ refl refl
  json_text-IsStart (object ms) w = cons-IsStart _ _ refl refl
