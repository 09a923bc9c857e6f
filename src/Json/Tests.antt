-- ===== src/Json/Tests.antt =====
-- The reader and the writer of icecreme/json.c on small documents.
use creme.Common.{
  ℕ, zero, suc, ◌+◌, ◌-◌, ◌*◌, ◌/◌, ◌%◌, ◌≡◌, refl, [], ◌∷◌, ok, ◌==◌, if◌then◌else◌, false, arith,
}
use creme.Csv.Write.{digits}
use creme.Csv.Parse.{Bytes}
use creme.Treelist.Node.{empty_leaf}
use creme.Json.Decimal.{IsDecimal, tail_decimal, last_digit, fraction_tail}
use creme.Json.Decoded.{
  Readable, readable_integer, readable_real, readable_string, readable_array, readable_object,
  readable_no_items, readable_item, readable_no_members, readable_member,
}
use creme.Json.Proofs.RoundTrip.{
  ReadsAs, bi_json_read_total, bi_json_write_lem, bi_json_read-bi_json_write,
}
use creme.Json.Proofs.Steps.{EndsOn}
use creme.Json.Proofs.Total.{Some}
use creme.Json.Spec.{
  Json, integer, real, string, array, object, no_items, item, no_members, member, json_text,
  json_size, bytes_text, byte_text, Denotes, denotes_int, denotes_flo, denotes_char, denotes_vector,
  denotes_alist, denote_no_items, denote_item, denote_end, denote_entry,
}
use creme.Json.Values.{json_max_depth, bi_json_read}
use creme.Json.Writer.{has_byte, bi_json_write}
use creme.Value
use creme.Value.{pos, negsuc, Value, nil, int, flo, char, str, pair, vector, Pair, Heap}

-- `#(1 2.5 (("a" . -20)) #\newline)`: the alist has pairs 1 and 2, and the vector is object 3.
abbrev sample_pairs : ℕ → Pair
sample_pairs (suc zero) = record { car = pair 2; cdr = nil }
sample_pairs (suc (suc zero)) = record { car = str (b'a' ∷ []); cdr = int (negsuc 19) }
sample_pairs _ = record { car = nil; cdr = nil }

abbrev sample_heap : Heap
sample_heap = record {
  next = 4;
  pairs = sample_pairs;
  vectors = λ a. int (pos 1) ∷ flo 5 ∷ pair 1 ∷ char b'\n' ∷ [];
  trees = λ a. empty_leaf;
  mutables = λ a. empty_leaf;
}

abbrev sample : Json
sample = array (
    item (integer (pos 1)) (
      item (real 5) (
        item (object (member (b'a' ∷ []) (integer (negsuc 19)) no_members))
          (item (string (b'\n' ∷ [])) no_items))))

-- The floats of the sample are halves, `n` for `n / 2` with one whole digit.
abbrev print_half : ℕ → Bytes
print_half n = (b'0' + n / 2) ∷ b'.' ∷ (if n % 2 == 0 then b'0' else b'5') ∷ []

abbrev read_half : Bytes → ℕ
read_half (whole ∷ point ∷ half ∷ _) = (whole - b'0') * 2 + (if half == b'5' then 1 else 0)
read_half _ = 0

sample-Denotes : Denotes sample_heap (vector 3) sample
sample-Denotes = denotes_vector 3 (
    denote_item (denotes_int (pos 1)) (
      denote_item (denotes_flo 5) (
        denote_item
          (denotes_alist 1 (denote_entry 1 2 refl refl (denotes_int (negsuc 19)) denote_end))
          (denote_item (denotes_char b'\n') denote_no_items))))

five_halves : IsDecimal (print_half 5)
five_halves =
    tail_decimal false (last_digit b'2' (omega arith) (omega arith))
      (fraction_tail (last_digit b'5' (omega arith) (omega arith))) refl

sample-Readable : Readable print_half read_half json_max_depth sample
sample-Readable = readable_array 999 (
    readable_item (readable_integer 998 (pos 1) (omega arith)) (
      readable_item (readable_real 998 5 five_halves refl) (
        readable_item
          (readable_object 998 (
            readable_member (b'a' ∷ []) (readable_integer 997 (negsuc 19) (omega arith))
              (readable_no_members 998)))
          (readable_item (readable_string 998 (b'\n' ∷ [])) (readable_no_items 999)))))

-- A text with white space and an escape.
abbrev spaced : Bytes
spaced = b'[' ∷ b' ' ∷ b'"' ∷ b'\\' ∷ b'u' ∷ b'0' ∷ b'0' ∷ b'e' ∷ b'9' ∷ b'"' ∷ b' ' ∷ b']' ∷ []

bi_json_read_total_example : EndsOn Some (bi_json_read read_half (str spaced ∷ []))
bi_json_read_total_example = bi_json_read_total read_half (str spaced ∷ [])

bi_json_write_example :
    bi_json_write print_half 24 (vector 3 ∷ []) sample_heap
    ≡ ok (str (json_text print_half sample), sample_heap)
unfolding json_size json_text has_byte digits bytes_text byte_text
bi_json_write_example =
    bi_json_write_lem print_half sample_heap (vector 3) sample 24 sample-Denotes (omega arith)
      (omega arith)

bi_json_read-bi_json_write_example : ReadsAs sample_heap sample (
    (Value.◌>>=◌
        (bi_json_write print_half 24 (vector 3 ∷ []))
        (λ text. bi_json_read read_half (text ∷ [])))
      sample_heap)
unfolding json_size json_text has_byte digits bytes_text byte_text
bi_json_read-bi_json_write_example =
    bi_json_read-bi_json_write print_half read_half sample_heap (vector 3) sample 24 sample-Denotes
      sample-Readable (omega arith) (omega arith)
