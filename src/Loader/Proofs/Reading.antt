-- ===== src/Loader/Proofs/Reading.antt =====
-- The readers of data, templates and chunks of icecreme/loader.c return or abort, at every depth.
use creme.Common.{
  ℕ, zero, suc, refl, inl, inr, bad_bytecode, too_deep, length, get_elem?, leb, Bool-cases,
}
use creme.Csv.Parse.{Bytes}
use creme.Loader.Datum.{
  DatumTag, tag_int, tag_float, tag_rational, tag_complex, tag_sym, tag_str, tag_bool, tag_nil,
  tag_char, tag_pair, tag_vector, tag_blob, tag_builtin, tag_label_def, tag_label_ref, datum_tags,
  read_tag, datum_labels_cap, datum_label_add, datum_label_find, label_value, new_pair, new_items,
  new_bytevector, read_items, Numbers, read_int_str_into, read_payload, read_tagged, read_datum_rec,
  read_datum,
}
use creme.Loader.Globals.{resolve_builtin_const}
use creme.Loader.Primitives.{read_i32, read_u8, read_bytes}
use creme.Loader.Proofs.Ends.{
  load_returned, load_aborted, Ending, Ending-bind, Ending-done, Ending-fail, Ending-insist,
  Ending-option, Ending-read_each, read_i32-Ending, read_i64-Ending, read_f64-Ending,
  read_u8-Ending, read_count-Ending, read_bytes-Ending, read_pooled_string-Ending,
}
use creme.Loader.State.{LoadState, Load}
use creme.Loader.Template.{
  QqTemplate, read_qq_tag, qq_tags, QqTag, qq_const_tag, qq_hole_tag, qq_splice_tag, qq_list_tag,
  qq_vector_tag, read_templates, read_qq_parts, read_qq_template, CdkTag, cdk_int, cdk_char,
  cdk_sym, cdk_bool, cdk_nil, cdk_tags, read_cdk_tag, read_case_key, read_case_entry,
  read_case_dispatch_table,
}
use creme.Value.{ℤ, pos, negsuc, Value}

read_tag-Ending : Ending read_tag
unfolding read_tag
read_tag-Ending =
    Ending-bind read_u8 _ read_u8-Ending (λ tag. Ending-option (get_elem? datum_tags tag))

datum_label_add-Ending : (id : ℤ) (v : Value) → Ending (datum_label_add id v)
unfolding datum_label_add
datum_label_add-Ending id v s = elim (Bool-cases (leb datum_labels_cap (length s.labels))) [
  | inl e ↦ rw (e, datum_label_add) (load_aborted bad_bytecode)
  | inr e ↦ rw (e, datum_label_add) (load_returned _ _ refl)
]

label_value-Ending : (id : ℤ) (v : Value) → Ending (label_value id v)
unfolding label_value
label_value-Ending (pos id) v =
    Ending-bind _ _ (datum_label_add-Ending (pos id) v) (λ t. Ending-done v)
label_value-Ending (negsuc id) v = Ending-done v

new_pair-Ending : Ending new_pair
unfolding new_pair
new_pair-Ending s = load_returned _ _ refl

new_items-Ending : (n : ℕ) → Ending (new_items n)
unfolding new_items
new_items-Ending n s = load_returned _ _ refl

new_bytevector-Ending : (bytes : Bytes) → Ending (new_bytevector bytes)
unfolding new_bytevector
new_bytevector-Ending bytes s = load_returned _ _ refl

resolve_builtin_const-Ending : (name : Bytes) → Ending (resolve_builtin_const name)
unfolding resolve_builtin_const
resolve_builtin_const-Ending name s = load_returned _ _ refl

read_items-Ending : (read : Load Value) (a i n : ℕ) → Ending read → Ending (read_items read a i n)
unfolding read_items
read_items-Ending read a i zero e = Ending-done tt
read_items-Ending read a i (suc n) e =
    Ending-bind read _ e (λ v s. read_items-Ending read a (suc i) n e _)

module _ (N : Numbers) where
  read_int_str_into-Ending : Ending (read_int_str_into N)
  unfolding read_int_str_into
  read_int_str_into-Ending = Ending-bind read_i32 _ read_i32-Ending (λ len.
      Ending-bind (read_bytes len) _ (read_bytes-Ending len)
        (λ buf. Ending-option (Numbers.mpz_set_str N buf)))

  read_payload-Ending :
      (read : Load Value) (id : ℤ) (tag : DatumTag)
      → Ending read
      → Ending (read_payload N read id tag)
  unfolding read_payload
  read_payload-Ending read id tag_int e =
      Ending-bind _ _ read_int_str_into-Ending (λ z. label_value-Ending id _)
  read_payload-Ending read id tag_float e =
      Ending-bind _ _ read_f64-Ending (λ f. label_value-Ending id _)
  read_payload-Ending read id tag_rational e = Ending-bind _ _ read_int_str_into-Ending (λ num.
      Ending-bind _ _ read_int_str_into-Ending
        (λ den. Ending-bind _ _ (Ending-insist _ _) (λ t. label_value-Ending id _)))
  read_payload-Ending read id tag_complex e =
      Ending-bind _ _ e (λ real. Ending-bind _ _ e (λ imag. label_value-Ending id _))
  read_payload-Ending read id tag_sym e =
      Ending-bind _ _ read_pooled_string-Ending (λ s. label_value-Ending id _)
  read_payload-Ending read id tag_str e =
      Ending-bind _ _ read_pooled_string-Ending (λ s. label_value-Ending id _)
  read_payload-Ending read id tag_bool e =
      Ending-bind _ _ read_u8-Ending (λ b. label_value-Ending id _)
  read_payload-Ending read id tag_nil e = label_value-Ending id _
  read_payload-Ending read id tag_char e =
      Ending-bind _ _ read_i64-Ending (λ c. label_value-Ending id _)
  read_payload-Ending read id tag_pair e = Ending-bind _ _ new_pair-Ending (λ p.
      Ending-bind _ _ (label_value-Ending id _) (λ result.
        Ending-bind _ _ e (λ a s. Ending-bind _ _ e (λ d s'. load_returned result _ refl) _)))
  read_payload-Ending read id tag_vector e = Ending-bind _ _ read_count-Ending (λ n.
      Ending-bind _ _ (new_items-Ending n) (λ vec.
        Ending-bind _ _ (label_value-Ending id _)
          (λ result. Ending-bind _ _ (read_items-Ending read vec 0 n e) (λ t. Ending-done result))))
  read_payload-Ending read id tag_blob e = Ending-bind _ _ read_count-Ending (λ n.
      Ending-bind _ _ (Ending-read_each _ n read_u8-Ending)
        (λ bytes. Ending-bind _ _ (new_bytevector-Ending bytes) (λ v. label_value-Ending id v)))
  read_payload-Ending read id tag_builtin e =
      Ending-bind _ _ read_pooled_string-Ending
        (λ name. Ending-bind _ _ (resolve_builtin_const-Ending name) (λ v. label_value-Ending id v))
  read_payload-Ending read id tag_label_def e = Ending-fail bad_bytecode
  read_payload-Ending read id tag_label_ref e = Ending-fail bad_bytecode

  read_tagged-Ending :
      (read : Load Value) (tag : DatumTag) → Ending read → Ending (read_tagged N read tag)
  unfolding read_tagged
  read_tagged-Ending read tag_label_ref e =
      Ending-bind read_i32 _ read_i32-Ending
        (λ id s. Ending-option (datum_label_find (LoadState.labels s) id) s)
  read_tagged-Ending read tag_label_def e =
      Ending-bind read_i32 _ read_i32-Ending
        (λ id. Ending-bind read_tag _ read_tag-Ending (λ tag. read_payload-Ending read id tag e))
  read_tagged-Ending read tag_int e = read_payload-Ending read _ tag_int e
  read_tagged-Ending read tag_float e = read_payload-Ending read _ tag_float e
  read_tagged-Ending read tag_rational e = read_payload-Ending read _ tag_rational e
  read_tagged-Ending read tag_complex e = read_payload-Ending read _ tag_complex e
  read_tagged-Ending read tag_sym e = read_payload-Ending read _ tag_sym e
  read_tagged-Ending read tag_str e = read_payload-Ending read _ tag_str e
  read_tagged-Ending read tag_bool e = read_payload-Ending read _ tag_bool e
  read_tagged-Ending read tag_nil e = read_payload-Ending read _ tag_nil e
  read_tagged-Ending read tag_char e = read_payload-Ending read _ tag_char e
  read_tagged-Ending read tag_pair e = read_payload-Ending read _ tag_pair e
  read_tagged-Ending read tag_vector e = read_payload-Ending read _ tag_vector e
  read_tagged-Ending read tag_blob e = read_payload-Ending read _ tag_blob e
  read_tagged-Ending read tag_builtin e = read_payload-Ending read _ tag_builtin e

  read_datum_rec-Ending : (room : ℕ) → Ending (read_datum_rec N room)
  unfolding read_datum_rec
  read_datum_rec-Ending zero = Ending-fail too_deep
  read_datum_rec-Ending (suc room) =
      Ending-bind read_tag _ read_tag-Ending
        (λ tag. read_tagged-Ending (read_datum_rec N room) tag (read_datum_rec-Ending room))

  pub read_datum-Ending : Ending (read_datum N)
  unfolding read_datum
  read_datum-Ending s = read_datum_rec-Ending _ _

  read_templates-Ending :
      (read : Load QqTemplate) (n : ℕ) → Ending read → Ending (read_templates read n)
  unfolding read_templates
  read_templates-Ending read zero e = Ending-done _
  read_templates-Ending read (suc n) e =
      Ending-bind read _ e
        (λ t. Ending-bind _ _ (read_templates-Ending read n e) (λ ts. Ending-done _))

  read_qq_parts-Ending :
      (read : Load QqTemplate) (tag : QqTag) → Ending read → Ending (read_qq_parts N read tag)
  unfolding read_qq_parts
  read_qq_parts-Ending read qq_const_tag e = Ending-bind _ _ read_datum-Ending (λ v. Ending-done _)
  read_qq_parts-Ending read qq_hole_tag e = Ending-done _
  read_qq_parts-Ending read qq_splice_tag e = Ending-done _
  read_qq_parts-Ending read qq_list_tag e = Ending-bind _ _ read_count-Ending (λ n.
      Ending-bind _ _ (read_templates-Ending read n e)
        (λ items. Ending-bind _ _ e (λ tail. Ending-done _)))
  read_qq_parts-Ending read qq_vector_tag e =
      Ending-bind _ _ read_count-Ending
        (λ n. Ending-bind _ _ (read_templates-Ending read n e) (λ items. Ending-done _))

  pub read_qq_template-Ending : (room : ℕ) → Ending (read_qq_template N room)
  unfolding read_qq_template read_qq_tag
  read_qq_template-Ending zero = Ending-fail too_deep
  read_qq_template-Ending (suc room) =
      Ending-bind read_qq_tag _
        (Ending-bind read_u8 _ read_u8-Ending (λ tag. Ending-option (get_elem? qq_tags tag)))
        (λ tag. read_qq_parts-Ending (read_qq_template N room) tag (read_qq_template-Ending room))

read_case_key-Ending : (tag : CdkTag) → Ending (read_case_key tag)
unfolding read_case_key
read_case_key-Ending cdk_int = Ending-bind _ _ read_i64-Ending (λ i. Ending-done _)
read_case_key-Ending cdk_char = Ending-bind _ _ read_i64-Ending (λ i. Ending-done _)
read_case_key-Ending cdk_bool = Ending-bind _ _ read_i64-Ending (λ i. Ending-done _)
read_case_key-Ending cdk_sym = Ending-bind _ _ read_pooled_string-Ending (λ s. Ending-done _)
read_case_key-Ending cdk_nil = Ending-done _

read_case_entry-Ending : Ending read_case_entry
unfolding read_case_entry read_cdk_tag
read_case_entry-Ending =
    Ending-bind read_cdk_tag _
      (Ending-bind read_u8 _ read_u8-Ending (λ tag. Ending-option (get_elem? cdk_tags tag)))
      (λ tag.
        Ending-bind _ _ (read_case_key-Ending tag)
          (λ key. Ending-bind _ _ read_i32-Ending (λ target. Ending-done _)))

pub read_case_dispatch_table-Ending : Ending read_case_dispatch_table
unfolding read_case_dispatch_table
read_case_dispatch_table-Ending = Ending-bind _ _ read_i32-Ending (λ default_target.
    Ending-bind _ _ read_count-Ending (λ n.
      Ending-bind _ _ (Ending-read_each _ n read_case_entry-Ending) (λ entries. Ending-done _)))
