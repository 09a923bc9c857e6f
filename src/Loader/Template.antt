-- ===== src/Loader/Template.antt =====
-- The quasiquote templates and case tables that icecreme/loader.c reads.
use creme.Common.{
  ℕ, zero, suc, none, some, List, [], ◌∷◌, ok, fail, abort, bad_bytecode, too_deep, get_elem?,
}
use creme.Csv.Parse.{Bytes}
use creme.Loader.Datum.{Numbers, read_datum}
use creme.Loader.Primitives.{read_i32, read_i64, read_u8, read_count, read_pooled_string}
use creme.Loader.State.{Load, done, ◌>>=◌, read_each}
use creme.Value.{ℤ, Value}

-- `QQTemplate`, with the parts that its tag has.
mutual
  pub data QqTemplate : Type 0 where
    qq_const : Value → QqTemplate
    qq_hole qq_splice : QqTemplate
    qq_list : QqTemplates → QqTemplate → QqTemplate
    qq_vector : QqTemplates → QqTemplate

  pub data QqTemplates : Type 0 where
    no_templates : QqTemplates
    template : QqTemplate → QqTemplates → QqTemplates

pub data QqTag : Type 0 where
  qq_const_tag qq_hole_tag qq_splice_tag qq_list_tag qq_vector_tag : QqTag

abbrev pub qq_tags : List QqTag
qq_tags = qq_const_tag ∷ qq_hole_tag ∷ qq_splice_tag ∷ qq_list_tag ∷ qq_vector_tag ∷ []

unfoldable pub read_qq_tag : Load QqTag
read_qq_tag = do
  tag ← read_u8
  λ s. elim (get_elem? qq_tags tag) [ none ↦ fail (abort bad_bytecode) | some t ↦ ok (t, s) ]

-- The loop over `n` items.
unfoldable pub read_templates : Load QqTemplate → ℕ → Load QqTemplates
read_templates read zero = done no_templates
read_templates read (suc n) = do t ← read; ts ← read_templates read n; done (template t ts)

abbrev pub loader_max_qq_depth : ℕ
loader_max_qq_depth = 4000

-- `CaseDispatchEntry`: `ival` of an integer, a character or a Boolean, `sval` of a symbol.
pub data CaseKey : Type 0 where
  key_int key_char key_bool : ℤ → CaseKey
  key_sym : Bytes → CaseKey
  key_nil : CaseKey

pub record CaseDispatchEntry : Type 0 where
  pub key : CaseKey
  pub target : ℤ

pub record CaseDispatchTable : Type 0 where
  pub default_target : ℤ
  pub entries : List CaseDispatchEntry

pub data CdkTag : Type 0 where
  cdk_int cdk_char cdk_sym cdk_bool cdk_nil : CdkTag

abbrev pub cdk_tags : List CdkTag
cdk_tags = cdk_int ∷ cdk_char ∷ cdk_sym ∷ cdk_bool ∷ cdk_nil ∷ []

unfoldable pub read_cdk_tag : Load CdkTag
read_cdk_tag = do
  tag ← read_u8
  λ s. elim (get_elem? cdk_tags tag) [ none ↦ fail (abort bad_bytecode) | some t ↦ ok (t, s) ]

unfoldable pub read_case_key : CdkTag → Load CaseKey
read_case_key cdk_int = do i ← read_i64; done (key_int i)
read_case_key cdk_char = do i ← read_i64; done (key_char i)
read_case_key cdk_bool = do i ← read_i64; done (key_bool i)
read_case_key cdk_sym = do s ← read_pooled_string; done (key_sym s)
read_case_key cdk_nil = done key_nil

unfoldable pub read_case_entry : Load CaseDispatchEntry
read_case_entry = do
  tag ← read_cdk_tag
  key ← read_case_key tag
  target ← read_i32
  done (record { key = key; target = target })

unfoldable pub read_case_dispatch_table : Load CaseDispatchTable
read_case_dispatch_table = do
  default_target ← read_i32
  n ← read_count
  entries ← read_each read_case_entry n
  done (record { default_target = default_target; entries = entries })

module _ (N : Numbers) where
  -- Behind the tag; `read` reads a template inside.
  unfoldable pub read_qq_parts : Load QqTemplate → QqTag → Load QqTemplate
  read_qq_parts read qq_const_tag = do v ← read_datum N; done (qq_const v)
  read_qq_parts read qq_hole_tag = done qq_hole
  read_qq_parts read qq_splice_tag = done qq_splice
  read_qq_parts read qq_list_tag = do
    n ← read_count
    items ← read_templates read n
    tail ← read
    done (qq_list items tail)
  read_qq_parts read qq_vector_tag = do
    n ← read_count
    items ← read_templates read n
    done (qq_vector items)

  -- `room` is what is left of the depth, so that the calls end.
  unfoldable pub read_qq_template : ℕ → Load QqTemplate
  read_qq_template zero = λ s. fail (abort too_deep)
  read_qq_template (suc room) = do tag ← read_qq_tag; read_qq_parts (read_qq_template room) tag
