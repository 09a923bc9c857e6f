-- ===== src/Treelist/Table.antt =====
-- The table of the treelist builtins that call no procedure (`creme_register_treelist_builtins` of
-- icecreme/treelist.c). Those whose run depends on a size or on the shape of a list stand aside.
use creme.Common.{List}
use creme.Value.{Value, M}
use creme.Treelist.Builtins.{
  bi_treelist, bi_treelist_to_list, bi_vector_to_treelist, bi_treelist_to_vector, bi_treelist_p,
  bi_treelist_empty_p, bi_treelist_length, bi_treelist_ref, bi_treelist_first, bi_treelist_last,
  bi_treelist_add, bi_treelist_cons, bi_treelist_set, bi_treelist_insert, bi_treelist_delete,
  bi_treelist_take, bi_treelist_drop, bi_treelist_take_right, bi_treelist_drop_right,
  bi_treelist_sublist, bi_treelist_rest, bi_treelist_append, bi_treelist_reverse,
}
use creme.Treelist.Mutable.{
  bi_mutable_treelist, bi_vector_to_mutable_treelist, bi_treelist_copy, bi_mutable_treelist_copy,
  bi_mutable_treelist_snapshot, bi_mutable_treelist_to_list, bi_mutable_treelist_to_vector,
  bi_mutable_treelist_p, bi_mutable_treelist_empty_p, bi_mutable_treelist_length,
  bi_mutable_treelist_ref, bi_mutable_treelist_first, bi_mutable_treelist_last,
  bi_mutable_treelist_add_bang, bi_mutable_treelist_cons_bang, bi_mutable_treelist_set_bang,
  bi_mutable_treelist_insert_bang, bi_mutable_treelist_delete_bang, bi_mutable_treelist_append_bang,
  bi_mutable_treelist_prepend_bang, bi_mutable_treelist_take_bang, bi_mutable_treelist_drop_bang,
  bi_mutable_treelist_take_right_bang, bi_mutable_treelist_drop_right_bang,
  bi_mutable_treelist_sublist_bang, bi_mutable_treelist_reverse_bang,
}

pub data Builtin : Type 0 where
  new_treelist treelist_to_list vector_to_treelist treelist_to_vector : Builtin
  treelist_p treelist_empty_p treelist_length treelist_ref : Builtin
  treelist_first treelist_last treelist_add treelist_cons : Builtin
  treelist_set treelist_insert treelist_delete treelist_take : Builtin
  treelist_drop treelist_take_right treelist_drop_right treelist_sublist : Builtin
  treelist_rest treelist_append treelist_reverse new_mutable_treelist : Builtin
  vector_to_mutable_treelist treelist_copy mutable_treelist_copy mutable_treelist_snapshot : Builtin
  mutable_treelist_to_list mutable_treelist_to_vector mutable_treelist_p mutable_treelist_empty_p :
      Builtin
  mutable_treelist_length mutable_treelist_ref mutable_treelist_first mutable_treelist_last :
      Builtin
  mutable_treelist_add_bang mutable_treelist_cons_bang mutable_treelist_set_bang
        mutable_treelist_insert_bang :
      Builtin
  mutable_treelist_delete_bang mutable_treelist_append_bang mutable_treelist_prepend_bang
        mutable_treelist_take_bang :
      Builtin
  mutable_treelist_drop_bang mutable_treelist_take_right_bang mutable_treelist_drop_right_bang
        mutable_treelist_sublist_bang :
      Builtin
  mutable_treelist_reverse_bang : Builtin

unfoldable pub call : Builtin → List Value → M Value
call new_treelist = bi_treelist
call treelist_to_list = bi_treelist_to_list
call vector_to_treelist = bi_vector_to_treelist
call treelist_to_vector = bi_treelist_to_vector
call treelist_p = bi_treelist_p
call treelist_empty_p = bi_treelist_empty_p
call treelist_length = bi_treelist_length
call treelist_ref = bi_treelist_ref
call treelist_first = bi_treelist_first
call treelist_last = bi_treelist_last
call treelist_add = bi_treelist_add
call treelist_cons = bi_treelist_cons
call treelist_set = bi_treelist_set
call treelist_insert = bi_treelist_insert
call treelist_delete = bi_treelist_delete
call treelist_take = bi_treelist_take
call treelist_drop = bi_treelist_drop
call treelist_take_right = bi_treelist_take_right
call treelist_drop_right = bi_treelist_drop_right
call treelist_sublist = bi_treelist_sublist
call treelist_rest = bi_treelist_rest
call treelist_append = bi_treelist_append
call treelist_reverse = bi_treelist_reverse
call new_mutable_treelist = bi_mutable_treelist
call vector_to_mutable_treelist = bi_vector_to_mutable_treelist
call treelist_copy = bi_treelist_copy
call mutable_treelist_copy = bi_mutable_treelist_copy
call mutable_treelist_snapshot = bi_mutable_treelist_snapshot
call mutable_treelist_to_list = bi_mutable_treelist_to_list
call mutable_treelist_to_vector = bi_mutable_treelist_to_vector
call mutable_treelist_p = bi_mutable_treelist_p
call mutable_treelist_empty_p = bi_mutable_treelist_empty_p
call mutable_treelist_length = bi_mutable_treelist_length
call mutable_treelist_ref = bi_mutable_treelist_ref
call mutable_treelist_first = bi_mutable_treelist_first
call mutable_treelist_last = bi_mutable_treelist_last
call mutable_treelist_add_bang = bi_mutable_treelist_add_bang
call mutable_treelist_cons_bang = bi_mutable_treelist_cons_bang
call mutable_treelist_set_bang = bi_mutable_treelist_set_bang
call mutable_treelist_insert_bang = bi_mutable_treelist_insert_bang
call mutable_treelist_delete_bang = bi_mutable_treelist_delete_bang
call mutable_treelist_append_bang = bi_mutable_treelist_append_bang
call mutable_treelist_prepend_bang = bi_mutable_treelist_prepend_bang
call mutable_treelist_take_bang = bi_mutable_treelist_take_bang
call mutable_treelist_drop_bang = bi_mutable_treelist_drop_bang
call mutable_treelist_take_right_bang = bi_mutable_treelist_take_right_bang
call mutable_treelist_drop_right_bang = bi_mutable_treelist_drop_right_bang
call mutable_treelist_sublist_bang = bi_mutable_treelist_sublist_bang
call mutable_treelist_reverse_bang = bi_mutable_treelist_reverse_bang
