-- ===== src/Lib.antt =====
-- The containers, text formats and bytecode loader of icecreme, the C virtual machine of creme.
--
-- icecreme runs Scheme bytecode. A builtin is a C function over an array of arguments; it returns a
-- value or calls creme_abort, which unwinds to the Scheme program. The modules model the data
-- structures behind the builtins as they are in C, and state what a Scheme program sees of them.
--
-- Common passes on the library names, tests and lemmas on native numbers and lists, and the type
-- Result of a C computation: a value, creme_abort, an access outside an array, or the end of a
-- loop's rounds.
--
-- Value is icecreme/value.h: values, and a heap of pairs, vectors and trees. A builtin is a function
-- of its arguments and the heap. An address always holds an object, as the collector guarantees.
--
-- Treelist is icecreme/treelist.c. Node is RRBNode with its size table; Access has rrb_node_ref,
-- rrb_node_set, rrb_fast_push and rrb_fast_cons; Bulk the chunking, rrb_from_array and rrb_collect;
-- Concat rrb_rebalance and rrb_concat_sub; Slice rrb_slice_node and rrb_canonical; Tree the tree_*
-- functions; Builtins, Mutable and Higher the bi_* functions, and Table their registration. The
-- invariant and the meaning of a tree as a list are in WellFormed, the proofs in Proofs.
-- Rounds: rrb_concat_sub goes down one level at a time, so the greater height plus one is enough;
-- chunking and rrb_from_array take a round for each item. The walk along a Scheme list takes its
-- rounds as a parameter, since on a cyclic list the C code does not end.
-- Sizes are natural numbers, and int in C. The largest size that an operation computes is that of the
-- new root, so tree_add, tree_cons, tree_concat and from_int_array (rrb_from_array with its int n) stop
-- with the fault int_overflow where that size does not fit, and the sums inside rrb_mk_branch,
-- rrb_fast_push and rrb_fast_cons are exact. IsTree is a well-formed root with fewer than 2 ^ 31 items;
-- from_array alone, and the lemmas on IsRoot, have no such bound. list->treelist and the builtins that
-- call procedures load arrays by from_array. The cast of a requested size to int is written out.
-- Procedures passed to a builtin (creme_apply) and creme_equal are parameters.
--
-- Csv is icecreme/csv.c. Parse is csv_parse_row over what is left of a character source; Write is
-- dynbuf_append, csv_cell_bytes and csv_write_row; Builtins has csv-read, csv-read-headers, csv-write
-- and csv-write-headers. Spec is the text that the writer means to make. Rounds: a cell that is
-- followed by another one takes its separator, and a row takes a byte, so one round more than there
-- are bytes is enough. Floats are printed by snprintf, which is a parameter. The streaming readers
-- and writers, which are the same over a port, are left out.
--
-- HashTable is icecreme/hashtable.c. IndexMap is the interface of the Verstable map (vendor/verstable,
-- another project): its operations with their documented behaviour, as a parameter. Table has the side
-- arrays, ht_compact and the operations; keys and values of one index are one slot. Builtins has the
-- bi_* functions over a state of tables beside the heap. The comparison of the map is creme_equal at a
-- heap in which the keys are not changed: of it the proofs use that it is symmetric and transitive, and
-- not that it is reflexive, which it is not for continuations and macros. Equal is creme_eqv of
-- icecreme/vm.c, which is creme_equal on all values without parts, and which the tests use.
--
-- Radix is icecreme/radix.c. Add has the tokenizer, split_node, insert_token and radix_tree_add, with
-- the change of the node at which a token ends as an argument in place of a pointer to it; Find is
-- find_rec. Builtins has the bi_* functions over a function from addresses to trees. Spec says, without
-- the functions of the code, what the tokens of a pattern are, what a tree stores, what a pattern
-- matches and which children come first.
--
-- Json is icecreme/json.c. Buffer is GBuf with the gbuf_* functions; Reader has the white space,
-- strings and numbers, Values json_parse_value and its loops, Writer json_write_value and its loops.
-- A JReader is the list of the bytes from pos to len; the depth is an argument. Spec has documents as
-- trees, their text and the values that stand for them, Decimal the text of a finite float, Decoded
-- the values that the reader makes.
-- Rounds: each value and each round of a loop of the reader takes one, and two for each byte of the
-- input are enough; the writer needs as many as the document has parts, and on a cyclic value the C
-- code does not end. strtod and the %.17g of snprintf are parameters.
--
-- Loader is icecreme/loader.c with the table of globals of icecreme/vm.c. State is the Reader in its
-- buffer mode, as the bytes from buf_pos to buf_len, with the parts of the machine that loading
-- touches; Primitives has must_read, the numbers and the string pool, Datum read_datum, Template
-- read_qq_template and read_case_dispatch_table, Code read_chunk, Globals creme_global_intern and
-- resolve_builtin_const, and Validate validate_chunk, resolve_globals and creme_load_from_bytes. The
-- depths that the code counts up to a cap are counted down from it, so no rounds are needed. zstd,
-- GMP's parser and the constructors of big, rational and complex numbers are parameters. Reading
-- from a file (creme_load, creme_peek_required_families) is left out.
--
-- Not modelled: sockets, processes, clocks and the bindings of C libraries, which are I/O; the
-- dispatch loop of vm.c and the other builtins.
pub mod Common
pub mod Value
pub mod Treelist
pub mod Csv
pub mod HashTable
pub mod Radix
pub mod Json
pub mod Loader
