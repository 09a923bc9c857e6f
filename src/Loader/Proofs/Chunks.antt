-- ===== src/Loader/Proofs/Chunks.antt =====
-- The reader of chunks of icecreme/loader.c returns or aborts, at every depth.
use creme.Common.{ℕ, zero, suc, Bool, true, false, none, List, [], too_deep, ◌==◌}
use creme.Loader.Code.{
  InsPos, Chunk, read_source_pos, read_position, read_instruction, read_instructions, read_upvalue,
  read_protos, read_chunk_impl, read_chunk,
}
use creme.Loader.Datum.{Numbers}
use creme.Loader.Primitives.{read_u8, read_count}
use creme.Loader.Proofs.Ends.{
  Ending, Ending-bind, Ending-done, Ending-fail, Ending-insist, Ending-read_each, read_i32-Ending,
  read_u8-Ending, read_u24-Ending, read_u16-Ending, read_count-Ending, read_pooled_string-Ending,
}
use creme.Loader.Proofs.Reading.{
  read_datum-Ending, read_qq_template-Ending, read_case_dispatch_table-Ending,
}
use creme.Loader.State
use creme.Loader.State.{Load, read_each}

read_source_pos-Ending : Ending read_source_pos
unfolding read_source_pos
read_source_pos-Ending = Ending-bind _ _ read_pooled_string-Ending (λ file.
    Ending-bind _ _ read_u24-Ending
      (λ line. Ending-bind _ _ read_u16-Ending (λ col. Ending-done _)))

choice-Ending :
    {A : Type 0} (b : Bool) {m n : Load A}
    → Ending m
    → Ending n
    → Ending (elim b [ true ↦ m | false ↦ n ])
choice-Ending true e f = e
choice-Ending false e f = f

read_position-Ending : (before : InsPos) → Ending (read_position before)
unfolding read_position
read_position-Ending before =
    Ending-bind read_u8 _ read_u8-Ending
      (λ has. choice-Ending (has == 0) (Ending-done before) read_source_pos-Ending)

read_instruction-Ending : (before : InsPos) → Ending (read_instruction before)
unfolding read_instruction
read_instruction-Ending before = Ending-bind _ _ read_i32-Ending (λ op.
    Ending-bind _ _ read_i32-Ending (λ a. Ending-bind _ _ read_i32-Ending (λ b.
      Ending-bind _ _ read_i32-Ending (λ c. Ending-bind _ _ read_i32-Ending (λ d.
        Ending-bind _ _ (read_position-Ending before)
          (λ position. Ending-bind _ _ (Ending-insist _ _) (λ t. Ending-done _)))))))

read_instructions-Ending : (n : ℕ) (before : InsPos) → Ending (read_instructions n before)
unfolding read_instructions
read_instructions-Ending zero before = Ending-done []
read_instructions-Ending (suc n) before =
    Ending-bind _ _ (read_instruction-Ending before)
      (λ ins. Ending-bind _ _ (read_instructions-Ending n ins.1) (λ code. Ending-done _))

read_upvalue-Ending : Ending read_upvalue
unfolding read_upvalue
read_upvalue-Ending = Ending-bind _ _ read_u8-Ending (λ from_parent_local.
    Ending-bind _ _ read_i32-Ending
      (λ index. Ending-bind _ _ read_pooled_string-Ending (λ name. Ending-done _)))

read_protos-Ending : (read : Load Chunk) (n : ℕ) → Ending read → Ending (read_protos read n)
unfolding read_protos
read_protos-Ending read zero e = Ending-done _
read_protos-Ending read (suc n) e =
    Ending-bind read _ e (λ c. Ending-bind _ _ (read_protos-Ending read n e) (λ cs. Ending-done _))

-- A count, and as many items.
counted-Ending :
    {A B : Type 0} (read : Load A) (f : List A → Load B)
    → Ending read
    → ((items : List A) → Ending (f items))
    → Ending (State.◌>>=◌ read_count (λ n. State.◌>>=◌ (read_each read n) f))
counted-Ending read f e k =
    Ending-bind _ _ read_count-Ending (λ n. Ending-bind _ _ (Ending-read_each read n e) k)

module _ (N : Numbers) where
  read_chunk_impl-Ending : (read : Load Chunk) → Ending read → Ending (read_chunk_impl N read)
  unfolding read_chunk_impl
  read_chunk_impl-Ending read e = Ending-bind _ _ read_count-Ending (λ n.
      Ending-bind _ _ (read_instructions-Ending n none) (λ code.
        counted-Ending _ _ (read_datum-Ending N) (λ consts. Ending-bind _ _ read_count-Ending (λ n'.
          Ending-bind _ _ (read_protos-Ending read n' e) (λ inner.
            counted-Ending _ _ read_upvalue-Ending (λ upvalues.
              Ending-bind _ _ read_i32-Ending (λ param_count.
                Ending-bind _ _ read_u8-Ending (λ has_rest.
                  Ending-bind _ _ read_i32-Ending (λ num_registers.
                    Ending-bind _ _ read_pooled_string-Ending (λ name.
                      counted-Ending _ _ (read_qq_template-Ending N _) (λ templates.
                        counted-Ending _ _ read_case_dispatch_table-Ending
                          (λ tables. Ending-done _))))))))))))

  pub read_chunk-Ending : (room : ℕ) → Ending (read_chunk N room)
  unfolding read_chunk
  read_chunk-Ending zero = Ending-fail too_deep
  read_chunk-Ending (suc room) = read_chunk_impl-Ending (read_chunk N room) (read_chunk-Ending room)
