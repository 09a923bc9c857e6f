-- ===== src/Loader/Spec.antt =====
-- How the machine of icecreme/vm.c uses the operands of a loaded instruction, by the opcodes of
-- icecreme/opcodes.h, and what it means that a global has a name.
use creme.Common.{ℕ, ◌≡◌, Bool, ◌++◌, ◌==◌}
use creme.Csv.Parse.{Bytes}
use creme.Loader.Validate.{
  Operand, in_a, in_b, in_c, in_d, Pool, const_pool, template_pool, table_pool, proto_pool,
}
use creme.Radix.Spec.{IsFree, IsStopped}

-- The operation reads an entry of a pool of its chunk at the operand.
pub data PoolUse : ℕ → Operand → Pool → Type 0 where
  loadk_use : PoolUse 0 in_b const_pool
  casematch_use : PoolUse 64 in_c const_pool
  casedispatch_use : PoolUse 65 in_b table_pool
  throw_use : PoolUse 66 in_a const_pool
  closure_use : PoolUse 107 in_b proto_pool
  quasiquote_use : PoolUse 115 in_b template_pool
  helperform_use : PoolUse 117 in_b const_pool
  helperformlocal_use : PoolUse 118 in_b const_pool

-- The operation reads or writes the global at the operand.
pub data GlobalUse : ℕ → Operand → Type 0 where
  getglobal_use : GlobalUse 7 in_b
  defglobal_use : GlobalUse 8 in_a
  setglobal_use : GlobalUse 9 in_a
  callglobal_use : GlobalUse 89 in_d
  tailcallglobal_use : GlobalUse 90 in_d
  returnglobal_use : GlobalUse 96 in_a
  forloopguardedinc_use : GlobalUse 121 in_d
  forloopguardeddec_use : GlobalUse 122 in_d
  testglobalidentity_use : GlobalUse 123 in_a

abbrev pub is_zero : ℕ → Bool
is_zero c = c == 0

-- The stored text, up to its end or its first zero byte, is the name.
abbrev pub Names : Bytes → Bytes → Type 0
Names stored name =
    (rest : Bytes) × (stored ≡ name ++ rest) × IsFree is_zero name × IsStopped is_zero rest
