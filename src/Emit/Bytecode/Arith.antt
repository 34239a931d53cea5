-- ===== src/Emit/Bytecode/Arith.antt =====
-- The instructions of source/emit/bytecode.c on numbers, calls, returns and casts.
use atcc.Prelude.{ℕ, Option, none, some, List}
use atcc.Emit.Bytecode.Builder.{regs, function_result, insn_with_result}
use atcc.Emit.Bytecode.Insns.{bc_insn_of, set_insn}
use atcc.Emit.Bytecode.Values.{bc_value_make}
use atcc.Emit.Bytecode.{
  BcOpcode, Operands, Build, pure, ◌>>=◌, ◌>>◌, deref, read, type_cells, value_cells,
}

unfoldable pub bc_insn_arith : ℕ → BcOpcode → ℕ → ℕ → Build ℕ
unfolding insn_with_result
bc_insn_arith function opcode arg1 arg2 = do
  a ← read value_cells arg1
  insn_with_result function opcode (some arg1) (some arg2) a.type

abbrev pub bc_insn_add : ℕ → ℕ → ℕ → Build ℕ
bc_insn_add function = bc_insn_arith function BcOpcode.add

abbrev pub bc_insn_sub : ℕ → ℕ → ℕ → Build ℕ
bc_insn_sub function = bc_insn_arith function BcOpcode.sub

abbrev pub bc_insn_mul : ℕ → ℕ → ℕ → Build ℕ
bc_insn_mul function = bc_insn_arith function BcOpcode.mul

abbrev pub bc_insn_div : ℕ → ℕ → ℕ → Build ℕ
bc_insn_div function = bc_insn_arith function BcOpcode.div

abbrev pub bc_insn_mod : ℕ → ℕ → ℕ → Build ℕ
bc_insn_mod function = bc_insn_arith function BcOpcode.«mod»

abbrev pub bc_insn_neg : ℕ → ℕ → ℕ → Build ℕ
bc_insn_neg function = bc_insn_arith function BcOpcode.neg

abbrev pub bc_insn_not : ℕ → ℕ → ℕ → Build ℕ
bc_insn_not function = bc_insn_arith function BcOpcode.not

abbrev pub bc_insn_and : ℕ → ℕ → ℕ → Build ℕ
bc_insn_and function = bc_insn_arith function BcOpcode.and

abbrev pub bc_insn_or : ℕ → ℕ → ℕ → Build ℕ
bc_insn_or function = bc_insn_arith function BcOpcode.or

abbrev pub bc_insn_xor : ℕ → ℕ → ℕ → Build ℕ
bc_insn_xor function = bc_insn_arith function BcOpcode.xor

abbrev pub bc_insn_shl : ℕ → ℕ → ℕ → Build ℕ
bc_insn_shl function = bc_insn_arith function BcOpcode.shl

abbrev pub bc_insn_shr : ℕ → ℕ → ℕ → Build ℕ
bc_insn_shr function = bc_insn_arith function BcOpcode.shr

abbrev pub bc_insn_eq : ℕ → ℕ → ℕ → Build ℕ
bc_insn_eq function = bc_insn_arith function BcOpcode.eq

abbrev pub bc_insn_ne : ℕ → ℕ → ℕ → Build ℕ
bc_insn_ne function = bc_insn_arith function BcOpcode.ne

abbrev pub bc_insn_lt : ℕ → ℕ → ℕ → Build ℕ
bc_insn_lt function = bc_insn_arith function BcOpcode.lt

abbrev pub bc_insn_gt : ℕ → ℕ → ℕ → Build ℕ
bc_insn_gt function = bc_insn_arith function BcOpcode.gt

abbrev pub bc_insn_le : ℕ → ℕ → ℕ → Build ℕ
bc_insn_le function = bc_insn_arith function BcOpcode.le

abbrev pub bc_insn_ge : ℕ → ℕ → ℕ → Build ℕ
bc_insn_ge function = bc_insn_arith function BcOpcode.ge

unfoldable pub bc_insn_call : ℕ → ℕ → List ℕ → ℕ → Build ℕ
bc_insn_call function target args num_args = do
  insn ← bc_insn_of function
  v ← read value_cells target
  t ← read type_cells v.type
  type ← deref (function_result t)
  result ← bc_value_make function type
  set_insn insn BcOpcode.call (Operands.call (some target) (some result) args num_args)
  pure result

unfoldable pub bc_insn_return : ℕ → Option ℕ → Build (Option ℕ)
bc_insn_return function value = do
  insn ← bc_insn_of function
  set_insn insn BcOpcode.return (regs value none none)
  pure none

unfoldable pub bc_insn_cast : ℕ → BcOpcode → ℕ → ℕ → Build ℕ
unfolding insn_with_result
bc_insn_cast function opcode source target =
    insn_with_result function opcode (some source) none target
