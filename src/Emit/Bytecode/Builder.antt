-- ===== src/Emit/Bytecode/Builder.antt =====
-- The instructions of source/emit/bytecode.c: each is appended to the function's current block, and a
-- result is a new temporary. The union's members that C leaves as calloc made them are null.
use atcc.Prelude.{
  ℕ, zero, suc, ◌+◌, ◌%◌, Bool, true, false, Option, none, some, List, [], ◌∷◌, ◌++◌, ltb, u32_mod,
}
use atcc.Emit.Bytecode.Insns.{bc_insn_of, set_insn, last_of}
use atcc.Emit.Bytecode.Values.{
  bc_type_pointer, bc_type_u64, bc_value_make, bc_value_make_consti, bc_value_make_phi,
}
use atcc.Emit.Bytecode.{
  BcTypeKind, SbcType, BcValueKind, SbcValue, BcOpcode, Operands, Build, pure, ◌>>=◌, ◌>>◌, fail,
  deref, assert, read, write, type_cells, value_cells, code_cells, block_cells,
}

abbrev pub regs : Option ℕ → Option ℕ → Option ℕ → Operands
regs a b d = Operands.regs a b d

-- `type->base` of a pointer type
abbrev pub pointer_base : SbcType → Option ℕ
pointer_base t = elim t.kind [
  | BcTypeKind.pointer b ↦ some b
  | BcTypeKind.base ↦ none
  | BcTypeKind.array e c d ↦ none
  | BcTypeKind.function r p n v ↦ none
  | BcTypeKind.aggregate m n s ↦ none
]

-- `type->result` of a function type
abbrev pub function_result : SbcType → Option ℕ
function_result t = elim t.kind [
  | BcTypeKind.function r p n v ↦ some r
  | BcTypeKind.pointer b ↦ none
  | BcTypeKind.base ↦ none
  | BcTypeKind.array e c d ↦ none
  | BcTypeKind.aggregate m n s ↦ none
]

abbrev pub is_constant : BcValueKind → Bool
is_constant (BcValueKind.constant storage) = true
is_constant _ = false

-- the instruction, with a new temporary of the type as its result in `regD`
unfoldable pub insn_with_result : ℕ → BcOpcode → Option ℕ → Option ℕ → ℕ → Build ℕ
unfolding bc_insn_of set_insn bc_value_make
insn_with_result function opcode a b type = do
  insn ← bc_insn_of function
  result ← bc_value_make function type
  set_insn insn opcode (regs a b (some result))
  pure result

unfoldable pub bc_insn_nop : ℕ → Build (Option ℕ)
bc_insn_nop function = do
  insn ← bc_insn_of function
  set_insn insn BcOpcode.nop (regs none none none)
  pure none

unfoldable pub bc_insn_load : ℕ → ℕ → Build ℕ
bc_insn_load function source = do
  s ← read value_cells source
  let loaded : Build ℕ = (do
    t ← read type_cells s.type
    base ← deref (pointer_base t)
    insn_with_result function BcOpcode.load (some source) none base)
  elim (is_constant s.kind) [ true ↦ pure source | false ↦ loaded ]

unfoldable pub bc_insn_store : ℕ → ℕ → ℕ → Build ℕ
bc_insn_store function dest source = do
  insn ← bc_insn_of function
  set_insn insn BcOpcode.store (regs (some source) none (some dest))
  pure dest

unfoldable pub bc_insn_get_field : ℕ → ℕ → ℕ → ℕ → Build ℕ
bc_insn_get_field function source type field = do
  insn ← bc_insn_of function
  s ← read value_cells source
  t ← read type_cells s.type
  base ← deref (pointer_base t)
  index ← bc_value_make_consti bc_type_u64 field
  pointer ← bc_type_pointer type
  result ← bc_value_make function pointer
  set_insn insn BcOpcode.get_field (regs (some source) (some index) (some result))
  pure result

unfoldable pub bc_insn_get_index : ℕ → ℕ → ℕ → ℕ → Build ℕ
bc_insn_get_index function source type index = do
  insn ← bc_insn_of function
  pointer ← bc_type_pointer type
  result ← bc_value_make function pointer
  set_insn insn BcOpcode.get_index (regs (some source) (some index) (some result))
  pure result

unfoldable pub bc_insn_jump : ℕ → ℕ → Build ℕ
bc_insn_jump function block = do
  insn ← bc_insn_of function
  set_insn insn BcOpcode.jump (Operands.branch none (some block) none)
  pure insn

unfoldable pub bc_insn_jump_if : ℕ → ℕ → ℕ → ℕ → Build ℕ
bc_insn_jump_if function cond block_true block_false = do
  insn ← bc_insn_of function
  set_insn insn BcOpcode.jump_if (Operands.branch (some cond) (some block_true) (some block_false))
  pure insn

unfoldable pub bc_insn_phi : ℕ → ℕ → Build ℕ
unfolding bc_value_make_phi
bc_insn_phi function type = do
  insn ← bc_insn_of function
  value ← bc_value_make_phi function type
  set_insn insn BcOpcode.phi (Operands.phi_value (some value))
  pure value

-- `insn->regC = value`, the first place of the union whatever it holds
abbrev pub set_reg_c : Operands → ℕ → Operands
set_reg_c (Operands.regs a b d) value = Operands.regs (some value) b d
set_reg_c (Operands.branch c t f) value = Operands.branch (some value) t f
set_reg_c (Operands.call target result args n) value = Operands.call (some value) result args n
set_reg_c (Operands.phi_value phi) value = Operands.phi_value (some value)

-- one round of the loop of `bc_insn_phi_add_incoming`, but for the two pushes
unfoldable pub pass_value : ℕ → ℕ → Build (Unit {0})
pass_value value block = do
  b ← read block_cells block
  last ← deref (last_of b.code)
  insn ← read code_cells last
  write code_cells last (record insn { operands = set_reg_c insn.operands value })

unfoldable pub push_incoming : ℕ → ℕ → ℕ → Build (Unit {0})
push_incoming phi value block = do
  p ← read value_cells phi
  let pushed : Option SbcValue = elim p.kind [
    | BcValueKind.phi result values blocks n ↦
        some (record p {
          kind = BcValueKind.phi result (values ++ value ∷ []) (blocks ++ block ∷ []) n;
        })
    | BcValueKind.constant s ↦ none
    | BcValueKind.string s i ↦ none
    | BcValueKind.parameter i ↦ none
    | BcValueKind.temporary i ↦ none
    | BcValueKind.local i ↦ none
    | BcValueKind.global i ↦ none
    | BcValueKind.function i ↦ none
  ]
  p' ← deref pushed
  write value_cells phi p'

unfoldable pub add_incoming : ℕ → ℕ → List ℕ → List ℕ → Build (Unit {0})
unfolding push_incoming pass_value
add_incoming phi zero values blocks = pure tt
add_incoming phi (suc n) [] blocks = fail
add_incoming phi (suc n) (v ∷ vs) [] = fail
add_incoming phi (suc n) (v ∷ vs) (b ∷ bs) = do
  push_incoming phi v b
  pass_value v b
  add_incoming phi n vs bs

-- `phi->num_incoming_phi_values += num_incoming`; the kind is that of a phi
unfoldable pub count_incoming : ℕ → ℕ → Build (Unit {0})
count_incoming phi num = do
  p ← read value_cells phi
  let counted : Option SbcValue = elim p.kind [
    | BcValueKind.phi result values blocks n ↦
        some (record p { kind = BcValueKind.phi result values blocks ((n + num) % u32_mod) })
    | BcValueKind.constant s ↦ none
    | BcValueKind.string s i ↦ none
    | BcValueKind.parameter i ↦ none
    | BcValueKind.temporary i ↦ none
    | BcValueKind.local i ↦ none
    | BcValueKind.global i ↦ none
    | BcValueKind.function i ↦ none
  ]
  p' ← deref counted
  write value_cells phi p'

unfoldable pub bc_insn_phi_add_incoming : ℕ → List ℕ → List ℕ → ℕ → Build (Unit {0})
unfolding add_incoming count_incoming
bc_insn_phi_add_incoming phi values blocks num_incoming = do
  assert (ltb 0 num_incoming)
  add_incoming phi num_incoming values blocks
  count_incoming phi num_incoming
