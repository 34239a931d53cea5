-- ===== src/Emit/Bytecode/Insns.antt =====
-- Aggregates, functions, blocks and instructions of source/emit/bytecode.c.
use atcc.Prelude.{
  ℕ, zero, suc, ◌+◌, ◌-◌, ◌%◌, Bool, true, false, ◌&&◌, Option, none, some, List, [], ◌∷◌, ◌++◌,
  ◌==◌, leb, if◌then◌else◌, length, get_elem?, u32_mod,
}
use atcc.Ati.Strings.{Bytes}
use atcc.Emit.Bytecode.Values.{bc_type_pointer}
use atcc.Emit.Bytecode.{
  BcAggregate, BcTypeKind, BcValueKind, BcOpcode, SbcCode, Operands, SbcBlock, SbcFunction, Build,
  pure, ◌>>=◌, ◌>>◌, fail, deref, read, write, make, get_context, put_context, type_cells,
  value_cells, code_cells, block_cells, function_cells,
}

-- the sum of the sizes, on a u32
unfoldable pub total_size : ℕ → List BcAggregate → ℕ → Build ℕ
total_size zero members sum = pure sum
total_size (suc n) [] sum = fail
total_size (suc n) (m ∷ ms) sum = do
  t ← read type_cells m.type
  total_size n ms ((sum + t.size) % u32_mod)

abbrev pub with_body : BcTypeKind → List BcAggregate → ℕ → Option BcTypeKind
with_body (BcTypeKind.aggregate m n name) members num = some (BcTypeKind.aggregate members num name)
with_body _ members num = none

unfoldable pub bc_type_aggregate_set_body : ℕ → List BcAggregate → ℕ → Build (Unit {0})
unfolding total_size
bc_type_aggregate_set_body aggregate members num_members = do
  t ← read type_cells aggregate
  kind ← deref (with_body t.kind members num_members)
  write type_cells aggregate (record t { kind = kind })
  sum ← total_size num_members members 0
  write type_cells aggregate (record t { kind = kind; size = sum; alignment = sum })

-- The pointers to the eight static integer types.
unfoldable pub bc_type_is_integer : ℕ → Bool
bc_type_is_integer type = leb 1 type && leb type 8

abbrev pub fresh_block : ℕ → Option ℕ → SbcBlock
fresh_block serial prev = record {
  serial = serial;
  prev = prev;
  next = none;
  code = [];
  input = none;
}

unfoldable pub bc_block_make : ℕ → Build ℕ
bc_block_make function = do
  f ← read function_cells function
  let f' = record f { last_block_serial = (f.last_block_serial + 1) % u32_mod }
  let first : Build ℕ = (do
    block ← make block_cells (fresh_block f.last_block_serial none)
    write function_cells function f'
    pure block)
  let linked : ℕ → Build ℕ = (λ last. do
    block ← make block_cells (fresh_block f.last_block_serial (some last))
    l ← read block_cells last
    write block_cells last (record l { next = some block })
    write function_cells function (record f' { last_block = some block })
    pure block)
  elim f.last_block [ none ↦ first | some last ↦ linked last ]

abbrev pub fresh_function : ℕ → Bytes → SbcFunction
fresh_function signature name = record {
  signature = signature;
  name = name;
  is_extern = false;
  is_variadic = false;
  first_block = none;
  last_block = none;
  current_block = none;
  params = none;
  locals = [];
  last_temporary = 0;
  last_block_serial = 0;
  stack_size = 0;
}

unfoldable pub bc_function_create : ℕ → Bytes → Build ℕ
unfolding bc_block_make
bc_function_create signature name = do
  function ← make function_cells (fresh_function signature name)
  initial_block ← bc_block_make function
  f ← read function_cells function
  write function_cells function (record f {
    first_block = some initial_block;
    last_block = some initial_block;
    current_block = some initial_block;
  })
  c ← get_context
  put_context (record c { functions = c.functions ++ function ∷ [] })
  pure function

unfoldable pub bc_function_set_block : ℕ → Option ℕ → Build (Option ℕ)
bc_function_set_block function block = do
  f ← read function_cells function
  write function_cells function (record f { current_block = block })
  pure f.current_block

unfoldable pub bc_function_get_block : ℕ → Build (Option ℕ)
bc_function_get_block function = do f ← read function_cells function; pure f.current_block

unfoldable pub bc_function_define : ℕ → ℕ → Build ℕ
unfolding bc_type_pointer
bc_function_define function type = do
  f ← read function_cells function
  pointer ← bc_type_pointer type
  t ← read type_cells type
  value ← make value_cells (record { kind = BcValueKind.local f.stack_size; type = pointer })
  write function_cells function
      (record f { stack_size = (f.stack_size + t.size) % u32_mod; locals = f.locals ++ value ∷ [] })
  pure value

abbrev pub last_of : List ℕ → Option ℕ
last_of code = if length code == 0 then none else get_elem? code (length code - 1)

abbrev pub is_terminator : BcOpcode → Bool
is_terminator BcOpcode.return = true
is_terminator BcOpcode.jump = true
is_terminator BcOpcode.jump_if = true
is_terminator _ = false

unfoldable pub bc_block_is_terminated : ℕ → Build Bool
bc_block_is_terminated block = do
  b ← read block_cells block
  let tested : ℕ → Build Bool =
      (λ last. do insn ← read code_cells last; pure (is_terminator insn.opcode))
  elim (last_of b.code) [ none ↦ pure false | some last ↦ tested last ]

abbrev pub insn_in : ℕ → BcOpcode → Operands → SbcCode
insn_in block opcode operands = record {
  block = block;
  opcode = opcode;
  flags = 0;
  operands = operands;
}

unfoldable pub bc_insn_make : ℕ → Build ℕ
bc_insn_make block = do
  code ← make code_cells (insn_in block BcOpcode.nop (Operands.regs none none none))
  b ← read block_cells block
  write block_cells block (record b { code = b.code ++ code ∷ [] })
  pure code

unfoldable pub bc_insn_of : ℕ → Build ℕ
unfolding bc_insn_make bc_function_get_block
bc_insn_of function = do
  current ← bc_function_get_block function
  block ← deref current
  bc_insn_make block

-- `insn->opcode = …` and the assignments to the union
unfoldable pub set_insn : ℕ → BcOpcode → Operands → Build (Unit {0})
set_insn insn opcode operands = do
  c ← read code_cells insn
  write code_cells insn (record c { opcode = opcode; operands = operands })
