-- ===== src/Tests/BytecodeTests.antt =====
-- Runs of the bytecode builder of source/emit/bytecode.c, and its theorems at examples: a function of
-- two i32 that returns an i32.
use atcc.Prelude.{
  ℕ, ◌+◌, ◌<◌, ◌≡◌, refl, arith, true, false, none, some, List, [], ◌∷◌, ◌++◌, get_elem?,
}
use atcc.Emit.Bytecode.Appends.{Appends, Returns, Ready, bc_insn_arith-Appends}
use atcc.Emit.Bytecode.Arith.{bc_insn_arith}
use atcc.Emit.Bytecode.Blocks.{IsChain, bc_block_make-IsChain, bc_function_create-IsChain}
use atcc.Emit.Bytecode.Builder.{regs, bc_insn_jump_if}
use atcc.Emit.Bytecode.Insns.{
  bc_block_make, bc_function_create, bc_type_aggregate_set_body, bc_block_is_terminated,
  fresh_block, fresh_function,
}
use atcc.Emit.Bytecode.Parameters.{
  bc_type_aggregate_set_body-sum, bc_value_get_parameter-again, parameter_value,
}
use atcc.Emit.Bytecode.Terminated.{bc_insn_arith-IsChain, bc_insn_jump_if-ends}
use atcc.Emit.Bytecode.Values.{
  base_type, base_types, bc_context_initialize, bc_type_i32, bc_type_u8, bc_value_get_parameter,
}
use atcc.Emit.Bytecode.{BcOpcode, BcAggregate, BcTypeKind, SbcType, SbcFunction, Operands, Heap}

abbrev built_type : BcTypeKind → ℕ → SbcType
built_type kind size = record {
  kind = kind;
  size = size;
  alignment = size;
  is_signed = false;
  is_floating = false;
  emit_index = 0;
}

abbrev two_numbers : List ℕ
two_numbers = bc_type_i32 ∷ bc_type_i32 ∷ []

abbrev signature : SbcType
signature = built_type (BcTypeKind.function bc_type_i32 two_numbers 2 false) 8

abbrev pair : SbcType
pair = built_type (BcTypeKind.aggregate [] 0 (b'p' ∷ [])) 0

-- behind the base types, the signature at 11 and an aggregate at 12
abbrev typed : Heap
typed = record bc_context_initialize { types = base_types ++ signature ∷ pair ∷ [] }

abbrev main : SbcFunction
main = record (fresh_function 11 (b'm' ∷ [])) {
  first_block = some 0;
  last_block = some 0;
  current_block = some 0;
  last_block_serial = 1;
}

abbrev created : Heap
created = record typed {
  functions = main ∷ [];
  blocks = fresh_block 0 none ∷ [];
  values = parameter_value 0 bc_type_i32 ∷ parameter_value 1 bc_type_i32 ∷ [];
}

created-IsChain : IsChain created 0 [] 0
created-IsChain = record {
  f = main;
  is_function = refl;
  first = refl;
  at_end = refl;
  counted = refl;
  linked = (fresh_block 0 none, refl, refl, refl, refl, tt);
}

created-Ready : Ready created 0 main 0 (fresh_block 0 none)
created-Ready = record { is_function = refl; current = refl; is_block = refl }

bc_function_create-IsChain_example :
    (h' : Heap) × (bc_function_create 11 (b'm' ∷ []) typed ≡ some (0, h')) × IsChain h' 0 [] 0
bc_function_create-IsChain_example = bc_function_create-IsChain typed 11 (b'm' ∷ [])

bc_block_make-IsChain_example :
    (h' : Heap) × (bc_block_make 0 created ≡ some (1, h')) × IsChain h' 0 (0 ∷ []) 1
bc_block_make-IsChain_example = bc_block_make-IsChain created 0 [] 0 created-IsChain (omega arith)

bc_insn_arith-Appends_example :
    (h' : Heap) × (bc_insn_arith 0 BcOpcode.add 0 1 created ≡ some (2, h'))
    × Appends created 0 (fresh_block 0 none) BcOpcode.add (regs (some 0) (some 1) (some 2)) h'
    × Returns created 0 main bc_type_i32 h'
bc_insn_arith-Appends_example =
    bc_insn_arith-Appends created-Ready BcOpcode.add 0 1 (parameter_value 0 bc_type_i32) refl

bc_insn_arith-IsChain_example :
    (h' : Heap) × (bc_insn_arith 0 BcOpcode.lt 1 0 created ≡ some (2, h')) × IsChain h' 0 [] 0
bc_insn_arith-IsChain_example =
    bc_insn_arith-IsChain created 0 main 0 (fresh_block 0 none) BcOpcode.lt 1 0
      (parameter_value 1 bc_type_i32) [] 0 created-Ready refl created-IsChain

bc_insn_jump_if-ends_example :
    (h' : Heap) × (bc_insn_jump_if 0 1 0 0 created ≡ some (0, h'))
    × Appends created 0
        (fresh_block 0 none)
        BcOpcode.jump_if
        (Operands.branch (some 1) (some 0) (some 0))
        h'
    × (bc_block_is_terminated 0 h' ≡ some (true, h'))
    × (h'.values ≡ created.values)
bc_insn_jump_if-ends_example =
    bc_insn_jump_if-ends created 0 main 0 (fresh_block 0 none) 1 0 0 created-Ready

bc_value_get_parameter-again_example :
    (h' : Heap) × (first : ℕ) × (bc_value_get_parameter 0 1 created ≡ some (first + 1, h'))
    × ((j u : ℕ)
        → j < 2
        → get_elem? two_numbers j ≡ some u
        → (bc_value_get_parameter 0 j h' ≡ some (first + j, h'))
          × (get_elem? h'.values (first + j) ≡ some (parameter_value j u)))
bc_value_get_parameter-again_example =
    bc_value_get_parameter-again created 0 1 main signature bc_type_i32 2 two_numbers false refl
      refl refl refl (omega arith)

abbrev member : ℕ → BcAggregate
member type = record { type = type; name = []; offset = 0 }

abbrev members : List BcAggregate
members = member bc_type_i32 ∷ member bc_type_u8 ∷ []

bc_type_aggregate_set_body-sum_example :
    (h' : Heap) × (bc_type_aggregate_set_body 12 members 2 typed ≡ some (tt, h'))
    × (get_elem? h'.types 12 ≡ some (built_type (BcTypeKind.aggregate members 2 (b'p' ∷ [])) 5))
bc_type_aggregate_set_body-sum_example =
    bc_type_aggregate_set_body-sum typed 12 pair [] members 0 (b'p' ∷ []) (4 ∷ 1 ∷ []) refl refl
      (base_type 4 true false, refl, refl, (base_type 1 false false, refl, refl, tt))
