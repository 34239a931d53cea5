-- ===== src/Emit/Bytecode/Appends.antt =====
-- What the instruction builders of source/emit/bytecode.c do to the heap: one instruction more at the
-- end of the current block, and a new temporary where there is a result.
use atcc.Prelude.{
  ℕ, ◌+◌, ◌%◌, ◌≡◌, ◌≢◌, refl, sym, Option, none, some, [], ◌∷◌, ◌++◌, length, get_elem?,
  get_elem?-set_self, get_elem?-set_ne, set, u32_mod,
}
use atcc.Emit.Bytecode.Arith.{bc_insn_arith}
use atcc.Emit.Bytecode.Builder.{regs, insn_with_result}
use atcc.Emit.Bytecode.Places.{
  get_elem?-append_new, get_elem?-append_ne, set-append_new, get_elem?-lt,
}
use atcc.Emit.Bytecode.Insns.{bc_function_get_block, bc_insn_make, bc_insn_of, set_insn, insn_in}
use atcc.Emit.Bytecode.Values.{bc_value_make}
use atcc.Emit.Bytecode.{
  BcOpcode, BcValueKind, SbcValue, Operands, SbcBlock, SbcFunction, Heap, ◌>>=◌, read, found,
  code_cells,
}

-- The function stands in the heap, and has a current block that does, too.
pub record Ready (h : Heap) (function : ℕ) (f : SbcFunction) (block : ℕ) (b : SbcBlock)
    : Type 0 where
  pub is_function : get_elem? h.functions function ≡ some f
  pub current : f.current_block ≡ some block
  pub is_block : get_elem? h.blocks block ≡ some b

abbrev pub appended : Heap → ℕ → SbcBlock → BcOpcode → Operands → Heap
appended h block b opcode operands = record h {
  codes = h.codes ++ insn_in block opcode operands ∷ [];
  blocks = set h.blocks block (record b { code = b.code ++ length h.codes ∷ [] });
}

abbrev pub temporary : SbcFunction → ℕ → SbcValue
temporary f type = record { kind = BcValueKind.temporary f.last_temporary; type = type }

abbrev pub with_temporary : Heap → ℕ → SbcFunction → ℕ → Heap
with_temporary h function f type = record h {
  values = h.values ++ temporary f type ∷ [];
  functions =
      set h.functions function (record f { last_temporary = (f.last_temporary + 1) % u32_mod });
}

pub bc_value_make-with_temporary :
    (h : Heap) (function : ℕ) (f : SbcFunction) (type : ℕ)
    → get_elem? h.functions function ≡ some f
    → bc_value_make function type h ≡ some (length h.values, with_temporary h function f type)
unfolding bc_value_make
bc_value_make-with_temporary h function f type e = rw e refl

module _ {h : Heap} {function : ℕ} {f : SbcFunction} {block : ℕ} {b : SbcBlock}
    (r : Ready h function f block b) where
  pub bc_insn_of-appended :
      bc_insn_of function h
      ≡ some (length h.codes, appended h block b BcOpcode.nop (regs none none none))
  unfolding bc_insn_of bc_function_get_block bc_insn_make
  bc_insn_of-appended = rw (r.is_function, r.current, r.is_block) refl

  pub set_insn-appended :
      (h' : Heap) (opcode opcode' : BcOpcode) (operands operands' : Operands)
      → set_insn (length h'.codes) opcode' operands' (appended h' block b opcode operands)
        ≡ some (tt, appended h' block b opcode' operands')
  unfolding set_insn
  set_insn-appended h' opcode opcode' operands operands' =
      rw
        (
          set_insn,
          ◌>>=◌,
          read,
          found,
          code_cells,
          get_elem?-append_new h'.codes (insn_in block opcode operands),
          set-append_new h'.codes (insn_in block opcode operands) (insn_in block opcode' operands'),
        )
        refl

  pub insn_with_result-appended :
      (opcode : BcOpcode) (x y : Option ℕ) (type : ℕ)
      → insn_with_result function opcode x y type h
        ≡ some (
          length h.values,
          appended
              (with_temporary h function f type)
              block
              b
              opcode
              (regs x y (some (length h.values))),
        )
  unfolding insn_with_result
  insn_with_result-appended opcode x y type =
      let start = appended h block b BcOpcode.nop (regs none none none) in
      rw
        (
          bc_insn_of-appended,
          ◌>>=◌,
          bc_value_make-with_temporary start function f type r.is_function,
          set_insn-appended (with_temporary h function f type) BcOpcode.nop opcode
              (regs none none none) (regs x y (some (length h.values))),
        )
        refl

-- One instruction more at the end of the block; the other blocks, the other instructions and the
-- values that were there are as before.
pub record Appends (h : Heap) (block : ℕ) (b : SbcBlock) (opcode : BcOpcode) (operands : Operands)
    (h' : Heap) : Type 0 where
  pub insn : get_elem? h'.codes (length h.codes) ≡ some (insn_in block opcode operands)
  pub at_end : get_elem? h'.blocks block ≡ some (record b { code = b.code ++ length h.codes ∷ [] })
  pub other_blocks : (p : ℕ) → p ≢ block → get_elem? h'.blocks p ≡ get_elem? h.blocks p
  pub other_insns : (p : ℕ) → p ≢ length h.codes → get_elem? h'.codes p ≡ get_elem? h.codes p

pub appended-Appends :
    (h : Heap) {block : ℕ} {b : SbcBlock} (opcode : BcOpcode) (operands : Operands)
    → get_elem? h.blocks block ≡ some b
    → Appends h block b opcode operands (appended h block b opcode operands)
appended-Appends h {block} {b} opcode operands e = record {
  insn = get_elem?-append_new h.codes (insn_in block opcode operands);
  at_end = get_elem?-set_self h.blocks block _ (get_elem?-lt h.blocks block e);
  other_blocks = λ p ne. get_elem?-set_ne h.blocks block p _ (λ e. ne (sym e));
  other_insns = λ p ne. get_elem?-append_ne h.codes _ p ne;
}

-- The result of an instruction is a new value: a temporary with the function's next number, which the
-- function counts; the values that were there are as before.
pub record Returns (h : Heap) (function : ℕ) (f : SbcFunction) (type : ℕ) (h' : Heap) : Type 0 where
  pub result : get_elem? h'.values (length h.values) ≡ some (temporary f type)
  pub counted :
      get_elem? h'.functions function
      ≡ some (record f { last_temporary = (f.last_temporary + 1) % u32_mod })
  pub other_values : (p : ℕ) → p ≢ length h.values → get_elem? h'.values p ≡ get_elem? h.values p

with_temporary-Returns :
    (h : Heap) {function : ℕ} {f : SbcFunction} (type : ℕ)
    → get_elem? h.functions function ≡ some f
    → Returns h function f type (with_temporary h function f type)
with_temporary-Returns h {function} {f} type e = record {
  result = get_elem?-append_new h.values _;
  counted = get_elem?-set_self h.functions function _ (get_elem?-lt h.functions function e);
  other_values = λ p ne. get_elem?-append_ne h.values _ p ne;
}

module _ {h : Heap} {function : ℕ} {f : SbcFunction} {block : ℕ} {b : SbcBlock}
    (r : Ready h function f block b) where
  with_result :
      (opcode : BcOpcode) (x y : Option ℕ) (type : ℕ)
      → (h' : Heap) × (insn_with_result function opcode x y type h ≡ some (length h.values, h'))
        × Appends h block b opcode (regs x y (some (length h.values))) h'
        × Returns h function f type h'
  with_result opcode x y type =
      let w = with_temporary h function f type in
      let a = appended-Appends w opcode (regs x y (some (length h.values))) r.is_block in
      let v = with_temporary-Returns h type r.is_function in
      (
        appended w block b opcode (regs x y (some (length h.values))),
        insn_with_result-appended r opcode x y type,
        record {
          insn = a.insn;
          at_end = a.at_end;
          other_blocks = a.other_blocks;
          other_insns = a.other_insns;
        },
        record { result = v.result; counted = v.counted; other_values = v.other_values },
      )

  -- In a function with a current block, an instruction on two values returns a new temporary of the
  -- first one's type, and stands at the end of the current block; nothing else changes.
  pub bc_insn_arith-Appends :
      (opcode : BcOpcode) (arg1 arg2 : ℕ) (v : SbcValue)
      → get_elem? h.values arg1 ≡ some v
      → (h' : Heap) × (bc_insn_arith function opcode arg1 arg2 h ≡ some (length h.values, h'))
        × Appends h block b opcode (regs (some arg1) (some arg2) (some (length h.values))) h'
        × Returns h function f v.type h'
  unfolding bc_insn_arith
  bc_insn_arith-Appends opcode arg1 arg2 v e =
      rw e (with_result opcode (some arg1) (some arg2) v.type)
