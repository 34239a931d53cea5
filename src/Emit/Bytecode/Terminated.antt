-- ===== src/Emit/Bytecode/Terminated.antt =====
-- Blocks of source/emit/bytecode.c after an instruction was appended: whether they count as ended, and
-- that the function's chain of blocks is as before.
use atcc.Prelude.{
  ℕ, suc, ◌+◌, ◌-◌, ◌≡◌, ◌≢◌, refl, ap, ◌∙◌, arith, true, false, Bool-cases, inl, inr, Option, none,
  some, List, [], ◌∷◌, ◌++◌, length, get_elem?, length-append, ==_iff, ◌==◌,
}
use atcc.Emit.Bytecode.Appends.{
  Appends, Ready, appended-Appends, appended, bc_insn_of-appended, set_insn-appended,
  bc_insn_arith-Appends,
}
use atcc.Emit.Bytecode.Arith.{bc_insn_arith}
use atcc.Emit.Bytecode.Blocks.{IsChain, Linked}
use atcc.Emit.Bytecode.Builder.{regs, bc_insn_jump_if}
use atcc.Emit.Bytecode.Insns.{bc_block_is_terminated, is_terminator, last_of}
use atcc.Emit.Bytecode.Places.{get_elem?-append_new}
use atcc.Emit.Bytecode.{BcOpcode, Operands, SbcBlock, SbcFunction, SbcValue, Heap, ◌>>=◌}

last_of-append : (xs : List ℕ) (x : ℕ) → last_of (xs ++ x ∷ []) ≡ some x
last_of-append xs x =
    let e : length (xs ++ x ∷ []) ≡ suc (length xs) = omega (arith, length-append xs (x ∷ [])) in
    let p : suc (length xs) - 1 ≡ length xs = omega arith in
    let t : (suc (length xs) == 0) ≡ false = ground arith in
    rw (e, p, t) (get_elem?-append_new xs x)

-- After an instruction was appended to a block, the block counts as ended exactly if the instruction
-- is a return, a jump or a conditional jump.
pub bc_block_is_terminated-appended :
    (h h' : Heap) (block : ℕ) (b : SbcBlock) (opcode : BcOpcode) (operands : Operands)
    → Appends h block b opcode operands h'
    → bc_block_is_terminated block h' ≡ some (is_terminator opcode, h')
unfolding bc_block_is_terminated
bc_block_is_terminated-appended h h' block b opcode operands a =
    rw (a.at_end, last_of-append b.code (length h.codes), ◌>>=◌, a.insn) refl

module _ {h h' : Heap} {block : ℕ} {b : SbcBlock} {opcode : BcOpcode} {operands : Operands}
    (a : Appends h block b opcode operands h') (e : get_elem? h.blocks block ≡ some b) where
  appends-Linked :
      (prev : Option ℕ) (bs : List ℕ) (n : ℕ)
      → Linked h.blocks prev bs n
      → Linked h'.blocks prev bs n
  appends-Linked prev [] n l = tt
  appends-Linked prev (p ∷ bs) n (x, at, serial, before, after, l) =
      elim (Bool-cases (p == block)) [
        | inl t ↦
            let here : p ≡ block = (==_iff p block).0 t in
            let same : b ≡ x = ground (arith, at, e, here) in
            (
              record b { code = b.code ++ length h.codes ∷ [] },
              rw here a.at_end,
              ap SbcBlock.serial same ∙ serial,
              ap SbcBlock.prev same ∙ before,
              ap SbcBlock.next same ∙ after,
              appends-Linked (some p) bs (n + 1) l,
            )
        | inr t ↦
            let there : p ≢ block = λ s. cc ((==_iff p block).1 s, t) in
            (
              x,
              a.other_blocks p there ∙ at,
              serial,
              before,
              after,
              appends-Linked (some p) bs (n + 1) l,
            )
      ]

-- An instruction on two values leaves the chain of the function's blocks as it was: in a function with
-- a current block and a chain, it returns, and the same blocks are linked afterwards.
pub bc_insn_arith-IsChain :
    (h : Heap) (function : ℕ) (f : SbcFunction) (block : ℕ) (b : SbcBlock) (opcode : BcOpcode)
    (arg1 arg2 : ℕ) (v : SbcValue) (bs : List ℕ) (last : ℕ)
    → Ready h function f block b
    → get_elem? h.values arg1 ≡ some v
    → IsChain h function bs last
    → (h' : Heap) × (bc_insn_arith function opcode arg1 arg2 h ≡ some (length h.values, h'))
      × IsChain h' function bs last
bc_insn_arith-IsChain h function f block b opcode arg1 arg2 v bs last r e c =
    let (h', run, a, t) = bc_insn_arith-Appends r opcode arg1 arg2 v e in
    let same : f ≡ c.f = ground (arith, r.is_function, c.is_function) in
    (
      h',
      run,
      record {
        f = record f { last_temporary = _ };
        is_function = t.counted;
        first = ap SbcFunction.first_block same ∙ c.first;
        at_end = ap SbcFunction.last_block same ∙ c.at_end;
        counted = ap SbcFunction.last_block_serial same ∙ c.counted;
        linked = appends-Linked a r.is_block none (bs ++ last ∷ []) 0 c.linked;
      },
    )

-- In a function with a current block, a conditional jump is appended to that block, ends it, and
-- leaves the values as they are.
pub bc_insn_jump_if-ends :
    (h : Heap) (function : ℕ) (f : SbcFunction) (block : ℕ) (b : SbcBlock)
    (cond block_true block_false : ℕ)
    → Ready h function f block b
    → (h' : Heap) × (bc_insn_jump_if function cond block_true block_false h
        ≡ some (length h.codes, h'))
      × Appends h block b BcOpcode.jump_if
          (Operands.branch (some cond) (some block_true) (some block_false))
          h'
      × (bc_block_is_terminated block h' ≡ some (true, h'))
      × (h'.values ≡ h.values)
unfolding bc_insn_jump_if
bc_insn_jump_if-ends h function f block b cond block_true block_false r =
    let operands = Operands.branch (some cond) (some block_true) (some block_false) in
    let h' = appended h block b BcOpcode.jump_if operands in
    let a = appended-Appends h BcOpcode.jump_if operands r.is_block in
    (
      h',
      rw
          (
            bc_insn_of-appended r,
            ◌>>=◌,
            set_insn-appended r h BcOpcode.nop BcOpcode.jump_if (regs none none none) operands,
          )
          refl,
      a,
      bc_block_is_terminated-appended h h' block b BcOpcode.jump_if operands a,
      refl,
    )
