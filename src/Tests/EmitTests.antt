-- ===== src/Tests/EmitTests.antt =====
-- Runs of source/emit, and its theorems at examples. Fresh memory reads as 170.
use atcc.Prelude.{ℕ, ◌≡◌, refl, arith, none, some, List, [], ◌∷◌, length, replicate}
use atcc.Emit.Buffer.Emit.{little_endian, Emits, bc_emit_u64-Emits}
use atcc.Emit.Buffer.Patch.{Repatched, bc_patch_u32-emit, bc_emit_data_overruns}
use atcc.Emit.Buffer.Store.{IsValid}
use atcc.Emit.Buffer.{
  BcBuffer, bc_buffer_create, bc_emit_u32, bc_emit_u64, bc_patch_u32, bc_emit_data,
  bc_buffer_ensure, store, store_all, push, push_all, emit_bytes,
}

runs : Unit {0}
unfolding bc_buffer_create bc_buffer_ensure bc_emit_u32 bc_emit_u64 bc_patch_u32 bc_emit_data store
    store_all push push_all emit_bytes
runs = tt

abbrev buffer : List ℕ → ℕ → BcBuffer
buffer bytes size = record { bytes = bytes; size = size; capacity = length bytes }

-- eight bytes, of which the first is used
abbrev eight : BcBuffer
eight = buffer (1 ∷ replicate 7 170) 1

eight-IsValid : IsValid eight
eight-IsValid = record { allocated = refl; within = omega arith; bounded = omega arith }

bc_emit_u64-Emits_example :
    (r : BcBuffer × ℕ) × (bc_emit_u64 170 eight 0x0102030405060708 ≡ some r)
    × Emits eight (little_endian 8 0x0102030405060708) r
bc_emit_u64-Emits_example =
    bc_emit_u64-Emits 170 eight-IsValid (omega arith) 0x0102030405060708 (omega arith) (omega arith)

-- a call whose target is filled in after a byte more
abbrev later : BcBuffer
later = buffer (1 ∷ 0 ∷ 0 ∷ 0 ∷ 0 ∷ 144 ∷ 170 ∷ 170 ∷ []) 6

later-IsValid : IsValid later
later-IsValid = record { allocated = refl; within = omega arith; bounded = omega arith }

emits_zero : bc_emit_u32 170 eight 0 ≡ some (buffer (1 ∷ 0 ∷ 0 ∷ 0 ∷ 0 ∷ replicate 3 170) 5, 1)
unfolding runs
emits_zero = refl

bc_patch_u32-emit_example :
    (b' : BcBuffer) × (bc_patch_u32 later 1 0xdeadbeef ≡ some b')
    × Repatched eight (little_endian 4 0xdeadbeef) (144 ∷ []) b'
bc_patch_u32-emit_example =
    bc_patch_u32-emit 170 0 0xdeadbeef eight later (144 ∷ []) eight-IsValid (omega arith)
      (omega arith) (omega arith) (omega arith) emits_zero later-IsValid refl

bc_emit_data_overruns_example : bc_emit_data 170 eight (replicate 16 7) ≡ none
bc_emit_data_overruns_example =
    bc_emit_data_overruns 170 eight (replicate 16 7) eight-IsValid (omega arith) (omega arith)
      (omega arith)
