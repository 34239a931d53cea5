-- ===== src/Emit/Buffer/Emit.antt =====
-- The emitters of source/emit/bytecode.c append a value's bytes, lowest first: the byte swap and the
-- shifts from the top cancel.
use Prim.Native.Nat.{bit_and}
use mathlib.Core.Path.{ap₂}
use native.Mathlib.Nat.{pow-suc}
use atcc.Prelude.Bits.{bit_and_mask}
use atcc.Prelude.{
  ℕ, zero, suc, ◌+◌, ◌-◌, ◌*◌, ◌/◌, ◌%◌, ◌^◌, ◌≤◌, ◌<◌, ◌≡◌, refl, ◌∙◌, arith, some, List, [], ◌∷◌,
  ◌++◌, length,
}
use atcc.Emit.Buffer.Store.{contents, IsValid, push_all-Appends, bc_buffer_ensure-Ensures}
use atcc.Emit.Buffer.{
  BcBuffer, bswap_16, bswap_32, bswap_64, big_endian_16, big_endian_32, big_endian_64, emit_bytes,
  bc_emit_u8, bc_emit_u16, bc_emit_u32, bc_emit_u64,
}

-- the `n` low bytes of a value, the lowest first
abbrev pub little_endian : ℕ → ℕ → List ℕ
little_endian zero v = []
little_endian (suc n) v = v % 2 ^ 8 ∷ little_endian n (v / 2 ^ 8)

-- the value that bytes stand for, the lowest first
abbrev pub decode : List ℕ → ℕ
decode [] = 0
decode (b ∷ bs) = b + 2 ^ 8 * decode bs

low_byte : (x : ℕ) → bit_and x 0xff ≡ x % 2 ^ 8
low_byte x = bit_and_mask 8 x

pub swapped_16 : (v : ℕ) → v < 2 ^ 16 → big_endian_16 (bswap_16 v) ≡ little_endian 2 v
swapped_16 v h = simp low_byte (ground arith)

pub swapped_32 : (v : ℕ) → v < 2 ^ 32 → big_endian_32 (bswap_32 v) ≡ little_endian 4 v
swapped_32 v h = simp low_byte (ground arith)

-- The upper and the lower half of an eight-byte value.
halves :
    (hi lo : ℕ)
    → lo < 2 ^ 32
    → hi < 2 ^ 32
    → big_endian_64 (hi * 2 ^ 32 + lo) ≡ big_endian_32 hi ++ big_endian_32 lo
halves hi lo h g = simp low_byte (ground arith)

pub swapped_64 : (v : ℕ) → v < 2 ^ 64 → big_endian_64 (bswap_64 v) ≡ little_endian 8 v
swapped_64 v h =
    halves (bswap_32 (v % 2 ^ 32)) (bswap_32 (v / 2 ^ 32)) (omega arith) (omega arith)
    ∙ ap₂ ◌++◌ (swapped_32 (v % 2 ^ 32) (omega arith)) (swapped_32 (v / 2 ^ 32) (omega arith))
    ∙ ground arith

-- The bytes stand for the value.
pub decode-little_endian : (n v : ℕ) → v < 256 ^ n → decode (little_endian n v) ≡ v
decode-little_endian zero v h = omega arith
decode-little_endian (suc n) v h =
    omega (arith, pow-suc 256 n, decode-little_endian n (v / 2 ^ 8) (omega (arith, pow-suc 256 n)))

-- What an emitter does: it appends the value's `n` bytes, and returns the offset of the first.
pub record Emits (b : BcBuffer) (vs : List ℕ) (r : BcBuffer × ℕ) : Type 0 where
  pub valid : IsValid r.0
  pub offset : r.1 ≡ b.size
  pub size : r.0.size ≡ b.size + length vs
  pub reads : contents r.0 ≡ contents b ++ vs

module _ (junk : ℕ) {b : BcBuffer} (w : IsValid b) (small : b.capacity < 2 ^ 61) where
  emit_bytes-Emits :
      (n : ℕ) (vs : List ℕ)
      → length vs ≡ n
      → n ≤ b.capacity
      → (r : BcBuffer × ℕ) × (emit_bytes junk b n vs ≡ some r) × Emits b vs r
  unfolding emit_bytes
  emit_bytes-Emits n vs len room =
      let e = bc_buffer_ensure-Ensures junk n w small (omega (arith, w.within)) in
      let (b', run, a) = push_all-Appends vs e.valid (omega (arith, e.room)) in
      (
        (b', b'.size - n),
        rw run refl,
        record {
          valid = a.valid;
          offset = omega (arith, a.size, e.same_size);
          size = omega (arith, a.size, e.same_size);
          reads = rw e.same_contents at a.reads;
        },
      )

  pub bc_emit_u8-Emits :
      (v : ℕ)
      → 1 ≤ b.capacity
      → (r : BcBuffer × ℕ) × (bc_emit_u8 junk b v ≡ some r) × Emits b (v ∷ []) r
  unfolding bc_emit_u8
  bc_emit_u8-Emits v room = emit_bytes-Emits 1 (v ∷ []) refl room

  pub bc_emit_u16-Emits :
      (v : ℕ)
      → v < 2 ^ 16
      → 2 ≤ b.capacity
      → (r : BcBuffer × ℕ) × (bc_emit_u16 junk b v ≡ some r) × Emits b (little_endian 2 v) r
  unfolding bc_emit_u16
  bc_emit_u16-Emits v h room =
      rw (swapped_16 v h) (emit_bytes-Emits 2 (little_endian 2 v) refl room)

  pub bc_emit_u32-Emits :
      (v : ℕ)
      → v < 2 ^ 32
      → 4 ≤ b.capacity
      → (r : BcBuffer × ℕ) × (bc_emit_u32 junk b v ≡ some r) × Emits b (little_endian 4 v) r
  unfolding bc_emit_u32
  bc_emit_u32-Emits v h room =
      rw (swapped_32 v h) (emit_bytes-Emits 4 (little_endian 4 v) refl room)

  -- `bc_emit_u64`, with a valid buffer of at least 8 and less than 2 ^ 61 bytes and a value below
  -- 2 ^ 64, returns: it appends the eight bytes of the value, the lowest first, to what the buffer
  -- holds, keeps it valid, and returns the offset of the first.
  pub bc_emit_u64-Emits :
      (v : ℕ)
      → v < 2 ^ 64
      → 8 ≤ b.capacity
      → (r : BcBuffer × ℕ) × (bc_emit_u64 junk b v ≡ some r) × Emits b (little_endian 8 v) r
  unfolding bc_emit_u64
  bc_emit_u64-Emits v h room =
      rw (swapped_64 v h) (emit_bytes-Emits 8 (little_endian 8 v) refl room)
