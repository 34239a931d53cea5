-- ===== src/Emit/Buffer.antt =====
-- `BcBuffer` of source/emit/bytecode.h and bytecode.c: emitting and patching bytes in memory. A store
-- outside of the allocated bytes is `none`; `junk` is what fresh memory holds, which C leaves open.
pub mod Store
pub mod Emit
pub mod Patch
use Prim.Native.Nat.{bit_and}
use atcc.Prelude.{
  ℕ, zero, suc, ◌+◌, ◌-◌, ◌*◌, ◌/◌, ◌%◌, ◌^◌, Bool, true, false, Option, none, some, List, [], ◌∷◌,
  ◌++◌, ltb, if◌then◌else◌, ◌>>=◌, length, set, replicate, u64_mod,
}

pub record BcBuffer : Type 0 where
  pub bytes : List ℕ
  pub size : ℕ
  pub capacity : ℕ

abbrev pub bswap_16 : ℕ → ℕ
bswap_16 v = v % 2 ^ 8 * 2 ^ 8 + v / 2 ^ 8

abbrev pub bswap_32 : ℕ → ℕ
bswap_32 v = bswap_16 (v % 2 ^ 16) * 2 ^ 16 + bswap_16 (v / 2 ^ 16)

abbrev pub bswap_64 : ℕ → ℕ
bswap_64 v = bswap_32 (v % 2 ^ 32) * 2 ^ 32 + bswap_32 (v / 2 ^ 32)

-- `(value >> shift) & 0xFF`
abbrev pub byte_at : ℕ → ℕ → ℕ
byte_at value shift = bit_and (value / 2 ^ shift) 0xff

abbrev pub big_endian_16 : ℕ → List ℕ
big_endian_16 v = byte_at v 8 ∷ byte_at v 0 ∷ []

abbrev pub big_endian_32 : ℕ → List ℕ
big_endian_32 v = byte_at v 24 ∷ byte_at v 16 ∷ byte_at v 8 ∷ byte_at v 0 ∷ []

abbrev pub big_endian_64 : ℕ → List ℕ
big_endian_64 v = byte_at v 56 ∷ byte_at v 48 ∷ byte_at v 40 ∷ byte_at v 32 ∷ big_endian_32 v

-- `buffer->data[offset] = value`
unfoldable pub store : BcBuffer → ℕ → ℕ → Option BcBuffer
store b offset value =
    if ltb offset (length b.bytes)
    then some (record b { bytes = set b.bytes offset value })
    else none

-- stores at `offset`, `offset + 1`, …
unfoldable pub store_all : BcBuffer → ℕ → List ℕ → Option BcBuffer
store_all b offset [] = some b
store_all b offset (v ∷ vs) = do b' ← store b offset v; store_all b' (offset + 1) vs

-- `buffer->data[buffer->size++] = value`
unfoldable pub push : BcBuffer → ℕ → Option BcBuffer
push b value = do b' ← store b b.size value; some (record b' { size = b'.size + 1 })

unfoldable pub push_all : BcBuffer → List ℕ → Option BcBuffer
push_all b [] = some b
push_all b (v ∷ vs) = do b' ← push b v; push_all b' vs

module _ (junk : ℕ) where
  unfoldable pub bc_buffer_create : ℕ → BcBuffer
  bc_buffer_create capacity = record {
    bytes = replicate capacity junk;
    size = 0;
    capacity = capacity;
  }

  unfoldable pub bc_buffer_ensure : BcBuffer → ℕ → BcBuffer
  bc_buffer_ensure b n =
      if ltb b.capacity ((b.size + n) % u64_mod)
      then record b {
        bytes = b.bytes ++ replicate (b.capacity * 2 % u64_mod - b.capacity) junk;
        capacity = b.capacity * 2 % u64_mod;
      }
      else b

  -- Room for the bytes, the bytes, and the offset of the first.
  unfoldable pub emit_bytes : BcBuffer → ℕ → List ℕ → Option (BcBuffer × ℕ)
  emit_bytes b n vs = do b' ← push_all (bc_buffer_ensure b n) vs; some (b', b'.size - n)

  unfoldable pub bc_emit_u8 : BcBuffer → ℕ → Option (BcBuffer × ℕ)
  bc_emit_u8 b v = emit_bytes b 1 (v ∷ [])

  unfoldable pub bc_emit_u16 : BcBuffer → ℕ → Option (BcBuffer × ℕ)
  bc_emit_u16 b v = emit_bytes b 2 (big_endian_16 (bswap_16 v))

  unfoldable pub bc_emit_u32 : BcBuffer → ℕ → Option (BcBuffer × ℕ)
  bc_emit_u32 b v = emit_bytes b 4 (big_endian_32 (bswap_32 v))

  unfoldable pub bc_emit_u64 : BcBuffer → ℕ → Option (BcBuffer × ℕ)
  bc_emit_u64 b v = emit_bytes b 8 (big_endian_64 (bswap_64 v))

  -- A float is its bits.
  unfoldable pub bc_emit_f32 : BcBuffer → ℕ → Option (BcBuffer × ℕ)
  bc_emit_f32 = bc_emit_u32

  unfoldable pub bc_emit_f64 : BcBuffer → ℕ → Option (BcBuffer × ℕ)
  bc_emit_f64 = bc_emit_u64

  -- `memcpy` behind the bytes that are there
  unfoldable pub bc_emit_data : BcBuffer → List ℕ → Option (BcBuffer × ℕ)
  bc_emit_data b vs = do
    let e = bc_buffer_ensure b (length vs)
    e' ← store_all e e.size vs
    let b' = record e' { size = e'.size + length vs }
    some (b', b'.size - length vs)

unfoldable pub bc_patch_u8 : BcBuffer → ℕ → ℕ → Option BcBuffer
bc_patch_u8 b offset v = store b offset v

unfoldable pub bc_patch_u16 : BcBuffer → ℕ → ℕ → Option BcBuffer
bc_patch_u16 b offset v = store_all b offset (big_endian_16 (bswap_16 v))

unfoldable pub bc_patch_u32 : BcBuffer → ℕ → ℕ → Option BcBuffer
bc_patch_u32 b offset v = store_all b offset (big_endian_32 (bswap_32 v))

unfoldable pub bc_patch_u64 : BcBuffer → ℕ → ℕ → Option BcBuffer
bc_patch_u64 b offset v = store_all b offset (big_endian_64 (bswap_64 v))

unfoldable pub bc_patch_f32 : BcBuffer → ℕ → ℕ → Option BcBuffer
bc_patch_f32 = bc_patch_u32

unfoldable pub bc_patch_f64 : BcBuffer → ℕ → ℕ → Option BcBuffer
bc_patch_f64 = bc_patch_u64
