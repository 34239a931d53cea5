-- ===== src/Emit/Buffer/Patch.antt =====
-- Patching what was emitted, and the buffers that the emitters of source/emit/bytecode.c overrun.
use mathlib.Core.List.{append_assoc}
use atcc.Prelude.{
  ℕ, zero, suc, ◌+◌, ◌-◌, ◌*◌, ◌%◌, ◌^◌, ◌≤◌, ◌<◌, ◌≡◌, refl, sym, ap, ◌∙◌, arith, true, Bool-cases,
  inl, inr, none, some, List, [], ◌∷◌, ◌++◌, ltb, length, set, length-set, length-append,
  length-replicate, replicate, u64_mod,
}
use atcc.Emit.Buffer.Emit.{little_endian, swapped_32, Emits, bc_emit_u32-Emits}
use atcc.Emit.Buffer.Store.{contents, IsValid, take-set, length-take_le}
use atcc.Emit.Buffer.{
  BcBuffer, store, store_all, bc_buffer_ensure, bc_emit_u32, bc_emit_data, bc_patch_u32,
}

-- `n` stores in bounds replace as many bytes.
pub record Patches (b : BcBuffer) (before vs after : List ℕ) (b' : BcBuffer) : Type 0 where
  pub same_size : b'.size ≡ b.size
  pub valid : IsValid b'
  pub reads : contents b' ≡ before ++ (vs ++ after)

set-append :
    (xs : List ℕ) (y : ℕ) (ys : List ℕ) (v i : ℕ)
    → i ≡ length xs
    → set (xs ++ y ∷ ys) i v ≡ xs ++ v ∷ ys
set-append [] y ys v zero h = refl
set-append [] y ys v (suc i) h = absurd (omega arith)
set-append (x ∷ xs) y ys v zero h = absurd (omega arith)
set-append (x ∷ xs) y ys v (suc i) h = ap (◌∷◌ x) (set-append xs y ys v i (omega arith))

store_all-Patches :
    (vs olds before after : List ℕ) {b : BcBuffer} (offset : ℕ)
    → IsValid b
    → length olds ≡ length vs
    → offset ≡ length before
    → contents b ≡ before ++ (olds ++ after)
    → (b' : BcBuffer) × (store_all b offset vs ≡ some b') × Patches b before vs after b'
unfolding store_all store
store_all-Patches [] [] before after {b} offset w len at e =
    (b, refl, record { same_size = refl; valid = w; reads = e })
store_all-Patches [] (o ∷ olds) before after offset w len at e = absurd (omega arith)
store_all-Patches (v ∷ vs) [] before after offset w len at e = absurd (omega arith)
store_all-Patches (v ∷ vs) (o ∷ olds) before after {b} offset w len at e =
    let total : b.size ≡ length before + suc (length olds + length after) = omega (
      arith,
      length-take_le b.size b.bytes (omega (arith, w.within, w.allocated)),
      ap (length {0}) e,
      length-append before (o ∷ (olds ++ after)),
      length-append olds after,
    ) in
    let test : ltb offset (length b.bytes) ≡ true =
      ground (arith, at, total, w.within, w.allocated) in
    let b₁ : BcBuffer = record b { bytes = set b.bytes offset v } in
    let w₁ : IsValid b₁ = record {
      allocated = length-set b.bytes offset v ∙ w.allocated;
      within = w.within;
      bounded = w.bounded;
    } in
    let e₁ : contents b₁ ≡ (before ++ v ∷ []) ++ (olds ++ after) =
      take-set b.bytes b.size offset v
      ∙ rw e (set-append before o (olds ++ after) v offset at)
      ∙ sym (append_assoc before (v ∷ []) (olds ++ after)) in
    let (b', run, p) =
      store_all-Patches vs olds (before ++ v ∷ []) after (offset + 1) w₁ (omega arith)
        (omega (arith, length-append before (v ∷ []))) e₁ in
    (
      b',
      rw test run,
      record {
        same_size = p.same_size;
        valid = p.valid;
        reads = p.reads ∙ append_assoc before (v ∷ []) (vs ++ after);
      },
    )

-- A patch at the offset that an emitter returned puts the new value's bytes in place of the old ones,
-- and leaves the rest as it was, also where more was emitted in between.
pub record Repatched (b : BcBuffer) (vs more : List ℕ) (b' : BcBuffer) : Type 0 where
  pub valid : IsValid b'
  pub reads : contents b' ≡ contents b ++ (vs ++ more)

module _ {b c : BcBuffer} {olds more : List ℕ} {r : BcBuffer × ℕ} (w : IsValid b)
    (m : Emits b olds r) (u : IsValid c) (later : contents c ≡ contents r.0 ++ more) where
  pub repatch :
      (vs : List ℕ)
      → length olds ≡ length vs
      → (b' : BcBuffer) × (store_all c r.1 vs ≡ some b') × Repatched b vs more b'
  repatch vs len =
      let at : r.1 ≡ length (contents b) =
        omega
          (arith, m.offset, length-take_le b.size b.bytes (omega (arith, w.within, w.allocated))) in
      let (b', run, p) =
        store_all-Patches vs olds (contents b) more r.1 u len at
          (later ∙ rw m.reads (append_assoc (contents b) olds more)) in
      (b', run, record { valid = p.valid; reads = p.reads })

-- Emitting a four-byte value into a valid buffer of at least 4 and less than 2 ^ 61 bytes returns an
-- offset; if the buffer is still valid after more bytes were appended, patching that offset with
-- another value leaves what emitting that value in the first place would have left.
pub bc_patch_u32-emit :
    (junk v v' : ℕ) (b c : BcBuffer) (more : List ℕ) {r : BcBuffer × ℕ}
    → IsValid b
    → b.capacity < 2 ^ 61
    → 4 ≤ b.capacity
    → v < 2 ^ 32
    → v' < 2 ^ 32
    → bc_emit_u32 junk b v ≡ some r
    → IsValid c
    → contents c ≡ contents r.0 ++ more
    → (b' : BcBuffer) × (bc_patch_u32 c r.1 v' ≡ some b') × Repatched b (little_endian 4 v') more b'
unfolding bc_patch_u32
bc_patch_u32-emit junk v v' b c more {r} w small room h h' run u later =
    let (q, run', m) = bc_emit_u32-Emits junk w small v h room in
    let same : q ≡ r = ground (arith, run', run) in
    rw (swapped_32 v' h') (repatch w (rw same at m) u later (little_endian 4 v') refl)

store_all-overruns :
    (vs : List ℕ) (b : BcBuffer) (offset : ℕ)
    → offset ≤ length b.bytes
    → length b.bytes < offset + length vs
    → store_all b offset vs ≡ none
unfolding store_all store
store_all-overruns [] b offset le h = absurd (omega arith)
store_all-overruns (v ∷ vs) b offset le h = elim (Bool-cases (ltb offset (length b.bytes))) [
  | inr e ↦ rw e refl
  | inl e ↦
      let len = length-set b.bytes offset v in
      rw e (
        store_all-overruns vs (record b { bytes = set b.bytes offset v }) (offset + 1)
          (ground (arith, e, len)) (omega (arith, len)))
]

-- `bc_buffer_ensure` doubles once. Data that does not fit the doubled capacity is written past the
-- end of the allocation, in every valid buffer of less than 2 ^ 61 bytes.
pub bc_emit_data_overruns :
    (junk : ℕ) (b : BcBuffer) (bytes : List ℕ)
    → IsValid b
    → b.capacity < 2 ^ 61
    → length bytes < 2 ^ 62
    → b.capacity * 2 < b.size + length bytes
    → bc_emit_data junk b bytes ≡ none
unfolding bc_emit_data bc_buffer_ensure
bc_emit_data_overruns junk b bytes w small short h =
    let w₁ : (b.size + length bytes) % u64_mod ≡ b.size + length bytes = omega (arith, w.within) in
    let w₂ : b.capacity * 2 % u64_mod ≡ b.capacity * 2 = omega arith in
    let test : ltb b.capacity (b.size + length bytes) ≡ true = ground arith in
    let e : BcBuffer = record b {
      bytes = b.bytes ++ replicate (b.capacity * 2 - b.capacity) junk;
      capacity = b.capacity * 2;
    } in
    let size : length e.bytes ≡ b.capacity * 2 = omega (
      arith,
      w.allocated,
      length-append b.bytes (replicate (b.capacity * 2 - b.capacity) junk),
      length-replicate (b.capacity * 2 - b.capacity) junk,
    ) in
    let fails : store_all e b.size bytes ≡ none =
      store_all-overruns bytes e b.size (omega (arith, w.within)) (omega arith) in
    rw (w₁, w₂, test, fails) refl
