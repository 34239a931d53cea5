-- ===== src/Emit/Buffer/Store.antt =====
-- The bytes that a buffer of source/emit/bytecode.c holds, and what a store does to them.
use mathlib.Core.List.{append-nil, append_assoc}
use atcc.Prelude.{
  ℕ, zero, suc, ◌+◌, ◌-◌, ◌*◌, ◌%◌, ◌^◌, ◌≤◌, ◌<◌, ◌≡◌, refl, sym, ap, ◌∙◌, arith, true, Bool-cases,
  inl, inr, some, List, [], ◌∷◌, ◌++◌, ltb, length, set, take, replicate, length-append, length-set,
  length-replicate, u64_mod,
}
use atcc.Emit.Buffer.{BcBuffer, store, push, push_all, bc_buffer_ensure}

abbrev pub contents : BcBuffer → List ℕ
contents b = take b.size b.bytes

pub record IsValid (b : BcBuffer) : Type 0 where
  pub allocated : length b.bytes ≡ b.capacity
  pub within : b.size ≤ b.capacity
  pub bounded : b.capacity < 2 ^ 62

module _ {ℓ} {A : Type ℓ} where
  pub take-append : (xs ys : List A) (n : ℕ) → n ≤ length xs → take n (xs ++ ys) ≡ take n xs
  take-append [] ys zero h = refl
  take-append [] ys (suc n) h = absurd (omega arith)
  take-append (x ∷ xs) ys zero h = refl
  take-append (x ∷ xs) ys (suc n) h = ap (◌∷◌ x) (take-append xs ys n (omega arith))

  pub take-set_push :
      (xs : List A) (n : ℕ) (v : A)
      → n < length xs
      → take (suc n) (set xs n v) ≡ take n xs ++ v ∷ []
  take-set_push [] n v h = absurd (omega arith)
  take-set_push (x ∷ xs) zero v h = refl
  take-set_push (x ∷ xs) (suc n) v h = ap (◌∷◌ x) (take-set_push xs n v (omega arith))

  pub take-set : (xs : List A) (n i : ℕ) (v : A) → take n (set xs i v) ≡ set (take n xs) i v
  take-set [] zero i v = refl
  take-set [] (suc n) i v = refl
  take-set (x ∷ xs) zero i v = refl
  take-set (x ∷ xs) (suc n) zero v = refl
  take-set (x ∷ xs) (suc n) (suc i) v = ap (◌∷◌ x) (take-set xs n i v)

  pub length-take_le : (n : ℕ) (xs : List A) → n ≤ length xs → length (take n xs) ≡ n
  length-take_le zero xs h = refl
  length-take_le (suc n) [] h = absurd (omega arith)
  length-take_le (suc n) (x ∷ xs) h = ap suc (length-take_le n xs (omega arith))

-- A push in bounds appends the byte.
pub record Appends (b : BcBuffer) (vs : List ℕ) (b' : BcBuffer) : Type 0 where
  pub valid : IsValid b'
  pub same_capacity : b'.capacity ≡ b.capacity
  pub size : b'.size ≡ b.size + length vs
  pub reads : contents b' ≡ contents b ++ vs

push-Appends :
    {b : BcBuffer} (v : ℕ)
    → IsValid b
    → b.size < b.capacity
    → (b' : BcBuffer) × (push b v ≡ some b') × Appends b (v ∷ []) b'
unfolding push store
push-Appends {b} v w h =
    let inside : b.size < length b.bytes = omega (arith, w.allocated) in
    let test : ltb b.size (length b.bytes) ≡ true = ground arith in
    (
      record b { bytes = set b.bytes b.size v; size = b.size + 1 },
      rw test refl,
      record {
        valid = record {
          allocated = length-set b.bytes b.size v ∙ w.allocated;
          within = omega arith;
          bounded = w.bounded;
        };
        same_capacity = refl;
        size = refl;
        reads =
            rw (let e : b.size + 1 ≡ suc b.size = omega arith in e)
              (take-set_push b.bytes b.size v inside);
      },
    )

pub push_all-Appends :
    (vs : List ℕ) {b : BcBuffer}
    → IsValid b
    → b.size + length vs ≤ b.capacity
    → (b' : BcBuffer) × (push_all b vs ≡ some b') × Appends b vs b'
unfolding push_all
push_all-Appends [] {b} w h = (
  b,
  refl,
  record {
    valid = w;
    same_capacity = refl;
    size = omega arith;
    reads = sym (append-nil (contents b));
  },
)
push_all-Appends (v ∷ vs) {b} w h =
    let (b₁, run, a) = push-Appends v w (omega arith) in
    let (b₂, run', a') = push_all-Appends vs a.valid (omega (arith, a.size, a.same_capacity)) in
    (
      b₂,
      rw run run',
      record {
        valid = a'.valid;
        same_capacity = a'.same_capacity ∙ a.same_capacity;
        size = omega (arith, a.size, a'.size);
        reads = a'.reads ∙ rw a.reads (append_assoc (contents b) (v ∷ []) vs);
      },
    )

-- Room for as many bytes as the doubled capacity leaves, and the same contents.
pub record Ensures (b : BcBuffer) (n : ℕ) (e : BcBuffer) : Type 0 where
  pub valid : IsValid e
  pub room : e.size + n ≤ e.capacity
  pub same_size : e.size ≡ b.size
  pub same_contents : contents e ≡ contents b

pub bc_buffer_ensure-Ensures :
    (junk n : ℕ) {b : BcBuffer}
    → IsValid b
    → b.capacity < 2 ^ 61
    → b.size + n ≤ b.capacity * 2
    → Ensures b n (bc_buffer_ensure junk b n)
unfolding bc_buffer_ensure
bc_buffer_ensure-Ensures junk n {b} w small h =
    let w₁ : (b.size + n) % u64_mod ≡ b.size + n = omega arith in
    let w₂ : b.capacity * 2 % u64_mod ≡ b.capacity * 2 = omega arith in
    rw (w₁, w₂)
      (elim (Bool-cases (ltb b.capacity (b.size + n))) [
        | inr e ↦
            rw e (record {
              valid = w;
              room = ground (arith, e);
              same_size = refl;
              same_contents = refl;
            })
        | inl e ↦ rw e (record {
          valid = record {
            allocated = omega (
              arith,
              w.allocated,
              length-append b.bytes (replicate (b.capacity * 2 - b.capacity) junk),
              length-replicate (b.capacity * 2 - b.capacity) junk,
            );
            within = omega (arith, w.within);
            bounded = omega arith;
          };
          room = h;
          same_size = refl;
          same_contents =
              take-append b.bytes (replicate (b.capacity * 2 - b.capacity) junk) b.size
                (omega (arith, w.allocated, w.within));
        })
      ])
