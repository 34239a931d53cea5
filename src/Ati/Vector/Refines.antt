-- ===== src/Ati/Vector/Refines.antt =====
-- A vector of source/ati/utils.c is a list: what each operation does to the list, while the sizes fit 64
-- bits.
use native.Mathlib.Nat.{mod-eq_of_lt, mul-div_right, mul-le-mul_left, le-mul_of_pos_right, mul_comm}
use atcc.Prelude.{
  arith, ℕ, zero, suc, ◌+◌, ◌-◌, ◌*◌, ◌/◌, ◌%◌, ◌≤◌, ◌<◌, ◌≡◌, refl, sym, ◌∙◌, ap, true, false,
  Bool-cases, inl, inr, Option, some, none, List, [], ◌∷◌, ◌++◌, length, get_elem?, set, ltb, leb,
  ◌==◌, u32_mod, u64_mod, length-append, length-set, length-replicate, get_elem?-set_self,
  get_elem?-set_ne, take_all, if◌then◌else◌,
}
use atcc.Ati.Vector.{
  Vector, header_size, vector_create_sized, realloc, vector_grow_sized, vector_needs_grow,
  vector_ensure_length, vector_store, vector_push, vector_last,
}

get_elem?-append :
    {B : Type 0} (xs ys : List B) (i : ℕ) → i < length xs → get_elem? (xs ++ ys) i ≡ get_elem? xs i
get_elem?-append [] ys i h = absurd (omega (arith, h))
get_elem?-append (x ∷ xs) ys zero h = refl
get_elem?-append (x ∷ xs) ys (suc i) h = get_elem?-append xs ys i (omega (arith, h))

get_elem?-snoc : {B : Type 0} (xs : List B) (x : B) → get_elem? (xs ++ x ∷ []) (length xs) ≡ some x
get_elem?-snoc [] x = refl
get_elem?-snoc (y ∷ xs) x = get_elem?-snoc xs x

-- the capacity that a vector grows to, where nothing wraps
abbrev next_capacity : ℕ → ℕ → ℕ
next_capacity capacity n = if ltb (n + 1) (capacity * 2) then capacity * 2 else n + 1

next_capacity-bounds :
    (capacity n : ℕ)
    → n ≤ capacity
    → (n < next_capacity capacity n)
      × ((capacity ≤ next_capacity capacity n) × (next_capacity capacity n ≤ capacity * 2 + 1))
next_capacity-bounds capacity n h = (ground (arith, h), (ground (arith, h), ground (arith, h)))

module _ {A : Type 0} where
  -- the vector stands for the list
  pub record Holds (v : Vector A) (xs : List A) : Type 0 where
    pub counts : v.length ≡ length xs
    pub fits : length xs ≤ v.capacity
    pub allocated : length v.memory ≡ v.capacity
    pub cells : (i : ℕ) → i < length xs → get_elem? v.memory i ≡ some (get_elem? xs i)

  -- twice the capacity, and one more cell, fit 64 bits with the header
  pub record IsSmall (v : Vector A) (item_size : ℕ) : Type 0 where
    pub item : 0 < item_size
    pub small : header_size + item_size * (v.capacity * 2 + 1) < u64_mod

  pub vector_create_sized-Holds :
      (item_size capacity : ℕ)
      → 0 < item_size
      → item_size * capacity < u32_mod
      → Holds (vector_create_sized item_size capacity) []
  unfolding vector_create_sized
  vector_create_sized-Holds item_size capacity p h = record {
    counts = refl;
    fits = omega arith;
    allocated = length-replicate _ none ∙ rw (mod-eq_of_lt h) (mul-div_right capacity p);
    cells = λ i e. absurd (omega (arith, e));
  }

  length-realloc :
      (memory : List (Option A)) (n : ℕ) → length memory ≤ n → length (realloc memory n) ≡ n
  unfolding realloc
  length-realloc memory n h = rw (take_all n memory h) (
      length-append memory _
      ∙ rw (length-replicate {A = Option A} (n - length memory) none) (omega (arith, h)))

  realloc-keeps :
      (memory : List (Option A)) (n i : ℕ)
      → length memory ≤ n
      → i < length memory
      → get_elem? (realloc memory n) i ≡ get_elem? memory i
  unfolding realloc
  realloc-keeps memory n i h e = rw (take_all n memory h) (get_elem?-append memory _ i e)

  small_capacity :
      (v : Vector A) (item_size : ℕ) → IsSmall v item_size → v.capacity * 2 + 1 < u64_mod
  small_capacity v item_size h =
      let k = v.capacity * 2 + 1 in
      omega (arith, h.small, mul_comm k item_size, le-mul_of_pos_right k h.item)

  small_size :
      (v : Vector A) (item_size n : ℕ)
      → IsSmall v item_size
      → n ≤ v.capacity * 2 + 1
      → ((header_size + item_size * n) % u64_mod - header_size) / item_size ≡ n
  small_size v item_size n h e =
      let b = mul-le-mul_left item_size e in
      let l : header_size + item_size * n < u64_mod = omega (arith, b, h.small) in
      let m : header_size + item_size * n - header_size ≡ item_size * n = omega arith in
      rw (mod-eq_of_lt l, m) (mul-div_right n h.item)

  grown :
      (v : Vector A) (n item_size : ℕ)
      → v.length ≡ n
      → n ≤ v.capacity
      → IsSmall v item_size
      → vector_grow_sized v 1 item_size ≡ record {
        length = v.length;
        capacity = next_capacity v.capacity n;
        memory = realloc v.memory (next_capacity v.capacity n);
      }
  unfolding vector_grow_sized
  grown v n item_size e l h =
      let b = small_capacity v item_size h in
      let g : v.capacity * 2 < u64_mod = omega (arith, b) in
      let d : n + 1 < u64_mod = omega (arith, b, l) in
      rw
        (
          e,
          mod-eq_of_lt g,
          mod-eq_of_lt d,
          small_size v item_size (next_capacity v.capacity n) h
              (next_capacity-bounds v.capacity n l).1.1,
        )
        refl

  -- room for one more
  record HasRoom (v : Vector A) (xs : List A) : Type 0 where
    pub holds : Holds v xs
    pub room : length xs < v.capacity

  grow-HasRoom :
      (v : Vector A) (xs : List A) (item_size : ℕ)
      → Holds v xs
      → IsSmall v item_size
      → HasRoom (vector_grow_sized v 1 item_size) xs
  grow-HasRoom v xs item_size h s =
      let b = next_capacity-bounds v.capacity (length xs) h.fits in
      let l : length v.memory ≤ next_capacity v.capacity (length xs) =
        omega (arith, h.allocated, b.1.0) in
      rw (grown v (length xs) item_size h.counts h.fits s) (record {
        holds = record {
          counts = h.counts;
          fits = omega (arith, b.0);
          allocated = length-realloc v.memory _ l;
          cells = λ i e.
              realloc-keeps v.memory _ i l (omega (arith, e, h.fits, h.allocated)) ∙ h.cells i e;
        };
        room = b.0;
      })

  ensure-HasRoom :
      (v : Vector A) (xs : List A) (item_size : ℕ)
      → Holds v xs
      → IsSmall v item_size
      → HasRoom (vector_ensure_length v 1 item_size) xs
  unfolding vector_ensure_length vector_needs_grow
  ensure-HasRoom v xs item_size h s =
      let b = small_capacity v item_size s in
      elim (Bool-cases (leb v.capacity ((v.length + 1) % u64_mod))) [
        | inl e ↦ rw e (grow-HasRoom v xs item_size h s)
        | inr e ↦ rw e (record { holds = h; room = ground (arith, e, b, h.counts, h.fits) })
      ]

  set-cells :
      (memory : List (Option A)) (xs : List A) (x : A)
      → length xs < length memory
      → ((i : ℕ) → i < length xs → get_elem? memory i ≡ some (get_elem? xs i))
      → (i : ℕ) → i < length xs + 1
      → get_elem? (set memory (length xs) (some x)) i ≡ some (get_elem? (xs ++ x ∷ []) i)
  set-cells memory xs x l h i e = elim (Bool-cases (ltb i (length xs))) [
    | inl b ↦
        let d : i < length xs = ground (arith, b) in
        get_elem?-set_ne memory (length xs) i (some x) (λ q. omega (arith, q, d))
        ∙ (h i d ∙ ap some (sym (get_elem?-append xs (x ∷ []) i d)))
    | inr b ↦
        let q : i ≡ length xs = ground (arith, b, e) in
        rw (q, get_elem?-snoc xs x) (get_elem?-set_self memory (length xs) (some x) l)
  ]

  vector_store-Holds :
      (v : Vector A) (xs : List A) (x : A)
      → HasRoom v xs
      → length xs + 1 < u64_mod
      → Holds (vector_store v x) (xs ++ x ∷ [])
  unfolding vector_store
  vector_store-Holds v xs x h l =
      let n : length (xs ++ x ∷ []) ≡ length xs + 1 = length-append xs (x ∷ []) in
      rw (h.holds.counts) (record {
        counts = mod-eq_of_lt l ∙ sym n;
        fits = omega (arith, n, h.room);
        allocated = length-set v.memory (length xs) (some x) ∙ h.holds.allocated;
        cells = λ i e.
            set-cells v.memory xs x (omega (arith, h.room, h.holds.allocated)) h.holds.cells i
              (omega (arith, e, n));
      })

  vector_last-Holds :
      (v : Vector A) (xs : List A) (x : A) → Holds v (xs ++ x ∷ []) → vector_last v ≡ some (some x)
  unfolding vector_last
  vector_last-Holds v xs x h =
      let n : v.length ≡ length xs + 1 = h.counts ∙ length-append xs (x ∷ []) in
      let l : v.length - 1 ≡ length xs = omega (arith, n) in
      let z : (v.length == 0) ≡ false = ground (arith, n) in
      rw (z, l)
        (h.cells (length xs) (omega (arith, length-append xs (x ∷ [])))
          ∙ ap some (get_elem?-snoc xs x))

  -- A push onto a vector that stands for a list, while twice the capacity and one cell more fit 64 bits, stays
  -- within the allocation, and the vector then stands for the list with the value behind it,
  -- and vector_last gives that value.
  pub vector_push-Holds :
      (v : Vector A) (xs : List A) (x : A) (item_size : ℕ)
      → Holds v xs
      → IsSmall v item_size
      → (v' : Vector A) × (vector_push v x item_size ≡ some v')
        × Holds v' (xs ++ x ∷ [])
        × (vector_last v' ≡ some (some x))
  unfolding vector_push vector_store
  vector_push-Holds v xs x item_size h s =
      let w = vector_ensure_length v 1 item_size in
      let g = ensure-HasRoom v xs item_size h s in
      let l : ltb w.length (length w.memory) ≡ true =
        ground (arith, g.room, g.holds.counts, g.holds.allocated) in
      let k = vector_store-Holds w xs x g (omega (arith, h.fits, small_capacity v item_size s)) in
      (vector_store w x, rw l refl, k, vector_last-Holds (vector_store w x) xs x k)
