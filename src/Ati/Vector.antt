-- ===== src/Ati/Vector.antt =====
-- The vectors of source/ati/utils.c and the macros of source/ati/utils.h: a header in front of the cells.
-- A cell that was never written is `none`, and an access outside of the allocation gives `none`.
pub mod Refines
use atcc.Prelude.{
  ℕ, ◌+◌, ◌-◌, ◌*◌, ◌/◌, ◌%◌, Bool, true, false, Option, some, none, List, [], ◌∷◌, ◌++◌, length,
  get_elem?, set, take, replicate, ltb, leb, if◌then◌else◌, u32_mod, u64_mod, ◌==◌,
}

-- `length` and `capacity` are the header, `memory` is the whole cells that the allocation has room for.
pub record Vector (A : Type 0) : Type 0 where
  pub length : ℕ
  pub capacity : ℕ
  pub memory : List (Option A)

-- 16 is the size of the header.
abbrev pub header_size : ℕ
header_size = 16

module _ {A : Type 0} where
  -- `item_size * capacity` is computed in 32 bits.
  unfoldable pub vector_create_sized : ℕ → ℕ → Vector A
  vector_create_sized item_size capacity = record {
    length = 0;
    capacity = capacity;
    memory = replicate (item_size * capacity % u32_mod / item_size) none;
  }

  unfoldable pub realloc : List (Option A) → ℕ → List (Option A)
  realloc memory n = take n memory ++ replicate (n - atcc.Prelude.length memory) none

  unfoldable pub vector_grow_sized : Vector A → ℕ → ℕ → Vector A
  vector_grow_sized v increment item_size =
      let growth = v.capacity * 2 % u64_mod in
      let needed = (v.length + increment) % u64_mod in
      let capacity = if ltb needed growth then growth else needed in
      let size = (header_size + item_size * capacity) % u64_mod in
      record {
        length = v.length;
        capacity = capacity;
        memory = realloc v.memory ((size - header_size) / item_size);
      }

  unfoldable pub vector_needs_grow : Vector A → ℕ → Bool
  vector_needs_grow v n = leb v.capacity ((v.length + n) % u64_mod)

  unfoldable pub vector_ensure_length : Vector A → ℕ → ℕ → Vector A
  vector_ensure_length v n item_size =
      if vector_needs_grow v n then vector_grow_sized v n item_size else v

  -- `(vector)[vector_length(vector)++] = value`, where the cell is there
  unfoldable pub vector_store : Vector A → A → Vector A
  vector_store v value = record {
    length = (v.length + 1) % u64_mod;
    capacity = v.capacity;
    memory = set v.memory v.length (some value);
  }

  unfoldable pub vector_push : Vector A → A → ℕ → Option (Vector A)
  vector_push v value item_size =
      let v' = vector_ensure_length v 1 item_size in
      if ltb v'.length (atcc.Prelude.length v'.memory) then some (vector_store v' value) else none

  -- the vector, and the index of the first new cell
  unfoldable pub vector_add : Vector A → ℕ → ℕ → Vector A × ℕ
  vector_add v n item_size =
      let v' = vector_ensure_length v n item_size in
      (
        record { length = (v'.length + n) % u64_mod; capacity = v'.capacity; memory = v'.memory },
        v'.length,
      )

  -- the last cell; that of an empty vector lies outside of the allocation
  unfoldable pub vector_last : Vector A → Option (Option A)
  vector_last v = if v.length == 0 then none else get_elem? v.memory (v.length - 1)
