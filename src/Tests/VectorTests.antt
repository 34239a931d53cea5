-- ===== src/Tests/VectorTests.antt =====
-- Runs of the vectors of source/ati/utils.c, and their theorems at examples.
use atcc.Prelude.{arith, ℕ, ◌≡◌, refl, some, none, [], ◌∷◌}
use atcc.Ati.Vector.Refines.{Holds, IsSmall, vector_create_sized-Holds, vector_push-Holds}
use atcc.Ati.Vector.{
  Vector, vector_create_sized, vector_grow_sized, vector_needs_grow, vector_ensure_length,
  vector_store, vector_push, vector_last, realloc,
}

abbrev two : Vector ℕ
two = vector_create_sized 8 2

-- the second push needs more room
grows :
    vector_push {A = ℕ} (record { length = 1; capacity = 2; memory = some 5 ∷ none ∷ [] }) 6 8
    ≡ some (record { length = 2; capacity = 4; memory = some 5 ∷ some 6 ∷ none ∷ none ∷ [] })
unfolding vector_push vector_store vector_ensure_length vector_needs_grow vector_grow_sized realloc
grows = refl

two-Holds : Holds two []
two-Holds = vector_create_sized-Holds 8 2 (omega arith) (omega arith)

two-IsSmall : IsSmall two 8
unfolding vector_create_sized
two-IsSmall = record { item = omega arith; small = omega arith }

vector_push-Holds_example :
    (v : Vector ℕ) × (vector_push two 7 8 ≡ some v)
    × Holds v (7 ∷ [])
    × (vector_last v ≡ some (some 7))
vector_push-Holds_example = vector_push-Holds two [] 7 8 two-Holds two-IsSmall
