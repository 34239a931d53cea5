-- ===== src/Sema/Scalars.antt =====
-- Which types the conversions of source/sema.c take for each other.
use mathlib.Core.Option.{none-ne-some}
use atcc.Prelude.{
  ℕ, ◌≡◌, ◌⊎◌, inl, inr, refl, sym, Bool, true, false, Bool-cases, Option, none, some, ◌==◌,
  if◌then◌else◌,
}
use atcc.Sema.Convert.{
  NodeTypes, node_type, typeid_of, pointee, convert_scalar, convert_pointer, convert_types,
  sema_node_convert_implicit,
}
use atcc.Types.Total.{Built, Answers, type_match-total}
use atcc.Types.{AtccType, type_is_scalar}

convert_scalar-scalar :
    (a b : AtccType)
    → type_is_scalar a ≡ true
    → type_is_scalar b ≡ true
    → convert_scalar a b ≡ some true
unfolding convert_scalar
convert_scalar-scalar a b h g = rw (h, g) refl

-- the bases of two types that are not both pointers
bases_apart :
    {A B : Type 0} (m : Option A) (n : Option B) (x y : Option Bool) (f : A → B → Option Bool)
    → m ≡ none ⊎ n ≡ none
    → x ≡ y
    → elim m [ none ↦ x | some a ↦ elim n [ none ↦ x | some b ↦ f a b ] ] ≡ y
bases_apart none n x y f h e = e
bases_apart (some a) none x y f h e = e
bases_apart (some a) (some b) x y f (inl h) e = absurd (none-ne-some a (sym h))
bases_apart (some a) (some b) x y f (inr h) e = absurd (none-ne-some b (sym h))

convert_pointer-scalar :
    (a b : AtccType)
    → type_is_scalar a ≡ true
    → type_is_scalar b ≡ true
    → pointee a ≡ none ⊎ pointee b ≡ none
    → convert_pointer a b ≡ some true
unfolding convert_pointer
convert_pointer-scalar a b h g apart =
    bases_apart (pointee a) (pointee b) _ _ _ apart (convert_scalar-scalar a b h g)

-- what the answer of `type_match` leads to
matched :
    (m r : Option Bool)
    → Answers m
    → r ≡ some true
    → elim m [ none ↦ none | some matches ↦ if matches then some true else r ] ≡ some true
matched (some true) r h e = refl
matched (some false) r h e = e
matched none r h e = absurd (none-ne-some h.0 h.1)

convert_types-scalar :
    (ids : ℕ → ℕ) (a b : AtccType)
    → Built ids a
    → Built ids b
    → type_is_scalar a ≡ true
    → type_is_scalar b ≡ true
    → pointee a ≡ none ⊎ pointee b ≡ none
    → convert_types a b ≡ some true
unfolding convert_types
convert_types-scalar ids a b t u h g apart = elim (Bool-cases (typeid_of a == typeid_of b)) [
  | inl i ↦ rw i refl
  | inr i ↦ rw i (matched _ _ (type_match-total ids a b t u) (convert_pointer-scalar a b h g apart))
]

-- A node of a scalar type converts to each scalar type without a cast, whatever the sizes: the two types
-- are built by the analysis, and not both are pointers.
pub sema_node_convert_implicit-scalar :
    (ids : ℕ → ℕ) (node : NodeTypes) (a b : AtccType)
    → node_type node ≡ some a
    → Built ids a
    → Built ids b
    → type_is_scalar a ≡ true
    → type_is_scalar b ≡ true
    → pointee a ≡ none ⊎ pointee b ≡ none
    → sema_node_convert_implicit node (some b) ≡ some true
unfolding sema_node_convert_implicit
sema_node_convert_implicit-scalar ids node a b e t u h g apart =
    rw (sema_node_convert_implicit, e) (convert_types-scalar ids a b t u h g apart)
