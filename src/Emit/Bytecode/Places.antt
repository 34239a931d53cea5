-- ===== src/Emit/Bytecode/Places.antt =====
-- The heap of the bytecode: what is allocated at the end of a list stands there, and moves nothing.
use atcc.Prelude.{
  ℕ, zero, suc, ◌+◌, ◌<◌, ◌≡◌, ◌≢◌, refl, ap, arith, some, List, [], ◌∷◌, ◌++◌, length, get_elem?,
  set,
}

module _ {ℓ} {A : Type ℓ} where
  pub get_elem?-append_new : (xs : List A) (y : A) → get_elem? (xs ++ y ∷ []) (length xs) ≡ some y
  get_elem?-append_new [] y = refl
  get_elem?-append_new (x ∷ xs) y = get_elem?-append_new xs y

  pub get_elem?-append_ne :
      (xs : List A) (y : A) (i : ℕ) → i ≢ length xs → get_elem? (xs ++ y ∷ []) i ≡ get_elem? xs i
  get_elem?-append_ne [] y zero h = absurd (h refl)
  get_elem?-append_ne [] y (suc i) h = refl
  get_elem?-append_ne (x ∷ xs) y zero h = refl
  get_elem?-append_ne (x ∷ xs) y (suc i) h = get_elem?-append_ne xs y i (λ e. h (ap suc e))

  pub set-append_new : (xs : List A) (y z : A) → set (xs ++ y ∷ []) (length xs) z ≡ xs ++ z ∷ []
  set-append_new [] y z = refl
  set-append_new (x ∷ xs) y z = ap (λ t. x ∷ t) (set-append_new xs y z)

  pub get_elem?-lt : (xs : List A) (i : ℕ) {x : A} → get_elem? xs i ≡ some x → i < length xs
  get_elem?-lt [] i h = cc
  get_elem?-lt (x ∷ xs) zero h = omega arith
  get_elem?-lt (x ∷ xs) (suc i) h = omega (arith, get_elem?-lt xs i h)

  pub get_elem?-append_old :
      (xs : List A) (y : A) (i : ℕ) {x : A}
      → get_elem? xs i ≡ some x
      → get_elem? (xs ++ y ∷ []) i ≡ some x
  get_elem?-append_old [] y i h = cc
  get_elem?-append_old (x ∷ xs) y zero h = h
  get_elem?-append_old (x ∷ xs) y (suc i) h = get_elem?-append_old xs y i h

  pub get_elem?-append_right :
      (xs ys : List A) (i : ℕ) → get_elem? (xs ++ ys) (length xs + i) ≡ get_elem? ys i
  get_elem?-append_right [] ys i = rw (let e : 0 + i ≡ i = omega arith in e) refl
  get_elem?-append_right (x ∷ xs) ys i =
      rw (let e : suc (length xs) + i ≡ suc (length xs + i) = omega arith in e)
        (get_elem?-append_right xs ys i)
