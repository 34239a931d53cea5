-- ===== src/Types/Total.antt =====
-- `type_match` of source/type.c does not panic on the types that the analysis builds: one type for each
-- basic kind, and pointers, functions, arrays and aggregates with their part of the union written.
use atcc.Prelude.{
  ℕ, ◌≡◌, ◌≢◌, refl, sym, ap, ◌∙◌, arith, Bool, true, false, not, ◌||◌, Bool-cases, inl, inr,
  Option, some, ltb, ◌==◌, ==_iff, if◌then◌else◌,
}
use atcc.Types.Kinds.{ordinal}
use atcc.Types.{
  AtccType, TypeBody, AtccTypes, body_kind, types_length, is_integer_kind, same_bool, then_match,
  type_match, body_match, types_match,
}

-- the kinds with nothing in the union: those before pointers, and strings
abbrev pub is_basic : ℕ → Bool
is_basic n = ltb n 12 || n == 14

abbrev mutual
  -- The identity of a basic type is the one that its kind has.
  pub Built : (ℕ → ℕ) → AtccType → Type 0
  Built ids (AtccType.type x i s p) = BuiltBody ids i x

  pub BuiltBody : (ℕ → ℕ) → ℕ → TypeBody → Type 0
  BuiltBody ids i (TypeBody.basic k) = (is_basic (ordinal k) ≡ true) × (i ≡ ids (ordinal k))
  BuiltBody ids i (TypeBody.pointer_to t) = Built ids t
  BuiltBody ids i (TypeBody.function_of ps r v) = BuiltTypes ids ps × Built ids r
  BuiltBody ids i (TypeBody.array_of t n d) = Built ids t
  BuiltBody ids i (TypeBody.aggregate_of o l) = Unit {0}

  pub BuiltTypes : (ℕ → ℕ) → AtccTypes → Type 0
  BuiltTypes ids AtccTypes.no_types = Unit {0}
  BuiltTypes ids (AtccTypes.and_type t ts) = Built ids t × BuiltTypes ids ts

abbrev pub Answers : Option Bool → Type 0
Answers m = (r : Bool) × (m ≡ some r)

then_match-total : {m n : Option Bool} → Answers m → Answers n → Answers (then_match m n)
then_match-total (true, e) (r, f) = (r, rw e f)
then_match-total (false, e) (r, f) = (false, rw e refl)

if_total : {m n : Option Bool} (c : Bool) → Answers m → Answers n → Answers (if c then m else n)
if_total true a b = a
if_total false a b = b

mutual
  unfolding type_match

  type_match-Answers :
      (ids : ℕ → ℕ) (a b : AtccType) → Built ids a → Built ids b → Answers (type_match a b)
  type_match-Answers ids (AtccType.type x i s p) (AtccType.type y j s' p') t u =
      elim (Bool-cases (ordinal (body_kind x) == ordinal (body_kind y))) [
        | inr e ↦ (false, rw e refl)
        | inl e ↦
            let h = (==_iff (ordinal (body_kind x)) (ordinal (body_kind y))).0 e in
            elim (Bool-cases (i == j)) [
              | inl f ↦
                  rw (e, f) (if_total (is_integer_kind (body_kind x)) (true, refl) (true, refl))
              | inr f ↦
                  let apart : i ≢ j = λ s. cc ((==_iff i j).1 s, f) in
                  rw (e, f)
                    (if_total (is_integer_kind (body_kind x)) (true, refl)
                      (body_match-total ids i j x y t u h apart))
            ]
      ]

  body_match-total :
      (ids : ℕ → ℕ) (i j : ℕ) (x y : TypeBody)
      → BuiltBody ids i x
      → BuiltBody ids j y
      → ordinal (body_kind x) ≡ ordinal (body_kind y)
      → i ≢ j
      → Answers (body_match x y)
  body_match-total ids i j (TypeBody.basic k) (TypeBody.basic k') t u h apart =
      absurd (apart (t.1 ∙ ap ids h ∙ sym u.1))
  body_match-total ids i j (TypeBody.basic k) (TypeBody.pointer_to b) t u h apart = cc (rw h at t.0)
  body_match-total ids i j (TypeBody.basic k) (TypeBody.function_of qs q w) t u h apart =
      cc (rw h at t.0)
  body_match-total ids i j (TypeBody.basic k) (TypeBody.array_of b m e) t u h apart =
      cc (rw h at t.0)
  body_match-total ids i j (TypeBody.basic k) (TypeBody.aggregate_of o' l') t u h apart =
      cc (rw h at t.0)
  body_match-total ids i j (TypeBody.pointer_to a) (TypeBody.basic k') t u h apart =
      cc (rw (← h) at u.0)
  body_match-total ids i j (TypeBody.pointer_to a) (TypeBody.pointer_to b) t u h apart =
      type_match-Answers ids a b t u
  body_match-total ids i j (TypeBody.pointer_to a) (TypeBody.function_of qs q w) t u h apart =
      absurd (omega (arith, h))
  body_match-total ids i j (TypeBody.pointer_to a) (TypeBody.array_of b m e) t u h apart =
      absurd (omega (arith, h))
  body_match-total ids i j (TypeBody.pointer_to a) (TypeBody.aggregate_of o' l') t u h apart =
      absurd (omega (arith, h))
  body_match-total ids i j (TypeBody.function_of ps r v) (TypeBody.basic k') t u h apart =
      cc (rw (← h) at u.0)
  body_match-total ids i j (TypeBody.function_of ps r v) (TypeBody.pointer_to b) t u h apart =
      absurd (omega (arith, h))
  body_match-total ids i j (TypeBody.function_of ps r v) (TypeBody.function_of qs q w) t u h apart =
      let params = types_match-total ids ps qs t.0 u.0 in
      let result = type_match-Answers ids r q t.1 u.1 in
      if_total (not (same_bool v w)) (false, refl)
        (if_total (not (types_length ps == types_length qs)) (false, refl)
          (then_match-total params result))
  body_match-total ids i j (TypeBody.function_of ps r v) (TypeBody.array_of b m e) t u h apart =
      absurd (omega (arith, h))
  body_match-total ids i j (TypeBody.function_of ps r v) (TypeBody.aggregate_of o' l') t u h apart =
      absurd (omega (arith, h))
  body_match-total ids i j (TypeBody.array_of a n d) (TypeBody.basic k') t u h apart =
      cc (rw (← h) at u.0)
  body_match-total ids i j (TypeBody.array_of a n d) (TypeBody.pointer_to b) t u h apart =
      absurd (omega (arith, h))
  body_match-total ids i j (TypeBody.array_of a n d) (TypeBody.function_of qs q w) t u h apart =
      absurd (omega (arith, h))
  body_match-total ids i j (TypeBody.array_of a n d) (TypeBody.array_of b m e) t u h apart =
      if_total (not (same_bool d e)) (false, refl)
        (if_total (not (n == m)) (false, refl) (type_match-Answers ids a b t u))
  body_match-total ids i j (TypeBody.array_of a n d) (TypeBody.aggregate_of o' l') t u h apart =
      absurd (omega (arith, h))
  body_match-total ids i j (TypeBody.aggregate_of o l) (TypeBody.basic k') t u h apart =
      cc (rw (← h) at u.0)
  body_match-total ids i j (TypeBody.aggregate_of o l) (TypeBody.pointer_to b) t u h apart =
      absurd (omega (arith, h))
  body_match-total ids i j (TypeBody.aggregate_of o l) (TypeBody.function_of qs q w) t u h apart =
      absurd (omega (arith, h))
  body_match-total ids i j (TypeBody.aggregate_of o l) (TypeBody.array_of b m e) t u h apart =
      absurd (omega (arith, h))
  body_match-total ids i j (TypeBody.aggregate_of o l) (TypeBody.aggregate_of o' l') t u h apart =
      ((o == o'), refl)

  types_match-total :
      (ids : ℕ → ℕ) (ps qs : AtccTypes)
      → BuiltTypes ids ps
      → BuiltTypes ids qs
      → Answers (types_match ps qs)
  types_match-total ids AtccTypes.no_types AtccTypes.no_types t u = (true, refl)
  types_match-total ids AtccTypes.no_types (AtccTypes.and_type b qs) t u = (true, refl)
  types_match-total ids (AtccTypes.and_type a ps) AtccTypes.no_types t u = (true, refl)
  types_match-total ids (AtccTypes.and_type a ps) (AtccTypes.and_type b qs) t u =
      then_match-total (type_match-Answers ids a b t.0 u.0) (types_match-total ids ps qs t.1 u.1)

-- `type_match` of two built types gives an answer: the panic at its end is not reached.
pub type_match-total :
    (ids : ℕ → ℕ) (a b : AtccType) → Built ids a → Built ids b → Answers (type_match a b)
type_match-total ids a b t u = type_match-Answers ids a b t u
