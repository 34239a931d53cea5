-- ===== src/Types/Match.antt =====
-- `type_match` of source/type.c is symmetric, and does not panic on types that the analysis builds.
use atcc.Prelude.{
  ℕ, ◌≡◌, refl, ap, arith, Bool, true, false, Bool-cases, inl, inr, some, ◌==◌, ==_iff,
}
use atcc.Types.Kinds.{ordinal}
use atcc.Types.{
  AtccType, TypeBody, AtccTypes, body_kind, types_length, same_bool, type_match, body_match,
  types_match,
}

==-comm : (a b : ℕ) → (a == b) ≡ (b == a)
==-comm a b = ground arith

same_bool_comm : (a b : Bool) → same_bool a b ≡ same_bool b a
same_bool_comm true true = refl
same_bool_comm true false = refl
same_bool_comm false true = refl
same_bool_comm false false = refl

mutual
  unfolding type_match

  type_match_flip : (a b : AtccType) → type_match a b ≡ type_match b a
  type_match_flip (AtccType.type x i s p) (AtccType.type y j s' p') =
      elim (Bool-cases (ordinal (body_kind x) == ordinal (body_kind y))) [
        | inl e ↦
            let h = (==_iff (ordinal (body_kind x)) (ordinal (body_kind y))).0 e in
            rw (h, ==-comm i j, body_match_comm x y h) refl
        | inr e ↦ rw (e, ==-comm (ordinal (body_kind y)) (ordinal (body_kind x)), e) refl
      ]

  body_match_comm :
      (x y : TypeBody)
      → ordinal (body_kind x) ≡ ordinal (body_kind y)
      → body_match x y ≡ body_match y x
  body_match_comm (TypeBody.basic k) (TypeBody.basic k') h = rw h refl
  body_match_comm (TypeBody.basic k) (TypeBody.pointer_to b) h = refl
  body_match_comm (TypeBody.basic k) (TypeBody.function_of qs q w) h = refl
  body_match_comm (TypeBody.basic k) (TypeBody.array_of b m e) h = refl
  body_match_comm (TypeBody.basic k) (TypeBody.aggregate_of o' l') h = refl
  body_match_comm (TypeBody.pointer_to a) (TypeBody.basic k') h = refl
  body_match_comm (TypeBody.pointer_to a) (TypeBody.pointer_to b) h = type_match_flip a b
  body_match_comm (TypeBody.pointer_to a) (TypeBody.function_of qs q w) h = refl
  body_match_comm (TypeBody.pointer_to a) (TypeBody.array_of b m e) h = refl
  body_match_comm (TypeBody.pointer_to a) (TypeBody.aggregate_of o' l') h = refl
  body_match_comm (TypeBody.function_of ps r v) (TypeBody.basic k') h = refl
  body_match_comm (TypeBody.function_of ps r v) (TypeBody.pointer_to b) h = refl
  body_match_comm (TypeBody.function_of ps r v) (TypeBody.function_of qs q w) h =
      rw
        (
          same_bool_comm v w,
          ==-comm (types_length ps) (types_length qs),
          types_match_comm ps qs,
          type_match_flip r q,
        )
        refl
  body_match_comm (TypeBody.function_of ps r v) (TypeBody.array_of b m e) h = refl
  body_match_comm (TypeBody.function_of ps r v) (TypeBody.aggregate_of o' l') h = refl
  body_match_comm (TypeBody.array_of a n d) (TypeBody.basic k') h = refl
  body_match_comm (TypeBody.array_of a n d) (TypeBody.pointer_to b) h = refl
  body_match_comm (TypeBody.array_of a n d) (TypeBody.function_of qs q w) h = refl
  body_match_comm (TypeBody.array_of a n d) (TypeBody.array_of b m e) h =
      rw (same_bool_comm d e, ==-comm n m, type_match_flip a b) refl
  body_match_comm (TypeBody.array_of a n d) (TypeBody.aggregate_of o' l') h = refl
  body_match_comm (TypeBody.aggregate_of o l) (TypeBody.basic k') h = refl
  body_match_comm (TypeBody.aggregate_of o l) (TypeBody.pointer_to b) h = refl
  body_match_comm (TypeBody.aggregate_of o l) (TypeBody.function_of qs q w) h = refl
  body_match_comm (TypeBody.aggregate_of o l) (TypeBody.array_of b m e) h = refl
  body_match_comm (TypeBody.aggregate_of o l) (TypeBody.aggregate_of o' l') h =
      ap some (==-comm o o')

  types_match_comm : (ps qs : AtccTypes) → types_match ps qs ≡ types_match qs ps
  types_match_comm AtccTypes.no_types AtccTypes.no_types = refl
  types_match_comm AtccTypes.no_types (AtccTypes.and_type b qs) = refl
  types_match_comm (AtccTypes.and_type a ps) AtccTypes.no_types = refl
  types_match_comm (AtccTypes.and_type a ps) (AtccTypes.and_type b qs) =
      rw (type_match_flip a b, types_match_comm ps qs) refl

-- Which of two types comes first makes no difference to `type_match`, panics included.
pub type_match_comm : (a b : AtccType) → type_match a b ≡ type_match b a
type_match_comm a b = type_match_flip a b
