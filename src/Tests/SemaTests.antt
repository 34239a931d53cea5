-- ===== src/Tests/SemaTests.antt =====
-- Conversions of source/sema.c, and their theorems at examples.
use mathlib.Core.List.{Memᴰ}
use atcc.Prelude.{ℕ, ◌≡◌, inl, inr, refl, true, false, none, some}
use atcc.Sema.Convert.{
  NodeTypes, SemanticContext, node_type, same_type, convert_array, convert_scalar, convert_pointer,
  convert_types, sema_node_convert_implicit, sema_node_convert_explicit, convert_sizes, converted,
  unify_from, ranked_types, sema_unify_binary_operands,
}
use atcc.Sema.Scalars.{sema_node_convert_implicit-scalar}
use atcc.Sema.Unify.{
  Unifies, swapped, sema_unify_binary_operands-Unifies, sema_unify_binary_operands_comm,
}
use atcc.Types.Kinds.{TypeKind, ordinal}
use atcc.Types.{AtccType, TypeBody, type_is_scalar, type_match}

abbrev basic : TypeKind → ℕ → AtccType
basic kind size = AtccType.type (TypeBody.basic kind) (ordinal kind) size size

abbrev context : SemanticContext
context = record {
  type_i8 = basic TypeKind.i8 1;
  type_u8 = basic TypeKind.u8 1;
  type_i16 = basic TypeKind.i16 2;
  type_u16 = basic TypeKind.u16 2;
  type_i32 = basic TypeKind.i32 4;
  type_u32 = basic TypeKind.u32 4;
  type_i64 = basic TypeKind.i64 8;
  type_u64 = basic TypeKind.u64 8;
  type_f32 = basic TypeKind.f32 4;
  type_f64 = basic TypeKind.f64 8;
}

abbrev of : AtccType → NodeTypes
of t = record { base_type = some t; conv_type = none }

abbrev u8s : ℕ → AtccType
u8s typeid = AtccType.type (TypeBody.array_of (basic TypeKind.u8 1) typeid false) typeid typeid 8

-- A u64 and an i8 become two i8.
narrows_u64 :
    sema_unify_binary_operands context (of (basic TypeKind.u64 8)) (of (basic TypeKind.i8 1))
    ≡ some (converted (of (basic TypeKind.u64 8)) (basic TypeKind.i8 1), of (basic TypeKind.i8 1))
unfolding sema_unify_binary_operands unify_from ranked_types same_type node_type converted
narrows_u64 = refl

-- Arrays of different items: the analysis ends the program.
converts_arrays :
    sema_node_convert_implicit
      (of (u8s 20))
      (some (AtccType.type (TypeBody.array_of (basic TypeKind.i32 4) 3 false) 30 12 8))
    ≡ none
unfolding sema_node_convert_implicit convert_types convert_pointer convert_scalar convert_array
    type_match type_is_scalar node_type
converts_arrays = refl

converts_sizes :
    sema_node_convert_explicit (of (basic TypeKind.string 12)) (some (u8s 12)) ≡ some true
unfolding sema_node_convert_explicit sema_node_convert_implicit convert_types convert_pointer
    convert_scalar convert_array convert_sizes type_match type_is_scalar node_type
converts_sizes = refl

sema_unify_binary_operands-Unifies_example :
    Unifies
      (sema_unify_binary_operands context (of (basic TypeKind.i32 4)) (of (basic TypeKind.f32 4)))
unfolding ranked_types same_type node_type
sema_unify_binary_operands-Unifies_example =
    sema_unify_binary_operands-Unifies context (of (basic TypeKind.i32 4))
      (of (basic TypeKind.f32 4)) (basic TypeKind.f32 4) (Memᴰ.tail (Memᴰ.head refl)) (inr refl)

sema_unify_binary_operands_comm_example :
    sema_unify_binary_operands context (of (basic TypeKind.i8 1)) (of (basic TypeKind.u64 8))
    ≡ swapped
        (sema_unify_binary_operands context (of (basic TypeKind.u64 8)) (of (basic TypeKind.i8 1)))
sema_unify_binary_operands_comm_example =
    sema_unify_binary_operands_comm context (of (basic TypeKind.u64 8)) (of (basic TypeKind.i8 1))

-- from f64 down to i8
sema_node_convert_implicit-scalar_example :
    sema_node_convert_implicit (of (basic TypeKind.f64 8)) (some (basic TypeKind.i8 1)) ≡ some true
unfolding node_type type_is_scalar
sema_node_convert_implicit-scalar_example =
    sema_node_convert_implicit-scalar (λ n. n) (of (basic TypeKind.f64 8)) (basic TypeKind.f64 8)
      (basic TypeKind.i8 1) refl (refl, refl) (refl, refl) refl refl (inl refl)
