-- ===== src/Eval.antt =====
-- The constant evaluation of source/eval.c. An `EvalNode` is what it reads of an `ASTNode`: the kind of the
-- type that `node_type` gives, and the constant of an identifier. The union of a variant is read through
-- another member as the low bits of what was written, with zeros above. `none` is a failed `assert`, or an
-- operation with no defined result. The arithmetic on floats, on their bits, is a parameter.
pub mod Integers
pub mod Typed
use atcc.Prelude.{
  ℕ, ◌+◌, ◌-◌, ◌%◌, ◌^◌, Bool, true, false, not, Option, some, none, ◌==◌, ◌>>=◌, if◌then◌else◌,
}
use atcc.Ati.Strings.{Bytes}
use atcc.Ati.Variant.{Variant, VariantKind, variant_i32, float_equal}
use atcc.Eval.Integers.{IntType, from_bool, eval_binary_int}
use atcc.Tokens.{TokenKind}
use atcc.Types.Kinds.{TypeKind}

pub data EvalNode : Type 0 where
  paren : EvalNode → EvalNode
  unary : TokenKind → EvalNode → EvalNode
  binary : TypeKind → TokenKind → EvalNode → EvalNode → EvalNode
  ternary : EvalNode → EvalNode → EvalNode → EvalNode
  -- the bits of `literal_as_u64`, and `literal_value`
  literal : TypeKind → ℕ → Bytes → EvalNode
  identifier : Variant → EvalNode
  cast : TypeKind → EvalNode → EvalNode
  -- sizeof, alignof, offsetof, a call, a field or an index
  no_constant : EvalNode
  -- a compound or a part of one
  compound : EvalNode

-- the operations of a type of floats, on their bits
pub record FloatType : Type 0 where
  pub plus : ℕ → ℕ → ℕ
  pub minus : ℕ → ℕ → ℕ
  pub star : ℕ → ℕ → ℕ
  pub slash : ℕ → ℕ → ℕ
  pub is_less : ℕ → ℕ → Bool
  pub is_less_equal : ℕ → ℕ → Bool

abbrev pub int_type : TypeKind → Option IntType
int_type TypeKind.i8 = some (record { width = 8; is_signed = true })
int_type TypeKind.u8 = some (record { width = 8; is_signed = false })
int_type TypeKind.i16 = some (record { width = 16; is_signed = true })
int_type TypeKind.u16 = some (record { width = 16; is_signed = false })
int_type TypeKind.i32 = some (record { width = 32; is_signed = true })
int_type TypeKind.u32 = some (record { width = 32; is_signed = false })
int_type TypeKind.i64 = some (record { width = 64; is_signed = true })
int_type TypeKind.u64 = some (record { width = 64; is_signed = false })
int_type _ = none

-- the kind of the variant that holds a number of a type; the other kinds of types have none
abbrev pub variant_kind : TypeKind → VariantKind
variant_kind TypeKind.i8 = VariantKind.i8
variant_kind TypeKind.u8 = VariantKind.u8
variant_kind TypeKind.i16 = VariantKind.i16
variant_kind TypeKind.u16 = VariantKind.u16
variant_kind TypeKind.i32 = VariantKind.i32
variant_kind TypeKind.u32 = VariantKind.u32
variant_kind TypeKind.i64 = VariantKind.i64
variant_kind TypeKind.u64 = VariantKind.u64
variant_kind TypeKind.f32 = VariantKind.f32
variant_kind _ = VariantKind.f64

-- the bits in the union; a string or an array holds an address there
abbrev pub union_bits : Variant → Option ℕ
union_bits Variant.variant_none = some 0
union_bits (Variant.variant_number kind bits) = some bits
union_bits (Variant.variant_string value) = none
union_bits (Variant.variant_array items) = none

-- the member of the union of this width
abbrev pub member : ℕ → Variant → Option ℕ
member width v = do bits ← union_bits v; some (bits % 2 ^ width)

-- a number of a type, cut to its width
abbrev pub number : TypeKind → IntType → ℕ → Variant
number kind T bits = Variant.variant_number (variant_kind kind) (bits % 2 ^ T.width)

unfoldable pub eval_unary : TokenKind → Variant → Option Variant
eval_unary TokenKind.plus target = some target
eval_unary TokenKind.minus target = do
  a ← member 32 target
  some (variant_i32 ((2 ^ 32 - a) % 2 ^ 32))
eval_unary TokenKind.exclamation target = do
  a ← member 32 target
  some (variant_i32 (from_bool (a == 0)))
eval_unary TokenKind.tilde target = do a ← member 32 target; some (variant_i32 (2 ^ 32 - 1 - a))
eval_unary _ target = none

unfoldable pub eval_binary_float :
    VariantKind → FloatType → (ℕ → ℕ → Bool) → TokenKind → ℕ → ℕ → Option Variant
eval_binary_float kind F equal TokenKind.plus a b = some (Variant.variant_number kind (F.plus a b))
eval_binary_float kind F equal TokenKind.minus a b =
    some (Variant.variant_number kind (F.minus a b))
eval_binary_float kind F equal TokenKind.star a b = some (Variant.variant_number kind (F.star a b))
eval_binary_float kind F equal TokenKind.slash a b =
    some (Variant.variant_number kind (F.slash a b))
eval_binary_float kind F equal TokenKind.equal_equal a b =
    some (variant_i32 (from_bool (equal a b)))
eval_binary_float kind F equal TokenKind.exclamation_equal a b =
    some (variant_i32 (from_bool (not (equal a b))))
eval_binary_float kind F equal TokenKind.less a b = some (variant_i32 (from_bool (F.is_less a b)))
eval_binary_float kind F equal TokenKind.less_equal a b =
    some (variant_i32 (from_bool (F.is_less_equal a b)))
eval_binary_float kind F equal TokenKind.greater a b =
    some (variant_i32 (from_bool (F.is_less b a)))
eval_binary_float kind F equal TokenKind.greater_equal a b =
    some (variant_i32 (from_bool (F.is_less_equal b a)))
eval_binary_float kind F equal _ a b = none

-- `f32`, `f64` and the conversion from the second to the first
pub record Floats : Type 0 where
  pub f32 : FloatType
  pub f64 : FloatType
  pub to_f32 : ℕ → ℕ

module _ (floats : Floats) where
  -- the operators on types that are no integers
  abbrev eval_binary_other : TypeKind → TokenKind → Variant → Variant → Option Variant
  eval_binary_other TypeKind.f32 operator left right = do
    a ← member 32 left
    b ← member 32 right
    eval_binary_float VariantKind.f32 floats.f32 (float_equal (2 ^ 31) 0x7f800000) operator a b
  eval_binary_other TypeKind.f64 operator left right = do
    a ← member 64 left
    b ← member 64 right
    eval_binary_float VariantKind.f64 floats.f64 (float_equal (2 ^ 63) 0x7ff0000000000000) operator
        a b
  eval_binary_other _ operator left right = none

  unfoldable pub eval_binary : TypeKind → TokenKind → Variant → Variant → Option Variant
  eval_binary kind operator left right = elim (int_type kind) [
    | none ↦ eval_binary_other kind operator left right
    | some T ↦ do
      a ← member T.width left
      b ← member T.width right
      c ← eval_binary_int T operator a b
      some (number kind T c)
  ]

  abbrev eval_literal_other : TypeKind → ℕ → Bytes → Option Variant
  eval_literal_other TypeKind.f32 bits value =
      some (Variant.variant_number VariantKind.f32 (floats.to_f32 bits))
  eval_literal_other TypeKind.f64 bits value = some (Variant.variant_number VariantKind.f64 bits)
  eval_literal_other TypeKind.string bits value = some (Variant.variant_string value)
  eval_literal_other _ bits value = none

  unfoldable pub eval_literal : TypeKind → ℕ → Bytes → Option Variant
  eval_literal kind bits value = elim (int_type kind) [
    | none ↦ eval_literal_other kind bits value
    | some T ↦ some (number kind T bits)
  ]

  abbrev eval_cast_other : TypeKind → Variant → Option Variant
  eval_cast_other TypeKind.f32 target = do
    a ← member 64 target
    some (Variant.variant_number VariantKind.f32 (floats.to_f32 a))
  eval_cast_other TypeKind.f64 target = do
    a ← member 64 target
    some (Variant.variant_number VariantKind.f64 a)
  eval_cast_other _ target = none

  unfoldable pub eval_cast : TypeKind → Variant → Option Variant
  eval_cast kind target = elim (int_type kind) [
    | none ↦ eval_cast_other kind target
    | some T ↦ do a ← member 64 target; some (number kind T a)
  ]

  unfoldable pub eval_expression : EvalNode → Option Variant
  eval_expression (paren node) = eval_expression node
  eval_expression (unary operator node) = do
    target ← eval_expression node
    eval_unary operator target
  eval_expression (binary kind operator a b) = do
    left ← eval_expression a
    right ← eval_expression b
    eval_binary kind operator left right
  eval_expression (ternary c a b) =
      let on_true = eval_expression a in
      let on_false = eval_expression b in
      do
        condition ← eval_expression c
        bits ← member 8 condition
        elim (bits == 0) [ true ↦ on_false | false ↦ on_true ]
  eval_expression (literal kind bits value) = eval_literal kind bits value
  eval_expression (identifier constant) = some constant
  eval_expression (cast kind node) = do target ← eval_expression node; eval_cast kind target
  eval_expression no_constant = some Variant.variant_none
  eval_expression compound = none
