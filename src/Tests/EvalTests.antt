-- ===== src/Tests/EvalTests.antt =====
-- Runs of source/eval.c, and its theorem at an example.
use atcc.Prelude.{ℕ, ◌≡◌, refl, false, some, none, []}
use atcc.Ati.Variant.{variant_i32, variant_i64, variant_i8}
use atcc.Eval.Integers.{eval_binary_int}
use atcc.Eval.Typed.{Evaluates, HasKind, IsTotal, eval_expression-HasKind}
use atcc.Eval.{
  EvalNode, Floats, FloatType, eval_expression, eval_unary, eval_binary, eval_literal, eval_cast,
}
use atcc.Tokens.{TokenKind}
use atcc.Types.Kinds.{TypeKind}

runs : Unit {0}
unfolding eval_expression eval_unary eval_binary eval_literal eval_cast eval_binary_int
runs = tt

-- floats that nothing below computes with
abbrev no_floats : FloatType
no_floats = record {
  plus = λ a b. 0;
  minus = λ a b. 0;
  star = λ a b. 0;
  slash = λ a b. 0;
  is_less = λ a b. false;
  is_less_equal = λ a b. false;
}

abbrev floats : Floats
floats = record { f32 = no_floats; f64 = no_floats; to_f32 = λ a. a }

abbrev number : TypeKind → ℕ → EvalNode
number k n = EvalNode.literal k n []

-- `-7 / 2` and `-7 % 2` at `i8`
divides_down :
    eval_expression floats
      (EvalNode.binary TypeKind.i8 TokenKind.slash (number TypeKind.i8 249) (number TypeKind.i8 2))
    ≡ some (variant_i8 253)
unfolding runs
divides_down = refl

leaves_minus_one :
    eval_expression floats (
      EvalNode.binary TypeKind.i8 TokenKind.percent (number TypeKind.i8 249) (number TypeKind.i8 2))
    ≡ some (variant_i8 255)
unfolding runs
leaves_minus_one = refl

divides_by_zero :
    eval_expression floats
      (EvalNode.binary TypeKind.u8 TokenKind.slash (number TypeKind.u8 249) (number TypeKind.u8 0))
    ≡ none
unfolding runs
divides_by_zero = refl

-- `-` reads and gives an `i32`: of an `i64`, the high half is lost.
negates_half :
    eval_expression floats (EvalNode.unary TokenKind.minus (number TypeKind.i64 4294967297))
    ≡ some (variant_i32 4294967295)
unfolding runs
negates_half = refl

-- The cast of the `i32` -1 to `i64` is 4294967295.
casts_unsigned :
    eval_expression floats
      (EvalNode.cast TypeKind.i64 (EvalNode.unary TokenKind.minus (number TypeKind.i32 1)))
    ≡ some (variant_i64 4294967295)
unfolding runs
casts_unsigned = refl

-- `(u8) -1 < 5 ? 2 : 3`
abbrev choice : EvalNode
choice =
    EvalNode.ternary
      (EvalNode.binary TypeKind.u8 TokenKind.less
        (EvalNode.cast TypeKind.u8 (EvalNode.unary TokenKind.minus (number TypeKind.i32 1)))
        (number TypeKind.u8 5))
      (number TypeKind.i32 2) (number TypeKind.i32 3)

chooses : eval_expression floats choice ≡ some (variant_i32 3)
unfolding runs
chooses = refl

choice-HasKind : HasKind choice TypeKind.i32
choice-HasKind =
    HasKind.ternary
      (HasKind.binary refl IsTotal.less
        (HasKind.cast refl (HasKind.prefix_minus (HasKind.literal refl))) (HasKind.literal refl))
      (HasKind.literal refl) (HasKind.literal refl)

eval_expression-HasKind_example : Evaluates TypeKind.i32 (eval_expression floats choice)
eval_expression-HasKind_example = eval_expression-HasKind floats choice TypeKind.i32 choice-HasKind
