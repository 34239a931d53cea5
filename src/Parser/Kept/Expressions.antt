-- ===== src/Parser/Kept/Expressions.antt =====
-- The parsers of expressions and types.
use atcc.Prelude.{ℕ, zero, suc}
use atcc.Parser.Expressions.{parse_expression, parse_typedecl}
use atcc.Parser.Kept.{ParserPredicate}
use atcc.Parser.Kept.Family.{AreKept, AreKept-zero}
use atcc.Parser.Kept.Operands.{
  compound_field_suc, fields_suc, compound_suc, paren_suc, type_suc, offsetof_suc, cast_suc,
  identifier_suc, operand_suc,
}
use atcc.Parser.Kept.Operators.{
  arguments_suc, postfix_suc, base_suc, unary_suc, binary_rest_suc, binary_suc, expression_suc,
}
use atcc.Parser.Kept.Types.{
  function_suc, typedecl_base_suc, typedecl_rest_suc, array_suc, typedecl_suc,
}

module _ (L : ParserPredicate) where
  AreKept-suc : (f : ℕ) → AreKept L f → AreKept L (suc f)
  AreKept-suc f h = record {
    compound_field_kept = compound_field_suc L f h;
    fields_kept = fields_suc L f h;
    compound_kept = compound_suc L f h;
    paren_kept = paren_suc L f h;
    type_kept = type_suc L f h;
    offsetof_kept = offsetof_suc L f h;
    cast_kept = cast_suc L f h;
    identifier_kept = identifier_suc L f h;
    operand_kept = operand_suc L f h;
    arguments_kept = arguments_suc L f h;
    postfix_kept = postfix_suc L f h;
    base_kept = base_suc L f h;
    unary_kept = unary_suc L f h;
    binary_rest_kept = binary_rest_suc L f h;
    binary_kept = binary_suc L f h;
    expression_kept = expression_suc L f h;
    function_kept = function_suc L f h;
    typedecl_base_kept = typedecl_base_suc L f h;
    typedecl_rest_kept = typedecl_rest_suc L f h;
    array_kept = array_suc L f h;
    typedecl_kept = typedecl_suc L f h;
  }

  are_kept : (f : ℕ) → AreKept L f
  are_kept zero = AreKept-zero L
  are_kept (suc f) = AreKept-suc f (are_kept f)

  pub parse_expression-Kept : (f : ℕ) → L.Kept (parse_expression f)
  parse_expression-Kept f = (are_kept f).expression_kept

  pub parse_typedecl-Kept : (f : ℕ) → L.Kept (parse_typedecl f)
  parse_typedecl-Kept f = (are_kept f).typedecl_kept
