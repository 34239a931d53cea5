-- ===== src/Parser/Kept/Family.antt =====
-- The parsers of expressions and types, which call each other.
use Prim.Native.String.{String}
use atcc.Prelude.{ℕ, Bool}
use atcc.Ast.{AstNode}
use atcc.Parser.Expressions.{
  parse_expression_compound_field, compound_fields, parse_expression_compound, parse_operand_paren,
  parse_operand_type, parse_operand_offsetof, parse_operand_cast, parse_operand_identifier,
  parse_expression_operand, call_arguments, postfix_from, parse_expression_base,
  parse_expression_unary, binary_from, parse_binary, parse_expression, parse_typedecl_function,
  parse_typedecl_base, typedecl_from, array_from, parse_typedecl,
}
use atcc.Parser.Kept.{ParserPredicate}
use atcc.Tokens.{Location, Token}

module _ (L : ParserPredicate) where
  -- every parser of the block, with this fuel
  pub record AreKept (f : ℕ) : Type 0 where
    pub compound_field_kept : L.Kept (parse_expression_compound_field f)
    pub fields_kept : L.Kept (compound_fields f)
    pub compound_kept : (type : AstNode) → L.Kept (parse_expression_compound f type)
    pub paren_kept : L.Kept (parse_operand_paren f)
    pub type_kept :
        (before after : String) (make : Location → AstNode → AstNode)
        → L.Kept (parse_operand_type f before after make)
    pub offsetof_kept : L.Kept (parse_operand_offsetof f)
    pub cast_kept : L.Kept (parse_operand_cast f)
    pub identifier_kept : (t : Token) → L.Kept (parse_operand_identifier f t)
    pub operand_kept : L.Kept (parse_expression_operand f)
    pub arguments_kept : L.Kept (call_arguments f)
    pub postfix_kept : (node : AstNode) → L.Kept (postfix_from f node)
    pub base_kept : L.Kept (parse_expression_base f)
    pub unary_kept : L.Kept (parse_expression_unary f)
    pub binary_rest_kept : (below : ℕ) (node : AstNode) → L.Kept (binary_from f below node)
    pub binary_kept : (level : ℕ) → L.Kept (parse_binary f level)
    pub expression_kept : L.Kept (parse_expression f)
    pub function_kept : L.Kept (parse_typedecl_function f)
    pub typedecl_base_kept : L.Kept (parse_typedecl_base f)
    pub typedecl_rest_kept : (typedecl : AstNode) → L.Kept (typedecl_from f typedecl)
    pub array_kept :
        (base size : AstNode) (is_dynamic : Bool) → L.Kept (array_from f base size is_dynamic)
    pub typedecl_kept : L.Kept (parse_typedecl f)

  pub AreKept-zero : AreKept 0
  unfolding parse_expression
  AreKept-zero = record {
    compound_field_kept = L.fuel_law _;
    fields_kept = L.fuel_law _;
    compound_kept = λ type. L.fuel_law _;
    paren_kept = L.fuel_law _;
    type_kept = λ before after make. L.fuel_law _;
    offsetof_kept = L.fuel_law _;
    cast_kept = L.fuel_law _;
    identifier_kept = λ t. L.fuel_law _;
    operand_kept = L.fuel_law _;
    arguments_kept = L.fuel_law _;
    postfix_kept = λ node. L.fuel_law _;
    base_kept = L.fuel_law _;
    unary_kept = L.fuel_law _;
    binary_rest_kept = λ below node. L.fuel_law _;
    binary_kept = λ level. L.fuel_law _;
    expression_kept = L.fuel_law _;
    function_kept = L.fuel_law _;
    typedecl_base_kept = L.fuel_law _;
    typedecl_rest_kept = λ typedecl. L.fuel_law _;
    array_kept = λ base size is_dynamic. L.fuel_law _;
    typedecl_kept = L.fuel_law _;
  }
