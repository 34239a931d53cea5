-- ===== src/Parser/Kept/Operands.antt =====
-- The step from a fuel to the next, for the operands of an expression.
use Prim.Native.String.{String}
use atcc.Prelude.{ℕ, suc, refl}
use atcc.Ast.{AstNode}
use atcc.Parser.Expressions.{
  is_literal, identifier_value, parse_expression_compound_field, compound_fields,
  parse_expression_compound, parse_operand_paren, parse_operand_type, parse_operand_offsetof,
  parse_operand_cast, parse_operand_identifier, parse_expression_operand, parse_expression,
}
use atcc.Parser.Kept.{
  ParserPredicate, Kept-make_error, Kept-optional, Kept-if_consume, Kept-expect, Kept-expect_value,
  Kept-if_check,
}
use atcc.Tokens.{Location, Token}
use atcc.Parser.Kept.Family.{AreKept}

module _ (L : ParserPredicate) (f : ℕ) (h : AreKept L f) where
  pub compound_field_suc : L.Kept (parse_expression_compound_field (suc f))
  unfolding parse_expression
  compound_field_suc =
      Kept-if_consume L _ _ _ refl
        (L.bind_law _ _ h.expression_kept (λ i. Kept-expect L _ _ _ refl (
          Kept-expect L _ _ _ refl (
            L.bind_law _ _ L.here_law
              (λ l. L.bind_law _ _ h.expression_kept (λ t. L.pure_law _))))))
        (L.bind_law _ _ h.expression_kept (λ t.
          Kept-if_consume L _ _ _ refl
            (Kept-optional L (identifier_value t) _ _
              (λ name.
                L.bind_law _ _ L.here_law
                  (λ l. L.bind_law _ _ h.expression_kept (λ t. L.pure_law _)))
              (Kept-make_error L _))
            (L.bind_law _ _ L.here_law (λ l. L.pure_law _))))

  pub fields_suc : L.Kept (compound_fields (suc f))
  unfolding parse_expression
  fields_suc = Kept-if_check L _ _ _ (L.pure_law _) (
      L.bind_law _ _ h.compound_field_kept (λ n.
        L.bind_law _ _ (Kept-if_consume L _ _ _ refl h.fields_kept (L.pure_law _))
          (λ ns. L.pure_law _)))

  pub compound_suc : (type : AstNode) → L.Kept (parse_expression_compound (suc f) type)
  unfolding parse_expression
  compound_suc = λ type. Kept-expect L _ _ _ refl (
      L.bind_law _ _ h.fields_kept
        (λ ns. Kept-expect L _ _ _ refl (L.bind_law _ _ L.here_law (λ l. L.pure_law _))))

  pub paren_suc : L.Kept (parse_operand_paren (suc f))
  unfolding parse_expression
  paren_suc =
      Kept-if_consume L _ _ _ refl
        (L.bind_law _ _ h.typedecl_kept
          (λ type. Kept-expect L _ _ _ refl (Kept-expect L _ _ _ refl (h.compound_kept type))))
        (L.bind_law _ _ L.here_law
          (λ l. L.bind_law _ _ h.expression_kept (λ n. Kept-expect L _ _ _ refl (L.pure_law _))))

  pub type_suc :
      (before after : String) (make : Location → AstNode → AstNode)
      → L.Kept (parse_operand_type (suc f) before after make)
  unfolding parse_expression
  type_suc = λ before after make. Kept-expect L _ _ _ refl (
      L.bind_law _ _ h.typedecl_kept
        (λ type. Kept-expect L _ _ _ refl (L.bind_law _ _ L.here_law (λ l. L.pure_law _))))

  pub offsetof_suc : L.Kept (parse_operand_offsetof (suc f))
  unfolding parse_expression
  offsetof_suc = Kept-expect L _ _ _ refl (
      L.bind_law _ _ h.typedecl_kept (λ type. Kept-expect L _ _ _ refl (
        Kept-expect_value L _ _ _ refl
          (λ name. Kept-expect L _ _ _ refl (L.bind_law _ _ L.here_law (λ l. L.pure_law _))))))

  pub cast_suc : L.Kept (parse_operand_cast (suc f))
  unfolding parse_expression
  cast_suc = Kept-expect L _ _ _ refl (
      L.bind_law _ _ h.typedecl_kept (λ type.
        Kept-expect L _ _ _ refl
          (L.bind_law _ _ L.here_law (λ l. L.bind_law _ _ h.unary_kept (λ n. L.pure_law _)))))

  pub identifier_suc : (t : Token) → L.Kept (parse_operand_identifier (suc f) t)
  unfolding parse_expression
  identifier_suc =
      λ t. L.bind_law _ _ L.here_law (λ l. Kept-if_check L _ _ _ (h.compound_kept _) (L.pure_law _))

  pub operand_suc : L.Kept (parse_expression_operand (suc f))
  unfolding parse_expression
  operand_suc =
      L.test_law is_literal _ _ refl (λ t. L.bind_law _ _ L.here_law (λ l. L.pure_law _))
        (L.identifier_law _ _ h.identifier_kept (
          Kept-if_consume L _ _ _ refl (h.type_kept _ _ _) (
            Kept-if_consume L _ _ _ refl (h.type_kept _ _ _) (
              Kept-if_consume L _ _ _ refl h.offsetof_kept (
                Kept-if_check L _ _ _ (h.compound_kept _) (
                  Kept-if_consume L _ _ _ refl h.paren_kept
                    (Kept-if_consume L _ _ _ refl h.cast_kept (Kept-make_error L _))))))))
