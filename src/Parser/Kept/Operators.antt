-- ===== src/Parser/Kept/Operators.antt =====
-- The step from a fuel to the next, for what stands around the operands of an expression.
use atcc.Prelude.{ℕ, zero, suc, ◌≡◌, false, refl}
use atcc.Ast.{AstNode}
use atcc.Parser.Expressions.{
  call_arguments, postfix_from, parse_expression_base, parse_expression_unary, binary_from,
  parse_binary, parse_expression,
}
use atcc.Parser.Kinds.{is_level, parser_is_unary}
use atcc.Parser.Kept.{
  ParserPredicate, Kept-if_consume, Kept-expect, Kept-expect_value, Kept-if_check,
}
use atcc.Tokens.{TokenKind}
use atcc.Parser.Kept.Family.{AreKept}

is_level-eof : (level : ℕ) → is_level level TokenKind.eof ≡ false
is_level-eof zero = refl
is_level-eof (suc zero) = refl
is_level-eof (suc (suc zero)) = refl
is_level-eof (suc (suc (suc zero))) = refl
is_level-eof (suc (suc (suc (suc zero)))) = refl
is_level-eof (suc (suc (suc (suc (suc n))))) = refl

module _ (L : ParserPredicate) (f : ℕ) (h : AreKept L f) where
  pub arguments_suc : L.Kept (call_arguments (suc f))
  unfolding parse_expression
  arguments_suc = L.bind_law _ _ h.expression_kept (λ n.
      L.bind_law _ _ (Kept-if_consume L _ _ _ refl h.arguments_kept (L.pure_law _))
        (λ ns. L.pure_law _))

  pub postfix_suc : (node : AstNode) → L.Kept (postfix_from (suc f) node)
  unfolding parse_expression
  postfix_suc = λ node.
      Kept-if_consume L _ _ _ refl
        (L.bind_law _ _ (Kept-if_check L _ _ _ (L.pure_law _) h.arguments_kept)
          (λ ns. Kept-expect L _ _ _ refl (L.bind_law _ _ L.here_law (λ l. h.postfix_kept _))))
        (Kept-if_consume L _ _ _ refl
          (L.bind_law _ _ h.expression_kept
            (λ n. Kept-expect L _ _ _ refl (L.bind_law _ _ L.here_law (λ l. h.postfix_kept _))))
          (Kept-if_consume L _ _ _ refl
            (Kept-expect_value L _ _ _ refl
              (λ name. L.bind_law _ _ L.here_law (λ l. h.postfix_kept _)))
            (L.pure_law _)))

  pub base_suc : L.Kept (parse_expression_base (suc f))
  unfolding parse_expression
  base_suc = L.bind_law _ _ h.operand_kept h.postfix_kept

  pub unary_suc : L.Kept (parse_expression_unary (suc f))
  unfolding parse_expression
  unary_suc =
      L.located_law parser_is_unary _ _ refl
        (λ l o. L.bind_law _ _ h.unary_kept (λ n. L.pure_law _)) h.base_kept

  pub binary_rest_suc : (below : ℕ) (node : AstNode) → L.Kept (binary_from (suc f) below node)
  unfolding parse_expression
  binary_rest_suc = λ below node.
      L.test_law (is_level (suc below)) _ _ (is_level-eof (suc below))
        (λ o.
          L.bind_law _ _ L.here_law
            (λ l. L.bind_law _ _ (h.binary_kept below) (λ n. h.binary_rest_kept below _)))
        (L.pure_law _)

  pub binary_suc : (level : ℕ) → L.Kept (parse_binary (suc f) level)
  unfolding parse_expression
  binary_suc = λ level. elim level as (λ k. L.Kept (parse_binary (suc f) k)) [
    | zero ↦ h.unary_kept
    | suc below ↦ L.bind_law _ _ (h.binary_kept below) (h.binary_rest_kept below)
  ]

  pub expression_suc : L.Kept (parse_expression (suc f))
  unfolding parse_expression
  expression_suc = L.bind_law _ _ (h.binary_kept 5) (λ n.
      Kept-if_consume L _ _ _ refl
        (L.bind_law _ _ h.expression_kept (λ a.
          Kept-expect L _ _ _ refl (
            L.bind_law _ _ h.expression_kept (λ b. L.bind_law _ _ L.here_law (λ l. L.pure_law _)))))
        (L.pure_law _))
