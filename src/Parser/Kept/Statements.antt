-- ===== src/Parser/Kept/Statements.antt =====
-- The parsers of statements.
use atcc.Prelude.{ℕ, Bool, refl}
use atcc.Ast.{AstNode}
use atcc.Parser.Kinds.{parser_is_assign}
use atcc.Parser.Expressions.{identifier_value}
use atcc.Parser.Kept.Expressions.{parse_expression-Kept, parse_typedecl-Kept}
use atcc.Parser.Kept.{
  ParserPredicate, Kept-make_error, Kept-cond, Kept-optional, Kept-if_consume, Kept-expect,
  Kept-if_check, Kept-declared,
}
use atcc.Parser.{Parse}
use atcc.Tokens.{TokenKind}
use atcc.Parser.Statements.{
  parse_expression_paren, parse_init_value, parse_statement_init, parse_if_branches,
  parse_statement_if, parse_statement_while, parse_statement_do_while, parse_statement_simple,
  is_init, parse_for_body, parse_for_end, parse_for_rest, parse_statement_for,
  parse_statement_break_continue, parse_statement_return,
}

module _ (L : ParserPredicate) where
  pub parse_expression_paren-Kept : (f : ℕ) → L.Kept (parse_expression_paren f)
  unfolding parse_expression_paren
  parse_expression_paren-Kept f =
      Kept-expect L _ _ _ refl
        (L.bind_law _ _ (parse_expression-Kept L f) (λ n. Kept-expect L _ _ _ refl (L.pure_law _)))

  parse_init_value-Kept :
      (f : ℕ) (make : AstNode → Bool → AstNode) → L.Kept (parse_init_value f make)
  unfolding parse_init_value
  parse_init_value-Kept f make =
      Kept-if_consume L _ _ _ refl
        (Kept-if_consume L _ _ _ refl (L.pure_law _)
          (L.bind_law _ _ (parse_expression-Kept L f) (λ n. L.pure_law _)))
        (L.pure_law _)

  parse_statement_init-Kept :
      (f : ℕ) (expression : AstNode) → L.Kept (parse_statement_init f expression)
  unfolding parse_statement_init
  parse_statement_init-Kept f expression =
      Kept-if_consume L _ _ _ refl
        (Kept-optional L (identifier_value expression) _ _
          (λ name.
            L.bind_law _ _ L.here_law
              (λ l. L.bind_law _ _ (parse_expression-Kept L f) (λ n. L.pure_law _)))
          (Kept-declared L _ (Kept-make_error L _)))
        (Kept-if_consume L _ _ _ refl
          (Kept-optional L (identifier_value expression) _ _
            (λ name.
              L.bind_law _ _ L.here_law
                (λ l. L.bind_law _ _ (parse_typedecl-Kept L f) (λ n. parse_init_value-Kept f _)))
            (Kept-declared L _ (Kept-make_error L _)))
          (L.pure_law _))

  pub parse_statement_simple-Kept : (f : ℕ) → L.Kept (parse_statement_simple f)
  unfolding parse_statement_simple
  parse_statement_simple-Kept f = L.bind_law _ _ (parse_expression-Kept L f) (λ n.
      L.bind_law _ _ (parse_statement_init-Kept f n) (λ o.
        Kept-optional L o _ _ (λ s. L.pure_law _)
          (L.test_law parser_is_assign _ _ refl
            (λ t.
              L.bind_law _ _ L.here_law
                (λ l. L.bind_law _ _ (parse_expression-Kept L f) (λ n. L.pure_law _)))
            (L.bind_law _ _ L.here_law (λ l. L.pure_law _)))))

  module _ (f : ℕ) {block : Parse AstNode} (h : L.Kept block) where
    parse_if_branches-Kept :
        (expression condition : AstNode) → L.Kept (parse_if_branches block expression condition)
    unfolding parse_if_branches
    parse_if_branches-Kept expression condition = Kept-expect L _ _ _ refl (
        L.bind_law _ _ h (λ n.
          L.bind_law _ _ (Kept-if_consume L _ _ _ refl h (L.pure_law _))
            (λ n. L.bind_law _ _ L.here_law (λ l. L.pure_law _))))

    pub parse_statement_if-Kept : L.Kept (parse_statement_if f block)
    unfolding parse_statement_if
    parse_statement_if-Kept = Kept-expect L _ _ _ refl (
        L.bind_law _ _ (parse_expression-Kept L f) (λ n.
          L.bind_law _ _ (parse_statement_init-Kept f n) (λ o.
            Kept-optional L o _ _
              (λ s.
                L.bind_law _ _
                  (Kept-if_consume L _ _ _ refl (parse_expression-Kept L f) (L.pure_law _))
                  (λ n. parse_if_branches-Kept _ _))
              (parse_if_branches-Kept _ _))))

    pub parse_statement_while-Kept : L.Kept (parse_statement_while f block)
    unfolding parse_statement_while
    parse_statement_while-Kept = L.bind_law _ _ L.here_law (λ l.
        L.bind_law _ _ (parse_expression_paren-Kept f) (λ n. L.bind_law _ _ h (λ n. L.pure_law _)))

    pub parse_statement_do_while-Kept : L.Kept (parse_statement_do_while f block)
    unfolding parse_statement_do_while
    parse_statement_do_while-Kept = L.bind_law _ _ h (λ n. Kept-expect L _ _ _ refl (
        L.bind_law _ _ (parse_expression_paren-Kept f)
          (λ n. Kept-expect L _ _ _ refl (L.bind_law _ _ L.here_law (λ l. L.pure_law _)))))

    parse_for_body-Kept :
        (initializer condition increment : AstNode)
        → L.Kept (parse_for_body block initializer condition increment)
    unfolding parse_for_body
    parse_for_body-Kept initializer condition increment =
        L.bind_law _ _ L.here_law (λ l. L.bind_law _ _ h (λ n. L.pure_law _))

    parse_for_end-Kept :
        (initializer condition increment : AstNode)
        → L.Kept (parse_for_end block initializer condition increment)
    unfolding parse_for_end
    parse_for_end-Kept initializer condition increment =
        Kept-expect L _ _ _ refl (parse_for_body-Kept _ _ _)

    parse_for_rest-Kept : (initializer : AstNode) → L.Kept (parse_for_rest f block initializer)
    unfolding parse_for_rest
    parse_for_rest-Kept initializer =
        Kept-if_consume L _ _ _ refl
          (L.bind_law _ _ (Kept-if_check L _ _ _ (L.pure_law _) (parse_expression-Kept L f)) (λ n.
            Kept-if_consume L _ _ _ refl
              (Kept-if_check L _ _ _ (parse_for_end-Kept _ _ _) (
                L.bind_law _ _ (parse_statement_simple-Kept f) (λ n.
                  Kept-cond L (is_init n) _ _ (Kept-make_error L _) (parse_for_end-Kept _ _ _))))
              (parse_for_end-Kept _ _ _)))
          (parse_for_end-Kept _ _ _)

    pub parse_statement_for-Kept : L.Kept (parse_statement_for f block)
    unfolding parse_statement_for
    parse_statement_for-Kept = Kept-if_check L _ _ _ (parse_for_body-Kept _ _ _) (
        Kept-expect L _ _ _ refl (
          L.bind_law _ _ (Kept-if_check L _ _ _ (L.pure_law _) (parse_statement_simple-Kept f))
            (λ n. parse_for_rest-Kept n)))

  pub parse_statement_break_continue-Kept :
      (kind : TokenKind) → L.Kept (parse_statement_break_continue kind)
  unfolding parse_statement_break_continue
  parse_statement_break_continue-Kept kind =
      L.bind_law _ _ L.here_law (λ l. Kept-expect L _ _ _ refl (L.pure_law _))

  pub parse_statement_return-Kept : (f : ℕ) → L.Kept (parse_statement_return f)
  unfolding parse_statement_return
  parse_statement_return-Kept f = L.bind_law _ _ L.here_law (λ l.
      Kept-if_check L _ _ _ (L.pure_law _)
        (L.bind_law _ _ (parse_expression-Kept L f) (λ n. Kept-expect L _ _ _ refl (L.pure_law _))))
