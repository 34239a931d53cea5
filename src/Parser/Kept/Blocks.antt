-- ===== src/Parser/Kept/Blocks.antt =====
-- The parsers of blocks and switches.
use atcc.Prelude.{ℕ, zero, suc, ◌≡◌, Bool, true, refl}
use atcc.Ast.{AstNode, AstNodes}
use atcc.Parser.Kept.Expressions.{parse_expression-Kept}
use atcc.Parser.Kept.{
  ParserPredicate, Kept-make_error, Kept-cond, Kept-if_consume, Kept-expect, Kept-if_check,
}
use atcc.Parser.{Parse}
use atcc.Tokens.{TokenKind}
use atcc.Parser.Blocks.{
  parse_until, is_block_end, is_case_end, parse_switch_patterns, parse_switch_labels,
  parse_switch_body, parse_statement_switch_case, parse_statement_switch, parse_statement,
  parse_statement_block,
}
use atcc.Parser.Kept.Statements.{
  parse_expression_paren-Kept, parse_statement_simple-Kept, parse_statement_break_continue-Kept,
  parse_statement_return-Kept, parse_statement_if-Kept, parse_statement_while-Kept,
  parse_statement_do_while-Kept, parse_statement_for-Kept,
}

module _ (L : ParserPredicate) where
  pub parse_until-Kept :
      (f : ℕ) (is_end : TokenKind → Bool) {item : Parse AstNode}
      → is_end TokenKind.eof ≡ true
      → L.Kept item
      → L.Kept (parse_until f is_end item)
  unfolding parse_until
  parse_until-Kept zero is_end d h = L.fuel_law _
  parse_until-Kept (suc f) is_end d h = L.bind_law _ _ L.current_law (λ t.
      (Kept-cond L (is_end t.kind) _ _ (L.pure_law _) (
        L.bind_law _ _ h
          (λ n. L.bind_law _ _ (parse_until-Kept f is_end d h) (λ ns. L.pure_law _)))))

  parse_switch_patterns-Kept : (f : ℕ) → L.Kept (parse_switch_patterns f)
  unfolding parse_switch_patterns
  parse_switch_patterns-Kept zero = L.fuel_law _
  parse_switch_patterns-Kept (suc f) = L.bind_law _ _ L.here_law (λ l.
      L.bind_law _ _ (parse_expression-Kept L f) (λ n.
        L.bind_law _ _ (Kept-if_consume L _ _ _ refl (parse_expression-Kept L f) (L.pure_law _))
          (λ n.
            L.bind_law _ _
              (Kept-if_consume L _ _ _ refl (parse_switch_patterns-Kept f) (L.pure_law _))
              (λ ns. L.pure_law _))))

  parse_switch_labels-Kept :
      (f : ℕ) {body : AstNodes → Bool → Parse AstNode} (patterns : AstNodes) (is_default : Bool)
      → ((patterns : AstNodes) (is_default : Bool) → L.Kept (body patterns is_default))
      → L.Kept (parse_switch_labels f body patterns is_default)
  unfolding parse_switch_labels
  parse_switch_labels-Kept zero patterns is_default h = L.fuel_law _
  parse_switch_labels-Kept (suc f) patterns is_default h =
      Kept-if_consume L _ _ _ refl
        (L.bind_law _ _ (parse_switch_patterns-Kept f)
          (λ ns. Kept-expect L _ _ _ refl (parse_switch_labels-Kept f _ _ h)))
        (Kept-if_consume L _ _ _ refl
          (Kept-cond L is_default _ _ (Kept-make_error L _)
            (Kept-expect L _ _ _ refl (parse_switch_labels-Kept f _ _ h)))
          (h patterns is_default))

  module _ (f : ℕ) {statement : Parse AstNode} (h : L.Kept statement) where
    parse_switch_body-Kept :
        (patterns : AstNodes) (is_default : Bool)
        → L.Kept (parse_switch_body f statement patterns is_default)
    unfolding parse_switch_body
    parse_switch_body-Kept patterns is_default =
        L.bind_law _ _ L.here_law
          (λ l. L.bind_law _ _ (parse_until-Kept f is_case_end refl h) (λ ns. L.pure_law _))

    parse_statement_switch_case-Kept : L.Kept (parse_statement_switch_case f statement)
    unfolding parse_statement_switch_case
    parse_statement_switch_case-Kept = parse_switch_labels-Kept f _ _ parse_switch_body-Kept

    parse_statement_switch-Kept : L.Kept (parse_statement_switch f statement)
    unfolding parse_statement_switch
    parse_statement_switch-Kept = L.bind_law _ _ (parse_expression_paren-Kept L f) (λ n.
        Kept-expect L _ _ _ refl (
          L.bind_law _ _ (parse_until-Kept f is_block_end refl parse_statement_switch_case-Kept)
            (λ ns. Kept-expect L _ _ _ refl (L.bind_law _ _ L.here_law (λ l. L.pure_law _)))))

  statement-Kept-suc :
      (f : ℕ)
      → L.Kept (parse_statement f)
      → L.Kept (parse_statement_block f)
      → L.Kept (parse_statement (suc f))
  unfolding parse_statement
  statement-Kept-suc f h b = Kept-if_consume L _ _ _ refl (parse_statement_if-Kept L f b) (
      Kept-if_consume L _ _ _ refl (parse_statement_while-Kept L f b) (
        Kept-if_consume L _ _ _ refl (parse_statement_do_while-Kept L f b) (
          Kept-if_consume L _ _ _ refl (parse_statement_for-Kept L f b) (
            Kept-if_consume L _ _ _ refl (parse_statement_switch-Kept f h) (
              Kept-if_consume L _ _ _ refl (parse_statement_break_continue-Kept L _) (
                Kept-if_consume L _ _ _ refl (parse_statement_break_continue-Kept L _) (
                  Kept-if_consume L _ _ _ refl (parse_statement_return-Kept L f) (
                    Kept-if_check L _ _ _ b (
                      L.bind_law _ _ (parse_statement_simple-Kept L f)
                        (λ n. Kept-expect L _ _ _ refl (L.pure_law _)))))))))))

  block-Kept-suc : (f : ℕ) → L.Kept (parse_statement f) → L.Kept (parse_statement_block (suc f))
  unfolding parse_statement
  block-Kept-suc f h =
      Kept-if_consume L _ _ _ refl
        (L.bind_law _ _ L.here_law (λ l.
          L.bind_law _ _ (parse_until-Kept f is_block_end refl h)
            (λ ns. Kept-expect L _ _ _ refl (L.pure_law _))))
        h

  statements-Kept : (f : ℕ) → L.Kept (parse_statement f) × L.Kept (parse_statement_block f)
  unfolding parse_statement
  statements-Kept zero = (L.fuel_law _, L.fuel_law _)
  statements-Kept (suc f) =
      let h = statements-Kept f in (statement-Kept-suc f h.0 h.1, block-Kept-suc f h.0)

  pub parse_statement_block-Kept : (f : ℕ) → L.Kept (parse_statement_block f)
  parse_statement_block-Kept f = (statements-Kept f).1
