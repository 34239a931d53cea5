-- ===== src/Parser/Blocks.antt =====
-- Blocks, switches and the statements within them, of source/parser.c.
use atcc.Prelude.{ℕ, zero, suc, Bool, true, false, ◌||◌}
use atcc.Ast.{AstNode, AstNodes, ◌+++◌}
use atcc.Parser.Expressions.{parse_expression}
use atcc.Parser.Statements.{
  parse_expression_paren, parse_statement_if, parse_statement_while, parse_statement_do_while,
  parse_statement_for, parse_statement_break_continue, parse_statement_return,
  parse_statement_simple,
}
use atcc.Parser.{
  Parse, pure, no_fuel, ◌>>=◌, current_token, here, make_error, if_consume, if_check, expect,
}
use atcc.Tokens.Ordinals.{same_kind}
use atcc.Tokens.{TokenKind}

-- `while (!...) vector_push(items, item(parser));`
unfoldable pub parse_until : ℕ → (TokenKind → Bool) → Parse AstNode → Parse AstNodes
parse_until zero is_end item = no_fuel
parse_until (suc f) is_end item = do
  t ← current_token
  elim (is_end t.kind) [
    | true ↦ pure AstNodes.no_nodes
    | false ↦ do node ← item; nodes ← parse_until f is_end item; pure (AstNodes.and_node node nodes)
  ]

abbrev pub is_block_end : TokenKind → Bool
is_block_end kind = same_kind kind TokenKind.close_brace || same_kind kind TokenKind.eof

abbrev pub is_case_end : TokenKind → Bool
is_case_end kind =
    is_block_end kind || (same_kind kind TokenKind.kw_case || same_kind kind TokenKind.kw_default)

-- the patterns of one `case`
unfoldable pub parse_switch_patterns : ℕ → Parse AstNodes
parse_switch_patterns zero = no_fuel
parse_switch_patterns (suc f) = do
  l ← here
  start ← parse_expression f
  end ← if_consume TokenKind.dot_dot (parse_expression f) (pure AstNode.null)
  rest ← if_consume TokenKind.comma (parse_switch_patterns f) (pure AstNodes.no_nodes)
  pure (AstNodes.and_node (AstNode.switch_pattern l start end) rest)

-- the `case` and `default` labels before a body, with the patterns so far
unfoldable pub parse_switch_labels :
    ℕ → (AstNodes → Bool → Parse AstNode) → AstNodes → Bool → Parse AstNode
parse_switch_labels zero body patterns is_default = no_fuel
parse_switch_labels (suc f) body patterns is_default =
    if_consume TokenKind.kw_case
      (do
        more ← parse_switch_patterns f
        expect TokenKind.colon "Expected ':' after switch value(s)."
            (parse_switch_labels f body (patterns +++ more) is_default))
      (if_consume TokenKind.kw_default
        (elim is_default [
          | true ↦ make_error "Multiple default clauses."
          | false ↦
              expect TokenKind.colon "Expected ':' after switch value(s)."
                (parse_switch_labels f body patterns true)
        ])
        (body patterns is_default))

unfoldable pub parse_switch_body : ℕ → Parse AstNode → AstNodes → Bool → Parse AstNode
parse_switch_body f statement patterns is_default = do
  l ← here
  statements ← parse_until f is_case_end statement
  pure (AstNode.switch_case l patterns (AstNode.statement_block l statements) is_default)

unfoldable pub parse_statement_switch_case : ℕ → Parse AstNode → Parse AstNode
parse_statement_switch_case f statement =
    parse_switch_labels f (parse_switch_body f statement) AstNodes.no_nodes false

unfoldable pub parse_statement_switch : ℕ → Parse AstNode → Parse AstNode
parse_statement_switch f statement = do
  expression ← parse_expression_paren f
  expect TokenKind.open_brace "Expected '{' after 'switch'" (do
    cases ← parse_until f is_block_end (parse_statement_switch_case f statement)
    expect TokenKind.close_brace "Expected '}' after block"
        (do l ← here; pure (AstNode.statement_switch l expression cases)))

unfoldable mutual
  pub parse_statement : ℕ → Parse AstNode
  parse_statement zero = no_fuel
  parse_statement (suc f) =
      if_consume TokenKind.kw_if (parse_statement_if f (parse_statement_block f)) (
        if_consume TokenKind.kw_while (parse_statement_while f (parse_statement_block f)) (
          if_consume TokenKind.kw_do (parse_statement_do_while f (parse_statement_block f)) (
            if_consume TokenKind.kw_for (parse_statement_for f (parse_statement_block f)) (
              if_consume TokenKind.kw_switch (parse_statement_switch f (parse_statement f)) (
                if_consume TokenKind.kw_break (parse_statement_break_continue TokenKind.kw_break) (
                  if_consume TokenKind.kw_continue
                    (parse_statement_break_continue TokenKind.kw_continue)
                    (if_consume TokenKind.kw_return (parse_statement_return f) (
                      if_check TokenKind.open_brace (parse_statement_block f) (do
                        simple ← parse_statement_simple f
                        expect TokenKind.semicolon "Expected ';' after statement"
                            (pure simple))))))))))

  pub parse_statement_block : ℕ → Parse AstNode
  parse_statement_block zero = no_fuel
  parse_statement_block (suc f) =
      if_consume TokenKind.open_brace
        (do
          l ← here
          statements ← parse_until f is_block_end (parse_statement f)
          expect TokenKind.close_brace "Expected '}' after block"
              (pure (AstNode.statement_block l statements)))
        (parse_statement f)
