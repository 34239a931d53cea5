-- ===== src/Parser/Statements.antt =====
-- Statements of source/parser.c. A pointer that may be null and is tested is an `Option`. The functions
-- that parse a statement within a statement take it as `block`, which is `parse_statement_block`.
use atcc.Prelude.{ℕ, Bool, true, false, Option, none, some}
use atcc.Ast.{AstNode}
use atcc.Parser.Expressions.{parse_expression, parse_typedecl, identifier_value}
use atcc.Parser.Kinds.{parser_is_assign}
use atcc.Parser.{
  Parse, pure, ◌>>=◌, current_token, parser_advance, here, make_error, if_consume, if_check, expect,
  declared,
}
use atcc.Tokens.Ordinals.{same_kind}
use atcc.Tokens.{TokenKind}

unfoldable pub parse_expression_paren : ℕ → Parse AstNode
parse_expression_paren f =
    expect TokenKind.open_paren "Expected '('"
      (do node ← parse_expression f; expect TokenKind.close_paren "Expected ')'" (pure node))

-- the value of an initializer, and whether it is `..`
unfoldable pub parse_init_value : ℕ → (AstNode → Bool → AstNode) → Parse (Option AstNode)
parse_init_value f make =
    if_consume TokenKind.equal
      (if_consume TokenKind.dot_dot (pure (some (make AstNode.null true)))
        (do value ← parse_expression f; pure (some (make value false))))
      (pure (some (make AstNode.null false)))

unfoldable pub parse_statement_init : ℕ → AstNode → Parse (Option AstNode)
parse_statement_init f expression =
    if_consume TokenKind.colon_equal
      (elim (identifier_value expression) [
        | none ↦ declared (make_error ":= must be used on an identifier")
        | some name ↦ do
          l ← here
          value ← parse_expression f
          pure (some (AstNode.statement_init l name AstNode.null value false))
      ])
      (if_consume TokenKind.colon
        (elim (identifier_value expression) [
          | none ↦ declared (make_error ": must be used on an identifier")
          | some name ↦ do
            l ← here
            type ← parse_typedecl f
            parse_init_value f (AstNode.statement_init l name type)
        ])
        (pure none))

-- behind the condition of an `if`
unfoldable pub parse_if_branches : Parse AstNode → AstNode → AstNode → Parse AstNode
parse_if_branches block expression condition =
    expect TokenKind.close_paren "Expected ')' after 'if' condition" (do
      if_true ← block
      if_false ← if_consume TokenKind.kw_else block (pure AstNode.null)
      l ← here
      pure (AstNode.statement_if l expression condition if_true if_false))

unfoldable pub parse_statement_if : ℕ → Parse AstNode → Parse AstNode
parse_statement_if f block = expect TokenKind.open_paren "Expected '(' after 'if'" (do
  condition ← parse_expression f
  init ← parse_statement_init f condition
  elim init [
    | none ↦ parse_if_branches block AstNode.null condition
    | some expression ↦ do
      condition ← if_consume TokenKind.semicolon (parse_expression f) (pure AstNode.null)
      parse_if_branches block expression condition
  ])

unfoldable pub parse_statement_while : ℕ → Parse AstNode → Parse AstNode
parse_statement_while f block = do
  l ← here
  condition ← parse_expression_paren f
  body ← block
  pure (AstNode.statement_while l condition body)

unfoldable pub parse_statement_do_while : ℕ → Parse AstNode → Parse AstNode
parse_statement_do_while f block = do
  body ← block
  expect TokenKind.kw_while "Expected 'while' after 'do'" (do
    condition ← parse_expression_paren f
    expect TokenKind.semicolon "Expected ';' after 'while' condition"
        (do l ← here; pure (AstNode.statement_do_while l condition body)))

unfoldable pub parse_statement_simple : ℕ → Parse AstNode
parse_statement_simple f = do
  expression ← parse_expression f
  init ← parse_statement_init f expression
  elim init [
    | some statement ↦ pure statement
    | none ↦ do
      t ← current_token
      elim (parser_is_assign t.kind) [
        | true ↦ (do
          assign ← parser_advance
          l ← here
          value ← parse_expression f
          pure (AstNode.statement_assign l assign.kind expression value))
        | false ↦ (do l ← here; pure (AstNode.statement_expression l expression))
      ]
  ]

abbrev pub is_init : AstNode → Bool
is_init (AstNode.statement_init l name type value is_nothing) = true
is_init _ = false

-- behind the `)` of a `for`
unfoldable pub parse_for_body : Parse AstNode → AstNode → AstNode → AstNode → Parse AstNode
parse_for_body block initializer condition increment = do
  l ← here
  body ← block
  pure (AstNode.statement_for l initializer condition increment body)

unfoldable pub parse_for_end : Parse AstNode → AstNode → AstNode → AstNode → Parse AstNode
parse_for_end block initializer condition increment =
    expect TokenKind.close_paren "Expected ')' after 'for' condition"
      (parse_for_body block initializer condition increment)

-- behind the initializer of a `for`
unfoldable pub parse_for_rest : ℕ → Parse AstNode → AstNode → Parse AstNode
parse_for_rest f block initializer =
    if_consume TokenKind.semicolon
      (do
        condition ← if_check TokenKind.semicolon (pure AstNode.null) (parse_expression f)
        if_consume TokenKind.semicolon
            (if_check TokenKind.close_paren (parse_for_end block initializer condition AstNode.null)
              (do
                increment ← parse_statement_simple f
                elim (is_init increment) [
                  | true ↦ make_error "Initializers are not allowed in for's increment"
                  | false ↦ parse_for_end block initializer condition increment
                ]))
            (parse_for_end block initializer condition AstNode.null))
      (parse_for_end block initializer AstNode.null AstNode.null)

unfoldable pub parse_statement_for : ℕ → Parse AstNode → Parse AstNode
parse_statement_for f block =
    if_check TokenKind.open_brace (parse_for_body block AstNode.null AstNode.null AstNode.null) (
      expect TokenKind.open_paren "Expected '(' after 'for'" (do
        initializer ← if_check TokenKind.semicolon (pure AstNode.null) (parse_statement_simple f)
        parse_for_rest f block initializer))

unfoldable pub parse_statement_break_continue : TokenKind → Parse AstNode
parse_statement_break_continue kind = do
  l ← here
  expect TokenKind.semicolon
      (elim (same_kind kind TokenKind.kw_break) [
        | true ↦ "Expected ';' after 'break'"
        | false ↦ "Expected ';' after 'continue'"
      ])
      (pure (elim (same_kind kind TokenKind.kw_break) [
        | true ↦ AstNode.statement_break l
        | false ↦ AstNode.statement_continue l
      ]))

-- The `;` of an empty `return` is not consumed.
unfoldable pub parse_statement_return : ℕ → Parse AstNode
parse_statement_return f = do
  l ← here
  if_check TokenKind.semicolon (pure (AstNode.statement_return l AstNode.null)) (do
    value ← parse_expression f
    expect TokenKind.semicolon "Expected ';' after 'return'"
        (pure (AstNode.statement_return l value)))
