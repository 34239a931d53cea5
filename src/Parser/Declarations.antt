-- ===== src/Parser/Declarations.antt =====
-- Declarations of source/parser.c, and the program.
use atcc.Prelude.{ℕ, zero, suc, Bool, true, false, Option, none, some, List, [], ◌∷◌, ◌++◌}
use atcc.Ati.Strings.{Bytes}
use atcc.Ast.{AstNode, AstNodes, ◌+++◌}
use atcc.Parser.Blocks.{parse_statement_block, parse_until, is_block_end}
use atcc.Parser.Expressions.{parse_expression, parse_typedecl}
use atcc.Parser.{
  Parse, pure, no_fuel, ◌>>=◌, crash, parser_consume, here, make_error, if_consume, if_check,
  expect, expect_value, declared,
}
use atcc.Tokens.Ordinals.{same_kind}
use atcc.Tokens.{TokenKind}

-- behind the name of an alias
unfoldable pub parse_alias_type : ℕ → Bytes → Parse AstNode
parse_alias_type f name = expect TokenKind.equal "Expected '=' after 'alias name'." (do
  l ← here
  type ← parse_typedecl f
  expect TokenKind.semicolon "Expected ';' after 'alias'." (pure (AstNode.alias l name type)))

unfoldable pub parse_declaration_alias : ℕ → Parse (Option AstNode)
parse_declaration_alias f = do
  new_name ← parser_consume TokenKind.identifier
  elim new_name [ none ↦ pure none | some name ↦ declared (parse_alias_type f name.value) ]

-- the names of a field, and the rest of it
unfoldable pub parse_field_names : ℕ → (List Bytes → Parse AstNode) → List Bytes → Parse AstNode
parse_field_names zero rest names = no_fuel
parse_field_names (suc f) rest names =
    expect_value TokenKind.identifier "Expected an identifier as a field name." (λ name.
      if_consume TokenKind.comma (parse_field_names f rest (names ++ (name ∷ [])))
        (rest (names ++ (name ∷ []))))

-- A nested struct or union is pushed on a null vector, which the push reads before it is parsed.
unfoldable pub parse_aggregate_item : ℕ → Parse AstNode
parse_aggregate_item f =
    if_consume TokenKind.kw_struct (do l ← here; crash)
      (if_consume TokenKind.kw_union (do l ← here; crash)
        (do
          l ← here
          parse_field_names f
              (λ names. expect TokenKind.colon "Expected ':' after field names." (do
                type ← parse_typedecl f
                expect TokenKind.semicolon "Expected ';' after field type."
                    (pure (AstNode.aggregate_field l names type))))
              []))

unfoldable pub parse_aggregate : ℕ → TokenKind → Parse AstNode
parse_aggregate f kind = expect TokenKind.open_brace "Expected '{' after aggregate." (do
  l ← here
  items ← parse_until f is_block_end (parse_aggregate_item f)
  expect TokenKind.close_brace "Expected '}' after aggregate."
      (pure (AstNode.aggregate_child l kind items)))

unfoldable pub parse_declaration_aggregate : ℕ → TokenKind → Parse AstNode
parse_declaration_aggregate f kind =
    expect_value TokenKind.identifier "Expected identifier after 'struct' or 'union'." (λ name. do
      l ← here
      aggregate ← parse_aggregate f kind
      pure (AstNode.aggregate l name aggregate))

-- the type and the initializer of a variable
unfoldable pub parse_variable_value : ℕ → (AstNode → AstNode → AstNode) → Parse AstNode
parse_variable_value f make =
    if_consume TokenKind.colon_equal (do value ← parse_expression f; pure (make AstNode.null value))
      (if_consume TokenKind.colon
        (do
          type ← parse_typedecl f
          value ← if_consume TokenKind.equal (parse_expression f) (pure AstNode.null)
          pure (make type value))
        (pure (make AstNode.null AstNode.null)))

unfoldable pub parse_declaration_variable : ℕ → TokenKind → Parse AstNode
parse_declaration_variable f variable_kind = do
  l ← here
  expect_value TokenKind.identifier "Expected identifier after 'var' or 'const'." (λ name. do
    node ← parse_variable_value f (λ type value.
        AstNode.variable l name type value (same_kind variable_kind TokenKind.kw_const))
    expect TokenKind.semicolon "Expected ';' after 'var' or 'const' declaration." (pure node))

unfoldable pub parse_declaration_function_parameter : ℕ → Parse AstNode
parse_declaration_function_parameter f = do
  l ← here
  expect_value TokenKind.identifier "Expected identifier for 'function parameter'." (λ name.
      expect TokenKind.colon "Expected ':' after 'function parameter'."
        (do type ← parse_typedecl f; pure (AstNode.function_parameter l name type)))

-- the parameters behind the first one, and the rest of the function
unfoldable pub parse_more_parameters :
    ℕ → (AstNodes → Bool → Parse AstNode) → AstNodes → Bool → Parse AstNode
parse_more_parameters zero rest parameters is_variadic = no_fuel
parse_more_parameters (suc f) rest parameters is_variadic =
    if_consume TokenKind.comma
      (if_consume TokenKind.dot_dot
        (elim is_variadic [
          | true ↦ make_error "Variadic parameter can only be declared once."
          | false ↦ parse_more_parameters f rest parameters true
        ])
        (elim is_variadic [
          | true ↦ make_error "Variadic parameter must be the last parameter."
          | false ↦ do
            parameter ← parse_declaration_function_parameter f
            parse_more_parameters f rest
                (parameters +++ AstNodes.and_node parameter AstNodes.no_nodes) false
        ]))
      (rest parameters is_variadic)

-- behind the parameters of a function
unfoldable pub parse_function_rest : ℕ → Bytes → AstNodes → Bool → Parse AstNode
parse_function_rest f name parameters is_variadic =
    expect TokenKind.close_paren "Expected ')' after function parameters." (do
      result ← if_consume TokenKind.colon (parse_typedecl f) (pure AstNode.null)
      l ← here
      body ← if_consume TokenKind.semicolon (pure AstNode.null) (parse_statement_block f)
      pure (AstNode.function l name parameters result body is_variadic))

-- behind the name of a function
unfoldable pub parse_function_parameters : ℕ → Bytes → Parse AstNode
parse_function_parameters f name = expect TokenKind.open_paren "Expected '(' after function name." (
    if_check TokenKind.close_paren (parse_function_rest f name AstNodes.no_nodes false) (do
      parameter ← parse_declaration_function_parameter f
      parse_more_parameters f (parse_function_rest f name)
          (AstNodes.and_node parameter AstNodes.no_nodes) false))

unfoldable pub parse_declaration_function : ℕ → Parse AstNode
parse_declaration_function f = do
  name ← parser_consume TokenKind.identifier
  elim name [
    | some name ↦ parse_function_parameters f name.value
    | none ↦
        expect_value TokenKind.string "Expected identifier or string after 'fun'."
          (parse_function_parameters f)
  ]
