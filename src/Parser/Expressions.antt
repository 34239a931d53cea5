-- ===== src/Parser/Expressions.antt =====
-- Expressions and types of source/parser.c, which call one another. The five functions from
-- `parse_expression_mul` to `parse_expression_or` differ in their operators only: they are levels 1 to 5
-- of `parse_binary`, with `parse_expression_unary` below them as level 0.
use Prim.Native.String.{String}
use atcc.Prelude.{ℕ, zero, suc, Bool, true, false, ◌||◌, Option, none, some, List}
use atcc.Ast.{AstNode, AstNodes}
use atcc.Parser.Kinds.{parser_is_unary, is_level}
use atcc.Parser.{
  Parse, pure, no_fuel, ◌>>=◌, crash, current_token, parser_advance, parser_consume, here,
  make_error, if_consume, if_check, expect, expect_value,
}
use atcc.Tokens.Ordinals.{same_kind}
use atcc.Tokens.{TokenKind, Location, Token}

-- the node that `node_kind` stands for
abbrev pub literal : Location → Token → AstNode
literal l t = elim (same_kind t.kind TokenKind.number) [
  | true ↦ AstNode.literal_number l t.value t.flags
  | false ↦ elim (same_kind t.kind TokenKind.string) [
    | true ↦ AstNode.literal_string l t.value t.flags
    | false ↦ AstNode.literal_char l t.value t.flags
  ]
]

abbrev pub is_literal : TokenKind → Bool
is_literal kind =
    same_kind kind TokenKind.number
    || (same_kind kind TokenKind.string || same_kind kind TokenKind.char)

-- the name in an identifier node, which is `node->value`
abbrev pub identifier_value : AstNode → Option (List ℕ)
identifier_value (AstNode.identifier l name) = some name
identifier_value _ = none

unfoldable mutual
  pub parse_expression_compound_field : ℕ → Parse AstNode
  parse_expression_compound_field zero = no_fuel
  parse_expression_compound_field (suc f) =
      if_consume TokenKind.open_bracket
        (do
          compound_index ← parse_expression f
          expect TokenKind.close_bracket "Expected ']'" (
              expect TokenKind.equal "Expected '='" (do
                l ← here
                target ← parse_expression f
                pure (AstNode.compound_field_index l compound_index target))))
        (do
          target_or_init ← parse_expression f
          if_consume TokenKind.equal
              (elim (identifier_value target_or_init) [
                | none ↦ make_error "Expected identifier for compound field assignment"
                | some name ↦ do
                  l ← here
                  target ← parse_expression f
                  pure (AstNode.compound_field_name l name target)
              ])
              (do l ← here; pure (AstNode.compound_field l target_or_init)))

  -- the loop of `parse_expression_compound`
  pub compound_fields : ℕ → Parse AstNodes
  compound_fields zero = no_fuel
  compound_fields (suc f) = if_check TokenKind.close_brace (pure AstNodes.no_nodes) (do
    field ← parse_expression_compound_field f
    rest ← if_consume TokenKind.comma (compound_fields f) (pure AstNodes.no_nodes)
    pure (AstNodes.and_node field rest))

  pub parse_expression_compound : ℕ → AstNode → Parse AstNode
  parse_expression_compound zero type = no_fuel
  parse_expression_compound (suc f) type =
      expect TokenKind.open_brace "Expected '{' in compound expression" (do
        fields ← compound_fields f
        expect TokenKind.close_brace "Expected '}' after compound expression"
            (do l ← here; pure (AstNode.compound l type fields)))

  -- `(` and what follows it: a typed compound, or an expression
  pub parse_operand_paren : ℕ → Parse AstNode
  parse_operand_paren zero = no_fuel
  parse_operand_paren (suc f) =
      if_consume TokenKind.colon
        (do
          type ← parse_typedecl f
          expect TokenKind.close_paren "Expected ')'"
              (expect TokenKind.open_brace "Expected '{'" (parse_expression_compound f type)))
        (do
          l ← here
          parent ← parse_expression f
          expect TokenKind.close_paren "Expected ')' after expression"
              (pure (AstNode.paren l parent)))

  -- the type in the parentheses behind `sizeof` and `alignof`
  pub parse_operand_type : ℕ → String → String → (Location → AstNode → AstNode) → Parse AstNode
  parse_operand_type zero before after make = no_fuel
  parse_operand_type (suc f) before after make = expect TokenKind.open_paren before (do
    type ← parse_typedecl f
    expect TokenKind.close_paren after (do l ← here; pure (make l type)))

  pub parse_operand_offsetof : ℕ → Parse AstNode
  parse_operand_offsetof zero = no_fuel
  parse_operand_offsetof (suc f) = expect TokenKind.open_paren "Expected '(' after 'offsetof'" (do
    type ← parse_typedecl f
    expect TokenKind.comma "Expected ',' after 'offsetof' type" (
        expect_value TokenKind.identifier "Expected identifier after 'offsetof' type" (λ name.
          expect TokenKind.close_paren "Expected ')' after 'offsetof'"
            (do l ← here; pure (AstNode.offsetof l type name)))))

  pub parse_operand_cast : ℕ → Parse AstNode
  parse_operand_cast zero = no_fuel
  parse_operand_cast (suc f) = expect TokenKind.open_paren "Expected '(' after 'cast'" (do
    type ← parse_typedecl f
    expect TokenKind.close_paren "Expected ')' after 'cast'"
        (do l ← here; target ← parse_expression_unary f; pure (AstNode.cast l type target)))

  pub parse_operand_identifier : ℕ → Token → Parse AstNode
  parse_operand_identifier zero t = no_fuel
  parse_operand_identifier (suc f) t = do
    l ← here
    if_check TokenKind.open_brace (parse_expression_compound f (AstNode.type_name l t.value))
        (pure (AstNode.identifier l t.value))

  pub parse_expression_operand : ℕ → Parse AstNode
  parse_expression_operand zero = no_fuel
  parse_expression_operand (suc f) = do
    t ← current_token
    elim (is_literal t.kind) [
      | true ↦ (do token ← parser_advance; l ← here; pure (literal l token))
      | false ↦
          if_check TokenKind.identifier
            (do token ← parser_advance; parse_operand_identifier f token)
            (if_consume TokenKind.kw_sizeof
              (parse_operand_type f "Expected '(' after 'sizeof'" "Expected ')' after 'sizeof'"
                AstNode.sizeof)
              (if_consume TokenKind.kw_alignof
                (parse_operand_type f "Expected '(' after 'alignof'" "Expected ')' after 'alignof'"
                  AstNode.alignof)
                (if_consume TokenKind.kw_offsetof (parse_operand_offsetof f) (
                  if_check TokenKind.open_brace (parse_expression_compound f AstNode.null) (
                    if_consume TokenKind.open_paren (parse_operand_paren f) (
                      if_consume TokenKind.kw_cast (parse_operand_cast f)
                        (make_error "Unexpected token")))))))
    ]

  -- the arguments of a call
  pub call_arguments : ℕ → Parse AstNodes
  call_arguments zero = no_fuel
  call_arguments (suc f) = do
    argument ← parse_expression f
    rest ← if_consume TokenKind.comma (call_arguments f) (pure AstNodes.no_nodes)
    pure (AstNodes.and_node argument rest)

  -- the loop of `parse_expression_base`
  pub postfix_from : ℕ → AstNode → Parse AstNode
  postfix_from zero node = no_fuel
  postfix_from (suc f) node =
      if_consume TokenKind.open_paren
        (do
          arguments ← if_check TokenKind.close_paren (pure AstNodes.no_nodes) (call_arguments f)
          expect TokenKind.close_paren "Expected ')' after function call."
              (do l ← here; postfix_from f (AstNode.call l node arguments)))
        (if_consume TokenKind.open_bracket
          (do
            index ← parse_expression f
            expect TokenKind.close_bracket "Expected ']' after array index."
                (do l ← here; postfix_from f (AstNode.index l node index)))
          (if_consume TokenKind.dot
            (expect_value TokenKind.identifier "Expected identifier after '.'"
              (λ name. do l ← here; postfix_from f (AstNode.field l node name)))
            (pure node)))

  pub parse_expression_base : ℕ → Parse AstNode
  parse_expression_base zero = no_fuel
  parse_expression_base (suc f) = do node ← parse_expression_operand f; postfix_from f node

  pub parse_expression_unary : ℕ → Parse AstNode
  parse_expression_unary zero = no_fuel
  parse_expression_unary (suc f) = do
    t ← current_token
    elim (parser_is_unary t.kind) [
      | true ↦ (do
        l ← here
        operator ← parser_advance
        target ← parse_expression_unary f
        pure (AstNode.unary l operator.kind target))
      | false ↦ parse_expression_base f
    ]

  -- the loop of a level, whose operands are of the level below
  pub binary_from : ℕ → ℕ → AstNode → Parse AstNode
  binary_from zero below node = no_fuel
  binary_from (suc f) below node = do
    t ← current_token
    elim (is_level (suc below) t.kind) [
      | true ↦ (do
        operator ← parser_advance
        l ← here
        right ← parse_binary f below
        binary_from f below (AstNode.binary l operator.kind node right))
      | false ↦ pure node
    ]

  pub parse_binary : ℕ → ℕ → Parse AstNode
  parse_binary zero level = no_fuel
  parse_binary (suc f) zero = parse_expression_unary f
  parse_binary (suc f) (suc below) = do node ← parse_binary f below; binary_from f below node

  pub parse_expression : ℕ → Parse AstNode
  parse_expression zero = no_fuel
  parse_expression (suc f) = do
    node ← parse_binary f 5
    if_consume TokenKind.question
        (do
          ternary_true ← parse_expression f
          expect TokenKind.colon "Expected ':' after ternary expression" (do
            ternary_false ← parse_expression f
            l ← here
            pure (AstNode.ternary l node ternary_true ternary_false)))
        (pure node)

  -- A parameter is pushed on a null vector.
  pub parse_typedecl_function : ℕ → Parse AstNode
  parse_typedecl_function zero = no_fuel
  parse_typedecl_function (suc f) =
      if_consume TokenKind.kw_fun
        (expect TokenKind.open_paren "Expected '(' after 'fun'." (
          if_check TokenKind.close_paren
            (expect TokenKind.close_paren "Expected ')' after function parameters." (do
              result ← if_check TokenKind.colon (parse_typedecl f) (pure AstNode.null)
              l ← here
              pure (AstNode.type_function l AstNodes.no_nodes result false)))
            crash))
        (pure AstNode.null)

  pub parse_typedecl_base : ℕ → Parse AstNode
  parse_typedecl_base zero = no_fuel
  parse_typedecl_base (suc f) = if_check TokenKind.kw_fun (parse_typedecl_function f) (do
    t ← parser_consume TokenKind.identifier
    elim t [
      | some t ↦ (do l ← here; pure (AstNode.type_name l t.value))
      | none ↦
          if_check TokenKind.open_paren
            (do
              unwrapped ← parse_typedecl f
              expect TokenKind.close_paren "Expected ')' after type declaration." (pure unwrapped))
            (make_error "Unexpected token in type declaration.")
    ])

  -- the loop of `parse_typedecl`
  pub typedecl_from : ℕ → AstNode → Parse AstNode
  typedecl_from zero typedecl = no_fuel
  typedecl_from (suc f) typedecl =
      if_consume TokenKind.open_bracket
        (if_consume TokenKind.star (array_from f typedecl AstNode.null true) (
          if_check TokenKind.close_bracket (array_from f typedecl AstNode.null false)
            (do size ← parse_expression f; array_from f typedecl size false)))
        (if_consume TokenKind.star (do l ← here; typedecl_from f (AstNode.type_pointer l typedecl))
          (pure typedecl))

  -- behind the size of an array
  pub array_from : ℕ → AstNode → AstNode → Bool → Parse AstNode
  array_from zero base size is_dynamic = no_fuel
  array_from (suc f) base size is_dynamic =
      expect TokenKind.close_bracket "Expected ']' after array size in a type."
        (do l ← here; typedecl_from f (AstNode.type_array l base size is_dynamic))

  pub parse_typedecl : ℕ → Parse AstNode
  parse_typedecl zero = no_fuel
  parse_typedecl (suc f) = do typedecl ← parse_typedecl_base f; typedecl_from f typedecl
