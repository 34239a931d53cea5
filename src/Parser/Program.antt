-- ===== src/Parser/Program.antt =====
-- Enums, declarations and the program, of source/parser.c. The messages that `parse_program` prints are
-- left out.
use atcc.Prelude.{ℕ, zero, suc, Option, none, some, List, [], ◌∷◌, true, false}
use atcc.Ati.Strings.{Bytes}
use atcc.Ast.{AstNode, AstNodes, ◌+++◌}
use atcc.Parser.Blocks.{is_block_end}
use atcc.Parser.Declarations.{
  parse_declaration_alias, parse_declaration_aggregate, parse_declaration_variable,
  parse_declaration_function,
}
use atcc.Parser.Expressions.{parse_expression, parse_typedecl}
use atcc.Parser.{
  Outcome, Parse, pure, no_fuel, ◌>>=◌, current_token, parser_advance, here, if_consume, expect,
  expect_value, declared,
}
use atcc.Tokens.Ordinals.{same_kind}
use atcc.Tokens.{TokenKind, Location, Token}

-- the value of an item without `=`, behind the item of the name `previous`
unfoldable pub implicit_value : Location → Option Bytes → AstNode
implicit_value l none = AstNode.literal_number l (48 ∷ []) 0
implicit_value l (some previous) =
    AstNode.binary l TokenKind.plus (AstNode.identifier l previous)
      (AstNode.literal_number l (49 ∷ []) 0)

-- The loop of `parse_declaration_enum`, of the enum `alias_name` at `alias`. The rest of the enum takes
-- the items.
unfoldable pub parse_enum_items :
    ℕ → Location → Bytes → (AstNodes → Parse AstNode) → AstNodes → Option Bytes → Parse AstNode
parse_enum_items zero alias alias_name rest items previous = no_fuel
parse_enum_items (suc f) alias alias_name rest items previous = do
  t ← current_token
  elim (is_block_end t.kind) [
    | true ↦ rest items
    | false ↦ expect_value TokenKind.identifier "Expected identifier in 'enum'." (λ name. do
      l ← here
      value ← if_consume TokenKind.equal (parse_expression f) (pure (implicit_value l previous))
      expect TokenKind.semicolon "Expected ';' after 'enum' item." (
          parse_enum_items f alias alias_name rest
            (items
              +++ AstNodes.and_node
                  (AstNode.variable l name (AstNode.type_name alias alias_name) value true)
                  AstNodes.no_nodes)
            (some name)))
  ]

unfoldable pub parse_declaration_enum : ℕ → Parse AstNode
parse_declaration_enum f =
    expect_value TokenKind.identifier "Expected identifier after 'enum'." (λ name. do
      alias ← here
      type ← if_consume TokenKind.colon (parse_typedecl f) (pure AstNode.null)
      expect TokenKind.open_brace "Expected '{' after 'enum'." (
          parse_enum_items f alias name
            (λ items. expect TokenKind.close_brace "Expected '}' after 'enum'." (do
              l ← here
              pure (AstNode.enum_placeholder l (AstNode.alias alias name type) items)))
            AstNodes.no_nodes none))

unfoldable pub parse_declaration : ℕ → Parse (Option AstNode)
parse_declaration f = if_consume TokenKind.kw_alias (parse_declaration_alias f) (
    if_consume TokenKind.kw_struct (declared (parse_declaration_aggregate f TokenKind.kw_struct)) (
      if_consume TokenKind.kw_union (declared (parse_declaration_aggregate f TokenKind.kw_union)) (
        if_consume TokenKind.kw_var (declared (parse_declaration_variable f TokenKind.kw_var)) (
          if_consume TokenKind.kw_const (declared (parse_declaration_variable f TokenKind.kw_const))
            (if_consume TokenKind.kw_fun (declared (parse_declaration_function f))
              (if_consume TokenKind.kw_enum (declared (parse_declaration_enum f)) (pure none)))))))

-- the nodes that a declaration adds to the program
unfoldable pub program_nodes : AstNode → AstNodes
program_nodes (AstNode.error l message) = AstNodes.no_nodes
program_nodes (AstNode.enum_placeholder l enum_alias items) = AstNodes.and_node enum_alias items
program_nodes node = AstNodes.and_node node AstNodes.no_nodes

-- behind a declaration: a null one skips a token
unfoldable pub add_declaration : Parse AstNodes → Option AstNode → Parse AstNodes
add_declaration rest none = do skipped ← parser_advance; rest
add_declaration rest (some node) = do nodes ← rest; pure (program_nodes node +++ nodes)

-- the loop of `parse_program`
unfoldable pub parse_declarations : ℕ → Parse AstNodes
parse_declarations zero = no_fuel
parse_declarations (suc f) = do
  t ← current_token
  elim (same_kind t.kind TokenKind.eof) [
    | true ↦ pure AstNodes.no_nodes
    | false ↦ do
      declaration ← parse_declaration f
      add_declaration (parse_declarations f) declaration
  ]

unfoldable pub parse_program : ℕ → List Token → Outcome AstNode
parse_program f tokens =
    (do l ← here; declarations ← parse_declarations f; pure (AstNode.program l declarations))
      (record { current = tokens; previous = none })
