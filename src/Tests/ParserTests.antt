-- ===== src/Tests/ParserTests.antt =====
-- Runs of source/parser.c, and its theorems at examples.
use Prim.Native.Char.{code}
use Prim.Native.String.{String}
use atcc.Prelude.{ℕ, ◌≡◌, refl, some, none, List, [], ◌∷◌}
use atcc.Ast.{AstNode, AstNodes}
use atcc.Ati.Strings.{Bytes, string_match}
use atcc.Lexer.Tokenize.{lexer_tokenize}
use atcc.Lexer.{lexer_peek, lexer_build_identifier, lexer_read}
use atcc.Parser.Blocks.{parse_until, parse_statement_block}
use atcc.Parser.Statements.{parse_statement_return, parse_statement_simple, parse_statement_init}
use atcc.Parser.Enums.{Item, constants, HasBase, body_tokens, parse_declaration_enum-constants}
use atcc.Parser.Expressions.{parse_expression, parse_typedecl}
use atcc.Parser.Declarations.{
  parse_aggregate_item, parse_declaration_alias, parse_declaration_variable, parse_variable_value,
}
use atcc.Parser.Grammar.{
  Spells, SpellsBinary, plain, binary, below, operand, base, name, is_minus, is_star,
}
use atcc.Parser.RoundTrip.{parse_expression-spelled}
use atcc.Parser.Yields.{Yields}
use atcc.Parser.Marks.{mark, word, at}
use atcc.Parser.Program.{
  parse_declaration_enum, parse_declaration, parse_declarations, add_declaration, parse_program,
}
use atcc.Parser.Reads.{Ensures}
use atcc.Parser.Safe.Program.{IsNamed, PassedTo}
use atcc.Parser.Safe.Source.{parse_program-tokenize}
use atcc.Parser.Stuck.{parse_typedecl-paren, parse_statement_block-stuck}
use atcc.Parser.{
  Outcome, crash, ◌>>=◌, then, pure, no_fuel, current_token, parser_advance, parser_check,
  parser_consume, here, make_error, if_consume, if_check, expect, expect_value, declared,
}
use atcc.Tokens.{TokenKind, Location, Token}

abbrev codes : String → Bytes
codes String.[] = []
codes (String.◌∷◌ c s) = code c ∷ codes s

runs : Unit {0}
unfolding parse_expression parse_program parse_statement_block parse_until parse_statement_return
    parse_statement_simple parse_statement_init parse_declarations parse_declaration
    parse_declaration_alias parse_declaration_variable parse_variable_value add_declaration ◌>>=◌
    then pure no_fuel current_token parser_advance parser_check parser_consume here make_error
    if_consume if_check expect expect_value declared lexer_tokenize lexer_peek
    lexer_build_identifier lexer_read string_match
runs = tt

abbrev p : Location
p = record { file = []; line = 1; column = 1 }

abbrev q : Location
q = record { file = []; line = 1; column = 2 }

abbrev named : String → Token
named s = word (codes s) p

abbrev m : TokenKind → Token
m kind = mark kind p

abbrev id : String → AstNode
id s = AstNode.identifier p (codes s)

abbrev op : TokenKind → AstNode → AstNode → AstNode
op = AstNode.binary p

-- `a - b * c - d;`
parses_operators :
    parse_expression 20 (
      at
        (named "a"
          ∷ m TokenKind.minus
          ∷ named "b"
          ∷ m TokenKind.star
          ∷ named "c"
          ∷ m TokenKind.minus
          ∷ named "d"
          ∷ m TokenKind.semicolon
          ∷ [])
        none)
    ≡ Outcome.done
        (op TokenKind.minus
          (op TokenKind.minus (id "a") (op TokenKind.star (id "b") (id "c")))
          (id "d"))
        (at (m TokenKind.semicolon ∷ []) (some (named "d")))
unfolding runs
parses_operators = refl

-- `f(x).y[z] ? -u : v`
parses_postfix :
    parse_expression 30 (
      at
        (named "f"
          ∷ m TokenKind.open_paren
          ∷ named "x"
          ∷ m TokenKind.close_paren
          ∷ m TokenKind.dot
          ∷ named "y"
          ∷ m TokenKind.open_bracket
          ∷ named "z"
          ∷ m TokenKind.close_bracket
          ∷ m TokenKind.question
          ∷ m TokenKind.minus
          ∷ named "u"
          ∷ m TokenKind.colon
          ∷ named "v"
          ∷ m TokenKind.eof
          ∷ [])
        none)
    ≡ Outcome.done
        (AstNode.ternary p
          (AstNode.index p
            (AstNode.field p
              (AstNode.call p (id "f") (AstNodes.and_node (id "x") AstNodes.no_nodes))
              (codes "y"))
            (id "z"))
          (AstNode.unary p TokenKind.minus (id "u"))
          (id "v"))
        (at (m TokenKind.eof ∷ []) (some (named "v")))
unfolding runs
parses_postfix = refl

-- `alias` before the `eof` is passed with the `eof`.
overruns_alias : parse_program 9 (m TokenKind.kw_alias ∷ m TokenKind.eof ∷ []) ≡ Outcome.overrun
unfolding runs
overruns_alias = refl

-- The `;` of an empty `return` is left, so that the block has an erroneous statement behind it.
parses_return :
    parse_statement_block 20 (
      at
        (m TokenKind.open_brace
          ∷ m TokenKind.kw_return
          ∷ m TokenKind.semicolon
          ∷ m TokenKind.close_brace
          ∷ m TokenKind.eof
          ∷ [])
        none)
    ≡ Outcome.done
        (AstNode.statement_block p (
          AstNodes.and_node (AstNode.statement_return p AstNode.null) (
            AstNodes.and_node
              (AstNode.statement_expression p (AstNode.error p "Unexpected token"))
              AstNodes.no_nodes)))
        (at (m TokenKind.eof ∷ []) (some (m TokenKind.close_brace)))
unfolding runs
parses_return = refl

abbrev source : Bytes
source = codes "var a;"

abbrev column : ℕ → Location
column n = record { file = []; line = 1; column = n }

abbrev tokens : List Token
tokens =
    record { kind = TokenKind.kw_var; flags = 0; location = column 1; value = codes "var" }
    ∷ word (codes "a") (column 5)
    ∷ mark TokenKind.semicolon (column 6)
    ∷ mark TokenKind.eof (column 7)
    ∷ []

lexes : lexer_tokenize [] source ≡ some tokens
unfolding runs
lexes = refl

parse_program-tokenize_example : Ensures (PassedTo tokens) (parse_program 30 tokens)
parse_program-tokenize_example = parse_program-tokenize 30 [] source tokens lexes (
    IsNamed.no_alias refl
      (IsNamed.no_alias refl (IsNamed.no_alias refl (IsNamed.no_alias refl IsNamed.no_more))))

abbrev colours : List Item
colours =
    record { name = codes "red"; place = p; semicolon = q }
    ∷ record { name = codes "green"; place = p; semicolon = p }
    ∷ []

abbrev colours_body : List Token
colours_body = body_tokens colours p (mark TokenKind.eof q ∷ [])

-- `: u8`
colours-HasBase :
    HasBase 20
      (mark TokenKind.open_brace q)
      colours_body
      (mark TokenKind.colon p ∷ named "u8" ∷ mark TokenKind.open_brace q ∷ colours_body)
      p
      (AstNode.type_name q (codes "u8"))
unfolding runs parse_typedecl
colours-HasBase = HasBase.base refl

parse_declaration_enum-constants_example :
    parse_declaration_enum 20 (
      at
        (word (codes "c") p
          ∷ mark TokenKind.colon p
          ∷ named "u8"
          ∷ mark TokenKind.open_brace q
          ∷ colours_body)
        none)
    ≡ Outcome.done
        (AstNode.enum_placeholder q
          (AstNode.alias p (codes "c") (AstNode.type_name q (codes "u8")))
          (constants p (codes "c") none colours))
        (at (mark TokenKind.eof q ∷ []) (some (mark TokenKind.close_brace p)))
parse_declaration_enum-constants_example =
    parse_declaration_enum-constants colours 17 (codes "c") p q p p
      (AstNode.type_name q (codes "u8"))
      (mark TokenKind.colon p ∷ named "u8" ∷ mark TokenKind.open_brace q ∷ colours_body)
      (mark TokenKind.eof q) [] none colours-HasBase

parse_statement_block-stuck_example :
    parse_statement_block 113
      (at (mark TokenKind.open_brace p ∷ mark TokenKind.close_paren q ∷ []) none)
    ≡ Outcome.out_of_fuel
parse_statement_block-stuck_example = parse_statement_block-stuck 100 p q [] none

parse_typedecl-paren_example :
    parse_typedecl 100 (at (mark TokenKind.open_paren p ∷ m TokenKind.eof ∷ []) none)
    ≡ Outcome.out_of_fuel
parse_typedecl-paren_example = parse_typedecl-paren 100 p (m TokenKind.eof ∷ []) none

crashes_on_parameter :
    parse_typedecl 20 (
      at
        (mark TokenKind.kw_fun p ∷ mark TokenKind.open_paren q ∷ named "x" ∷ m TokenKind.eof ∷ [])
        none)
    ≡ Outcome.crashed
unfolding runs parse_typedecl crash
crashes_on_parameter = refl

crashes_on_nested :
    parse_aggregate_item 20 (at (mark TokenKind.kw_union p ∷ m TokenKind.open_brace ∷ []) none)
    ≡ Outcome.crashed
unfolding runs parse_aggregate_item crash
crashes_on_nested = refl

-- `a - b * c ;`
abbrev difference : List Token
difference =
    named "a"
    ∷ m TokenKind.minus
    ∷ named "b"
    ∷ m TokenKind.star
    ∷ named "c"
    ∷ m TokenKind.semicolon
    ∷ []

abbrev product : List Token
product = named "b" ∷ m TokenKind.star ∷ named "c" ∷ m TokenKind.semicolon ∷ []

product-Spells :
    SpellsBinary 1 (op TokenKind.star (id "b") (id "c")) product (m TokenKind.semicolon ∷ [])
product-Spells = binary is_star (below (operand (base (name refl)))) (operand (base (name refl)))

difference-Spells :
    Spells
      (op TokenKind.minus (id "a") (op TokenKind.star (id "b") (id "c")))
      difference
      (m TokenKind.semicolon ∷ [])
difference-Spells = plain (
    below
      (below (below (binary is_minus (below (below (operand (base (name refl))))) product-Spells))))

parse_expression-spelled_example :
    Yields parse_expression difference
      (op TokenKind.minus (id "a") (op TokenKind.star (id "b") (id "c")))
      (m TokenKind.semicolon ∷ [])
parse_expression-spelled_example =
    parse_expression-spelled _ difference [] (m TokenKind.semicolon) difference-Spells refl refl
