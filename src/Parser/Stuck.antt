-- ===== src/Parser/Stuck.antt =====
-- Where the parser of source/parser.c never ends.
use atcc.Prelude.{ℕ, zero, suc, ◌≡◌, Option, some, List, ◌∷◌, refl}
use atcc.Ast.{AstNode}
use atcc.Parser.Blocks.{parse_until, is_block_end, parse_statement, parse_statement_block}
use atcc.Parser.Expressions.{parse_expression, parse_typedecl}
use atcc.Parser.Marks.{mark, at, at_least}
use atcc.Parser.Statements.{parse_statement_simple, parse_statement_init}
use atcc.Parser.{
  Outcome, pure, then, no_fuel, ◌>>=◌, current_token, parser_advance, parser_check, parser_consume,
  here, make_error, if_consume, if_check, expect,
}
use atcc.Tokens.{TokenKind, Location, Token}

-- The parser of a type in parentheses never ends: it looks at the `(` again and again, and no fuel is
-- enough.
pub parse_typedecl-paren :
    (f : ℕ) (l : Location) (ts : List Token) (r : Option Token)
    → parse_typedecl f (at (mark TokenKind.open_paren l ∷ ts) r) ≡ Outcome.out_of_fuel
unfolding parse_typedecl no_fuel if_check parser_check parser_consume current_token ◌>>=◌ then pure
parse_typedecl-paren zero l ts r = refl
parse_typedecl-paren (suc zero) l ts r = refl
parse_typedecl-paren (suc (suc f)) l ts r = rw (parse_typedecl-paren f l ts r) refl

statement-stays :
    (f : ℕ) (l : Location) (ts : List Token) (r : Option Token)
    → parse_statement (at_least 12 f) (at (mark TokenKind.close_paren l ∷ ts) r)
      ≡ Outcome.done
          (AstNode.error l "Expected ';' after statement")
          (at (mark TokenKind.close_paren l ∷ ts) r)
unfolding parse_statement parse_statement_simple parse_statement_init parse_expression no_fuel
    make_error here expect if_consume if_check parser_check parser_consume parser_advance
    current_token ◌>>=◌ then pure
statement-stays f l ts r = refl

until-stuck :
    (f g : ℕ) (l : Location) (ts : List Token) (r : Option Token)
    → parse_until g is_block_end
        (parse_statement (at_least 12 f))
        (at (mark TokenKind.close_paren l ∷ ts) r)
      ≡ Outcome.out_of_fuel
unfolding parse_until no_fuel current_token ◌>>=◌ then
until-stuck f zero l ts r = refl
until-stuck f (suc g) l ts r = rw (statement-stays f l ts r, until-stuck f g l ts r) refl

-- The parser of a block that begins with `)` never ends: the statement fails without passing a token,
-- and no fuel is enough.
pub parse_statement_block-stuck :
    (f : ℕ) (k l : Location) (ts : List Token) (r : Option Token)
    → parse_statement_block
        (at_least 13 f)
        (at (mark TokenKind.open_brace k ∷ mark TokenKind.close_paren l ∷ ts) r)
      ≡ Outcome.out_of_fuel
unfolding parse_statement if_consume here parser_check parser_consume parser_advance current_token
    ◌>>=◌ then pure
parse_statement_block-stuck f k l ts r =
    rw (until-stuck f (at_least 12 f) l ts (some (mark TokenKind.open_brace k))) refl
