-- ===== src/Parser/RoundTrip.antt =====
-- The parser of source/parser.c reads what the grammar spells.
use atcc.Prelude.{ℕ, zero, suc, ◌≡◌, refl, false, List, ◌∷◌}
use atcc.Ast.{AstNode, AstNodes}
use atcc.Parser.Expressions.{
  parse_expression, parse_expression_base, parse_expression_unary, call_arguments, postfix_from,
  binary_from, parse_binary,
}
use atcc.Parser.Grammar.{
  Spells, SpellsBinary, SpellsUnary, SpellsBase, number, name, paren, index, field, call, call_none,
  last, more, SpellsArguments, unary, base, operand, below, binary, plain, ternary, continues,
}
use atcc.Parser.Follows.{
  level_stops, below_stops, operator_ends, is_level-IsOperator, parser_is_unary-IsPrefix,
}
use atcc.Parser.Yields.{Yields, stops-postfix, base-BeginsBase}
use atcc.Tokens.Ordinals.{same_kind}
use atcc.Tokens.{TokenKind, Token}
use atcc.Parser.Steps.{
  number_goes, name_goes, paren_goes, index_goes, field_goes, call_none_goes, call_goes, last_reads,
  more_reads, unary_goes, base_reads, below_goes, binary_goes, stops-binary, operand_reads,
  plain_reads, ternary_reads,
}

mutual
  base_goes :
      {a c : AstNode} {ts us vs : List Token}
      → SpellsBase a ts us
      → Yields (λ f. postfix_from f a) us c vs
      → Yields parse_expression_base ts c vs
  base_goes number y = number_goes y
  base_goes (name h) y = name_goes h y
  base_goes (paren h d) y = paren_goes h (expression_reads d refl refl) y
  base_goes (index {a = a} d g) y = base_goes d (index_goes a (expression_reads g refl refl) y)
  base_goes (field {a = a} d) y = base_goes d (field_goes a y)
  base_goes (call_none {a = a} d) y = base_goes d (call_none_goes a y)
  base_goes (call {a = a} d h g) y = base_goes d (call_goes a h (arguments_read g) y)

  arguments_read :
      {ns : AstNodes} {us vs : List Token}
      → SpellsArguments ns us vs
      → Yields call_arguments us ns vs
  arguments_read (last d) = last_reads (expression_reads d refl refl)
  arguments_read (more d g) = more_reads (expression_reads d refl refl) (arguments_read g)

  unary_reads :
      {n : AstNode} {ts us : List Token} {u : Token}
      → SpellsUnary n ts (u ∷ us)
      → continues 0 u.kind ≡ false
      → Yields parse_expression_unary ts n (u ∷ us)
  unary_reads (base {e = n} d) h =
      base_reads (base-BeginsBase d) (base_goes d (stops-postfix n _ _ h))
  unary_reads (unary g d) h = unary_goes (parser_is_unary-IsPrefix g) (unary_reads d h)

  -- the left of a level, and on to its loop
  left_goes :
      (m : ℕ) {a c : AstNode} {ts us vs : List Token} {u : Token}
      → SpellsBinary (suc m) a ts (u ∷ us)
      → continues m u.kind ≡ false
      → Yields (λ f. binary_from f m a) (u ∷ us) c vs
      → Yields (λ f. parse_binary f (suc m)) ts c vs
  left_goes m (below d) h y = below_goes m (binary_reads m d h) y
  left_goes m (binary {a = a} o d e) h y =
      left_goes m d (operator_ends o)
        (binary_goes m a (is_level-IsOperator o) (binary_reads m e h) y)

  binary_reads :
      (m : ℕ) {n : AstNode} {ts us : List Token} {u : Token}
      → SpellsBinary m n ts (u ∷ us)
      → continues m u.kind ≡ false
      → Yields (λ f. parse_binary f m) ts n (u ∷ us)
  binary_reads zero (operand d) h = operand_reads (unary_reads d h)
  binary_reads (suc m) {n = n} (below d) h =
      below_goes m (binary_reads m d (below_stops m _ h)) (stops-binary m n (level_stops m _ h))
  binary_reads (suc m) {n = n} (binary {a = a} o d e) h = left_goes m d (operator_ends o) (
      binary_goes m a (is_level-IsOperator o) (binary_reads m e (below_stops m _ h))
        (stops-binary m n (level_stops m _ h)))

  expression_reads :
      {n : AstNode} {ts us : List Token} {u : Token}
      → Spells n ts (u ∷ us)
      → continues 5 u.kind ≡ false
      → same_kind u.kind TokenKind.question ≡ false
      → Yields parse_expression ts n (u ∷ us)
  expression_reads (plain d) h g = plain_reads g (binary_reads 5 d h)
  expression_reads (ternary d e k) h g =
      ternary_reads (binary_reads 5 d refl) (expression_reads e refl refl) (expression_reads k h g)

-- What the grammar spells as an expression, before a token with which none goes on, the parser reads with
-- enough fuel: it gives the tree, each operator at its level and to the left, and leaves the rest.
pub parse_expression-spelled :
    (n : AstNode) (ts us : List Token) (u : Token)
    → Spells n ts (u ∷ us)
    → continues 5 u.kind ≡ false
    → same_kind u.kind TokenKind.question ≡ false
    → Yields parse_expression ts n (u ∷ us)
parse_expression-spelled n ts us u = expression_reads
