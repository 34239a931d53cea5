-- ===== src/Parser/Steps.antt =====
-- The steps of the expression parser of source/parser.c on tokens that are known: what it goes on with, or
-- what it reads.
use atcc.Prelude.{arith, ℕ, suc, ◌+◌, ◌≡◌, true, false, List, ◌∷◌}
use atcc.Ati.Strings.{Bytes}
use atcc.Ast.{AstNode, AstNodes}
use atcc.Parser.Expressions.{
  parse_expression, parse_expression_base, parse_expression_unary, call_arguments, postfix_from,
  binary_from, parse_binary,
}
use atcc.Parser.Grammar.{tok}
use atcc.Parser.Kinds.{parser_is_unary, is_level}
use atcc.Parser.{
  pure, then, ◌>>=◌, current_token, parser_advance, parser_check, parser_consume, here, if_consume,
  if_check, expect, expect_value,
}
use atcc.Parser.Yields.{Gives, Gives-then, Yields, Yields-steps, BeginsBase, begins}
use atcc.Tokens.Ordinals.{same_kind}
use atcc.Tokens.{TokenKind, Location, Token}

-- The tokens of a base, and on to the loop behind it.
module _ {c : AstNode} {vs : List Token} where
  pub number_goes :
      {u : Token} {us : List Token} {i : ℕ} {k : Location} {x : Bytes}
      → Yields (λ f. postfix_from f (AstNode.literal_number u.location x i)) (u ∷ us) c vs
      → Yields parse_expression_base (tok TokenKind.number i k x ∷ u ∷ us) c vs
  unfolding parse_expression_base here parser_advance current_token ◌>>=◌ then pure
  number_goes y = Yields-steps 2 y.enough (λ f r e. y.yields (suc f) _ (omega (arith, e)))

  pub name_goes :
      {u : Token} {us : List Token} {i : ℕ} {k : Location} {x : Bytes}
      → same_kind u.kind TokenKind.open_brace ≡ false
      → Yields (λ f. postfix_from f (AstNode.identifier u.location x)) (u ∷ us) c vs
      → Yields parse_expression_base (tok TokenKind.identifier i k x ∷ u ∷ us) c vs
  unfolding parse_expression_base here if_check parser_check parser_advance current_token ◌>>=◌ then
      pure
  name_goes h y =
      Yields-steps 3 y.enough (λ f r e. rw h (y.yields (suc (suc f)) _ (omega (arith, e))))

  pub paren_goes :
      {n : AstNode} {u : Token} {us ws : List Token} {i j : ℕ} {k l : Location} {x y : Bytes}
      → same_kind u.kind TokenKind.colon ≡ false
      → Yields parse_expression (u ∷ us) n (tok TokenKind.close_paren j l y ∷ ws)
      → Yields (λ f. postfix_from f (AstNode.paren u.location n)) ws c vs
      → Yields parse_expression_base (tok TokenKind.open_paren i k x ∷ u ∷ us) c vs
  unfolding parse_expression_base here expect if_consume if_check parser_consume parser_check
      parser_advance current_token ◌>>=◌ then pure
  paren_goes h z y = Yields-steps 3 (z.enough + y.enough) (λ f r e. rw h (
      Gives-then _ (Gives-then _ (z.yields f _ (omega (arith, e))) (λ r. Gives.gives))
        (λ r. y.yields (suc (suc f)) _ (omega (arith, e)))))

  pub index_goes :
      (a : AstNode) {n : AstNode} {v : Token} {us ws : List Token} {i j : ℕ} {k l : Location}
      {x y : Bytes}
      → Yields parse_expression us n (tok TokenKind.close_bracket j l y ∷ v ∷ ws)
      → Yields (λ f. postfix_from f (AstNode.index v.location a n)) (v ∷ ws) c vs
      → Yields (λ f. postfix_from f a) (tok TokenKind.open_bracket i k x ∷ us) c vs
  unfolding parse_expression_base here expect if_consume parser_consume parser_check parser_advance
      current_token ◌>>=◌ then pure
  index_goes a z y = Yields-steps 1 (z.enough + y.enough) (λ f r e.
      Gives-then _ (z.yields f _ (omega (arith, e))) (λ r. y.yields f _ (omega (arith, e))))

  pub field_goes :
      (a : AstNode) {u : Token} {us : List Token} {i j : ℕ} {k l : Location} {x y : Bytes}
      → Yields (λ f. postfix_from f (AstNode.field u.location a y)) (u ∷ us) c vs
      → Yields
          (λ f. postfix_from f a)
          (tok TokenKind.dot i k x ∷ tok TokenKind.identifier j l y ∷ u ∷ us)
          c
          vs
  unfolding parse_expression_base here expect_value if_consume parser_consume parser_check
      parser_advance current_token ◌>>=◌ then pure
  field_goes a y = Yields-steps 1 y.enough (λ f r e. y.yields f _ e)

  pub call_none_goes :
      (a : AstNode) {u : Token} {us : List Token} {i j : ℕ} {k l : Location} {x y : Bytes}
      → Yields (λ f. postfix_from f (AstNode.call u.location a AstNodes.no_nodes)) (u ∷ us) c vs
      → Yields
          (λ f. postfix_from f a)
          (tok TokenKind.open_paren i k x ∷ tok TokenKind.close_paren j l y ∷ u ∷ us)
          c
          vs
  unfolding parse_expression_base here expect if_consume if_check parser_consume parser_check
      parser_advance current_token ◌>>=◌ then pure
  call_none_goes a y = Yields-steps 1 y.enough (λ f r e. y.yields f _ e)

  pub call_goes :
      (a : AstNode) {es : AstNodes} {u v : Token} {us ws : List Token} {i j : ℕ} {k l : Location}
      {x y : Bytes}
      → same_kind u.kind TokenKind.close_paren ≡ false
      → Yields call_arguments (u ∷ us) es (tok TokenKind.close_paren j l y ∷ v ∷ ws)
      → Yields (λ f. postfix_from f (AstNode.call v.location a es)) (v ∷ ws) c vs
      → Yields (λ f. postfix_from f a) (tok TokenKind.open_paren i k x ∷ u ∷ us) c vs
  unfolding parse_expression_base here expect if_consume if_check parser_consume parser_check
      parser_advance current_token ◌>>=◌ then pure
  call_goes a h z y = Yields-steps 1 (z.enough + y.enough) (λ f r e.
      rw h (Gives-then _ (z.yields f _ (omega (arith, e))) (λ r. y.yields f _ (omega (arith, e)))))

pub last_reads :
    {n : AstNode} {us vs : List Token} {j : ℕ} {l : Location} {y : Bytes}
    → Yields parse_expression us n (tok TokenKind.close_paren j l y ∷ vs)
    → Yields call_arguments us
        (AstNodes.and_node n AstNodes.no_nodes)
        (tok TokenKind.close_paren j l y ∷ vs)
unfolding parse_expression if_consume parser_consume parser_check current_token ◌>>=◌ then pure
last_reads y = Yields-steps 1 y.enough (λ f r e. Gives-then _ (y.yields f r e) (λ r. Gives.gives))

pub more_reads :
    {n : AstNode} {ns : AstNodes} {us vs ws : List Token} {j : ℕ} {l : Location} {y : Bytes}
    → Yields parse_expression us n (tok TokenKind.comma j l y ∷ vs)
    → Yields call_arguments vs ns ws
    → Yields call_arguments us (AstNodes.and_node n ns) ws
unfolding parse_expression if_consume parser_consume parser_check parser_advance current_token ◌>>=◌
    then pure
more_reads z y = Yields-steps 1 (z.enough + y.enough) (λ f r e.
    Gives-then _ (z.yields f r (omega (arith, e)))
      (λ r. Gives-then _ (y.yields f _ (omega (arith, e))) (λ r. Gives.gives)))

pub unary_goes :
    {n : AstNode} {t : Token} {us vs : List Token}
    → parser_is_unary t.kind ≡ true
    → Yields parse_expression_unary us n vs
    → Yields parse_expression_unary (t ∷ us) (AstNode.unary t.location t.kind n) vs
unfolding parse_expression_unary here parser_advance current_token ◌>>=◌ then pure
unary_goes h y = Yields-steps 1 y.enough (λ f r e.
    rw (parse_expression_unary, current_token, ◌>>=◌, then, h)
      (Gives-then _ (y.yields f _ e) (λ r. Gives.gives)))

pub base_reads :
    {n : AstNode} {ts us : List Token}
    → BeginsBase ts
    → Yields parse_expression_base ts n us
    → Yields parse_expression_unary ts n us
unfolding parse_expression_unary current_token ◌>>=◌ then
base_reads (begins h) y =
    Yields-steps 1 y.enough
      (λ f r e. rw (parse_expression_unary, current_token, ◌>>=◌, then, h) (y.yields f r e))

pub below_goes :
    (m : ℕ) {a c : AstNode} {ts us vs : List Token}
    → Yields (λ f. parse_binary f m) ts a us
    → Yields (λ f. binary_from f m a) us c vs
    → Yields (λ f. parse_binary f (suc m)) ts c vs
unfolding parse_binary ◌>>=◌
below_goes m z y =
    Yields-steps 1 (z.enough + y.enough) (λ f r e.
      Gives-then _ (z.yields f r (omega (arith, e))) (λ r. y.yields f r (omega (arith, e))))

pub binary_goes :
    (m : ℕ) (a : AstNode) {b c : AstNode} {t u : Token} {us vs ws : List Token}
    → is_level (suc m) t.kind ≡ true
    → Yields (λ f. parse_binary f m) (u ∷ us) b vs
    → Yields (λ f. binary_from f m (AstNode.binary u.location t.kind a b)) vs c ws
    → Yields (λ f. binary_from f m a) (t ∷ u ∷ us) c ws
unfolding parse_binary here parser_advance current_token ◌>>=◌ then pure
binary_goes m a h z y = Yields-steps 1 (z.enough + y.enough) (λ f r e.
    rw (parse_binary, current_token, ◌>>=◌, then, h)
      (Gives-then _ (z.yields f _ (omega (arith, e))) (λ r. y.yields f r (omega (arith, e)))))

pub stops-binary :
    (m : ℕ) (a : AstNode) {u : Token} {us : List Token}
    → is_level (suc m) u.kind ≡ false
    → Yields (λ f. binary_from f m a) (u ∷ us) a (u ∷ us)
unfolding parse_binary current_token ◌>>=◌ then pure
stops-binary m a h =
    Yields-steps 1 0 (λ f r e. rw (parse_binary, current_token, ◌>>=◌, then, h) Gives.gives)

pub operand_reads :
    {n : AstNode} {ts us : List Token}
    → Yields parse_expression_unary ts n us
    → Yields (λ f. parse_binary f 0) ts n us
unfolding parse_binary
operand_reads y = Yields-steps 1 y.enough y.yields

pub plain_reads :
    {n : AstNode} {u : Token} {ts us : List Token}
    → same_kind u.kind TokenKind.question ≡ false
    → Yields (λ f. parse_binary f 5) ts n (u ∷ us)
    → Yields parse_expression ts n (u ∷ us)
unfolding parse_expression if_consume parser_consume parser_check current_token ◌>>=◌ then pure
plain_reads h y =
    Yields-steps 1 y.enough (λ f r e. Gives-then _ (y.yields f r e) (λ r. rw h Gives.gives))

pub ternary_reads :
    {a b n : AstNode} {ts us vs ws : List Token} {w : Token} {i j : ℕ} {k l : Location}
    {x y : Bytes}
    → Yields (λ f. parse_binary f 5) ts n (tok TokenKind.question i k x ∷ us)
    → Yields parse_expression us a (tok TokenKind.colon j l y ∷ vs)
    → Yields parse_expression vs b (w ∷ ws)
    → Yields parse_expression ts (AstNode.ternary w.location n a b) (w ∷ ws)
unfolding parse_expression here expect if_consume parser_consume parser_check parser_advance
    current_token ◌>>=◌ then pure
ternary_reads z y x = Yields-steps 1 (z.enough + (y.enough + x.enough)) (λ f r e.
    Gives-then _ (z.yields f r (omega (arith, e))) (λ r.
      Gives-then _ (y.yields f _ (omega (arith, e)))
        (λ r. Gives-then _ (x.yields f _ (omega (arith, e))) (λ r. Gives.gives))))
