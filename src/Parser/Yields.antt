-- ===== src/Parser/Yields.antt =====
-- When an expression parser of source/parser.c gives a tree, with enough fuel, and the tokens at which
-- its loops stop.
use atcc.Prelude.{arith, ℕ, zero, suc, ◌≤◌, ◌≡◌, refl, false, Option, List, ◌∷◌}
use atcc.Ast.{AstNode}
use atcc.Parser.Expressions.{postfix_from}
use atcc.Parser.Follows.{or_l, or_r}
use atcc.Parser.Grammar.{SpellsBase, number, name, paren, index, field, call, call_none, continues}
use atcc.Parser.Kinds.{parser_is_unary}
use atcc.Parser.Marks.{at, at_least}
use atcc.Parser.{
  Outcome, Parse, pure, then, ◌>>=◌, current_token, parser_check, parser_consume, if_consume,
}
use atcc.Tokens.Ordinals.{same_kind}
use atcc.Tokens.{TokenKind, Token}

-- the outcome is a result, and these tokens are left
pub data Gives {A : Type 0} : Outcome A → A → List Token → Type 0 where
  gives : {a : A} {us : List Token} {r : Option Token} → Gives (Outcome.done a (at us r)) a us

pub Gives-then :
    {A B : Type 0} {o : Outcome A} {a : A} {b : B} {us vs : List Token} (k : A → Parse B)
    → Gives o a us
    → ((r : Option Token) → Gives (k a (at us r)) b vs)
    → Gives (then o k) b vs
unfolding then
Gives-then k (gives {r = r}) h = h r

-- with enough fuel the parser reads the tree, and leaves the tokens
pub record Yields {A : Type 0} (m : ℕ → Parse A) (ts : List Token) (a : A) (us : List Token)
    : Type 0 where
  pub enough : ℕ
  pub yields : (f : ℕ) (r : Option Token) → enough ≤ f → Gives (m f (at ts r)) a us

-- a step that spends one of the fuel
pub Yields-suc :
    {A : Type 0} {m : ℕ → Parse A} {ts us : List Token} {a : A} (n : ℕ)
    → ((f : ℕ) (r : Option Token) → n ≤ f → Gives (m (suc f) (at ts r)) a us)
    → Yields m ts a us
Yields-suc {m} {ts} {us} {a} n h = record { enough = suc n; yields = go }
  where
    go : (f : ℕ) (r : Option Token) → suc n ≤ f → Gives (m f (at ts r)) a us
    go zero r e = absurd (omega (arith, e))
    go (suc f) r e = h f r (omega (arith, e))

-- steps that spend some of the fuel
pub Yields-steps :
    {A : Type 0} {m : ℕ → Parse A} {ts us : List Token} {a : A} (k n : ℕ)
    → ((f : ℕ) (r : Option Token) → n ≤ f → Gives (m (at_least k f) (at ts r)) a us)
    → Yields m ts a us
Yields-steps zero n h = record { enough = n; yields = h }
Yields-steps {m} (suc k) n h =
    let y = Yields-steps {m = λ f. m (suc f)} k n h in Yields-suc y.enough y.yields

-- the tokens that do not continue a base
record NoPostfix (k : TokenKind) : Type 0 where
  pub no_paren : same_kind k TokenKind.open_paren ≡ false
  pub no_bracket : same_kind k TokenKind.open_bracket ≡ false
  pub no_dot : same_kind k TokenKind.dot ≡ false

no_postfix : (k : TokenKind) → continues 0 k ≡ false → NoPostfix k
no_postfix k h = record {
  no_paren = or_l _ _ h;
  no_bracket = or_l _ _ (or_r _ _ h);
  no_dot = or_l _ _ (or_r _ _ (or_r _ _ h));
}

-- the loop of a base ends before a token that does not continue it
pub stops-postfix :
    (a : AstNode) (u : Token) (us : List Token)
    → continues 0 u.kind ≡ false
    → Yields (λ f. postfix_from f a) (u ∷ us) a (u ∷ us)
unfolding postfix_from if_consume parser_consume parser_check current_token ◌>>=◌ then pure
stops-postfix a u us h = Yields-suc 0 (λ f r e.
    let k = no_postfix u.kind h in
    rw
      (
        postfix_from, if_consume, parser_consume, parser_check, current_token, ◌>>=◌, then, pure,
        k.no_paren, k.no_bracket, k.no_dot,
      )
      Gives.gives)

-- A base begins with no unary operator.
pub data BeginsBase : List Token → Type 0 where
  begins : {t : Token} {ts : List Token} → parser_is_unary t.kind ≡ false → BeginsBase (t ∷ ts)

pub base-BeginsBase : {a : AstNode} {ts us : List Token} → SpellsBase a ts us → BeginsBase ts
base-BeginsBase number = begins refl
base-BeginsBase (name h) = begins refl
base-BeginsBase (paren h d) = begins refl
base-BeginsBase (index d e) = base-BeginsBase d
base-BeginsBase (field d) = base-BeginsBase d
base-BeginsBase (call_none d) = base-BeginsBase d
base-BeginsBase (call d h g) = base-BeginsBase d
