-- ===== src/Parser/Grammar.antt =====
-- A grammar of the expressions that source/parser.c reads: how a tree is spelled by the tokens up to a
-- rest, by one relation for each level. The levels are those of `parse_binary`.
use atcc.Prelude.{ℕ, zero, suc, ◌≡◌, Bool, false, ◌||◌, List, ◌∷◌}
use atcc.Ati.Strings.{Bytes}
use atcc.Ast.{AstNode, AstNodes}
use atcc.Parser.Kinds.{is_level}
use atcc.Tokens.Ordinals.{same_kind}
use atcc.Tokens.{TokenKind, Location, Token}

-- any token of a kind
abbrev pub tok : TokenKind → ℕ → Location → Bytes → Token
tok kind flags location value = record {
  kind = kind;
  flags = flags;
  location = location;
  value = value;
}

-- The binary operators and how they bind, the tightest at 1.
pub data IsOperator : ℕ → TokenKind → Type 0 where
  is_star : IsOperator 1 TokenKind.star
  is_slash : IsOperator 1 TokenKind.slash
  is_percent : IsOperator 1 TokenKind.percent
  is_ampersand : IsOperator 1 TokenKind.ampersand
  is_left_shift : IsOperator 1 TokenKind.left_shift
  is_right_shift : IsOperator 1 TokenKind.right_shift
  is_plus : IsOperator 2 TokenKind.plus
  is_minus : IsOperator 2 TokenKind.minus
  is_caret : IsOperator 2 TokenKind.caret
  is_pipe : IsOperator 2 TokenKind.pipe
  is_equal_equal : IsOperator 3 TokenKind.equal_equal
  is_exclamation_equal : IsOperator 3 TokenKind.exclamation_equal
  is_greater : IsOperator 3 TokenKind.greater
  is_greater_equal : IsOperator 3 TokenKind.greater_equal
  is_less : IsOperator 3 TokenKind.less
  is_less_equal : IsOperator 3 TokenKind.less_equal
  is_ampersand_ampersand : IsOperator 4 TokenKind.ampersand_ampersand
  is_pipe_pipe : IsOperator 5 TokenKind.pipe_pipe

pub data IsPrefix : TokenKind → Type 0 where
  prefix_plus : IsPrefix TokenKind.plus
  prefix_minus : IsPrefix TokenKind.minus
  prefix_star : IsPrefix TokenKind.star
  prefix_ampersand : IsPrefix TokenKind.ampersand
  prefix_exclamation : IsPrefix TokenKind.exclamation
  prefix_tilde : IsPrefix TokenKind.tilde

-- A tree, its tokens with what follows them, and what follows them. The place of a node is that of the
-- token at which the parser makes it.
mutual
  pub data Spells : AstNode → List Token → List Token → Type 0 where
    plain : {e : AstNode} {ts us : List Token} → SpellsBinary 5 e ts us → Spells e ts us
    ternary :
        {c a b : AstNode} {ts us vs ws : List Token} {w : Token} {i j : ℕ} {k l : Location}
        {x y : Bytes}
        → SpellsBinary 5 c ts (tok TokenKind.question i k x ∷ us)
        → Spells a us (tok TokenKind.colon j l y ∷ vs)
        → Spells b vs (w ∷ ws)
        → Spells (AstNode.ternary w.location c a b) ts (w ∷ ws)

  pub data SpellsBinary : ℕ → AstNode → List Token → List Token → Type 0 where
    operand : {e : AstNode} {ts us : List Token} → SpellsUnary e ts us → SpellsBinary 0 e ts us
    below :
        {n : ℕ} {e : AstNode} {ts us : List Token}
        → SpellsBinary n e ts us
        → SpellsBinary (suc n) e ts us
    -- to the left the same level, to the right the one below
    binary :
        {n : ℕ} {a b : AstNode} {ts us vs : List Token} {t u : Token}
        → IsOperator (suc n) t.kind
        → SpellsBinary (suc n) a ts (t ∷ u ∷ us)
        → SpellsBinary n b (u ∷ us) vs
        → SpellsBinary (suc n) (AstNode.binary u.location t.kind a b) ts vs

  pub data SpellsUnary : AstNode → List Token → List Token → Type 0 where
    base : {e : AstNode} {ts us : List Token} → SpellsBase e ts us → SpellsUnary e ts us
    unary :
        {e : AstNode} {us vs : List Token} {t : Token}
        → IsPrefix t.kind
        → SpellsUnary e us vs
        → SpellsUnary (AstNode.unary t.location t.kind e) (t ∷ us) vs

  pub data SpellsBase : AstNode → List Token → List Token → Type 0 where
    number :
        {us : List Token} {u : Token} {i : ℕ} {k : Location} {x : Bytes}
        → SpellsBase
            (AstNode.literal_number u.location x i)
            (tok TokenKind.number i k x ∷ u ∷ us)
            (u ∷ us)
    name :
        {us : List Token} {u : Token} {i : ℕ} {k : Location} {x : Bytes}
        → same_kind u.kind TokenKind.open_brace ≡ false
        → SpellsBase
            (AstNode.identifier u.location x)
            (tok TokenKind.identifier i k x ∷ u ∷ us)
            (u ∷ us)
    paren :
        {e : AstNode} {us vs : List Token} {u : Token} {i j : ℕ} {k l : Location} {x y : Bytes}
        → same_kind u.kind TokenKind.colon ≡ false
        → Spells e (u ∷ us) (tok TokenKind.close_paren j l y ∷ vs)
        → SpellsBase (AstNode.paren u.location e) (tok TokenKind.open_paren i k x ∷ u ∷ us) vs
    index :
        {a e : AstNode} {ts us vs : List Token} {v : Token} {i j : ℕ} {k l : Location} {x y : Bytes}
        → SpellsBase a ts (tok TokenKind.open_bracket i k x ∷ us)
        → Spells e us (tok TokenKind.close_bracket j l y ∷ v ∷ vs)
        → SpellsBase (AstNode.index v.location a e) ts (v ∷ vs)
    field :
        {a : AstNode} {ts us : List Token} {u : Token} {i j : ℕ} {k l : Location} {x y : Bytes}
        → SpellsBase a ts (tok TokenKind.dot i k x ∷ tok TokenKind.identifier j l y ∷ u ∷ us)
        → SpellsBase (AstNode.field u.location a y) ts (u ∷ us)
    call_none :
        {a : AstNode} {ts us : List Token} {u : Token} {i j : ℕ} {k l : Location} {x y : Bytes}
        → SpellsBase a ts
            (tok TokenKind.open_paren i k x ∷ tok TokenKind.close_paren j l y ∷ u ∷ us)
        → SpellsBase (AstNode.call u.location a AstNodes.no_nodes) ts (u ∷ us)
    call :
        {a : AstNode} {es : AstNodes} {ts us vs : List Token} {u v : Token} {i j : ℕ}
        {k l : Location} {x y : Bytes}
        → SpellsBase a ts (tok TokenKind.open_paren i k x ∷ u ∷ us)
        → same_kind u.kind TokenKind.close_paren ≡ false
        → SpellsArguments es (u ∷ us) (tok TokenKind.close_paren j l y ∷ v ∷ vs)
        → SpellsBase (AstNode.call v.location a es) ts (v ∷ vs)

  -- one argument or more, up to the `)`
  pub data SpellsArguments : AstNodes → List Token → List Token → Type 0 where
    last :
        {e : AstNode} {us vs : List Token} {j : ℕ} {l : Location} {y : Bytes}
        → Spells e us (tok TokenKind.close_paren j l y ∷ vs)
        → SpellsArguments
            (AstNodes.and_node e AstNodes.no_nodes)
            us
            (tok TokenKind.close_paren j l y ∷ vs)
    more :
        {e : AstNode} {es : AstNodes} {us vs ws : List Token} {j : ℕ} {l : Location} {y : Bytes}
        → Spells e us (tok TokenKind.comma j l y ∷ vs)
        → SpellsArguments es vs ws
        → SpellsArguments (AstNodes.and_node e es) us ws

-- the kinds with which an expression of a level goes on
abbrev pub continues : ℕ → TokenKind → Bool
continues zero k =
    same_kind k TokenKind.open_paren
    || (same_kind k TokenKind.open_bracket
        || (same_kind k TokenKind.dot || same_kind k TokenKind.open_brace))
continues (suc n) k = is_level (suc n) k || continues n k
