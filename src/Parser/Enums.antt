-- ===== src/Parser/Enums.antt =====
-- What the parser of source/parser.c makes of an enum.
use atcc.Prelude.{ℕ, suc, ◌≡◌, true, Option, none, some, List, [], ◌∷◌, ◌++◌, refl, ◌∙◌}
use atcc.Ati.Strings.{Bytes}
use atcc.Ast.{AstNode, AstNodes, and_node, no_nodes, ◌+++◌}
use atcc.Parser.Expressions.{parse_typedecl}
use atcc.Parser.Marks.{mark, word, at, at_least}
use atcc.Parser.Program.{implicit_value, parse_enum_items, parse_declaration_enum}
use atcc.Parser.{
  Outcome, Parse, pure, then, ◌>>=◌, current_token, parser_advance, parser_check, parser_consume,
  here, if_consume, expect, expect_value,
}
use atcc.Tokens.{TokenKind, Location, Token}

-- An item without `=`: its name, the place of the name and that of the `;`.
pub record Item : Type 0 where
  pub name : Bytes
  pub place : Location
  pub semicolon : Location

abbrev pub item_tokens : List Item → List Token
item_tokens [] = []
item_tokens (i ∷ is) = word i.name i.place ∷ mark TokenKind.semicolon i.semicolon ∷ item_tokens is

-- The constants that the items stand for: the first is 0, and each other the one before it plus 1.
abbrev pub constants : Location → Bytes → Option Bytes → List Item → AstNodes
constants l name previous [] = AstNodes.no_nodes
constants l name previous (i ∷ is) =
    AstNodes.and_node
      (AstNode.variable i.semicolon i.name (AstNode.type_name l name)
        (elim previous [
          | none ↦ AstNode.literal_number i.semicolon (48 ∷ []) 0
          | some p ↦
              AstNode.binary i.semicolon TokenKind.plus (AstNode.identifier i.semicolon p)
                (AstNode.literal_number i.semicolon (49 ∷ []) 0)
        ])
        true)
      (constants l name (some i.name) is)

-- the token before the `}`
abbrev last_token : List Item → Option Token → Option Token
last_token [] r = r
last_token (i ∷ is) r = last_token is (some (mark TokenKind.semicolon i.semicolon))

abbrev pub items_count : List Item → ℕ
items_count [] = 0
items_count (i ∷ is) = suc (items_count is)

+++-assoc : (a b c : AstNodes) → (a +++ b) +++ c ≡ a +++ (b +++ c)
+++-assoc no_nodes b c = refl
+++-assoc (and_node n a) b c = rw (+++-assoc a b c) refl

+++-no_nodes : (a : AstNodes) → a +++ AstNodes.no_nodes ≡ a
+++-no_nodes no_nodes = refl
+++-no_nodes (and_node n a) = rw (+++-no_nodes a) refl

items-constants :
    (is : List Item) (f : ℕ) (l k : Location) (name : Bytes) (rest : AstNodes → Parse AstNode)
    (before : AstNodes) (previous : Option Bytes) (ts : List Token) (r : Option Token)
    → parse_enum_items
        (suc (at_least (items_count is) f))
        l
        name
        rest
        before
        previous
        (at (item_tokens is ++ mark TokenKind.close_brace k ∷ ts) r)
      ≡ rest
          (before +++ constants l name previous is)
          (at (mark TokenKind.close_brace k ∷ ts) (last_token is r))
unfolding parse_enum_items implicit_value here expect expect_value if_consume parser_check
    parser_consume parser_advance current_token ◌>>=◌ then pure
items-constants [] f l k name rest before previous ts r = rw (+++-no_nodes before) refl
items-constants (i ∷ is) f l k name rest before none ts r =
    items-constants is f l k name rest _ (some i.name) ts _ ∙ rw (+++-assoc before) refl
items-constants (i ∷ is) f l k name rest before (some p) ts r =
    items-constants is f l k name rest _ (some i.name) ts _ ∙ rw (+++-assoc before) refl

-- What stands between the name of an enum and its `{`, where the parser has this fuel: nothing, or `:` and a
-- type that it reads. With the tokens from there on, the place that the alias gets, and its type.
pub data HasBase (f : ℕ) (t : Token) (ts : List Token)
    : List Token → Location → AstNode → Type 0 where
  no_base : HasBase f t ts (t ∷ ts) t.location AstNode.null
  base :
      {l : Location} {us : List Token} {type : AstNode} {r : Option Token}
      → parse_typedecl f (at us (some (mark TokenKind.colon l))) ≡ Outcome.done type (at (t ∷ ts) r)
      → HasBase f t ts (mark TokenKind.colon l ∷ us) l type

-- the tokens of an enum from its `{` on, and what stands behind it
abbrev pub body_tokens : List Item → Location → List Token → List Token
body_tokens is k ts = item_tokens is ++ mark TokenKind.close_brace k ∷ ts

-- The parser makes an enum without `=` into its alias and its constants: for any items, with a base type that
-- it reads or without one, with fuel for one more than there are items.
pub parse_declaration_enum-constants :
    (is : List Item) (f : ℕ) (name : Bytes) (j l k p : Location) (type : AstNode) (us : List Token)
    (t : Token) (ts : List Token) (r : Option Token)
    → HasBase
        (suc (at_least (items_count is) f))
        (mark TokenKind.open_brace l)
        (body_tokens is k (t ∷ ts))
        us
        p
        type
    → parse_declaration_enum (suc (at_least (items_count is) f)) (at (word name j ∷ us) r)
      ≡ Outcome.done
          (AstNode.enum_placeholder t.location
            (AstNode.alias p name type)
            (constants p name none is))
          (at (t ∷ ts) (some (mark TokenKind.close_brace k)))
unfolding parse_declaration_enum here expect expect_value if_consume parser_check parser_consume
    parser_advance current_token ◌>>=◌ then pure
parse_declaration_enum-constants is f name j l k p type us t ts r HasBase.no_base =
    items-constants is f l k name _ no_nodes none (t ∷ ts) _
parse_declaration_enum-constants is f name j l k p type us t ts r (HasBase.base h) =
    rw h (items-constants is f p k name _ no_nodes none (t ∷ ts) _)
