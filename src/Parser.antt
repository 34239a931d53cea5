-- ===== src/Parser.antt =====
-- The parser of source/parser.c: its state, and the primitives that read a token. A token that is read
-- behind the end of the tokens is `overrun`, a `vector_push` on a null vector, which reads below
-- address 0, is `crashed`. The recursion is on fuel, since the parser does not end on every input.
-- Messages on stderr are left out.
pub mod Kinds
pub mod Expressions
pub mod Statements
pub mod Blocks
pub mod Declarations
pub mod Program
pub mod Reads
pub mod Kept
pub mod Safe
pub mod Previous
pub mod Marks
pub mod Stuck
pub mod Enums
pub mod Grammar
pub mod Follows
pub mod Yields
pub mod Steps
pub mod RoundTrip
use Prim.Native.String.{String}
use atcc.Prelude.{ℕ, Bool, true, false, Option, none, some, List, [], ◌∷◌}
use atcc.Ast.{AstNode}
use atcc.Tokens.Ordinals.{same_kind}
use atcc.Tokens.{TokenKind, Location, Token}

-- `current` is the tokens from the pointer on; `previous` is null at the start
pub record Parser : Type 0 where
  pub current : List Token
  pub previous : Option Token

pub data Outcome (A : Type 0) : Type 0 where
  done : A → Parser → Outcome A
  crashed overrun out_of_fuel : Outcome A

abbrev pub Parse : Type 0 → Type 0
Parse A = Parser → Outcome A

unfoldable pub pure : {A : Type 0} → A → Parse A
pure a = λ p. Outcome.done a p

unfoldable pub then : {A B : Type 0} → Outcome A → (A → Parse B) → Outcome B
then (Outcome.done a p) f = f a p
then Outcome.crashed f = Outcome.crashed
then Outcome.overrun f = Outcome.overrun
then Outcome.out_of_fuel f = Outcome.out_of_fuel

infixl 5 ◌>>=◌
unfoldable pub ◌>>=◌ : {A B : Type 0} → Parse A → (A → Parse B) → Parse B
m >>= f = λ p. then (m p) f

unfoldable pub crash : {A : Type 0} → Parse A
crash = λ p. Outcome.crashed

unfoldable pub no_fuel : {A : Type 0} → Parse A
no_fuel = λ p. Outcome.out_of_fuel

-- `*parser->current`
unfoldable pub current_token : Parse Token
current_token p = elim p.current [ [] ↦ Outcome.overrun | t ∷ ts ↦ Outcome.done t p ]

unfoldable pub parser_advance : Parse Token
parser_advance p = elim p.current [
  | [] ↦ Outcome.overrun
  | t ∷ ts ↦ Outcome.done t (record { current = ts; previous = some t })
]

-- whether the pointer that C returns is null or not
unfoldable pub parser_check : TokenKind → Parse Bool
parser_check kind = do t ← current_token; pure (same_kind t.kind kind)

unfoldable pub parser_consume : TokenKind → Parse (Option Token)
parser_consume kind = do
  b ← parser_check kind
  elim b [ true ↦ (do t ← parser_advance; pure (some t)) | false ↦ pure none ]

-- the location that `make_ast` gives a node
unfoldable pub here : Parse Location
here = do t ← current_token; pure t.location

unfoldable pub make_error : String → Parse AstNode
make_error message = do l ← here; pure (AstNode.error l message)

-- a branch on a token that is consumed
unfoldable pub if_consume : {A : Type 0} → TokenKind → Parse A → Parse A → Parse A
if_consume kind m n = do t ← parser_consume kind; elim t [ some t ↦ m | none ↦ n ]

-- `if (!parser_consume(parser, kind)) return make_error(parser, message);`
unfoldable pub expect : TokenKind → String → Parse AstNode → Parse AstNode
expect kind message k = if_consume kind k (make_error message)

-- the same, with the value of the token, which is `parser->previous->value`
unfoldable pub expect_value : TokenKind → String → (List ℕ → Parse AstNode) → Parse AstNode
expect_value kind message k = do
  t ← parser_consume kind
  elim t [ some t ↦ k t.value | none ↦ make_error message ]

unfoldable pub if_check : {A : Type 0} → TokenKind → Parse A → Parse A → Parse A
if_check kind m n = do b ← parser_check kind; elim b [ true ↦ m | false ↦ n ]

-- a node that is not null
unfoldable pub declared : Parse AstNode → Parse (Option AstNode)
declared m = do node ← m; pure (some node)
