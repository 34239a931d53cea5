-- ===== src/Parser/Kept.antt =====
-- A predicate on parsers that the primitives have and the combinators keep, for the parser of
-- source/parser.c. What every parser has is said once, by an induction on the fuel.
pub mod Family
pub mod Operands
pub mod Operators
pub mod Types
pub mod Expressions
pub mod Statements
pub mod Blocks
pub mod Declarations
pub mod Program
use Prim.Native.String.{String}
use atcc.Prelude.{ℕ, Bool, true, false, ◌≡◌, Option, some, none, List}
use atcc.Ast.{AstNode}
use atcc.Parser.{
  Parse, pure, crash, no_fuel, ◌>>=◌, current_token, parser_advance, parser_check, parser_consume,
  here, make_error, if_consume, if_check, expect, expect_value, declared,
}
use atcc.Tokens.Ordinals.{same_kind}
use atcc.Tokens.{TokenKind, Location, Token}

pub record ParserPredicate : Type 1 where
  pub Kept : {A : Type 0} → Parse A → Type 0
  pub bind_law :
      {A B : Type 0} (m : Parse A) (f : A → Parse B)
      → Kept m
      → ((a : A) → Kept (f a))
      → Kept (m >>= f)
  pub pure_law : {A : Type 0} (a : A) → Kept (pure a)
  pub crash_law : (A : Type 0) → Kept (crash {A = A})
  pub fuel_law : (A : Type 0) → Kept (no_fuel {A = A})
  pub here_law : Kept here
  pub current_law : Kept current_token
  pub check_law : (kind : TokenKind) → Kept (parser_check kind)
  pub consume_law :
      (kind : TokenKind) → same_kind TokenKind.eof kind ≡ false → Kept (parser_consume kind)
  -- a token that passes a test is advanced over
  pub test_law :
      {A : Type 0} (b : TokenKind → Bool) (k : Token → Parse A) (n : Parse A)
      → b TokenKind.eof ≡ false
      → ((t : Token) → Kept (k t))
      → Kept n
      → Kept (current_token >>= λ t. elim (b t.kind) [ true ↦ parser_advance >>= k | false ↦ n ])
  -- the same, with the location of the token
  pub located_law :
      {A : Type 0} (b : TokenKind → Bool) (k : Location → Token → Parse A) (n : Parse A)
      → b TokenKind.eof ≡ false
      → ((l : Location) (t : Token) → Kept (k l t))
      → Kept n
      → Kept (
          current_token >>= λ t. elim (b t.kind) [
            | true ↦ here >>= λ l. parser_advance >>= k l
            | false ↦ n
          ])
  -- an identifier, which `if_check` has seen
  pub identifier_law :
      {A : Type 0} (k : Token → Parse A) (n : Parse A)
      → ((t : Token) → Kept (k t))
      → Kept n
      → Kept (if_check TokenKind.identifier (parser_advance >>= k) n)

module _ (L : ParserPredicate) where
  pub Kept-make_error : (message : String) → L.Kept (make_error message)
  unfolding make_error
  Kept-make_error message = L.bind_law _ _ L.here_law (λ l. L.pure_law _)

  pub Kept-cond :
      {A : Type 0} (b : Bool) (m n : Parse A)
      → L.Kept m
      → L.Kept n
      → L.Kept (elim b [ true ↦ m | false ↦ n ])
  Kept-cond true m n hm hn = hm
  Kept-cond false m n hm hn = hn

  pub Kept-optional :
      {A B : Type 0} (o : Option A) (k : A → Parse B) (n : Parse B)
      → ((a : A) → L.Kept (k a))
      → L.Kept n
      → L.Kept (elim o [ some a ↦ k a | none ↦ n ])
  Kept-optional none k n hk hn = hn
  Kept-optional (some a) k n hk hn = hk a

  pub Kept-if_consume :
      {A : Type 0} (kind : TokenKind) (m n : Parse A)
      → same_kind TokenKind.eof kind ≡ false
      → L.Kept m
      → L.Kept n
      → L.Kept (if_consume kind m n)
  unfolding if_consume
  Kept-if_consume kind m n d hm hn =
      L.bind_law _ _ (L.consume_law kind d) (λ o. Kept-optional o (λ t. m) n (λ t. hm) hn)

  pub Kept-expect :
      (kind : TokenKind) (message : String) (k : Parse AstNode)
      → same_kind TokenKind.eof kind ≡ false
      → L.Kept k
      → L.Kept (expect kind message k)
  unfolding expect
  Kept-expect kind message k d hk = Kept-if_consume kind _ _ d hk (Kept-make_error message)

  pub Kept-expect_value :
      (kind : TokenKind) (message : String) (k : List ℕ → Parse AstNode)
      → same_kind TokenKind.eof kind ≡ false
      → ((v : List ℕ) → L.Kept (k v))
      → L.Kept (expect_value kind message k)
  unfolding expect_value
  Kept-expect_value kind message k d hk =
      L.bind_law _ _ (L.consume_law kind d)
        (λ o. Kept-optional o (λ t. k t.value) _ (λ t. hk t.value) (Kept-make_error message))

  pub Kept-if_check :
      {A : Type 0} (kind : TokenKind) (m n : Parse A)
      → L.Kept m
      → L.Kept n
      → L.Kept (if_check kind m n)
  unfolding if_check
  Kept-if_check kind m n hm hn = L.bind_law _ _ (L.check_law kind) (λ b. Kept-cond b m n hm hn)

  pub Kept-declared : (m : Parse AstNode) → L.Kept m → L.Kept (declared m)
  unfolding declared
  Kept-declared m h = L.bind_law _ _ h (λ n. L.pure_law _)
