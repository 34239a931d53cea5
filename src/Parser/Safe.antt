-- ===== src/Parser/Safe.antt =====
-- No parser reads a token behind the `eof`: the primitives do not, and the combinators keep it.
pub mod Program
pub mod Source
use Prim.Native.String.{String}
use atcc.Prelude.{
  ℕ, Bool, true, false, Bool-cases, inl, inr, ◌≡◌, refl, Option, some, none, List, [], ◌∷◌,
}
use atcc.Ast.{AstNode}
use atcc.Parser.Reads.{
  Ensures, Reads, IsEnded, IsSafe, IsSafeAt, IsSafeAt-of, IsSafeAt-bind, IsSafeAt-advance,
  IsSafe-bind, IsSafe-pure, IsSafe-current, IsSafe-crash, IsSafe-fuel, not_eof,
}
use atcc.Parser.{
  Parser, Outcome, Parse, pure, then, no_fuel, ◌>>=◌, current_token, parser_advance, parser_check,
  parser_consume, here, make_error, if_consume, if_check, expect, expect_value, declared,
}
use atcc.Parser.Kept.{ParserPredicate}
use atcc.Tokens.Ordinals.{same_kind}
use atcc.Tokens.{TokenKind, Location, Token}

pub IsSafe-here : IsSafe here
unfolding here
IsSafe-here = IsSafe-current _ (λ t ts e. IsSafeAt-of _ e (IsSafe-pure _))

-- a branch on the kind of a token that is not `eof`
IsSafe-branch :
    {A : Type 0} (b : TokenKind → Bool) (m : Parse A) (n : Parse A)
    → b TokenKind.eof ≡ false
    → ((t : Token) (ts : List Token)
        → same_kind t.kind TokenKind.eof ≡ false
        → IsEnded (t ∷ ts)
        → IsSafeAt (t ∷ ts) m)
    → IsSafe n
    → IsSafe (current_token >>= λ t. elim (b t.kind) [ true ↦ m | false ↦ n ])
IsSafe-branch b m n d hm hn = IsSafe-current _ (λ t ts e. elim (Bool-cases (b t.kind)) [
  | inl h ↦ rw h (hm t ts (not_eof b t.kind d h) e)
  | inr h ↦ rw h (IsSafeAt-of n e hn)
])

-- a token that passes a test is advanced over
pub IsSafe-test :
    {A : Type 0} (b : TokenKind → Bool) (k : Token → Parse A) (n : Parse A)
    → b TokenKind.eof ≡ false
    → ((t : Token) → IsSafe (k t))
    → IsSafe n
    → IsSafe (current_token >>= λ t. elim (b t.kind) [ true ↦ parser_advance >>= k | false ↦ n ])
IsSafe-test b k n d hk hn = IsSafe-branch b _ n d (λ t ts c e. IsSafeAt-advance k c e hk) hn

-- the location of a token that is then advanced over
IsSafeAt-here :
    {A : Type 0} (f : Location → Token → Parse A) {t : Token} {ts : List Token}
    → same_kind t.kind TokenKind.eof ≡ false
    → IsEnded (t ∷ ts)
    → ((l : Location) (t : Token) → IsSafe (f l t))
    → IsSafeAt (t ∷ ts) (here >>= λ l. parser_advance >>= f l)
unfolding here current_token ◌>>=◌ then pure
IsSafeAt-here f {t} c e h = record {
  safe_at = (IsSafeAt-advance (f t.location) c e (h t.location)).safe_at;
}

pub IsSafe-located :
    {A : Type 0} (b : TokenKind → Bool) (k : Location → Token → Parse A) (n : Parse A)
    → b TokenKind.eof ≡ false
    → ((l : Location) (t : Token) → IsSafe (k l t))
    → IsSafe n
    → IsSafe (
        current_token >>= λ t. elim (b t.kind) [
          | true ↦ here >>= λ l. parser_advance >>= k l
          | false ↦ n
        ])
IsSafe-located b k n d hk hn = IsSafe-branch b _ n d (λ t ts c e. IsSafeAt-here k c e hk) hn

current_token-Ensures :
    (ts : List Token) (r : Option Token)
    → IsEnded ts
    → Ensures (λ t q. Reads ts q.current) (current_token (record { current = ts; previous = r }))
unfolding current_token
current_token-Ensures [] r e = elim e [ ]
current_token-Ensures (t ∷ ts) r e = Ensures.ends Reads.stay

pub IsSafe-current_token : IsSafe current_token
IsSafe-current_token = record {
  safe = λ ts e. record { safe_at = λ r. current_token-Ensures ts r e };
}

pub IsSafe-parser_check : (kind : TokenKind) → IsSafe (parser_check kind)
unfolding parser_check
IsSafe-parser_check kind = IsSafe-current _ (λ t ts e. IsSafeAt-of _ e (IsSafe-pure _))

IsSafeAt-check :
    {A : Type 0} (kind : TokenKind) (f : Bool → Parse A) (ts : List Token)
    → IsEnded ts
    → IsSafe (current_token >>= λ t. f (same_kind t.kind kind))
    → IsSafeAt ts (parser_check kind >>= f)
unfolding parser_check current_token ◌>>=◌ then pure
IsSafeAt-check kind f [] e h = elim e [ ]
IsSafeAt-check kind f (t ∷ ts) e h = record { safe_at = (h.safe (t ∷ ts) e).safe_at }

pub IsSafe-parser_consume :
    (kind : TokenKind) → same_kind TokenKind.eof kind ≡ false → IsSafe (parser_consume kind)
unfolding parser_consume
IsSafe-parser_consume kind d = record {
  safe = λ ts e. IsSafeAt-check kind _ ts e (
      IsSafe-test (λ k. same_kind k kind) (λ t. pure (some t)) (pure none) d (λ t. IsSafe-pure _)
        (IsSafe-pure _));
}

-- an identifier, which `if_check` has seen
pub IsSafe-identifier :
    {A : Type 0} (k : Token → Parse A) (n : Parse A)
    → ((t : Token) → IsSafe (k t))
    → IsSafe n
    → IsSafe (if_check TokenKind.identifier (parser_advance >>= k) n)
unfolding if_check
IsSafe-identifier k n hk hn = record {
  safe = λ ts e.
      IsSafeAt-check TokenKind.identifier _ ts e
        (IsSafe-test (λ k. same_kind k TokenKind.identifier) k n refl hk hn);
}

abbrev pub safe_predicate : ParserPredicate
safe_predicate = record {
  Kept = λ m. IsSafe m;
  bind_law = λ m f. IsSafe-bind m f;
  pure_law = λ a. IsSafe-pure a;
  crash_law = λ A. IsSafe-crash A;
  fuel_law = λ A. IsSafe-fuel A;
  here_law = IsSafe-here;
  current_law = IsSafe-current_token;
  check_law = IsSafe-parser_check;
  consume_law = IsSafe-parser_consume;
  test_law = λ b k n. IsSafe-test b k n;
  located_law = λ b k n. IsSafe-located b k n;
  identifier_law = λ k n. IsSafe-identifier k n;
}
