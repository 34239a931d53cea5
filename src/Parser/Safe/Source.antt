-- ===== src/Parser/Safe/Source.antt =====
-- The lexer and the parser together.
use mathlib.Core.Option.{some-injective, none-ne-some}
use mathlib.Core.Path.{subst}
use atcc.Prelude.{ℕ, ◌≡◌, inl, inr, some, List, sym, ◌∙◌, ap}
use atcc.Ati.Strings.{Bytes}
use atcc.Lexer.Positions.{IsTokenized, tokenize-IsTokenized}
use atcc.Lexer.Tokenize.{lexer_tokenize}
use atcc.Parser.Program.{parse_program}
use atcc.Parser.Reads.{Ensures, IsEnded}
use atcc.Parser.Safe.Program.{IsNamed, PassedTo, parse_program-Ensures}
use atcc.Tokens.Ordinals.{same_kind}
use atcc.Tokens.{TokenKind, Token}

-- What the lexer makes of a source has an `eof`.
IsTokenized-IsEnded :
    {filename source : Bytes} {n : ℕ} {tokens : List Token}
    → IsTokenized filename source n tokens
    → IsEnded tokens
IsTokenized-IsEnded (IsTokenized.at_end p e l) =
    IsEnded.at_eof (ap (λ k. same_kind k TokenKind.eof) e)
IsTokenized-IsEnded (IsTokenized.next_token s c l u b h) =
    IsEnded.before_eof (IsTokenized-IsEnded h)
IsTokenized-IsEnded (IsTokenized.next_comment s c u b h) = IsTokenized-IsEnded h

tokenize-IsEnded :
    (filename source : Bytes) (tokens : List Token)
    → lexer_tokenize filename source ≡ some tokens
    → IsEnded tokens
tokenize-IsEnded filename source tokens h = elim (tokenize-IsTokenized filename source) [
  | inl g ↦ absurd (none-ne-some tokens (sym g.0 ∙ h))
  | inr (found, e, g) ↦
      subst IsEnded (some-injective found tokens (sym e ∙ h)) (IsTokenized-IsEnded g)
]

-- From a source to its tokens and on to the tree: if a token stands behind each `alias`, the parser never
-- reads behind the tokens of the lexer, and where it ends, it has passed the tokens before the `eof`.
pub parse_program-tokenize :
    (f : ℕ) (filename source : Bytes) (tokens : List Token)
    → lexer_tokenize filename source ≡ some tokens
    → IsNamed tokens
    → Ensures (PassedTo tokens) (parse_program f tokens)
parse_program-tokenize f filename source tokens h =
    parse_program-Ensures f tokens (tokenize-IsEnded filename source tokens h)
