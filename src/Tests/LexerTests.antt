-- ===== src/Tests/LexerTests.antt =====
-- Runs of source/lexer.c, and its theorems at examples.
use Prim.Native.Char.{code}
use Prim.Native.String.{String}
use Prim.Native.Nat.{zero-le}
use atcc.Prelude.{
  arith, ℕ, ◌≡◌, ◌≢◌, ◌⊎◌, true, false, get_elem?, none, refl, Option, some, List, [], ◌∷◌, map,
  ◌>>=◌,
}
use atcc.Ati.Strings.{Bytes, string_match}
use atcc.Lexer.Operators.{lex_token-spell}
use atcc.Lexer.Positions.{IsTokenized, RunsOn, tokenize-IsTokenized}
use atcc.Lexer.Reads.{IsAt}
use atcc.Lexer.Strings.{closes, string_iff_closes}
use atcc.Lexer.Tokenize.{start, lex_token, lexer_tokenize}
use atcc.Lexer.Words.{lexer_build_identifier-word, hex_number-hex_value}
use atcc.Tokens.Keywords.{keywords}
use atcc.Lexer.{
  Lexer, keyword_kind, hex_number, string_from, lexer_read, lexer_peek, lexer_peek_next,
  lexer_build_identifier, lexer_build_number, lexer_build_string_or_char,
  lexer_skip_multiline_comment,
}
use atcc.Tokens.{TokenKind, Token}

abbrev codes : String → Bytes
codes String.[] = []
codes (String.◌∷◌ c s) = code c ∷ codes s

runs : Unit {0}
unfolding lexer_read lexer_peek lexer_peek_next lexer_build_identifier lexer_build_number
    lexer_build_string_or_char lexer_skip_multiline_comment lexer_tokenize string_match
runs = tt

abbrev lexed : String → Option (List (TokenKind × Bytes))
lexed s = lexer_tokenize [] (codes s) >>= λ ts. some (map (λ t. (Token.kind t, Token.value t)) ts)

start-IsAt : (source : Bytes) → IsAt [] source (start [] source)
start-IsAt source = record { file = refl; reads = refl; inside = zero-le; counted = refl }

lexes_assignment :
    lexed "if a<<=1 /* x */ // y"
    ≡ some (
        (TokenKind.kw_if, codes "if")
        ∷ (TokenKind.identifier, codes "a")
        ∷ (TokenKind.left_shift_equal, [])
        ∷ (TokenKind.number, codes "1")
        ∷ (TokenKind.eof, [])
        ∷ [])
unfolding runs
lexes_assignment = refl

tokenize-IsTokenized_example :
    ((lexer_tokenize [] (codes "x\n'y'") ≡ none) × RunsOn [] (codes "x\n'y'") 0)
    ⊎ ((tokens : List Token) × (lexer_tokenize [] (codes "x\n'y'") ≡ some tokens)
        × IsTokenized [] (codes "x\n'y'") 0 tokens)
tokenize-IsTokenized_example = tokenize-IsTokenized [] (codes "x\n'y'")

abbrev shifted : Bytes
shifted = codes "<<1"

lex_token-spell_example :
    (l' : Lexer) × (lex_token (start [] shifted) ≡ some (some (TokenKind.left_shift, []), l'))
    × IsAt [] shifted l'
    × (l'.offset ≡ 2)
lex_token-spell_example =
    lex_token-spell [] shifted TokenKind.left_shift (codes "<<") (codes "1") (start [] shifted) refl
      (λ c cs e. let a : b'1' ≡ c = ground (arith, e) in rw (← a) refl) (start-IsAt shifted) refl

abbrev conditional : Bytes
conditional = codes "if("

lexer_build_identifier-word_example :
    (l' : Lexer) × (lexer_build_identifier (start [] conditional)
      ≡ some (keyword_kind keywords (codes "if"), codes "if", l'))
    × (l'.offset ≡ 2)
    × ((i : ℕ) (kind : TokenKind)
        → get_elem? keywords i ≡ some (codes "if", kind)
        → keyword_kind keywords (codes "if") ≡ kind)
    × (((i : ℕ) (kind : TokenKind) → get_elem? keywords i ≢ some (codes "if", kind))
        → keyword_kind keywords (codes "if") ≡ TokenKind.identifier)
lexer_build_identifier-word_example =
    lexer_build_identifier-word [] conditional (codes "if") (codes "(") (start [] conditional)
      (start-IsAt conditional) (refl, (refl, tt)) refl refl

hex_number-hex_value_example : hex_number b'c' ≡ 44
hex_number-hex_value_example = hex_number-hex_value b'c' refl

abbrev unclosed : Bytes
unclosed = codes "a\\'"

string_iff_closes_example :
    (closes b'\'' false unclosed ≡ true
      → (r : TokenKind × Bytes × Lexer) × (lexer_build_string_or_char (start [] unclosed) b'\''
          ≡ some r))
    × (closes b'\'' false unclosed ≡ false
        → (fuel : ℕ) (buffer : Bytes) → string_from fuel (start [] unclosed) b'\'' buffer ≡ none)
string_iff_closes_example =
    string_iff_closes [] unclosed b'\'' refl (start [] unclosed) (start-IsAt unclosed)
