-- ===== src/Lexer/Operators.antt =====
-- The operators of source/lexer.c are read back from their spelling, the longest first.
use atcc.Prelude.{
  ℕ, ◌+◌, ◌≡◌, ◌≢◌, refl, ◌∙◌, arith, Bool, false, ◌||◌, Option, none, some, [], ◌∷◌, ◌++◌, ◌==◌,
  length,
}
use atcc.Ati.Strings.{Bytes}
use atcc.Lexer.Reads.{IsAt, skip-IsAt}
use atcc.Lexer.Tokenize.{lexer_switch, lex_token}
use atcc.Lexer.Words.{Before, at_byte, peek_nothing}
use atcc.Lexer.{Lexer, lexer_peek, lexer_read, skip}
use atcc.Tokens.{TokenKind}

-- the spelling of the operators and of the punctuation
abbrev pub spell : TokenKind → Option Bytes
spell TokenKind.plus = some (b'+' ∷ [])
spell TokenKind.minus = some (b'-' ∷ [])
spell TokenKind.star = some (b'*' ∷ [])
spell TokenKind.slash = some (b'/' ∷ [])
spell TokenKind.percent = some (b'%' ∷ [])
spell TokenKind.ampersand = some (b'&' ∷ [])
spell TokenKind.pipe = some (b'|' ∷ [])
spell TokenKind.caret = some (b'^' ∷ [])
spell TokenKind.tilde = some (b'~' ∷ [])
spell TokenKind.equal = some (b'=' ∷ [])
spell TokenKind.exclamation = some (b'!' ∷ [])
spell TokenKind.colon = some (b':' ∷ [])
spell TokenKind.less = some (b'<' ∷ [])
spell TokenKind.greater = some (b'>' ∷ [])
spell TokenKind.dot = some (b'.' ∷ [])
spell TokenKind.comma = some (b',' ∷ [])
spell TokenKind.question = some (b'?' ∷ [])
spell TokenKind.open_paren = some (b'(' ∷ [])
spell TokenKind.close_paren = some (b')' ∷ [])
spell TokenKind.open_bracket = some (b'[' ∷ [])
spell TokenKind.close_bracket = some (b']' ∷ [])
spell TokenKind.open_brace = some (b'{' ∷ [])
spell TokenKind.close_brace = some (b'}' ∷ [])
spell TokenKind.hash = some (b'#' ∷ [])
spell TokenKind.dollar = some (b'$' ∷ [])
spell TokenKind.at = some (b'@' ∷ [])
spell TokenKind.ampersand_ampersand = some (b'&' ∷ b'&' ∷ [])
spell TokenKind.pipe_pipe = some (b'|' ∷ b'|' ∷ [])
spell TokenKind.left_shift = some (b'<' ∷ b'<' ∷ [])
spell TokenKind.right_shift = some (b'>' ∷ b'>' ∷ [])
spell TokenKind.semicolon = some (b';' ∷ [])
spell TokenKind.dot_dot = some (b'.' ∷ b'.' ∷ [])
spell TokenKind.plus_equal = some (b'+' ∷ b'=' ∷ [])
spell TokenKind.minus_equal = some (b'-' ∷ b'=' ∷ [])
spell TokenKind.star_equal = some (b'*' ∷ b'=' ∷ [])
spell TokenKind.slash_equal = some (b'/' ∷ b'=' ∷ [])
spell TokenKind.percent_equal = some (b'%' ∷ b'=' ∷ [])
spell TokenKind.ampersand_equal = some (b'&' ∷ b'=' ∷ [])
spell TokenKind.pipe_equal = some (b'|' ∷ b'=' ∷ [])
spell TokenKind.caret_equal = some (b'^' ∷ b'=' ∷ [])
spell TokenKind.tilde_equal = some (b'~' ∷ b'=' ∷ [])
spell TokenKind.ampersand_ampersand_equal = some (b'&' ∷ b'&' ∷ b'=' ∷ [])
spell TokenKind.pipe_pipe_equal = some (b'|' ∷ b'|' ∷ b'=' ∷ [])
spell TokenKind.left_shift_equal = some (b'<' ∷ b'<' ∷ b'=' ∷ [])
spell TokenKind.right_shift_equal = some (b'>' ∷ b'>' ∷ b'=' ∷ [])
spell TokenKind.equal_equal = some (b'=' ∷ b'=' ∷ [])
spell TokenKind.exclamation_equal = some (b'!' ∷ b'=' ∷ [])
spell TokenKind.colon_equal = some (b':' ∷ b'=' ∷ [])
spell TokenKind.less_equal = some (b'<' ∷ b'=' ∷ [])
spell TokenKind.greater_equal = some (b'>' ∷ b'=' ∷ [])
spell _ = none

-- the bytes that make this spelling longer, or a comment of a slash
abbrev pub extends : TokenKind → ℕ → Bool
extends TokenKind.plus c = c == b'='
extends TokenKind.minus c = c == b'='
extends TokenKind.star c = c == b'='
extends TokenKind.percent c = c == b'='
extends TokenKind.caret c = c == b'='
extends TokenKind.tilde c = c == b'='
extends TokenKind.equal c = c == b'='
extends TokenKind.exclamation c = c == b'='
extends TokenKind.colon c = c == b'='
extends TokenKind.ampersand_ampersand c = c == b'='
extends TokenKind.pipe_pipe c = c == b'='
extends TokenKind.left_shift c = c == b'='
extends TokenKind.right_shift c = c == b'='
extends TokenKind.ampersand c = c == b'=' || c == b'&'
extends TokenKind.pipe c = c == b'=' || c == b'|'
extends TokenKind.less c = c == b'=' || c == b'<'
extends TokenKind.greater c = c == b'=' || c == b'>'
extends TokenKind.slash c = c == b'=' || (c == b'/' || c == b'*')
extends TokenKind.dot c = c == b'.'
extends _ c = false

switch_one :
    (kind : TokenKind) (c : ℕ) (l : Lexer)
    → spell kind ≡ some (c ∷ [])
    → extends kind (lexer_peek l) ≡ false
    → lexer_switch c l ≡ some (some (kind, []), l)
unfolding lexer_switch
switch_one TokenKind.plus c l h e = ground arith
switch_one _ c l h e = ground arith

switch_two :
    (kind : TokenKind) (c d : ℕ) (l : Lexer)
    → spell kind ≡ some (c ∷ d ∷ [])
    → lexer_peek l ≡ d
    → extends kind (lexer_peek (skip l)) ≡ false
    → lexer_switch c l ≡ some (some (kind, []), skip l)
unfolding lexer_switch
switch_two TokenKind.plus c d l h p e = ground arith
switch_two _ c d l h p e = ground arith

switch_three :
    (kind : TokenKind) (c d f : ℕ) (l : Lexer)
    → spell kind ≡ some (c ∷ d ∷ f ∷ [])
    → lexer_peek l ≡ d
    → lexer_peek (skip l) ≡ f
    → lexer_switch c l ≡ some (some (kind, []), skip (skip l))
unfolding lexer_switch
switch_three TokenKind.plus c d f l h p q = ground arith
switch_three _ c d f l h p q = ground arith

lex_token-switch :
    (kind : TokenKind) (c : ℕ) (s : Bytes) (l : Lexer)
    → spell kind ≡ some (c ∷ s)
    → lexer_peek l ≡ c
    → lex_token l ≡ lexer_switch (lexer_read l).0 (skip l)
unfolding lex_token
lex_token-switch TokenKind.plus c s l h p = ground arith
lex_token-switch _ c s l h p = ground arith

-- No spelling is empty, or longer than three bytes.
spell_short : (kind : TokenKind) (c d f g : ℕ) (s : Bytes) → spell kind ≢ some (c ∷ d ∷ f ∷ g ∷ s)
spell_short TokenKind.plus c d f g s h = cc
spell_short _ c d f g s h = cc

spell-some : (kind : TokenKind) → spell kind ≢ some []
spell-some TokenKind.plus h = cc
spell-some _ h = cc

extends_zero : (kind : TokenKind) → extends kind 0 ≡ false
extends_zero TokenKind.plus = refl
extends_zero _ = refl

module _ (filename source : Bytes) where
  extends_at :
      (kind : TokenKind) (l : Lexer) (rest : Bytes)
      → IsAt filename source l
      → Before filename source l rest
      → ((c : ℕ) (cs : Bytes) → rest ≡ c ∷ cs → extends kind c ≡ false)
      → extends kind (lexer_peek l) ≡ false
  extends_at kind l [] a h e = rw (peek_nothing filename source l a h) (extends_zero kind)
  extends_at kind l (c ∷ cs) a h e = rw (at_byte filename source l c cs a h).1 (e c cs refl)

  -- Before the spelling of an operator or a punctuation mark, and then no byte that makes this spelling
  -- longer, or a comment of a slash, the lexer reads that token and its whole spelling.
  pub lex_token-spell :
      (kind : TokenKind) (s rest : Bytes) (l : Lexer)
      → spell kind ≡ some s
      → ((c : ℕ) (cs : Bytes) → rest ≡ c ∷ cs → extends kind c ≡ false)
      → IsAt filename source l
      → Before filename source l (s ++ rest)
      → (l' : Lexer) × (lex_token l ≡ some (some (kind, []), l'))
        × IsAt filename source l'
        × (l'.offset ≡ l.offset + length s)
  lex_token-spell kind [] rest l h e a b = absurd (spell-some kind h)
  lex_token-spell kind (c ∷ []) rest l h e a b =
      let (inside, peek, read, next) = at_byte filename source l c rest a b in
      let (a₁, o) = skip-IsAt a inside in
      let run = switch_one kind c (skip l) h (extends_at kind (skip l) rest a₁ next e) in
      (skip l, lex_token-switch kind c [] l h peek ∙ rw read run, a₁, o)
  lex_token-spell kind (c ∷ d ∷ []) rest l h e a b =
      let (inside, peek, read, next) = at_byte filename source l c (d ∷ rest) a b in
      let (a₁, o) = skip-IsAt a inside in
      let (inside₁, peek₁, read₁, next₁) = at_byte filename source (skip l) d rest a₁ next in
      let (a₂, o₁) = skip-IsAt a₁ inside₁ in
      let run =
        switch_two kind c d (skip l) h peek₁ (extends_at kind (skip (skip l)) rest a₂ next₁ e) in
      (
        skip (skip l),
        lex_token-switch kind c (d ∷ []) l h peek ∙ rw read run,
        a₂,
        omega (arith, o, o₁),
      )
  lex_token-spell kind (c ∷ d ∷ f ∷ []) rest l h e a b =
      let (inside, peek, read, next) = at_byte filename source l c (d ∷ f ∷ rest) a b in
      let (a₁, o) = skip-IsAt a inside in
      let (inside₁, peek₁, read₁, next₁) = at_byte filename source (skip l) d (f ∷ rest) a₁ next in
      let (a₂, o₁) = skip-IsAt a₁ inside₁ in
      let (inside₂, peek₂, read₂, next₂) =
        at_byte filename source (skip (skip l)) f rest a₂ next₁ in
      let (a₃, o₂) = skip-IsAt a₂ inside₂ in
      let run = switch_three kind c d f (skip l) h peek₁ peek₂ in
      (
        skip (skip (skip l)),
        lex_token-switch kind c (d ∷ f ∷ []) l h peek ∙ rw read run,
        a₃,
        omega (arith, o, o₁, o₂),
      )
  lex_token-spell kind (c ∷ d ∷ f ∷ g ∷ s) rest l h e a b = absurd (spell_short kind c d f g s h)
