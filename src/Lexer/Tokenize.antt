-- ===== src/Lexer/Tokenize.antt =====
-- `lexer_tokenize` of source/lexer.c. The token that is pushed at the start of a round and filled in
-- or, at a comment, taken off again, is appended at the round's end here.
use atcc.Prelude.Ctype.{isdigit, isalpha, isspace}
use atcc.Prelude.{
  ℕ, zero, suc, Bool, ◌||◌, Option, none, some, List, [], ◌∷◌, ◌++◌, ◌==◌, if◌then◌else◌, ◌>>=◌,
  length,
}
use atcc.Ati.Strings.{Bytes}
use atcc.Lexer.{
  Lexer, lexer_peek, lexer_read, skip, fuel_of, lexer_build_identifier, lexer_build_number,
  lexer_build_string_or_char, lexer_build_equal, lexer_skip_multiline_comment,
}
use atcc.Tokens.{TokenKind, Token}

-- The bytes -62 and -96 are those of a no-break space.
abbrev pub is_blank : ℕ → Bool
is_blank c = isspace c || (c == 194 || c == 160)

unfoldable pub blanks_from : ℕ → Lexer → Option Lexer
blanks_from zero l = none
blanks_from (suc fuel) l =
    let rest = blanks_from fuel (skip l) in if is_blank (lexer_peek l) then rest else some l

abbrev pub ends_line : ℕ → Bool
ends_line c = c == 0 || (c == b'\r' || c == b'\n')

unfoldable pub line_comment_from : ℕ → Lexer → Option Lexer
line_comment_from zero l = none
line_comment_from (suc fuel) l =
    let rest = line_comment_from fuel (skip l) in if ends_line (lexer_peek l) then some l else rest

-- `&`, `&&`, `&=` and `&&=`, and likewise for `|`, `<` and `>`
unfoldable pub lexer_double :
    ℕ → Lexer → TokenKind → TokenKind → TokenKind → TokenKind → TokenKind × Lexer
unfolding lexer_build_equal
lexer_double c l one one_equal two two_equal =
    if lexer_peek l == c
    then lexer_build_equal (skip l) two two_equal
    else lexer_build_equal l one one_equal

-- What a round leaves: a token, or nothing for a comment.
abbrev pub Round : Type 0
Round = Option (TokenKind × Bytes) × Lexer

abbrev pub plain : TokenKind × Lexer → Option Round
plain (kind, l) = some (some (kind, []), l)

unfoldable pub lexer_slash : Lexer → Option Round
unfolding line_comment_from lexer_build_equal
lexer_slash l =
    let line : Option Round = (line_comment_from (fuel_of l) (skip l) >>= λ l'. some (none, l')) in
    let block : Option Round = (lexer_skip_multiline_comment (skip l) >>= λ l'. some (none, l')) in
    if lexer_peek l == b'='
    then plain (TokenKind.slash_equal, skip l)
    else if lexer_peek l == b'/'
    then line
    else if lexer_peek l == b'*'
    then block
    else plain (TokenKind.slash, l)

-- The kinds of the bytes that are a token by themselves.
unfoldable pub single_kind : ℕ → Option TokenKind
single_kind c =
    if c == 0
    then some TokenKind.eof
    else if c == b','
    then some TokenKind.comma
    else if c == b'?'
    then some TokenKind.question
    else if c == b';'
    then some TokenKind.semicolon
    else if c == b'('
    then some TokenKind.open_paren
    else if c == b')'
    then some TokenKind.close_paren
    else if c == b'['
    then some TokenKind.open_bracket
    else if c == b']'
    then some TokenKind.close_bracket
    else if c == b'{'
    then some TokenKind.open_brace
    else if c == b'}'
    then some TokenKind.close_brace
    else if c == b'#'
    then some TokenKind.hash
    else if c == b'$'
    then some TokenKind.dollar
    else if c == b'@'
    then some TokenKind.at
    else none

-- The kinds of the bytes that may have `=` behind them: without it, and with it.
unfoldable pub equal_kinds : ℕ → Option (TokenKind × TokenKind)
equal_kinds c =
    if c == b'+'
    then some (TokenKind.plus, TokenKind.plus_equal)
    else if c == b'-'
    then some (TokenKind.minus, TokenKind.minus_equal)
    else if c == b'*'
    then some (TokenKind.star, TokenKind.star_equal)
    else if c == b'%'
    then some (TokenKind.percent, TokenKind.percent_equal)
    else if c == b'^'
    then some (TokenKind.caret, TokenKind.caret_equal)
    else if c == b'~'
    then some (TokenKind.tilde, TokenKind.tilde_equal)
    else if c == b'='
    then some (TokenKind.equal, TokenKind.equal_equal)
    else if c == b'!'
    then some (TokenKind.exclamation, TokenKind.exclamation_equal)
    else if c == b':'
    then some (TokenKind.colon, TokenKind.colon_equal)
    else none

-- The switch on `character`, read already; a byte with no case leaves TOKEN_NONE.
unfoldable pub lexer_switch : ℕ → Lexer → Option Round
unfolding lexer_double lexer_slash single_kind equal_kinds
lexer_switch c l =
    let dot : TokenKind × Lexer =
      (if lexer_peek l == b'.' then (TokenKind.dot_dot, skip l) else (TokenKind.dot, l)) in
    let other : Option Round = elim (single_kind c) [
      | some kind ↦ plain (kind, l)
      | none ↦ elim (equal_kinds c) [
        | some (one, two) ↦ plain (lexer_build_equal l one two)
        | none ↦ plain (TokenKind.none, l)
      ]
    ] in
    if c == b'.'
    then plain dot
    else if c == b'&'
    then plain (
        lexer_double b'&' l TokenKind.ampersand TokenKind.ampersand_equal
          TokenKind.ampersand_ampersand TokenKind.ampersand_ampersand_equal)
    else if c == b'|'
    then plain (
        lexer_double b'|' l TokenKind.pipe TokenKind.pipe_equal TokenKind.pipe_pipe
          TokenKind.pipe_pipe_equal)
    else if c == b'<'
    then plain (
        lexer_double b'<' l TokenKind.less TokenKind.less_equal TokenKind.left_shift
          TokenKind.left_shift_equal)
    else if c == b'>'
    then plain (
        lexer_double b'>' l TokenKind.greater TokenKind.greater_equal TokenKind.right_shift
          TokenKind.right_shift_equal)
    else if c == b'/'
    then lexer_slash l
    else other

abbrev pub filled : Option (TokenKind × Bytes × Lexer) → Option Round
filled m = m >>= λ r. some (some (r.0, r.1), r.2)

-- The rest of a round, behind the blanks.
unfoldable pub lex_token : Lexer → Option Round
unfolding lexer_switch
lex_token l =
    let c = lexer_peek l in
    if isalpha c || c == b'_'
    then filled (lexer_build_identifier l)
    else if isdigit c
    then filled (lexer_build_number l)
    else if c == b'"' || c == b'\''
    then filled (lexer_build_string_or_char (skip l) (lexer_read l).0)
    else lexer_switch (lexer_read l).0 (skip l)

abbrev pub token_at : Lexer → TokenKind × Bytes → Token
token_at l (kind, value) = record {
  kind = kind;
  flags = 0;
  location = record { file = l.filename; line = l.line; column = l.column };
  value = value;
}

abbrev pub push_token : List Token → Lexer → Option (TokenKind × Bytes) → List Token
push_token buffer l none = buffer
push_token buffer l (some t) = buffer ++ token_at l t ∷ []

-- The loop of `lexer_tokenize`. The value of the last token, which C leaves open, is taken as empty.
unfoldable pub tokenize_from : ℕ → Lexer → List Token → Option (List Token)
tokenize_from zero l buffer = none
tokenize_from (suc fuel) l buffer =
    let round : Option (List Token) = (do
      l' ← blanks_from (fuel_of l) l
      (t, l'') ← lex_token l'
      tokenize_from fuel l'' (push_token buffer l' t)) in
    if lexer_peek l == 0 then some (buffer ++ token_at l (TokenKind.eof, []) ∷ []) else round

abbrev pub start : Bytes → Bytes → Lexer
start filename source = record {
  filename = filename;
  source = source;
  offset = 0;
  line = 1;
  column = 1;
}

unfoldable pub lexer_tokenize : Bytes → Bytes → Option (List Token)
unfolding blanks_from lex_token tokenize_from
lexer_tokenize filename source = tokenize_from (suc (length source)) (start filename source) []
