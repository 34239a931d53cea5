-- ===== src/Lexer.antt =====
-- The scanner routines of source/lexer.c. An `i8` is its byte, 0 to 255. The bytes that a routine
-- collects are its result; `none` means that the loop's fuel ran out, and the loops get more fuel than
-- the source has bytes. Line and column are not bounded.
pub mod Tokenize
pub mod Reads
pub mod Loops
pub mod Literals
pub mod Rounds
pub mod Starts
pub mod Strings
pub mod Outcomes
pub mod Positions
pub mod Words
pub mod Operators
use atcc.Prelude.{
  ℕ, zero, suc, ◌+◌, ◌-◌, ◌*◌, ◌%◌, Bool, true, false, not, ◌&&◌, ◌||◌, Option, none, some, List,
  [], ◌∷◌, ◌++◌, ltb, leb, ◌==◌, if◌then◌else◌, ◌>>=◌, length, get_or,
}
use atcc.Ati.Strings.{Bytes, string_match}
use atcc.Prelude.Ctype.{isdigit, isalnum, isxdigit}
use atcc.Tokens.Keywords.{keywords}
use atcc.Tokens.{TokenKind}

pub record Lexer : Type 0 where
  pub filename : Bytes
  pub source : Bytes
  pub offset : ℕ
  pub line : ℕ
  pub column : ℕ

unfoldable pub lexer_read : Lexer → ℕ × Lexer
lexer_read l =
    if leb (length l.source) l.offset
    then (0, l)
    else let c = get_or l.source l.offset 0 in
      (
        c,
        record l {
          offset = l.offset + 1;
          line = if c == b'\n' then l.line + 1 else l.line;
          column = if c == b'\n' then 1 else l.column + 1;
        },
      )

unfoldable pub lexer_peek : Lexer → ℕ
lexer_peek l = if leb (length l.source) l.offset then 0 else get_or l.source l.offset 0

unfoldable pub lexer_peek_next : Lexer → ℕ
lexer_peek_next l =
    if leb (length l.source) (l.offset + 1) then 0 else get_or l.source (l.offset + 1) 0

-- a read whose result is not used
abbrev pub skip : Lexer → Lexer
skip l = (lexer_read l).1

-- `vector_push(buffer, lexer_read(lexer))`
abbrev pub take_byte : Lexer → Bytes → Bytes
take_byte l buffer = buffer ++ (lexer_read l).0 ∷ []

-- the kind of the first keyword that matches, or an identifier
unfoldable pub keyword_kind : List (Bytes × TokenKind) → Bytes → TokenKind
keyword_kind [] value = TokenKind.identifier
keyword_kind ((ident, kind) ∷ ks) value =
    if string_match value ident then kind else keyword_kind ks value

abbrev pub is_word : ℕ → Bool
is_word c = isalnum c || c == b'_'

unfoldable pub identifier_from : ℕ → Lexer → Bytes → Option (Bytes × Lexer)
identifier_from zero l buffer = none
identifier_from (suc fuel) l buffer =
    let rest = identifier_from fuel (skip l) (take_byte l buffer) in
    if is_word (lexer_peek l) then rest else some (buffer, l)

-- enough for every loop: each round of one reads a byte of the source
abbrev pub fuel_of : Lexer → ℕ
fuel_of l = suc (length l.source)

unfoldable pub lexer_build_identifier : Lexer → Option (TokenKind × Bytes × Lexer)
unfolding identifier_from keyword_kind
lexer_build_identifier l = do
  (value, l') ← identifier_from (fuel_of l) l []
  some (keyword_kind keywords value, value, l')

-- At a second dot the lexer steps back by one byte.
unfoldable pub number_from : ℕ → Lexer → Bytes → Bool → Option (Bytes × Lexer)
number_from zero l buffer seen_dot = none
number_from (suc fuel) l buffer seen_dot =
    let dot = lexer_peek l == b'.' in
    let rest = number_from fuel (skip l) (take_byte l buffer) (seen_dot || dot) in
    if isdigit (lexer_peek l) || dot
    then (if dot && seen_dot then some (buffer, record l { offset = l.offset - 1 }) else rest)
    else some (buffer, l)

unfoldable pub lexer_build_number : Lexer → Option (TokenKind × Bytes × Lexer)
unfolding number_from
lexer_build_number l = do
  (value, l') ← number_from (fuel_of l) l [] false
  some (TokenKind.number, value, l')

-- `hex_character - '0'` or `hex_character - 'A' + 10`, on a u8
abbrev pub hex_number : ℕ → ℕ
hex_number c = if isdigit c then c - b'0' else (c + 256 - b'A' + 10) % 256

unfoldable pub hex_from : ℕ → Lexer → ℕ → Option (ℕ × Lexer)
hex_from zero l digit = none
hex_from (suc fuel) l digit =
    let rest = hex_from fuel (skip l) ((digit * 16 + hex_number (lexer_read l).0) % 256) in
    if isxdigit (lexer_peek l) then rest else some (digit, l)

-- The byte of a one-letter escape.
abbrev pub escape_byte : ℕ → Option ℕ
escape_byte c =
    if c == b'n'
    then some b'\n'
    else if c == b'r'
    then some b'\r'
    else if c == b't'
    then some b'\t'
    else if c == b'0'
    then some 0
    else if c == b'\\' || (c == b'\'' || c == b'"')
    then some c
    else none

-- The switch on the byte behind a backslash: the bytes that it pushes.
unfoldable pub escape : ℕ → Lexer → Option (Bytes × Lexer)
unfolding hex_from
escape c l =
    let hex : Option (Bytes × Lexer) = (hex_from (fuel_of l) l 0 >>= λ r. some (r.0 ∷ [], r.1)) in
    let other : Option (Bytes × Lexer) = elim (escape_byte c) [
      | some b ↦ some (b ∷ [], l)
      | none ↦ some (b'\\' ∷ c ∷ [], l)
    ] in
    if c == b'x' || c == b'X' then hex else other

-- one round of the string loop: the bytes that it pushes
unfoldable pub string_step : Lexer → Option (Bytes × Lexer)
unfolding escape
string_step l =
    let (c, l') = lexer_read l in
    let escaped = escape (lexer_read l').0 (skip l') in
    if c == b'\\' then escaped else some (c ∷ [], l')

unfoldable pub string_from : ℕ → Lexer → ℕ → Bytes → Option (Bytes × Lexer)
string_from zero l terminator buffer = none
string_from (suc fuel) l terminator buffer =
    let rest : Option (Bytes × Lexer) =
      (string_step l >>= λ r. string_from fuel r.1 terminator (buffer ++ r.0)) in
    if lexer_peek l == terminator then some (buffer, l) else rest

unfoldable pub lexer_build_string_or_char : Lexer → ℕ → Option (TokenKind × Bytes × Lexer)
unfolding string_from
lexer_build_string_or_char l terminator = do
  (buffer, l') ← string_from (fuel_of l) l terminator []
  some
      ((if terminator == b'"' then TokenKind.string else TokenKind.char), buffer ++ 0 ∷ [], skip l')

unfoldable pub lexer_build_equal : Lexer → TokenKind → TokenKind → TokenKind × Lexer
lexer_build_equal l token1 token2 = if lexer_peek l == b'=' then (token2, skip l) else (token1, l)

unfoldable pub multiline_from : ℕ → Lexer → ℕ → Option Lexer
multiline_from zero l level = none
multiline_from (suc fuel) l level =
    let opens = lexer_peek l == b'/' && lexer_peek_next l == b'*' in
    let closes = lexer_peek l == b'*' && lexer_peek_next l == b'/' in
    let l' = if opens || closes then skip (skip l) else skip l in
    let level' = if opens then level + 1 else if closes then level - 1 else level in
    let rest = multiline_from fuel l' level' in
    if not (lexer_peek l == 0) && ltb 0 level then rest else some l

unfoldable pub lexer_skip_multiline_comment : Lexer → Option Lexer
unfolding multiline_from
lexer_skip_multiline_comment l = multiline_from (fuel_of l) l 1
