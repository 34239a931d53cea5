-- ===== src/Config.antt =====
-- The option files of source/ati/config.c. A loop on `index < data.length` is recursion on the bytes
-- from the index on. Line and column are not bounded.
pub mod Parse
pub mod Ends
pub mod Terminates
use atcc.Prelude.{
  ℕ, zero, suc, ◌+◌, ◌-◌, Bool, true, false, ◌&&◌, ◌||◌, Option, none, some, List, [], ◌∷◌, ◌++◌,
  ltb, leb, ◌==◌, if◌then◌else◌, length, get_or, take, drop,
}
use atcc.Prelude.Ctype.{isalpha, isalnum, isspace}
use atcc.Ati.Strings.{Bytes}

pub data OptTokenKind : Type 0 where
  empty eof error string identifier equals open_bracket close_bracket at comma : OptTokenKind

-- the place in the enum
abbrev pub opt_ordinal : OptTokenKind → ℕ
opt_ordinal OptTokenKind.empty = 0
opt_ordinal OptTokenKind.eof = 1
opt_ordinal OptTokenKind.error = 2
opt_ordinal OptTokenKind.string = 3
opt_ordinal OptTokenKind.identifier = 4
opt_ordinal OptTokenKind.equals = 5
opt_ordinal OptTokenKind.open_bracket = 6
opt_ordinal OptTokenKind.close_bracket = 7
opt_ordinal OptTokenKind.at = 8
opt_ordinal OptTokenKind.comma = 9

pub record OptToken : Type 0 where
  pub kind : OptTokenKind
  pub value : Bytes
  pub line : ℕ
  pub column : ℕ

pub record OptLexer : Type 0 where
  pub filename : Bytes
  pub text : Bytes
  pub index : ℕ
  pub line : ℕ
  pub column : ℕ

unfoldable pub opt_lexer_init : Bytes → Bytes → OptLexer
opt_lexer_init filename text = record {
  filename = filename;
  text = text;
  index = 0;
  line = 1;
  column = 1;
}

abbrev pub rest_of : OptLexer → Bytes
rest_of l = drop l.index l.text

-- `index++` and `column++`
abbrev pub step : OptLexer → OptLexer
step l = record l { index = l.index + 1; column = l.column + 1 }

unfoldable pub skip_from : Bytes → OptLexer → OptLexer
skip_from [] l = l
skip_from (c ∷ cs) l =
    let newline = record l { index = l.index + 1; line = l.line + 1; column = 1 } in
    let rest = skip_from cs (if c == b'\n' then newline else step l) in
    if isspace c then rest else l

unfoldable pub opt_lexer_skip_whitespace : OptLexer → OptLexer
unfolding skip_from
opt_lexer_skip_whitespace l = skip_from (rest_of l) l

-- the loop over a comment, which counts the line and leaves the newline to the skipping of blanks
unfoldable pub comment_from : Bytes → OptLexer → OptLexer
comment_from [] l = l
comment_from (c ∷ cs) l =
    let ended = opt_lexer_skip_whitespace (record l { line = l.line + 1; column = 1 }) in
    let rest = comment_from cs (step l) in if c == b'\n' then ended else rest

unfoldable pub skip_comment : OptLexer → OptLexer
unfolding comment_from opt_lexer_skip_whitespace
skip_comment l =
    if get_or l.text l.index 0 == b'#'
    then opt_lexer_skip_whitespace (comment_from (rest_of l) l)
    else l

abbrev pub opt_token : OptLexer → OptTokenKind → Bytes → OptToken
opt_token l kind value = record { kind = kind; value = value; line = l.line; column = l.column }

abbrev pub between : OptLexer → ℕ → ℕ → Bytes
between l start n = take n (drop start l.text)

-- the loop over a string, with the lexer behind the opening quote at the start
unfoldable pub quoted_from : Bytes → OptLexer → Option OptLexer
quoted_from [] l = none
quoted_from (c ∷ cs) l =
    let rest = quoted_from cs (step l) in if c == b'"' then some (step l) else rest

abbrev pub is_name : ℕ → Bool
is_name c = isalnum c || (c == b'_' || c == b'-')

unfoldable pub name_from : Bytes → OptLexer → OptLexer
name_from [] l = l
name_from (c ∷ cs) l = let rest = name_from cs (step l) in if is_name c then rest else l

-- the bytes that are a token by themselves
abbrev pub mark_kind : ℕ → Option OptTokenKind
mark_kind c =
    if c == b'='
    then some OptTokenKind.equals
    else if c == b'['
    then some OptTokenKind.open_bracket
    else if c == b']'
    then some OptTokenKind.close_bracket
    else if c == b'@'
    then some OptTokenKind.at
    else if c == b','
    then some OptTokenKind.comma
    else none

-- The token that begins at the lexer; `first` is the lexer before the blanks, where the token's line and
-- column are taken.
unfoldable pub token_from : OptLexer → OptLexer → OptToken × OptLexer
unfolding quoted_from name_from
token_from first l =
    let c = get_or l.text l.index 0 in
    let quoted : OptToken × OptLexer = elim (quoted_from (rest_of (step l)) (step l)) [
      | some l' ↦ (
        opt_token first OptTokenKind.string
            (between l (l.index + 1) (l'.index - (l.index + 1) - 1)),
        l',
      )
      | none ↦ (opt_token first OptTokenKind.error [], record l { index = length l.text })
    ] in
    let named = name_from (rest_of l) l in
    let mark : OptToken × OptLexer = elim (mark_kind c) [
      | some kind ↦ (opt_token first kind [], step l)
      | none ↦ (opt_token first OptTokenKind.error [], l)
    ] in
    if c == b'"'
    then quoted
    else if isalpha c || (c == b'_' || c == b'-')
    then (
      opt_token first OptTokenKind.identifier (between l l.index (named.index - l.index)),
      named,
    )
    else mark

unfoldable pub opt_lexer_next : OptLexer → OptToken × OptLexer
unfolding opt_lexer_skip_whitespace skip_comment token_from
opt_lexer_next l =
    let l₁ = opt_lexer_skip_whitespace l in
    let l₂ = skip_comment l₁ in
    if leb (length l₁.text) l₁.index
    then (opt_token l OptTokenKind.eof [], l₁)
    else if leb (length l₂.text) l₂.index
    then (opt_token l OptTokenKind.eof [], l₂)
    else token_from l l₂
