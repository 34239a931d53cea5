-- ===== src/Parser/Kinds.antt =====
-- The tests of source/parser.c on the kind of the current token.
use atcc.Prelude.{ℕ, zero, suc, Bool, true, false}
use atcc.Tokens.{TokenKind}

abbrev pub parser_is_unary : TokenKind → Bool
parser_is_unary TokenKind.plus = true
parser_is_unary TokenKind.minus = true
parser_is_unary TokenKind.star = true
parser_is_unary TokenKind.ampersand = true
parser_is_unary TokenKind.exclamation = true
parser_is_unary TokenKind.tilde = true
parser_is_unary _ = false

abbrev pub parser_is_mul : TokenKind → Bool
parser_is_mul TokenKind.star = true
parser_is_mul TokenKind.slash = true
parser_is_mul TokenKind.percent = true
parser_is_mul TokenKind.ampersand = true
parser_is_mul TokenKind.left_shift = true
parser_is_mul TokenKind.right_shift = true
parser_is_mul _ = false

abbrev pub parser_is_add : TokenKind → Bool
parser_is_add TokenKind.plus = true
parser_is_add TokenKind.minus = true
parser_is_add TokenKind.caret = true
parser_is_add TokenKind.pipe = true
parser_is_add _ = false

abbrev pub parser_is_cmp : TokenKind → Bool
parser_is_cmp TokenKind.equal_equal = true
parser_is_cmp TokenKind.exclamation_equal = true
parser_is_cmp TokenKind.greater = true
parser_is_cmp TokenKind.greater_equal = true
parser_is_cmp TokenKind.less = true
parser_is_cmp TokenKind.less_equal = true
parser_is_cmp _ = false

abbrev pub parser_is_assign : TokenKind → Bool
parser_is_assign TokenKind.plus_equal = true
parser_is_assign TokenKind.minus_equal = true
parser_is_assign TokenKind.star_equal = true
parser_is_assign TokenKind.slash_equal = true
parser_is_assign TokenKind.percent_equal = true
parser_is_assign TokenKind.ampersand_equal = true
parser_is_assign TokenKind.pipe_equal = true
parser_is_assign TokenKind.caret_equal = true
parser_is_assign TokenKind.tilde_equal = true
parser_is_assign TokenKind.ampersand_ampersand_equal = true
parser_is_assign TokenKind.pipe_pipe_equal = true
parser_is_assign TokenKind.left_shift_equal = true
parser_is_assign TokenKind.right_shift_equal = true
parser_is_assign TokenKind.equal = true
parser_is_assign _ = false

abbrev is_and : TokenKind → Bool
is_and TokenKind.ampersand_ampersand = true
is_and _ = false

abbrev is_or : TokenKind → Bool
is_or TokenKind.pipe_pipe = true
is_or _ = false

-- The operators of a level: 1 for `parse_expression_mul`, and on to 5 for `parse_expression_or`.
abbrev pub is_level : ℕ → TokenKind → Bool
is_level zero kind = false
is_level (suc zero) kind = parser_is_mul kind
is_level (suc (suc zero)) kind = parser_is_add kind
is_level (suc (suc (suc zero))) kind = parser_is_cmp kind
is_level (suc (suc (suc (suc zero)))) kind = is_and kind
is_level (suc (suc (suc (suc (suc n))))) kind = is_or kind
