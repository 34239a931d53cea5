-- ===== src/Tokens/Ordinals.antt =====
-- The places of the token kinds in the enum of source/atcc.h, by which the parser compares them.
use atcc.Prelude.{ℕ, Bool, ◌==◌}
use atcc.Tokens.{TokenKind}

abbrev pub token_ordinal : TokenKind → ℕ
token_ordinal TokenKind.none = 0
token_ordinal TokenKind.eof = 1
token_ordinal TokenKind.identifier = 2
token_ordinal TokenKind.number = 3
token_ordinal TokenKind.string = 4
token_ordinal TokenKind.char = 5
token_ordinal TokenKind.plus = 6
token_ordinal TokenKind.minus = 7
token_ordinal TokenKind.star = 8
token_ordinal TokenKind.slash = 9
token_ordinal TokenKind.percent = 10
token_ordinal TokenKind.ampersand = 11
token_ordinal TokenKind.pipe = 12
token_ordinal TokenKind.caret = 13
token_ordinal TokenKind.tilde = 14
token_ordinal TokenKind.equal = 15
token_ordinal TokenKind.exclamation = 16
token_ordinal TokenKind.colon = 17
token_ordinal TokenKind.less = 18
token_ordinal TokenKind.greater = 19
token_ordinal TokenKind.dot = 20
token_ordinal TokenKind.comma = 21
token_ordinal TokenKind.question = 22
token_ordinal TokenKind.open_paren = 23
token_ordinal TokenKind.close_paren = 24
token_ordinal TokenKind.open_bracket = 25
token_ordinal TokenKind.close_bracket = 26
token_ordinal TokenKind.open_brace = 27
token_ordinal TokenKind.close_brace = 28
token_ordinal TokenKind.hash = 29
token_ordinal TokenKind.dollar = 30
token_ordinal TokenKind.at = 31
token_ordinal TokenKind.ampersand_ampersand = 32
token_ordinal TokenKind.pipe_pipe = 33
token_ordinal TokenKind.left_shift = 34
token_ordinal TokenKind.right_shift = 35
token_ordinal TokenKind.semicolon = 36
token_ordinal TokenKind.dot_dot = 37
token_ordinal TokenKind.plus_equal = 38
token_ordinal TokenKind.minus_equal = 39
token_ordinal TokenKind.star_equal = 40
token_ordinal TokenKind.slash_equal = 41
token_ordinal TokenKind.percent_equal = 42
token_ordinal TokenKind.ampersand_equal = 43
token_ordinal TokenKind.pipe_equal = 44
token_ordinal TokenKind.caret_equal = 45
token_ordinal TokenKind.tilde_equal = 46
token_ordinal TokenKind.ampersand_ampersand_equal = 47
token_ordinal TokenKind.pipe_pipe_equal = 48
token_ordinal TokenKind.left_shift_equal = 49
token_ordinal TokenKind.right_shift_equal = 50
token_ordinal TokenKind.equal_equal = 51
token_ordinal TokenKind.exclamation_equal = 52
token_ordinal TokenKind.colon_equal = 53
token_ordinal TokenKind.less_equal = 54
token_ordinal TokenKind.greater_equal = 55
token_ordinal TokenKind.kw_alias = 56
token_ordinal TokenKind.kw_alignof = 57
token_ordinal TokenKind.kw_break = 58
token_ordinal TokenKind.kw_case = 59
token_ordinal TokenKind.kw_cast = 60
token_ordinal TokenKind.kw_const = 61
token_ordinal TokenKind.kw_continue = 62
token_ordinal TokenKind.kw_default = 63
token_ordinal TokenKind.kw_do = 64
token_ordinal TokenKind.kw_else = 65
token_ordinal TokenKind.kw_enum = 66
token_ordinal TokenKind.kw_for = 67
token_ordinal TokenKind.kw_fun = 68
token_ordinal TokenKind.kw_if = 69
token_ordinal TokenKind.kw_offsetof = 70
token_ordinal TokenKind.kw_return = 71
token_ordinal TokenKind.kw_sizeof = 72
token_ordinal TokenKind.kw_struct = 73
token_ordinal TokenKind.kw_switch = 74
token_ordinal TokenKind.kw_union = 75
token_ordinal TokenKind.kw_var = 76
token_ordinal TokenKind.kw_while = 77

abbrev pub same_kind : TokenKind → TokenKind → Bool
same_kind a b = token_ordinal a == token_ordinal b
