-- ===== src/Tokens.antt =====
-- Token kinds, locations and tokens of source/atcc.h. The constructors are the enumerators of
-- `TokenKind` without their prefix, in the same order.
pub mod Keywords
pub mod Ordinals
use atcc.Prelude.{ℕ, List}

pub data TokenKind : Type 0 where
  none eof identifier number string char plus minus star slash percent ampersand pipe caret :
      TokenKind
  tilde equal exclamation colon less greater dot comma question open_paren close_paren : TokenKind
  open_bracket close_bracket open_brace close_brace hash dollar at ampersand_ampersand : TokenKind
  pipe_pipe left_shift right_shift semicolon dot_dot plus_equal minus_equal star_equal : TokenKind
  slash_equal percent_equal ampersand_equal pipe_equal caret_equal tilde_equal : TokenKind
  ampersand_ampersand_equal pipe_pipe_equal left_shift_equal right_shift_equal equal_equal :
      TokenKind
  exclamation_equal colon_equal less_equal greater_equal kw_alias kw_alignof kw_break kw_case :
      TokenKind
  kw_cast kw_const kw_continue kw_default kw_do kw_else kw_enum kw_for kw_fun kw_if kw_offsetof :
      TokenKind
  kw_return kw_sizeof kw_struct kw_switch kw_union kw_var kw_while : TokenKind

pub record Location : Type 0 where
  pub file : List ℕ
  pub line : ℕ
  pub column : ℕ

-- `flags` is a set of `TokenFlag` bits.
pub record Token : Type 0 where
  pub kind : TokenKind
  pub flags : ℕ
  pub location : Location
  pub value : List ℕ
