-- ===== src/Parser/Follows.antt =====
-- The tables of operators of source/parser.c against those of the grammar, and the kinds with which an
-- expression of a level does not go on.
use atcc.Prelude.{arith, ℕ, zero, suc, ◌≤◌, ◌<◌, ◌≡◌, refl, sym, Bool, true, false, not, ◌||◌}
use mathlib.Core.Bool.{false≢true}
use atcc.Parser.Grammar.{
  IsOperator, IsPrefix, is_star, is_slash, is_percent, is_ampersand, is_left_shift, is_right_shift,
  is_plus, is_minus, is_caret, is_pipe, is_equal_equal, is_exclamation_equal, is_greater,
  is_greater_equal, is_less, is_less_equal, is_ampersand_ampersand, is_pipe_pipe, prefix_plus,
  prefix_minus, prefix_star, prefix_ampersand, prefix_exclamation, prefix_tilde, continues,
}
use atcc.Parser.Kinds.{parser_is_unary, is_level}
use atcc.Tokens.{TokenKind}

pub or_l : (a b : Bool) → (a || b) ≡ false → a ≡ false
or_l false b h = refl
or_l true b h = h

pub or_r : (a b : Bool) → (a || b) ≡ false → b ≡ false
or_r false b h = h
or_r true b h = absurd (false≢true (sym h))

pub level_stops : (n : ℕ) (k : TokenKind) → continues (suc n) k ≡ false → is_level (suc n) k ≡ false
level_stops n k = or_l (is_level (suc n) k) (continues n k)

pub below_stops : (n : ℕ) (k : TokenKind) → continues (suc n) k ≡ false → continues n k ≡ false
below_stops n k = or_r (is_level (suc n) k) (continues n k)

-- Behind an operator of a level no expression of a level below goes on: the kinds of one test are not
-- those of the other.
abbrev apart : ℕ → TokenKind → Bool
apart n k = not (is_level (suc n) k) || not (continues n k)

apart_0 : (k : TokenKind) → apart 0 k ≡ true
apart_0 TokenKind.eof = refl
apart_0 k = refl

apart_1 : (k : TokenKind) → apart 1 k ≡ true
apart_1 TokenKind.eof = refl
apart_1 k = refl

apart_2 : (k : TokenKind) → apart 2 k ≡ true
apart_2 TokenKind.eof = refl
apart_2 k = refl

apart_3 : (k : TokenKind) → apart 3 k ≡ true
apart_3 TokenKind.eof = refl
apart_3 k = refl

apart_4 : (k : TokenKind) → apart 4 k ≡ true
apart_4 TokenKind.eof = refl
apart_4 k = refl

not_both : (a b : Bool) → (not a || not b) ≡ true → a ≡ true → b ≡ false
not_both a false h g = refl
not_both true true h g = sym h
not_both false true h g = absurd (false≢true g)

level_ends : (n : ℕ) → n < 5 → (k : TokenKind) → is_level (suc n) k ≡ true → continues n k ≡ false
level_ends zero d k = not_both _ _ (apart_0 k)
level_ends (suc zero) d k = not_both _ _ (apart_1 k)
level_ends (suc (suc zero)) d k = not_both _ _ (apart_2 k)
level_ends (suc (suc (suc zero))) d k = not_both _ _ (apart_3 k)
level_ends (suc (suc (suc (suc zero)))) d k = not_both _ _ (apart_4 k)
level_ends (suc (suc (suc (suc (suc n))))) d k = absurd (omega (arith, d))

pub is_level-IsOperator : {n : ℕ} {k : TokenKind} → IsOperator n k → is_level n k ≡ true
is_level-IsOperator is_star = refl
is_level-IsOperator is_slash = refl
is_level-IsOperator is_percent = refl
is_level-IsOperator is_ampersand = refl
is_level-IsOperator is_left_shift = refl
is_level-IsOperator is_right_shift = refl
is_level-IsOperator is_plus = refl
is_level-IsOperator is_minus = refl
is_level-IsOperator is_caret = refl
is_level-IsOperator is_pipe = refl
is_level-IsOperator is_equal_equal = refl
is_level-IsOperator is_exclamation_equal = refl
is_level-IsOperator is_greater = refl
is_level-IsOperator is_greater_equal = refl
is_level-IsOperator is_less = refl
is_level-IsOperator is_less_equal = refl
is_level-IsOperator is_ampersand_ampersand = refl
is_level-IsOperator is_pipe_pipe = refl

IsOperator-bound : {n : ℕ} {k : TokenKind} → IsOperator n k → n ≤ 5
IsOperator-bound is_star = omega arith
IsOperator-bound is_slash = omega arith
IsOperator-bound is_percent = omega arith
IsOperator-bound is_ampersand = omega arith
IsOperator-bound is_left_shift = omega arith
IsOperator-bound is_right_shift = omega arith
IsOperator-bound is_plus = omega arith
IsOperator-bound is_minus = omega arith
IsOperator-bound is_caret = omega arith
IsOperator-bound is_pipe = omega arith
IsOperator-bound is_equal_equal = omega arith
IsOperator-bound is_exclamation_equal = omega arith
IsOperator-bound is_greater = omega arith
IsOperator-bound is_greater_equal = omega arith
IsOperator-bound is_less = omega arith
IsOperator-bound is_less_equal = omega arith
IsOperator-bound is_ampersand_ampersand = omega arith
IsOperator-bound is_pipe_pipe = omega arith

pub operator_ends : {n : ℕ} {k : TokenKind} → IsOperator (suc n) k → continues n k ≡ false
operator_ends {n} {k} o = level_ends n (omega (arith, IsOperator-bound o)) k (is_level-IsOperator o)

pub parser_is_unary-IsPrefix : {k : TokenKind} → IsPrefix k → parser_is_unary k ≡ true
parser_is_unary-IsPrefix prefix_plus = refl
parser_is_unary-IsPrefix prefix_minus = refl
parser_is_unary-IsPrefix prefix_star = refl
parser_is_unary-IsPrefix prefix_ampersand = refl
parser_is_unary-IsPrefix prefix_exclamation = refl
parser_is_unary-IsPrefix prefix_tilde = refl
