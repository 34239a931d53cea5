-- ===== src/Eval/Integers.antt =====
-- The operators of source/eval.c on integers, from the bits of the operands: `make_eval_binary`. A type
-- narrower than 32 bits is promoted to `int`. Signed overflow wraps. A division by 0, the division of the
-- least `i32` or `i64` by -1, and a shift by as many bits as the promoted operand has, or by a negative
-- number, have no defined result.
use Prim.Native.Nat.{bit_and, bit_or, bit_xor}
use atcc.Prelude.{
  ℕ, ◌+◌, ◌-◌, ◌*◌, ◌/◌, ◌%◌, ◌^◌, Bool, not, ◌&&◌, ◌||◌, Option, some, none, ltb, leb, ◌==◌,
  if◌then◌else◌,
}
use atcc.Tokens.{TokenKind}

-- the width in bits, and whether the type is signed
pub record IntType : Type 0 where
  pub width : ℕ
  pub is_signed : Bool

abbrev pub modulus : IntType → ℕ
modulus T = 2 ^ T.width

-- whether the bits stand for a negative number
abbrev is_negative : IntType → ℕ → Bool
is_negative T a = T.is_signed && leb (2 ^ (T.width - 1)) a

abbrev magnitude : IntType → ℕ → ℕ
magnitude T a = if is_negative T a then modulus T - a else a

abbrev with_sign : IntType → Bool → ℕ → ℕ
with_sign T is_minus a = if is_minus then (modulus T - a) % modulus T else a % modulus T

-- the division of the least number by -1, at the width at which it is computed
abbrev overflows : IntType → ℕ → ℕ → Bool
overflows T a b = T.is_signed && (leb 32 T.width && (a == 2 ^ (T.width - 1) && b == modulus T - 1))

abbrev divides : IntType → ℕ → ℕ → Bool
divides T a b = not (b == 0) && not (overflows T a b)

abbrev promoted : IntType → ℕ
promoted T = if ltb T.width 32 then 32 else T.width

-- the order of the numbers that the bits stand for
abbrev less : IntType → ℕ → ℕ → Bool
less T a b =
    if is_negative T a then not (is_negative T b) || ltb a b else (not (is_negative T b) && ltb a b)

abbrev pub from_bool : Bool → ℕ
from_bool b = if b then 1 else 0

abbrev shift_right : IntType → ℕ → ℕ → ℕ
shift_right T a n =
    if is_negative T a then modulus T - 1 - (modulus T - 1 - a) / 2 ^ n else a / 2 ^ n

abbrev shifts : IntType → ℕ → Bool
shifts T n = not (is_negative T n) && ltb n (promoted T)

unfoldable pub eval_binary_int : IntType → TokenKind → ℕ → ℕ → Option ℕ
eval_binary_int T TokenKind.plus a b = some ((a + b) % modulus T)
eval_binary_int T TokenKind.minus a b = some ((a + (modulus T - b)) % modulus T)
eval_binary_int T TokenKind.star a b = some (a * b % modulus T)
eval_binary_int T TokenKind.slash a b =
    if divides T a b
    then some (
        with_sign T (not (from_bool (is_negative T a) == from_bool (is_negative T b)))
          (magnitude T a / magnitude T b))
    else none
eval_binary_int T TokenKind.percent a b =
    if divides T a b
    then some (with_sign T (is_negative T a) (magnitude T a % magnitude T b))
    else none
eval_binary_int T TokenKind.ampersand a b = some (bit_and a b % modulus T)
eval_binary_int T TokenKind.pipe a b = some (bit_or a b % modulus T)
eval_binary_int T TokenKind.caret a b = some (bit_xor a b % modulus T)
eval_binary_int T TokenKind.equal_equal a b = some (from_bool (a == b))
eval_binary_int T TokenKind.exclamation_equal a b = some (from_bool (not (a == b)))
eval_binary_int T TokenKind.less a b = some (from_bool (less T a b))
eval_binary_int T TokenKind.less_equal a b = some (from_bool (not (less T b a)))
eval_binary_int T TokenKind.greater a b = some (from_bool (less T b a))
eval_binary_int T TokenKind.greater_equal a b = some (from_bool (not (less T a b)))
eval_binary_int T TokenKind.left_shift a b =
    if shifts T b then some (a * 2 ^ b % modulus T) else none
eval_binary_int T TokenKind.right_shift a b =
    if shifts T b then some (shift_right T a b % modulus T) else none
eval_binary_int T _ a b = none
