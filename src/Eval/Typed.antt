-- ===== src/Eval/Typed.antt =====
-- The kinds of the constants of source/eval.c.
use native.Mathlib.Nat.{mod-lt}
use atcc.Prelude.{arith, ℕ, ◌%◌, ◌^◌, ◌<◌, ◌≡◌, refl, Bool, true, false, Option, some, ◌==◌, ◌>>=◌}
use atcc.Prelude.Bits.{pow_pos}
use atcc.Ati.Strings.{Bytes}
use atcc.Ati.Variant.{Variant}
use atcc.Eval.Integers.{IntType, from_bool, eval_binary_int}
use atcc.Eval.{
  EvalNode, Floats, int_type, variant_kind, member, number, eval_unary, eval_binary, eval_literal,
  eval_cast, eval_expression,
}
use atcc.Tokens.{TokenKind}
use atcc.Types.Kinds.{TypeKind}

-- the operators with a result for all operands
pub data IsTotal : TokenKind → Type 0 where
  plus : IsTotal TokenKind.plus
  minus : IsTotal TokenKind.minus
  star : IsTotal TokenKind.star
  ampersand : IsTotal TokenKind.ampersand
  pipe : IsTotal TokenKind.pipe
  caret : IsTotal TokenKind.caret
  equal_equal : IsTotal TokenKind.equal_equal
  exclamation_equal : IsTotal TokenKind.exclamation_equal
  less : IsTotal TokenKind.less
  less_equal : IsTotal TokenKind.less_equal
  greater : IsTotal TokenKind.greater
  greater_equal : IsTotal TokenKind.greater_equal

-- A number of an integer type, within its width.
pub data IsNumber : TypeKind → Variant → Type 0 where
  is_number :
      {k : TypeKind} {T : IntType} {bits : ℕ}
      → int_type k ≡ some T
      → bits < 2 ^ T.width
      → IsNumber k (Variant.variant_number (variant_kind k) bits)

-- The kind of the constant of a node: that of the node's type, but `i32` for `-`, `!` and `~`, whatever
-- their operand.
pub data HasKind : EvalNode → TypeKind → Type 0 where
  paren : {n : EvalNode} {k : TypeKind} → HasKind n k → HasKind (EvalNode.paren n) k
  prefix_plus :
      {n : EvalNode} {k : TypeKind} → HasKind n k → HasKind (EvalNode.unary TokenKind.plus n) k
  prefix_minus :
      {n : EvalNode} {k : TypeKind}
      → HasKind n k
      → HasKind (EvalNode.unary TokenKind.minus n) TypeKind.i32
  prefix_exclamation :
      {n : EvalNode} {k : TypeKind}
      → HasKind n k
      → HasKind (EvalNode.unary TokenKind.exclamation n) TypeKind.i32
  prefix_tilde :
      {n : EvalNode} {k : TypeKind}
      → HasKind n k
      → HasKind (EvalNode.unary TokenKind.tilde n) TypeKind.i32
  binary :
      {a b : EvalNode} {j k l : TypeKind} {T : IntType} {op : TokenKind}
      → int_type k ≡ some T
      → IsTotal op
      → HasKind a j
      → HasKind b l
      → HasKind (EvalNode.binary k op a b) k
  ternary :
      {c a b : EvalNode} {j k : TypeKind}
      → HasKind c j
      → HasKind a k
      → HasKind b k
      → HasKind (EvalNode.ternary c a b) k
  literal :
      {k : TypeKind} {T : IntType} {bits : ℕ} {value : Bytes}
      → int_type k ≡ some T
      → HasKind (EvalNode.literal k bits value) k
  identifier : {k : TypeKind} {v : Variant} → IsNumber k v → HasKind (EvalNode.identifier v) k
  cast :
      {n : EvalNode} {j k : TypeKind} {T : IntType}
      → int_type k ≡ some T
      → HasKind n j
      → HasKind (EvalNode.cast k n) k

-- the evaluation gives a number of this kind
pub data Evaluates (k : TypeKind) : Option Variant → Type 0 where
  evaluates : {v : Variant} → IsNumber k v → Evaluates k (some v)

number-IsNumber :
    (k : TypeKind) (T : IntType) (bits : ℕ) → int_type k ≡ some T → IsNumber k (number k T bits)
number-IsNumber k T bits e = is_number e (mod-lt bits (pow_pos T.width))

total-some :
    {op : TokenKind}
    → IsTotal op
    → (T : IntType) (a b : ℕ) → (c : ℕ) × (eval_binary_int T op a b ≡ some c)
unfolding eval_binary_int
total-some plus T a b = (_, refl)
total-some minus T a b = (_, refl)
total-some star T a b = (_, refl)
total-some ampersand T a b = (_, refl)
total-some pipe T a b = (_, refl)
total-some caret T a b = (_, refl)
total-some equal_equal T a b = (_, refl)
total-some exclamation_equal T a b = (_, refl)
total-some less T a b = (_, refl)
total-some less_equal T a b = (_, refl)
total-some greater T a b = (_, refl)
total-some greater_equal T a b = (_, refl)

Evaluates-then :
    {j k : TypeKind} {o : Option Variant} (f : Variant → Option Variant)
    → Evaluates j o
    → ((v : Variant) → IsNumber j v → Evaluates k (f v))
    → Evaluates k (o >>= f)
Evaluates-then f (evaluates h) g = g _ h

Evaluates-branch :
    {k : TypeKind} {x y : Option Variant} (b : Bool)
    → Evaluates k x
    → Evaluates k y
    → Evaluates k (elim b [ true ↦ y | false ↦ x ])
Evaluates-branch true hx hy = hy
Evaluates-branch false hx hy = hx

from_bool_small : (b : Bool) → from_bool b < 2 ^ 32
from_bool_small true = omega arith
from_bool_small false = omega arith

module _ (floats : Floats) where
  binary-Evaluates :
      (k : TypeKind) (T : IntType) {j l : TypeKind} {op : TokenKind} {v w : Variant}
      → int_type k ≡ some T
      → IsTotal op
      → IsNumber j v
      → IsNumber l w
      → Evaluates k (eval_binary floats k op v w)
  unfolding eval_binary
  binary-Evaluates k T e o (is_number {bits = a} d g) (is_number {bits = b} d' g') =
      let (c, r) = total-some o T (a % 2 ^ T.width) (b % 2 ^ T.width) in
      rw (eval_binary, e, r) (evaluates (number-IsNumber k T c e))

  literal-Evaluates :
      (k : TypeKind) (T : IntType) (bits : ℕ) (value : Bytes)
      → int_type k ≡ some T
      → Evaluates k (eval_literal floats k bits value)
  unfolding eval_literal
  literal-Evaluates k T bits value e = rw (eval_literal, e) (evaluates (number-IsNumber k T bits e))

  cast-Evaluates :
      (k : TypeKind) (T : IntType) {j : TypeKind} {v : Variant}
      → int_type k ≡ some T
      → IsNumber j v
      → Evaluates k (eval_cast floats k v)
  unfolding eval_cast
  cast-Evaluates k T e (is_number d g) = rw (eval_cast, e) (evaluates (number-IsNumber k T _ e))

  minus-Evaluates :
      {j : TypeKind} {v : Variant}
      → IsNumber j v
      → Evaluates TypeKind.i32 (eval_unary TokenKind.minus v)
  unfolding eval_unary
  minus-Evaluates (is_number d g) = evaluates (is_number refl (omega arith))

  exclamation-Evaluates :
      {j : TypeKind} {v : Variant}
      → IsNumber j v
      → Evaluates TypeKind.i32 (eval_unary TokenKind.exclamation v)
  unfolding eval_unary
  exclamation-Evaluates (is_number d g) = evaluates (is_number refl (from_bool_small _))

  tilde-Evaluates :
      {j : TypeKind} {v : Variant}
      → IsNumber j v
      → Evaluates TypeKind.i32 (eval_unary TokenKind.tilde v)
  unfolding eval_unary
  tilde-Evaluates (is_number d g) = evaluates (is_number refl (omega arith))

  choose-Evaluates :
      {j k : TypeKind} {v : Variant} {x y : Option Variant}
      → IsNumber j v
      → Evaluates k x
      → Evaluates k y
      → Evaluates k (member 8 v >>= λ bits. elim (bits == 0) [ true ↦ y | false ↦ x ])
  choose-Evaluates (is_number {bits = a} d g) hx hy = Evaluates-branch (a % 2 ^ 8 == 0) hx hy

  HasKind-Evaluates :
      {n : EvalNode} {k : TypeKind} → HasKind n k → Evaluates k (eval_expression floats n)
  unfolding eval_expression eval_unary
  HasKind-Evaluates (paren h) = HasKind-Evaluates h
  HasKind-Evaluates (prefix_plus h) = Evaluates-then _ (HasKind-Evaluates h) (λ v. evaluates)
  HasKind-Evaluates (prefix_minus h) = Evaluates-then _ (HasKind-Evaluates h) (λ v. minus-Evaluates)
  HasKind-Evaluates (prefix_exclamation h) =
      Evaluates-then _ (HasKind-Evaluates h) (λ v. exclamation-Evaluates)
  HasKind-Evaluates (prefix_tilde h) = Evaluates-then _ (HasKind-Evaluates h) (λ v. tilde-Evaluates)
  HasKind-Evaluates (binary {k = k} {T = T} e o h g) =
      Evaluates-then _ (HasKind-Evaluates h)
        (λ v x. Evaluates-then _ (HasKind-Evaluates g) (λ w y. binary-Evaluates k T e o x y))
  HasKind-Evaluates (ternary h g f) =
      Evaluates-then _ (HasKind-Evaluates h)
        (λ v x. choose-Evaluates x (HasKind-Evaluates g) (HasKind-Evaluates f))
  HasKind-Evaluates (literal {k = k} {T = T} e) = literal-Evaluates k T _ _ e
  HasKind-Evaluates (identifier h) = evaluates h
  HasKind-Evaluates (cast {k = k} {T = T} e h) =
      Evaluates-then _ (HasKind-Evaluates h) (λ v. cast-Evaluates k T e)

  -- An integer constant whose operators have results for all operands evaluates to a number of its kind,
  -- within its width: no `assert` fails. The kind is that of the type, but `i32` behind `-`, `!` and `~`.
  pub eval_expression-HasKind :
      (n : EvalNode) (k : TypeKind) → HasKind n k → Evaluates k (eval_expression floats n)
  eval_expression-HasKind n k h = HasKind-Evaluates h
