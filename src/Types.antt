-- ===== src/Types.antt =====
-- The types of source/type.c and source/atcc.h. A type is a tree: what `type_match` and
-- `type_to_string` follow through pointers has no cycle, since they stop at an aggregate's owner, which
-- is the place of its tree node here. `none` is the panic, and a union that was not written.
pub mod Kinds
pub mod Match
pub mod Total
pub mod Print
use atcc.Prelude.{
  ℕ, zero, suc, ◌+◌, ◌-◌, Bool, true, false, not, ◌&&◌, Option, none, some, ltb, leb, ◌==◌,
  if◌then◌else◌, ◌>>=◌, u32_mod, ◌%◌,
}
use atcc.Ati.Strings.{Bytes}
use atcc.Types.Kinds.{TypeKind, ordinal}

mutual
  -- the kind with its member of the union, then typeid, size and pack
  pub data AtccType : Type 0 where
    type : TypeBody → ℕ → ℕ → ℕ → AtccType

  -- `basic` is a type whose union was not written.
  pub data TypeBody : Type 0 where
    basic : TypeKind → TypeBody
    pointer_to : AtccType → TypeBody
    function_of : AtccTypes → AtccType → Bool → TypeBody
    array_of : AtccType → ℕ → Bool → TypeBody
    aggregate_of : ℕ → Bytes → TypeBody

  -- `Type **function_parameters`
  pub data AtccTypes : Type 0 where
    no_types : AtccTypes
    and_type : AtccType → AtccTypes → AtccTypes

abbrev pub body_kind : TypeBody → TypeKind
body_kind (TypeBody.basic kind) = kind
body_kind (TypeBody.pointer_to t) = TypeKind.pointer
body_kind (TypeBody.function_of ps r v) = TypeKind.function
body_kind (TypeBody.array_of t n d) = TypeKind.array
body_kind (TypeBody.aggregate_of owner name) = TypeKind.aggregate

abbrev pub kind_of : AtccType → TypeKind
kind_of (AtccType.type body typeid size pack) = body_kind body

abbrev pub types_length : AtccTypes → ℕ
types_length AtccTypes.no_types = 0
types_length (AtccTypes.and_type t ts) = suc (types_length ts)

-- with the static counter of type identities, which is returned too
unfoldable pub make_type : ℕ → TypeKind → ℕ → ℕ → AtccType × ℕ
make_type counter kind size pack =
    (AtccType.type (TypeBody.basic kind) counter size pack, (counter + 1) % u32_mod)

abbrev pub is_integer_kind : TypeKind → Bool
is_integer_kind kind =
    leb (ordinal TypeKind.i8) (ordinal kind) && leb (ordinal kind) (ordinal TypeKind.u64)

unfoldable pub type_is_integer : AtccType → Bool
type_is_integer t = is_integer_kind (kind_of t)

unfoldable pub type_is_scalar : AtccType → Bool
type_is_scalar t =
    leb (ordinal TypeKind.i8) (ordinal (kind_of t))
    && leb (ordinal (kind_of t)) (ordinal TypeKind.function)

unfoldable pub type_is_arithmetic : AtccType → Bool
type_is_arithmetic t =
    leb (ordinal TypeKind.i8) (ordinal (kind_of t))
    && leb (ordinal (kind_of t)) (ordinal TypeKind.f64)

abbrev pub same_bool : Bool → Bool → Bool
same_bool true b = b
same_bool false b = not b

-- `a || b`, `a && b` where `b` may panic and is not reached otherwise
abbrev pub then_match : Option Bool → Option Bool → Option Bool
then_match none m = none
then_match (some true) m = m
then_match (some false) m = some false

unfoldable mutual
  pub type_match : AtccType → AtccType → Option Bool
  type_match (AtccType.type x i s p) (AtccType.type y j s' p') =
      let rest = body_match x y in
      if not (ordinal (body_kind x) == ordinal (body_kind y))
      then some false
      else if is_integer_kind (body_kind x)
      then some true
      else if i == j
      then some true
      else rest

  -- the switch of `type_match`, on two types of one kind
  pub body_match : TypeBody → TypeBody → Option Bool
  body_match (TypeBody.pointer_to a) (TypeBody.pointer_to b) = type_match a b
  body_match (TypeBody.array_of a n d) (TypeBody.array_of b m e) =
      let rest = type_match a b in
      if not (same_bool d e) then some false else if not (n == m) then some false else rest
  body_match (TypeBody.function_of ps r v) (TypeBody.function_of qs q w) =
      let params = types_match ps qs in
      let result = type_match r q in
      if not (same_bool v w)
      then some false
      else if not (types_length ps == types_length qs)
      then some false
      else then_match params result
  body_match (TypeBody.aggregate_of owner n) (TypeBody.aggregate_of owner' m) =
      some (owner == owner')
  body_match (TypeBody.basic kind) (TypeBody.basic kind') =
      if ordinal kind == ordinal TypeKind.string then some true else none
  body_match x y = none

  -- the loop over the parameters, as many on both sides
  pub types_match : AtccTypes → AtccTypes → Option Bool
  types_match (AtccTypes.and_type a ps) (AtccTypes.and_type b qs) =
      let rest = types_match ps qs in then_match (type_match a b) rest
  types_match ps qs = some true
