-- ===== src/Sema/Convert.antt =====
-- The conversions of source/sema.c, and `node_type` of source/type.c. `make_type` alone makes a type, and
-- gives each one its own identity, so that two pointers to types are equal where the identities are.
-- `none` is a panic, or a read through null.
use atcc.Prelude.{
  ℕ, Bool, true, false, not, ◌&&◌, ◌||◌, Option, none, some, List, [], ◌∷◌, ◌==◌, if◌then◌else◌,
}
use atcc.Types.Kinds.{TypeKind, ordinal}
use atcc.Types.{AtccType, TypeBody, kind_of, type_match, type_is_scalar}

-- what the analysis writes into an `ASTNode`
pub record NodeTypes : Type 0 where
  pub base_type : Option AtccType
  pub conv_type : Option AtccType

unfoldable pub node_type : NodeTypes → Option AtccType
node_type node = elim node.conv_type [ none ↦ node.base_type | some t ↦ some t ]

abbrev pub typeid_of : AtccType → ℕ
typeid_of (AtccType.type body typeid size pack) = typeid

abbrev pub size_of : AtccType → ℕ
size_of (AtccType.type body typeid size pack) = size

-- `a == b` on pointers to types, which may be null
unfoldable pub same_type : Option AtccType → Option AtccType → Bool
same_type none none = true
same_type none (some b) = false
same_type (some a) none = false
same_type (some a) (some b) = typeid_of a == typeid_of b

-- the `base_type` of a pointer
abbrev pub pointee : AtccType → Option AtccType
pointee (AtccType.type (TypeBody.pointer_to t) typeid size pack) = some t
pointee t = none

abbrev pub is_void : AtccType → Bool
is_void t = ordinal (kind_of t) == ordinal TypeKind.void

-- the branch for two arrays, which panics where the types of the items are different
unfoldable pub convert_array : AtccType → AtccType → Option Bool
convert_array (AtccType.type (TypeBody.array_of a n d) i s p)
      (AtccType.type (TypeBody.array_of b m e) j z q) =
    if not (typeid_of a == typeid_of b)
    then none
    else if (n == 0) && not (n == m)
    then some false
    else some (not d)
convert_array a b = some false

unfoldable pub convert_scalar : AtccType → AtccType → Option Bool
convert_scalar a b = if type_is_scalar a && type_is_scalar b then some true else convert_array a b

-- behind `type_match`
unfoldable pub convert_pointer : AtccType → AtccType → Option Bool
convert_pointer a b = elim (pointee a) [
  | none ↦ convert_scalar a b
  | some x ↦ elim (pointee b) [
    | none ↦ convert_scalar a b
    | some y ↦ some (typeid_of x == typeid_of y || is_void x || is_void y)
  ]
]

unfoldable pub convert_types : AtccType → AtccType → Option Bool
convert_types source target =
    if typeid_of source == typeid_of target then some true else elim (type_match source target) [
      | none ↦ none
      | some matches ↦ if matches then some true else convert_pointer source target
    ]

unfoldable pub sema_node_convert_implicit : NodeTypes → Option AtccType → Option Bool
sema_node_convert_implicit node target = elim (node_type node) [
  | none ↦ some false
  | some source ↦ elim target [ none ↦ some false | some target ↦ convert_types source target ]
]

unfoldable pub convert_sizes : AtccType → AtccType → Bool
convert_sizes source target =
    type_is_scalar source && type_is_scalar target || size_of source == size_of target

-- A null type is not looked at by the implicit conversion, but read here.
unfoldable pub sema_node_convert_explicit : NodeTypes → Option AtccType → Option Bool
sema_node_convert_explicit node target = elim (sema_node_convert_implicit node target) [
  | none ↦ none
  | some converts ↦ if converts then some true else elim (node_type node) [
    | none ↦ none
    | some source ↦ elim target [ none ↦ none | some target ↦ some (convert_sizes source target) ]
  ]
]

-- the arithmetic types of a `SemanticContext`
pub record SemanticContext : Type 0 where
  pub type_i8 : AtccType
  pub type_u8 : AtccType
  pub type_i16 : AtccType
  pub type_u16 : AtccType
  pub type_i32 : AtccType
  pub type_u32 : AtccType
  pub type_i64 : AtccType
  pub type_u64 : AtccType
  pub type_f32 : AtccType
  pub type_f64 : AtccType

-- the two operands of a binary node
abbrev pub BinaryOperands : Type 0
BinaryOperands = NodeTypes × NodeTypes

unfoldable pub converted : NodeTypes → AtccType → NodeTypes
converted node t = record node { conv_type = some t }

-- the two branches for each of these types, in their order, and the panic behind them
unfoldable pub unify_from : List AtccType → NodeTypes → NodeTypes → Option BinaryOperands
unify_from [] left right = none
unify_from (t ∷ ts) left right =
    let rest = unify_from ts left right in
    if same_type (node_type left) (some t)
    then some (left, converted right t)
    else if same_type (node_type right) (some t)
    then some (converted left t, right)
    else rest

-- the order in which the types are tried
unfoldable pub ranked_types : SemanticContext → List AtccType
ranked_types c =
    c.type_f64 ∷ c.type_f32 ∷ c.type_i64 ∷ c.type_i32 ∷ c.type_i16 ∷ c.type_i8 ∷ c.type_u64
    ∷ c.type_u32 ∷ c.type_u16 ∷ c.type_u8 ∷ []

unfoldable pub sema_unify_binary_operands :
    SemanticContext → NodeTypes → NodeTypes → Option BinaryOperands
sema_unify_binary_operands context left right =
    if same_type (node_type left) (node_type right)
    then some (left, right)
    else unify_from (ranked_types context) left right
