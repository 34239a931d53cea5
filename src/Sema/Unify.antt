-- ===== src/Sema/Unify.antt =====
-- What sema_unify_binary_operands of source/sema.c does to two operands.
use mathlib.Core.Bool.{false≢true}
use mathlib.Core.List.{Memᴰ}
use atcc.Prelude.{
  ◌≡◌, ◌⊎◌, inl, inr, refl, sym, ◌∙◌, ap, arith, true, false, Bool-cases, Option, none, some, List,
  [], ◌∷◌, ==_iff,
}
use atcc.Sema.Convert.{
  NodeTypes, node_type, same_type, typeid_of, SemanticContext, BinaryOperands, converted,
  unify_from, ranked_types, sema_unify_binary_operands,
}
use atcc.Types.{AtccType}

same_type_comm : (a b : Option AtccType) → same_type a b ≡ same_type b a
unfolding same_type
same_type_comm none none = refl
same_type_comm none (some b) = refl
same_type_comm (some a) none = refl
same_type_comm (some a) (some b) = ground arith

same_type_refl : (t : AtccType) → same_type (some t) (some t) ≡ true
unfolding same_type
same_type_refl t = (==_iff (typeid_of t) (typeid_of t)).1 refl

same_type_join :
    (a b : Option AtccType) (t : AtccType)
    → same_type a (some t) ≡ true
    → same_type b (some t) ≡ true
    → same_type a b ≡ true
unfolding same_type
same_type_join none b t h g = absurd (false≢true h)
same_type_join (some a) none t h g = absurd (false≢true g)
same_type_join (some a) (some b) t h g =
    (==_iff (typeid_of a) (typeid_of b)).1
      ((==_iff (typeid_of a) (typeid_of t)).0 h ∙ sym ((==_iff (typeid_of b) (typeid_of t)).0 g))

-- an answer that leaves both operands with the same type
pub record Unifies (answer : Option BinaryOperands) : Type 0 where
  pub left : NodeTypes
  pub right : NodeTypes
  pub answers : answer ≡ some (left, right)
  pub same : same_type (node_type left) (node_type right) ≡ true

node_type-converted : (node : NodeTypes) (t : AtccType) → node_type (converted node t) ≡ some t
unfolding node_type converted
node_type-converted node t = refl

-- a type that neither operand has is not the one that one of them has
in_tail :
    {u t : AtccType} {ts : List AtccType} (a b : Option AtccType)
    → Memᴰ t (u ∷ ts)
    → same_type a (some t) ≡ true ⊎ same_type b (some t) ≡ true
    → same_type a (some u) ≡ false
    → same_type b (some u) ≡ false
    → Memᴰ t ts
in_tail a b (Memᴰ.tail m) h d g = m
in_tail a b (Memᴰ.head e) (inl h) d g =
    absurd (false≢true (sym d ∙ ap (λ x. same_type a (some x)) (sym e) ∙ h))
in_tail a b (Memᴰ.head e) (inr h) d g =
    absurd (false≢true (sym g ∙ ap (λ x. same_type b (some x)) (sym e) ∙ h))

unify_from-Unifies :
    (ts : List AtccType) (left right : NodeTypes) (t : AtccType)
    → Memᴰ t ts
    → same_type (node_type left) (some t) ≡ true ⊎ same_type (node_type right) (some t) ≡ true
    → Unifies (unify_from ts left right)
unfolding unify_from
unify_from-Unifies [] left right t m h = elim m [ ]
unify_from-Unifies (u ∷ ts) left right t m h =
    elim (Bool-cases (same_type (node_type left) (some u))) [
      | inl e ↦ record {
        left = left;
        right = converted right u;
        answers = rw e refl;
        same = rw (node_type-converted right u) e;
      }
      | inr e ↦ elim (Bool-cases (same_type (node_type right) (some u))) [
        | inl g ↦ record {
          left = converted left u;
          right = right;
          answers = rw (e, g) refl;
          same = rw (node_type-converted left u, same_type_comm (some u) (node_type right)) g;
        }
        | inr g ↦ rw (e, g) (unify_from-Unifies ts left right t (in_tail _ _ m h e g) h)
      ]
    ]

-- the operands in the other order
abbrev pub swapped : Option BinaryOperands → Option BinaryOperands
swapped none = none
swapped (some (left, right)) = some (right, left)

unify_from_comm :
    (ts : List AtccType) (left right : NodeTypes)
    → same_type (node_type left) (node_type right) ≡ false
    → unify_from ts right left ≡ swapped (unify_from ts left right)
unfolding unify_from
unify_from_comm [] left right d = refl
unify_from_comm (t ∷ ts) left right d = elim (Bool-cases (same_type (node_type left) (some t))) [
  | inl e ↦ elim (Bool-cases (same_type (node_type right) (some t))) [
    | inl g ↦ absurd (false≢true (sym d ∙ same_type_join _ _ t e g))
    | inr g ↦ rw (e, g) refl
  ]
  | inr e ↦ elim (Bool-cases (same_type (node_type right) (some t))) [
    | inl g ↦ rw (e, g) refl
    | inr g ↦ rw (e, g) (unify_from_comm ts left right d)
  ]
]

-- Where one of two operands has an arithmetic type of the context, sema_unify_binary_operands does not
-- panic, and leaves both operands with the same type.
pub sema_unify_binary_operands-Unifies :
    (context : SemanticContext) (left right : NodeTypes) (t : AtccType)
    → Memᴰ t (ranked_types context)
    → same_type (node_type left) (some t) ≡ true ⊎ same_type (node_type right) (some t) ≡ true
    → Unifies (sema_unify_binary_operands context left right)
unfolding sema_unify_binary_operands
sema_unify_binary_operands-Unifies context left right t m h =
    elim (Bool-cases (same_type (node_type left) (node_type right))) [
      | inl e ↦ record { left = left; right = right; answers = rw e refl; same = e }
      | inr e ↦ rw e (unify_from-Unifies (ranked_types context) left right t m h)
    ]

-- sema_unify_binary_operands does the same to two operands, a panic included, whichever of them is on the
-- left.
pub sema_unify_binary_operands_comm :
    (context : SemanticContext) (left right : NodeTypes)
    → sema_unify_binary_operands context right left
      ≡ swapped (sema_unify_binary_operands context left right)
unfolding sema_unify_binary_operands
sema_unify_binary_operands_comm context left right =
    elim (Bool-cases (same_type (node_type left) (node_type right))) [
      | inl e ↦ rw (same_type_comm (node_type right) (node_type left), e) refl
      | inr e ↦
          rw (same_type_comm (node_type right) (node_type left), e)
            (unify_from_comm (ranked_types context) left right e)
    ]
