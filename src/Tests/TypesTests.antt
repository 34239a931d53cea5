-- ===== src/Tests/TypesTests.antt =====
-- Runs of source/type.c and of `variant_equals`, and their theorems at examples.
use atcc.Prelude.{ℕ, ◌+◌, ◌≡◌, ◌↔◌, refl, true, false, some}
use atcc.Ati.Variant.Equality.{variant_equals_iff}
use atcc.Ati.Variant.{Variant, Variants, values_equal, variant_equals, variant_i32, variant_f32}
use atcc.Types.Kinds.{TypeKind, ordinal}
use atcc.Types.Match.{type_match_comm}
use atcc.Types.Print.{str, type_to_string}
use atcc.Types.Total.{Answers, type_match-total}
use atcc.Types.{AtccType, TypeBody, AtccTypes, type_match}

-- Each basic kind has its ordinal as identity here.
abbrev basic : TypeKind → ℕ → AtccType
basic kind size = AtccType.type (TypeBody.basic kind) (ordinal kind) size size

abbrev bytes_pointer : ℕ → AtccType
bytes_pointer typeid = AtccType.type (TypeBody.pointer_to (basic TypeKind.u8 1)) typeid 8 8

-- fun(u8 *, f32): i32
abbrev callback : ℕ → AtccType
callback typeid =
    AtccType.type
      (TypeBody.function_of
        (AtccTypes.and_type (bytes_pointer (typeid + 1))
          (AtccTypes.and_type (basic TypeKind.f32 4) AtccTypes.no_types))
        (basic TypeKind.i32 4) false)
      typeid 8 8

abbrev floats : AtccType
floats = AtccType.type (TypeBody.array_of (basic TypeKind.f32 4) 12 false) 50 48 4

matches_callbacks : type_match (callback 30) (callback 40) ≡ some true
unfolding type_match
matches_callbacks = refl

prints_array : type_to_string floats ≡ str "f32[12]"
unfolding type_to_string
prints_array = refl

type_match-total_example : Answers (type_match (callback 30) floats)
type_match-total_example =
    type_match-total (λ n. n) (callback 30) floats
      (((refl, refl), ((refl, refl), tt)), (refl, refl)) (refl, refl)

type_match_comm_example : type_match (callback 30) floats ≡ type_match floats (callback 30)
type_match_comm_example = type_match_comm (callback 30) floats

abbrev two_values : ℕ → Variant
two_values n = Variant.variant_array (
    Variants.and_variant (variant_i32 n)
      (Variants.and_variant (Variant.variant_string (str "x")) Variants.no_variants))

variant_equals_iff_example :
    (variant_equals (some (two_values 3)) (some (two_values 4)) ≡ true)
    ↔ (two_values 3 ≡ two_values 4)
variant_equals_iff_example = variant_equals_iff (two_values 3) (two_values 4) (refl, (tt, tt))

-- The two zeros are equal, and what is not a number is not equal to itself.
compares_floats :
    (variant_equals (some (variant_f32 0)) (some (variant_f32 0x80000000)) ≡ true)
    × (variant_equals (some (variant_f32 0x7fc00000)) (some (variant_f32 0x7fc00000)) ≡ false)
unfolding variant_equals values_equal
compares_floats = (refl, refl)
