-- ===== src/Ati/Variant.antt =====
-- `Variant` of source/ati/basic.h and `variant_equals` of source/ati/utils.c. A number is the bits that
-- the union holds, of the kind's width.
pub mod Equality
use atcc.Prelude.{
  ℕ, ◌%◌, ◌^◌, Bool, true, false, not, ◌&&◌, ◌||◌, Option, some, ltb, ◌==◌, if◌then◌else◌,
}
use atcc.Ati.Strings.{Bytes, string_match}

-- the kinds of numbers
pub data VariantKind : Type 0 where
  i8 u8 i16 u16 i32 u32 i64 u64 f32 f64 : VariantKind

abbrev pub variant_ordinal : VariantKind → ℕ
variant_ordinal VariantKind.i8 = 1
variant_ordinal VariantKind.u8 = 2
variant_ordinal VariantKind.i16 = 3
variant_ordinal VariantKind.u16 = 4
variant_ordinal VariantKind.i32 = 5
variant_ordinal VariantKind.u32 = 6
variant_ordinal VariantKind.i64 = 7
variant_ordinal VariantKind.u64 = 8
variant_ordinal VariantKind.f32 = 9
variant_ordinal VariantKind.f64 = 10

mutual
  pub data Variant : Type 0 where
    variant_none : Variant
    variant_number : VariantKind → ℕ → Variant
    variant_string : Bytes → Variant
    variant_array : Variants → Variant

  -- the elements of an array
  pub data Variants : Type 0 where
    no_variants : Variants
    and_variant : Variant → Variants → Variants

abbrev pub variant_i8 : ℕ → Variant
variant_i8 = Variant.variant_number VariantKind.i8

abbrev pub variant_u8 : ℕ → Variant
variant_u8 = Variant.variant_number VariantKind.u8

abbrev pub variant_i16 : ℕ → Variant
variant_i16 = Variant.variant_number VariantKind.i16

abbrev pub variant_u16 : ℕ → Variant
variant_u16 = Variant.variant_number VariantKind.u16

abbrev pub variant_i32 : ℕ → Variant
variant_i32 = Variant.variant_number VariantKind.i32

abbrev pub variant_u32 : ℕ → Variant
variant_u32 = Variant.variant_number VariantKind.u32

abbrev pub variant_i64 : ℕ → Variant
variant_i64 = Variant.variant_number VariantKind.i64

abbrev pub variant_u64 : ℕ → Variant
variant_u64 = Variant.variant_number VariantKind.u64

abbrev pub variant_f32 : ℕ → Variant
variant_f32 = Variant.variant_number VariantKind.f32

abbrev pub variant_f64 : ℕ → Variant
variant_f64 = Variant.variant_number VariantKind.f64

-- `==` on floats of IEEE 754, from their bits: not a number is equal to nothing, and both zeros are
-- equal. The sign is the bit of weight `sign`, and `infinity` is the greatest magnitude of a number.
abbrev pub float_equal : ℕ → ℕ → ℕ → ℕ → Bool
float_equal sign infinity a b =
    not (ltb infinity (a % sign))
    && (not (ltb infinity (b % sign)) && (a == b || (a % sign == 0 && b % sign == 0)))

abbrev pub number_equals : VariantKind → ℕ → ℕ → Bool
number_equals VariantKind.f32 a b = float_equal (2 ^ 31) 0x7f800000 a b
number_equals VariantKind.f64 a b = float_equal (2 ^ 63) 0x7ff0000000000000 a b
number_equals kind a b = a == b

unfoldable mutual
  pub values_equal : Variant → Variant → Bool
  values_equal Variant.variant_none Variant.variant_none = true
  values_equal (Variant.variant_number k a) (Variant.variant_number l b) =
      if variant_ordinal k == variant_ordinal l then number_equals k a b else false
  values_equal (Variant.variant_string s) (Variant.variant_string t) = string_match s t
  values_equal (Variant.variant_array xs) (Variant.variant_array ys) = arrays_equal xs ys
  values_equal a b = false

  pub arrays_equal : Variants → Variants → Bool
  arrays_equal Variants.no_variants Variants.no_variants = true
  arrays_equal (Variants.and_variant a xs) (Variants.and_variant b ys) =
      let rest = arrays_equal xs ys in if values_equal a b then rest else false
  arrays_equal xs ys = false

-- The arguments are pointers, which may be null.
unfoldable pub variant_equals : Option Variant → Option Variant → Bool
variant_equals (some a) (some b) = values_equal a b
variant_equals a b = false
