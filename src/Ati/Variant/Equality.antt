-- ===== src/Ati/Variant/Equality.antt =====
-- `variant_equals` of source/ati/utils.c is equality, but on floats.
use atcc.Prelude.{
  ℕ, ◌≡◌, ◌↔◌, refl, sym, ap, ◌∙◌, true, Bool-cases, inl, inr, some, ltb, ◌==◌, ==_iff,
  if◌then◌else◌,
}
use atcc.Ati.Strings.Match.{string_match_iff}
use atcc.Ati.Variant.{
  VariantKind, variant_ordinal, Variant, Variants, number_equals, values_equal, arrays_equal,
  variant_equals,
}

abbrev mutual
  -- no floats
  pub IsExact : Variant → Type 0
  IsExact Variant.variant_none = Unit {0}
  IsExact (Variant.variant_number k a) = ltb (variant_ordinal k) 9 ≡ true
  IsExact (Variant.variant_string s) = Unit {0}
  IsExact (Variant.variant_array xs) = AreExact xs

  pub AreExact : Variants → Type 0
  AreExact Variants.no_variants = Unit {0}
  AreExact (Variants.and_variant x xs) = IsExact x × AreExact xs

kind_at : ℕ → VariantKind
kind_at n =
    if n == 1
    then VariantKind.i8
    else if n == 2
    then VariantKind.u8
    else if n == 3
    then VariantKind.i16
    else if n == 4
    then VariantKind.u16
    else if n == 5
    then VariantKind.i32
    else if n == 6
    then VariantKind.u32
    else if n == 7
    then VariantKind.i64
    else if n == 8
    then VariantKind.u64
    else if n == 9
    then VariantKind.f32
    else VariantKind.f64

kind_at-variant_ordinal : (k : VariantKind) → kind_at (variant_ordinal k) ≡ k
unfolding kind_at
kind_at-variant_ordinal k = elim k as (λ k. kind_at (variant_ordinal k) ≡ k) [
  | VariantKind.i8 ↦ refl
  | VariantKind.u8 ↦ refl
  | VariantKind.i16 ↦ refl
  | VariantKind.u16 ↦ refl
  | VariantKind.i32 ↦ refl
  | VariantKind.u32 ↦ refl
  | VariantKind.i64 ↦ refl
  | VariantKind.u64 ↦ refl
  | VariantKind.f32 ↦ refl
  | VariantKind.f64 ↦ refl
]

number_equals_exact :
    (k : VariantKind) (a b : ℕ) → ltb (variant_ordinal k) 9 ≡ true → number_equals k a b ≡ (a == b)
number_equals_exact k a b =
    elim k as (λ k. ltb (variant_ordinal k) 9 ≡ true → number_equals k a b ≡ (a == b)) [
      | VariantKind.i8 ↦ λ h. refl
      | VariantKind.u8 ↦ λ h. refl
      | VariantKind.i16 ↦ λ h. refl
      | VariantKind.u16 ↦ λ h. refl
      | VariantKind.i32 ↦ λ h. refl
      | VariantKind.u32 ↦ λ h. refl
      | VariantKind.i64 ↦ λ h. refl
      | VariantKind.u64 ↦ λ h. refl
      | VariantKind.f32 ↦ λ h. cc
      | VariantKind.f64 ↦ λ h. cc
    ]

mutual
  unfolding values_equal

  values_equal_sound : (a b : Variant) → IsExact a → values_equal a b ≡ true → a ≡ b
  values_equal_sound Variant.variant_none Variant.variant_none e h = refl
  values_equal_sound Variant.variant_none (Variant.variant_number l y) e h = cc
  values_equal_sound Variant.variant_none (Variant.variant_string t) e h = cc
  values_equal_sound Variant.variant_none (Variant.variant_array ys) e h = cc
  values_equal_sound (Variant.variant_number k x) Variant.variant_none e h = cc
  values_equal_sound (Variant.variant_number k x) (Variant.variant_number l y) e h =
      elim (Bool-cases (variant_ordinal k == variant_ordinal l)) [
        | inr f ↦ cc (rw f at h)
        | inl f ↦
            let o = (==_iff (variant_ordinal k) (variant_ordinal l)).0 f in
            let same : k ≡ l =
              sym (kind_at-variant_ordinal k) ∙ ap kind_at o ∙ kind_at-variant_ordinal l in
            let bits : (x == y) ≡ true = sym (number_equals_exact k x y e) ∙ rw f at h in
            rw (same, (==_iff x y).0 bits) refl
      ]
  values_equal_sound (Variant.variant_number k x) (Variant.variant_string t) e h = cc
  values_equal_sound (Variant.variant_number k x) (Variant.variant_array ys) e h = cc
  values_equal_sound (Variant.variant_string s) Variant.variant_none e h = cc
  values_equal_sound (Variant.variant_string s) (Variant.variant_number l y) e h = cc
  values_equal_sound (Variant.variant_string s) (Variant.variant_string t) e h =
      ap Variant.variant_string ((string_match_iff s t).0 h)
  values_equal_sound (Variant.variant_string s) (Variant.variant_array ys) e h = cc
  values_equal_sound (Variant.variant_array xs) Variant.variant_none e h = cc
  values_equal_sound (Variant.variant_array xs) (Variant.variant_number l y) e h = cc
  values_equal_sound (Variant.variant_array xs) (Variant.variant_string t) e h = cc
  values_equal_sound (Variant.variant_array xs) (Variant.variant_array ys) e h =
      ap Variant.variant_array (arrays_equal_sound xs ys e h)

  arrays_equal_sound : (xs ys : Variants) → AreExact xs → arrays_equal xs ys ≡ true → xs ≡ ys
  arrays_equal_sound Variants.no_variants Variants.no_variants e h = refl
  arrays_equal_sound Variants.no_variants (Variants.and_variant y ys) e h = cc
  arrays_equal_sound (Variants.and_variant x xs) Variants.no_variants e h = cc
  arrays_equal_sound (Variants.and_variant x xs) (Variants.and_variant y ys) e h =
      elim (Bool-cases (values_equal x y)) [
        | inr f ↦ cc (rw f at h)
        | inl f ↦ rw (values_equal_sound x y e.0 f, arrays_equal_sound xs ys e.1 (rw f at h)) refl
      ]

mutual
  unfolding values_equal

  values_equal_self : (a : Variant) → IsExact a → values_equal a a ≡ true
  values_equal_self Variant.variant_none e = refl
  values_equal_self (Variant.variant_number k x) e =
      rw ((==_iff (variant_ordinal k) (variant_ordinal k)).1 refl, number_equals_exact k x x e)
        ((==_iff x x).1 refl)
  values_equal_self (Variant.variant_string s) e = (string_match_iff s s).1 refl
  values_equal_self (Variant.variant_array xs) e = arrays_equal_self xs e

  arrays_equal_self : (xs : Variants) → AreExact xs → arrays_equal xs xs ≡ true
  arrays_equal_self Variants.no_variants e = refl
  arrays_equal_self (Variants.and_variant x xs) e =
      rw (values_equal_self x e.0) (arrays_equal_self xs e.1)

-- Of two variants, the first without floats in it, `variant_equals` says whether they are equal: of
-- one kind, and with the same number, string or elements.
pub variant_equals_iff :
    (a b : Variant) → IsExact a → (variant_equals (some a) (some b) ≡ true) ↔ (a ≡ b)
unfolding variant_equals
variant_equals_iff a b e = (values_equal_sound a b e, λ same. rw (← same) (values_equal_self a e))
