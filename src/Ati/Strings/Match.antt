-- ===== src/Ati/Strings/Match.antt =====
-- `string_match` of source/ati/string.c decides equality.
use atcc.Prelude.{◌≡◌, ◌↔◌, refl, ap, arith, true, [], ◌∷◌, length}
use atcc.Ati.Strings.{Bytes, memcmp_zero, string_match}

memcmp_zero_iff :
    (a b : Bytes) → length a ≡ length b → (memcmp_zero (length a) a b ≡ true) ↔ (a ≡ b)
unfolding memcmp_zero
memcmp_zero_iff [] [] h = (λ _. refl, λ _. refl)
memcmp_zero_iff [] (y ∷ b) h = absurd (omega arith)
memcmp_zero_iff (x ∷ a) [] h = absurd (omega arith)
memcmp_zero_iff (x ∷ a) (y ∷ b) h = ground (arith, memcmp_zero_iff a b)

pub string_match_iff : (a b : Bytes) → (string_match a b ≡ true) ↔ (a ≡ b)
unfolding string_match
string_match_iff a b = (
  (λ h. ground (arith, memcmp_zero_iff a b)),
  (λ e. ground (arith, memcmp_zero_iff a b, ap (length {0}) e)),
)
