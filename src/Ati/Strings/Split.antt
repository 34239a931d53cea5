-- ===== src/Ati/Strings/Split.antt =====
-- `string_split` of source/ati/string.c against the text that its pieces make up.
use mathlib.Core.List.{append-nil, append_assoc}
use atcc.Prelude.{
  ℕ, zero, suc, ◌+◌, ◌-◌, ◌%◌, ◌^◌, ◌≤◌, ◌<◌, ◌≡◌, ◌⊎◌, refl, sym, ap, ◌∙◌, arith, Bool-cases, inl,
  inr, some, List, [], ◌∷◌, ◌++◌, ltb, length, drop, take-append-drop, drop-drop, take_all,
  drop_all, length-drop, u64_mod,
}
use atcc.Ati.Strings.Match.{string_match_iff}
use atcc.Ati.Strings.{Bytes, string_match, slice, split_rest, split_from, string_split}

-- every piece with the delimiter behind it
abbrev pub rejoin : Bytes → List Bytes → Bytes
rejoin delimiter [] = []
rejoin delimiter (p ∷ ps) = p ++ (delimiter ++ rejoin delimiter ps)

rejoin-append : (d p : Bytes) (ps : List Bytes) → rejoin d (ps ++ p ∷ []) ≡ rejoin d ps ++ (p ++ d)
rejoin-append d p [] = rw append-nil
rejoin-append d p (q ∷ ps) = simp (rejoin-append d p ps, append_assoc)

-- The pieces make up the text, or the text and one more delimiter.
abbrev pub Rejoins : Bytes → Bytes → List Bytes → Type 0
Rejoins s d r = (rejoin d r ≡ s ++ d) ⊎ (rejoin d r ≡ s)

-- what the loop has read and what is still to read make up the text
abbrev Reads : Bytes → Bytes → ℕ → List Bytes → Type 0
Reads s d start result = rejoin d result ++ drop start s ≡ s

split_rest-Rejoins :
    (s d : Bytes) (start : ℕ) (result : List Bytes)
    → Reads s d start result
    → Rejoins s d (split_rest s start result)
split_rest-Rejoins s d start result h = elim (Bool-cases (ltb start (length s))) [
  | inl e ↦
      let whole : slice s start (length s - start) ≡ drop start s =
        take_all (length s - start) (drop start s) (omega (arith, length-drop start s)) in
      rw (e, whole)
        (inl (
          rejoin-append d (drop start s) result
          ∙ sym (append_assoc (rejoin d result) (drop start s) d)
          ∙ ap (λ t. t ++ d) h))
  | inr e ↦
      let none_left = drop_all start s (ground (arith, e)) in
      rw e (inr (sym (append-nil (rejoin d result)) ∙ rw none_left at h))
]

module _ (s d : Bytes) (short : length s < 2 ^ 62) (given : 0 < length d)
    (small : length d < 2 ^ 62) where
  matched-Reads :
      (i start : ℕ) (result : List Bytes)
      → start ≤ i
      → slice s i (length d) ≡ d
      → Reads s d start result
      → Reads s d (i + length d) (result ++ slice s start (i - start) ∷ [])
  matched-Reads i start result le m h =
      let back : start + (i - start) ≡ i = omega arith in
      let piece : slice s start (i - start) ++ drop i s ≡ drop start s =
        rw (drop-drop start (i - start) s, back) at (take-append-drop (i - start) (drop start s)) in
      let rest : d ++ drop (i + length d) s ≡ drop i s =
        rw (drop-drop i (length d) s, m) at (take-append-drop (length d) (drop i s)) in
      rw (rejoin-append d (slice s start (i - start)) result)
        (simp append_assoc (rw (rest, piece) h))

  split_from-Rejoins :
      (fuel i start : ℕ) (result : List Bytes)
      → length s < i + fuel
      → start ≤ i
      → i ≤ length s
      → Reads s d start result
      → (r : List Bytes) × (split_from fuel s d i start result ≡ some r) × Rejoins s d r
  unfolding split_from
  split_from-Rejoins zero i start result f le top h = absurd (omega arith)
  split_from-Rejoins (suc fuel) i start result f le top h =
      let w₁ : (i + (length d + u64_mod - 1) % u64_mod) % u64_mod ≡ i + length d - 1 =
        omega arith in
      let w₂ : (i + length d - 1 + 1) % u64_mod ≡ i + length d = omega arith in
      let w₃ : (i + u64_mod - start) % u64_mod ≡ i - start = omega arith in
      let w₄ : (i + length d) % u64_mod ≡ i + length d = omega arith in
      let w₅ : (i + 1) % u64_mod ≡ i + 1 = omega arith in
      rw (w₁, w₂, w₃, w₄, w₅)
        (elim (Bool-cases (ltb i (length s))) [
          | inr e ↦ rw e (split_rest s start result, refl, split_rest-Rejoins s d start result h)
          | inl e ↦ elim (Bool-cases (ltb (length s) (i + length d))) [
            | inl past ↦
                rw (e, past)
                  (split_rest s start result, refl, split_rest-Rejoins s d start result h)
            | inr inside ↦ elim (Bool-cases (string_match (slice s i (length d)) d)) [
              | inl m ↦
                  rw (e, inside, m)
                    (split_from-Rejoins fuel (i + length d) (i + length d)
                      (result ++ slice s start (i - start) ∷ []) (omega arith) (omega arith)
                      (ground (arith, inside))
                      (matched-Reads i start result le
                        ((string_match_iff (slice s i (length d)) d).0 m) h))
              | inr other ↦
                  rw (e, inside, other)
                    (split_from-Rejoins fuel (i + 1) start result (omega arith) (omega arith)
                      (ground (arith, e)) h)
            ]
          ]
        ])

  -- `string_split`, with a delimiter that is not empty and lengths below 2 ^ 62, returns, and its
  -- pieces, each with the delimiter behind it, make up the string, or the string and one more
  -- delimiter.
  pub split-Rejoins : (r : List Bytes) × (string_split s d ≡ some r) × Rejoins s d r
  unfolding string_split
  split-Rejoins =
      split_from-Rejoins (suc (length s)) 0 0 [] (omega arith) (omega arith) (omega arith) refl
