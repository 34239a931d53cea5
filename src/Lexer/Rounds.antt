-- ===== src/Lexer/Rounds.antt =====
-- One round of `lexer_tokenize` in source/lexer.c moves on, or meets a string that does not end.
use atcc.Prelude.{
  ℕ, ◌+◌, ◌<◌, refl, arith, Bool, true, false, ◌||◌, Bool-cases, inl, inr, Option, none, some, [],
  ◌==◌, if◌then◌else◌, length,
}
use atcc.Ati.Strings.{Bytes}
use atcc.Lexer.Literals.{fuel_enough}
use atcc.Lexer.Loops.{Ends, line_comment_from-Stops, multiline_from-Stops}
use atcc.Lexer.Reads.{Reached, skip-Reached}
use atcc.Lexer.Tokenize.{plain, lexer_double, lexer_slash, single_kind, equal_kinds, lexer_switch}
use atcc.Lexer.{Lexer, lexer_peek, skip, fuel_of, lexer_build_equal, lexer_skip_multiline_comment}
use atcc.Tokens.{TokenKind}

abbrev pub is_quote : ℕ → Bool
is_quote c = c == b'"' || c == b'\''

module _ (filename source : Bytes) where
  lexer_build_equal-Reached :
      {n : ℕ} {l : Lexer} (one two : TokenKind)
      → Reached filename source n l
      → Reached filename source n (lexer_build_equal l one two).1
  unfolding lexer_build_equal
  lexer_build_equal-Reached {n} {l} one two r = elim (Bool-cases (lexer_peek l == b'=')) [
    | inl e ↦ rw e (skip-Reached r)
    | inr e ↦ rw e r
  ]

  lexer_double-Reached :
      {n : ℕ} {l : Lexer} (c : ℕ) (one one_equal two two_equal : TokenKind)
      → Reached filename source n l
      → Reached filename source n (lexer_double c l one one_equal two two_equal).1
  unfolding lexer_double
  lexer_double-Reached {n} {l} c one one_equal two two_equal r =
      elim (Bool-cases (lexer_peek l == c)) [
        | inl e ↦ rw e (lexer_build_equal-Reached two two_equal (skip-Reached r))
        | inr e ↦ rw e (lexer_build_equal-Reached one one_equal r)
      ]

  plain-Ends :
      {n : ℕ} (t : TokenKind × Lexer)
      → Reached filename source n t.1
      → Ends filename source n (plain t)
  plain-Ends (kind, l) r = ((some (kind, []), l), refl, r)

  lexer_slash-Ends :
      {n : ℕ} (l : Lexer) → Reached filename source n l → Ends filename source n (lexer_slash l)
  unfolding lexer_slash lexer_skip_multiline_comment
  lexer_slash-Ends {n} l r =
      let r₁ = skip-Reached r in
      elim (Bool-cases (lexer_peek l == b'=')) [
        | inl e ↦ rw e (plain-Ends (TokenKind.slash_equal, skip l) r₁)
        | inr e ↦ elim (Bool-cases (lexer_peek l == b'/')) [
          | inl e₂ ↦
              let (l', run, reached) =
                line_comment_from-Stops filename source (fuel_of l) n (skip l) r₁ (more r r₁) in
              rw (e, e₂, run) ((none, l'), refl, reached)
          | inr e₂ ↦ elim (Bool-cases (lexer_peek l == b'*')) [
            | inl e₃ ↦
                let (l', run, reached) =
                  multiline_from-Stops filename source (fuel_of (skip l)) n (skip l) 1 r₁
                    (fuel_enough filename source r₁) in
                rw (e, e₂, e₃, run) ((none, l'), refl, reached)
            | inr e₃ ↦ rw (e, e₂, e₃) (plain-Ends (TokenKind.slash, l) r)
          ]
        ]
      ]
    where
      more :
          Reached filename source n l
          → Reached filename source n (skip l)
          → length source < (skip l).offset + fuel_of l
      more r r₁ = rw r.is_at.reads (omega arith)

  pub lexer_switch-Ends :
      {n : ℕ} (c : ℕ) (l : Lexer)
      → Reached filename source n l
      → Ends filename source n (lexer_switch c l)
  unfolding lexer_switch
  lexer_switch-Ends {n} c l r = elim (Bool-cases (c == b'.')) [
    | inl e ↦
        rw e
          (elim (lexer_peek l == b'.')
            as (λ b.
              Ends filename source n
                (plain (if b then (TokenKind.dot_dot, skip l) else (TokenKind.dot, l)))) [
                  | true ↦ plain-Ends _ (skip-Reached r)
                  | false ↦ plain-Ends _ r
                ])
    | inr e₁ ↦ elim (Bool-cases (c == b'&')) [
      | inl e ↦ rw (e₁, e) (plain-Ends _ (lexer_double-Reached b'&' _ _ _ _ r))
      | inr e₂ ↦ elim (Bool-cases (c == b'|')) [
        | inl e ↦ rw (e₁, e₂, e) (plain-Ends _ (lexer_double-Reached b'|' _ _ _ _ r))
        | inr e₃ ↦ elim (Bool-cases (c == b'<')) [
          | inl e ↦ rw (e₁, e₂, e₃, e) (plain-Ends _ (lexer_double-Reached b'<' _ _ _ _ r))
          | inr e₄ ↦ elim (Bool-cases (c == b'>')) [
            | inl e ↦ rw (e₁, e₂, e₃, e₄, e) (plain-Ends _ (lexer_double-Reached b'>' _ _ _ _ r))
            | inr e₅ ↦ elim (Bool-cases (c == b'/')) [
              | inl e ↦ rw (e₁, e₂, e₃, e₄, e₅, e) (lexer_slash-Ends l r)
              | inr e ↦ rw (e₁, e₂, e₃, e₄, e₅, e) (other (single_kind c) (equal_kinds c))
            ]
          ]
        ]
      ]
    ]
  ]
    where
      other :
          (single : Option TokenKind) (pair : Option (TokenKind × TokenKind))
          → Ends filename source n (elim single [
            | some kind ↦ plain (kind, l)
            | none ↦ elim pair [
              | some (one, two) ↦ plain (lexer_build_equal l one two)
              | none ↦ plain (TokenKind.none, l)
            ]
          ])
      other (some kind) pair = plain-Ends (kind, l) r
      other none (some (one, two)) =
          plain-Ends (lexer_build_equal l one two) (lexer_build_equal-Reached one two r)
      other none none = plain-Ends (TokenKind.none, l) r
