-- ===== src/Lexer/Loops.antt =====
-- The loops of source/lexer.c end, inside the source.
use atcc.Prelude.Ctype.{isxdigit}
use atcc.Prelude.{
  ℕ, zero, suc, ◌+◌, ◌-◌, ◌*◌, ◌%◌, ◌<◌, ◌≡◌, ◌≢◌, refl, arith, true, false, ◌&&◌, ◌||◌, not,
  Bool-cases, inl, inr, Option, some, ltb, ◌==◌, if◌then◌else◌, length,
}
use atcc.Ati.Strings.{Bytes}
use atcc.Lexer.Reads.{Reached, peek_inside, skip-IsAt, skip-Reached}
use atcc.Lexer.Tokenize.{is_blank, blanks_from, ends_line, line_comment_from}
use atcc.Lexer.{
  Lexer, lexer_read, lexer_peek, lexer_peek_next, skip, take_byte, is_word, identifier_from,
  hex_from, hex_number, multiline_from,
}

module _ (filename source : Bytes) where
  -- A loop that has reached `n` ends with a result that has.
  abbrev pub Ends {ℓ} : {A : Type ℓ} → ℕ → Option (A × Lexer) → Type ℓ
  Ends {A} n m = (r : A × Lexer) × (m ≡ some r) × Reached filename source n r.1

  abbrev pub Stops : ℕ → Option Lexer → Type 0
  Stops n m = (l : Lexer) × (m ≡ some l) × Reached filename source n l

  -- One round of a loop: the byte at hand is not the 0 of the end.
  pub record Moves (n : ℕ) (l : Lexer) : Type 0 where
    pub reached : Reached filename source n (skip l)
    pub moved : (skip l).offset ≡ l.offset + 1
    pub inside : l.offset < length source

  pub moves : {n : ℕ} {l : Lexer} → Reached filename source n l → lexer_peek l ≢ 0 → Moves n l
  moves r h =
      let inside = peek_inside r.is_at h in
      record { reached = skip-Reached r; moved = (skip-IsAt r.is_at inside).1; inside = inside }

  pub identifier_from-Ends :
      (fuel n : ℕ) (l : Lexer) (buffer : Bytes)
      → Reached filename source n l
      → length source < l.offset + fuel
      → Ends n (identifier_from fuel l buffer)
  unfolding identifier_from
  identifier_from-Ends zero n l buffer r f = absurd (omega (arith, r.is_at.inside))
  identifier_from-Ends (suc fuel) n l buffer r f = elim (Bool-cases (is_word (lexer_peek l))) [
    | inr e ↦ rw e ((buffer, l), refl, r)
    | inl e ↦
        let m = moves r (ground arith) in
        rw e (
          identifier_from-Ends fuel n (skip l) (take_byte l buffer) m.reached
            (omega (arith, m.moved)))
  ]

  pub hex_from-Ends :
      (fuel n : ℕ) (l : Lexer) (digit : ℕ)
      → Reached filename source n l
      → length source < l.offset + fuel
      → Ends n (hex_from fuel l digit)
  unfolding hex_from
  hex_from-Ends zero n l digit r f = absurd (omega (arith, r.is_at.inside))
  hex_from-Ends (suc fuel) n l digit r f = elim (Bool-cases (isxdigit (lexer_peek l))) [
    | inr e ↦ rw e ((digit, l), refl, r)
    | inl e ↦
        let m = moves r (ground arith) in
        rw e (
          hex_from-Ends fuel n (skip l) ((digit * 16 + hex_number (lexer_read l).0) % 256) m.reached
            (omega (arith, m.moved)))
  ]

  pub blanks_from-Stops :
      (fuel n : ℕ) (l : Lexer)
      → Reached filename source n l
      → length source < l.offset + fuel
      → Stops n (blanks_from fuel l)
  unfolding blanks_from
  blanks_from-Stops zero n l r f = absurd (omega (arith, r.is_at.inside))
  blanks_from-Stops (suc fuel) n l r f = elim (Bool-cases (is_blank (lexer_peek l))) [
    | inr e ↦ rw e (l, refl, r)
    | inl e ↦
        let m = moves r (ground arith) in
        rw e (blanks_from-Stops fuel n (skip l) m.reached (omega (arith, m.moved)))
  ]

  pub line_comment_from-Stops :
      (fuel n : ℕ) (l : Lexer)
      → Reached filename source n l
      → length source < l.offset + fuel
      → Stops n (line_comment_from fuel l)
  unfolding line_comment_from
  line_comment_from-Stops zero n l r f = absurd (omega (arith, r.is_at.inside))
  line_comment_from-Stops (suc fuel) n l r f = elim (Bool-cases (ends_line (lexer_peek l))) [
    | inl e ↦ rw e (l, refl, r)
    | inr e ↦
        let m = moves r (ground arith) in
        rw e (line_comment_from-Stops fuel n (skip l) m.reached (omega (arith, m.moved)))
  ]

  -- A round reads one byte, or two where a mark opens or closes a comment.
  pub multiline_from-Stops :
      (fuel n : ℕ) (l : Lexer) (level : ℕ)
      → Reached filename source n l
      → length source < l.offset + fuel
      → Stops n (multiline_from fuel l level)
  unfolding multiline_from
  multiline_from-Stops zero n l level r f = absurd (omega (arith, r.is_at.inside))
  multiline_from-Stops (suc fuel) n l level r f =
      let opens = lexer_peek l == b'/' && lexer_peek_next l == b'*' in
      let closes = lexer_peek l == b'*' && lexer_peek_next l == b'/' in
      elim (Bool-cases (not (lexer_peek l == 0) && ltb 0 level)) [
        | inr e ↦ rw e (l, refl, r)
        | inl e ↦
            let m = moves r (ground arith) in
            let level' = if opens then level + 1 else if closes then level - 1 else level in
            rw e
              (elim (opens || closes)
                as (λ b.
                  Stops n (multiline_from fuel (if b then skip (skip l) else skip l) level')) [
                    | true ↦
                        let r₂ = skip-Reached (at_least m) in
                        multiline_from-Stops fuel n (skip (skip l)) level'
                          (record { is_at = r₂.is_at; past = omega (arith, r₂.past, r.past) })
                          (omega (arith, r₂.past))
                    | false ↦
                        multiline_from-Stops fuel n (skip l) level' m.reached
                          (omega (arith, m.moved))
                  ])
      ]
    where
      at_least : Moves n l → Reached filename source (l.offset + 1) (skip l)
      at_least m = record { is_at = m.reached.is_at; past = omega (arith, m.moved) }
