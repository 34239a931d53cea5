-- ===== src/Lexer/Literals.antt =====
-- The literals of source/lexer.c: a number ends, and a string that ends does so inside the source.
use atcc.Prelude.Ctype.{isdigit}
use atcc.Prelude.{
  ℕ, zero, suc, ◌+◌, ◌-◌, ◌≤◌, ◌<◌, ◌≡◌, ◌⊎◌, refl, ap, ◌∙◌, arith, Bool, true, false, ◌&&◌, ◌||◌,
  Bool-cases, inl, inr, none, some, [], ◌∷◌, ◌++◌, ◌==◌, length, get_or, take,
}
use atcc.Ati.Strings.{Bytes}
use atcc.Lexer.Loops.{Ends, Moves, moves, hex_from-Ends}
use atcc.Lexer.Reads.{newlines, newlines-take, IsAt, Reached, peek_byte, skip-Reached}
use atcc.Lexer.{
  Lexer, lexer_read, lexer_peek, skip, take_byte, fuel_of, number_from, escape, escape_byte,
  string_step, string_from,
}

module _ (filename source : Bytes) where
  -- The byte before the lexer is no newline, so that a step back keeps the line.
  abbrev pub BehindWord : Lexer → Type 0
  BehindWord l = (get_or source (l.offset - 1) 0 == b'\n') ≡ false

  step_back :
      {n : ℕ} {l : Lexer}
      → Reached filename source n l
      → n + 1 ≤ l.offset
      → 0 < l.offset
      → BehindWord l
      → Reached filename source n (record l { offset = l.offset - 1 })
  step_back {n} {l} r h pos b =
      let back : l.offset - 1 + 1 ≡ l.offset = omega arith in
      let same = newlines-take source (l.offset - 1) (omega (arith, r.is_at.inside)) in
      let count : newlines (take l.offset source) ≡ newlines (take (l.offset - 1) source) =
        ground (arith, rw back at same, b) in
      record {
        is_at = record {
          file = r.is_at.file;
          reads = r.is_at.reads;
          inside = omega (arith, r.is_at.inside);
          counted = r.is_at.counted ∙ ap (λ t. 1 + t) count;
        };
        past = omega arith;
      }

  pub skip-BehindWord :
      {n : ℕ} {l : Lexer}
      → IsAt filename source l
      → Moves filename source n l
      → (lexer_peek l == b'\n') ≡ false
      → BehindWord (skip l)
  skip-BehindWord {n} {l} a m h =
      let at : (skip l).offset - 1 ≡ l.offset = omega (arith, m.moved) in
      rw at (rw (peek_byte a m.inside) at h)

  -- The number at `s`: at least its first byte is read for good, also where the lexer steps back.
  pub number_from-Ends :
      (fuel s : ℕ) (l : Lexer) (buffer : Bytes) (seen : Bool)
      → Reached filename source (s + 1) l
      → (seen ≡ true → s + 2 ≤ l.offset)
      → BehindWord l
      → length source < l.offset + fuel
      → Ends filename source (s + 1) (number_from fuel l buffer seen)
  unfolding number_from
  number_from-Ends zero s l buffer seen r two b f = absurd (omega (arith, r.is_at.inside))
  number_from-Ends (suc fuel) s l buffer seen r two b f =
      let dot = lexer_peek l == b'.' in
      elim (Bool-cases (isdigit (lexer_peek l) || dot)) [
        | inr e ↦ rw e ((buffer, l), refl, r)
        | inl e ↦ elim (Bool-cases (dot && seen)) [
          | inl t ↦
              let far = two (ground (arith, t)) in
              rw (e, t)
                (
                  (buffer, record l { offset = l.offset - 1 }),
                  refl,
                  step_back r (omega arith) (omega arith) b,
                )
          | inr t ↦
              let m = moves filename source r (ground (arith, e)) in
              rw (e, t)
                (number_from-Ends fuel s (skip l) (take_byte l buffer) (seen || dot) m.reached
                  (λ h. omega (arith, m.moved, r.past))
                  (skip-BehindWord r.is_at m (ground (arith, e))) (omega (arith, m.moved)))
        ]
      ]

  pub fuel_enough :
      {n : ℕ} {l : Lexer} → Reached filename source n l → length source < l.offset + fuel_of l
  fuel_enough r = rw r.is_at.reads (omega arith)

  escape-Ends :
      (n c : ℕ) (l : Lexer) → Reached filename source n l → Ends filename source n (escape c l)
  unfolding escape
  escape-Ends n c l r = elim (Bool-cases (c == b'x' || c == b'X')) [
    | inl e ↦
        let ((digit, l'), run, reached) =
          hex_from-Ends filename source (fuel_of l) n l 0 r (fuel_enough r) in
        rw (e, run) ((digit ∷ [], l'), refl, reached)
    | inr e ↦
        rw e
          (elim (escape_byte c)
            as (λ o.
              Ends filename source n
                (elim o [ some b ↦ some (b ∷ [], l) | none ↦ some (b'\\' ∷ c ∷ [], l) ])) [
                  | some b ↦ ((b ∷ [], l), refl, r)
                  | none ↦ ((b'\\' ∷ c ∷ [], l), refl, r)
                ])
  ]

  pub string_step-Ends :
      (n : ℕ) (l : Lexer)
      → Reached filename source n (skip l)
      → Ends filename source n (string_step l)
  unfolding string_step
  string_step-Ends n l r₁ = elim (Bool-cases ((lexer_read l).0 == b'\\')) [
    | inl e ↦ rw e (escape-Ends n (lexer_read (skip l)).0 (skip (skip l)) (skip-Reached r₁))
    | inr e ↦ rw e (((lexer_read l).0 ∷ [], skip l), refl, r₁)
  ]

  -- A string ends inside the source, or its loop does not end.
  pub string_from-Ends :
      (fuel n : ℕ) (l : Lexer) (terminator : ℕ) (buffer : Bytes)
      → Reached filename source n l
      → (string_from fuel l terminator buffer ≡ none)
        ⊎ Ends filename source n (string_from fuel l terminator buffer)
  unfolding string_from
  string_from-Ends zero n l terminator buffer r = inl refl
  string_from-Ends (suc fuel) n l terminator buffer r =
      elim (Bool-cases (lexer_peek l == terminator)) [
        | inl e ↦ rw e (inr ((buffer, l), refl, r))
        | inr e ↦
            let (s, run, reached) = string_step-Ends n l (skip-Reached r) in
            rw (e, run) (string_from-Ends fuel n s.1 terminator (buffer ++ s.0) reached)
      ]
