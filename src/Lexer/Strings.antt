-- ===== src/Lexer/Strings.antt =====
-- When the string loop of source/lexer.c ends, and how it reads hexadecimal escapes.
use Prim.Native.Nat.{zero-le}
use native.Mathlib.Nat.{le_refl}
use atcc.Prelude.Ctype.{isxdigit}
use atcc.Prelude.{
  ℕ, zero, suc, ◌+◌, ◌*◌, ◌%◌, ◌≤◌, ◌<◌, ◌≡◌, ◌≢◌, refl, sym, ap, ◌∙◌, arith, Bool, true, false,
  ◌||◌, Bool-cases, inl, inr, none, some, [], ◌∷◌, ◌++◌, ltb, ◌==◌, ==_iff, if◌then◌else◌, length,
  get_or, drop, drop_all, drop-cons,
}
use atcc.Ati.Strings.{Bytes}
use atcc.Lexer.Literals.{fuel_enough, string_step-Ends}
use atcc.Lexer.Loops.{moves, hex_from-Ends}
use atcc.Lexer.Reads.{IsAt, peek_byte, skip-IsAt, skip-Reached, read_inside, read_end}
use atcc.Lexer.Rounds.{is_quote}
use atcc.Lexer.{
  Lexer, lexer_read, lexer_peek, skip, fuel_of, hex_from, hex_number, escape, string_step,
  string_from, lexer_build_string_or_char,
}
use atcc.Tokens.{TokenKind}

-- The terminator stands in the bytes, not behind a backslash; the flag says that one was read last.
abbrev pub closes : ℕ → Bool → Bytes → Bool
closes terminator escaped [] = false
closes terminator true (c ∷ cs) = closes terminator false cs
closes terminator false (c ∷ cs) =
    if c == terminator then true else closes terminator (c == b'\\') cs

module _ (filename source : Bytes) (terminator : ℕ) (quoted : is_quote terminator ≡ true) where
  -- the string that begins at the lexer is closed
  abbrev closing : Lexer → Bool
  closing l = closes terminator false (drop l.offset source)

  closing_byte :
      (l : Lexer)
      → IsAt filename source l
      → l.offset < length source
      → (skip l).offset ≡ l.offset + 1
      → closing l ≡ (
          if lexer_peek l == terminator
          then true
          else closes terminator (lexer_peek l == b'\\') (drop (skip l).offset source))
  closing_byte l a h o = rw (drop-cons source l.offset 0 h, o, peek_byte a h) refl

  -- Bytes that are neither the terminator nor a backslash are passed over.
  hex_from-closing :
      (fuel : ℕ) (l : Lexer) (digit : ℕ) {r : ℕ × Lexer}
      → IsAt filename source l
      → hex_from fuel l digit ≡ some r
      → closing r.1 ≡ closing l
  unfolding hex_from
  hex_from-closing zero l digit a e = cc
  hex_from-closing (suc fuel) l digit a e = elim (Bool-cases (isxdigit (lexer_peek l))) [
    | inr n ↦ ground (arith, rw n at e)
    | inl x ↦
        let m =
          moves filename source (record { is_at = a; past = le_refl l.offset })
            (ground (arith, x)) in
        let ih =
          hex_from-closing fuel (skip l) ((digit * 16 + hex_number (lexer_read l).0) % 256)
            m.reached.is_at (rw x at e) in
        let not_t : (lexer_peek l == terminator) ≡ false = ground (arith, x, quoted) in
        let not_b : (lexer_peek l == b'\\') ≡ false = ground (arith, x) in
        ih ∙ sym (closing_byte l a m.inside m.moved ∙ rw (not_t, not_b) refl)
  ]

  closing_end : (l : Lexer) → length source ≤ l.offset → closing l ≡ false
  closing_end l h = rw (drop_all l.offset source h) refl

  escape-closing :
      (c : ℕ) (l : Lexer) {r : Bytes × Lexer}
      → IsAt filename source l
      → escape c l ≡ some r
      → closing r.1 ≡ closing l
  unfolding escape
  escape-closing c l {r} a e = elim (Bool-cases (c == b'x' || c == b'X')) [
    | inl x ↦
        let (q, run, reached) =
          hex_from-Ends filename source (fuel_of l) 0 l 0 (record { is_at = a; past = zero-le })
            (fuel_enough filename source (record { is_at = a; past = le_refl l.offset })) in
        let same : some (q.0 ∷ [], q.1) ≡ some r = rw (x, run) at e in
        let at : q.1 ≡ r.1 = ground (arith, same) in
        rw (← at) (hex_from-closing (fuel_of l) l 0 a run)
    | inr n ↦ let at : l ≡ r.1 = ground (arith, rw n at e) in rw (← at) refl
  ]

  -- Behind a backslash one byte is passed over, whatever it is.
  escaped_byte :
      (l : Lexer)
      → IsAt filename source l
      → closing (skip l) ≡ closes terminator true (drop l.offset source)
  escaped_byte l a = elim (Bool-cases (ltb l.offset (length source))) [
    | inl e ↦
        let h : l.offset < length source = ground (arith, e) in
        rw (drop-cons source l.offset 0 h, (skip-IsAt a h).1) refl
    | inr e ↦
        let h : length source ≤ l.offset = ground (arith, e) in
        let past = skip-Reached (record { is_at = a; past = h }) in
        rw (drop_all l.offset source h) (closing_end (skip l) past.past)
  ]

  string_step-closing :
      (l : Lexer) {r : Bytes × Lexer}
      → IsAt filename source l
      → (lexer_peek l == terminator) ≡ false
      → string_step l ≡ some r
      → closing r.1 ≡ closing l
  unfolding string_step
  string_step-closing l {r} a n e = elim (Bool-cases (ltb l.offset (length source))) [
    | inr x ↦
        let end = read_end l (ground (arith, ap (length {0}) a.reads, x)) in
        let at : l ≡ r.1 = ground (arith, rw end at e) in rw (← at) refl
    | inl x ↦
        let h : l.offset < length source = ground (arith, x) in
        let o = (skip-IsAt a h).1 in
        let c : (lexer_read l).0 ≡ lexer_peek l =
          ap (λ (p : ℕ × Lexer). p.0) (read_inside l (omega (arith, ap (length {0}) a.reads, h)))
          ∙ ap (λ t. get_or t l.offset 0) a.reads
          ∙ sym (peek_byte a h) in
        let before = closing_byte l a h o in
        let r₁ = skip-Reached (record { is_at = a; past = le_refl l.offset }) in
        elim (Bool-cases (lexer_peek l == b'\\')) [
          | inl b ↦
              let rest = rw (c, b) at e in
              escape-closing (lexer_read (skip l)).0 (skip (skip l)) (skip-Reached r₁).is_at rest
              ∙ escaped_byte (skip l) r₁.is_at
              ∙ sym (rw (n, b) at before)
          | inr b ↦
              let at : skip l ≡ r.1 = ground (arith, rw (c, b) at e) in
              rw (← at) (sym (rw (n, b) at before))
        ]
  ]

  quote_ne_zero : terminator ≢ 0
  quote_ne_zero = ground arith

  -- A string that is not closed is read for ever.
  pub string_from-open :
      (fuel : ℕ) (l : Lexer) (buffer : Bytes)
      → IsAt filename source l
      → closing l ≡ false
      → string_from fuel l terminator buffer ≡ none
  unfolding string_from
  string_from-open zero l buffer a h = refl
  string_from-open (suc fuel) l buffer a h =
      let n : (lexer_peek l == terminator) ≡ false =
        elim (Bool-cases (lexer_peek l == terminator)) [
          | inl e ↦
              let m =
                moves filename source (record { is_at = a; past = le_refl l.offset })
                  (λ z. quote_ne_zero (sym ((==_iff (lexer_peek l) terminator).0 e) ∙ z)) in
              cc (h, rw e at (closing_byte l a m.inside m.moved))
          | inr e ↦ e
        ] in
      let (s, run, reached) =
        string_step-Ends filename source 0 l
          (skip-Reached (record { is_at = a; past = zero-le })) in
      rw (n, run)
        (string_from-open fuel s.1 (buffer ++ s.0) reached.is_at
          (string_step-closing l a n run ∙ h))

  pub string_from-closed :
      (fuel : ℕ) (l : Lexer) (buffer : Bytes)
      → IsAt filename source l
      → closing l ≡ true
      → length source < l.offset + fuel
      → (r : Bytes × Lexer) × (string_from fuel l terminator buffer ≡ some r)
  unfolding string_from
  string_from-closed zero l buffer a h f = absurd (omega (arith, a.inside))
  string_from-closed (suc fuel) l buffer a h f = elim (Bool-cases (lexer_peek l == terminator)) [
    | inl e ↦ rw e ((buffer, l), refl)
    | inr e ↦
        let inside : l.offset < length source = elim (Bool-cases (ltb l.offset (length source))) [
          | inl t ↦ ground (arith, t)
          | inr t ↦ cc (h, closing_end l (ground (arith, t)))
        ] in
        let (b, o) = skip-IsAt a inside in
        let (s, run, reached) =
          string_step-Ends filename source (l.offset + 1) l
            (record { is_at = b; past = omega (arith, o) }) in
        rw (e, run)
          (string_from-closed fuel s.1 (buffer ++ s.0) reached.is_at
            (string_step-closing l a e run ∙ h) (omega (arith, reached.past)))
  ]

  -- With the lexer behind the opening quote: the string is read if a closing quote follows, not
  -- behind a backslash; if none does, the loop does not end, however long it runs.
  pub string_iff_closes :
      (l : Lexer)
      → IsAt filename source l
      → (closes terminator false (drop l.offset source) ≡ true
          → (r : TokenKind × Bytes × Lexer) × (lexer_build_string_or_char l terminator ≡ some r))
        × (closes terminator false (drop l.offset source) ≡ false
            → (fuel : ℕ) (buffer : Bytes) → string_from fuel l terminator buffer ≡ none)
  unfolding lexer_build_string_or_char
  string_iff_closes l a = (
    (λ h.
        let (r, run) =
          string_from-closed (fuel_of l) l [] a h
            (fuel_enough filename source (record { is_at = a; past = le_refl l.offset })) in
        (
          (
            (if terminator == b'"' then TokenKind.string else TokenKind.char),
            r.0 ++ 0 ∷ [],
            skip r.1,
          ),
          rw run refl,
        )),
    (λ h fuel buffer. string_from-open fuel l buffer a h),
  )
