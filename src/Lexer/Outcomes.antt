-- ===== src/Lexer/Outcomes.antt =====
-- How a round of `lexer_tokenize` in source/lexer.c ends: with the lexer moved on, or in a string that is not
-- closed.
use Prim.Native.Nat.{zero-le}
use mathlib.Core.Option.{none-ne-some}
use native.Mathlib.Nat.{le_refl}
use atcc.Prelude.Ctype.{isdigit, isalpha}
use atcc.Prelude.{
  ℕ, ◌+◌, ◌<◌, ◌≡◌, ◌⊎◌, refl, sym, ap, ◌∙◌, arith, true, false, ◌||◌, Bool-cases, inl, inr, Option,
  none, some, [], ◌∷◌, ◌++◌, ◌==◌, if◌then◌else◌, length, get_or, drop,
}
use atcc.Ati.Strings.{Bytes}
use atcc.Lexer.Literals.{skip-BehindWord, number_from-Ends, string_from-Ends, fuel_enough}
use atcc.Lexer.Loops.{Ends, moves, identifier_from-Ends}
use atcc.Lexer.Reads.{IsAt, Reached, peek_inside, peek_byte, skip-IsAt, skip-Reached}
use atcc.Lexer.Rounds.{is_quote, lexer_switch-Ends}
use atcc.Lexer.Starts.{read_or}
use atcc.Lexer.Strings.{closes, string_from-open, string_from-closed}
use atcc.Lexer.Tokenize.{Round, lex_token, filled}
use atcc.Lexer.{
  Lexer, lexer_read, lexer_peek, skip, take_byte, is_word, identifier_from, fuel_of, number_from,
  string_from, keyword_kind, lexer_build_identifier, lexer_build_number, lexer_build_string_or_char,
}
use atcc.Tokens.{TokenKind}
use atcc.Tokens.Keywords.{keywords}

module _ (filename source : Bytes) where
  -- The string that a quote at `i` opens is not closed, and its loop does not end, however long it runs.
  pub record IsOpen (i : ℕ) : Type 0 where
    pub inside : i < length source
    pub quote : is_quote (get_or source i 0) ≡ true
    pub unclosed : closes (get_or source i 0) false (drop (i + 1) source) ≡ false
    pub never :
        (l : Lexer) (fuel : ℕ) (buffer : Bytes)
        → IsAt filename source l
        → l.offset ≡ i + 1
        → string_from fuel l (get_or source i 0) buffer ≡ none

  -- A round ends with the lexer at `n` or later, or a string that begins in it, at `i`, does not end.
  abbrev pub Outcome : ℕ → ℕ → Option Round → Type 0
  Outcome n i m = ((m ≡ none) × IsOpen i) ⊎ Ends filename source n m

  word_token :
      (n : ℕ) (l : Lexer)
      → IsAt filename source l
      → Reached filename source n (skip l)
      → is_word (lexer_peek l) ≡ true
      → Ends filename source n (filled (lexer_build_identifier l))
  unfolding lexer_build_identifier
  word_token n l a r h =
      let m = moves filename source (record { is_at = a; past = zero-le }) (ground (arith, h)) in
      let first : identifier_from (fuel_of l) l []
          ≡ identifier_from (length l.source) (skip l) (take_byte l []) =
        unfold identifier_from in rw h refl in
      let ((value, l'), run, reached) =
        identifier_from-Ends filename source (length l.source) n (skip l) (take_byte l []) r
          (omega (arith, ap (length {0}) a.reads, m.moved)) in
      ((some (keyword_kind keywords value, value), l'), rw (first, run) refl, reached)

  number_token :
      (n : ℕ) (l : Lexer)
      → IsAt filename source l
      → Reached filename source n (skip l)
      → isdigit (lexer_peek l) ≡ true
      → Ends filename source n (filled (lexer_build_number l))
  unfolding lexer_build_number
  number_token n l a r h =
      let m =
        moves filename source (record { is_at = a; past = le_refl l.offset }) (ground (arith, h)) in
      let no_dot : (lexer_peek l == b'.') ≡ false = ground (arith, h) in
      let first : number_from (fuel_of l) l [] false
          ≡ number_from (length l.source) (skip l) (take_byte l []) false =
        unfold number_from in rw (h, no_dot) refl in
      let ((value, l'), run, reached) =
        number_from-Ends filename source (length l.source) l.offset (skip l) (take_byte l []) false
          (record { is_at = m.reached.is_at; past = omega (arith, m.moved) }) (λ t. cc)
          (skip-BehindWord filename source a m (ground (arith, h)))
          (omega (arith, ap (length {0}) a.reads, m.moved)) in
      (
        (some (TokenKind.number, value), l'),
        rw (first, run) refl,
        record { is_at = reached.is_at; past = omega (arith, reached.past, m.moved, r.past) },
      )

  -- a string with too little fuel is not closed
  string-IsOpen :
      (l : Lexer)
      → IsAt filename source l
      → is_quote (lexer_peek l) ≡ true
      → string_from (fuel_of (skip l)) (skip l) (lexer_read l).0 [] ≡ none
      → IsOpen l.offset
  string-IsOpen l a h e =
      let inside = peek_inside a (ground (arith, h)) in
      let (b, o) = skip-IsAt a inside in
      let byte = get_or source l.offset 0 in
      let read : (lexer_read l).0 ≡ byte = read_or filename source a in
      let quote : is_quote byte ≡ true = rw (peek_byte a inside) at h in
      let unclosed : closes byte false (drop (l.offset + 1) source) ≡ false =
        elim (Bool-cases (closes byte false (drop (l.offset + 1) source))) [
          | inr c ↦ c
          | inl c ↦
              let (r, run) =
                string_from-closed filename source byte quote (fuel_of (skip l)) (skip l) [] b
                  (rw o c)
                  (fuel_enough filename source
                    (record { is_at = b; past = le_refl (skip l).offset })) in
              absurd (none-ne-some r (sym (rw read at e) ∙ run))
        ] in
      record {
        inside = inside;
        quote = quote;
        unclosed = unclosed;
        never = λ k fuel buffer c at.
            string_from-open filename source byte quote fuel k buffer c (rw at unclosed);
      }

  string_token :
      (n : ℕ) (l : Lexer)
      → IsAt filename source l
      → Reached filename source n (skip l)
      → is_quote (lexer_peek l) ≡ true
      → Outcome n l.offset (filled (lexer_build_string_or_char (skip l) (lexer_read l).0))
  unfolding lexer_build_string_or_char
  string_token n l a r h =
      elim (string_from-Ends filename source (fuel_of (skip l)) n (skip l) (lexer_read l).0 [] r) [
        | inl e ↦ inl (rw e refl, string-IsOpen l a h e)
        | inr ((buffer, l'), run, reached) ↦ inr (
          (
            some (
              (if (lexer_read l).0 == b'"' then TokenKind.string else TokenKind.char),
              buffer ++ 0 ∷ [],
            ),
            skip l',
          ),
          rw run refl,
          skip-Reached reached,
        )
      ]

  pub lex_token-Outcome :
      (n : ℕ) (l : Lexer)
      → IsAt filename source l
      → Reached filename source n (skip l)
      → Outcome n l.offset (lex_token l)
  unfolding lex_token
  lex_token-Outcome n l a r = elim (Bool-cases (isalpha (lexer_peek l) || lexer_peek l == b'_')) [
    | inl e ↦ rw e (inr (word_token n l a r (ground (arith, e))))
    | inr e₁ ↦ elim (Bool-cases (isdigit (lexer_peek l))) [
      | inl e ↦ rw (e₁, e) (inr (number_token n l a r e))
      | inr e₂ ↦ elim (Bool-cases (is_quote (lexer_peek l))) [
        | inl e ↦ rw (e₁, e₂, e) (string_token n l a r e)
        | inr e ↦
            rw (e₁, e₂, e) (inr (lexer_switch-Ends filename source (lexer_read l).0 (skip l) r))
      ]
    ]
  ]
