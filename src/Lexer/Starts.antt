-- ===== src/Lexer/Starts.antt =====
-- Where a round of `lexer_tokenize` in source/lexer.c begins: at the first byte that is not blank, which may
-- begin a comment.
use mathlib.Core.Path.{subst}
use mathlib.Core.Option.{some-injective}
use native.Mathlib.Nat.{le_refl}
use atcc.Prelude.Ctype.{isdigit, isalpha}
use atcc.Prelude.{
  ℕ, zero, suc, ◌+◌, ◌≤◌, ◌<◌, ◌≡◌, inl, inr, refl, sym, ap, ◌∙◌, arith, Bool, true, false, ◌&&◌,
  ◌||◌, Bool-cases, Option, none, some, [], ◌∷◌, ◌==◌, ==_iff, ltb, leb, if◌then◌else◌, ◌>>=◌,
  length, get_or,
}
use atcc.Ati.Strings.{Bytes}
use atcc.Lexer.Loops.{moves}
use atcc.Lexer.Reads.{IsAt, read_inside, read_end}
use atcc.Lexer.Rounds.{is_quote}
use atcc.Lexer.Tokenize.{
  Round, is_blank, blanks_from, lex_token, lexer_switch, lexer_slash, single_kind, equal_kinds,
  plain, filled,
}
use atcc.Lexer.{
  Lexer, lexer_peek, lexer_read, skip, lexer_build_equal, lexer_build_identifier,
  lexer_build_number, lexer_build_string_or_char,
}
use atcc.Tokens.{TokenKind}

-- `i` is the first place from `n` on where no blank stands
pub record IsStart (source : Bytes) (n i : ℕ) : Type 0 where
  pub past : n ≤ i
  pub inside : i ≤ length source
  pub blanks : (k : ℕ) → n ≤ k → k < i → is_blank (get_or source k 0) ≡ true
  pub stops : is_blank (get_or source i 0) ≡ false

-- `//` or `/*`
abbrev pub comment_bytes : ℕ → ℕ → Bool
comment_bytes c d = c == b'/' && (d == b'/' || d == b'*')

abbrev pub begins_comment : Bytes → ℕ → Bool
begins_comment source i = comment_bytes (get_or source i 0) (get_or source (i + 1) 0)

-- a round leaves a token, and nothing where it met a comment
pub data Fits (comment : Bool) : Option Round → Type 0 where
  no_round : Fits comment none
  met_comment : {l : Lexer} → comment ≡ true → Fits comment (some (none, l))
  met_token :
      {t : TokenKind × Bytes} {l : Lexer} → comment ≡ false → Fits comment (some (some t, l))

filled-Fits : (m : Option (TokenKind × Bytes × Lexer)) → Fits false (filled m)
filled-Fits none = Fits.no_round
filled-Fits (some r) = Fits.met_token refl

plain-Fits : (t : TokenKind × Lexer) → Fits false (plain t)
plain-Fits (kind, l) = Fits.met_token refl

skipped-Fits : (m : Option Lexer) → Fits true (m >>= λ l. some (none, l))
skipped-Fits none = Fits.no_round
skipped-Fits (some l) = Fits.met_comment refl

lexer_slash-Fits : (l : Lexer) → Fits (lexer_peek l == b'/' || lexer_peek l == b'*') (lexer_slash l)
unfolding lexer_slash
lexer_slash-Fits l = elim (Bool-cases (lexer_peek l == b'=')) [
  | inl e ↦
      let no : (lexer_peek l == b'/' || lexer_peek l == b'*') ≡ false = ground (arith, e) in
      rw (e, no) (Fits.met_token refl)
  | inr e ↦ elim (Bool-cases (lexer_peek l == b'/')) [
    | inl f ↦ rw (e, f) (skipped-Fits _)
    | inr f ↦ elim (Bool-cases (lexer_peek l == b'*')) [
      | inl g ↦ rw (e, f, g) (skipped-Fits _)
      | inr g ↦ rw (e, f, g) (Fits.met_token refl)
    ]
  ]
]

if-Fits :
    (b : Bool) (m n : Option Round) → Fits false m → Fits false n → Fits false (if b then m else n)
if-Fits true m n h g = h
if-Fits false m n h g = g

if_plain-Fits :
    (b : Bool) (t : TokenKind × Lexer) (n : Option Round)
    → Fits false n
    → Fits false (if b then plain t else n)
if_plain-Fits b t n h = if-Fits b (plain t) n (plain-Fits t) h

other-Fits :
    (single : Option TokenKind) (pair : Option (TokenKind × TokenKind)) (l : Lexer)
    → Fits false (elim single [
      | some kind ↦ plain (kind, l)
      | none ↦ elim pair [
        | some (one, two) ↦ plain (lexer_build_equal l one two)
        | none ↦ plain (TokenKind.none, l)
      ]
    ])
other-Fits (some kind) pair l = Fits.met_token refl
other-Fits none (some (one, two)) l = plain-Fits (lexer_build_equal l one two)
other-Fits none none l = Fits.met_token refl

lexer_switch-Fits : (c : ℕ) (l : Lexer) → Fits (comment_bytes c (lexer_peek l)) (lexer_switch c l)
unfolding lexer_switch
lexer_switch-Fits c l = elim (Bool-cases (c == b'/')) [
  | inl e ↦ rw ((==_iff c b'/').0 e) (lexer_slash-Fits l)
  | inr e ↦ rw e (
      if_plain-Fits (c == b'.') _ _ (
        if_plain-Fits (c == b'&') _ _ (
          if_plain-Fits (c == b'|') _ _ (
            if_plain-Fits (c == b'<') _ _
              (if_plain-Fits (c == b'>') _ _ (other-Fits (single_kind c) (equal_kinds c) l))))))
]

get_or_past : (s : Bytes) (n : ℕ) → length s ≤ n → get_or s n 0 ≡ 0
get_or_past [] n h = refl
get_or_past (c ∷ s) zero h = absurd (omega (arith, h))
get_or_past (c ∷ s) (suc n) h = get_or_past s n (omega (arith, h))

module _ (filename source : Bytes) where
  peek_or : {l : Lexer} → IsAt filename source l → lexer_peek l ≡ get_or source l.offset 0
  unfolding lexer_peek
  peek_or {l} a = elim (Bool-cases (leb (length l.source) l.offset)) [
    | inl e ↦ rw e (sym (get_or_past source l.offset (ground (arith, ap (length {0}) a.reads, e))))
    | inr e ↦ rw e (rw a.reads refl)
  ]

  pub read_or : {l : Lexer} → IsAt filename source l → (lexer_read l).0 ≡ get_or source l.offset 0
  read_or {l} a = elim (Bool-cases (ltb l.offset (length source))) [
    | inl e ↦
        ap (λ (p : ℕ × Lexer). p.0) (read_inside l (ground (arith, ap (length {0}) a.reads, e)))
        ∙ ap (λ t. get_or t l.offset 0) a.reads
    | inr e ↦
        ap (λ (p : ℕ × Lexer). p.0) (read_end l (ground (arith, ap (length {0}) a.reads, e)))
        ∙ sym (get_or_past source l.offset (ground (arith, e)))
  ]

  second_or :
      {l : Lexer}
      → IsAt filename source l
      → (get_or source l.offset 0 == b'/') ≡ true
      → lexer_peek (skip l) ≡ get_or source (l.offset + 1) 0
  second_or {l} a e =
      let m =
        moves filename source (record { is_at = a; past = le_refl l.offset })
          (λ z. cc (e, sym (peek_or a) ∙ z)) in
      peek_or m.reached.is_at ∙ ap (λ k. get_or source k 0) m.moved

  -- what the switch of a round reads
  switch_bytes :
      {l : Lexer}
      → IsAt filename source l
      → comment_bytes (lexer_read l).0 (lexer_peek (skip l)) ≡ begins_comment source l.offset
  switch_bytes {l} a = elim (Bool-cases (get_or source l.offset 0 == b'/')) [
    | inl e ↦ rw (read_or a, second_or a e) refl
    | inr e ↦ rw (read_or a, e) refl
  ]

  -- what the first bytes of a round say of a comment, and what the round leaves
  pub lex_token-Fits :
      (l : Lexer) → IsAt filename source l → Fits (begins_comment source l.offset) (lex_token l)
  unfolding lex_token
  lex_token-Fits l a = elim (Bool-cases (lexer_peek l == b'/')) [
    | inl e ↦
        let letter : (isalpha (lexer_peek l) || lexer_peek l == b'_') ≡ false = ground (arith, e) in
        let digit : isdigit (lexer_peek l) ≡ false = ground (arith, e) in
        let quote : is_quote (lexer_peek l) ≡ false = ground (arith, e) in
        rw (letter, digit, quote, ← switch_bytes a) (lexer_switch-Fits (lexer_read l).0 (skip l))
    | inr e ↦
        let no : begins_comment source l.offset ≡ false = ground (arith, e, peek_or a) in
        let s : Fits false (lexer_switch (lexer_read l).0 (skip l)) =
          subst (λ b. Fits b (lexer_switch (lexer_read l).0 (skip l))) (switch_bytes a ∙ no)
            (lexer_switch-Fits (lexer_read l).0 (skip l)) in
        rw no (
          if-Fits (isalpha (lexer_peek l) || lexer_peek l == b'_') _ _
            (filled-Fits (lexer_build_identifier l))
            (if-Fits (isdigit (lexer_peek l)) _ _ (filled-Fits (lexer_build_number l)) (
              if-Fits (is_quote (lexer_peek l)) _ _
                (filled-Fits (lexer_build_string_or_char (skip l) (lexer_read l).0)) s)))
  ]

  -- the loop over the blanks stops at the first byte that is none
  pub blanks_from-IsStart :
      (fuel : ℕ) (l l' : Lexer)
      → IsAt filename source l
      → blanks_from fuel l ≡ some l'
      → IsStart source l.offset l'.offset
  unfolding blanks_from
  blanks_from-IsStart zero l l' a h = cc
  blanks_from-IsStart (suc fuel) l l' a h = elim (Bool-cases (is_blank (lexer_peek l))) [
    | inr e ↦
        let same : l ≡ l' = some-injective l l' (rw e at h) in
        rw (← same) (record {
          past = le_refl l.offset;
          inside = a.inside;
          blanks = λ k n m. absurd (omega (arith, n, m));
          stops = rw (peek_or a) at e;
        })
    | inl e ↦
        let m =
          moves filename source (record { is_at = a; past = le_refl l.offset })
            (ground (arith, e)) in
        let s = blanks_from-IsStart fuel (skip l) l' m.reached.is_at (rw e at h) in
        record {
          past = omega (arith, s.past, m.moved);
          inside = s.inside;
          blanks = λ k n i. elim (Bool-cases (k == l.offset)) [
            | inl same ↦ rw ((==_iff k l.offset).0 same) (rw (peek_or a) at e)
            | inr other ↦ s.blanks k (ground (arith, other, n, m.moved)) i
          ];
          stops = s.stops;
        }
  ]
