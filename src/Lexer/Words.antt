-- ===== src/Lexer/Words.antt =====
-- What source/lexer.c makes of a word: the whole word, and a keyword's kind exactly for a keyword; and
-- what it makes of a hexadecimal digit.
use mathlib.Core.List.{append-nil, append_assoc}
use atcc.Prelude.Ctype.{isxdigit, isdigit, within}
use atcc.Prelude.{
  ℕ, zero, suc, ◌+◌, ◌-◌, ◌<◌, ◌≡◌, ◌≢◌, refl, sym, ap, ◌∙◌, arith, Bool, true, false, Bool-cases,
  inl, inr, some, List, [], ◌∷◌, ◌++◌, ltb, ◌==◌, ==_iff, if◌then◌else◌, length, get_or, get_elem?,
  drop, drop-cons, drop_all,
}
use atcc.Ati.Strings.Match.{string_match_iff}
use atcc.Ati.Strings.{Bytes, string_match}
use atcc.Lexer.Reads.{IsAt, peek_inside, peek_byte, skip-IsAt, read_inside}
use atcc.Lexer.{
  Lexer, lexer_read, lexer_peek, skip, take_byte, is_word, fuel_of, keyword_kind, identifier_from,
  lexer_build_identifier, hex_number,
}
use atcc.Tokens.Keywords.{keywords}
use atcc.Tokens.{TokenKind}

abbrev pub IsWord : Bytes → Type 0
IsWord [] = Unit {0}
IsWord (c ∷ cs) = (is_word c ≡ true) × IsWord cs

-- no byte of a word follows
abbrev pub ends_word : Bytes → Bool
ends_word [] = true
ends_word (c ∷ cs) = if is_word c then false else true

-- Every entry of the table is the first that its word matches.
Known : List (Bytes × TokenKind) → Type 0
Known [] = Unit {0}
Known ((w, kind) ∷ ks) = (keyword_kind keywords w ≡ kind) × Known ks

keywords-Known : Known keywords
unfolding keyword_kind string_match Known
keywords-Known = assumption (refl, tt)

Known-at :
    (ks : List (Bytes × TokenKind)) (w : Bytes) (kind : TokenKind)
    → Known ks
    → (i : ℕ) → get_elem? ks i ≡ some (w, kind)
    → keyword_kind keywords w ≡ kind
unfolding Known
Known-at [] w kind h i e = cc
Known-at ((v, k) ∷ ks) w kind h zero e =
    let a : v ≡ w = ground (arith, e) in let b : k ≡ kind = ground (arith, e) in rw (← a, ← b) h.0
Known-at ((v, k) ∷ ks) w kind h (suc i) e = Known-at ks w kind h.1 i e

keyword_kind-unknown :
    (ks : List (Bytes × TokenKind)) (w : Bytes)
    → ((i : ℕ) (kind : TokenKind) → get_elem? ks i ≢ some (w, kind))
    → keyword_kind ks w ≡ TokenKind.identifier
unfolding keyword_kind
keyword_kind-unknown [] w h = refl
keyword_kind-unknown ((v, k) ∷ ks) w h = elim (Bool-cases (string_match w v)) [
  | inl e ↦
      let same : v ≡ w = sym ((string_match_iff w v).0 e) in
      absurd (h 0 k (ap (λ t. some (t, k)) same))
  | inr e ↦ rw e (keyword_kind-unknown ks w (λ i kind g. h (suc i) kind g))
]

module _ (filename source : Bytes) where
  -- the lexer stands before these bytes
  abbrev pub Before : Lexer → Bytes → Type 0
  Before l s = drop l.offset source ≡ s

  pub at_byte :
      (l : Lexer) (c : ℕ) (s : Bytes)
      → IsAt filename source l
      → Before l (c ∷ s)
      → (l.offset < length source) × (lexer_peek l ≡ c) × ((lexer_read l).0 ≡ c) × Before (skip l) s
  at_byte l c s a h = elim (Bool-cases (ltb l.offset (length source))) [
    | inr e ↦ cc (h, drop_all l.offset source (ground (arith, e)))
    | inl e ↦
        let inside : l.offset < length source = ground (arith, e) in
        let split = drop-cons source l.offset 0 inside in
        let peek : lexer_peek l ≡ c = peek_byte a inside ∙ ground (arith, split, h) in
        let read : (lexer_read l).0 ≡ c =
          ap (λ (p : ℕ × Lexer). p.0)
            (read_inside l (omega (arith, ap (length {0}) a.reads, inside)))
          ∙ ap (λ t. get_or t l.offset 0) a.reads
          ∙ ground (arith, split, h) in
        let rest : drop (l.offset + 1) source ≡ s = ground (arith, split, h) in
        (inside, peek, read, ap (λ n. drop n source) (skip-IsAt a inside).1 ∙ rest)
  ]

  pub peek_nothing : (l : Lexer) → IsAt filename source l → Before l [] → lexer_peek l ≡ 0
  peek_nothing l a h = elim (Bool-cases (lexer_peek l == 0)) [
    | inl z ↦ ground (arith, z)
    | inr z ↦
        let inside =
          peek_inside a (λ (p : lexer_peek l ≡ 0). cc ((==_iff (lexer_peek l) 0).1 p, z)) in
        cc (h, drop-cons source l.offset 0 inside)
  ]

  at_end :
      (l : Lexer) (s : Bytes)
      → IsAt filename source l
      → Before l s
      → ends_word s ≡ true
      → is_word (lexer_peek l) ≡ false
  at_end l [] a h e = rw (peek_nothing l a h) refl
  at_end l (c ∷ s) a h e = rw (at_byte l c s a h).1 (ground (arith, e))

  -- Reading a word: its bytes, and the lexer behind it.
  identifier_from-word :
      (w rest : Bytes) (fuel : ℕ) (l : Lexer) (buffer : Bytes)
      → IsWord w
      → ends_word rest ≡ true
      → IsAt filename source l
      → Before l (w ++ rest)
      → length source < l.offset + fuel
      → (l' : Lexer) × (identifier_from fuel l buffer ≡ some (buffer ++ w, l'))
        × (l'.offset ≡ l.offset + length w)
  unfolding identifier_from
  identifier_from-word w rest zero l buffer v e a h f = absurd (omega (arith, a.inside))
  identifier_from-word [] rest (suc fuel) l buffer v e a h f =
      (l, rw (at_end l rest a h e, append-nil) refl, omega arith)
  identifier_from-word (c ∷ w) rest (suc fuel) l buffer v e a h f =
      let (inside, peek, read, before) = at_byte l c (w ++ rest) a h in
      let (b, o) = skip-IsAt a inside in
      let (l', run, at) =
        identifier_from-word w rest fuel (skip l) (take_byte l buffer) v.1 e b before
          (omega (arith, o)) in
      (l', rw (peek, v.0) (run ∙ rw (read, append_assoc) refl), omega (arith, at, o))

  -- Before a word that no word byte follows, the lexer reads the whole word and no more, and the
  -- token's kind is a keyword's if the keyword table has the word, and an identifier otherwise.
  pub lexer_build_identifier-word :
      (w rest : Bytes) (l : Lexer)
      → IsAt filename source l
      → IsWord w
      → ends_word rest ≡ true
      → Before l (w ++ rest)
      → (l' : Lexer) × (lexer_build_identifier l ≡ some (keyword_kind keywords w, w, l'))
        × (l'.offset ≡ l.offset + length w)
        × ((i : ℕ) (kind : TokenKind)
            → get_elem? keywords i ≡ some (w, kind)
            → keyword_kind keywords w ≡ kind)
        × (((i : ℕ) (kind : TokenKind) → get_elem? keywords i ≢ some (w, kind))
            → keyword_kind keywords w ≡ TokenKind.identifier)
  unfolding lexer_build_identifier
  lexer_build_identifier-word w rest l a v e h =
      let (l', run, at) =
        identifier_from-word w rest (fuel_of l) l [] v e a h
          (omega (arith, ap (length {0}) a.reads)) in
      (
        l',
        rw run refl,
        at,
        (λ i kind g. Known-at keywords w kind keywords-Known i g),
        keyword_kind-unknown keywords w,
      )

-- the value of a hexadecimal digit
abbrev pub hex_value : ℕ → ℕ
hex_value c =
    if isdigit c then c - b'0' else if within b'a' b'f' c then c - b'a' + 10 else c - b'A' + 10

-- `hex_number` gives a digit's value for 0 to 9 and A to F; for a lower-case digit, which
-- `isxdigit` lets through too, it gives 32 more.
pub hex_number-hex_value :
    (c : ℕ)
    → isxdigit c ≡ true
    → hex_number c ≡ (if within b'a' b'f' c then hex_value c + 32 else hex_value c)
hex_number-hex_value c h = ground arith
