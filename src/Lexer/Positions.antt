-- ===== src/Lexer/Positions.antt =====
-- `lexer_tokenize` of source/lexer.c ends, unless a string does not, and its tokens stand at the lines
-- that the newlines before them give.
use Prim.Native.Nat.{zero-le}
use mathlib.Core.List.{append_assoc}
use native.Mathlib.Nat.{le_refl}
use atcc.Prelude.{
  ℕ, zero, suc, ◌+◌, ◌≤◌, ◌<◌, ◌≡◌, ◌≢◌, ◌⊎◌, refl, sym, ap, ◌∙◌, arith, true, false, Bool-cases,
  inl, inr, Option, none, some, List, [], ◌∷◌, ◌++◌, ltb, ◌==◌, ==_iff, length, get_or, take,
}
use atcc.Ati.Strings.{Bytes}
use atcc.Lexer.Loops.{moves, blanks_from-Stops}
use atcc.Lexer.Reads.{newlines, IsAt, Reached, peek_byte, skip-Reached}
use atcc.Lexer.Starts.{IsStart, begins_comment, Fits, lex_token-Fits, blanks_from-IsStart}
use atcc.Lexer.Tokenize.{
  lex_token, is_blank, blanks_from, token_at, push_token, tokenize_from, start, lexer_tokenize,
}
use atcc.Lexer.{Lexer, lexer_peek, skip, fuel_of}
use atcc.Tokens.{TokenKind, Token}
use atcc.Lexer.Outcomes.{IsOpen, lex_token-Outcome}

module _ (filename source : Bytes) where
  -- the token stands at the line of this place
  pub record IsLocated (i : ℕ) (t : Token) : Type 0 where
    pub file : t.location.file ≡ filename
    pub line : t.location.line ≡ 1 + newlines (take i source)

  -- from `i` to `j` lex_token reads this token, or a comment
  pub record IsRound (i j : ℕ) (t : Option (TokenKind × Bytes)) : Type 0 where
    pub before : Lexer
    pub after : Lexer
    pub is_at : IsAt filename source before
    pub starts : before.offset ≡ i
    pub ends : after.offset ≡ j
    pub reads : lex_token before ≡ some (t, after)

  -- The tokens of the source from `n` on. Each round starts at the first place without a blank. A token
  -- is what lex_token reads there, and stands at the line of that place; a comment leaves none. The next
  -- round begins where lex_token stopped. The last token is the end of file, at the end of the source or at
  -- a 0 byte.
  pub data IsTokenized : ℕ → List Token → Type 0 where
    at_end :
        {n : ℕ} {t : Token}
        → (n ≡ length source) ⊎ (get_or source n 0 ≡ 0)
        → t.kind ≡ TokenKind.eof
        → IsLocated n t
        → IsTokenized n (t ∷ [])
    next_token :
        {n i j : ℕ} {t : Token} {ts : List Token}
        → IsStart source n i
        → begins_comment source i ≡ false
        → IsLocated i t
        → IsRound i j (some (t.kind, t.value))
        → (i ≤ j) × (n < j)
        → IsTokenized j ts
        → IsTokenized n (t ∷ ts)
    next_comment :
        {n i j : ℕ} {ts : List Token}
        → IsStart source n i
        → begins_comment source i ≡ true
        → IsRound i j none
        → (i ≤ j) × (n < j)
        → IsTokenized j ts
        → IsTokenized n ts

  -- rounds up to a string that is not closed
  pub data RunsOn : ℕ → Type 0 where
    in_string : {n i : ℕ} → IsStart source n i → IsOpen filename source i → RunsOn n
    next_round :
        {n i j : ℕ} {t : Option (TokenKind × Bytes)}
        → IsStart source n i
        → IsRound i j t
        → (i ≤ j) × (n < j)
        → RunsOn j
        → RunsOn n

  token_at-IsLocated :
      (l : Lexer) (t : TokenKind × Bytes)
      → IsAt filename source l
      → IsLocated l.offset (token_at l t)
  token_at-IsLocated l (kind, value) a = record { file = a.file; line = a.counted }

  peek_zero :
      (l : Lexer)
      → IsAt filename source l
      → lexer_peek l ≡ 0
      → (l.offset ≡ length source) ⊎ (get_or source l.offset 0 ≡ 0)
  peek_zero l a h = elim (Bool-cases (ltb l.offset (length source))) [
    | inl e ↦ inr (sym (peek_byte a (ground (arith, e))) ∙ h)
    | inr e ↦ inl (ground (arith, e, a.inside))
  ]

  -- The blanks of a round, and what follows them: the lexer has moved on, to the bound or behind it.
  record PastBlanks (l l' : Lexer) : Type 0 where
    runs : blanks_from (fuel_of l) l ≡ some l'
    is_at : IsAt filename source l'
    bound : ℕ
    moved : l.offset < bound
    behind : l'.offset ≤ bound
    next : Reached filename source bound (skip l')

  blanks_from-PastBlanks :
      (l : Lexer) → IsAt filename source l → lexer_peek l ≢ 0 → (l' : Lexer) × PastBlanks l l'
  unfolding blanks_from
  blanks_from-PastBlanks l a h =
      let m = moves filename source (record { is_at = a; past = le_refl l.offset }) h in
      let next : Reached filename source (l.offset + 1) (skip l) = record {
        is_at = m.reached.is_at;
        past = omega (arith, m.moved);
      } in
      elim (Bool-cases (is_blank (lexer_peek l))) [
        | inr e ↦ (
          l,
          record {
            runs = rw e refl;
            is_at = a;
            bound = l.offset + 1;
            moved = omega arith;
            behind = omega arith;
            next = next;
          },
        )
        | inl e ↦
            let (l', run, reached) =
              blanks_from-Stops filename source (length l.source) (l.offset + 1) (skip l) next
                (omega (arith, ap (length {0}) a.reads, m.moved)) in
            (
              l',
              record {
                runs = rw e run;
                is_at = reached.is_at;
                bound = l'.offset;
                moved = omega (arith, reached.past);
                behind = le_refl l'.offset;
                next = skip-Reached (record { is_at = reached.is_at; past = le_refl l'.offset });
              },
            )
      ]

  -- what the rest of the loop gives, behind the tokens so far
  record Finishes (n : ℕ) (ts : List Token) (m : Option (List Token)) : Type 0 where
    more : List Token
    runs : m ≡ some (ts ++ more)
    tokenized : IsTokenized n more

  -- a round that leaves this, before the rest of the loop
  round-Finishes :
      (n : ℕ) (l l' : Lexer) (ts : List Token) (t : Option (TokenKind × Bytes))
      {m : Option (List Token)}
      → IsStart source n l.offset
      → IsAt filename source l
      → lex_token l ≡ some (t, l')
      → Fits (begins_comment source l.offset) (some (t, l'))
      → (l.offset ≤ l'.offset) × (n < l'.offset)
      → Finishes l'.offset (push_token ts l t) m
      → Finishes n ts m
  round-Finishes n l l' ts none s a run (Fits.met_comment c) b f = record {
    more = f.more;
    runs = f.runs;
    tokenized =
        IsTokenized.next_comment s c
          (record { before = l; after = l'; is_at = a; starts = refl; ends = refl; reads = run }) b
          f.tokenized;
  }
  round-Finishes n l l' ts (some t) s a run (Fits.met_token c) b f = record {
    more = token_at l t ∷ f.more;
    runs = f.runs ∙ ap some (append_assoc ts (token_at l t ∷ []) f.more);
    tokenized =
        IsTokenized.next_token s c (token_at-IsLocated l t a)
          (record { before = l; after = l'; is_at = a; starts = refl; ends = refl; reads = run }) b
          f.tokenized;
  }

  tokenize_from-Finishes :
      (fuel : ℕ) (l : Lexer) (ts : List Token)
      → IsAt filename source l
      → length source < l.offset + fuel
      → ((tokenize_from fuel l ts ≡ none) × RunsOn l.offset)
        ⊎ Finishes l.offset ts (tokenize_from fuel l ts)
  unfolding tokenize_from
  tokenize_from-Finishes zero l ts a f = absurd (omega (arith, a.inside))
  tokenize_from-Finishes (suc fuel) l ts a f = elim (Bool-cases (lexer_peek l == 0)) [
    | inl e ↦
        let t = token_at l (TokenKind.eof, []) in
        rw e (
          inr (record {
            more = t ∷ [];
            runs = refl;
            tokenized =
                IsTokenized.at_end (peek_zero l a ((==_iff (lexer_peek l) 0).0 e)) refl
                  (token_at-IsLocated l (TokenKind.eof, []) a);
          }))
    | inr e ↦
        let (l', b) = blanks_from-PastBlanks l a (λ z. cc ((==_iff (lexer_peek l) 0).1 z, e)) in
        let s = blanks_from-IsStart filename source (fuel_of l) l l' a b.runs in
        elim (lex_token-Outcome filename source b.bound l' b.is_at b.next) [
          | inl (n, q) ↦ inl (rw (e, b.runs, n) refl, RunsOn.in_string s q)
          | inr ((t, l''), run, reached) ↦
              let fits = rw run at (lex_token-Fits filename source l' b.is_at) in
              let on : (l'.offset ≤ l''.offset) × (l.offset < l''.offset) =
                (omega (arith, b.behind, reached.past), omega (arith, b.moved, reached.past)) in
              rw (e, b.runs, run)
                (elim (tokenize_from-Finishes fuel l'' (push_token ts l' t) reached.is_at
                  (omega (arith, reached.past, b.moved))) [
                    | inl (n, q) ↦ inl (
                      n,
                      RunsOn.next_round s
                          (record {
                            before = l';
                            after = l'';
                            is_at = b.is_at;
                            starts = refl;
                            ends = refl;
                            reads = run;
                          })
                          on q,
                    )
                    | inr g ↦ inr (round-Finishes l.offset l' l'' ts t s b.is_at run fits on g)
                  ])
        ]
  ]

-- Tokenizing a source either gives tokens: from the start of the source on, each token stands at the line of the
-- first byte behind the token or the comment before it that is not blank, and is what lex_token reads there,
-- none left out, and the last one is the end of file, at the end of the source or at a 0 byte. Or it gives
-- none, since a round begins at a quote whose string is not closed, and no fuel is enough for the loop over
-- that string.
pub tokenize-IsTokenized :
    (filename source : Bytes)
    → ((lexer_tokenize filename source ≡ none) × RunsOn filename source 0)
      ⊎ ((tokens : List Token) × (lexer_tokenize filename source ≡ some tokens)
          × IsTokenized filename source 0 tokens)
unfolding lexer_tokenize
tokenize-IsTokenized filename source =
    elim (tokenize_from-Finishes filename source (suc (length source)) (start filename source) []
      (record { file = refl; reads = refl; inside = zero-le; counted = refl }) (omega arith)) [
        | inl h ↦ inl h
        | inr f ↦ inr (f.more, f.runs, f.tokenized)
      ]
