-- ===== src/Config/Ends.antt =====
-- The loops of source/ati/config.c end: the lexer moves on with every token that is neither the end nor
-- an error.
use atcc.Prelude.Ctype.{isalpha, isdigit, isspace}
use atcc.Prelude.{
  ℕ, ◌+◌, ◌≤◌, ◌<◌, ◌≡◌, refl, ap, ◌∙◌, arith, Bool, true, false, ◌||◌, Bool-cases, Option-cases,
  inl, inr, some, [], ◌∷◌, leb, ◌==◌, if◌then◌else◌, length, get_or, drop, drop-cons, length-drop,
}
use atcc.Ati.Strings.{Bytes}
use atcc.Config.{
  OptTokenKind, opt_ordinal, OptToken, OptLexer, rest_of, step, skip_from,
  opt_lexer_skip_whitespace, comment_from, skip_comment, opt_token, quoted_from, is_name, name_from,
  mark_kind, token_from, opt_lexer_next,
}

-- The second lexer reads the same bytes as the first, and stands at `n` or behind, and not outside.
pub record Ahead (text : Bytes) (n : ℕ) (l : OptLexer) : Type 0 where
  pub reads : l.text ≡ text
  pub past : n ≤ l.index
  pub inside : l.index ≤ length text

-- The token is the end, an error, or the lexer has moved on.
pub record Next (text : Bytes) (l : OptLexer) (r : OptToken × OptLexer) : Type 0 where
  pub ahead : Ahead text l.index r.1
  pub moved :
      (opt_ordinal r.0.kind == 1) ≡ false
      → (opt_ordinal r.0.kind == 2) ≡ false
      → l.index < r.1.index

or_widen : (a d r : Bool) → (a || r) ≡ true → ((a || d) || r) ≡ true
or_widen true d r h = refl
or_widen false true r h = refl
or_widen false false r h = h

either_index :
    {n : ℕ} (b : Bool) (x y : OptLexer)
    → x.index ≡ n
    → y.index ≡ n
    → OptLexer.index (if b then x else y) ≡ n
either_index true x y h k = h
either_index false x y h k = k

either_text :
    {t : Bytes} (b : Bool) (x y : OptLexer)
    → x.text ≡ t
    → y.text ≡ t
    → OptLexer.text (if b then x else y) ≡ t
either_text true x y h k = h
either_text false x y h k = k

module _ {text : Bytes} where
  pub rest_room :
      {n : ℕ} {l : OptLexer} → Ahead text n l → l.index + length (rest_of l) ≤ length text
  rest_room {n} {l} a = omega (arith, length-drop l.index l.text, ap length a.reads, a.inside)

  skip_from-Ahead :
      (cs : Bytes) {n : ℕ} (l : OptLexer)
      → Ahead text n l
      → l.index + length cs ≤ length text
      → Ahead text n (skip_from cs l)
  unfolding skip_from
  skip_from-Ahead [] l a h = a
  skip_from-Ahead (c ∷ cs) {n} l a h =
      let m =
        if c == b'\n'
        then record l { index = l.index + 1; line = l.line + 1; column = 1 }
        else step l in
      let at : m.index ≡ l.index + 1 = either_index (c == b'\n') _ _ refl refl in
      let same : m.text ≡ l.text = either_text (c == b'\n') _ _ refl refl in
      let b : Ahead text n m = record {
        reads = same ∙ a.reads;
        past = omega (arith, at, a.past);
        inside = omega (arith, at, h);
      } in
      let ih = skip_from-Ahead cs m b (omega (arith, at, h)) in
      elim (Bool-cases (isspace c)) [ inl e ↦ rw e ih | inr e ↦ rw e a ]

  pub blanks-Ahead :
      {n : ℕ} {l : OptLexer} → Ahead text n l → Ahead text n (opt_lexer_skip_whitespace l)
  unfolding opt_lexer_skip_whitespace
  blanks-Ahead {n} {l} a = skip_from-Ahead (rest_of l) l a (rest_room a)

  step-Ahead :
      {n : ℕ} {l : OptLexer}
      → Ahead text n l
      → l.index < length text
      → Ahead text (l.index + 1) (step l)
  step-Ahead a h = record { reads = a.reads; past = omega arith; inside = omega (arith, h) }

  weaken : {n m : ℕ} {l : OptLexer} → m ≤ n → Ahead text n l → Ahead text m l
  weaken h a = record { reads = a.reads; past = omega (arith, h, a.past); inside = a.inside }

  comment_from-Ahead :
      (cs : Bytes) {n : ℕ} (l : OptLexer)
      → Ahead text n l
      → l.index + length cs ≤ length text
      → Ahead text n (comment_from cs l)
  unfolding comment_from
  comment_from-Ahead [] l a h = a
  comment_from-Ahead (c ∷ cs) {n} l a h = elim (Bool-cases (c == b'\n')) [
    | inl e ↦ rw e (blanks-Ahead (record { reads = a.reads; past = a.past; inside = a.inside }))
    | inr e ↦
        let s = step-Ahead a (omega (arith, h)) in
        rw e (comment_from-Ahead cs (step l) (weaken (omega (arith, a.past)) s) (omega (arith, h)))
  ]

  skip_comment-Ahead : {n : ℕ} {l : OptLexer} → Ahead text n l → Ahead text n (skip_comment l)
  unfolding skip_comment
  skip_comment-Ahead {n} {l} a = elim (Bool-cases (get_or l.text l.index 0 == b'#')) [
    | inr e ↦ rw e a
    | inl e ↦ rw e (blanks-Ahead (comment_from-Ahead (rest_of l) l a (rest_room a)))
  ]

  name_from-Ahead :
      (cs : Bytes) {n : ℕ} (l : OptLexer)
      → Ahead text n l
      → l.index + length cs ≤ length text
      → Ahead text n (name_from cs l)
  unfolding name_from
  name_from-Ahead [] l a h = a
  name_from-Ahead (c ∷ cs) {n} l a h = elim (Bool-cases (is_name c)) [
    | inr e ↦ rw e a
    | inl e ↦
        let s = step-Ahead a (omega (arith, h)) in
        rw e (name_from-Ahead cs (step l) (weaken (omega (arith, a.past)) s) (omega (arith, h)))
  ]

  quoted_from-Ahead :
      (cs : Bytes) {n : ℕ} (l : OptLexer) {l' : OptLexer}
      → Ahead text n l
      → l.index + length cs ≤ length text
      → quoted_from cs l ≡ some l'
      → Ahead text n l'
  unfolding quoted_from
  quoted_from-Ahead [] l a h e = cc
  quoted_from-Ahead (c ∷ cs) {n} l {l'} a h e =
      let s = weaken (omega (arith, a.past)) (step-Ahead a (omega (arith, h))) in
      elim (Bool-cases (c == b'"')) [
        | inl t ↦ let same : step l ≡ l' = ground (arith, rw t at e) in rw (← same) s
        | inr t ↦ quoted_from-Ahead cs (step l) s (omega (arith, h)) (rw t at e)
      ]

  token_from-Next :
      (first l : OptLexer)
      → first.index ≤ l.index
      → Ahead text first.index l
      → l.index < length text
      → Next text first (token_from first l)
  unfolding token_from
  token_from-Next first l le a h =
      let c = get_or l.text l.index 0 in
      let s = step-Ahead a h in
      let short : l.index < length l.text = omega (arith, h, ap length a.reads) in
      let error : Next text first (opt_token first OptTokenKind.error [], l) = record {
        ahead = a;
        moved = λ x y. cc;
      } in
      elim (Bool-cases (c == b'"')) [
        | inl e ↦ elim (Option-cases (quoted_from (rest_of (step l)) (step l))) [
          | inl q ↦
              rw (e, q)
                (record {
                  ahead = record {
                    reads = a.reads;
                    past = omega (arith, a.past, a.inside, ap length a.reads);
                    inside = omega (arith, ap length a.reads);
                  };
                  moved = λ x y. cc;
                })
          | inr (l', q) ↦
              let b = quoted_from-Ahead (rest_of (step l)) (step l) s (rest_room s) q in
              rw (e, q)
                (record {
                  ahead = weaken (omega (arith, le)) b;
                  moved = λ x y. omega (arith, le, b.past);
                })
        ]
        | inr e ↦ elim (Bool-cases (isalpha c || (c == b'_' || c == b'-'))) [
          | inl f ↦
              let word : is_name c ≡ true = or_widen (isalpha c) (isdigit c) _ f in
              let b = name_from-Ahead (drop (l.index + 1) l.text) (step l) s (rest_room s) in
              let one : name_from (rest_of l) l ≡ name_from (drop (l.index + 1) l.text) (step l) =
                rw (drop-cons l.text l.index 0 short) (rw word refl) in
              rw (e, f, one)
                (record {
                  ahead = weaken (omega (arith, le)) b;
                  moved = λ x y. omega (arith, le, b.past);
                })
          | inr f ↦ elim (Option-cases (mark_kind c)) [
            | inl k ↦ rw (e, f, k) error
            | inr (kind, k) ↦
                rw (e, f, k)
                  (record {
                    ahead = weaken (omega (arith, le)) s;
                    moved = λ x y. omega (arith, le);
                  })
          ]
        ]
      ]

  pub opt_lexer_next-Next :
      (l : OptLexer) → l.text ≡ text → l.index ≤ length text → Next text l (opt_lexer_next l)
  unfolding opt_lexer_next
  opt_lexer_next-Next l e h =
      let a : Ahead text l.index l = record { reads = e; past = omega arith; inside = h } in
      let b = blanks-Ahead a in
      let d = skip_comment-Ahead b in
      let l₁ = opt_lexer_skip_whitespace l in
      let l₂ = skip_comment l₁ in
      elim (Bool-cases (leb (length l₁.text) l₁.index)) [
        | inl f ↦ rw f (record { ahead = b; moved = λ x y. cc })
        | inr f ↦ elim (Bool-cases (leb (length l₂.text) l₂.index)) [
          | inl g ↦ rw (f, g) (record { ahead = d; moved = λ x y. cc })
          | inr g ↦ rw (f, g) (token_from-Next l l₂ d.past d (ground (arith, g, ap length d.reads)))
        ]
      ]
