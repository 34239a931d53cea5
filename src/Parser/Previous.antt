-- ===== src/Parser/Previous.antt =====
-- `previous` and `current` of the parser in source/parser.c: the functions of the parser read the value of the
-- token that they consumed through `parser->previous`.
use mathlib.Core.List.{append_assoc}
use atcc.Prelude.{
  ◌≡◌, ◌⊎◌, inl, inr, refl, sym, ◌∙◌, Bool, true, false, Option, none, some, List, [], ◌∷◌, ◌++◌,
}
use atcc.Parser.Kept.{ParserPredicate}
use atcc.Parser.{
  Parser, Outcome, Parse, pure, then, crash, no_fuel, ◌>>=◌, current_token, parser_advance,
  parser_check, parser_consume, here, if_check,
}
use atcc.Tokens.{TokenKind, Token}

-- The parser stands at the first of these tokens and has no previous one, or it stands behind some of them
-- and the last of those is the previous one.
abbrev pub Tracks : List Token → Parser → Type 0
Tracks tokens p =
    ((p.previous ≡ none) × (tokens ≡ p.current))
    ⊎ ((front : List Token) × (t : Token) × (p.previous ≡ some t)
        × (tokens ≡ front ++ t ∷ p.current))

-- what an outcome leaves, where it is one
pub data Leaves {A : Type 0} (tokens : List Token) : Outcome A → Type 0 where
  ends : {a : A} {p : Parser} → Tracks tokens p → Leaves tokens (Outcome.done a p)
  crashes : Leaves tokens Outcome.crashed
  overruns : Leaves tokens Outcome.overrun
  runs_out : Leaves tokens Outcome.out_of_fuel

record Keeps {A : Type 0} (m : Parse A) : Type 0 where
  keeps : (tokens : List Token) (p : Parser) → Tracks tokens p → Leaves tokens (m p)

Leaves-then :
    {A B : Type 0} {tokens : List Token} {o : Outcome A} (f : A → Parse B)
    → Leaves tokens o
    → ((a : A) → Keeps (f a))
    → Leaves tokens (then o f)
unfolding then
Leaves-then f (ends t) h = (h _).keeps _ _ t
Leaves-then f crashes h = Leaves.crashes
Leaves-then f overruns h = Leaves.overruns
Leaves-then f runs_out h = Leaves.runs_out

Keeps-bind :
    {A B : Type 0} (m : Parse A) (f : A → Parse B)
    → Keeps m
    → ((a : A) → Keeps (f a))
    → Keeps (m >>= f)
unfolding ◌>>=◌
Keeps-bind m f hm hf = record { keeps = λ tokens p t. Leaves-then f (hm.keeps tokens p t) hf }

Keeps-pure : {A : Type 0} (a : A) → Keeps (pure a)
unfolding pure
Keeps-pure a = record { keeps = λ tokens p t. Leaves.ends t }

Keeps-crash : (A : Type 0) → Keeps (crash {A = A})
unfolding crash
Keeps-crash A = record { keeps = λ tokens p t. Leaves.crashes }

Keeps-no_fuel : (A : Type 0) → Keeps (no_fuel {A = A})
unfolding no_fuel
Keeps-no_fuel A = record { keeps = λ tokens p t. Leaves.runs_out }

current_token-Leaves :
    (tokens us : List Token) (r : Option Token)
    → Tracks tokens (record { current = us; previous = r })
    → Leaves tokens (current_token (record { current = us; previous = r }))
unfolding current_token
current_token-Leaves tokens [] r t = Leaves.overruns
current_token-Leaves tokens (u ∷ us) r t = Leaves.ends t

parser_advance-Leaves :
    (tokens us : List Token) (r : Option Token)
    → Tracks tokens (record { current = us; previous = r })
    → Leaves tokens (parser_advance (record { current = us; previous = r }))
unfolding parser_advance
parser_advance-Leaves tokens [] r t = Leaves.overruns
parser_advance-Leaves tokens (u ∷ us) r (inl t) = Leaves.ends (inr ([], u, refl, t.1))
parser_advance-Leaves tokens (u ∷ us) r (inr (front, v, e, s)) =
    Leaves.ends (inr (front ++ v ∷ [], u, refl, s ∙ sym (append_assoc front (v ∷ []) (u ∷ us))))

Keeps-current : Keeps current_token
Keeps-current = record { keeps = λ tokens p t. current_token-Leaves tokens p.current p.previous t }

Keeps-advance : Keeps parser_advance
Keeps-advance = record { keeps = λ tokens p t. parser_advance-Leaves tokens p.current p.previous t }

Keeps-cond :
    {A : Type 0} (b : Bool) {m n : Parse A}
    → Keeps m
    → Keeps n
    → Keeps (elim b [ true ↦ m | false ↦ n ])
Keeps-cond true hm hn = hm
Keeps-cond false hm hn = hn

Keeps-here : Keeps here
unfolding here
Keeps-here = Keeps-bind _ _ Keeps-current (λ t. Keeps-pure _)

Keeps-check : (kind : TokenKind) → Keeps (parser_check kind)
unfolding parser_check
Keeps-check kind = Keeps-bind _ _ Keeps-current (λ t. Keeps-pure _)

Keeps-consume : (kind : TokenKind) → Keeps (parser_consume kind)
unfolding parser_consume
Keeps-consume kind =
    Keeps-bind _ _ (Keeps-check kind)
      (λ b. Keeps-cond b (Keeps-bind _ _ Keeps-advance (λ t. Keeps-pure _)) (Keeps-pure _))

Keeps-if_check :
    {A : Type 0} (kind : TokenKind) {m n : Parse A} → Keeps m → Keeps n → Keeps (if_check kind m n)
unfolding if_check
Keeps-if_check kind hm hn = Keeps-bind _ _ (Keeps-check kind) (λ b. Keeps-cond b hm hn)

abbrev keeps_predicate : ParserPredicate
keeps_predicate = record {
  Kept = λ m. Keeps m;
  bind_law = λ m f. Keeps-bind m f;
  pure_law = λ a. Keeps-pure a;
  crash_law = λ A. Keeps-crash A;
  fuel_law = λ A. Keeps-no_fuel A;
  here_law = Keeps-here;
  current_law = Keeps-current;
  check_law = Keeps-check;
  consume_law = λ kind d. Keeps-consume kind;
  test_law = λ b k n d hk hn.
      Keeps-bind _ _ Keeps-current
        (λ t. Keeps-cond (b t.kind) (Keeps-bind _ _ Keeps-advance hk) hn);
  located_law = λ b k n d hk hn. Keeps-bind _ _ Keeps-current (λ t.
      Keeps-cond (b t.kind) (Keeps-bind _ _ Keeps-here (λ l. Keeps-bind _ _ Keeps-advance (hk l)))
        hn);
  identifier_law = λ k n hk hn. Keeps-if_check _ (Keeps-bind _ _ Keeps-advance hk) hn;
}
