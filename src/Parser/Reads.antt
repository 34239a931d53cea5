-- ===== src/Parser/Reads.antt =====
-- How the parser of source/parser.c moves: a relation on the tokens that are left, in which the `eof`
-- token is never passed, and what each combinator of the parser keeps of it.
use mathlib.Core.Bool.{false≢true}
use atcc.Prelude.{
  Bool, true, false, Bool-cases, inl, inr, ◌≡◌, refl, sym, ◌∙◌, ap, Option, some, List, [], ◌∷◌,
}
use atcc.Parser.{
  Parser, Outcome, Parse, pure, then, no_fuel, ◌>>=◌, crash, current_token, parser_advance,
}
use atcc.Tokens.Ordinals.{same_kind}
use atcc.Tokens.{TokenKind, Token}

-- tokens that are passed one by one
pub data Reads : List Token → List Token → Type 0 where
  stay : {ts : List Token} → Reads ts ts
  read :
      {t : Token} {ts us : List Token}
      → same_kind t.kind TokenKind.eof ≡ false
      → Reads ts us
      → Reads (t ∷ ts) us

-- an `eof` token is among the tokens
pub data IsEnded : List Token → Type 0 where
  at_eof : {t : Token} {ts : List Token} → same_kind t.kind TokenKind.eof ≡ true → IsEnded (t ∷ ts)
  before_eof : {t : Token} {ts : List Token} → IsEnded ts → IsEnded (t ∷ ts)

pub Reads-trans : {ts us vs : List Token} → Reads ts us → Reads us vs → Reads ts vs
Reads-trans stay h = h
Reads-trans (read e g) h = read e (Reads-trans g h)

pub IsEnded-read :
    {t : Token} {ts : List Token}
    → same_kind t.kind TokenKind.eof ≡ false
    → IsEnded (t ∷ ts)
    → IsEnded ts
IsEnded-read e (at_eof h) = absurd (false≢true (sym e ∙ h))
IsEnded-read e (before_eof h) = h

pub Reads-IsEnded : {ts us : List Token} → Reads ts us → IsEnded ts → IsEnded us
Reads-IsEnded stay h = h
Reads-IsEnded (read e g) h = Reads-IsEnded g (IsEnded-read e h)

eof_kind : (k : TokenKind) → same_kind k TokenKind.eof ≡ true → k ≡ TokenKind.eof
eof_kind TokenKind.eof h = refl
eof_kind k h = absurd (false≢true h)

-- a test that fails on `eof`
pub not_eof :
    (b : TokenKind → Bool) (k : TokenKind)
    → b TokenKind.eof ≡ false
    → b k ≡ true
    → same_kind k TokenKind.eof ≡ false
not_eof b k e h = elim (Bool-cases (same_kind k TokenKind.eof)) [
  | inl same ↦ absurd (false≢true (sym e ∙ sym (ap b (eof_kind k same)) ∙ h))
  | inr other ↦ other
]

-- the outcome is no overrun, and what it leaves satisfies the predicate
pub data Ensures {A : Type 0} (q : A → Parser → Type 0) : Outcome A → Type 0 where
  ends : {a : A} {p : Parser} → q a p → Ensures q (Outcome.done a p)
  crashes : Ensures q Outcome.crashed
  runs_out : Ensures q Outcome.out_of_fuel

-- from these tokens on
pub record IsSafeAt {A : Type 0} (ts : List Token) (m : Parse A) : Type 0 where
  pub safe_at :
      (r : Option Token)
      → Ensures (λ a q. Reads ts q.current) (m (record { current = ts; previous = r }))

-- a parser that reads no token behind the `eof`
pub record IsSafe {A : Type 0} (m : Parse A) : Type 0 where
  pub safe : (ts : List Token) → IsEnded ts → IsSafeAt ts m

pub Ensures-map :
    {A : Type 0} {q s : A → Parser → Type 0} {o : Outcome A}
    → ((a : A) (p : Parser) → q a p → s a p)
    → Ensures q o
    → Ensures s o
Ensures-map g (ends h) = Ensures.ends (g _ _ h)
Ensures-map g crashes = Ensures.crashes
Ensures-map g runs_out = Ensures.runs_out

pub Ensures-then :
    {A B : Type 0} {q : A → Parser → Type 0} {s : B → Parser → Type 0} {o : Outcome A}
    (f : A → Parse B)
    → Ensures q o
    → ((a : A) (p : Parser) → q a p → Ensures s (f a p))
    → Ensures s (then o f)
unfolding then
Ensures-then f (ends h) g = g _ _ h
Ensures-then f crashes g = Ensures.crashes
Ensures-then f runs_out g = Ensures.runs_out

pub Ensures-both :
    {A : Type 0} {q s : A → Parser → Type 0} {o : Outcome A}
    → Ensures q o
    → Ensures s o
    → Ensures (λ a p. q a p × s a p) o
Ensures-both (Ensures.ends h) (Ensures.ends g) = Ensures.ends (h, g)
Ensures-both crashes g = Ensures.crashes
Ensures-both runs_out g = Ensures.runs_out

pub IsSafeAt-of :
    {A : Type 0} (m : Parse A) {ts : List Token} → IsEnded ts → IsSafe m → IsSafeAt ts m
IsSafeAt-of m {ts} e h = h.safe ts e

pub IsSafeAt-bind :
    {A B : Type 0} (m : Parse A) (f : A → Parse B) {ts : List Token}
    → IsEnded ts
    → IsSafeAt ts m
    → ((a : A) → IsSafe (f a))
    → IsSafeAt ts (m >>= f)
unfolding ◌>>=◌
IsSafeAt-bind m f e hm hf = record {
  safe_at = λ r. Ensures-then f (hm.safe_at r) (λ a q h.
      Ensures-map (λ b s. Reads-trans h)
        (((hf a).safe q.current (Reads-IsEnded h e)).safe_at q.previous));
}

pub IsSafe-bind :
    {A B : Type 0} (m : Parse A) (f : A → Parse B)
    → IsSafe m
    → ((a : A) → IsSafe (f a))
    → IsSafe (m >>= f)
IsSafe-bind m f hm hf = record { safe = λ ts e. IsSafeAt-bind m f e (hm.safe ts e) hf }

pub IsSafe-pure : {A : Type 0} (a : A) → IsSafe (pure a)
unfolding pure
IsSafe-pure a = record { safe = λ ts e. record { safe_at = λ r. Ensures.ends Reads.stay } }

pub IsSafe-crash : (A : Type 0) → IsSafe (crash {A = A})
unfolding crash
IsSafe-crash A = record { safe = λ ts e. record { safe_at = λ r. Ensures.crashes } }

pub IsSafe-fuel : (A : Type 0) → IsSafe (no_fuel {A = A})
unfolding no_fuel
IsSafe-fuel A = record { safe = λ ts e. record { safe_at = λ r. Ensures.runs_out } }

IsSafeAt-current :
    {A : Type 0} (f : Token → Parse A) (ts : List Token)
    → IsEnded ts
    → ((t : Token) (ts : List Token) → IsEnded (t ∷ ts) → IsSafeAt (t ∷ ts) (f t))
    → IsSafeAt ts (current_token >>= f)
unfolding current_token ◌>>=◌ then
IsSafeAt-current f [] e h = elim e [ ]
IsSafeAt-current f (t ∷ ts) e h = record { safe_at = (h t ts e).safe_at }

pub IsSafe-current :
    {A : Type 0} (f : Token → Parse A)
    → ((t : Token) (ts : List Token) → IsEnded (t ∷ ts) → IsSafeAt (t ∷ ts) (f t))
    → IsSafe (current_token >>= f)
IsSafe-current f h = record { safe = λ ts e. IsSafeAt-current f ts e h }

pub IsSafeAt-advance :
    {A : Type 0} (f : Token → Parse A) {t : Token} {ts : List Token}
    → same_kind t.kind TokenKind.eof ≡ false
    → IsEnded (t ∷ ts)
    → ((t : Token) → IsSafe (f t))
    → IsSafeAt (t ∷ ts) (parser_advance >>= f)
unfolding parser_advance ◌>>=◌ then
IsSafeAt-advance f {t} {ts} d e h = record {
  safe_at =
      λ r. Ensures-map (λ a q. Reads.read d) (((h t).safe ts (IsEnded-read d e)).safe_at (some t));
}
