-- ===== src/Parser/Safe/Program.antt =====
-- The parser of a program reads no token behind the `eof`, where no `alias` stands before it.
use atcc.Prelude.{
  ℕ, zero, suc, ◌≡◌, inl, inr, true, false, Bool-cases, Option, none, some, List, [], ◌∷◌, sym, ◌∙◌,
}
use mathlib.Core.Bool.{false≢true}
use atcc.Ast.{AstNode, AstNodes}
use atcc.Parser.Declarations.{parse_declaration_alias}
use atcc.Parser.Program.{parse_declaration, add_declaration, parse_declarations, parse_program}
use atcc.Parser.Reads.{
  IsSafe, Reads, read, IsEnded, IsEnded-read, Ensures, Ensures-both, Ensures-map, Ensures-then,
  Reads-IsEnded, Reads-trans,
}
use atcc.Parser.Kept.Declarations.{
  parse_alias_type-Kept, parse_declaration_aggregate-Kept, parse_declaration_variable-Kept,
  parse_declaration_function-Kept, parse_declaration_enum-Kept,
}
use atcc.Parser.Kept.Program.{parse_declaration-Kept}
use atcc.Parser.Safe.{safe_predicate}
use atcc.Parser.{
  Parser, Parse, pure, then, no_fuel, ◌>>=◌, current_token, parser_advance, parser_check,
  parser_consume, here, if_consume, declared,
}
use atcc.Tokens.Ordinals.{same_kind}
use atcc.Tokens.{TokenKind, Token}

-- the first token is not `eof`
pub data HasToken : List Token → Type 0 where
  has_token :
      {t : Token} {ts : List Token} → same_kind t.kind TokenKind.eof ≡ false → HasToken (t ∷ ts)

-- a token that is not `eof` stands behind each `alias`
pub data IsNamed : List Token → Type 0 where
  no_more : IsNamed []
  no_alias :
      {t : Token} {ts : List Token}
      → same_kind t.kind TokenKind.kw_alias ≡ false
      → IsNamed ts
      → IsNamed (t ∷ ts)
  alias_named : {t : Token} {ts : List Token} → HasToken ts → IsNamed ts → IsNamed (t ∷ ts)

IsNamed-tail : {t : Token} {ts : List Token} → IsNamed (t ∷ ts) → IsNamed ts
IsNamed-tail (no_alias d h) = h
IsNamed-tail (alias_named d h) = h

Reads-IsNamed : {ts us : List Token} → Reads ts us → IsNamed ts → IsNamed us
Reads-IsNamed Reads.stay h = h
Reads-IsNamed (read d g) h = Reads-IsNamed g (IsNamed-tail h)

named_alias :
    {t : Token} {ts : List Token}
    → same_kind t.kind TokenKind.kw_alias ≡ true
    → IsNamed (t ∷ ts)
    → HasToken ts
named_alias e (no_alias d h) = absurd (false≢true (sym d ∙ e))
named_alias e (alias_named d h) = d

-- a branch on a token that is consumed
Ensures-if_consume :
    {A : Type 0} {q : A → Parser → Type 0} (kind : TokenKind) (m n : Parse A) (t : Token)
    (ts : List Token) (r : Option Token)
    → (same_kind t.kind kind ≡ true → Ensures q (m (record { current = ts; previous = some t })))
    → (same_kind t.kind kind ≡ false → Ensures q (n (record { current = t ∷ ts; previous = r })))
    → Ensures q (if_consume kind m n (record { current = t ∷ ts; previous = r }))
unfolding if_consume parser_consume parser_check parser_advance current_token ◌>>=◌ then pure
Ensures-if_consume kind m n t ts r hm hn = elim (Bool-cases (same_kind t.kind kind)) [
  | inl e ↦ rw e (hm e)
  | inr e ↦ rw e (hn e)
]

-- a null declaration leaves a token that is not `eof`
abbrev Skips : Option AstNode → Parser → Type 0
Skips none q = HasToken q.current
Skips (some node) q = Unit

declared-Skips :
    (m : Parse AstNode)
    → IsSafe m
    → (ts : List Token) → IsEnded ts
    → (r : Option Token) → Ensures Skips (declared m (record { current = ts; previous = r }))
unfolding declared pure ◌>>=◌
declared-Skips m h ts e r = Ensures-then _ ((h.safe ts e).safe_at r) (λ a q g. Ensures.ends tt)

-- what stands behind an identifier is a declaration that is not null
alias-Skips :
    (f : ℕ) (ts : List Token)
    → HasToken ts
    → IsEnded ts
    → (r : Option Token)
    → Ensures Skips (parse_declaration_alias f (record { current = ts; previous = r }))
unfolding parse_declaration_alias parser_consume parser_check parser_advance current_token ◌>>=◌
    then pure
alias-Skips f [] h e r = elim h [ ]
alias-Skips f (t ∷ ts) (has_token d) e r =
    elim (Bool-cases (same_kind t.kind TokenKind.identifier)) [
      | inl i ↦ rw i (
          declared-Skips _ (parse_alias_type-Kept safe_predicate f t.value) ts (IsEnded-read d e)
            (some t))
      | inr i ↦ rw i (Ensures.ends (HasToken.has_token d))
    ]

-- the declarations that are never null, by the keyword before them
Skips-if_consume :
    (kind : TokenKind) (m : Parse AstNode) (n : Parse (Option AstNode)) (t : Token)
    (ts : List Token) (r : Option Token)
    → same_kind t.kind TokenKind.eof ≡ false
    → IsEnded (t ∷ ts)
    → IsSafe m
    → Ensures Skips (n (record { current = t ∷ ts; previous = r }))
    → Ensures Skips (if_consume kind (declared m) n (record { current = t ∷ ts; previous = r }))
Skips-if_consume kind m n t ts r d e h g =
    Ensures-if_consume kind _ _ t ts r (λ c. declared-Skips m h ts (IsEnded-read d e) (some t))
      (λ c. g)

parse_declaration-Skips :
    (f : ℕ) (t : Token) (ts : List Token) (r : Option Token)
    → same_kind t.kind TokenKind.eof ≡ false
    → IsEnded (t ∷ ts)
    → IsNamed (t ∷ ts)
    → Ensures Skips (parse_declaration f (record { current = t ∷ ts; previous = r }))
unfolding parse_declaration pure
parse_declaration-Skips f t ts r d e g =
    Ensures-if_consume _ _ _ t ts r
      (λ c. alias-Skips f ts (named_alias c g) (IsEnded-read d e) (some t))
      (λ c.
        Skips-if_consume _ _ _ t ts r d e (parse_declaration_aggregate-Kept safe_predicate f _) (
          Skips-if_consume _ _ _ t ts r d e (parse_declaration_aggregate-Kept safe_predicate f _) (
            Skips-if_consume _ _ _ t ts r d e (parse_declaration_variable-Kept safe_predicate f _) (
              Skips-if_consume _ _ _ t ts r d e (parse_declaration_variable-Kept safe_predicate f _)
                (Skips-if_consume _ _ _ t ts r d e
                  (parse_declaration_function-Kept safe_predicate f)
                  (Skips-if_consume _ _ _ t ts r d e (parse_declaration_enum-Kept safe_predicate f)
                    (Ensures.ends (HasToken.has_token d))))))))

-- the first token is `eof`
pub data IsAtEof : List Token → Type 0 where
  is_at_eof :
      {t : Token} {ts : List Token} → same_kind t.kind TokenKind.eof ≡ true → IsAtEof (t ∷ ts)

-- the tokens before an `eof` are passed, and no more
abbrev pub PassedTo : {A : Type 0} → List Token → A → Parser → Type 0
PassedTo ts a q = Reads ts q.current × IsAtEof q.current

-- from any tokens with an `eof`, where a name stands behind each `alias`
abbrev Passes : {A : Type 0} → Parse A → Type 0
Passes m =
    (ts : List Token) (r : Option Token)
    → IsEnded ts
    → IsNamed ts
    → Ensures (PassedTo ts) (m (record { current = ts; previous = r }))

Passes-advance :
    (rest : Parse AstNodes)
    → Passes rest
    → (ts : List Token) (r : Option Token) → HasToken ts
    → IsEnded ts
    → IsNamed ts
    → Ensures (PassedTo ts) ((parser_advance >>= λ t. rest) (record { current = ts; previous = r }))
unfolding parser_advance ◌>>=◌ then
Passes-advance rest h [] r k e g = elim k [ ]
Passes-advance rest h (t ∷ ts) r (has_token d) e g =
    Ensures-map (λ a q k. (Reads.read d k.0, k.1))
      (h ts (some t) (IsEnded-read d e) (IsNamed-tail g))

Passes-add_declaration :
    (rest : Parse AstNodes)
    → Passes rest
    → (o : Option AstNode) (q : Parser) → IsEnded q.current
    → IsNamed q.current
    → Skips o q
    → Ensures (PassedTo q.current) (add_declaration rest o q)
unfolding add_declaration ◌>>=◌ pure
Passes-add_declaration rest h none q e g k = Passes-advance rest h q.current q.previous k e g
Passes-add_declaration rest h (some node) q e g k =
    Ensures-then _ (h q.current q.previous e g) (λ ns p k. Ensures.ends k)

parse_declarations-Passes : (f : ℕ) → Passes (parse_declarations f)
unfolding parse_declarations current_token ◌>>=◌ then pure no_fuel
parse_declarations-Passes zero ts r e g = Ensures.runs_out
parse_declarations-Passes (suc f) [] r e g = elim e [ ]
parse_declarations-Passes (suc f) (t ∷ ts) r e g =
    elim (Bool-cases (same_kind t.kind TokenKind.eof)) [
      | inl d ↦
          rw (parse_declarations, ◌>>=◌, then, current_token, d)
            (Ensures.ends (Reads.stay, IsAtEof.is_at_eof d))
      | inr d ↦
          rw (parse_declarations, ◌>>=◌, then, current_token, d)
            (Ensures-then _
              (Ensures-both (((parse_declaration-Kept safe_predicate f).safe (t ∷ ts) e).safe_at r)
                (parse_declaration-Skips f t ts r d e g))
              (λ o q k.
                Ensures-map (λ ns p m. (Reads-trans k.0 m.0, m.1))
                  (Passes-add_declaration _ (parse_declarations-Passes f) o q (Reads-IsEnded k.0 e)
                    (Reads-IsNamed k.0 g) k.1)))
    ]

-- On tokens with an `eof`, in which a token that is not `eof` stands behind each `alias`, the parser never
-- reads behind the `eof`. Where it ends, it has passed the tokens before an `eof`, and no more.
pub parse_program-Ensures :
    (f : ℕ) (tokens : List Token)
    → IsEnded tokens
    → IsNamed tokens
    → Ensures (PassedTo tokens) (parse_program f tokens)
unfolding parse_program ◌>>=◌ then pure here current_token
parse_program-Ensures f [] e g = elim e [ ]
parse_program-Ensures f (t ∷ ts) e g =
    Ensures-then _ (parse_declarations-Passes f (t ∷ ts) none e g) (λ ns p k. Ensures.ends k)
