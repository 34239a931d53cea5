-- ===== src/Config/Terminates.antt =====
-- `options_parse` of source/ati/config.c ends on every file.
use Prim.Native.Nat.{zero-le}
use native.Mathlib.Nat.{le_refl}
use atcc.Prelude.{
  ℕ, zero, suc, ◌+◌, ◌≤◌, ◌<◌, ◌≡◌, ◌⊎◌, refl, arith, Bool, true, false, Bool-cases, inl, inr,
  Option, some, List, [], ◌∷◌, ◌++◌, if◌then◌else◌, length,
}
use atcc.Ati.Strings.{Bytes}
use atcc.Config.Ends.{Ahead, opt_lexer_next-Next}
use atcc.Config.Parse.{
  Opt, Parsed, is_kind, add_entry, list_entry, closed, list_from, options_from, options_parse,
  after_list,
}
use atcc.Config.{OptTokenKind, opt_ordinal, OptToken, OptLexer, opt_lexer_init, opt_lexer_next}

-- the lexer that a step leaves, if it does not reject
abbrev pub Leaves : {A : Type 0} → Bytes → ℕ → Parsed (A × OptLexer) → Type 0
Leaves text n Parsed.rejected = Unit {0}
Leaves text n (Parsed.parsed (a, l)) = Ahead text n l

Parsed-cases :
    {A B : Type 0} (x : Parsed (A × B))
    → (x ≡ Parsed.rejected) ⊎ ((a : A) × (b : B) × (x ≡ Parsed.parsed (a, b)))
Parsed-cases Parsed.rejected = inl refl
Parsed-cases (Parsed.parsed (a, b)) = inr (a, b, refl)

abbrev Answer : {A : Type 0} → Option A → Type 0
Answer {A} m = (r : A) × (m ≡ some r)

if_Answer :
    {A : Type 0} (b : Bool) {x y : Option A} → Answer x → Answer y → Answer (if b then x else y)
if_Answer true p q = p
if_Answer false p q = q

module _ (text : Bytes) where
  behind : {n : ℕ} {l : OptLexer} → Ahead text n l → Ahead text n (opt_lexer_next l).1
  behind {n} {l} a =
      let b = opt_lexer_next-Next l a.reads a.inside in
      record {
        reads = b.ahead.reads;
        past = omega (arith, a.past, b.ahead.past);
        inside = b.ahead.inside;
      }

  either_Leaves :
      {A : Type 0} (n : ℕ) (b : Bool) (x y : Parsed (A × OptLexer))
      → Leaves text n x
      → Leaves text n y
      → Leaves text n (if b then x else y)
  either_Leaves n true x y h k = h
  either_Leaves n false x y h k = k

  list_entry-Leaves :
      {n : ℕ} (t : OptToken) (l : OptLexer) → Ahead text n l → Leaves text n (list_entry t l)
  unfolding list_entry
  list_entry-Leaves {n} t l a =
      either_Leaves n (is_kind t OptTokenKind.at) _ _
        (either_Leaves n (is_kind (opt_lexer_next l).0 OptTokenKind.identifier) _ _
          (either_Leaves n (is_kind (opt_lexer_next (opt_lexer_next l).1).0 OptTokenKind.string) _ _
            (behind (behind a)) tt)
          tt)
        (either_Leaves n (is_kind t OptTokenKind.string) _ _ a tt)

  abbrev pub Stops : {A : Type 0} → ℕ → Option (Parsed (A × OptLexer)) → Type 0
  Stops {A} n m = (r : Parsed (A × OptLexer)) × (m ≡ some r) × Leaves text n r

  closed-Stops :
      {n : ℕ} (t : OptToken) (l : OptLexer) (options : List Opt)
      → Ahead text n l
      → Stops n (closed t l options)
  closed-Stops t l options a = elim (Bool-cases (is_kind t OptTokenKind.close_bracket)) [
    | inl e ↦ (Parsed.parsed (options, l), rw e refl, a)
    | inr e ↦ (Parsed.rejected, rw e refl, tt)
  ]

  weaken_Stops :
      {n m : ℕ} (x : Option (Parsed (List Opt × OptLexer))) → m ≤ n → Stops n x → Stops m x
  weaken_Stops x h (Parsed.rejected, e, a) = (Parsed.rejected, e, tt)
  weaken_Stops x h (Parsed.parsed (os, l), e, a) = (
    Parsed.parsed (os, l),
    e,
    record { reads = a.reads; past = omega (arith, h, a.past); inside = a.inside },
  )

  list_from-Stops :
      (fuel : ℕ) (t : OptToken) (l : OptLexer) (options : List Opt)
      → Ahead text l.index l
      → length text < l.index + fuel
      → Stops l.index (list_from fuel t l options)
  unfolding list_from
  list_from-Stops zero t l options a h = absurd (omega (arith, a.inside, h))
  list_from-Stops (suc fuel) t l options a h =
      elim (Bool-cases (is_kind t OptTokenKind.close_bracket)) [
        | inl e ↦ rw e (Parsed.parsed (options, l), refl, a)
        | inr e ↦ elim (Parsed-cases (list_entry t l)) [
          | inl f ↦ rw (e, f) (Parsed.rejected, refl, tt)
          | inr (x, l', f) ↦
              let b : Ahead text l.index l' = rw f at (list_entry-Leaves t l a) in
              let s = opt_lexer_next-Next l' b.reads b.inside in
              let c = behind b in
              let next = opt_lexer_next (opt_lexer_next l').1 in
              elim (Bool-cases (is_kind (opt_lexer_next l').0 OptTokenKind.comma)) [
                | inr g ↦
                    rw (e, f, g)
                      (closed-Stops (opt_lexer_next l').0 (opt_lexer_next l').1
                        (add_entry options x) c)
                | inl g ↦
                    let s' = opt_lexer_next-Next (opt_lexer_next l').1 c.reads c.inside in
                    let d = behind c in
                    let k = opt_ordinal (opt_lexer_next l').0.kind in
                    let moved = s.moved (ground (arith, g)) (ground (arith, g)) in
                    let m : l.index < next.1.index = omega (arith, b.past, moved, s'.ahead.past) in
                    let here : Ahead text next.1.index next.1 = record {
                      reads = d.reads;
                      past = le_refl next.1.index;
                      inside = d.inside;
                    } in
                    rw (e, f, g)
                      (weaken_Stops _ (omega (arith, m)) (
                        list_from-Stops fuel next.0 next.1 (add_entry options x) here
                          (omega (arith, h, m))))
              ]
        ]
      ]

  here : {n : ℕ} (l : OptLexer) → Ahead text n l → Ahead text l.index l
  here l b = record { reads = b.reads; past = le_refl l.index; inside = b.inside }

  after_list-Answer :
      {n : ℕ} (m : Option (Parsed (List Opt × OptLexer)))
      (f : OptLexer → List Opt → Option (Parsed (List Opt)))
      → Stops n m
      → ((l : OptLexer) (os : List Opt) → Ahead text n l → Answer (f l os))
      → Answer (after_list m f)
  after_list-Answer m f (Parsed.rejected, e, a) k = (Parsed.rejected, rw e refl)
  after_list-Answer m f (Parsed.parsed (os, l), e, a) k = rw e (k l os a)

  options_from-ends :
      (fuel : ℕ) (l : OptLexer) (current : Bool) (options : List Opt)
      → Ahead text l.index l
      → length text < l.index + fuel
      → (r : Parsed (List Opt)) × (options_from fuel l current options ≡ some r)
  unfolding options_from
  options_from-ends zero l current options a h = absurd (omega (arith, a.inside, h))
  options_from-ends (suc fuel) l current options a h =
      let t = opt_lexer_next l in
      let s = opt_lexer_next-Next l a.reads a.inside in
      let u = opt_lexer_next t.1 in
      let s' = opt_lexer_next-Next t.1 s.ahead.reads s.ahead.inside in
      elim (Bool-cases (is_kind t.0 OptTokenKind.eof)) [
        | inl e ↦ (Parsed.parsed options, rw e refl)
        | inr e ↦ elim (Bool-cases (is_kind t.0 OptTokenKind.error)) [
          | inl f ↦ (Parsed.rejected, rw (e, f) refl)
          | inr f ↦
              let moved = s.moved e f in
              let one : (current : Bool) (os : List Opt)
                  → Answer (options_from fuel t.1 current os) =
                λ current os.
                  options_from-ends fuel t.1 current os (here t.1 s.ahead)
                    (omega (arith, h, moved)) in
              let keyed =
                options_from-ends fuel u.1 true
                  (options ++ record { key = t.0.value; entries = [] } ∷ []) (here u.1 s'.ahead)
                  (omega (arith, h, moved, s'.ahead.past)) in
              let list =
                list_from-Stops fuel u.0 u.1 options (here u.1 s'.ahead)
                  (omega (arith, h, moved, s'.ahead.past)) in
              let many =
                after_list-Answer _ (λ l' os. options_from fuel l' false os) list
                  (λ l' os b.
                    options_from-ends fuel l' false os (here l' b)
                      (omega (arith, h, moved, s'.ahead.past, b.past))) in
              rw (e, f)
                (if_Answer current
                  (if_Answer (is_kind t.0 OptTokenKind.string) (one false _)
                    (if_Answer (is_kind t.0 OptTokenKind.open_bracket) many (one true _)))
                  (if_Answer (is_kind t.0 OptTokenKind.identifier)
                    (if_Answer (is_kind u.0 OptTokenKind.equals) keyed (Parsed.rejected, refl))
                    (Parsed.rejected, refl)))
        ]
      ]

-- `options_parse` ends on every file: it returns the options, or null.
pub options_parse-ends :
    (filename text : Bytes) → (r : Parsed (List Opt)) × (options_parse filename text ≡ some r)
unfolding options_parse opt_lexer_init
options_parse-ends filename text =
    options_from-ends text (suc (length text)) (opt_lexer_init filename text) false []
      (record { reads = refl; past = zero-le; inside = zero-le }) (omega arith)
