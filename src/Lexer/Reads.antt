-- ===== src/Lexer/Reads.antt =====
-- Where the scanner routines of source/lexer.c leave the lexer: inside the source, at the line that the
-- bytes read so far give.
use mathlib.Core.Path.{subst}
use atcc.Prelude.{
  ℕ, zero, suc, ◌+◌, ◌≤◌, ◌<◌, ◌≡◌, ◌≢◌, refl, sym, arith, true, false, Bool-cases, inl, inr, [],
  ◌∷◌, ltb, leb, ◌==◌, if◌then◌else◌, length, get_or, take,
}
use atcc.Ati.Strings.{Bytes}
use atcc.Lexer.{Lexer, lexer_read, lexer_peek, skip}

-- the newlines among some bytes
abbrev pub newlines : Bytes → ℕ
newlines [] = 0
newlines (c ∷ cs) = (if c == b'\n' then 1 else 0) + newlines cs

pub newlines-take :
    (s : Bytes) (n : ℕ)
    → n < length s
    → newlines (take (n + 1) s) ≡ newlines (take n s) + (if get_or s n 0 == b'\n' then 1 else 0)
newlines-take [] n h = absurd (omega arith)
newlines-take (c ∷ s) zero h = omega arith
newlines-take (c ∷ s) (suc n) h =
    let e : suc n + 1 ≡ suc (n + 1) = omega arith in
    rw e (omega (arith, newlines-take s n (omega arith)))

-- The lexer reads `source`, and counts lines from 1.
pub record IsAt (filename source : Bytes) (l : Lexer) : Type 0 where
  pub file : l.filename ≡ filename
  pub reads : l.source ≡ source
  pub inside : l.offset ≤ length source
  pub counted : l.line ≡ 1 + newlines (take l.offset source)

-- … and has read at least `n` bytes.
pub record Reached (filename source : Bytes) (n : ℕ) (l : Lexer) : Type 0 where
  pub is_at : IsAt filename source l
  pub past : n ≤ l.offset

-- What a read inside the source leaves.
abbrev pub advanced : Lexer → Lexer
advanced l =
    let c = get_or l.source l.offset 0 in
    record l {
      offset = l.offset + 1;
      line = if c == b'\n' then l.line + 1 else l.line;
      column = if c == b'\n' then 1 else l.column + 1;
    }

pub read_inside :
    (l : Lexer)
    → l.offset < length l.source
    → lexer_read l ≡ (get_or l.source l.offset 0, advanced l)
unfolding lexer_read
read_inside l h =
    let test : leb (length l.source) l.offset ≡ false = ground (arith, h) in rw test refl

pub read_end : (l : Lexer) → length l.source ≤ l.offset → lexer_read l ≡ (0, l)
unfolding lexer_read
read_end l h = let test : leb (length l.source) l.offset ≡ true = ground (arith, h) in rw test refl

module _ {filename source : Bytes} where
  pub peek_inside :
      {l : Lexer} → IsAt filename source l → lexer_peek l ≢ 0 → l.offset < length source
  unfolding lexer_peek
  peek_inside {l} a h = elim (Bool-cases (leb (length l.source) l.offset)) [
    | inl e ↦ absurd (h (rw e refl))
    | inr e ↦ ground (arith, a.reads, e)
  ]

  pub peek_byte :
      {l : Lexer}
      → IsAt filename source l
      → l.offset < length source
      → lexer_peek l ≡ get_or source l.offset 0
  unfolding lexer_peek
  peek_byte {l} a h =
      let test : leb (length l.source) l.offset ≡ false = ground (arith, a.reads, h) in
      rw test (rw a.reads refl)

  -- A read inside the source moves on by one byte.
  pub skip-IsAt :
      {l : Lexer}
      → IsAt filename source l
      → l.offset < length source
      → IsAt filename source (skip l) × ((skip l).offset ≡ l.offset + 1)
  skip-IsAt {l} a h =
      let count = newlines-take source l.offset h in
      let e = read_inside l (rw a.reads h) in
      subst (λ (r : ℕ × Lexer). IsAt filename source r.1 × (r.1.offset ≡ l.offset + 1)) (sym e)
        (
          record {
            file = a.file;
            reads = a.reads;
            inside = omega arith;
            counted = rw a.reads (ground (arith, a.counted, count));
          },
          refl,
        )

  -- A read anywhere stays inside the source, and does not go back.
  pub skip-Reached :
      {l : Lexer} {n : ℕ} → Reached filename source n l → Reached filename source n (skip l)
  skip-Reached {l} {n} r = elim (Bool-cases (ltb l.offset (length source))) [
    | inl e ↦
        let (a, o) = skip-IsAt r.is_at (ground (arith, e)) in
        record { is_at = a; past = omega (arith, o, r.past) }
    | inr e ↦
        let same = read_end l (rw r.is_at.reads (ground (arith, e))) in
        subst (λ (p : ℕ × Lexer). Reached filename source n p.1) (sym same) r
  ]
