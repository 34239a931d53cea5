-- ===== src/Ati/Table/Resize.antt =====
-- `string_table_resize` and `pointer_table_resize` of source/ati/table.c: every entry moves.
use mathlib.Core.Option.{or_else}
use atcc.Prelude.{
  ℕ, zero, suc, ◌+◌, ◌%◌, ◌<◌, ◌≡◌, ◌⊎◌, refl, ap, ◌∙◌, arith, true, false, Bool-cases, inl, inr,
  Option, none, some, List, [], ◌∷◌, if◌then◌else◌, replicate, length-replicate, get_or-replicate,
  u32_mod,
}
use atcc.Ati.Table.{Key, Entry, Table, blank_entry, entry_at, rehash_entry, rehash, resize}
use atcc.Ati.Table.Probe.{IsSized}
use atcc.Ati.Table.Placed.{
  IsPlaced, equal-eq, is_null-ne, find_entry-Finds, view-Finds, set-IsPlaced, view-set, IsNodup,
  IsPlaced-IsNodup,
}
use atcc.Ati.Table.Write.{occupied, view}

or_else-none : (o : Option ℕ) → or_else o none ≡ o
unfolding or_else
or_else-none none = refl
or_else-none (some v) = refl

module _ {K : Type 0} ⦃k : Key K⦄ where
  occupied-replicate :
      (n : ℕ) (es : List (Entry K)) → es ≡ replicate n blank_entry → occupied es ≡ 0
  occupied-replicate n es e = rw e (go n)
    where
      go : (n : ℕ) → occupied (replicate n (blank_entry {K = K})) ≡ 0
      go zero = refl
      go (suc n) = rw k.is_null-blank (omega (arith, go n))

  pub replicate-IsPlaced : (c : ℕ) → IsPlaced {K = K} c 0 (replicate c blank_entry)
  replicate-IsPlaced c = record {
    width = length-replicate c blank_entry;
    counted = occupied-replicate c _ refl;
    clean = λ i. rw get_or-replicate (λ _. refl);
    found = λ i _. rw get_or-replicate (λ t. cc (t, k.is_null-blank));
  }

  pub view-replicate :
      (n : ℕ) (q : K) → k.is_null q ≡ false → view (replicate n blank_entry) q ≡ none
  view-replicate zero q h = refl
  view-replicate (suc n) q h = rw (is_null-ne k.blank q k.is_null-blank h) (view-replicate n q h)

  -- The new slots hold what they held before, and the entries moved.
  pub record Moved (c : ℕ) (xs fresh : List (Entry K)) (n : ℕ) (result : List (Entry K))
      : Type 0 where
    pub placed : IsPlaced c n result
    pub views : (q : K) → k.is_null q ≡ false → view result q ≡ or_else (view xs q) (view fresh q)

  abbrev IsDisjoint : List (Entry K) → List (Entry K) → Type 0
  IsDisjoint xs fresh = (q : K) → k.is_null q ≡ false → (view fresh q ≡ none) ⊎ (view xs q ≡ none)

  module _ {c : ℕ} (s : IsSized c) where
    rehash_entry-used :
        (x : Entry K) (fresh : List (Entry K)) (m : ℕ)
        → IsPlaced c m fresh
        → m + 1 < c
        → k.is_null x.key ≡ false
        → view fresh x.key ≡ none
        → (fresh' : List (Entry K)) × (rehash_entry c x (fresh, m) ≡ some (fresh', m + 1))
          × IsPlaced c (m + 1) fresh'
          × ((q : K)
              → k.is_null q ≡ false
              → view fresh' q ≡ (if k.equal x.key q then some x.value else view fresh q))
    unfolding rehash_entry
    rehash_entry-used x fresh m p room used absent =
        let (j, f) = find_entry-Finds s p (omega arith) x.key in
        let null : k.is_null (entry_at fresh j).key ≡ true =
          ground (arith, absent, view-Finds s p used f) in
        let wraps : (m + 1) % u32_mod ≡ m + 1 = omega (arith, s.most) in
        (
          _,
          rw (used, f.runs, wraps),
          rw null at (set-IsPlaced s p used f x.value),
          view-set s p used f x.value,
        )

  rehash_entry-null :
      (c : ℕ) (x : Entry K) (fresh : List (Entry K)) (m : ℕ)
      → k.is_null x.key ≡ true
      → rehash_entry c x (fresh, m) ≡ some (fresh, m)
  unfolding rehash_entry
  rehash_entry-null c x fresh m null = rw null

  -- What the move of `x` does to the keys that are still to move.
  module _ (x : Entry K) (xs fresh fresh' : List (Entry K)) (q : K) (once : view xs x.key ≡ none)
      (v : view fresh' q ≡ (if k.equal x.key q then some x.value else view fresh q))
      (apart : (view fresh q ≡ none) ⊎ (view (x ∷ xs) q ≡ none)) where
    rehash-apart : (view fresh' q ≡ none) ⊎ (view xs q ≡ none)
    rehash-apart = elim (Bool-cases (k.equal x.key q)) [
      | inl e ↦ let same : x.key ≡ q = equal-eq x.key q e in inr (rw (← same) once)
      | inr e ↦ ground (arith, v, apart, e)
    ]

    rehash-views :
        (result : List (Entry K))
        → view result q ≡ or_else (view xs q) (view fresh' q)
        → view result q ≡ or_else (view (x ∷ xs) q) (view fresh q)
    unfolding or_else
    rehash-views result h = elim (Bool-cases (k.equal x.key q)) [
      | inl e ↦
          let same : x.key ≡ q = equal-eq x.key q e in
          let gone : view xs q ≡ none = rw (← same) once in rw e (rw gone at h ∙ rw e at v)
      | inr e ↦ rw e (h ∙ ap (or_else (view xs q)) (rw e at v))
    ]

  module _ {c : ℕ} (s : IsSized c) where
    rehash-Moved :
        (xs fresh : List (Entry K)) (m : ℕ)
        → IsPlaced c m fresh
        → m + occupied xs < c
        → IsNodup xs
        → IsDisjoint xs fresh
        → (result : List (Entry K)) × (rehash c xs (fresh, m) ≡ some (result, m + occupied xs))
          × Moved c xs fresh (m + occupied xs) result
    unfolding rehash or_else
    rehash-Moved [] fresh m p room once apart =
        let e : m ≡ m + 0 = omega arith in
        (fresh, rw (← e), record { placed = rw (← e) p; views = λ q h. refl })
    rehash-Moved (x ∷ xs) fresh m p room once apart = elim (Bool-cases (k.is_null x.key)) [
      | inl null ↦
          let e : m + occupied (x ∷ xs) ≡ m + occupied xs = rw null (omega arith) in
          let skip : (q : K) → k.is_null q ≡ false → view (x ∷ xs) q ≡ view xs q =
            λ q h. rw (is_null-ne x.key q null h) in
          let (result, run, moved) =
            rehash-Moved xs fresh m p (omega (arith, e)) once.1
              (λ q h. rw (skip q h) at (apart q h)) in
          (
            result,
            rw (e, rehash_entry-null c x fresh m null) run,
            record { placed = rw e moved.placed; views = λ q h. rw (skip q h) (moved.views q h) },
          )
      | inr used ↦
          let e : m + occupied (x ∷ xs) ≡ m + 1 + occupied xs = rw used (omega arith) in
          let own : view (x ∷ xs) x.key ≡ some x.value = rw ((k.equal_iff x.key x.key).1 refl) in
          let absent : view fresh x.key ≡ none = ground (arith, apart x.key used, own) in
          let (fresh', step, p', v) =
            rehash_entry-used s x fresh m p (omega (arith, e)) used absent in
          let (result, run, moved) =
            rehash-Moved xs fresh' (m + 1) p' (omega (arith, e)) once.1
              (λ q h. rehash-apart x xs fresh fresh' q (once.0 used) (v q h) (apart q h)) in
          (
            result,
            rw (step, e) run,
            record {
              placed = rw e moved.placed;
              views = λ q h.
                  rehash-views x xs fresh fresh' q (once.0 used) (v q h) (apart q h) result
                    (moved.views q h);
            },
          )
    ]

  -- `resize` of placed entries to a power of two of slots, at least 8 and more than the keys, returns
  -- a table of that capacity that is placed again, and keeps the number of keys and the value of
  -- every key that is in use.
  pub resize-Moved :
      {c c' : ℕ} (t : Table K)
      → IsSized c'
      → IsPlaced c t.length t.entries
      → t.length < c'
      → (t' : Table K) × (resize t c' ≡ some t')
        × (t'.capacity ≡ c')
        × (t'.length ≡ t.length)
        × IsPlaced c' t.length t'.entries
        × ((q : K) → k.is_null q ≡ false → view t'.entries q ≡ view t.entries q)
  unfolding resize or_else
  resize-Moved {c} {c'} t s p room =
      let start = replicate-IsPlaced c' in
      let (result, run, moved) =
        rehash-Moved s t.entries (replicate c' blank_entry) 0 start (omega (arith, p.counted))
          (IsPlaced-IsNodup p) (λ q h. inl (view-replicate c' q h)) in
      let n : 0 + occupied t.entries ≡ t.length = omega (arith, p.counted) in
      (
        record { length = t.length; capacity = c'; entries = result },
        rw (run, n),
        refl,
        refl,
        rw n at moved.placed,
        (λ q h. moved.views q h ∙ rw (view-replicate c' q h) (or_else-none (view t.entries q))),
      )
