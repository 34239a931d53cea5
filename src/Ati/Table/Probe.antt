-- ===== src/Ati/Table/Probe.antt =====
-- The probe sequence of `find_entry` (source/ati/table.c), without the tombstone it never needs in a
-- table where every unused slot is marked empty: where it stops, and that it stops.
use Prim.Native.Nat.{bit_and}
use mathlib.Core.Logic.{inl, inr}
use native.Mathlib.Nat.{mod-eq_of_lt, mod_self}
use atcc.Prelude.Bits.{bit_and_mask}
use atcc.Prelude.{
  ℕ, zero, suc, ◌+◌, ◌-◌, ◌%◌, ◌^◌, ◌≤◌, ◌<◌, ◌≡◌, ◌≢◌, refl, ap, arith, Bool, true, ◌||◌,
  Bool-cases, Option, none, some, List, ltb, ◌==◌, ==_iff, if◌then◌else◌, u32_mod,
}
use atcc.Ati.Table.{Key, Entry, mask, next, entry_at, home, find_from}

-- The capacities that `resize` is called with: a power of two from 8 on.
pub record IsSized (capacity : ℕ) : Type 0 where
  pub bits : ℕ
  pub power : capacity ≡ 2 ^ bits
  pub least : 8 ≤ capacity
  pub most : capacity < u32_mod

pub mask_lem : {c : ℕ} → IsSized c → (a : ℕ) → bit_and a (mask c) ≡ a % c
mask_lem {c} s a =
    let m : mask c ≡ 2 ^ s.bits - 1 = omega (arith, s.power, s.least, s.most) in
    rw (m, s.power) (bit_and_mask s.bits a)

pub next_lem : {c : ℕ} → IsSized c → (i : ℕ) → i < c → next c i ≡ (if i + 1 == c then 0 else i + 1)
next_lem {c} s i h =
    let fits : (i + 1) % u32_mod ≡ i + 1 = omega (arith, s.most) in
    rw (mask_lem s, fits)
      (elim (Bool-cases (i + 1 == c)) [
        | inl e ↦ let last : i + 1 ≡ c = (==_iff (i + 1) c).0 e in rw e (rw last (mod_self c))
        | inr e ↦ rw e (mod-eq_of_lt (ground arith))
      ])

-- rounds from slot `i` to slot `p`
abbrev pub distance : ℕ → ℕ → ℕ → ℕ
distance c i p = if ltb p i then p + c - i else p - i

distance-next :
    {c : ℕ} (s : IsSized c) (i p f : ℕ)
    → i < c
    → p < c
    → i ≢ p
    → distance c i p < suc f
    → distance c (next c i) p < f
distance-next s i p f hi hp other d = rw (next_lem s i hi) (ground arith)

module _ {K : Type 0} ⦃k : Key K⦄ where
  pub home-lt : {c : ℕ} → IsSized c → (q : K) → home c q < c
  home-lt s q = rw (mask_lem s) (omega (arith, s.least))

  -- a search for `q` ends at this slot
  abbrev pub stops : List (Entry K) → K → ℕ → Bool
  stops es q i = k.equal (entry_at es i).key q || k.is_null (entry_at es i).key

  unfoldable pub probe : ℕ → List (Entry K) → ℕ → K → ℕ → Option ℕ
  probe zero es c q i = none
  probe (suc f) es c q i =
      let rest = probe f es c q (next c i) in if stops es q i then some i else rest

  -- every unused slot is marked empty
  abbrev pub IsClean : List (Entry K) → Type 0
  IsClean es = (i : ℕ) → k.is_null (entry_at es i).key ≡ true → (entry_at es i).empty ≡ true

  pub find_from-probe :
      (f : ℕ) (es : List (Entry K)) (c : ℕ) (q : K) (i : ℕ)
      → IsClean es
      → find_from f es c q none i ≡ probe f es c q i
  unfolding find_from probe
  find_from-probe zero es c q i clean = refl
  find_from-probe (suc f) es c q i clean =
      ground (arith, clean i, find_from-probe f es c q (next c i) clean)

  pub probe-stops :
      (f : ℕ) (es : List (Entry K)) (c : ℕ) (q : K) (i j : ℕ)
      → probe f es c q i ≡ some j
      → stops es q j ≡ true
  unfolding probe
  probe-stops zero es c q i j h = cc
  probe-stops (suc f) es c q i j h = elim (Bool-cases (stops es q i)) [
    | inl e ↦ let same : i ≡ j = ground arith in rw (← same) e
    | inr e ↦ probe-stops f es c q (next c i) j (rw e at h)
  ]

  module _ {c : ℕ} (s : IsSized c) where
    pub probe-lt :
        (f : ℕ) (es : List (Entry K)) (q : K) (i j : ℕ) → i < c → probe f es c q i ≡ some j → j < c
    unfolding probe
    probe-lt zero es q i j h e = cc
    probe-lt (suc f) es q i j h e = elim (Bool-cases (stops es q i)) [
      | inl t ↦ ground arith
      | inr t ↦ probe-lt f es q (next c i) j (ground (arith, next_lem s i h)) (rw t at e)
    ]

    -- A slot where the search ends is met within one turn.
    pub probe_total :
        (f : ℕ) (es : List (Entry K)) (q : K) (i p : ℕ)
        → i < c
        → p < c
        → stops es q p ≡ true
        → distance c i p < f
        → (j : ℕ) × (probe f es c q i ≡ some j)
    unfolding probe
    probe_total zero es q i p hi hp t d = absurd (omega arith)
    probe_total (suc f) es q i p hi hp t d = elim (Bool-cases (stops es q i)) [
      | inl e ↦ (i, rw e)
      | inr e ↦
          let other : i ≢ p = λ same. cc (ap (stops es q) same, e, t) in
          rw e (
            probe_total f es q (next c i) p (ground (arith, next_lem s i hi)) hp t
              (distance-next s i p f hi hp other d))
    ]
