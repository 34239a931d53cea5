-- ===== src/Ati/Table/Write.antt =====
-- Writing one slot of the table: which searches it leaves alone, and what it does to the number of
-- entries and to the abstract map.
use atcc.Prelude.{
  ℕ, zero, suc, ◌+◌, ◌<◌, ◌≡◌, ◌≢◌, refl, sym, ap, ◌∙◌, arith, Bool, true, false, ◌||◌, Bool-cases,
  inl, inr, Option, none, some, List, [], ◌∷◌, ◌==◌, ==_iff, if◌then◌else◌, length, set,
  get_or-set_self, get_or-set_ne,
}
use atcc.Ati.Table.{Key, Entry, next, blank_entry, entry_at}
use atcc.Ati.Table.Probe.{stops, probe}

module _ {K : Type 0} ⦃k : Key K⦄ where
  abbrev pub stops_key : Entry K → K → Bool
  stops_key x q = k.equal x.key q || k.is_null x.key

  -- A write to a slot that the search for `q` does not end at, before or after, is not seen by it.
  pub probe-set_ne :
      (f : ℕ) (es : List (Entry K)) (c : ℕ) (q : K) (i j e : ℕ) (x : Entry K)
      → e ≢ j
      → e < length es
      → stops_key x q ≡ false
      → probe f es c q i ≡ some j
      → probe f (set es e x) c q i ≡ some j
  unfolding probe
  probe-set_ne zero es c q i j e x ne he sx h = cc
  probe-set_ne (suc f) es c q i j e x ne he sx h = elim (Bool-cases (e == i)) [
    | inl same ↦
        let here : e ≡ i = (==_iff e i).0 same in
        let old : stops es q i ≡ false = elim (Bool-cases (stops es q i)) [
          | inl t ↦ absurd (ne (here ∙ (ground arith)))
          | inr t ↦ t
        ] in
        let new : stops (set es e x) q i ≡ false =
          rw (← here, get_or-set_self es e x blank_entry he) sx in
        rw new (probe-set_ne f es c q (next c i) j e x ne he sx (rw old at h))
    | inr other ↦
        let apart : e ≢ i = λ same. cc ((==_iff e i).1 same, other) in
        rw (get_or-set_ne es e i x blank_entry apart) (elim (Bool-cases (stops es q i)) [
          | inl t ↦ rw t (rw t at h)
          | inr t ↦ rw t (probe-set_ne f es c q (next c i) j e x ne he sx (rw t at h))
        ])
  ]

  -- The search that found the slot finds it again once the slot holds its key.
  pub probe-set_self :
      (f : ℕ) (es : List (Entry K)) (c : ℕ) (q : K) (i e : ℕ) (x : Entry K)
      → e < length es
      → stops_key x q ≡ true
      → probe f es c q i ≡ some e
      → probe f (set es e x) c q i ≡ some e
  unfolding probe
  probe-set_self zero es c q i e x he sx h = cc
  probe-set_self (suc f) es c q i e x he sx h = elim (Bool-cases (e == i)) [
    | inl same ↦
        let here : e ≡ i = (==_iff e i).0 same in
        let new : stops (set es e x) q i ≡ true =
          rw (← here, get_or-set_self es e x blank_entry he) sx in
        rw new (ap some (sym here))
    | inr other ↦
        let apart : e ≢ i = λ same. cc ((==_iff e i).1 same, other) in
        rw (get_or-set_ne es e i x blank_entry apart) (elim (Bool-cases (stops es q i)) [
          | inl t ↦ rw t (rw t at h)
          | inr t ↦ rw t (probe-set_self f es c q (next c i) e x he sx (rw t at h))
        ])
  ]

  abbrev pub count_of : Entry K → ℕ
  count_of x = if k.is_null x.key then 0 else 1

  abbrev pub occupied : List (Entry K) → ℕ
  occupied [] = 0
  occupied (x ∷ xs) = count_of x + occupied xs

  pub occupied-set :
      (es : List (Entry K)) (e : ℕ) (x : Entry K)
      → e < length es
      → occupied (set es e x) + count_of (entry_at es e) ≡ occupied es + count_of x
  occupied-set [] e x h = absurd (omega arith)
  occupied-set (y ∷ es) zero x h = omega arith
  occupied-set (y ∷ es) (suc e) x h = omega (arith, occupied-set es e x (omega arith))

  pub unused_slot :
      (es : List (Entry K))
      → occupied es < length es
      → (p : ℕ) × (p < length es) × (k.is_null (entry_at es p).key ≡ true)
  unused_slot [] h = absurd (omega arith)
  unused_slot (x ∷ es) h = elim (Bool-cases (k.is_null x.key)) [
    | inl e ↦ (0, omega arith, e)
    | inr e ↦ let (p, lt, u) = unused_slot es (omega (arith, rw e at h)) in (suc p, omega arith, u)
  ]

  -- The abstract map: the value of the first slot that holds `q`.
  abbrev pub view : List (Entry K) → K → Option ℕ
  view [] q = none
  view (x ∷ xs) q = if k.equal x.key q then some x.value else view xs q

  pub view-set_ne :
      (es : List (Entry K)) (e : ℕ) (x : Entry K) (q : K)
      → k.equal x.key q ≡ false
      → k.equal (entry_at es e).key q ≡ false
      → view (set es e x) q ≡ view es q
  view-set_ne [] e x q a b = refl
  view-set_ne (y ∷ es) zero x q a b = rw (a, b)
  view-set_ne (y ∷ es) (suc e) x q a b = rw (view-set_ne es e x q a b)

  pub view-at :
      (es : List (Entry K)) (j : ℕ) (q : K)
      → j < length es
      → k.equal (entry_at es j).key q ≡ true
      → ((i : ℕ) → i < length es → k.equal (entry_at es i).key q ≡ true → i ≡ j)
      → view es q ≡ some (entry_at es j).value
  view-at [] j q h e u = absurd (omega arith)
  view-at (x ∷ es) zero q h e u = rw e
  view-at (x ∷ es) (suc j) q h e u = elim (Bool-cases (k.equal x.key q)) [
    | inl t ↦ absurd (omega (arith, u 0 (omega arith) t))
    | inr t ↦
        rw t (view-at es j q (omega arith) e (λ i lt m. omega (arith, u (suc i) (omega arith) m)))
  ]

  pub view-eq-none :
      (es : List (Entry K)) (q : K)
      → ((i : ℕ) → i < length es → k.equal (entry_at es i).key q ≡ false)
      → view es q ≡ none
  view-eq-none [] q u = refl
  view-eq-none (x ∷ es) q u =
      rw (u 0 (omega arith)) (view-eq-none es q (λ i lt. u (suc i) (omega arith)))
