-- ===== src/Ati/StringTable/Remove.antt =====
-- `string_table_remove` of source/ati/table.c: what it removes, and what it loses.
use atcc.Prelude.{
  ℕ, zero, suc, ◌+◌, ◌-◌, ◌%◌, ◌<◌, ◌≡◌, ◌≢◌, refl, ◌∙◌, arith, Bool, true, false, Bool-cases, inl,
  inr, some, List, [], ltb, ◌==◌, ==_iff, if◌then◌else◌, length, set, get_or-set_self,
  get_or-set_ne, u32_mod,
}
use atcc.Ati.Strings.{Bytes, string_match}
use atcc.Ati.StringTable.{string_key, StringTable, string_table_get, string_table_remove}
use atcc.Ati.Table
use atcc.Ati.Table.{Entry, entry_at, blank_entry, home, find_from, find_entry}
use atcc.Ati.Table.Methods.{IsValid, view-unoccupied}
use atcc.Ati.Table.Placed.{Finds, find_entry-Finds, view-Finds}
use atcc.Ati.Table.Probe.{IsSized, IsClean, find_from-probe}
use atcc.Ati.Table.Write.{view, probe-set_self}

-- the slot that `string_table_remove` leaves behind
abbrev pub cleared : Entry Bytes
cleared = record { key = []; value = 0; empty = true }

abbrev removed : StringTable → ℕ → StringTable
removed t j = record t {
  length = (t.length + u32_mod - 1) % u32_mod;
  entries = set t.entries j cleared;
}

-- The key is found in a sized table, and `remove` clears its slot.
record Removes (t : StringTable) (q : Bytes) (j : ℕ) : Type 0 where
  sized : IsSized t.capacity
  finds : Finds t.capacity t.entries q j
  runs : string_table_remove t q ≡ some (removed t j, true)

module _ {t : StringTable} (v : IsValid t) (q : Bytes) (named : (length q == 0) ≡ false) {value : ℕ}
    (present : view t.entries q ≡ some value) where
  stored : 0 < t.length
  stored = elim (Bool-cases (t.length == 0)) [
    | inl e ↦
        cc (present, view-unoccupied t.entries q named (v.placed.counted ∙ (==_iff t.length 0).0 e))
    | inr e ↦ ground arith
  ]

  remove-Removes : (j : ℕ) × Removes t q j
  unfolding string_table_remove
  remove-Removes = elim v.sized [
    | inl z ↦ absurd (omega (arith, v.load, stored))
    | inr s ↦
        let (j, f) = find_entry-Finds s v.placed (omega (arith, v.load, s.least)) q in
        let used : (length (entry_at t.entries j).key == 0) ≡ false =
          ground (arith, present, view-Finds s v.placed named f) in
        let some_key : (t.length == 0) ≡ false = ground (arith, stored) in
        (j, record { sized = s; finds = f; runs = rw (some_key, f.runs, used) refl })
  ]

-- A search that ends at a cleared slot finds nothing.
get-cleared :
    (t : StringTable) (q : Bytes) (j : ℕ)
    → j < length t.entries
    → find_entry (set t.entries j cleared) t.capacity q ≡ some j
    → string_table_get (removed t j) q ≡ some 0
unfolding string_table_get Table.get
get-cleared t q j h e = elim (Bool-cases (ltb 0 ((t.length + u32_mod - 1) % u32_mod))) [
  | inr z ↦ rw z refl
  | inl n ↦ rw (n, e, get_or-set_self t.entries j cleared blank_entry h) refl
]

cleared-IsClean :
    (es : List (Entry Bytes)) (j : ℕ) → j < length es → IsClean es → IsClean (set es j cleared)
cleared-IsClean es j h clean i = elim (Bool-cases (j == i)) [
  | inl same ↦
      let here : j ≡ i = (==_iff j i).0 same in
      rw (← here, get_or-set_self es j cleared blank_entry h) (λ _. refl)
  | inr other ↦
      let apart : j ≢ i = λ same. cc ((==_iff j i).1 same, other) in
      rw (get_or-set_ne es j i cleared blank_entry apart) (clean i)
]

-- A search whose first slot is a cleared one ends there.
find_entry-here :
    (c : ℕ) (es : List (Entry Bytes)) (a : Bytes) (j : ℕ)
    → j ≡ home c a
    → 0 < c
    → entry_at es j ≡ cleared
    → find_entry es c a ≡ some j
unfolding find_entry find_from
find_entry-here zero es a j h pos e = absurd (omega arith)
find_entry-here (suc c) es a j h pos e =
    rw (← h, e)
      (elim (string_match [] a) as (λ b. (if b then some j else some j) ≡ some j) [
        | true ↦ refl
        | false ↦ refl
      ])

module _ {t : StringTable} (v : IsValid t) (q : Bytes) (named : (length q == 0) ≡ false) {value : ℕ}
    (present : view t.entries q ≡ some value) where
  -- A key of a valid table that is there and is not empty is removed, and is not found afterwards.
  pub get-remove :
      (r : StringTable × Bool) × (string_table_remove t q ≡ some r)
      × (r.1 ≡ true)
      × (string_table_get r.0 q ≡ some 0)
  get-remove =
      let (j, m) = remove-Removes v q named present in
      let c = t.capacity in
      let inside : j < length t.entries = omega (arith, v.placed.width, m.finds.inside) in
      let e =
        probe-set_self c t.entries c q (home c q) j cleared inside (ground arith) m.finds.probes in
      let clean : IsClean (set t.entries j cleared) =
        cleared-IsClean t.entries j inside v.placed.clean in
      let found : find_entry (set t.entries j cleared) c q ≡ some j =
        unfold find_entry in find_from-probe c (set t.entries j cleared) c q (home c q) clean ∙ e in
      ((removed t j, true), m.runs, refl, get-cleared t q j inside found)

  -- Removing a key of a valid table that is there and is not empty marks its slot empty, so that the
  -- search for a key whose home that slot is ends there: it reads null afterwards, whatever value is
  -- stored under it.
  pub remove_loses :
      (a : Bytes)
      → find_entry t.entries t.capacity q ≡ some (home t.capacity a)
      → (r : StringTable × Bool) × (string_table_remove t q ≡ some r)
        × (string_table_get r.0 a ≡ some 0)
  remove_loses a e =
      let (j, m) = remove-Removes v q named present in
      let c = t.capacity in
      let here : j ≡ home c a = ground (arith, m.finds.runs, e) in
      let inside : j < length t.entries = omega (arith, v.placed.width, m.finds.inside) in
      let found : find_entry (set t.entries j cleared) c a ≡ some j =
        find_entry-here c (set t.entries j cleared) a j here (omega (arith, m.sized.least))
          (rw (get_or-set_self t.entries j cleared blank_entry inside) refl) in
      ((removed t j, true), m.runs, get-cleared t a j inside found)
