-- ===== src/Ati/Table/Placed.antt =====
-- What the slots of a table of source/ati/table.c promise (`IsPlaced`), and that storing a key where
-- `find_entry` points keeps it.
use atcc.Prelude.{
  ℕ, suc, ◌+◌, ◌<◌, ◌≡◌, ◌≢◌, refl, sym, ap, ◌∙◌, arith, true, false, Bool-cases, inl, inr, none,
  some, List, [], ◌∷◌, ◌==◌, ==_iff, if◌then◌else◌, length, set, length-set, get_or-set_self,
  get_or-set_ne,
}
use atcc.Ati.Table.{Key, Entry, home, blank_entry, entry_at, find_entry}
use atcc.Ati.Table.Probe.{
  IsSized, stops, probe, IsClean, find_from-probe, probe-stops, probe-lt, probe_total, home-lt,
}
use atcc.Ati.Table.Write.{
  stops_key, probe-set_ne, probe-set_self, occupied, occupied-set, unused_slot, view, view-set_ne,
  view-at, view-eq-none,
}

module _ {K : Type 0} ⦃k : Key K⦄ where
  -- `n` keys stand in `capacity` slots, every search for a stored key ends at its slot, every unused
  -- slot is marked empty, and one slot at least is unused.
  pub record IsPlaced (capacity n : ℕ) (es : List (Entry K)) : Type 0 where
    pub width : length es ≡ capacity
    pub counted : occupied es ≡ n
    pub clean : IsClean es
    pub found :
        (j : ℕ)
        → j < capacity
        → k.is_null (entry_at es j).key ≡ false
        → probe capacity es capacity (entry_at es j).key (home capacity (entry_at es j).key)
          ≡ some j

  pub equal-eq : (a b : K) → k.equal a b ≡ true → a ≡ b
  equal-eq a b h = (k.equal_iff a b).0 h

  pub is_null-ne : (a q : K) → k.is_null a ≡ true → k.is_null q ≡ false → k.equal a q ≡ false
  is_null-ne a q n h = elim (Bool-cases (k.equal a q)) [
    | inl e ↦ cc (n, h, ap k.is_null (equal-eq a q e))
    | inr e ↦ e
  ]

  -- What the search for a key that is not null returns.
  pub record Finds (capacity : ℕ) (es : List (Entry K)) (q : K) (j : ℕ) : Type 0 where
    pub runs : find_entry es capacity q ≡ some j
    pub probes : probe capacity es capacity q (home capacity q) ≡ some j
    pub inside : j < capacity
    pub ends : stops es q j ≡ true

  module _ {c : ℕ} (s : IsSized c) {n : ℕ} {es : List (Entry K)} (p : IsPlaced c n es) where
    -- In a power of two slots, more than the keys in them, without tombstones and where the search finds each
    -- stored key, `find_entry` returns for every key, within as many rounds as there are slots, and at a slot
    -- that is unused or holds the key.
    pub find_entry-Finds : n < c → (q : K) → (j : ℕ) × Finds c es q j
    unfolding find_entry
    find_entry-Finds room q =
        let (u, hu, null) = unused_slot es (omega (arith, p.counted, p.width)) in
        let h = home-lt s q in
        let t : stops es q u ≡ true = rw null (ground arith) in
        let (j, e) =
          probe_total s c es q (home c q) u h (omega (arith, p.width)) t
            (ground (arith, p.width)) in
        (
          j,
          record {
            runs = find_from-probe c es c q (home c q) p.clean ∙ e;
            probes = e;
            inside = probe-lt s c es q (home c q) j h e;
            ends = probe-stops c es c q (home c q) j e;
          },
        )

    module _ {q : K} (named : k.is_null q ≡ false) {j : ℕ} (f : Finds c es q j) where
      -- A slot that holds the key is the one that the search ends at.
      pub Finds-unique : (i : ℕ) → i < length es → k.equal (entry_at es i).key q ≡ true → i ≡ j
      Finds-unique i h e =
          let same : (entry_at es i).key ≡ q = equal-eq (entry_at es i).key q e in
          let mine = p.found i (omega (arith, p.width)) (rw same named) in
          ground (arith, f.probes, rw same at mine)

      pub view-Finds :
          view es q ≡ (if k.is_null (entry_at es j).key then none else some (entry_at es j).value)
      view-Finds = elim (Bool-cases (k.is_null (entry_at es j).key)) [
        | inl e ↦ rw e (
            view-eq-none es q (λ i lt. elim (Bool-cases (k.equal (entry_at es i).key q)) [
              | inl t ↦
                  let here = Finds-unique i lt t in
                  let null : k.is_null (entry_at es i).key ≡ true = rw here e in
                  cc (t, is_null-ne (entry_at es i).key q null named)
              | inr t ↦ t
            ]))
        | inr e ↦
            let t : k.equal (entry_at es j).key q ≡ true = ground (arith, f.ends) in
            rw e (view-at es j q (omega (arith, p.width, f.inside)) t Finds-unique)
      ]

      module _ (v : ℕ) where
        -- the entry that `put` and `resize` write
        abbrev stored : Entry K
        stored = record { key = q; value = v; empty = false }

        stored_self : stops_key stored q ≡ true
        stored_self = rw ((k.equal_iff q q).1 refl)

        slot_key : (a : K) → k.is_null a ≡ false → k.equal (entry_at es j).key a ≡ true → q ≡ a
        slot_key a h e =
            let same : (entry_at es j).key ≡ a = equal-eq (entry_at es j).key a e in
            let used : k.is_null (entry_at es j).key ≡ false = rw same h in
            let t : k.equal (entry_at es j).key q ≡ true = ground (arith, f.ends) in
            sym (equal-eq (entry_at es j).key q t) ∙ same

        set-found :
            (i : ℕ)
            → i < c
            → let x = entry_at (set es j stored) i in
              k.is_null x.key ≡ false → probe c (set es j stored) c x.key (home c x.key) ≡ some i
        set-found i hi = elim (Bool-cases (j == i)) [
          | inl same ↦
              let here : j ≡ i = (==_iff j i).0 same in
              rw
                (← here, get_or-set_self es j stored blank_entry (omega (arith, p.width, f.inside)))
                (λ _.
                  probe-set_self c es c q (home c q) j stored (omega (arith, p.width, f.inside))
                    stored_self f.probes)
          | inr other ↦
              let apart : j ≢ i = λ same. cc ((==_iff j i).1 same, other) in
              rw (get_or-set_ne es j i stored blank_entry apart) (λ used.
                let a = (entry_at es i).key in
                let different : k.equal q a ≡ false = elim (Bool-cases (k.equal q a)) [
                  | inl e ↦
                      let t : k.equal a q ≡ true = (k.equal_iff a q).1 (sym (equal-eq q a e)) in
                      absurd (apart (sym (Finds-unique i (omega (arith, p.width)) t)))
                  | inr e ↦ e
                ] in
                probe-set_ne c es c a (home c a) i j stored apart (omega (arith, p.width, f.inside))
                  (rw (different, named)) (p.found i hi used))
        ]

        set-IsClean : IsClean (set es j stored)
        set-IsClean i = elim (Bool-cases (j == i)) [
          | inl same ↦
              let here : j ≡ i = (==_iff j i).0 same in
              rw
                (← here, get_or-set_self es j stored blank_entry (omega (arith, p.width, f.inside)))
                (λ t. cc (t, named))
          | inr other ↦
              let apart : j ≢ i = λ same. cc ((==_iff j i).1 same, other) in
              rw (get_or-set_ne es j i stored blank_entry apart) (p.clean i)
        ]

        pub set-IsPlaced :
            IsPlaced c (if k.is_null (entry_at es j).key then n + 1 else n) (set es j stored)
        set-IsPlaced = record {
          width = length-set es j stored ∙ p.width;
          counted = ground (
            arith,
            named,
            p.counted,
            occupied-set es j stored (omega (arith, p.width, f.inside)),
          );
          clean = set-IsClean;
          found = set-found;
        }

        -- the same search, after the write
        pub set-Finds : Finds c (set es j stored) q j
        unfolding find_entry
        set-Finds =
            let inside : j < length es = omega (arith, p.width, f.inside) in
            let e = probe-set_self c es c q (home c q) j stored inside stored_self f.probes in
            record {
              runs = find_from-probe c (set es j stored) c q (home c q) set-IsClean ∙ e;
              probes = e;
              inside = f.inside;
              ends = probe-stops c (set es j stored) c q (home c q) j e;
            }

        pub view-set_ne-key :
            (a : K)
            → k.is_null a ≡ false
            → k.equal q a ≡ false
            → view (set es j stored) a ≡ view es a
        view-set_ne-key a h e =
            view-set_ne es j stored a e (elim (Bool-cases (k.equal (entry_at es j).key a)) [
              | inl t ↦ cc (e, (k.equal_iff q a).1 (slot_key a h t))
              | inr t ↦ t
            ])

  module _ {c : ℕ} (s : IsSized c) {n : ℕ} {es : List (Entry K)} (p : IsPlaced c n es) where
    -- Storing a key updates the abstract map at that key, and nowhere else.
    pub view-set :
        {q : K} (named : k.is_null q ≡ false) {j : ℕ} (f : Finds c es q j) (v : ℕ) (a : K)
        → k.is_null a ≡ false
        → view (set es j (record { key = q; value = v; empty = false })) a
          ≡ (if k.equal q a then some v else view es a)
    view-set {q} named {j} f v a h = elim (Bool-cases (k.equal q a)) [
      | inl e ↦
          let x : Entry K = record { key = q; value = v; empty = false } in
          let same : q ≡ a = (k.equal_iff q a).0 e in
          let new = view-Finds s (set-IsPlaced s p named f v) named (set-Finds s p named f v) in
          let here = get_or-set_self es j x blank_entry (omega (arith, p.width, f.inside)) in
          rw e (rw (← same) (rw (here, named) at new))
      | inr e ↦ rw e (view-set_ne-key s p named f v a h e)
    ]

  -- No two slots hold one key.
  abbrev pub Apart : List (Entry K) → List (Entry K) → Type 0
  Apart [] es = Unit
  Apart (x ∷ xs) es = (k.is_null x.key ≡ false → view es x.key ≡ none) × Apart xs es

  abbrev pub IsNodup : List (Entry K) → Type 0
  IsNodup [] = Unit
  IsNodup (x ∷ xs) = (k.is_null x.key ≡ false → view xs x.key ≡ none) × IsNodup xs

  IsNodup-of_unique :
      (es : List (Entry K))
      → ((i j : ℕ)
          → i < length es
          → j < length es
          → k.is_null (entry_at es j).key ≡ false
          → k.equal (entry_at es i).key (entry_at es j).key ≡ true
          → i ≡ j)
      → IsNodup es
  IsNodup-of_unique [] u = tt
  IsNodup-of_unique (x ∷ es) u = (
    (λ used. view-eq-none es x.key (λ i lt. elim (Bool-cases (k.equal (entry_at es i).key x.key)) [
      | inl t ↦ absurd (omega (arith, u (suc i) 0 (omega arith) (omega arith) used t))
      | inr t ↦ t
    ])),
    IsNodup-of_unique es
        (λ i j hi hj used t. omega (arith, u (suc i) (suc j) (omega arith) (omega arith) used t)),
  )

  pub IsPlaced-IsNodup : {c n : ℕ} {es : List (Entry K)} → IsPlaced c n es → IsNodup es
  IsPlaced-IsNodup {c} {n} {es} p = IsNodup-of_unique es (λ i j hi hj used t.
      let same : (entry_at es i).key ≡ (entry_at es j).key =
        equal-eq (entry_at es i).key (entry_at es j).key t in
      let mine = p.found j (omega (arith, p.width)) used in
      let theirs = p.found i (omega (arith, p.width)) (rw same used) in
      ground (arith, rw same at theirs))
