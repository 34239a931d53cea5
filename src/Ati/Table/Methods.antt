-- ===== src/Ati/Table/Methods.antt =====
-- The operations of the tables of source/ati/table.c on the abstract map.
use native.Mathlib.Nat.{pow-suc}
use atcc.Prelude.{
  ℕ, suc, ◌+◌, ◌*◌, ◌%◌, ◌^◌, ◌≤◌, ◌≡◌, ◌⊎◌, refl, ap, ◌∙◌, arith, Bool, true, false, Bool-cases,
  inl, inr, Option, none, some, List, [], ◌∷◌, ltb, if◌then◌else◌, set, u32_mod,
}
use atcc.Ati.Table.{Key, Entry, Table, create, entry_at, resize, get, grow, put, assign}
use atcc.Ati.Table.Probe.{IsSized}
use atcc.Ati.Table.Placed.{
  IsPlaced, is_null-ne, find_entry-Finds, view-Finds, set-IsPlaced, view-set,
}
use atcc.Ati.Table.Resize.{replicate-IsPlaced, resize-Moved}
use atcc.Ati.Table.Write.{occupied, view}

-- A null pointer stands for a key that is not there.
abbrev pub or_null : Option ℕ → ℕ
or_null none = 0
or_null (some v) = v

abbrev pub is_none : Option ℕ → Bool
is_none none = true
is_none (some v) = false

-- The capacity that `grow` asks for is a power of two again.
double-IsSized : {c : ℕ} → IsSized c → c ≤ 2 ^ 30 → IsSized (c * 2 % u32_mod)
double-IsSized {c} s h =
    let e : c * 2 % u32_mod ≡ c * 2 = omega arith in
    rw e (record {
      bits = suc s.bits;
      power = rw (pow-suc 2 s.bits) (ap (λ t. t * 2) s.power);
      least = omega (arith, s.least);
      most = omega arith;
    })

eight-IsSized : IsSized 8
eight-IsSized = record { bits = 3; power = refl; least = omega arith; most = omega arith }

module _ {K : Type 0} ⦃k : Key K⦄ where
  pub record IsValid (t : Table K) : Type 0 where
    pub sized : (t.capacity ≡ 0) ⊎ IsSized t.capacity
    pub placed : IsPlaced t.capacity t.length t.entries
    pub load : t.length * 4 ≤ t.capacity * 3

  pub create-IsValid : IsValid (create {K = K})
  create-IsValid = record { sized = inl refl; placed = replicate-IsPlaced 0; load = omega arith }

  -- Both tables hold the same keys with the same values.
  abbrev pub SameView : Table K → Table K → Type 0
  SameView t u = (q : K) → k.is_null q ≡ false → view t.entries q ≡ view u.entries q

  pub view-unoccupied :
      (es : List (Entry K)) (q : K) → k.is_null q ≡ false → occupied es ≡ 0 → view es q ≡ none
  view-unoccupied [] q h n = refl
  view-unoccupied (x ∷ es) q h n = elim (Bool-cases (k.is_null x.key)) [
    | inl e ↦ rw (is_null-ne x.key q e h) (view-unoccupied es q h (omega (arith, n)))
    | inr e ↦ absurd (omega (arith, rw e at n))
  ]

  -- `get` always returns, and reads the abstract map.
  pub get-view :
      {t : Table K} (q : K)
      → IsValid t
      → k.is_null q ≡ false
      → get t q ≡ some (or_null (view t.entries q))
  unfolding get
  get-view {t} q v h = elim (Bool-cases (ltb 0 t.length)) [
    | inr e ↦
        let n : occupied t.entries ≡ 0 = ground (arith, v.placed.counted) in
        rw (e, view-unoccupied t.entries q h n) refl
    | inl e ↦ elim v.sized [
      | inl z ↦ absurd (ground (arith, v.load))
      | inr s ↦
          let (j, f) = find_entry-Finds s v.placed (omega (arith, v.load, s.least)) q in
          rw (e, f.runs, view-Finds s v.placed h f)
            (elim (k.is_null (entry_at t.entries j).key)
              as (λ b.
                some (if b then 0 else (entry_at t.entries j).value)
                ≡ some (or_null (if b then none else some (entry_at t.entries j).value))) [
                  | true ↦ refl
                  | false ↦ refl
                ])
    ]
  ]

  -- After `grow` the table has room for one more key under the load bound, and the same contents.
  pub record Grown (t u : Table K) : Type 0 where
    pub valid : IsValid u
    pub sized : IsSized u.capacity
    pub room : (u.length + 1) * 4 ≤ u.capacity * 3
    pub same_length : u.length ≡ t.length
    pub same_view : SameView u t

  resize-Grown :
      {t : Table K} {c : ℕ}
      → IsValid t
      → IsSized c
      → (t.length + 1) * 4 ≤ c * 3
      → (u : Table K) × (resize t c ≡ some u) × Grown t u
  resize-Grown {t} {c} v s room =
      let (u, run, width, len, p, same) = resize-Moved t s v.placed (omega (arith, s.least)) in
      let s' : IsSized u.capacity = rw width s in
      let p' : IsPlaced u.capacity u.length u.entries = rw (width, len) p in
      (
        u,
        run,
        record {
          valid = record { sized = inr s'; placed = p'; load = omega (arith, width, len, room) };
          sized = s';
          room = omega (arith, width, len, room);
          same_length = len;
          same_view = same;
        },
      )

  grow-Grown :
      {t : Table K}
      → IsValid t
      → t.capacity ≤ 2 ^ 30
      → (u : Table K) × (grow t ≡ some u) × Grown t u
  unfolding grow
  grow-Grown {t} v h =
      let wraps : (t.length + 1) % u32_mod ≡ t.length + 1 = omega (arith, v.load) in
      rw wraps (elim (Bool-cases (ltb (t.capacity * 3) ((t.length + 1) * 4))) [
        | inr e ↦ elim v.sized [
          | inl z ↦ absurd (ground (arith, z, e))
          | inr s ↦ (
            t,
            rw e refl,
            record {
              valid = v;
              sized = s;
              room = ground (arith, e);
              same_length = refl;
              same_view = λ q h. refl;
            },
          )
        ]
        | inl e ↦ elim v.sized [
          | inl z ↦
              let small : ltb t.capacity 8 ≡ true = ground (arith, z) in
              rw (e, small) (resize-Grown v eight-IsSized (omega (arith, v.load, z)))
          | inr s ↦
              let large : ltb t.capacity 8 ≡ false = ground (arith, s.least) in
              rw (e, large)
                (resize-Grown v (double-IsSized s h) (omega (arith, v.load, s.least, h)))
        ]
      ])

  -- The effect of storing `value` under `q`: the flag says that the key is new.
  pub record Stores (t : Table K) (q : K) (value : ℕ) (r : Table K × Bool) : Type 0 where
    pub valid : IsValid r.0
    pub is_new : r.1 ≡ is_none (view t.entries q)
    pub length : r.0.length ≡ (if is_none (view t.entries q) then t.length + 1 else t.length)
    pub views :
        (a : K)
        → k.is_null a ≡ false
        → view r.0.entries a ≡ (if k.equal q a then some value else view t.entries a)

  -- `assign` always returns, keeps the table valid and updates the abstract map at the key.
  pub assign-Stores :
      {t : Table K} (q : K) (value : ℕ)
      → IsValid t
      → k.is_null q ≡ false
      → t.capacity ≤ 2 ^ 30
      → (r : Table K × Bool) × (assign t q value ≡ some r) × Stores t q value r
  unfolding assign put
  assign-Stores {t} q value v h small =
      let (u, run, g) = grow-Grown v small in
      let p = g.valid.placed in
      let (j, f) = find_entry-Finds g.sized p (omega (arith, g.room)) q in
      let null = k.is_null (entry_at u.entries j).key in
      let wraps : (u.length + 1) % u32_mod ≡ u.length + 1 = omega (arith, g.room, g.sized.most) in
      let here : null ≡ is_none (view t.entries q) =
        rw (← g.same_view q h, view-Finds g.sized p h f)
          (elim null as (λ b. b ≡ is_none (if b then none else some (entry_at u.entries j).value)) [
            | true ↦ refl
            | false ↦ refl
          ]) in
      let count : (if null then (u.length + 1) % u32_mod else u.length)
          ≡ (if null then u.length + 1 else u.length) =
        rw wraps refl in
      (
        (
          record u {
            length = if null then (u.length + 1) % u32_mod else u.length;
            entries = set u.entries j (record { key = q; value = value; empty = false });
          },
          null,
        ),
        rw (run, f.runs) refl,
        record {
          valid = record {
            sized = inr g.sized;
            placed = rw count (set-IsPlaced g.sized p h f value);
            load = rw count (ground (arith, g.room));
          };
          is_new = here;
          length = rw (count, ← here, g.same_length) refl;
          views = λ a n. view-set g.sized p h f value a n ∙ rw (g.same_view a n) refl;
        },
      )

  -- What `assign` returns is valid, and `get` on it sees the new value under the key, and under every
  -- other key what it saw before.
  pub get-assign :
      {t : Table K} (q : K) (value : ℕ)
      → IsValid t
      → k.is_null q ≡ false
      → t.capacity ≤ 2 ^ 30
      → (r : Table K × Bool) × (assign t q value ≡ some r)
        × IsValid r.0
        × ((a : K)
            → k.is_null a ≡ false
            → get r.0 a ≡ (if k.equal q a then some value else get t a))
  get-assign {t} q value v h small =
      let (r, run, st) = assign-Stores q value v h small in
      (
        r,
        run,
        st.valid,
        (λ a n.
            get-view a st.valid n
            ∙ rw (st.views a n, get-view a v n)
                (elim (k.equal q a)
                  as (λ b.
                    some (or_null (if b then some value else view t.entries a))
                    ≡ (if b then some value else some (or_null (view t.entries a)))) [
                      | true ↦ refl
                      | false ↦ refl
                    ])),
      )
