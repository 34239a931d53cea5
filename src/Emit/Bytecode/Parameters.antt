-- ===== src/Emit/Bytecode/Parameters.antt =====
-- The parameters and the aggregates of source/emit/bytecode.c.
use mathlib.Core.List.{append-nil, append_assoc}
use atcc.Prelude.{
  ℕ, zero, suc, ◌+◌, ◌%◌, ◌<◌, ◌==◌, ==_iff, Bool, Bool-cases, ◌≢◌, ap, get_elem?-set_ne, ◌≤◌, ◌≡◌,
  refl, sym, ◌∙◌, arith, inl, inr, none, some, List, [], ◌∷◌, ◌++◌, length, get_elem?,
  get_elem?-set_self, length-set, set, u32_mod,
}
use atcc.Emit.Bytecode.Insns.{total_size, bc_type_aggregate_set_body}
use atcc.Emit.Bytecode.Places.{get_elem?-lt, get_elem?-append_right}
use atcc.Emit.Bytecode.Values.{make_parameters, bc_value_get_parameter}
use atcc.Emit.Bytecode.{
  BcAggregate, BcTypeKind, SbcType, SbcFunction, SbcValue, BcValueKind, Heap, ◌>>=◌, read, found,
  function_cells,
}

-- the sizes of the members' types, in the order of the members
abbrev pub Sizes : Heap → List BcAggregate → List ℕ → Type 0
Sizes h [] [] = Unit {0}
Sizes h (m ∷ ms) (n ∷ ns) =
    (t : SbcType) × (get_elem? h.types m.type ≡ some t) × (t.size ≡ n) × Sizes h ms ns
Sizes h _ _ = ⊥

abbrev pub sum : List ℕ → ℕ
sum [] = 0
sum (n ∷ ns) = n + sum ns

total_size-sum :
    (h : Heap) (members : List BcAggregate) (sizes : List ℕ) (start : ℕ)
    → Sizes h members sizes
    → total_size (length members) members (start % u32_mod) h
      ≡ some ((start + sum sizes) % u32_mod, h)
unfolding total_size
total_size-sum h [] [] start s = rw (let e : start + 0 ≡ start = omega arith in e) refl
total_size-sum h [] (n ∷ ns) start s = absurd s
total_size-sum h (m ∷ ms) [] start s = absurd s
total_size-sum h (m ∷ ms) (n ∷ ns) start (t, at, size, s) =
    let e : (start % u32_mod + t.size) % u32_mod ≡ (start + n) % u32_mod = omega (arith, size) in
    let f : start + n + sum ns ≡ start + (n + sum ns) = omega arith in
    rw (at, e) (total_size-sum h ms ns (start + n) s ∙ rw f refl)

Sizes-retyped :
    (h : Heap) (p : ℕ) (t : SbcType) (kind : BcTypeKind) (members : List BcAggregate)
    (sizes : List ℕ)
    → get_elem? h.types p ≡ some t
    → Sizes h members sizes
    → Sizes (record h { types = set h.types p (record t { kind = kind }) }) members sizes
Sizes-retyped h p t kind [] [] e s = tt
Sizes-retyped h p t kind [] (n ∷ ns) e s = s
Sizes-retyped h p t kind (m ∷ ms) [] e s = s
Sizes-retyped h p t kind (m ∷ ms) (n ∷ ns) e (u, at, size, s) =
    let rest = Sizes-retyped h p t kind ms ns e s in
    elim (Bool-cases (p == m.type)) [
      | inl b ↦
          let here : p ≡ m.type = (==_iff p m.type).0 b in
          let same : u ≡ t = ground (arith, at, e, here) in
          (
            record t { kind = kind },
            rw (← here) (get_elem?-set_self h.types p _ (get_elem?-lt h.types p e)),
            sym (ap SbcType.size same) ∙ size,
            rest,
          )
      | inr b ↦
          let apart : p ≢ m.type = λ x. cc ((==_iff p m.type).1 x, b) in
          (u, get_elem?-set_ne h.types p m.type _ apart ∙ at, size, rest)
    ]

-- `bc_type_aggregate_set_body` on an aggregate type whose members' types are in the heap returns, and
-- gives it these members and, as size and alignment, the sum of their types' sizes modulo 2 ^ 32.
pub bc_type_aggregate_set_body-sum :
    (h : Heap) (p : ℕ) (t : SbcType) (old members : List BcAggregate) (n : ℕ) (name : List ℕ)
    (sizes : List ℕ)
    → get_elem? h.types p ≡ some t
    → t.kind ≡ BcTypeKind.aggregate old n name
    → Sizes h members sizes
    → (h' : Heap) × (bc_type_aggregate_set_body p members (length members) h ≡ some (tt, h'))
      × (get_elem? h'.types p
          ≡ some (record t {
            kind = BcTypeKind.aggregate members (length members) name;
            size = sum sizes % u32_mod;
            alignment = sum sizes % u32_mod;
          }))
unfolding bc_type_aggregate_set_body
bc_type_aggregate_set_body-sum h p t old members n name sizes e k s =
    let kind = BcTypeKind.aggregate members (length members) name in
    let u = record t { kind = kind } in
    let u' = record u { size = sum sizes % u32_mod; alignment = sum sizes % u32_mod } in
    let h₁ = record h { types = set h.types p u } in
    let total = total_size-sum h₁ members sizes 0 (Sizes-retyped h p t kind members sizes e s) in
    let z : 0 + sum sizes ≡ sum sizes = omega arith in
    let inside : p < length (set h.types p u) =
      omega (arith, length-set h.types p u, get_elem?-lt h.types p e) in
    (
      record h { types = set (set h.types p u) p u' },
      rw (e, k, ◌>>=◌, total, z) refl,
      get_elem?-set_self (set h.types p u) p u' inside,
    )

abbrev pub parameter_value : ℕ → ℕ → SbcValue
parameter_value i type = record { kind = BcValueKind.parameter i; type = type }

-- The parameters of these types, numbered from `i`.
abbrev Parameters : ℕ → ℕ → List ℕ → List SbcValue → Type 0
Parameters n i types values =
    (j t : ℕ)
    → j < n
    → get_elem? types j ≡ some t
    → get_elem? values j ≡ some (parameter_value (i + j) t)

cons_parameter :
    {n : ℕ} (i t : ℕ) (ts : List ℕ) (more : List SbcValue)
    → Parameters n (i + 1) ts more
    → Parameters (suc n) i (t ∷ ts) (parameter_value i t ∷ more)
cons_parameter i t ts more at zero u lt e =
    let same : t ≡ u = ground (arith, e) in rw (same, let z : i + 0 ≡ i = omega arith in z) refl
cons_parameter i t ts more at (suc j) u lt e =
    rw (let z : i + suc j ≡ i + 1 + j = omega arith in z) (at j u (omega arith) e)

make_parameters-values :
    (h : Heap) (n i : ℕ) (types : List ℕ)
    → n ≤ length types
    → (more : List SbcValue) × (make_parameters n types i h
        ≡ some (tt, record h { values = h.values ++ more }))
      × (length more ≡ n)
      × Parameters n i types more
unfolding make_parameters
make_parameters-values h zero i types le = (
  [],
  ap (λ t. some (tt, record h { values = t })) (sym (append-nil h.values)),
  refl,
  λ j t l. absurd (omega arith),
)
make_parameters-values h (suc n) i [] le = absurd (omega arith)
make_parameters-values h (suc n) i (t ∷ ts) le =
    let v = parameter_value i t in
    let (more, run, len, at) =
      make_parameters-values (record h { values = h.values ++ v ∷ [] }) n (i + 1) ts
        (omega arith) in
    (
      v ∷ more,
      run ∙ ap (λ t. some (tt, record h { values = t })) (append_assoc h.values (v ∷ []) more),
      omega (arith, len),
      cons_parameter i t ts more at,
    )

-- For a function whose signature has its parameters' types, `bc_value_get_parameter` returns. Called
-- again, for whichever parameter, it creates nothing: the heap is as the first call left it, and the
-- parameter stands next to the first one's place; it has its number, and its type of the signature.
pub bc_value_get_parameter-again :
    (h : Heap) (p index : ℕ) (f : SbcFunction) (t : SbcType) (result n : ℕ) (types : List ℕ)
    (variadic : Bool)
    → get_elem? h.functions p ≡ some f
    → f.params ≡ none
    → get_elem? h.types f.signature ≡ some t
    → t.kind ≡ BcTypeKind.function result types n variadic
    → n ≤ length types
    → (h' : Heap) × (first : ℕ) × (bc_value_get_parameter p index h ≡ some (first + index, h'))
      × ((j u : ℕ)
          → j < n
          → get_elem? types j ≡ some u
          → (bc_value_get_parameter p j h' ≡ some (first + j, h'))
            × (get_elem? h'.values (first + j) ≡ some (parameter_value j u)))
unfolding bc_value_get_parameter
bc_value_get_parameter-again h p index f t result n types variadic e fresh signature kind le =
    let (more, run, len, at) = make_parameters-values h n 0 types le in
    let f' = record f { params = some (length h.values) } in
    let h' = record h { values = h.values ++ more; functions = set h.functions p f' } in
    let stored : get_elem? h'.functions p ≡ some f' =
      get_elem?-set_self h.functions p f' (get_elem?-lt h.functions p e) in
    (
      h',
      length h.values,
      rw (e, fresh, ◌>>=◌, signature, kind, run) refl,
      λ j u lt a. (
        rw (bc_value_get_parameter, ◌>>=◌, read, found, function_cells, stored) refl,
        get_elem?-append_right h.values more j
            ∙ (at j u lt a ∙ rw (let z : 0 + j ≡ j = omega arith in z) refl),
      ),
    )
