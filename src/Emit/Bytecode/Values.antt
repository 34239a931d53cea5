-- ===== src/Emit/Bytecode/Values.antt =====
-- Types, values, functions and blocks of source/emit/bytecode.c.
use atcc.Prelude.{
  ℕ, zero, suc, ◌+◌, ◌*◌, ◌%◌, Bool, true, false, not, Option, none, some, List, [], ◌∷◌, ◌++◌,
  ◌==◌, length, u32_mod,
}
use atcc.Ati.Strings.{Bytes}
use atcc.Emit.Bytecode.{
  BcTypeKind, SbcType, BcValueKind, Heap, Build, pure, ◌>>=◌, ◌>>◌, fail, assert, read, write, make,
  get_context, put_context, type_cells, value_cells, function_cells,
}

abbrev pub pointer_size : ℕ
pointer_size = 8

-- where the static types are
abbrev pub bc_type_void : ℕ
bc_type_void = 0

abbrev pub bc_type_i8 : ℕ
bc_type_i8 = 1

abbrev pub bc_type_u8 : ℕ
bc_type_u8 = 2

abbrev pub bc_type_i16 : ℕ
bc_type_i16 = 3

abbrev pub bc_type_u16 : ℕ
bc_type_u16 = 4

abbrev pub bc_type_i32 : ℕ
bc_type_i32 = 5

abbrev pub bc_type_u32 : ℕ
bc_type_u32 = 6

abbrev pub bc_type_i64 : ℕ
bc_type_i64 = 7

abbrev pub bc_type_u64 : ℕ
bc_type_u64 = 8

abbrev pub bc_type_f32 : ℕ
bc_type_f32 = 9

abbrev pub bc_type_f64 : ℕ
bc_type_f64 = 10

abbrev pub base_type : ℕ → Bool → Bool → SbcType
base_type size is_signed is_floating = record {
  kind = BcTypeKind.base;
  size = size;
  alignment = size;
  is_signed = is_signed;
  is_floating = is_floating;
  emit_index = 0;
}

abbrev pub base_types : List SbcType
base_types =
    base_type 0 false false
    ∷ base_type 1 true false
    ∷ base_type 1 false false
    ∷ base_type 2 true false
    ∷ base_type 2 false false
    ∷ base_type 4 true false
    ∷ base_type 4 false false
    ∷ base_type 8 true false
    ∷ base_type 8 false false
    ∷ base_type 4 true true
    ∷ base_type 8 true true
    ∷ []

-- the heap before anything is built, with `bc_context_initialize` run
abbrev pub bc_context_initialize : Heap
bc_context_initialize = record {
  types = base_types;
  values = [];
  codes = [];
  blocks = [];
  functions = [];
  context = record { arrays = []; aggregates = []; strings = []; functions = []; global_size = 0 };
}

unfoldable pub bc_value_make : ℕ → ℕ → Build ℕ
bc_value_make function type = do
  f ← read function_cells function
  value ← make value_cells (record { kind = BcValueKind.temporary f.last_temporary; type = type })
  write function_cells function (record f { last_temporary = (f.last_temporary + 1) % u32_mod })
  pure value

unfoldable pub bc_value_make_consti : ℕ → ℕ → Build ℕ
bc_value_make_consti type value = do
  assert (not (type == bc_type_void))
  t ← read type_cells type
  assert (not t.is_floating)
  make value_cells (record { kind = BcValueKind.constant value; type = type })

unfoldable pub bc_value_make_constf : ℕ → ℕ → Build ℕ
bc_value_make_constf type value = do
  assert (not (type == bc_type_void))
  t ← read type_cells type
  assert t.is_floating
  make value_cells (record { kind = BcValueKind.constant value; type = type })

abbrev blank_type : BcTypeKind → ℕ → SbcType
blank_type kind size = record {
  kind = kind;
  size = size;
  alignment = size;
  is_signed = false;
  is_floating = false;
  emit_index = 0;
}

unfoldable pub bc_type_pointer : ℕ → Build ℕ
bc_type_pointer type = make type_cells (blank_type (BcTypeKind.pointer type) pointer_size)

unfoldable pub bc_value_make_string : ℕ → Bytes → Build ℕ
unfolding bc_type_pointer
bc_value_make_string type string = do
  pointer ← bc_type_pointer type
  c ← get_context
  constant ←
      make value_cells
        (record { kind = BcValueKind.string string (length c.strings); type = pointer })
  put_context (record c { strings = c.strings ++ constant ∷ [] })
  pure constant

-- C allocates the phi before its result; only the two places differ.
unfoldable pub bc_value_make_phi : ℕ → ℕ → Build ℕ
unfolding bc_value_make
bc_value_make_phi function type = do
  result ← bc_value_make function type
  make value_cells (record { kind = BcValueKind.phi result [] [] 0; type = type })

-- The parameters stand next to each other; the pointer to the first is returned.
unfoldable pub make_parameters : ℕ → List ℕ → ℕ → Build (Unit {0})
make_parameters zero types i = pure tt
make_parameters (suc n) [] i = fail
make_parameters (suc n) (t ∷ ts) i = do
  p ← make value_cells (record { kind = BcValueKind.parameter i; type = t })
  make_parameters n ts (i + 1)

abbrev pub next_value : Build ℕ
next_value h = some (length h.values, h)

abbrev pub parameter_types : SbcType → Build (ℕ × List ℕ)
parameter_types t = elim t.kind [
  | BcTypeKind.function result params n v ↦ pure (n, params)
  | BcTypeKind.base ↦ fail
  | BcTypeKind.pointer b ↦ fail
  | BcTypeKind.array e c d ↦ fail
  | BcTypeKind.aggregate m n s ↦ fail
]

unfoldable pub bc_value_get_parameter : ℕ → ℕ → Build ℕ
unfolding make_parameters
bc_value_get_parameter function index = do
  f ← read function_cells function
  let make_params : Build ℕ = (do
    t ← read type_cells f.signature
    (n, types) ← parameter_types t
    first ← next_value
    make_parameters n types 0
    write function_cells function (record f { params = some first })
    pure (first + index))
  elim f.params [ some first ↦ pure (first + index) | none ↦ make_params ]

-- the size and alignment; the count and the element are looked at only where C does
unfoldable pub array_size : ℕ → Option ℕ → Bool → Build ℕ
array_size type size true = pure (pointer_size * 2)
array_size type none false = pure (pointer_size * 2)
array_size type (some size) false = do
  v ← read value_cells size
  elim v.kind [
    | BcValueKind.constant storage ↦ do
      t ← read type_cells type
      pure ((t.size * (storage % u32_mod) + pointer_size) % u32_mod)
    | BcValueKind.string s i ↦ pure 0
    | BcValueKind.parameter i ↦ pure 0
    | BcValueKind.temporary i ↦ pure 0
    | BcValueKind.phi r v b n ↦ pure 0
    | BcValueKind.local i ↦ pure 0
    | BcValueKind.global i ↦ pure 0
    | BcValueKind.function i ↦ pure 0
  ]

unfoldable pub bc_type_array : ℕ → Option ℕ → Bool → Build ℕ
bc_type_array type size is_dynamic = do
  n ← array_size type size is_dynamic
  c ← get_context
  array ← make type_cells (record (blank_type (BcTypeKind.array type size is_dynamic) n) {
    emit_index = length c.arrays % u32_mod;
  })
  put_context (record c { arrays = c.arrays ++ array ∷ [] })
  pure array

unfoldable pub bc_type_function : ℕ → List ℕ → ℕ → Build ℕ
bc_type_function result params num_params =
    make type_cells (blank_type (BcTypeKind.function result params num_params false) pointer_size)

unfoldable pub bc_type_aggregate : Bytes → Build ℕ
bc_type_aggregate name = do
  aggregate ← make type_cells (blank_type (BcTypeKind.aggregate [] 0 name) 0)
  c ← get_context
  put_context (record c { aggregates = c.aggregates ++ aggregate ∷ [] })
  pure aggregate
