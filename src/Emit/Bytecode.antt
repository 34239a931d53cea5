-- ===== src/Emit/Bytecode.antt =====
-- The bytecode of source/emit/bytecode.h: the structs, in a heap. A pointer to one is its place in the
-- list of its kind, null is `none`, and a union is a data type. The fields that the back ends alone
-- use (backend_data, emit_index of an aggregate) are left out, and so is malloc's failure. Reading
-- through null, a failed `assert` and reading another union member than the one written are `none`.
pub mod Values
pub mod Insns
pub mod Builder
pub mod Arith
pub mod Places
pub mod Appends
pub mod Blocks
pub mod Terminated
pub mod Parameters
use atcc.Prelude.{
  ℕ, zero, suc, ◌+◌, Bool, true, false, Option, none, some, List, [], ◌∷◌, ◌++◌, if◌then◌else◌,
  length, get_elem?, set,
}
use atcc.Ati.Strings.{Bytes}

pub data BcOpcode : Type 0 where
  nop load store get_field get_index : BcOpcode
  add sub mul div «mod» neg not and or xor shl shr eq ne lt gt le ge : BcOpcode
  jump jump_if phi call return : BcOpcode
  cast_bitwise cast_int_to_ptr cast_ptr_to_int cast_int_trunc cast_int_zext : BcOpcode
  cast_int_sext cast_fp_extend cast_fp_trunc cast_fp_to_sint cast_fp_to_uint : BcOpcode
  cast_sint_to_fp cast_uint_to_fp : BcOpcode

pub record BcAggregate : Type 0 where
  pub type : ℕ
  pub name : Bytes
  pub offset : ℕ

-- `BCTypeKind`, each kind with its member of the union
pub data BcTypeKind : Type 0 where
  base : BcTypeKind
  pointer : ℕ → BcTypeKind
  array : ℕ → Option ℕ → Bool → BcTypeKind
  function : ℕ → List ℕ → ℕ → Bool → BcTypeKind
  aggregate : List BcAggregate → ℕ → Bytes → BcTypeKind

pub record SbcType : Type 0 where
  pub kind : BcTypeKind
  pub size : ℕ
  pub alignment : ℕ
  pub is_signed : Bool
  pub is_floating : Bool
  pub emit_index : ℕ

-- `BCValueKind`, each kind with its member of the union; a floating constant is its bits
pub data BcValueKind : Type 0 where
  constant : ℕ → BcValueKind
  string : Bytes → ℕ → BcValueKind
  parameter : ℕ → BcValueKind
  temporary : ℕ → BcValueKind
  phi : ℕ → List ℕ → List ℕ → ℕ → BcValueKind
  local : ℕ → BcValueKind
  global : ℕ → BcValueKind
  function : ℕ → BcValueKind

pub record SbcValue : Type 0 where
  pub kind : BcValueKind
  pub type : ℕ

-- The union of an instruction. `regA`, `regC`, `target` and `phi_value` are one place, the first.
pub data Operands : Type 0 where
  regs : Option ℕ → Option ℕ → Option ℕ → Operands
  branch : Option ℕ → Option ℕ → Option ℕ → Operands
  call : Option ℕ → Option ℕ → List ℕ → ℕ → Operands
  phi_value : Option ℕ → Operands

pub record SbcCode : Type 0 where
  pub block : ℕ
  pub opcode : BcOpcode
  pub flags : ℕ
  pub operands : Operands

pub record SbcBlock : Type 0 where
  pub serial : ℕ
  pub prev : Option ℕ
  pub next : Option ℕ
  pub code : List ℕ
  pub input : Option ℕ

pub record SbcFunction : Type 0 where
  pub signature : ℕ
  pub name : Bytes
  pub is_extern : Bool
  pub is_variadic : Bool
  pub first_block : Option ℕ
  pub last_block : Option ℕ
  pub current_block : Option ℕ
  pub params : Option ℕ
  pub locals : List ℕ
  pub last_temporary : ℕ
  pub last_block_serial : ℕ
  pub stack_size : ℕ

pub record SbcContext : Type 0 where
  pub arrays : List ℕ
  pub aggregates : List ℕ
  pub strings : List ℕ
  pub functions : List ℕ
  pub global_size : ℕ

-- everything that was allocated, and the one context
pub record Heap : Type 0 where
  pub types : List SbcType
  pub values : List SbcValue
  pub codes : List SbcCode
  pub blocks : List SbcBlock
  pub functions : List SbcFunction
  pub context : SbcContext

abbrev pub Build : Type 0 → Type 0
Build A = Heap → Option (A × Heap)

abbrev pub pure : {A : Type 0} → A → Build A
pure a h = some (a, h)

infixl 5 ◌>>=◌ ◌>>◌
abbrev pub ◌>>=◌ : {A B : Type 0} → Build A → (A → Build B) → Build B
◌>>=◌ m f h = elim (m h) [ none ↦ none | some (a, h') ↦ f a h' ]

abbrev pub ◌>>◌ : {B : Type 0} → Build (Unit {0}) → Build B → Build B
m >> k = m >>= λ _. k

abbrev pub fail : {A : Type 0} → Build A
fail h = none

-- a pointer that is read through
abbrev pub deref : {A : Type 0} → Option A → Build A
deref none = fail
deref (some a) = pure a

abbrev pub assert : Bool → Build (Unit {0})
assert b h = if b then some (tt, h) else none

abbrev pub found : {A : Type 0} → Option A → Heap → Option (A × Heap)
found none h = none
found (some a) h = some (a, h)

-- the part of the heap that holds one kind of struct
pub record Cells (A : Type 0) : Type 0 where
  pub cells : Heap → List A
  pub with_cells : Heap → List A → Heap

abbrev pub type_cells : Cells SbcType
type_cells = record { cells = λ h. h.types; with_cells = λ h xs. record h { types = xs } }

abbrev pub value_cells : Cells SbcValue
value_cells = record { cells = λ h. h.values; with_cells = λ h xs. record h { values = xs } }

abbrev pub code_cells : Cells SbcCode
code_cells = record { cells = λ h. h.codes; with_cells = λ h xs. record h { codes = xs } }

abbrev pub block_cells : Cells SbcBlock
block_cells = record { cells = λ h. h.blocks; with_cells = λ h xs. record h { blocks = xs } }

abbrev pub function_cells : Cells SbcFunction
function_cells = record {
  cells = λ h. h.functions;
  with_cells = λ h xs. record h { functions = xs };
}

module _ {A : Type 0} (r : Cells A) where
  abbrev pub read : ℕ → Build A
  read p h = found (get_elem? (r.cells h) p) h

  abbrev pub write : ℕ → A → Build (Unit {0})
  write p x h = some (tt, r.with_cells h (set (r.cells h) p x))

  -- `calloc`, and the fields that are set next
  abbrev pub make : A → Build ℕ
  make x h = some (length (r.cells h), r.with_cells h (r.cells h ++ x ∷ []))

abbrev pub get_context : Build SbcContext
get_context h = some (h.context, h)

abbrev pub put_context : SbcContext → Build (Unit {0})
put_context x h = some (tt, record h { context = x })
