-- ===== src/Types/Kinds.antt =====
-- `TypeKind` of source/atcc.h.
use atcc.Prelude.{ℕ}

pub data TypeKind : Type 0 where
  none void i8 u8 i16 u16 i32 u32 i64 u64 f32 f64 : TypeKind
  pointer function string array aggregate : TypeKind

-- the place in the enum
abbrev pub ordinal : TypeKind → ℕ
ordinal TypeKind.none = 0
ordinal TypeKind.void = 1
ordinal TypeKind.i8 = 2
ordinal TypeKind.u8 = 3
ordinal TypeKind.i16 = 4
ordinal TypeKind.u16 = 5
ordinal TypeKind.i32 = 6
ordinal TypeKind.u32 = 7
ordinal TypeKind.i64 = 8
ordinal TypeKind.u64 = 9
ordinal TypeKind.f32 = 10
ordinal TypeKind.f64 = 11
ordinal TypeKind.pointer = 12
ordinal TypeKind.function = 13
ordinal TypeKind.string = 14
ordinal TypeKind.array = 15
ordinal TypeKind.aggregate = 16
