-- ===== src/Ati/PointerTable.antt =====
-- The pointer table of source/ati/table.c: the table over addresses, with null (0) as the unused key.
pub mod Laws
use atcc.Prelude.{ℕ, Bool, ◌≡◌, refl, ◌==◌, ==_iff, Option}
use atcc.Ati.Table
use atcc.Ati.Table.{Key, Table, Entry}

instance abbrev pub pointer_key : Key ℕ
pointer_key = record {
  equal = λ a b. a == b;
  hash = λ a. a;
  is_null = λ a. a == 0;
  blank = 0;
  equal_iff = ==_iff;
  is_null-blank = refl;
}

abbrev pub PointerTableEntry : Type 0
PointerTableEntry = Entry ℕ

abbrev pub PointerTable : Type 0
PointerTable = Table ℕ

unfoldable pub pointer_table_create : PointerTable
pointer_table_create = Table.create

-- `free` and the reset of the header
unfoldable pub pointer_table_destroy : PointerTable → PointerTable
pointer_table_destroy t = Table.create

unfoldable pub pointer_table_get : PointerTable → ℕ → Option ℕ
pointer_table_get = Table.get

unfoldable pub pointer_table_set : PointerTable → ℕ → ℕ → Option (PointerTable × Bool)
pointer_table_set = Table.assign
