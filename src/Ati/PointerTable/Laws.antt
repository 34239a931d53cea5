-- ===== src/Ati/PointerTable/Laws.antt =====
-- The pointer table of source/ati/table.c as a map from addresses to addresses.
use atcc.Prelude.{ℕ, ◌^◌, ◌≤◌, ◌≡◌, ◌==◌, Bool, false, some, if◌then◌else◌}
use atcc.Ati.PointerTable.{pointer_key, PointerTable, pointer_table_get, pointer_table_set}
use atcc.Ati.Table.Methods.{IsValid, get-assign}

-- Setting a key that is not null in a valid pointer table of at most 2 ^ 30 slots returns a valid
-- table, and then every key that is not null reads the new value if it is the key that was set, and
-- what it read before otherwise.
pub pointer_table_get-set :
    (t : PointerTable) (key value : ℕ)
    → IsValid t
    → (key == 0) ≡ false
    → t.capacity ≤ 2 ^ 30
    → (r : PointerTable × Bool) × (pointer_table_set t key value ≡ some r)
      × IsValid r.0
      × ((a : ℕ)
          → (a == 0) ≡ false
          → pointer_table_get r.0 a ≡ (if key == a then some value else pointer_table_get t a))
unfolding pointer_table_get pointer_table_set
pointer_table_get-set t key value v h small = get-assign key value v h small
