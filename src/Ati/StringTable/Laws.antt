-- ===== src/Ati/StringTable/Laws.antt =====
-- The string table of source/ati/table.c as a map from strings to addresses.
use atcc.Prelude.{ℕ, ◌+◌, ◌^◌, ◌≤◌, ◌≡◌, ◌==◌, Bool, false, some, if◌then◌else◌, length}
use atcc.Ati.Strings.{Bytes, string_match}
use atcc.Ati.StringTable.{string_key, StringTable, string_table_get, string_table_set}
use atcc.Ati.Table.Methods.{IsValid, is_none, assign-Stores, get-assign}
use atcc.Ati.Table.Write.{view}

-- Setting a key that is not empty in a valid string table of at most 2 ^ 30 slots returns a valid
-- table, and then every key that is not empty reads the new value if it matches the key that was
-- set, and what it read before otherwise.
pub string_table_get-set :
    (t : StringTable) (key : Bytes) (value : ℕ)
    → IsValid t
    → (length key == 0) ≡ false
    → t.capacity ≤ 2 ^ 30
    → (r : StringTable × Bool) × (string_table_set t key value ≡ some r)
      × IsValid r.0
      × ((a : Bytes)
          → (length a == 0) ≡ false
          → string_table_get r.0 a
            ≡ (if string_match key a then some value else string_table_get t a))
unfolding string_table_get string_table_set
string_table_get-set t key value v h small = get-assign key value v h small

-- `string_table_set` on a valid table of at most 2 ^ 30 slots and a key that is not empty returns
-- true exactly when no entry holds the key, and counts one entry more exactly then.
pub string_table_set-is_new :
    (t : StringTable) (key : Bytes) (value : ℕ)
    → IsValid t
    → (length key == 0) ≡ false
    → t.capacity ≤ 2 ^ 30
    → (r : StringTable × Bool) × (string_table_set t key value ≡ some r)
      × (r.1 ≡ is_none (view t.entries key))
      × (r.0.length ≡ (if is_none (view t.entries key) then t.length + 1 else t.length))
unfolding string_table_set
string_table_set-is_new t key value v h small =
    let (r, run, st) = assign-Stores key value v h small in (r, run, st.is_new, st.length)
