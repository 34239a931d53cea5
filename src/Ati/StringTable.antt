-- ===== src/Ati/StringTable.antt =====
-- The string table of source/ati/table.c: the table over strings, with the empty string as the unused
-- key, and the removal that only this table has.
pub mod Laws
pub mod Remove
use Prim.Native.Nat.{bit_and}
use atcc.Prelude.{
  ℕ, ◌+◌, ◌-◌, ◌*◌, ◌%◌, ◌^◌, Bool, true, false, ◌≡◌, refl, ltb, ◌==◌, if◌then◌else◌, ◌>>=◌, Option,
  none, some, List, [], ◌∷◌, length, set, u32_mod, u64_mod,
}
use atcc.Ati.Strings.Match.{string_match_iff}
use atcc.Ati.Strings.{Bytes, string_match}
use atcc.Ati.Table
use atcc.Ati.Table.{Key, Table, Entry, entry_at, find_entry}

-- An `i8` byte as a `u64`: the sign is extended.
abbrev pub extend_i8 : ℕ → ℕ
extend_i8 c = if ltb c 128 then c else c + u64_mod - 256

hash_from : ℕ → Bytes → ℕ
hash_from hash [] = hash
hash_from hash (c ∷ cs) =
    hash_from (((hash * 2 ^ 5 % u64_mod + hash) % u64_mod + extend_i8 c) % u64_mod) cs

unfoldable pub string_hash : Bytes → ℕ
unfolding hash_from
string_hash = hash_from 5381

instance abbrev pub string_key : Key Bytes
string_key = record {
  equal = string_match;
  hash = string_hash;
  is_null = λ s. length s == 0;
  blank = [];
  equal_iff = string_match_iff;
  is_null-blank = refl;
}

abbrev pub StringTableEntry : Type 0
StringTableEntry = Entry Bytes

abbrev pub StringTable : Type 0
StringTable = Table Bytes

unfoldable pub string_table_create : StringTable
string_table_create = Table.create

-- `free` and the reset of the header
unfoldable pub string_table_destroy : StringTable → StringTable
string_table_destroy t = Table.create

unfoldable pub string_table_get : StringTable → Bytes → Option ℕ
string_table_get = Table.get

unfoldable pub string_table_set : StringTable → Bytes → ℕ → Option (StringTable × Bool)
string_table_set = Table.assign

unfoldable pub string_table_remove : StringTable → Bytes → Option (StringTable × Bool)
string_table_remove t key = if t.length == 0 then some (t, false) else do
  i ← find_entry t.entries t.capacity key
  let e = entry_at t.entries i
  let removed = record t {
    length = (t.length + u32_mod - 1) % u32_mod;
    entries = set t.entries i (record { key = []; value = 0; empty = true });
  }
  some (if length e.key == 0 then (t, false) else (removed, true))
