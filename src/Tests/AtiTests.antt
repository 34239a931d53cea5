-- ===== src/Tests/AtiTests.antt =====
-- Runs of source/ati, and its theorems at examples. In a table of eight slots the strings "a" and "i"
-- have the same home.
use mathlib.Core.Path.{subst}
use atcc.Prelude.{
  ℕ, ◌^◌, ◌≤◌, ◌+◌, ◌≡◌, refl, arith, Bool, true, false, some, List, [], ◌∷◌, ◌++◌, if◌then◌else◌,
  ◌==◌, length, replicate,
}
use atcc.Ati.Strings.Split.{Rejoins, split-Rejoins}
use atcc.Ati.Strings.{Bytes, string_match, string_split}
use atcc.Ati.PointerTable.Laws.{pointer_table_get-set}
use atcc.Ati.PointerTable.{
  pointer_key, PointerTable, pointer_table_create, pointer_table_get, pointer_table_set,
}
use atcc.Ati.StringTable.Laws.{string_table_get-set, string_table_set-is_new}
use atcc.Ati.StringTable.Remove.{get-remove, remove_loses}
use atcc.Ati.StringTable.{
  string_key, StringTable, StringTableEntry, string_hash, string_table_create, string_table_get,
  string_table_set, string_table_remove,
}
use atcc.Ati.Table.Methods.{IsValid, create-IsValid, is_none}
use atcc.Ati.Table.Placed.{IsPlaced, Finds, find_entry-Finds}
use atcc.Ati.Table.Probe.{IsSized}
use atcc.Ati.Table.Resize.{resize-Moved}
use atcc.Ati.Table.Write.{view}
use atcc.Ati.Table.{
  find_entry, home, find_from, grow, put, get, assign, resize, rehash, rehash_entry,
}

runs : Unit {0}
unfolding find_entry find_from grow put get assign resize rehash rehash_entry string_hash
    string_match string_split string_table_get string_table_set string_table_remove
    string_table_create pointer_table_get pointer_table_set pointer_table_create
runs = tt

abbrev letter_a : Bytes
letter_a = b'a' ∷ []

abbrev letter_i : Bytes
letter_i = b'i' ∷ []

-- the table that a run of `string_table_set` leaves is valid
IsValid-after :
    {t : StringTable} (t' : StringTable) (key : Bytes) (value : ℕ) {fresh : Bool}
    → IsValid t
    → (length key == 0) ≡ false
    → t.capacity ≤ 2 ^ 30
    → string_table_set t key value ≡ some (t', fresh)
    → IsValid t'
IsValid-after {t} t' key value {fresh} v named small run =
    let (r, run', v', reads) = string_table_get-set t key value v named small in
    let same : r.0 ≡ t' = ground (arith, run', run) in subst (λ u. IsValid u) same v'

abbrev empty_entry : StringTableEntry
empty_entry = record { key = []; value = 0; empty = true }

abbrev entry : Bytes → ℕ → StringTableEntry
entry key value = record { key = key; value = value; empty = false }

-- "a" in its home, which is slot 6
abbrev one : StringTable
one = record {
  length = 1;
  capacity = 8;
  entries = replicate 6 empty_entry ++ entry letter_a 7 ∷ empty_entry ∷ [];
}

-- "a" in its home, and "i" behind it
abbrev two : StringTable
two = record {
  length = 2;
  capacity = 8;
  entries = replicate 6 empty_entry ++ entry letter_a 7 ∷ entry letter_i 9 ∷ [];
}

one-runs : string_table_set string_table_create letter_a 7 ≡ some (one, true)
unfolding runs
one-runs = refl

two-runs : string_table_set one letter_i 9 ≡ some (two, true)
unfolding runs
two-runs = refl

created-IsValid : IsValid string_table_create
unfolding string_table_create
created-IsValid = create-IsValid

one-IsValid : IsValid one
unfolding string_table_create
one-IsValid = IsValid-after one letter_a 7 created-IsValid refl (omega arith) one-runs

two-IsValid : IsValid two
two-IsValid = IsValid-after two letter_i 9 one-IsValid refl (omega arith) two-runs

string_table_get-set_example :
    (r : StringTable × Bool) × (string_table_set one letter_i 9 ≡ some r)
    × IsValid r.0
    × ((a : Bytes)
        → (length a == 0) ≡ false
        → string_table_get r.0 a
          ≡ (if string_match letter_i a then some 9 else string_table_get one a))
string_table_get-set_example = string_table_get-set one letter_i 9 one-IsValid refl (omega arith)

string_table_set-is_new_example :
    (r : StringTable × Bool) × (string_table_set two letter_i 4 ≡ some r)
    × (r.1 ≡ is_none (view two.entries letter_i))
    × (r.0.length ≡ (if is_none (view two.entries letter_i) then two.length + 1 else two.length))
string_table_set-is_new_example =
    string_table_set-is_new two letter_i 4 two-IsValid refl (omega arith)

get-remove_example :
    (r : StringTable × Bool) × (string_table_remove two letter_i ≡ some r)
    × (r.1 ≡ true)
    × (string_table_get r.0 letter_i ≡ some 0)
unfolding string_match
get-remove_example = get-remove two-IsValid letter_i refl {value = 9} refl

two-finds : find_entry two.entries 8 letter_a ≡ some (home 8 letter_i)
unfolding runs
two-finds = refl

-- "i" is behind "a", and is lost with it.
remove_loses_example :
    (r : StringTable × Bool) × (string_table_remove two letter_a ≡ some r)
    × (string_table_get r.0 letter_i ≡ some 0)
unfolding string_match
remove_loses_example = remove_loses two-IsValid letter_a refl {value = 7} refl letter_i two-finds

eight-IsSized : IsSized 8
eight-IsSized = record { bits = 3; power = refl; least = omega arith; most = omega arith }

sixteen-IsSized : IsSized 16
sixteen-IsSized = record { bits = 4; power = refl; least = omega arith; most = omega arith }

find_entry-Finds_example : (j : ℕ) × Finds 8 two.entries letter_i j
find_entry-Finds_example = find_entry-Finds eight-IsSized two-IsValid.placed (omega arith) letter_i

resize-Moved_example :
    (t' : StringTable) × (resize two 16 ≡ some t')
    × (t'.capacity ≡ 16)
    × (t'.length ≡ 2)
    × IsPlaced 16 2 t'.entries
    × ((q : Bytes) → (length q == 0) ≡ false → view t'.entries q ≡ view two.entries q)
resize-Moved_example = resize-Moved two sixteen-IsSized two-IsValid.placed (omega arith)

created_pointers-IsValid : IsValid pointer_table_create
unfolding pointer_table_create
created_pointers-IsValid = create-IsValid

created_pointers-small : pointer_table_create.capacity ≤ 2 ^ 30
unfolding pointer_table_create
created_pointers-small = omega arith

pointer_table_get-set_example :
    (r : PointerTable × Bool) × (pointer_table_set pointer_table_create 8 5 ≡ some r)
    × IsValid r.0
    × ((a : ℕ)
        → (a == 0) ≡ false
        → pointer_table_get r.0 a
          ≡ (if 8 == a then some 5 else pointer_table_get pointer_table_create a))
pointer_table_get-set_example =
    pointer_table_get-set pointer_table_create 8 5 created_pointers-IsValid refl
      created_pointers-small

split-Rejoins_example :
    (r : List Bytes) × (string_split (b'x' ∷ b',' ∷ []) (b',' ∷ []) ≡ some r)
    × Rejoins (b'x' ∷ b',' ∷ []) (b',' ∷ []) r
split-Rejoins_example =
    split-Rejoins (b'x' ∷ b',' ∷ []) (b',' ∷ []) (omega arith) (omega arith) (omega arith)

-- An empty piece at the end is dropped, one in the middle is kept.
splits_lines :
    string_split (b'x' ∷ b',' ∷ b',' ∷ b'y' ∷ b',' ∷ []) (b',' ∷ [])
    ≡ some ((b'x' ∷ []) ∷ [] ∷ (b'y' ∷ []) ∷ [])
unfolding runs
splits_lines = refl
