-- ===== src/Ati/Table.antt =====
-- The open-addressing tables of source/ati/table.c. The string table and the pointer table are two
-- copies of one algorithm, which is written here once, over a record `Key` of what differs: the
-- comparison, the hash and the test for an unused key. A `void *` value is its address, null is 0.
-- A search that never ends is `none`: after `capacity` rounds the index has been at every slot.
pub mod Probe
pub mod Write
pub mod Placed
pub mod Resize
pub mod Methods
use Prim.Native.Nat.{bit_and}
use atcc.Prelude.{
  ℕ, zero, suc, ◌+◌, ◌-◌, ◌*◌, ◌%◌, ◌≡◌, ◌↔◌, Bool, true, false, ◌&&◌, Option, none, some, List, [],
  ◌∷◌, ltb, if◌then◌else◌, ◌>>=◌, get_or, set, replicate, u32_mod,
}

pub record Key (K : Type 0) : Type 0 where
  pub equal : K → K → Bool
  pub hash : K → ℕ
  pub is_null : K → Bool
  pub blank : K
  pub equal_iff : (a b : K) → (equal a b ≡ true) ↔ (a ≡ b)
  pub is_null-blank : is_null blank ≡ true

pub record Entry (K : Type 0) : Type 0 where
  pub key : K
  pub value : ℕ
  pub empty : Bool

pub record Table (K : Type 0) : Type 0 where
  pub length : ℕ
  pub capacity : ℕ
  pub entries : List (Entry K)

-- `capacity - 1` on a u32
abbrev pub mask : ℕ → ℕ
mask capacity = (capacity + u32_mod - 1) % u32_mod

abbrev pub next : ℕ → ℕ → ℕ
next capacity index = bit_and ((index + 1) % u32_mod) (mask capacity)

-- `tombstone ? tombstone : entry`
abbrev pub or_index : Option ℕ → ℕ → ℕ
or_index none index = index
or_index (some tombstone) index = tombstone

module _ {K : Type 0} ⦃k : Key K⦄ where
  -- what `calloc` leaves in a slot, once `empty` is set
  abbrev pub blank_entry : Entry K
  blank_entry = record { key = k.blank; value = 0; empty = true }

  abbrev pub entry_at : List (Entry K) → ℕ → Entry K
  entry_at entries index = get_or entries index blank_entry

  abbrev pub home : ℕ → K → ℕ
  home capacity key = bit_and (k.hash key) (mask capacity)

  unfoldable pub find_from : ℕ → List (Entry K) → ℕ → K → Option ℕ → ℕ → Option ℕ
  find_from zero entries capacity key tombstone index = none
  find_from (suc fuel) entries capacity key tombstone index =
      let e = entry_at entries index in
      let tombstone' = if k.is_null e.key then some (or_index tombstone index) else tombstone in
      let rest = find_from fuel entries capacity key tombstone' (next capacity index) in
      if k.equal e.key key
      then some index
      else if k.is_null e.key && e.empty
      then some (or_index tombstone index)
      else rest

  -- the index of the entry that the C function returns a pointer to
  unfoldable pub find_entry : List (Entry K) → ℕ → K → Option ℕ
  find_entry entries capacity key = find_from capacity entries capacity key none (home capacity key)

  -- one round of the loop of `resize`, on the new entries and the new length
  unfoldable pub rehash_entry : ℕ → Entry K → List (Entry K) × ℕ → Option (List (Entry K) × ℕ)
  rehash_entry capacity x (fresh, n) = if k.is_null x.key then some (fresh, n) else do
    i ← find_entry fresh capacity x.key
    some (set fresh i (record { key = x.key; value = x.value; empty = false }), (n + 1) % u32_mod)

  unfoldable pub rehash : ℕ → List (Entry K) → List (Entry K) × ℕ → Option (List (Entry K) × ℕ)
  rehash capacity [] s = some s
  rehash capacity (x ∷ xs) s = do s' ← rehash_entry capacity x s; rehash capacity xs s'

  unfoldable pub resize : Table K → ℕ → Option (Table K)
  resize t new_capacity = do
    (fresh, n) ← rehash new_capacity t.entries (replicate new_capacity blank_entry, 0)
    some (record { length = n; capacity = new_capacity; entries = fresh })

  abbrev pub create : Table K
  create = record { length = 0; capacity = 0; entries = [] }

  unfoldable pub get : Table K → K → Option ℕ
  get t key =
      if ltb 0 t.length
      then (do
        i ← find_entry t.entries t.capacity key
        let e = entry_at t.entries i
        some (if k.is_null e.key then 0 else e.value))
      else some 0

  -- the load test is on doubles, which hold both sides exactly
  unfoldable pub grow : Table K → Option (Table K)
  grow t =
      if ltb (t.capacity * 3) ((t.length + 1) % u32_mod * 4)
      then resize t (if ltb t.capacity 8 then 8 else t.capacity * 2 % u32_mod)
      else some t

  unfoldable pub put : Table K → K → ℕ → Option (Table K × Bool)
  put t key value = do
    i ← find_entry t.entries t.capacity key
    let is_new_entry = k.is_null (entry_at t.entries i).key
    some (
      record t {
        length = if is_new_entry then (t.length + 1) % u32_mod else t.length;
        entries = set t.entries i (record { key = key; value = value; empty = false });
      },
      is_new_entry,
    )

  unfoldable pub assign : Table K → K → ℕ → Option (Table K × Bool)
  assign t key value = do t' ← grow t; put t' key value
