-- ===== src/Ati/Strings.antt =====
-- source/ati/string.h and string.c. A string is the list of its `length` bytes, each below 256; the
-- C library's `memcmp` and `memcpy` act on such lists. Allocation does not fail.
pub mod Match
pub mod Split
use atcc.Prelude.{
  ℕ, zero, suc, ◌+◌, ◌-◌, ◌%◌, Bool, true, false, ◌&&◌, Option, none, some, List, [], ◌∷◌, ◌++◌,
  ltb, ◌==◌, if◌then◌else◌, length, take, drop, u64_mod,
}

abbrev pub Bytes : Type 0
Bytes = List ℕ

-- `!memcmp(a, b, n)`
pub memcmp_zero : ℕ → Bytes → Bytes → Bool
memcmp_zero zero a b = true
memcmp_zero (suc n) (x ∷ a) (y ∷ b) = x == y && memcmp_zero n a b
memcmp_zero (suc n) _ _ = false

unfoldable pub string_match : Bytes → Bytes → Bool
unfolding memcmp_zero
string_match s1 s2 = if length s1 == length s2 then memcmp_zero (length s1) s1 s2 else false

-- The bytes before the terminating 0 of a C string.
unfoldable pub string_from_cstring : Bytes → Bytes
string_from_cstring [] = []
string_from_cstring (c ∷ cs) = if c == 0 then [] else c ∷ string_from_cstring cs

abbrev pub string_to_cstring : Bytes → Bytes
string_to_cstring s = s ++ 0 ∷ []

unfoldable pub string_match_cstring : Bytes → Bytes → Bool
string_match_cstring s1 s2 = string_match s1 (string_from_cstring s2)

unfoldable pub string_append : Bytes → Bytes → Bytes
string_append s1 s2 = s1 ++ s2

unfoldable pub string_append_cstring : Bytes → Bytes → Bytes
unfolding string_append
string_append_cstring s cstr = string_append s (string_from_cstring cstr)

-- `rawstr(s.data + i, n)`
abbrev pub slice : Bytes → ℕ → ℕ → Bytes
slice s i n = take n (drop i s)

-- The piece that is left when the loop ends.
abbrev pub split_rest : Bytes → ℕ → List Bytes → List Bytes
split_rest s start result =
    if ltb start (length s) then result ++ slice s start (length s - start) ∷ [] else result

-- The loop of `string_split`; `none` means that the fuel ran out. `i += delimiter.length - 1` and
-- the `i++` of the loop wrap.
unfoldable pub split_from : ℕ → Bytes → Bytes → ℕ → ℕ → List Bytes → Option (List Bytes)
split_from zero s delimiter i start result = none
split_from (suc fuel) s delimiter i start result =
    let i' = (i + (length delimiter + u64_mod - 1) % u64_mod) % u64_mod in
    let matched =
      split_from fuel s delimiter ((i' + 1) % u64_mod) ((i' + 1) % u64_mod)
        (result ++ slice s start ((i + u64_mod - start) % u64_mod) ∷ []) in
    let onward = split_from fuel s delimiter ((i + 1) % u64_mod) start result in
    if ltb i (length s)
    then (if ltb (length s) ((i + length delimiter) % u64_mod)
        then some (split_rest s start result)
        else if string_match (slice s i (length delimiter)) delimiter
        then matched
        else onward)
    else some (split_rest s start result)

unfoldable pub string_split : Bytes → Bytes → Option (List Bytes)
unfolding split_from
string_split s delimiter = split_from (suc (length s)) s delimiter 0 0 []
