-- ===== src/Prelude/Ctype.antt =====
-- The character classes of <ctype.h> in the C locale, on bytes.
use atcc.Prelude.{leb, ◌==◌}
use Prim.Native.Nat.{ℕ}
use mathlib.Core.Bool.{Bool, ◌&&◌, ◌||◌}

abbrev pub within : ℕ → ℕ → ℕ → Bool
within lo hi c = leb lo c && leb c hi

abbrev pub isdigit : ℕ → Bool
isdigit c = within b'0' b'9' c

abbrev pub isalpha : ℕ → Bool
isalpha c = within b'a' b'z' c || within b'A' b'Z' c

abbrev pub isalnum : ℕ → Bool
isalnum c = isalpha c || isdigit c

abbrev pub isxdigit : ℕ → Bool
isxdigit c = isdigit c || (within b'a' b'f' c || within b'A' b'F' c)

abbrev pub isspace : ℕ → Bool
isspace c = c == b' ' || within 9 13 c
