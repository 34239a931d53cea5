-- ===== src/Parser/Marks.antt =====
-- Tokens and states for the statements about the parser of source/parser.c.
use atcc.Prelude.{ℕ, zero, suc, Option, List, []}
use atcc.Ati.Strings.{Bytes}
use atcc.Parser.{Parser}
use atcc.Tokens.{TokenKind, Location, Token}

-- a token without a value
abbrev pub mark : TokenKind → Location → Token
mark kind l = record { kind = kind; flags = 0; location = l; value = [] }

-- an identifier
abbrev pub word : Bytes → Location → Token
word name l = record { kind = TokenKind.identifier; flags = 0; location = l; value = name }

abbrev pub at : List Token → Option Token → Parser
at ts r = record { current = ts; previous = r }

-- `n + f`, for a fuel of `n` or more
abbrev pub at_least : ℕ → ℕ → ℕ
at_least zero f = f
at_least (suc n) f = suc (at_least n f)
