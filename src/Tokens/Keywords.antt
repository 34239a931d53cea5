-- ===== src/Tokens/Keywords.antt =====
-- The keyword table of `lexer_build_identifier` in source/lexer.c.
use atcc.Prelude.{ℕ, List, [], ◌∷◌}
use atcc.Tokens.{TokenKind}

abbrev pub keywords : List (List ℕ × TokenKind)
keywords =
    (b'a' ∷ b'l' ∷ b'i' ∷ b'a' ∷ b's' ∷ [], TokenKind.kw_alias)
    ∷ (b'a' ∷ b'l' ∷ b'i' ∷ b'g' ∷ b'n' ∷ b'o' ∷ b'f' ∷ [], TokenKind.kw_alignof)
    ∷ (b'b' ∷ b'r' ∷ b'e' ∷ b'a' ∷ b'k' ∷ [], TokenKind.kw_break)
    ∷ (b'c' ∷ b'a' ∷ b's' ∷ b'e' ∷ [], TokenKind.kw_case)
    ∷ (b'c' ∷ b'a' ∷ b's' ∷ b't' ∷ [], TokenKind.kw_cast)
    ∷ (b'c' ∷ b'o' ∷ b'n' ∷ b's' ∷ b't' ∷ [], TokenKind.kw_const)
    ∷ (b'c' ∷ b'o' ∷ b'n' ∷ b't' ∷ b'i' ∷ b'n' ∷ b'u' ∷ b'e' ∷ [], TokenKind.kw_continue)
    ∷ (b'd' ∷ b'e' ∷ b'f' ∷ b'a' ∷ b'u' ∷ b'l' ∷ b't' ∷ [], TokenKind.kw_default)
    ∷ (b'd' ∷ b'o' ∷ [], TokenKind.kw_do)
    ∷ (b'e' ∷ b'l' ∷ b's' ∷ b'e' ∷ [], TokenKind.kw_else)
    ∷ (b'e' ∷ b'n' ∷ b'u' ∷ b'm' ∷ [], TokenKind.kw_enum)
    ∷ (b'f' ∷ b'o' ∷ b'r' ∷ [], TokenKind.kw_for)
    ∷ (b'f' ∷ b'u' ∷ b'n' ∷ [], TokenKind.kw_fun)
    ∷ (b'i' ∷ b'f' ∷ [], TokenKind.kw_if)
    ∷ (b'o' ∷ b'f' ∷ b'f' ∷ b's' ∷ b'e' ∷ b't' ∷ b'o' ∷ b'f' ∷ [], TokenKind.kw_offsetof)
    ∷ (b'r' ∷ b'e' ∷ b't' ∷ b'u' ∷ b'r' ∷ b'n' ∷ [], TokenKind.kw_return)
    ∷ (b's' ∷ b'i' ∷ b'z' ∷ b'e' ∷ b'o' ∷ b'f' ∷ [], TokenKind.kw_sizeof)
    ∷ (b's' ∷ b't' ∷ b'r' ∷ b'u' ∷ b'c' ∷ b't' ∷ [], TokenKind.kw_struct)
    ∷ (b's' ∷ b'w' ∷ b'i' ∷ b't' ∷ b'c' ∷ b'h' ∷ [], TokenKind.kw_switch)
    ∷ (b'u' ∷ b'n' ∷ b'i' ∷ b'o' ∷ b'n' ∷ [], TokenKind.kw_union)
    ∷ (b'v' ∷ b'a' ∷ b'r' ∷ [], TokenKind.kw_var)
    ∷ (b'w' ∷ b'h' ∷ b'i' ∷ b'l' ∷ b'e' ∷ [], TokenKind.kw_while)
    ∷ []
