-- ===== src/Parser/Kept/Program.antt =====
-- The parser of a declaration.
use atcc.Prelude.{ℕ, refl}
use atcc.Parser.Program.{parse_declaration}
use atcc.Parser.Kept.Declarations.{
  parse_declaration_alias-Kept, parse_declaration_aggregate-Kept, parse_declaration_variable-Kept,
  parse_declaration_function-Kept, parse_declaration_enum-Kept,
}
use atcc.Parser.Kept.{ParserPredicate, Kept-if_consume, Kept-declared}

module _ (L : ParserPredicate) where
  pub parse_declaration-Kept : (f : ℕ) → L.Kept (parse_declaration f)
  unfolding parse_declaration
  parse_declaration-Kept f = Kept-if_consume L _ _ _ refl (parse_declaration_alias-Kept L f) (
      Kept-if_consume L _ _ _ refl (Kept-declared L _ (parse_declaration_aggregate-Kept L f _)) (
        Kept-if_consume L _ _ _ refl (Kept-declared L _ (parse_declaration_aggregate-Kept L f _)) (
          Kept-if_consume L _ _ _ refl (Kept-declared L _ (parse_declaration_variable-Kept L f _)) (
            Kept-if_consume L _ _ _ refl (Kept-declared L _ (parse_declaration_variable-Kept L f _))
              (Kept-if_consume L _ _ _ refl
                (Kept-declared L _ (parse_declaration_function-Kept L f))
                (Kept-if_consume L _ _ _ refl (Kept-declared L _ (parse_declaration_enum-Kept L f))
                  (L.pure_law _)))))))
