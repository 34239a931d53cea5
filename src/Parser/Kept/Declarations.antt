-- ===== src/Parser/Kept/Declarations.antt =====
-- The parsers of declarations.
use atcc.Prelude.{ℕ, zero, suc, Bool, Option, List, [], refl}
use atcc.Ati.Strings.{Bytes}
use atcc.Ast.{AstNode, AstNodes}
use atcc.Parser.Kept.Expressions.{parse_expression-Kept, parse_typedecl-Kept}
use atcc.Parser.Kept.{
  ParserPredicate, Kept-make_error, Kept-cond, Kept-optional, Kept-if_consume, Kept-expect,
  Kept-expect_value, Kept-if_check, Kept-declared,
}
use atcc.Parser.{Parse}
use atcc.Tokens.{TokenKind, Location}
use atcc.Parser.Blocks.{is_block_end}
use atcc.Parser.Declarations.{
  parse_alias_type, parse_declaration_alias, parse_field_names, parse_aggregate_item,
  parse_aggregate, parse_declaration_aggregate, parse_variable_value, parse_declaration_variable,
  parse_declaration_function_parameter, parse_more_parameters, parse_function_rest,
  parse_function_parameters, parse_declaration_function,
}
use atcc.Parser.Program.{parse_enum_items, parse_declaration_enum}
use atcc.Parser.Kept.Blocks.{parse_until-Kept, parse_statement_block-Kept}

module _ (L : ParserPredicate) where
  pub parse_alias_type-Kept : (f : ℕ) (name : Bytes) → L.Kept (parse_alias_type f name)
  unfolding parse_alias_type
  parse_alias_type-Kept f name = Kept-expect L _ _ _ refl (
      L.bind_law _ _ L.here_law (λ l.
        L.bind_law _ _ (parse_typedecl-Kept L f) (λ n. Kept-expect L _ _ _ refl (L.pure_law _))))

  pub parse_declaration_alias-Kept : (f : ℕ) → L.Kept (parse_declaration_alias f)
  unfolding parse_declaration_alias
  parse_declaration_alias-Kept f = L.bind_law _ _ (L.consume_law _ refl) (λ o.
      Kept-optional L o _ _ (λ t. Kept-declared L _ (parse_alias_type-Kept f t.value))
        (L.pure_law _))

  parse_field_names-Kept :
      (f : ℕ) {rest : List Bytes → Parse AstNode} (names : List Bytes)
      → ((names : List Bytes) → L.Kept (rest names))
      → L.Kept (parse_field_names f rest names)
  unfolding parse_field_names
  parse_field_names-Kept zero names h = L.fuel_law _
  parse_field_names-Kept (suc f) names h =
      Kept-expect_value L _ _ _ refl
        (λ v. Kept-if_consume L _ _ _ refl (parse_field_names-Kept f _ h) (h _))

  parse_aggregate_item-Kept : (f : ℕ) → L.Kept (parse_aggregate_item f)
  unfolding parse_aggregate_item
  parse_aggregate_item-Kept f =
      Kept-if_consume L _ _ _ refl (L.bind_law _ _ L.here_law (λ l. L.crash_law _)) (
        Kept-if_consume L _ _ _ refl (L.bind_law _ _ L.here_law (λ l. L.crash_law _)) (
          L.bind_law _ _ L.here_law (λ l. parse_field_names-Kept f [] (λ ns.
            Kept-expect L _ _ _ refl (
              L.bind_law _ _ (parse_typedecl-Kept L f)
                (λ n. Kept-expect L _ _ _ refl (L.pure_law _)))))))

  parse_aggregate-Kept : (f : ℕ) (kind : TokenKind) → L.Kept (parse_aggregate f kind)
  unfolding parse_aggregate
  parse_aggregate-Kept f kind = Kept-expect L _ _ _ refl (
      L.bind_law _ _ L.here_law (λ l.
        L.bind_law _ _ (parse_until-Kept L f is_block_end refl (parse_aggregate_item-Kept f))
          (λ ns. Kept-expect L _ _ _ refl (L.pure_law _))))

  pub parse_declaration_aggregate-Kept :
      (f : ℕ) (kind : TokenKind) → L.Kept (parse_declaration_aggregate f kind)
  unfolding parse_declaration_aggregate
  parse_declaration_aggregate-Kept f kind = Kept-expect_value L _ _ _ refl (λ v.
      L.bind_law _ _ L.here_law
        (λ l. L.bind_law _ _ (parse_aggregate-Kept f kind) (λ n. L.pure_law _)))

  parse_variable_value-Kept :
      (f : ℕ) (make : AstNode → AstNode → AstNode) → L.Kept (parse_variable_value f make)
  unfolding parse_variable_value
  parse_variable_value-Kept f make =
      Kept-if_consume L _ _ _ refl (L.bind_law _ _ (parse_expression-Kept L f) (λ n. L.pure_law _))
        (Kept-if_consume L _ _ _ refl
          (L.bind_law _ _ (parse_typedecl-Kept L f) (λ n.
            L.bind_law _ _ (Kept-if_consume L _ _ _ refl (parse_expression-Kept L f) (L.pure_law _))
              (λ n. L.pure_law _)))
          (L.pure_law _))

  pub parse_declaration_variable-Kept :
      (f : ℕ) (kind : TokenKind) → L.Kept (parse_declaration_variable f kind)
  unfolding parse_declaration_variable
  parse_declaration_variable-Kept f kind = L.bind_law _ _ L.here_law (λ l.
      Kept-expect_value L _ _ _ refl (λ v.
        L.bind_law _ _ (parse_variable_value-Kept f _)
          (λ n. Kept-expect L _ _ _ refl (L.pure_law _))))

  parameter-Kept : (f : ℕ) → L.Kept (parse_declaration_function_parameter f)
  unfolding parse_declaration_function_parameter
  parameter-Kept f = L.bind_law _ _ L.here_law (λ l. Kept-expect_value L _ _ _ refl (λ v.
      Kept-expect L _ _ _ refl (L.bind_law _ _ (parse_typedecl-Kept L f) (λ n. L.pure_law _))))

  parse_more_parameters-Kept :
      (f : ℕ) {rest : AstNodes → Bool → Parse AstNode} (parameters : AstNodes) (is_variadic : Bool)
      → ((parameters : AstNodes) (is_variadic : Bool) → L.Kept (rest parameters is_variadic))
      → L.Kept (parse_more_parameters f rest parameters is_variadic)
  unfolding parse_more_parameters
  parse_more_parameters-Kept zero parameters is_variadic h = L.fuel_law _
  parse_more_parameters-Kept (suc f) parameters is_variadic h =
      Kept-if_consume L _ _ _ refl
        (Kept-if_consume L _ _ _ refl
          (Kept-cond L is_variadic _ _ (Kept-make_error L _) (parse_more_parameters-Kept f _ _ h))
          (Kept-cond L is_variadic _ _ (Kept-make_error L _)
            (L.bind_law _ _ (parameter-Kept f) (λ n. parse_more_parameters-Kept f _ _ h))))
        (h parameters is_variadic)

  parse_function_rest-Kept :
      (f : ℕ) (name : Bytes) (parameters : AstNodes) (is_variadic : Bool)
      → L.Kept (parse_function_rest f name parameters is_variadic)
  unfolding parse_function_rest
  parse_function_rest-Kept f name parameters is_variadic = Kept-expect L _ _ _ refl (
      L.bind_law _ _ (Kept-if_consume L _ _ _ refl (parse_typedecl-Kept L f) (L.pure_law _)) (λ n.
        L.bind_law _ _ L.here_law (λ l.
          L.bind_law _ _
            (Kept-if_consume L _ _ _ refl (L.pure_law _) (parse_statement_block-Kept L f))
            (λ n. L.pure_law _))))

  parse_function_parameters-Kept :
      (f : ℕ) (name : Bytes) → L.Kept (parse_function_parameters f name)
  unfolding parse_function_parameters
  parse_function_parameters-Kept f name = Kept-expect L _ _ _ refl (
      Kept-if_check L _ _ _ (parse_function_rest-Kept f name _ _) (
        L.bind_law _ _ (parameter-Kept f)
          (λ n. parse_more_parameters-Kept f _ _ (parse_function_rest-Kept f name))))

  pub parse_declaration_function-Kept : (f : ℕ) → L.Kept (parse_declaration_function f)
  unfolding parse_declaration_function
  parse_declaration_function-Kept f = L.bind_law _ _ (L.consume_law _ refl) (λ o.
      Kept-optional L o _ _ (λ t. parse_function_parameters-Kept f t.value)
        (Kept-expect_value L _ _ _ refl (parse_function_parameters-Kept f)))

  parse_enum_items-Kept :
      (f : ℕ) (l : Location) (name : Bytes) {rest : AstNodes → Parse AstNode} (items : AstNodes)
      (previous : Option Bytes)
      → ((items : AstNodes) → L.Kept (rest items))
      → L.Kept (parse_enum_items f l name rest items previous)
  unfolding parse_enum_items
  parse_enum_items-Kept zero l name items previous h = L.fuel_law _
  parse_enum_items-Kept (suc f) l name items previous h = L.bind_law _ _ L.current_law (λ t.
      (Kept-cond L (is_block_end t.kind) _ _ (h items) (
        Kept-expect_value L _ _ _ refl (λ v. L.bind_law _ _ L.here_law (λ l.
          L.bind_law _ _ (Kept-if_consume L _ _ _ refl (parse_expression-Kept L f) (L.pure_law _))
            (λ n. Kept-expect L _ _ _ refl (parse_enum_items-Kept f _ _ _ _ h)))))))

  pub parse_declaration_enum-Kept : (f : ℕ) → L.Kept (parse_declaration_enum f)
  unfolding parse_declaration_enum
  parse_declaration_enum-Kept f = Kept-expect_value L _ _ _ refl (λ v.
      L.bind_law _ _ L.here_law (λ l.
        L.bind_law _ _ (Kept-if_consume L _ _ _ refl (parse_typedecl-Kept L f) (L.pure_law _)) (λ n.
          Kept-expect L _ _ _ refl (
            parse_enum_items-Kept f l v _ _
              (λ ns. Kept-expect L _ _ _ refl (L.bind_law _ _ L.here_law (λ l. L.pure_law _)))))))
