-- ===== src/Parser/Kept/Types.antt =====
-- The step from a fuel to the next, for types.
use atcc.Prelude.{ℕ, suc, Bool, refl}
use atcc.Ast.{AstNode}
use atcc.Parser.Expressions.{
  parse_expression, parse_typedecl_function, parse_typedecl_base, typedecl_from, array_from,
  parse_typedecl,
}
use atcc.Parser.Kept.{
  ParserPredicate, Kept-make_error, Kept-optional, Kept-if_consume, Kept-expect, Kept-if_check,
}
use atcc.Parser.Kept.Family.{AreKept}

module _ (L : ParserPredicate) (f : ℕ) (h : AreKept L f) where
  pub function_suc : L.Kept (parse_typedecl_function (suc f))
  unfolding parse_expression
  function_suc =
      Kept-if_consume L _ _ _ refl
        (Kept-expect L _ _ _ refl (
          Kept-if_check L _ _ _
            (Kept-expect L _ _ _ refl (
              L.bind_law _ _ (Kept-if_check L _ _ _ h.typedecl_kept (L.pure_law _))
                (λ type. L.bind_law _ _ L.here_law (λ l. L.pure_law _))))
            (L.crash_law _)))
        (L.pure_law _)

  pub typedecl_base_suc : L.Kept (parse_typedecl_base (suc f))
  unfolding parse_expression
  typedecl_base_suc = Kept-if_check L _ _ _ h.function_kept (
      L.bind_law _ _ (L.consume_law _ refl) (λ o.
        Kept-optional L o _ _ (λ t. L.bind_law _ _ L.here_law (λ l. L.pure_law _))
          (Kept-if_check L _ _ _
            (L.bind_law _ _ h.typedecl_kept (λ type. Kept-expect L _ _ _ refl (L.pure_law _)))
            (Kept-make_error L _))))

  pub typedecl_rest_suc : (typedecl : AstNode) → L.Kept (typedecl_from (suc f) typedecl)
  unfolding parse_expression
  typedecl_rest_suc = λ typedecl.
      Kept-if_consume L _ _ _ refl
        (Kept-if_consume L _ _ _ refl (h.array_kept _ _ _) (
          Kept-if_check L _ _ _ (h.array_kept _ _ _)
            (L.bind_law _ _ h.expression_kept (λ n. h.array_kept _ _ _))))
        (Kept-if_consume L _ _ _ refl (L.bind_law _ _ L.here_law (λ l. h.typedecl_rest_kept _))
          (L.pure_law _))

  pub array_suc :
      (base size : AstNode) (is_dynamic : Bool) → L.Kept (array_from (suc f) base size is_dynamic)
  unfolding parse_expression
  array_suc = λ base size is_dynamic.
      Kept-expect L _ _ _ refl (L.bind_law _ _ L.here_law (λ l. h.typedecl_rest_kept _))

  pub typedecl_suc : L.Kept (parse_typedecl (suc f))
  unfolding parse_expression
  typedecl_suc = L.bind_law _ _ h.typedecl_base_kept h.typedecl_rest_kept
