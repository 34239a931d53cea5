-- ===== src/Ast.antt =====
-- The syntax tree of source/atcc.h: one constructor for each `ASTKind` that the parser makes, with the
-- location and that kind's members of the union. A null pointer is `null`. The types and the constant
-- of a node, which the semantic analysis fills in, are left out.
use Prim.Native.String.{String}
use atcc.Prelude.{ℕ, Bool, List}
use atcc.Ati.Strings.{Bytes}
use atcc.Tokens.{TokenKind, Location}

mutual
  pub data AstNode : Type 0 where
    null : AstNode
    error : Location → String → AstNode
    program : Location → AstNodes → AstNode
    type_name : Location → Bytes → AstNode
    type_pointer : Location → AstNode → AstNode
    -- the base, the size, and whether it is dynamic
    type_array : Location → AstNode → AstNode → Bool → AstNode
    -- the parameters, the result, and whether it is variadic
    type_function : Location → AstNodes → AstNode → Bool → AstNode
    alias : Location → Bytes → AstNode → AstNode
    aggregate : Location → Bytes → AstNode → AstNode
    aggregate_field : Location → List Bytes → AstNode → AstNode
    aggregate_child : Location → TokenKind → AstNodes → AstNode
    -- the name, the type, the initializer, and whether it is constant
    variable : Location → Bytes → AstNode → AstNode → Bool → AstNode
    function_parameter : Location → Bytes → AstNode → AstNode
    -- the name, the parameters, the result, the body, and whether it is variadic
    function : Location → Bytes → AstNodes → AstNode → AstNode → Bool → AstNode
    enum_placeholder : Location → AstNode → AstNodes → AstNode
    statement_block : Location → AstNodes → AstNode
    -- the initializer, the condition and the branches
    statement_if : Location → AstNode → AstNode → AstNode → AstNode → AstNode
    statement_while : Location → AstNode → AstNode → AstNode
    statement_do_while : Location → AstNode → AstNode → AstNode
    -- the initializer, the condition, the increment and the body
    statement_for : Location → AstNode → AstNode → AstNode → AstNode → AstNode
    statement_switch : Location → AstNode → AstNodes → AstNode
    -- the patterns, the body, and whether it is the default
    switch_case : Location → AstNodes → AstNode → Bool → AstNode
    switch_pattern : Location → AstNode → AstNode → AstNode
    statement_break : Location → AstNode
    statement_continue : Location → AstNode
    statement_return : Location → AstNode → AstNode
    -- the name, the type, the value, and whether it is left uninitialized
    statement_init : Location → Bytes → AstNode → AstNode → Bool → AstNode
    statement_expression : Location → AstNode → AstNode
    statement_assign : Location → TokenKind → AstNode → AstNode → AstNode
    paren : Location → AstNode → AstNode
    unary : Location → TokenKind → AstNode → AstNode
    binary : Location → TokenKind → AstNode → AstNode → AstNode
    ternary : Location → AstNode → AstNode → AstNode → AstNode
    -- the text and the flags
    literal_number : Location → Bytes → ℕ → AstNode
    literal_char : Location → Bytes → ℕ → AstNode
    literal_string : Location → Bytes → ℕ → AstNode
    identifier : Location → Bytes → AstNode
    sizeof : Location → AstNode → AstNode
    alignof : Location → AstNode → AstNode
    offsetof : Location → AstNode → Bytes → AstNode
    call : Location → AstNode → AstNodes → AstNode
    field : Location → AstNode → Bytes → AstNode
    index : Location → AstNode → AstNode → AstNode
    -- the type and the target
    cast : Location → AstNode → AstNode → AstNode
    compound : Location → AstNode → AstNodes → AstNode
    compound_field : Location → AstNode → AstNode
    compound_field_name : Location → Bytes → AstNode → AstNode
    compound_field_index : Location → AstNode → AstNode → AstNode

  -- a vector of nodes
  pub data AstNodes : Type 0 where
    no_nodes : AstNodes
    and_node : AstNode → AstNodes → AstNodes

infixr 5 ◌+++◌
abbrev pub ◌+++◌ : AstNodes → AstNodes → AstNodes
AstNodes.no_nodes +++ ns = ns
AstNodes.and_node m ms +++ ns = AstNodes.and_node m (ms +++ ns)
