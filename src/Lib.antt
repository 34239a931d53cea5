-- ===== src/Lib.antt =====
-- atcc compiles programs of a C-like language to C, LLVM or machine code. A source file goes
-- through the lexer, the parser, the semantic analysis and the lowering, and ends as bytecode
-- that a back end writes out; the support library `ati` carries them with strings, hash tables
-- and vectors. This library models the parts below, each as functions that a test runs and
-- theorems speak about. A C function has its C name; a vector is a list.
--
-- Prelude: Boolean tests, lists, machine words and the tests of <ctype.h>.
-- Ati.Strings: source/ati/string.c. A string is the list of its bytes.
-- Ati.Table, Ati.StringTable, Ati.PointerTable: source/ati/table.c. Both tables are one
--   algorithm over a record `Key`, which is all in which the two copies in C differ;
--   `string_table_get` and the others are its instances. A search gets as many rounds as there are
--   slots, which is enough where a slot is unused.
-- Ati.Variant: `Variant` of source/ati/basic.h and `variant_equals` of source/ati/utils.c.
-- Ati.Vector: the vectors of source/ati/utils.c and utils.h, and that each stands for a list.
-- Eval: the constant evaluation of source/eval.c, on an `EvalNode`, which is what it reads of a tree
--   node; Eval.Integers are the operators on integers, from their bits. The arithmetic on floats is
--   a parameter.
-- Config: the option files of source/ati/config.c, with `options_parse` in Config.Parse. Its
--   loops get more fuel than the file has bytes, and each round reads one at least.
-- Types: source/type.c and `Type` of source/atcc.h, as `AtccType`. A type is a tree, since what
--   the functions follow has no cycle; Types.Kinds is the enum, Types.Print is `type_to_string`.
-- Tokens, Lexer: source/lexer.c and the tokens of source/atcc.h. A `Lexer` is the struct without
--   its token buffer, which is a result here; `lexer_tokenize` is in Lexer.Tokenize. A loop gets
--   more fuel than the source has bytes, and each round reads one at least, but for a string with
--   no end.
-- Ast, Parser: source/parser.c and `ASTNode` of source/atcc.h. A parser function takes the `Parser`,
--   whose `current` is the tokens from the pointer on, and ends with a result, a crash, a read behind
--   the tokens, or out of fuel: there are inputs on which the code never ends. Parser.Expressions
--   holds the expressions and types, Statements and Blocks the statements, Declarations and Program
--   the rest; a function that parses a statement within a statement takes it as an argument.
--   Parser.Kept is an interface: a predicate on parsers that the primitives have and the combinators keep,
--   which then holds of each parser. Parser.Safe fills it for reading no token behind the `eof`,
--   Parser.Previous for the token before the current one. Parser.Stuck is where the parser does not end,
--   Parser.Enums what becomes of an enum. Parser.Grammar is a grammar of expressions
--   with an operator table of its own, and Parser.RoundTrip sets it against the parser.
-- Sema: of source/sema.c, the conversions between types and the unification of two operands, on what
--   the analysis writes into a node; a type is known by its identity there, since `make_type` alone
--   makes types and numbers them.
-- Emit.Buffer: `BCBuffer` of source/emit/bytecode.c, as `BcBuffer`: the memory that machine code
--   is emitted into, with a write outside of it as `none`.
-- Emit.Bytecode: the bytecode builder of source/emit/bytecode.c over an explicit heap, so that a
--   pointer that two structs share is one. A function is a `Build`: it takes the heap and returns
--   a result and a heap, or `none` where C would read through null or fail an `assert`. Values
--   holds the types and values, Insns the functions and blocks, Builder and Arith the
--   instructions.
-- Tests: runs of the models, and the theorems at examples.
--
-- Not modelled: the rest of the semantic analysis and the lowering (source/sema.c, lower.c), which are
-- to be modelled on the tree of Ast; the back ends and the dumps (source/emit/llvm.c, arm64.c, amd64.c,
-- source.c, bcdump.c, source/debug.c), which write files or call LLVM; the driver (source/main.c,
-- preload.c); files and panics (source/ati/utils.c). Allocation does not fail.
pub mod Prelude
pub mod Ati
pub mod Types
pub mod Eval
pub mod Sema
pub mod Config
pub mod Emit
pub mod Tokens
pub mod Lexer
pub mod Ast
pub mod Parser
pub mod Tests
