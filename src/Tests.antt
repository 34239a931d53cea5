-- ===== src/Tests.antt =====
-- Runs of the models, and their theorems at examples.
mod AtiTests
mod EmitTests
mod LexerTests
mod BytecodeTests
mod TypesTests
mod ConfigTests
mod ParserTests
mod VectorTests
mod EvalTests
mod SemaTests
