-- ===== src/Lib.antt =====
-- The hammer interpreter: a small functional language that is lexed, parsed, compiled to bytecode
-- and run on a stack machine. `src/main.c` runs the phases in this order over one source text.
--
-- The parts, and the files that model them:
--
-- - `lib/buffer.c`, the byte buffer behind every later output: Buffer.antt, with the growth loop in
--   Buffer/Growth, the run on lists in Buffer/Refines and string literals in Buffer/Literal.
--   A buffer is its contents, the memory behind them and its capacity.
-- - `lib/bytes.c`, big-endian words: Bytes.antt. A cursor is the list of the bytes from it on, and
--   a read past the end is `none`.
-- - `lib/bytecode.c` and `lib/bytecode.h`: Bytecode.antt has the emitters and the fetching half of
--   `machine_step` in `lib/machine.c`; Bytecode/Program.antt the container, which `program_read`
--   takes apart, and the table of functions.
-- - `lib/vector.c`, growable arrays: Vector.antt, and Vector/Stack for the list of its items.
-- - `lib/string.c`: Text.antt.
-- - `lib/lexer.c`: Lexer.antt, with tokens and keywords in Tokens.antt. `token_next_` of the source
--   is `token_next_once`. A pointer into the text is the list of the bytes from it to the terminator;
--   a read behind that is a result.
-- - `lib/ast.c`: Ast.antt. Siblings that are linked in the source are a list of nodes.
-- - `lib/parser.c`: Parser.antt has the state, the frames and the primitives (`THEN`, `TRY`,
--   `COMMIT`, `DISCARD`), Parser/Operators the table of operators, Parser/Grammar and its children
--   the routines, Parser/Program the recursion and `parse_program`. `parse_binary_` of the source is
--   `parse_binary_rest`. Parser/Frames says what every routine keeps, its children have a rule for
--   each primitive, and Parser/Total and its children apply them to each routine.
-- - `lib/compiler.c`: Compiler/Scopes has the scopes with their locals and captures, and the
--   resolution of symbols, whose numbers stand for entries of the pool. A scope's pointer to the
--   outer one is the rest of the chain. Compiler/Literals has `compile_string` and `compile_int`,
--   Compiler/Blocks the blocks, jumps and functions of the state, Compiler/Visit and its children the
--   visitors and `compiler_visit_program`, Compiler/Write `compiler_write_program` and what
--   `program_read` makes of it. A block is known by a number, a symbol by the place of its string in
--   the pool, and a panic is `none`. Compiler/Blocks/Linked says how blocks, jumps and functions fit
--   together, Compiler/Visit/Links and its children carry it through the visitors,
--   Compiler/Visit/Depth is about the nesting of visitors, and Compiler/Write/Landing about jumps in
--   the written code.
-- - `lib/value.c` and `lib/value.h`: Value.antt has the values, the heap and `hvalue_ref` and
--   `hvalue_drop`, Value/Objects what is made, read and cloned, Value/Access closures, lists, tuples
--   and natives, Value/Equality and Value/Repr the two walks. A value's pointer is the number of an
--   allocation, and a freed one is `none`. Value/Counts says what exact counts are, Value/Safe what
--   a result may be, Value/Referencing is about `hvalue_ref`, Value/Freeing and Value/Release are
--   about `hvalue_drop`, Value/Sharing and Value/Handling about the operations that use them.
-- - `lib/machine.c`: Machine.antt has the state and the frames, Machine/Ops the handlers that run no
--   other code, Machine/Step `machine_step` and `machine_call_`. Machine/Balance and its children
--   carry exact counts through the steps, Machine/Partial is about closures called in parts.
-- - `lib/module.c` and `lib/builtin/`: the members of modules are in Machine.antt and
--   Machine/Modules, calls of native values in Machine/Natives, effects in Machine/Effects.
-- - `lib/string_map.c` and `lib/string_pool.c`: StringMap.antt, with the map as a function in
--   StringMap/Refines, its well-formedness in StringMap/Valid, loops over it in StringMap/Iteration
--   and interning in StringMap/Pool.
--
-- Numbers are the native naturals; the wrap-around of a C type is written out as `% 2 ^ w`, and
-- signed words are `ℤ` of Prelude/Int with their patterns. Source texts hold no NUL.
--
-- Bounds and fuel. The doubling loop of `buffer_grow` has 64 rounds, which take any capacity but 0
-- past a length below 2 ^ 63. `vsnprintf` is called twice at most, since the first call's growth
-- leaves room for the second. `token_next` has a round for each byte of the text left, and each
-- round but the last takes one. The loops of the parser have a round for each byte left and
-- one more; the nesting of its routines is bounded by an argument of `parse_program`, for which four
-- calls for each byte and three more are enough.
-- Nested drops are bounded by the number of allocations, since each one empties another; walks over
-- values have one round for each allocation. Visitors of the compiler nest as deep as an argument of
-- `compiler_visit_program` says, for which the weight of the tree, about two for each node, is
-- enough: what lies beyond that depth is never called. Calls of the machine by native values nest as
-- deep as the fuel, and each runs as many steps, for a program need not end.
--
-- The system's part of the builtins is a parameter: the local time, and the comparison and the text
-- of doubles. A run is that of the build that checks its assertions. The map of a module is the list of
-- its members, and strings are shorter than 2 ^ 32. A key of a map is a place in its key buffer; where
-- the buffer would be moved while entries point into it, the model of the map ends with `none`.
-- A token that is handed to `token_next` is taken to lie within its text.
--
-- Not modelled: allocation failure, the arenas behind the parts, the printing of trees and programs
-- for debugging, and the input of `src/main.c`.
pub mod Prelude
pub mod Buffer
pub mod Bytes
pub mod Bytecode
pub mod Text
pub mod Tokens
pub mod Lexer
pub mod Ast
pub mod Parser
pub mod Compiler
pub mod Vector
pub mod Value
pub mod Machine
pub mod StringMap
pub mod Tests
