-- ===== src/Lib.antt =====
-- Verification library of the live programming language in compiler/src.
--
-- The program compiles a small language, one unit at a time. `lexer::lex` turns a text into tokens,
-- which the parser turns into expressions, and `structure::to_nodes` turns those into nodes with ids; the
-- type checker generates constraints over type slots and
-- solves them by unification; the compiler driver orders the units by their imports and hands them to
-- the generation of code. The solver keeps the type of each slot in `Slots`, and `TypeGraph` tells it
-- which constraints to look at again when a slot has changed. The driver builds a `DirectedGraph` of
-- units and asks it for an order.
--
-- Files, with the code that each models:
-- - Prelude and its children: shared helpers. `Outcome` is the result of code that can fail or panic;
--   `out_of_fuel` is the model's own. Hash maps are association lists, and hash sets lists, with the
--   order of insertion; the code depends on their order in the solver only, as said below.
-- - Common: compiler/src/common.rs. `UIDGenerator::next` is `next`, with the wrap of its 64-bit
--   counter; `StringCache::get` is `cache_get`. A text is the list of its code points. Common/Unique
--   is about the ids.
-- - Location: compiler/src/error.rs, `TextMarker` and `TextLocation`.
-- - Lexer: compiler/src/lexer.rs, its data and the moves of the stream; Lexer/Scan has the recognisers
--   and the loops. A stream keeps the characters from its position on, not the whole text; `peek` panics where none is left. Lexer/Scan's
--   children follow the number of characters left and whether a backslash is among them.
-- - Expr: compiler/src/expr.rs, the data of expressions.
-- - Parser: compiler/src/parser.rs, its configuration and the moves over the tokens; Parser/Lists,
--   Parser/Keywords and Parser/Terms have the routines, and Parser/Pratt `pratt_parse` and `parse`. The
--   routines that call each other take the recursive ones as a record, `Routines`. Whether
--   `f64::from_str` reads a text is an argument. Parser/Progress counts the tokens that each routine reads.
-- - Nodes and Structure: compiler/src/structure.rs. Nodes has the data of nodes. Structure is the state
--   of `NodeConverter` and `FunctionConverter` together, with the moves on it, as a monad with errors and panics;
--   Structure/Builders has the small makers of nodes, the brackets for labels and scopes, and quotes,
--   Structure/Definitions functions and types, Structure/Constructs the arms of `construct_to_node`, and Structure/Convert
--   `to_node` and `to_nodes`. The routines take the conversion of subexpressions as an argument. A function within
--   another one runs on the same state with its labels and scopes put aside. Structure/Closed says when a
--   state is closed, and its children follow the routines: Moves, Builders, Brackets (labels, scopes, functions),
--   Definitions, Loops, Quotes, Constructs and Arms, and Total; Structure/Closed/Fit is about expressions.
-- - Graph: compiler/src/graph.rs, `DirectedGraph`; Graph/Topological is `valid_topological_ordering`
--   with the nested `visit`, Graph/Components Tarjan's algorithm and Graph/Subgraphs
--   `graph_of_disjoint_subgraphs`; Graph/Walks says what a cycle is. Below Graph/Topological: Flags and Order on
--   the flags and the list, Invariant for the state of the search, Finish for its last step, Correct for
--   the whole.
-- - Types: compiler/src/types/types.rs, the data; Types/Kinds the tests on types and which of them `Display` prints; Types/Unify
--   `incremental_unify`, `unify_types` and `type_intersection`. Types/Unify/Order says when a type
--   refines another one.
-- - Types/Polytypes: `polytype_match`, `polytype_replace`, `to_concrete` and `find_polytypes` of the same file; Round,
--   Match and Settles below it are about the match and its bindings. Types/Instances has the definitions of
--   symbols and types, their instances, and `find_symbol`. Types/Equality is the derived equality of types.
-- - Types/Constraints and Types/TypeGraph: compiler/src/types/constraints.rs (the data type of
--   constraints) and compiler/src/types/type_graph.rs.
-- - Types/Slots: compiler/src/types/slots.rs. `Inferring` is `Slots` with the graph and the errors, and with the slots that
--   have a location.
-- - Types/Directory: `TypeDirectory` of compiler/src/types/constraints.rs, the definitions that a unit sees.
-- - Types/Solver: compiler/src/types/solver.rs, the state of the inference and the constraints between slots;
--   Types/Solver/Process has `process_constraint`, Types/Solver/Infer `process_assertion` and the loop of `infer`, and
--   Types/Solver/Infer/Assign what `infer` does behind its loop. An error is a `Failure` with what its text
--   prints; where the text or the place of an error cannot be found the model panics like the code, but for the place
--   of a node (`Nodes::node`), which is left out. Types/Solver/Tracks follows the slots that are
--   marked as dirty, and its children go through the moves and the constraints. Types/Solver/Equivalence is about two slots
--   that are made equivalent, and Types/Solver/Infer/Resolved about
--   types that name a definition.
-- - Store: compiler/src/code_store.rs, `CodeStore` with its routines; Store/Names is about names and about removal. A
--   unit of compiled code holds objects of the LLVM bindings, so its type is a parameter, and the text that stands
--   for a missing name, `format!("unit_{:?}", uid)`, is an argument.
-- - Compiler: compiler/src/compiler.rs, `find_all_dependents`; Compiler/Importers is about what it finds.
--
-- Loops on lists are structural recursion. `visit` runs on fuel for its depth, one more than the number
-- of vertices: each vertex on the path of the search is active and a second visit of it ends at once.
-- The loops of `lex` run on fuel, one more than the number of characters: each round takes a character.
-- The parser's calls run on fuel for their depth, and its loops on fuel for their rounds, one more than
-- the number of tokens left: each call and each round reads a token. `to_nodes` runs on fuel for the depth
-- of its calls, one more than the number of nodes of the expression: each call is on a smaller one.
-- `polytype_replace` and `instance_type` go on in the type that they have filled in, so that they need not end in
-- general; their fuel is an argument. `find_all_dependents` runs on fuel for its rounds, two more than the
-- number of imports: each round takes a unit off the queue, and only an importer is put there, once. `CodeStore::nodes`
-- takes its fuel as an argument, and so does the loop of `infer`, which need not end in general; the other argument of `infer`
-- is the fuel of the instances of polymorphic definitions. The code takes active constraints from hash tables in an unspecified
-- order; the model takes them in that of insertion, one of those orders.
--
-- Not modelled: the generation of constraints, of solver.rs `typecheck_module` and the instance of a polymorphic
-- function, and of the compiler driver the loading of modules and the
-- order of code generation, which are left for later; of types.rs the signature builders and `units_referenced`;
-- code generation and the C interface, which are calls of LLVM and raw
-- pointers; the display of errors, which is output, but for its panics; and compiler/legacy, which the build does not use.

pub mod Prelude
pub mod Common
pub mod Location
pub mod Lexer
pub mod Expr
pub mod Parser
pub mod Nodes
pub mod Structure
pub mod Graph
pub mod Types
pub mod Store
pub mod Compiler
