-- ===== src/Parse.antt =====
-- src/parse/mcparse.c: the recursive-descent parser, from the token array to the syntax tree.
-- `State` has the parser's state, its results and the operations on tokens; `Names`,
-- `Expressions`, `Operators`, `Control` and `Statements` have one function for each function of the
-- source, over the two that everything recurs through (`parse_subexp`, `parse_block`); `Program`
-- ties the knot on fuel.
pub mod State
pub mod Expressions
pub mod Names
pub mod Operators
pub mod Control
pub mod Statements
pub mod Program
pub mod Exhausted
pub mod Safe
