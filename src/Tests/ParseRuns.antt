-- ===== src/Tests/ParseRuns.antt =====
-- The parser on a short expression, and on a function statement when the arena is full.
use mclua.Prelude.{ℕ, ◌≡◌, refl, arith, List, [], ◌∷◌, false}
use mclua.Ast.{
  ParseNodeType, Node, Nodes, node, nil, cons, pn_binop, pn_integer, pn_block, pn_funcdef, pn_name,
  pn_arglist, pn_break,
}
use mclua.Heap.{McHeap}
use mclua.Heap
use mclua.Token.{Token, tk_eos, tk_int, tk_function, tk_break}
use mclua.Parse.State.{ParseState, Result, ok, null, out_of_fuel}
use mclua.Parse.Program.{parse_subexp, parse_block, block_loop, mcparse_run}
use mclua.Parse.Exhausted.{IsFull, block_loop-spins}
use mclua.Heap.Valid.{IsValid, init-IsValid}
use mclua.Parse.Safe.{Post, itself}
use mclua.Parse.Safe.Program.{mcparse_run-Fits}
use mclua.Parse.Operators
use mclua.Parse.Expressions
use mclua.Parse.State
use mclua.Parse.Statements
use mclua.Ast

-- A tree without the headers of its nodes.
mutual
  data Tree : Type 0 where
    tree : ParseNodeType → ℕ → Trees → Tree

  data Trees : Type 0 where
    leafs : Trees
    branch : Tree → Trees → Trees

unfoldable mutual
  strip : Node → Tree
  strip (node t v h cs) = tree t v (strip_all cs)

  strip_all : Nodes → Trees
  strip_all nil = leafs
  strip_all (cons c cs) = branch (strip c) (strip_all cs)

abbrev sym_token : ℕ → Token
sym_token c = record { token_number = c; semantics = 0 }

abbrev int : ℕ → Token
int n = record { token_number = tk_int; semantics = n }

abbrev start : List Token → ParseState
start ts = record { tokens = ts; pos = 0; error = false; heap = Heap.init 100000 }

data Outcome : Type 0 where
  parsed : Tree → ℕ → Outcome
  failed : Outcome

outcome : Result Node → Outcome
outcome (ok n s) = parsed (strip n) s.pos
outcome (null s) = failed
outcome out_of_fuel = failed

-- `1 + 2 * 3 - 4` as an expression.
abbrev sum_tokens : List Token
sum_tokens =
    int 1
    ∷ sym_token b'+'
    ∷ int 2
    ∷ sym_token b'*'
    ∷ int 3
    ∷ sym_token b'-'
    ∷ int 4
    ∷ sym_token tk_eos
    ∷ []

abbrev pair : ParseNodeType → ℕ → Tree → Tree → Tree
pair t v a b = tree t v (branch a (branch b leafs))

abbrev number : ℕ → Tree
number n = tree pn_integer n leafs

abbrev crammed : ParseState
crammed = record {
  tokens = sym_token tk_function ∷ sym_token tk_eos ∷ [];
  pos = 0;
  error = false;
  heap = Heap.init 50;
}

crammed-IsFull : IsFull crammed.heap
unfolding Heap.init
crammed-IsFull = (init-IsValid 50 (omega arith), omega arith)

abbrev no_block : Node
no_block = node pn_block 0 0 nil

block_loop-spins_example :
    block_loop 20 (parse_subexp 20) (parse_block 20) 1000 no_block crammed ≡ out_of_fuel
block_loop-spins_example =
    block_loop-spins 20 (parse_subexp 20) (parse_block 20) crammed crammed-IsFull refl 1000 no_block
      refl

sum_parses :
    outcome (parse_subexp 20 0 (start sum_tokens))
    ≡ parsed
        (pair pn_binop b'-'
          (pair pn_binop b'+' (number 1) (pair pn_binop b'*' (number 2) (number 3)))
          (number 4))
        7
unfolding parse_subexp outcome strip Operators.subexp_body Expressions.is_unop State.ps_advance
    State.leaf Ast.mclast_alloc Heap.managed_reserve Heap.init Expressions.binop_prio_tbl
    Heap.set_type State.push_unchecked Ast.mclast_push_child Ast.ast_child_cap
sum_parses = refl

-- `break` as a script.
abbrev script : List Token
script = sym_token tk_break ∷ sym_token tk_eos ∷ []

abbrev large : McHeap
large = Heap.init 100000

large-IsValid : IsValid large
large-IsValid = init-IsValid 100000 (omega arith)

script_parses :
    outcome (mcparse_run 3 7 script large)
    ≡ parsed
        (tree pn_funcdef 0 (
          branch (tree pn_name 7 leafs) (
            branch
              (tree pn_arglist 1 leafs)
              (branch (tree pn_block 0 (branch (tree pn_break 0 leafs) leafs)) leafs))))
        1
unfolding mcparse_run outcome strip State.alloc_function Ast.mclast_alloc Heap.managed_reserve
    Heap.init Heap.set_type State.push_unchecked Ast.mclast_push_child Ast.ast_child_cap parse_block
    State.alloc State.is_block_end State.ps_advance State.push State.check_error
    Statements.parse_stat
script_parses = refl

mcparse_run-Fits_example :
    Post itself
      (record { tokens = script; pos = 0; error = false; heap = large })
      (mcparse_run 3 7 script large)
unfolding Heap.init
mcparse_run-Fits_example = mcparse_run-Fits 3 7 script large large-IsValid (omega arith)
