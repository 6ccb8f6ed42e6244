-- ===== src/Parse/Program.antt =====
-- src/parse/mcparse.c: blocks, the recursion on fuel, and a whole script.
use mclua.Prelude.{ℕ, zero, suc, List, Bool, true, false, ◌==◌, if◌then◌else◌}
use mclua.Ast.{pn_block, Node, set_val}
use mclua.Heap.{McHeap}
use mclua.Token.{Token, tk_return}
use mclua.Parse.State.{
  Parser, Result, ok, null, out_of_fuel, ◌>>=◌, ◌>>◌, pure, token_at, ps_advance, ps_match,
  is_block_end, alloc, alloc_function, check_error, push, push_unchecked,
}
use mclua.Parse.Operators
use mclua.Parse.Control
use mclua.Parse.Statements

module _ (rounds : ℕ) (parse_subexp : ℕ → Parser Node) (parse_block : Parser Node) where
  -- What `parse_block` does with what a statement gave: the error flag stops it, and a NULL that
  -- leaves the flag clear (the arena is full) is passed over.
  unfoldable pub after_stat : (Node → Parser Node) → Node → Result Node → Result Node
  after_stat loop block (ok st s) =
      if s.error then null s else (do block' ← push block st; loop block') s
  after_stat loop block (null s) = if s.error then null s else loop block s
  after_stat loop block out_of_fuel = out_of_fuel

  -- The `return` that ends a block.
  unfoldable pub last_stat : Node → Parser Node
  last_stat block = do
    ret ← Control.parse_retstat rounds parse_subexp parse_block
    block' ← push block ret
    ps_match b';'
    pure block'

  -- One round of the loop of `parse_block`, by its three tests on the token: the end of the block,
  -- an empty statement, `return`.
  unfoldable pub block_round : (Node → Parser Node) → Node → Bool → Bool → Bool → Parser Node
  unfolding after_stat last_stat
  block_round loop block true semicolon returns = pure block
  block_round loop block false true returns = do ps_advance; loop block
  block_round loop block false false true = last_stat block
  block_round loop block false false false =
      λ s. after_stat loop block (Statements.parse_stat rounds parse_subexp parse_block s)

  -- The loop of `parse_block`.
  unfoldable pub block_loop : ℕ → Node → Parser Node
  unfolding block_round
  block_loop zero block s = out_of_fuel
  block_loop (suc n) block s =
      let tk = (token_at s.tokens s.pos).token_number in
      block_round (block_loop n) block (is_block_end tk) (b';' == tk) (tk_return == tk) s

  unfoldable pub block_body : Parser Node
  unfolding block_loop
  block_body = do block ← alloc pn_block 4; block_loop rounds block

-- `parse_subexp` and `parse_block`: a call takes one unit of fuel, and its loops have the rounds
-- that are left.
unfoldable mutual
  unfolding block_body

  pub parse_subexp : ℕ → ℕ → Parser Node
  parse_subexp zero min_prec s = out_of_fuel
  parse_subexp (suc f) min_prec s =
      Operators.subexp_body f (parse_subexp f) (parse_block f) min_prec s

  pub parse_block : ℕ → Parser Node
  parse_block zero s = out_of_fuel
  parse_block (suc f) s = block_body f (parse_subexp f) (parse_block f) s

-- `parse_function(pstate, 1)`: the script is the body of a function `main` that takes varargs. The
-- address of the literal "main" is an argument.
unfoldable pub parse_main : ℕ → ℕ → Parser Node
parse_main fuel main_name = do
  (newfunc, name, arglist) ← alloc_function
  newfunc₁ ← push_unchecked newfunc (set_val name main_name)
  newfunc₂ ← push_unchecked newfunc₁ (set_val arglist 1)
  block ← parse_block fuel
  check_error
  push_unchecked newfunc₂ block

-- `mcparse_run`: 0 with the root, or -1 with the state that the run ended in.
unfoldable pub mcparse_run : ℕ → ℕ → List Token → McHeap → Result Node
unfolding parse_main
mcparse_run fuel main_name tokens heap =
    parse_main fuel main_name (record { tokens = tokens; pos = 0; error = false; heap = heap })
