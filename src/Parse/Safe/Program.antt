-- ===== src/Parse/Safe/Program.antt =====
-- The whole parser is safe: its recursion on fuel, and a run over a script.
use mclua.Prelude.{
  ℕ, zero, suc, ◌^◌, ◌<◌, arith, List, [], ◌∷◌, true, false, Bool, if◌then◌else◌, All, All-map,
}
use mclua.Ast.{pn_block, Node, set_val}
use mclua.Ast.Room.{Fits, Fits-grow}
use mclua.Ast.Growth.{Fits-set_val}
use mclua.Heap.{McHeap}
use mclua.Heap.Valid.{IsValid}
use mclua.Token.{Token}
use mclua.Parse.State.{Parser, ParseState, Result, ok, null, out_of_fuel, ◌>>=◌, push}
use mclua.Parse.Program.{
  after_stat, last_stat, block_round, block_loop, block_body, parse_subexp, parse_block, parse_main,
  mcparse_run,
}
use mclua.Parse.Safe.{
  Post, Post-trans, Safe, Has, itself, bind, ps_advance-Safe, ps_match-Safe, check_error-Safe,
  fuel-Safe,
}
use mclua.Parse.Safe.Steps.{give, alloc-Safe, push-Safe, push_unchecked-Safe, alloc_function-Safe}
use mclua.Parse.Safe.Operators.{subexp_body-Safe}
use mclua.Parse.Safe.Control.{parse_retstat-Safe}
use mclua.Parse.Safe.Statements.{parse_stat-Safe}

module _ (rounds : ℕ) (parse_subexp : ℕ → Parser Node) (parse_block : Parser Node)
    (subexp-Safe : (ns : List Node) (prec : ℕ) → Safe itself ns (parse_subexp prec))
    (block-Safe : (ns : List Node) → Safe itself ns parse_block) where
  module _ (ns : List Node) (loop : Node → Parser Node)
      (loop-Safe : (ms : List Node) (n : Node) → Has ms n → Safe itself ms (loop n)) (block : Node)
      (has : Has ns block) where
    after_stat-Post :
        (s : ParseState) (r : Result Node)
        → All (Fits s.heap) ns
        → Post itself s r
        → Post itself s (after_stat rounds parse_subexp parse_block loop block r)
    unfolding after_stat
    after_stat-Post s (ok st s') fits (kept, fit) = by_flag s'.error
      where
        by_flag :
            (b : Bool)
            → Post itself s (if b then null s' else (do block' ← push block st; loop block') s')
        by_flag true = kept
        by_flag false = Post-trans itself s s' _ kept (
            (bind (push-Safe {ns = st ∷ ns} block st (λ h f. has h f.1) (λ h f. f.0))
                λ block'. loop-Safe _ block' (λ h f. f.0)).run
              s' kept.good
              (
                fit.0,
                All-map (Fits s.heap) (Fits s'.heap) ns
                    (λ n f. Fits-grow s.heap s'.heap kept.grows n f) fits,
              ))
    after_stat-Post s (null s') fits kept = by_flag s'.error
      where
        by_flag : (b : Bool) → Post itself s (if b then null s' else loop block s')
        by_flag true = kept
        by_flag false = Post-trans itself s s' _ kept (
            (loop-Safe ns block has).run s' kept.good (
              All-map (Fits s.heap) (Fits s'.heap) ns
                (λ n f. Fits-grow s.heap s'.heap kept.grows n f) fits))
    after_stat-Post s out_of_fuel fits p = tt

    last_stat-Safe : Safe itself ns (last_stat rounds parse_subexp parse_block block)
    unfolding last_stat
    last_stat-Safe =
        bind (parse_retstat-Safe rounds parse_subexp parse_block subexp-Safe block-Safe _) λ ret.
          bind (push-Safe block ret (λ h f. has h f.1) (λ h f. f.0))
            λ block'. bind (ps_match-Safe b';') λ _. give block' (λ h f. f.0)

    block_round-Safe :
        (ends semicolon returns : Bool)
        → Safe itself ns
            (block_round rounds parse_subexp parse_block loop block ends semicolon returns)
    unfolding block_round
    block_round-Safe true semicolon returns = give block has
    block_round-Safe false true returns = bind ps_advance-Safe λ _. loop-Safe _ block has
    block_round-Safe false false true = last_stat-Safe
    block_round-Safe false false false = record {
      run = λ s good fits. after_stat-Post s _ fits (
          (parse_stat-Safe rounds parse_subexp parse_block subexp-Safe block-Safe ns).run s good
            fits);
    }

  block_loop-Safe :
      (n : ℕ) (ns : List Node) (block : Node)
      → Has ns block
      → Safe itself ns (block_loop rounds parse_subexp parse_block n block)
  unfolding block_loop
  block_loop-Safe zero ns block has = fuel-Safe
  block_loop-Safe (suc n) ns block has = record {
    run = λ s good fits.
        (block_round-Safe ns (block_loop rounds parse_subexp parse_block n) (block_loop-Safe n)
            block has _ _ _).run
          s good fits;
  }

  block_body-Safe : (ns : List Node) → Safe itself ns (block_body rounds parse_subexp parse_block)
  unfolding block_body
  block_body-Safe ns =
      bind (alloc-Safe pn_block 4 (omega arith))
        λ block. block_loop-Safe rounds _ block (λ h f. f.0)

mutual
  unfolding parse_subexp

  parse_subexp-Safe :
      (fuel : ℕ) (ns : List Node) (prec : ℕ) → Safe itself ns (parse_subexp fuel prec)
  parse_subexp-Safe zero ns prec = fuel-Safe
  parse_subexp-Safe (suc f) ns prec =
      subexp_body-Safe f (parse_subexp f) (parse_block f) (λ ms p. parse_subexp-Safe f ms p)
        (λ ms. parse_block-Safe f ms) ns prec

  parse_block-Safe : (fuel : ℕ) (ns : List Node) → Safe itself ns (parse_block fuel)
  parse_block-Safe zero ns = fuel-Safe
  parse_block-Safe (suc f) ns =
      block_body-Safe f (parse_subexp f) (parse_block f) (λ ms p. parse_subexp-Safe f ms p)
        (λ ms. parse_block-Safe f ms) ns

parse_main-Safe : (fuel main_name : ℕ) → Safe itself [] (parse_main fuel main_name)
unfolding parse_main
parse_main-Safe fuel main_name = bind alloc_function-Safe λ (newfunc, name, arglist).
    bind
      (push_unchecked-Safe newfunc (set_val name main_name) (λ h f. f.0)
        (λ h f. Fits-set_val h name main_name f.1.0))
      λ newfunc₁.
        bind
          (push_unchecked-Safe newfunc₁ (set_val arglist 1) (λ h f. f.0)
            (λ h f. Fits-set_val h arglist 1 f.1.1.1.0))
          λ newfunc₂. bind (parse_block-Safe fuel _) λ block.
            bind check_error-Safe
              λ _. push_unchecked-Safe newfunc₂ block (λ h f. f.1.0) (λ h f. f.0)

-- A run over any tokens, in a valid arena of less than 2 ^ 31 bytes and with any fuel, that ends
-- leaves a valid arena in which every old header stands with no less room, the tokens as they were
-- and a position no further than their end; and where it gives a tree, every node of the tree is
-- an object of the arena with room for all its children.
pub mcparse_run-Fits :
    (fuel main_name : ℕ) (tokens : List Token) (heap : McHeap)
    → IsValid heap
    → heap.bfrcap < 2 ^ 31
    → Post itself
        (record { tokens = tokens; pos = 0; error = false; heap = heap })
        (mcparse_run fuel main_name tokens heap)
unfolding mcparse_run
mcparse_run-Fits fuel main_name tokens heap valid small =
    (parse_main-Safe fuel main_name).run _
      (record { valid = valid; small = small; inside = omega arith }) tt
