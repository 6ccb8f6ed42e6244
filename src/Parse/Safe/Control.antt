-- ===== src/Parse/Safe/Control.antt =====
-- The statements that hold blocks, and `return`, are safe, where the recursion is.
use mclua.Prelude.{ℕ, zero, suc, arith, List, ◌==◌, ◌||◌}
use mclua.Ast.Growth.{Fits-set_val}
use mclua.Parse.State.{Parser, is_block_end}
use mclua.Parse.Safe.{
  Safe, Has, itself, bind, either, choose, current-Safe, ps_advance-Safe, ps_match-Safe,
  ps_expect-Safe, fuel-Safe,
}
use mclua.Parse.Safe.Steps.{
  give, alloc-Safe, push-Safe, push_unchecked-Safe, leaf-Safe, drain_children-Safe,
}
use mclua.Parse.Safe.Names.{token_rounds-Safe}
use mclua.Parse.Safe.Expressions.{parse_exp-Safe, parse_explist-Safe}
use mclua.Ast.{
  pn_name, pn_return, pn_if, pn_elseif, pn_else, pn_while, pn_do, pn_fornum, pn_forin, pn_repeat,
  Node, set_val, ast_nchild,
}
use mclua.Token.{tk_name, tk_then, tk_elseif, tk_else, tk_end, tk_do, tk_in, tk_until}
use mclua.Parse.Expressions.{parse_exp}
use mclua.Parse.Control.{
  forin_names, parse_retstat, elseif_loop, parse_if, parse_while, parse_do, fornum, forin,
  parse_for, parse_repeat,
}

forin_names-Safe :
    {ns : List Node} (n : ℕ) (stat : Node) → Has ns stat → Safe itself ns (forin_names n stat)
unfolding forin_names
forin_names-Safe zero stat has = fuel-Safe
forin_names-Safe (suc n) stat has = bind (ps_match-Safe b',') λ more. choose more (give stat has) (
    bind (ps_expect-Safe tk_name) λ tok. bind (leaf-Safe pn_name tok.semantics) λ nm.
      bind (push-Safe stat nm (λ h f. has h f.1) (λ h f. f.0))
        λ stat'. forin_names-Safe n stat' (λ h f. f.0))

module _ (rounds : ℕ) (parse_subexp : ℕ → Parser Node) (parse_block : Parser Node)
    (subexp-Safe : (ns : List Node) (prec : ℕ) → Safe itself ns (parse_subexp prec))
    (block-Safe : (ns : List Node) → Safe itself ns parse_block) where
  exp-Safe : (ns : List Node) → Safe itself ns (parse_exp rounds parse_subexp parse_block)
  exp-Safe = parse_exp-Safe rounds parse_subexp parse_block subexp-Safe

  pub parse_retstat-Safe :
      (ns : List Node) → Safe itself ns (parse_retstat rounds parse_subexp parse_block)
  unfolding parse_retstat
  parse_retstat-Safe ns = bind (alloc-Safe pn_return 4 (omega arith)) λ ret.
      bind ps_advance-Safe λ _. bind current-Safe λ t.
        bind
          (either (is_block_end t.token_number || b';' == t.token_number) (give ret (λ h f. f.0)) (
            bind (parse_explist-Safe rounds parse_subexp parse_block subexp-Safe _)
              λ el. drain_children-Safe ret el (λ h f. f.1.0) (λ h f. f.0)))
          λ ret'. bind (ps_match-Safe b';') λ _. give ret' (λ h f. f.0)

  elseif_loop-Safe :
      {ns : List Node} (n : ℕ) (stat : Node)
      → Has ns stat
      → Safe itself ns (elseif_loop rounds parse_subexp parse_block n stat)
  unfolding elseif_loop
  elseif_loop-Safe zero stat has = fuel-Safe
  elseif_loop-Safe (suc n) stat has = bind current-Safe λ t.
      choose (tk_elseif == t.token_number) (give stat has) (
        bind ps_advance-Safe λ _. bind (exp-Safe _) λ ei_cond. bind (ps_expect-Safe tk_then) λ _.
          bind (block-Safe _) λ ei_blk. bind (alloc-Safe pn_elseif 2 (omega arith)) λ ei.
            bind (push_unchecked-Safe ei ei_cond (λ h f. f.0) (λ h f. f.1.1.0)) λ ei₁.
              bind (push_unchecked-Safe ei₁ ei_blk (λ h f. f.0) (λ h f. f.1.1.0)) λ ei₂.
                bind (push-Safe stat ei₂ (λ h f. has h f.1.1.1.1.1) (λ h f. f.0))
                  λ stat'. elseif_loop-Safe n stat' (λ h f. f.0))

  pub parse_if-Safe : (ns : List Node) → Safe itself ns (parse_if rounds parse_subexp parse_block)
  unfolding parse_if
  parse_if-Safe ns = bind ps_advance-Safe λ _. bind (exp-Safe _) λ cond.
      bind (ps_expect-Safe tk_then) λ _. bind (block-Safe _) λ blk.
        bind (alloc-Safe pn_if 4 (omega arith)) λ stat.
          bind (push-Safe stat cond (λ h f. f.0) (λ h f. f.1.1.0)) λ stat₁.
            bind (push-Safe stat₁ blk (λ h f. f.0) (λ h f. f.1.1.0)) λ stat₂.
              bind (elseif_loop-Safe rounds stat₂ (λ h f. f.0)) λ stat₃. bind current-Safe λ t.
                bind
                  (either (tk_else == t.token_number)
                    (bind ps_advance-Safe λ _. bind (block-Safe _) λ else_blk.
                      bind (alloc-Safe pn_else 1 (omega arith)) λ else_node.
                        bind (push_unchecked-Safe else_node else_blk (λ h f. f.0) (λ h f. f.1.0))
                          λ else_node₁. push-Safe stat₃ else_node₁ (λ h f. f.1.1.1.0) (λ h f. f.0))
                    (give stat₃ (λ h f. f.0)))
                  λ stat₄. bind (ps_expect-Safe tk_end) λ _. give stat₄ (λ h f. f.0)

  pub parse_while-Safe :
      (ns : List Node) → Safe itself ns (parse_while rounds parse_subexp parse_block)
  unfolding parse_while
  parse_while-Safe ns = bind ps_advance-Safe λ _. bind (exp-Safe _) λ cond.
      bind (ps_expect-Safe tk_do) λ _. bind (block-Safe _) λ blk. bind (ps_expect-Safe tk_end) λ _.
        bind (alloc-Safe pn_while 2 (omega arith)) λ stat.
          bind (push_unchecked-Safe stat cond (λ h f. f.0) (λ h f. f.1.1.0))
            λ stat₁. push_unchecked-Safe stat₁ blk (λ h f. f.0) (λ h f. f.1.1.0)

  pub parse_do-Safe : (ns : List Node) → Safe itself ns (parse_do rounds parse_subexp parse_block)
  unfolding parse_do
  parse_do-Safe ns = bind ps_advance-Safe λ _. bind (block-Safe _) λ blk.
      bind (ps_expect-Safe tk_end) λ _.
        bind (alloc-Safe pn_do 1 (omega arith))
          λ stat. push_unchecked-Safe stat blk (λ h f. f.0) (λ h f. f.1.0)

  -- The end of a numeric loop: the block, and the node with its parts.
  fornum-Safe :
      (ns : List Node) (name : ℕ) → Safe itself ns (fornum rounds parse_subexp parse_block name)
  unfolding fornum
  fornum-Safe ns name = bind ps_advance-Safe λ _. bind (exp-Safe _) λ start.
      bind (ps_expect-Safe b',') λ _. bind (exp-Safe _) λ limit.
        bind (ps_match-Safe b',') λ has_step.
          either has_step
            (bind (exp-Safe _) λ step. bind (ps_expect-Safe tk_do) λ _. bind (block-Safe _) λ blk.
              bind (ps_expect-Safe tk_end) λ _. bind (alloc-Safe pn_fornum 4 (omega arith)) λ stat.
                bind
                  (push_unchecked-Safe (set_val stat name) start
                    (λ h f. Fits-set_val h stat name f.0) (λ h f. f.1.1.1.1.0))
                  λ stat₁.
                    bind (push_unchecked-Safe stat₁ limit (λ h f. f.0) (λ h f. f.1.1.1.1.0))
                      λ stat₂.
                        bind (push_unchecked-Safe stat₂ step (λ h f. f.0) (λ h f. f.1.1.1.1.0))
                          λ stat₃. push_unchecked-Safe stat₃ blk (λ h f. f.0) (λ h f. f.1.1.1.1.0))
            (bind (ps_expect-Safe tk_do) λ _. bind (block-Safe _) λ blk.
              bind (ps_expect-Safe tk_end) λ _. bind (alloc-Safe pn_fornum 4 (omega arith)) λ stat.
                bind
                  (push_unchecked-Safe (set_val stat name) start
                    (λ h f. Fits-set_val h stat name f.0) (λ h f. f.1.1.1.0))
                  λ stat₁.
                    bind (push_unchecked-Safe stat₁ limit (λ h f. f.0) (λ h f. f.1.1.1.0))
                      λ stat₂. push_unchecked-Safe stat₂ blk (λ h f. f.0) (λ h f. f.1.1.1.0))

  forin-Safe :
      (ns : List Node) (name : ℕ) → Safe itself ns (forin rounds parse_subexp parse_block name)
  unfolding forin
  forin-Safe ns name = bind (alloc-Safe pn_forin 4 (omega arith)) λ stat.
      bind (leaf-Safe pn_name name) λ nm.
        bind (push-Safe stat nm (λ h f. f.1.0) (λ h f. f.0)) λ stat₁. bind token_rounds-Safe λ n.
          bind (forin_names-Safe n stat₁ (λ h f. f.0)) λ stat₂. bind (ps_expect-Safe tk_in) λ _.
            bind (parse_explist-Safe rounds parse_subexp parse_block subexp-Safe _) λ el.
              bind
                (drain_children-Safe (set_val stat₂ (ast_nchild stat₂)) el
                  (λ h f. Fits-set_val h stat₂ (ast_nchild stat₂) f.1.0) (λ h f. f.0))
                λ stat₃. bind (ps_expect-Safe tk_do) λ _. bind (block-Safe _) λ blk.
                  bind (ps_expect-Safe tk_end) λ _. push-Safe stat₃ blk (λ h f. f.1.0) (λ h f. f.0)

  pub parse_for-Safe : (ns : List Node) → Safe itself ns (parse_for rounds parse_subexp parse_block)
  unfolding parse_for
  parse_for-Safe ns = bind ps_advance-Safe λ _. bind (ps_expect-Safe tk_name) λ first_name.
      bind current-Safe λ t.
        either (b'=' == t.token_number) (fornum-Safe _ first_name.semantics)
          (forin-Safe _ first_name.semantics)

  pub parse_repeat-Safe :
      (ns : List Node) → Safe itself ns (parse_repeat rounds parse_subexp parse_block)
  unfolding parse_repeat
  parse_repeat-Safe ns = bind ps_advance-Safe λ _. bind (block-Safe _) λ blk.
      bind (ps_expect-Safe tk_until) λ _. bind (exp-Safe _) λ cond.
        bind (alloc-Safe pn_repeat 2 (omega arith)) λ stat.
          bind (push_unchecked-Safe stat blk (λ h f. f.0) (λ h f. f.1.1.0))
            λ stat₁. push_unchecked-Safe stat₁ cond (λ h f. f.0) (λ h f. f.1.1.0)
