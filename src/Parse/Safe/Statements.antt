-- ===== src/Parse/Safe/Statements.antt =====
-- The other statements, and `parse_stat`, are safe, where the recursion is.
use mclua.Prelude.{ℕ, zero, suc, arith, List, ◌==◌, ◌||◌}
use mclua.Ast.Growth.{Fits-set_val}
use mclua.Parse.State.{Parser}
use mclua.Parse.Safe.{
  Safe, Has, itself, bind, either, choose, fail-Safe, current-Safe, ps_advance-Safe, ps_match-Safe,
  ps_expect-Safe, check_error-Safe, fuel-Safe,
}
use mclua.Parse.Safe.Steps.{
  give, alloc-Safe, push-Safe, push_unchecked-Safe, leaf-Safe, drain_children-Safe,
  alloc_function-Safe,
}
use mclua.Parse.Safe.Names.{
  token_rounds-Safe, parse_arglist-Safe, parse_funcname_into-Safe, parse_attname-Safe,
}
use mclua.Parse.Safe.Expressions.{parse_explist-Safe}
use mclua.Parse.Safe.Operators.{parse_suffixedexp-Safe, parse_funcbody-Safe}
use mclua.Ast.{
  pn_local, pn_local_func, pn_assign, pn_call_stat, pn_goto, pn_label, pn_break, Node, set_val,
  ast_nchild, ast_type,
}
use mclua.Token.{
  tk_name, tk_dbcolon, tk_function, tk_end, tk_if, tk_while, tk_do, tk_for, tk_repeat, tk_local,
  tk_goto, tk_break,
}
use mclua.Parse.Expressions.{parse_explist}
use mclua.Parse.Operators.{parse_suffixedexp}
use mclua.Parse.Statements.{
  parse_goto, parse_label, local_names, is_call, local_func, local_vars, parse_local,
  assign_targets, assignment, parse_exprstat, parse_function, parse_stat,
}
use mclua.Parse.Safe.Control.{
  parse_if-Safe, parse_while-Safe, parse_do-Safe, parse_for-Safe, parse_repeat-Safe,
}

parse_goto-Safe : (ns : List Node) → Safe itself ns parse_goto
unfolding parse_goto
parse_goto-Safe ns =
    bind ps_advance-Safe
      λ _. bind (ps_expect-Safe tk_name) λ name_tok. leaf-Safe pn_goto name_tok.semantics

parse_label-Safe : (ns : List Node) → Safe itself ns parse_label
unfolding parse_label
parse_label-Safe ns = bind ps_advance-Safe λ _.
    bind (ps_expect-Safe tk_name)
      λ name_tok. bind (ps_expect-Safe tk_dbcolon) λ _. leaf-Safe pn_label name_tok.semantics

local_names-Safe :
    {ns : List Node} (n : ℕ) (stat : Node) → Has ns stat → Safe itself ns (local_names n stat)
unfolding local_names
local_names-Safe zero stat has = fuel-Safe
local_names-Safe (suc n) stat has = bind (ps_match-Safe b',') λ more. choose more (give stat has) (
    bind parse_attname-Safe λ an.
      bind (push-Safe stat an (λ h f. has h f.1) (λ h f. f.0))
        λ stat'. local_names-Safe n stat' (λ h f. f.0))

module _ (rounds : ℕ) (parse_subexp : ℕ → Parser Node) (parse_block : Parser Node)
    (subexp-Safe : (ns : List Node) (prec : ℕ) → Safe itself ns (parse_subexp prec))
    (block-Safe : (ns : List Node) → Safe itself ns parse_block) where
  explist-Safe : (ns : List Node) → Safe itself ns (parse_explist rounds parse_subexp parse_block)
  explist-Safe = parse_explist-Safe rounds parse_subexp parse_block subexp-Safe

  suffixedexp-Safe :
      (ns : List Node) → Safe itself ns (parse_suffixedexp rounds parse_subexp parse_block)
  suffixedexp-Safe = parse_suffixedexp-Safe rounds parse_subexp parse_block subexp-Safe block-Safe

  local_func-Safe : (ns : List Node) → Safe itself ns (local_func rounds parse_subexp parse_block)
  unfolding local_func
  local_func-Safe ns = bind ps_advance-Safe λ _. bind (ps_expect-Safe tk_name) λ name_tok.
      bind (parse_funcbody-Safe rounds parse_subexp parse_block subexp-Safe block-Safe _) λ body.
        bind (alloc-Safe pn_local_func 1 (omega arith)) λ stat.
          push_unchecked-Safe (set_val stat name_tok.semantics) body
            (λ h f. Fits-set_val h stat name_tok.semantics f.0) (λ h f. f.1.0)

  local_vars-Safe : (ns : List Node) → Safe itself ns (local_vars rounds parse_subexp parse_block)
  unfolding local_vars
  local_vars-Safe ns = bind (alloc-Safe pn_local 4 (omega arith)) λ stat.
      bind parse_attname-Safe λ an. bind (push-Safe stat an (λ h f. f.1.0) (λ h f. f.0)) λ stat₁.
        bind token_rounds-Safe λ n. bind (local_names-Safe n stat₁ (λ h f. f.0)) λ stat₂.
          bind (ps_match-Safe b'=') λ assigned.
            either assigned
              (bind (explist-Safe _) λ el.
                drain_children-Safe (set_val stat₂ (ast_nchild stat₂)) el
                  (λ h f. Fits-set_val h stat₂ (ast_nchild stat₂) f.1.0) (λ h f. f.0))
              (give (set_val stat₂ (ast_nchild stat₂))
                (λ h f. Fits-set_val h stat₂ (ast_nchild stat₂) f.0))

  parse_local-Safe : (ns : List Node) → Safe itself ns (parse_local rounds parse_subexp parse_block)
  unfolding parse_local
  parse_local-Safe ns = bind ps_advance-Safe λ _.
      bind current-Safe
        λ t. either (tk_function == t.token_number) (local_func-Safe _) (local_vars-Safe _)

  assign_targets-Safe :
      {ns : List Node} (n : ℕ) (stat : Node)
      → Has ns stat
      → Safe itself ns (assign_targets rounds parse_subexp parse_block n stat)
  unfolding assign_targets
  assign_targets-Safe zero stat has = fuel-Safe
  assign_targets-Safe (suc n) stat has = bind (ps_match-Safe b',') λ more.
      choose more (give stat has) (
        bind (suffixedexp-Safe _) λ var.
          bind (push-Safe stat var (λ h f. has h f.1) (λ h f. f.0))
            λ stat'. assign_targets-Safe n stat' (λ h f. f.0))

  assignment-Safe :
      {ns : List Node} (expr : Node)
      → Has ns expr
      → Safe itself ns (assignment rounds parse_subexp parse_block expr)
  unfolding assignment
  assignment-Safe expr has = bind (alloc-Safe pn_assign 4 (omega arith)) λ stat.
      bind (push-Safe stat expr (λ h f. f.0) (λ h f. has h f.1)) λ stat₁.
        bind (assign_targets-Safe rounds stat₁ (λ h f. f.0)) λ stat₂.
          bind (ps_expect-Safe b'=') λ _. bind (explist-Safe _) λ el.
            drain_children-Safe (set_val stat₂ (ast_nchild stat₂)) el
              (λ h f. Fits-set_val h stat₂ (ast_nchild stat₂) f.1.0) (λ h f. f.0)

  parse_exprstat-Safe :
      (ns : List Node) → Safe itself ns (parse_exprstat rounds parse_subexp parse_block)
  unfolding parse_exprstat
  parse_exprstat-Safe ns = bind (suffixedexp-Safe _) λ expr. bind current-Safe λ t.
      either (b'=' == t.token_number || b',' == t.token_number) (assignment-Safe expr (λ h f. f.0))
        (either (is_call (ast_type expr))
          (bind (alloc-Safe pn_call_stat 1 (omega arith))
            λ stat. push_unchecked-Safe stat expr (λ h f. f.0) (λ h f. f.1.0))
          fail-Safe)

  parse_function-Safe :
      (ns : List Node) → Safe itself ns (parse_function rounds parse_subexp parse_block)
  unfolding parse_function
  parse_function-Safe ns = bind alloc_function-Safe λ (newfunc, name, arglist).
      bind ps_advance-Safe λ _.
        bind (parse_funcname_into-Safe name (λ h f. f.1.0)) λ (name', rcode).
          bind (ps_expect-Safe b'(') λ _.
            bind (parse_arglist-Safe arglist (λ h f. f.1.1.1.0)) λ arglist'.
              bind (ps_expect-Safe b')') λ _. bind (block-Safe _) λ block.
                bind check_error-Safe λ _.
                  bind
                    (push_unchecked-Safe (set_val newfunc rcode) name'
                      (λ h f. Fits-set_val h newfunc rcode f.1.1.1.0) (λ h f. f.1.1.0))
                    λ newfunc₁.
                      bind (push_unchecked-Safe newfunc₁ arglist' (λ h f. f.0) (λ h f. f.1.1.0))
                        λ newfunc₂.
                          bind (push_unchecked-Safe newfunc₂ block (λ h f. f.0) (λ h f. f.1.1.0))
                            λ newfunc₃. bind (ps_expect-Safe tk_end) λ _. give newfunc₃ (λ h f. f.0)

  pub parse_stat-Safe :
      (ns : List Node) → Safe itself ns (parse_stat rounds parse_subexp parse_block)
  unfolding parse_stat
  parse_stat-Safe ns = bind current-Safe λ t.
      let tk = t.token_number in
      either (tk == tk_if) (parse_if-Safe rounds parse_subexp parse_block subexp-Safe block-Safe _)
        (either (tk == tk_while)
          (parse_while-Safe rounds parse_subexp parse_block subexp-Safe block-Safe _)
          (either (tk == tk_do)
            (parse_do-Safe rounds parse_subexp parse_block subexp-Safe block-Safe _)
            (either (tk == tk_for)
              (parse_for-Safe rounds parse_subexp parse_block subexp-Safe block-Safe _)
              (either (tk == tk_repeat)
                (parse_repeat-Safe rounds parse_subexp parse_block subexp-Safe block-Safe _)
                (either (tk == tk_function) (parse_function-Safe _) (
                  either (tk == tk_local) (parse_local-Safe _) (
                    either (tk == tk_goto) (parse_goto-Safe _) (
                      either (tk == tk_break)
                        (bind ps_advance-Safe λ _. alloc-Safe pn_break 0 (omega arith))
                        (either (tk == tk_dbcolon) (parse_label-Safe _)
                          (parse_exprstat-Safe _))))))))))
