-- ===== src/Parse/Safe/Operators.antt =====
-- Suffixes, function bodies, simple expressions and operators are safe, where the recursion is.
use mclua.Prelude.{ℕ, zero, suc, arith, List, ◌==◌, ltb}
use mclua.Ast.Growth.{Fits-set_val}
use mclua.Parse.State.{Parser}
use mclua.Parse.Safe.{
  Safe, Has, itself, bind, either, choose, current-Safe, ps_advance-Safe, ps_expect-Safe, fuel-Safe,
}
use mclua.Parse.Safe.Steps.{
  give, alloc-Safe, push-Safe, push_unchecked-Safe, leaf-Safe, drain_children-Safe,
}
use mclua.Parse.Safe.Names.{parse_arglist-Safe}
use mclua.Parse.Safe.Expressions.{
  parse_args-Safe, parse_primaryexp-Safe, parse_tableconstructor-Safe,
}
use mclua.Ast.{
  pn_field, pn_index, pn_call, pn_call_method, pn_funcbody, pn_arglist, pn_func_expr, pn_integer,
  pn_float, pn_string, pn_nil, pn_true, pn_false, pn_vararg, pn_unop, pn_binop, Node, set_val,
}
use mclua.Token.{
  tk_name, tk_string, tk_int, tk_flt, tk_nil, tk_true, tk_false, tk_dots, tk_function, tk_end,
}
use mclua.Parse.Expressions.{is_unop, unop_prio, binop_prio_tbl}
use mclua.Parse.Operators.{
  suffix_field, suffix_index, suffix_method, suffix_call, starts_args, suffix_loop,
  parse_suffixedexp, parse_funcbody, func_expr, parse_simpleexp, lefthand, binop_loop, subexp_body,
}

module _ (rounds : ℕ) (parse_subexp : ℕ → Parser Node) (parse_block : Parser Node)
    (subexp-Safe : (ns : List Node) (prec : ℕ) → Safe itself ns (parse_subexp prec))
    (block-Safe : (ns : List Node) → Safe itself ns parse_block) where
  module _ {ns : List Node} (expr : Node) (has : Has ns expr) where
    suffix_field-Safe : Safe itself ns (suffix_field rounds parse_subexp parse_block expr)
    unfolding suffix_field
    suffix_field-Safe = bind ps_advance-Safe λ _. bind (ps_expect-Safe tk_name) λ name_tok.
        bind (alloc-Safe pn_field 1 (omega arith)) λ field.
          push_unchecked-Safe (set_val field name_tok.semantics) expr
            (λ h f. Fits-set_val h field name_tok.semantics f.0) (λ h f. has h f.1)

    suffix_index-Safe : Safe itself ns (suffix_index rounds parse_subexp parse_block expr)
    unfolding suffix_index
    suffix_index-Safe = bind ps_advance-Safe λ _. bind (subexp-Safe _ 0) λ key.
        bind (ps_expect-Safe b']') λ _. bind (alloc-Safe pn_index 2 (omega arith)) λ idx.
          bind (push_unchecked-Safe idx expr (λ h f. f.0) (λ h f. has h f.1.1))
            λ idx₁. push_unchecked-Safe idx₁ key (λ h f. f.0) (λ h f. f.1.1.0)

    suffix_method-Safe : Safe itself ns (suffix_method rounds parse_subexp parse_block expr)
    unfolding suffix_method
    suffix_method-Safe = bind ps_advance-Safe λ _. bind (ps_expect-Safe tk_name) λ name_tok.
        bind (parse_args-Safe rounds parse_subexp parse_block subexp-Safe _) λ raw_args.
          bind (alloc-Safe pn_call_method 2 (omega arith)) λ call.
            bind
              (push-Safe (set_val call name_tok.semantics) expr
                (λ h f. Fits-set_val h call name_tok.semantics f.0) (λ h f. has h f.1.1))
              λ call₁. drain_children-Safe call₁ raw_args (λ h f. f.0) (λ h f. f.1.1.0)

    suffix_call-Safe : Safe itself ns (suffix_call rounds parse_subexp parse_block expr)
    unfolding suffix_call
    suffix_call-Safe =
        bind (parse_args-Safe rounds parse_subexp parse_block subexp-Safe _) λ raw_args.
          bind (alloc-Safe pn_call 2 (omega arith)) λ call.
            bind (push-Safe call expr (λ h f. f.0) (λ h f. has h f.1.1))
              λ call₁. drain_children-Safe call₁ raw_args (λ h f. f.0) (λ h f. f.1.1.0)

  suffix_loop-Safe :
      {ns : List Node} (n : ℕ) (expr : Node)
      → Has ns expr
      → Safe itself ns (suffix_loop rounds parse_subexp parse_block n expr)
  unfolding suffix_loop
  suffix_loop-Safe zero expr has = fuel-Safe
  suffix_loop-Safe (suc n) expr has = bind current-Safe λ t.
      choose (b'.' == t.token_number)
        (choose (b'[' == t.token_number)
          (choose (b':' == t.token_number)
            (choose (starts_args rounds parse_subexp parse_block t.token_number) (give expr has)
              (bind (suffix_call-Safe expr has) λ e. suffix_loop-Safe n e (λ h f. f.0)))
            (bind (suffix_method-Safe expr has) λ e. suffix_loop-Safe n e (λ h f. f.0)))
          (bind (suffix_index-Safe expr has) λ e. suffix_loop-Safe n e (λ h f. f.0)))
        (bind (suffix_field-Safe expr has) λ e. suffix_loop-Safe n e (λ h f. f.0))

  pub parse_suffixedexp-Safe :
      (ns : List Node) → Safe itself ns (parse_suffixedexp rounds parse_subexp parse_block)
  unfolding parse_suffixedexp
  parse_suffixedexp-Safe ns =
      bind (parse_primaryexp-Safe rounds parse_subexp parse_block subexp-Safe _)
        λ expr. suffix_loop-Safe rounds expr (λ h f. f.0)

  pub parse_funcbody-Safe :
      (ns : List Node) → Safe itself ns (parse_funcbody rounds parse_subexp parse_block)
  unfolding parse_funcbody
  parse_funcbody-Safe ns = bind (alloc-Safe pn_funcbody 2 (omega arith)) λ body.
      bind (ps_expect-Safe b'(') λ _. bind (alloc-Safe pn_arglist 4 (omega arith)) λ pl.
        bind (parse_arglist-Safe pl (λ h f. f.0)) λ pl'.
          bind (push_unchecked-Safe body pl' (λ h f. f.1.1.0) (λ h f. f.0)) λ body₁.
            bind (ps_expect-Safe b')') λ _. bind (block-Safe _) λ blk.
              bind (push_unchecked-Safe body₁ blk (λ h f. f.1.0) (λ h f. f.0))
                λ body₂. bind (ps_expect-Safe tk_end) λ _. give body₂ (λ h f. f.0)

  func_expr-Safe : (ns : List Node) → Safe itself ns (func_expr rounds parse_subexp parse_block)
  unfolding func_expr
  func_expr-Safe ns = bind ps_advance-Safe λ _. bind (parse_funcbody-Safe _) λ body.
      bind (alloc-Safe pn_func_expr 1 (omega arith))
        λ fexpr. push_unchecked-Safe fexpr body (λ h f. f.0) (λ h f. f.1.0)

  parse_simpleexp-Safe :
      (ns : List Node) → Safe itself ns (parse_simpleexp rounds parse_subexp parse_block)
  unfolding parse_simpleexp
  parse_simpleexp-Safe ns = bind current-Safe λ t.
      let tk = t.token_number in
      either (b'{' == tk)
        (parse_tableconstructor-Safe rounds parse_subexp parse_block subexp-Safe _)
        (either (tk == tk_int) (bind ps_advance-Safe λ v. leaf-Safe pn_integer v.semantics) (
          either (tk == tk_flt) (bind ps_advance-Safe λ v. leaf-Safe pn_float v.semantics) (
            either (tk == tk_string) (bind ps_advance-Safe λ v. leaf-Safe pn_string v.semantics) (
              either (tk == tk_nil) (bind ps_advance-Safe λ _. alloc-Safe pn_nil 0 (omega arith)) (
                either (tk == tk_true)
                  (bind ps_advance-Safe λ _. alloc-Safe pn_true 0 (omega arith))
                  (either (tk == tk_false)
                    (bind ps_advance-Safe λ _. alloc-Safe pn_false 0 (omega arith))
                    (either (tk == tk_dots)
                      (bind ps_advance-Safe λ _. alloc-Safe pn_vararg 0 (omega arith))
                      (either (tk == tk_function) (func_expr-Safe _)
                        (parse_suffixedexp-Safe _)))))))))

  lefthand-Safe : (ns : List Node) → Safe itself ns (lefthand rounds parse_subexp parse_block)
  unfolding lefthand
  lefthand-Safe ns = bind current-Safe λ t.
      either (is_unop t.token_number)
        (bind ps_advance-Safe λ _. bind (subexp-Safe _ unop_prio) λ operand.
          bind (alloc-Safe pn_unop 1 (omega arith)) λ unop.
            push_unchecked-Safe (set_val unop t.token_number) operand
              (λ h f. Fits-set_val h unop t.token_number f.0) (λ h f. f.1.0))
        (parse_simpleexp-Safe _)

  binop_loop-Safe :
      {ns : List Node} (n min_prec : ℕ) (left : Node)
      → Has ns left
      → Safe itself ns (binop_loop rounds parse_subexp parse_block n min_prec left)
  unfolding binop_loop
  binop_loop-Safe zero min_prec left has = fuel-Safe
  binop_loop-Safe (suc n) min_prec left has = bind current-Safe λ t.
      let prio = binop_prio_tbl t.token_number in
      choose (ltb min_prec prio.left) (give left has) (
        bind ps_advance-Safe λ _. bind (subexp-Safe _ prio.right) λ right.
          bind (alloc-Safe pn_binop 2 (omega arith)) λ binop.
            bind
              (push_unchecked-Safe (set_val binop t.token_number) left
                (λ h f. Fits-set_val h binop t.token_number f.0) (λ h f. has h f.1.1))
              λ binop₁.
                bind (push_unchecked-Safe binop₁ right (λ h f. f.0) (λ h f. f.1.1.0))
                  λ binop₂. binop_loop-Safe n min_prec binop₂ (λ h f. f.0))

  pub subexp_body-Safe :
      (ns : List Node) (min_prec : ℕ)
      → Safe itself ns (subexp_body rounds parse_subexp parse_block min_prec)
  unfolding subexp_body
  subexp_body-Safe ns min_prec =
      bind (lefthand-Safe _) λ left. binop_loop-Safe rounds min_prec left (λ h f. f.0)
