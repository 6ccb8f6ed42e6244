-- ===== src/Parse/Operators.antt =====
-- src/parse/mcparse.c: suffixed and simple expressions, function bodies, and operators by
-- precedence, over the functions that the recursion goes through.
use mclua.Prelude.{ℕ, zero, suc, Bool, true, false, ◌||◌, ltb, ◌==◌, if◌then◌else◌}
use mclua.Ast.{
  pn_nil, pn_true, pn_false, pn_integer, pn_float, pn_string, pn_vararg, pn_binop, pn_unop,
  pn_index, pn_field, pn_call, pn_call_method, pn_func_expr, pn_funcbody, pn_arglist, Node, set_val,
}
use mclua.Token.{
  tk_name, tk_string, tk_int, tk_flt, tk_nil, tk_true, tk_false, tk_dots, tk_function, tk_end,
}
use mclua.Parse.State.{
  Parser, out_of_fuel, ◌>>=◌, ◌>>◌, pure, current, ps_advance, ps_expect, alloc, push,
  push_unchecked, drain_children, leaf,
}
use mclua.Parse.Names.{parse_arglist}
use mclua.Parse.Expressions

module _ (rounds : ℕ) (parse_subexp : ℕ → Parser Node) (parse_block : Parser Node) where
  -- `.name`
  unfoldable pub suffix_field : Node → Parser Node
  suffix_field expr = do
    ps_advance
    name_tok ← ps_expect tk_name
    field ← alloc pn_field 1
    push_unchecked (set_val field name_tok.semantics) expr

  -- `[key]`
  unfoldable pub suffix_index : Node → Parser Node
  suffix_index expr = do
    ps_advance
    key ← parse_subexp 0
    ps_expect b']'
    idx ← alloc pn_index 2
    idx₁ ← push_unchecked idx expr
    push_unchecked idx₁ key

  -- `:name args`
  unfoldable pub suffix_method : Node → Parser Node
  suffix_method expr = do
    ps_advance
    name_tok ← ps_expect tk_name
    raw_args ← Expressions.parse_args rounds parse_subexp parse_block
    call ← alloc pn_call_method 2
    call₁ ← push (set_val call name_tok.semantics) expr
    drain_children call₁ raw_args

  -- `args`
  unfoldable pub suffix_call : Node → Parser Node
  suffix_call expr = do
    raw_args ← Expressions.parse_args rounds parse_subexp parse_block
    call ← alloc pn_call 2
    call₁ ← push call expr
    drain_children call₁ raw_args

  unfoldable pub starts_args : ℕ → Bool
  starts_args tk = b'(' == tk || (b'{' == tk || tk_string == tk)

  unfoldable pub suffix_loop : ℕ → Node → Parser Node
  unfolding suffix_field suffix_index suffix_method suffix_call starts_args
  suffix_loop zero expr s = out_of_fuel
  suffix_loop (suc n) expr s =
      (do
        t ← current
        let tk = t.token_number
        elim (b'.' == tk) [
          | true ↦ do expr' ← suffix_field expr; suffix_loop n expr'
          | false ↦ elim (b'[' == tk) [
            | true ↦ do expr' ← suffix_index expr; suffix_loop n expr'
            | false ↦ elim (b':' == tk) [
              | true ↦ do expr' ← suffix_method expr; suffix_loop n expr'
              | false ↦ elim (starts_args tk) [
                | true ↦ do expr' ← suffix_call expr; suffix_loop n expr'
                | false ↦ pure expr
              ]
            ]
          ]
        ])
        s

  -- `parse_suffixedexp`. At TK_EOS the source leaves its loop, where none of the cases holds either.
  unfoldable pub parse_suffixedexp : Parser Node
  unfolding suffix_loop
  parse_suffixedexp = do
    expr ← Expressions.parse_primaryexp rounds parse_subexp parse_block
    suffix_loop rounds expr

  -- `parse_funcbody`
  unfoldable pub parse_funcbody : Parser Node
  parse_funcbody = do
    body ← alloc pn_funcbody 2
    ps_expect b'('
    pl ← alloc pn_arglist 4
    pl' ← parse_arglist pl
    body₁ ← push_unchecked body pl'
    ps_expect b')'
    blk ← parse_block
    body₂ ← push_unchecked body₁ blk
    ps_expect tk_end
    pure body₂

  unfoldable pub func_expr : Parser Node
  unfolding parse_funcbody
  func_expr = do
    ps_advance
    body ← parse_funcbody
    fexpr ← alloc pn_func_expr 1
    push_unchecked fexpr body

  -- `parse_simpleexp`
  unfoldable pub parse_simpleexp : Parser Node
  unfolding func_expr parse_suffixedexp
  parse_simpleexp = do
    t ← current
    let tk = t.token_number
    if b'{' == tk
        then Expressions.parse_tableconstructor rounds parse_subexp parse_block
        else (if tk == tk_int
            then (do v ← ps_advance; leaf pn_integer v.semantics)
            else (if tk == tk_flt
                then (do v ← ps_advance; leaf pn_float v.semantics)
                else (if tk == tk_string
                    then (do v ← ps_advance; leaf pn_string v.semantics)
                    else (if tk == tk_nil
                        then (do ps_advance; alloc pn_nil 0)
                        else (if tk == tk_true
                            then (do ps_advance; alloc pn_true 0)
                            else (if tk == tk_false
                                then (do ps_advance; alloc pn_false 0)
                                else (if tk == tk_dots
                                    then (do ps_advance; alloc pn_vararg 0)
                                    else (if tk == tk_function
                                        then func_expr
                                        else parse_suffixedexp))))))))

  -- The operand of a unary operator, or a simple expression.
  unfoldable pub lefthand : Parser Node
  unfolding parse_simpleexp
  lefthand = do
    t ← current
    let tknum = t.token_number
    if Expressions.is_unop tknum
        then (do
          ps_advance
          operand ← parse_subexp Expressions.unop_prio
          unop ← alloc pn_unop 1
          push_unchecked (set_val unop tknum) operand)
        else parse_simpleexp

  unfoldable pub binop_loop : ℕ → ℕ → Node → Parser Node
  binop_loop zero min_prec left s = out_of_fuel
  binop_loop (suc n) min_prec left s =
      (do
        t ← current
        let tknum = t.token_number
        let prio = Expressions.binop_prio_tbl tknum
        elim (ltb min_prec prio.left) [
          | false ↦ pure left
          | true ↦ do
            ps_advance
            right ← parse_subexp prio.right
            binop ← alloc pn_binop 2
            binop₁ ← push_unchecked (set_val binop tknum) left
            binop₂ ← push_unchecked binop₁ right
            binop_loop n min_prec binop₂
        ])
        s

  -- The body of `parse_subexp`.
  unfoldable pub subexp_body : ℕ → Parser Node
  unfolding lefthand binop_loop
  subexp_body min_prec = do left ← lefthand; binop_loop rounds min_prec left
