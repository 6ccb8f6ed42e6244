-- ===== src/Parse/Statements.antt =====
-- src/parse/mcparse.c: the other statements, and `parse_stat`, over the functions that the
-- recursion goes through.
use mclua.Prelude.{ℕ, zero, suc, Bool, true, false, ◌||◌, ◌==◌, if◌then◌else◌}
use mclua.Ast.{
  ParseNodeType, pn_call, pn_call_method, pn_assign, pn_local, pn_local_func, pn_break, pn_goto,
  pn_label, pn_call_stat, Node, ast_type, ast_nchild, set_val,
}
use mclua.Token.{
  tk_name, tk_end, tk_do, tk_function, tk_dbcolon, tk_if, tk_while, tk_for, tk_repeat, tk_local,
  tk_goto, tk_break,
}
use mclua.Parse.State.{
  Parser, out_of_fuel, ◌>>=◌, ◌>>◌, pure, fail, current, ps_advance, ps_match, ps_expect, alloc,
  alloc_function, check_error, push, push_unchecked, drain_children, leaf,
}
use mclua.Parse.Names.{token_rounds, parse_arglist, parse_funcname_into, parse_attname}
use mclua.Parse.Expressions
use mclua.Parse.Operators
use mclua.Parse.Control

-- `parse_goto`
unfoldable pub parse_goto : Parser Node
parse_goto = do ps_advance; name_tok ← ps_expect tk_name; leaf pn_goto name_tok.semantics

-- `parse_label`
unfoldable pub parse_label : Parser Node
parse_label = do
  ps_advance
  name_tok ← ps_expect tk_name
  ps_expect tk_dbcolon
  leaf pn_label name_tok.semantics

-- The names of `parse_local`.
unfoldable pub local_names : ℕ → Node → Parser Node
local_names zero stat s = out_of_fuel
local_names (suc n) stat s =
    (do
      more ← ps_match b','
      elim more [
        | false ↦ pure stat
        | true ↦ do an ← parse_attname; stat' ← push stat an; local_names n stat'
      ])
      s

unfoldable pub is_call : ParseNodeType → Bool
is_call pn_call = true
is_call pn_call_method = true
is_call _ = false

module _ (rounds : ℕ) (parse_subexp : ℕ → Parser Node) (parse_block : Parser Node) where
  abbrev exp : Parser Node
  exp = Expressions.parse_exp rounds parse_subexp parse_block

  abbrev explist : Parser Node
  explist = Expressions.parse_explist rounds parse_subexp parse_block

  abbrev suffixedexp : Parser Node
  suffixedexp = Operators.parse_suffixedexp rounds parse_subexp parse_block

  unfoldable pub local_func : Parser Node
  local_func = do
    ps_advance
    name_tok ← ps_expect tk_name
    body ← Operators.parse_funcbody rounds parse_subexp parse_block
    stat ← alloc pn_local_func 1
    push_unchecked (set_val stat name_tok.semantics) body

  unfoldable pub local_vars : Parser Node
  unfolding local_names
  local_vars = do
    stat ← alloc pn_local 4
    an ← parse_attname
    stat₁ ← push stat an
    n ← token_rounds
    stat₂ ← local_names n stat₁
    assigned ← ps_match b'='
    let stat₃ = set_val stat₂ (ast_nchild stat₂)
    if assigned then (do el ← explist; drain_children stat₃ el) else pure stat₃

  -- `parse_local`
  unfoldable pub parse_local : Parser Node
  unfolding local_func local_vars
  parse_local = do
    ps_advance
    t ← current
    if tk_function == t.token_number then local_func else local_vars

  unfoldable pub assign_targets : ℕ → Node → Parser Node
  assign_targets zero stat s = out_of_fuel
  assign_targets (suc n) stat s =
      (do
        more ← ps_match b','
        elim more [
          | false ↦ pure stat
          | true ↦ do var ← suffixedexp; stat' ← push stat var; assign_targets n stat'
        ])
        s

  unfoldable pub assignment : Node → Parser Node
  unfolding assign_targets
  assignment expr = do
    stat ← alloc pn_assign 4
    stat₁ ← push stat expr
    stat₂ ← assign_targets rounds stat₁
    ps_expect b'='
    el ← explist
    drain_children (set_val stat₂ (ast_nchild stat₂)) el

  -- `parse_exprstat`
  unfoldable pub parse_exprstat : Parser Node
  unfolding assignment is_call
  parse_exprstat = do
    expr ← suffixedexp
    t ← current
    if b'=' == t.token_number || b',' == t.token_number
        then assignment expr
        else (if is_call (ast_type expr)
            then (do stat ← alloc pn_call_stat 1; push_unchecked stat expr)
            else fail)

  -- `parse_function` for a function statement. The source fills the name and the parameters in
  -- after it has pushed them to the definition, whose three places need no growth.
  unfoldable pub parse_function : Parser Node
  parse_function = do
    (newfunc, name, arglist) ← alloc_function
    ps_advance
    (name', rcode) ← parse_funcname_into name
    ps_expect b'('
    arglist' ← parse_arglist arglist
    ps_expect b')'
    block ← parse_block
    check_error
    newfunc₁ ← push_unchecked (set_val newfunc rcode) name'
    newfunc₂ ← push_unchecked newfunc₁ arglist'
    newfunc₃ ← push_unchecked newfunc₂ block
    ps_expect tk_end
    pure newfunc₃

  -- `parse_stat`
  unfoldable pub parse_stat : Parser Node
  parse_stat = do
    t ← current
    let tk = t.token_number
    if tk == tk_if
        then Control.parse_if rounds parse_subexp parse_block
        else (if tk == tk_while
            then Control.parse_while rounds parse_subexp parse_block
            else (if tk == tk_do
                then Control.parse_do rounds parse_subexp parse_block
                else (if tk == tk_for
                    then Control.parse_for rounds parse_subexp parse_block
                    else (if tk == tk_repeat
                        then Control.parse_repeat rounds parse_subexp parse_block
                        else (if tk == tk_function
                            then parse_function
                            else (if tk == tk_local
                                then parse_local
                                else (if tk == tk_goto
                                    then parse_goto
                                    else (if tk == tk_break
                                        then (do ps_advance; alloc pn_break 0)
                                        else (if tk == tk_dbcolon
                                            then parse_label
                                            else parse_exprstat)))))))))
