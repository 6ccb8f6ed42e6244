-- ===== src/Parse/Expressions.antt =====
-- src/parse/mcparse.c: expressions, over the functions that the recursion goes through. A loop runs
-- on fuel of its own, the `rounds`.
use mclua.Prelude.{ℕ, zero, suc, List, [], ◌∷◌, Bool, true, false, ◌||◌, ◌==◌, if◌then◌else◌}
use mclua.Ast.{
  ParseNodeType, pn_string, pn_vararg, pn_paren, pn_name, pn_call, pn_call_method, pn_table,
  pn_field_idx, pn_field_name, pn_field_val, pn_explist, Node, ast_type, set_val,
}
use mclua.Token.{
  tk_and, tk_or, tk_le, tk_ge, tk_eq, tk_ne, tk_shl, tk_shr, tk_concat, tk_idiv, tk_not, tk_name,
  tk_string, tk_eos,
}
use mclua.Parse.State.{
  Parser, out_of_fuel, ◌>>=◌, ◌>>◌, pure, fail, current, position, go_back, ps_advance, ps_match,
  ps_expect, alloc, push, push_unchecked, drain_children, leaf,
}

-- `BinOpPrio`, and `binop_prio_tbl` as the list of its entries; all others are zero.
pub record BinOpPrio : Type 0 where
  pub left : ℕ
  pub right : ℕ

abbrev prio_entries : List (ℕ × ℕ × ℕ)
prio_entries =
    (tk_or, 1, 1)
    ∷ (tk_and, 2, 2)
    ∷ (b'<', 3, 3)
    ∷ (b'>', 3, 3)
    ∷ (tk_le, 3, 3)
    ∷ (tk_ge, 3, 3)
    ∷ (tk_eq, 3, 3)
    ∷ (tk_ne, 3, 3)
    ∷ (b'|', 4, 4)
    ∷ (b'~', 5, 5)
    ∷ (b'&', 6, 6)
    ∷ (tk_shl, 7, 7)
    ∷ (tk_shr, 7, 7)
    ∷ (tk_concat, 8, 7)
    ∷ (b'+', 9, 9)
    ∷ (b'-', 9, 9)
    ∷ (b'*', 10, 10)
    ∷ (b'/', 10, 10)
    ∷ (tk_idiv, 10, 10)
    ∷ (b'%', 10, 10)
    ∷ (b'^', 12, 11)
    ∷ []

find_prio : List (ℕ × ℕ × ℕ) → ℕ → BinOpPrio
find_prio [] tk = record { left = 0; right = 0 }
find_prio ((t, l, r) ∷ ps) tk = if t == tk then record { left = l; right = r } else find_prio ps tk

unfoldable pub binop_prio_tbl : ℕ → BinOpPrio
unfolding find_prio
binop_prio_tbl tk = find_prio prio_entries tk

abbrev pub unop_prio : ℕ
unop_prio = 11

unfoldable pub is_unop : ℕ → Bool
is_unop tk = b'-' == tk || (tk_not == tk || (b'#' == tk || b'~' == tk))

-- The node types that a parenthesis truncates to one value.
unfoldable pub is_multi : ParseNodeType → Bool
is_multi pn_call = true
is_multi pn_call_method = true
is_multi pn_vararg = true
is_multi _ = false

module _ (rounds : ℕ) (parse_subexp : ℕ → Parser Node) (parse_block : Parser Node) where
  unfoldable pub parse_exp : Parser Node
  parse_exp = parse_subexp 0

  unfoldable pub explist_loop : ℕ → Node → Parser Node
  unfolding parse_exp
  explist_loop zero list s = out_of_fuel
  explist_loop (suc n) list s =
      (do
        more ← ps_match b','
        elim more [
          | false ↦ pure list
          | true ↦ do exp ← parse_exp; list' ← push list exp; explist_loop n list'
        ])
        s

  unfoldable pub parse_explist : Parser Node
  unfolding explist_loop
  parse_explist = do
    list ← alloc pn_explist 4
    exp ← parse_exp
    list' ← push list exp
    explist_loop rounds list'

  -- One field of a table constructor.
  unfoldable pub field_idx : Parser Node
  unfolding parse_exp
  field_idx = do
    ps_advance
    key ← parse_exp
    ps_expect b']'
    ps_expect b'='
    val ← parse_exp
    field ← alloc pn_field_idx 2
    field₁ ← push_unchecked field key
    push_unchecked field₁ val

  unfoldable pub field_val : Parser Node
  unfolding parse_exp
  field_val = do val ← parse_exp; field ← alloc pn_field_val 1; push_unchecked field val

  unfoldable pub field_name : Parser Node
  unfolding parse_exp field_val
  field_name = do
    saved_pos ← position
    name_tok ← ps_advance
    t ← current
    if b'=' == t.token_number
        then (do
          ps_advance
          val ← parse_exp
          field ← alloc pn_field_name 1
          push_unchecked (set_val field name_tok.semantics) val)
        else (do go_back saved_pos; field_val)

  unfoldable pub table_field : Parser Node
  unfolding field_idx field_name field_val
  table_field = do
    t ← current
    if b'[' == t.token_number
        then field_idx
        else (if tk_name == t.token_number then field_name else field_val)

  -- `ps_match(',') || ps_match(';')`
  unfoldable pub separator : Parser Bool
  separator = do comma ← ps_match b','; if comma then pure true else ps_match b';'

  unfoldable pub table_loop : ℕ → Node → Parser Node
  unfolding table_field separator
  table_loop zero tbl s = out_of_fuel
  table_loop (suc n) tbl s =
      (do
        t ← current
        elim (b'}' == t.token_number || tk_eos == t.token_number) [
          | true ↦ pure tbl
          | false ↦ do
            field ← table_field
            tbl' ← push tbl field
            more ← separator
            elim more [ true ↦ table_loop n tbl' | false ↦ pure tbl' ]
        ])
        s

  unfoldable pub parse_tableconstructor : Parser Node
  unfolding table_loop
  parse_tableconstructor = do
    tbl ← alloc pn_table 4
    ps_expect b'{'
    tbl' ← table_loop rounds tbl
    ps_expect b'}'
    pure tbl'

  unfoldable pub parse_primaryexp : Parser Node
  unfolding parse_exp is_multi
  parse_primaryexp = do
    t ← current
    if tk_name == t.token_number
        then (do tkn ← ps_advance; leaf pn_name tkn.semantics)
        else (if b'(' == t.token_number
            then (do
              ps_advance
              node ← parse_exp
              ps_expect b')'
              if is_multi (ast_type node)
                  then (do paren ← alloc pn_paren 1; push paren node)
                  else pure node)
            else fail)

  unfoldable pub parse_args : Parser Node
  unfolding parse_explist parse_tableconstructor
  parse_args = do
    args ← alloc pn_explist 4
    t ← current
    if b'(' == t.token_number
        then (do
          ps_advance
          t' ← current
          args' ←
              (if b')' == t'.token_number
                then pure args
                else (do elist ← parse_explist; drain_children args elist))
          ps_expect b')'
          pure args')
        else (if b'{' == t.token_number
            then (do tbl ← parse_tableconstructor; push args tbl)
            else (if tk_string == t.token_number
                then (do tk ← ps_advance; strnode ← leaf pn_string tk.semantics; push args strnode)
                else fail))
