-- ===== src/Parse/Control.antt =====
-- src/parse/mcparse.c: the statements that hold blocks, and `return`, over the functions that the
-- recursion goes through.
use mclua.Prelude.{ℕ, zero, suc, true, false, ◌||◌, ◌==◌, if◌then◌else◌}
use mclua.Ast.{
  pn_name, pn_do, pn_while, pn_repeat, pn_if, pn_elseif, pn_else, pn_fornum, pn_forin, pn_return,
  Node, ast_nchild, set_val,
}
use mclua.Token.{tk_name, tk_then, tk_elseif, tk_else, tk_end, tk_do, tk_in, tk_until}
use mclua.Parse.State.{
  Parser, out_of_fuel, ◌>>=◌, ◌>>◌, pure, current, ps_advance, ps_match, ps_expect, is_block_end,
  alloc, push, push_unchecked, drain_children, leaf,
}
use mclua.Parse.Names.{token_rounds}
use mclua.Parse.Expressions
use mclua.Parse.Operators

-- The names of `parse_for` over iterators.
unfoldable pub forin_names : ℕ → Node → Parser Node
forin_names zero stat s = out_of_fuel
forin_names (suc n) stat s =
    (do
      more ← ps_match b','
      elim more [
        | false ↦ pure stat
        | true ↦ do
          tok ← ps_expect tk_name
          nm ← leaf pn_name tok.semantics
          stat' ← push stat nm
          forin_names n stat'
      ])
      s

module _ (rounds : ℕ) (parse_subexp : ℕ → Parser Node) (parse_block : Parser Node) where
  abbrev exp : Parser Node
  exp = Expressions.parse_exp rounds parse_subexp parse_block

  abbrev explist : Parser Node
  explist = Expressions.parse_explist rounds parse_subexp parse_block

  abbrev suffixedexp : Parser Node
  suffixedexp = Operators.parse_suffixedexp rounds parse_subexp parse_block

  -- `parse_retstat`
  unfoldable pub parse_retstat : Parser Node
  parse_retstat = do
    ret ← alloc pn_return 4
    ps_advance
    t ← current
    ret' ←
        (if is_block_end t.token_number || b';' == t.token_number
          then pure ret
          else (do el ← explist; drain_children ret el))
    ps_match b';'
    pure ret'

  unfoldable pub elseif_loop : ℕ → Node → Parser Node
  elseif_loop zero stat s = out_of_fuel
  elseif_loop (suc n) stat s =
      (do
        t ← current
        elim (tk_elseif == t.token_number) [
          | false ↦ pure stat
          | true ↦ do
            ps_advance
            ei_cond ← exp
            ps_expect tk_then
            ei_blk ← parse_block
            elseif ← alloc pn_elseif 2
            elseif₁ ← push_unchecked elseif ei_cond
            elseif₂ ← push_unchecked elseif₁ ei_blk
            stat' ← push stat elseif₂
            elseif_loop n stat'
        ])
        s

  -- `parse_if`
  unfoldable pub parse_if : Parser Node
  unfolding elseif_loop
  parse_if = do
    ps_advance
    cond ← exp
    ps_expect tk_then
    blk ← parse_block
    stat ← alloc pn_if 4
    stat₁ ← push stat cond
    stat₂ ← push stat₁ blk
    stat₃ ← elseif_loop rounds stat₂
    t ← current
    stat₄ ←
        (if tk_else == t.token_number
          then (do
            ps_advance
            else_blk ← parse_block
            else_node ← alloc pn_else 1
            else_node₁ ← push_unchecked else_node else_blk
            push stat₃ else_node₁)
          else pure stat₃)
    ps_expect tk_end
    pure stat₄

  -- `parse_while`
  unfoldable pub parse_while : Parser Node
  parse_while = do
    ps_advance
    cond ← exp
    ps_expect tk_do
    blk ← parse_block
    ps_expect tk_end
    stat ← alloc pn_while 2
    stat₁ ← push_unchecked stat cond
    push_unchecked stat₁ blk

  -- `parse_do`
  unfoldable pub parse_do : Parser Node
  parse_do = do
    ps_advance
    blk ← parse_block
    ps_expect tk_end
    stat ← alloc pn_do 1
    push_unchecked stat blk

  -- The optional step of a numeric loop, pushed between the limit and the block.
  unfoldable pub fornum : ℕ → Parser Node
  fornum first_name = do
    ps_advance
    start ← exp
    ps_expect b','
    limit ← exp
    has_step ← ps_match b','
    if has_step
        then (do
          step ← exp
          ps_expect tk_do
          blk ← parse_block
          ps_expect tk_end
          stat ← alloc pn_fornum 4
          stat₁ ← push_unchecked (set_val stat first_name) start
          stat₂ ← push_unchecked stat₁ limit
          stat₃ ← push_unchecked stat₂ step
          push_unchecked stat₃ blk)
        else (do
          ps_expect tk_do
          blk ← parse_block
          ps_expect tk_end
          stat ← alloc pn_fornum 4
          stat₁ ← push_unchecked (set_val stat first_name) start
          stat₂ ← push_unchecked stat₁ limit
          push_unchecked stat₂ blk)

  unfoldable pub forin : ℕ → Parser Node
  unfolding forin_names
  forin first_name = do
    stat ← alloc pn_forin 4
    nm ← leaf pn_name first_name
    stat₁ ← push stat nm
    n ← token_rounds
    stat₂ ← forin_names n stat₁
    ps_expect tk_in
    el ← explist
    stat₃ ← drain_children (set_val stat₂ (ast_nchild stat₂)) el
    ps_expect tk_do
    blk ← parse_block
    ps_expect tk_end
    push stat₃ blk

  -- `parse_for`
  unfoldable pub parse_for : Parser Node
  unfolding fornum forin
  parse_for = do
    ps_advance
    first_name ← ps_expect tk_name
    t ← current
    if b'=' == t.token_number then fornum first_name.semantics else forin first_name.semantics

  -- `parse_repeat`
  unfoldable pub parse_repeat : Parser Node
  parse_repeat = do
    ps_advance
    blk ← parse_block
    ps_expect tk_until
    cond ← exp
    stat ← alloc pn_repeat 2
    stat₁ ← push_unchecked stat blk
    push_unchecked stat₁ cond
