-- ===== src/Parse/Names.antt =====
-- src/parse/mcparse.c: the parts of the grammar that hold names only. Each loop takes a round for
-- each token that is left, and one more.
use mclua.Prelude.{ℕ, zero, suc, ◌+◌, true, false, ◌==◌, if◌then◌else◌, length}
use mclua.Ast.{pn_name, pn_attname, Node, set_val}
use mclua.Token.{tk_name, tk_dots}
use mclua.Parse.State.{
  Parser, out_of_fuel, ◌>>=◌, ◌>>◌, pure, current, ps_advance, ps_match, ps_expect, alloc, push,
  push_unchecked, leaf, ok,
}

abbrev pub token_rounds : Parser ℕ
token_rounds s = ok (length s.tokens + 1) s

-- The loop of `parse_arglist`.
unfoldable pub arglist_loop : ℕ → Node → Parser Node
arglist_loop zero arglist s = out_of_fuel
arglist_loop (suc n) arglist s =
    (do
      t ← current
      elim (b')' == t.token_number) [
        | true ↦ pure arglist
        | false ↦ do
          name_tok ← ps_expect tk_name
          currname ← leaf pn_name name_tok.semantics
          arglist' ← push arglist currname
          more ← ps_match b','
          elim more [
            | false ↦ pure arglist'
            | true ↦ do
              t' ← current
              elim (tk_dots == t'.token_number) [
                | true ↦ do ps_advance; pure (set_val arglist' 1)
                | false ↦ arglist_loop n arglist'
              ]
          ]
      ])
      s

-- `parse_arglist`
unfoldable pub parse_arglist : Node → Parser Node
unfolding arglist_loop
parse_arglist arglist = do
  t ← current
  rounds ← token_rounds
  if tk_dots == t.token_number
      then (do ps_advance; pure (set_val arglist 1))
      else arglist_loop rounds arglist

-- The loop of `parse_funcname_into` over the parts of a dotted name.
unfoldable pub funcname_loop : ℕ → Node → Parser Node
funcname_loop zero name s = out_of_fuel
funcname_loop (suc n) name s =
    (do
      t ← current
      elim (b'.' == t.token_number) [
        | false ↦ pure name
        | true ↦ do
          ps_advance
          tok ← ps_expect tk_name
          part ← leaf pn_name tok.semantics
          name' ← push name part
          funcname_loop n name'
      ])
      s

-- `parse_funcname_into`: the name, and 1 for a method.
unfoldable pub parse_funcname_into : Node → Parser (Node × ℕ)
unfolding funcname_loop
parse_funcname_into name = do
  tok ← ps_expect tk_name
  rounds ← token_rounds
  name' ← funcname_loop rounds (set_val name tok.semantics)
  t ← current
  if b':' == t.token_number
      then (do
        ps_advance
        tok' ← ps_expect tk_name
        part ← leaf pn_name tok'.semantics
        name₂ ← push name' part
        pure (name₂, 1))
      else pure (name', 0)

-- `parse_attname`
unfoldable pub parse_attname : Parser Node
parse_attname = do
  name_tok ← ps_expect tk_name
  an ← alloc pn_attname 1
  t ← current
  let an₁ = set_val an name_tok.semantics
  if b'<' == t.token_number
      then (do
        ps_advance
        attr_tok ← ps_expect tk_name
        attr ← leaf pn_name attr_tok.semantics
        an₂ ← push_unchecked an₁ attr
        ps_expect b'>'
        pure an₂)
      else pure an₁
