-- ===== src/Parse/Safe/Expressions.antt =====
-- Lists of expressions, tables, parentheses and arguments are safe, where the recursion is.
use mclua.Prelude.{
  ℕ, zero, suc, arith, List, ◌==◌, ◌||◌, true, false, Bool, All, All-map, if◌then◌else◌,
}
use mclua.Ast.{
  pn_name, pn_explist, pn_field_idx, pn_field_val, pn_field_name, pn_table, pn_paren, pn_string,
  Node, set_val, ast_type,
}
use mclua.Ast.Room.{Fits, Fits-grow}
use mclua.Ast.Growth.{Fits-set_val}
use mclua.Token.{Token, tk_name, tk_eos, tk_string}
use mclua.Parse.State.{Parser, ParseState, ◌>>=◌, ◌>>◌, position, current, ps_advance, go_back}
use mclua.Parse.Expressions.{
  parse_exp, explist_loop, parse_explist, field_idx, field_val, field_name, table_field, separator,
  table_loop, parse_tableconstructor, parse_primaryexp, parse_args, is_multi,
}
use mclua.Parse.Safe.{
  IsGood, Kept, Post, Post-trans, Safe, Has, no_nodes, itself, bind, either, choose, pure-Safe,
  fail-Safe, current-Safe, ps_advance-Safe, ps_match-Safe, ps_expect-Safe, fuel-Safe,
}
use mclua.Parse.Safe.Steps.{
  give, alloc-Safe, push-Safe, push_unchecked-Safe, leaf-Safe, drain_children-Safe,
}

module _ (rounds : ℕ) (parse_subexp : ℕ → Parser Node) (parse_block : Parser Node)
    (subexp-Safe : (ns : List Node) (prec : ℕ) → Safe itself ns (parse_subexp prec)) where
  pub parse_exp-Safe : (ns : List Node) → Safe itself ns (parse_exp rounds parse_subexp parse_block)
  unfolding parse_exp
  parse_exp-Safe ns = subexp-Safe ns 0

  explist_loop-Safe :
      {ns : List Node} (n : ℕ) (list : Node)
      → Has ns list
      → Safe itself ns (explist_loop rounds parse_subexp parse_block n list)
  unfolding explist_loop
  explist_loop-Safe zero list has = fuel-Safe
  explist_loop-Safe (suc n) list has = bind (ps_match-Safe b',') λ more.
      choose more (give list has) (
        bind (parse_exp-Safe _) λ exp.
          bind (push-Safe list exp (λ h f. has h f.1) (λ h f. f.0))
            λ list'. explist_loop-Safe n list' (λ h f. f.0))

  pub parse_explist-Safe :
      (ns : List Node) → Safe itself ns (parse_explist rounds parse_subexp parse_block)
  unfolding parse_explist
  parse_explist-Safe ns = bind (alloc-Safe pn_explist 4 (omega arith)) λ list.
      bind (parse_exp-Safe _) λ exp.
        bind (push-Safe list exp (λ h f. f.1.0) (λ h f. f.0))
          λ list'. explist_loop-Safe rounds list' (λ h f. f.0)

  field_idx-Safe : (ns : List Node) → Safe itself ns (field_idx rounds parse_subexp parse_block)
  unfolding field_idx
  field_idx-Safe ns = bind ps_advance-Safe λ _. bind (parse_exp-Safe _) λ key.
      bind (ps_expect-Safe b']') λ _. bind (ps_expect-Safe b'=') λ _. bind (parse_exp-Safe _) λ val.
        bind (alloc-Safe pn_field_idx 2 (omega arith)) λ field.
          bind (push_unchecked-Safe field key (λ h f. f.0) (λ h f. f.1.1.0))
            λ field₁. push_unchecked-Safe field₁ val (λ h f. f.0) (λ h f. f.1.1.0)

  field_val-Safe : (ns : List Node) → Safe itself ns (field_val rounds parse_subexp parse_block)
  unfolding field_val
  field_val-Safe ns = bind (parse_exp-Safe _) λ val.
      bind (alloc-Safe pn_field_val 1 (omega arith))
        λ field. push_unchecked-Safe field val (λ h f. f.0) (λ h f. f.1.0)

  -- A look at the token behind the next one, and back to where it began.
  look_ahead :
      {ns : List Node} (c : Token → Bool) (p : Token → Parser Node) (q : Parser Node)
      → ((t : Token) → Safe itself ns (p t))
      → Safe itself ns q
      → Safe itself ns (do
        saved_pos ← position
        name_tok ← ps_advance
        t ← current
        if c t then p name_tok else (do go_back saved_pos; q))
  unfolding ps_advance
  look_ahead {ns} c p q hp hq = record {
    run = λ s good fits.
        let (kept, none_made) = (ps_advance-Safe {ns = ns}).run s good fits in
        after s _ _ good kept
          (All-map (Fits s.heap) _ ns (λ n f. Fits-grow s.heap _ kept.grows n f) fits) (c _);
  }
    where
      after :
          (s s₁ : ParseState) (tok : Token)
          → IsGood s
          → Kept s s₁
          → All (Fits s₁.heap) ns
          → (b : Bool) → Post itself s ((if b then p tok else (do go_back s.pos; q)) s₁)
      after s s₁ tok good kept fits true =
          Post-trans itself s s₁ (p tok s₁) kept ((hp tok).run s₁ kept.good fits)
      after s s₁ tok good kept fits false =
          let s₂ : ParseState = record s₁ { pos = s.pos } in
          let good₂ : IsGood s₂ = record {
            valid = kept.good.valid;
            small = kept.good.small;
            inside = rw kept.tokens good.inside;
          } in
          Post-trans itself s s₂ (q s₂)
            (record { good = good₂; tokens = kept.tokens; grows = kept.grows })
            (hq.run s₂ good₂ fits)

  field_name-Safe : (ns : List Node) → Safe itself ns (field_name rounds parse_subexp parse_block)
  unfolding field_name
  field_name-Safe ns =
      look_ahead (λ t. b'=' == t.token_number) _ _
        (λ name_tok. bind ps_advance-Safe λ _. bind (parse_exp-Safe _) λ val.
          bind (alloc-Safe pn_field_name 1 (omega arith)) λ field.
            push_unchecked-Safe (set_val field name_tok.semantics) val
              (λ h f. Fits-set_val h field name_tok.semantics f.0) (λ h f. f.1.0))
        (field_val-Safe ns)

  table_field-Safe : (ns : List Node) → Safe itself ns (table_field rounds parse_subexp parse_block)
  unfolding table_field
  table_field-Safe ns = bind current-Safe λ t.
      either (b'[' == t.token_number) (field_idx-Safe _)
        (either (tk_name == t.token_number) (field_name-Safe _) (field_val-Safe _))

  separator-Safe : (ns : List Node) → Safe no_nodes ns (separator rounds parse_subexp parse_block)
  unfolding separator
  separator-Safe ns =
      bind (ps_match-Safe b',') λ comma. either comma (pure-Safe true) (ps_match-Safe b';')

  table_loop-Safe :
      {ns : List Node} (n : ℕ) (tbl : Node)
      → Has ns tbl
      → Safe itself ns (table_loop rounds parse_subexp parse_block n tbl)
  unfolding table_loop
  table_loop-Safe zero tbl has = fuel-Safe
  table_loop-Safe (suc n) tbl has = bind current-Safe λ t.
      choose (b'}' == t.token_number || tk_eos == t.token_number)
        (bind (table_field-Safe _) λ field.
          bind (push-Safe tbl field (λ h f. has h f.1) (λ h f. f.0)) λ tbl'.
            bind (separator-Safe _)
              λ more. choose more (give tbl' (λ h f. f.0)) (table_loop-Safe n tbl' (λ h f. f.0)))
        (give tbl has)

  pub parse_tableconstructor-Safe :
      (ns : List Node) → Safe itself ns (parse_tableconstructor rounds parse_subexp parse_block)
  unfolding parse_tableconstructor
  parse_tableconstructor-Safe ns = bind (alloc-Safe pn_table 4 (omega arith)) λ tbl.
      bind (ps_expect-Safe b'{') λ _.
        bind (table_loop-Safe rounds tbl (λ h f. f.0))
          λ tbl'. bind (ps_expect-Safe b'}') λ _. give tbl' (λ h f. f.0)

  pub parse_primaryexp-Safe :
      (ns : List Node) → Safe itself ns (parse_primaryexp rounds parse_subexp parse_block)
  unfolding parse_primaryexp
  parse_primaryexp-Safe ns = bind current-Safe λ t.
      either (tk_name == t.token_number)
        (bind ps_advance-Safe λ tkn. leaf-Safe pn_name tkn.semantics)
        (either (b'(' == t.token_number)
          (bind ps_advance-Safe λ _. bind (parse_exp-Safe _) λ node. bind (ps_expect-Safe b')') λ _.
            either (is_multi (ast_type node))
              (bind (alloc-Safe pn_paren 1 (omega arith))
                λ paren. push-Safe paren node (λ h f. f.0) (λ h f. f.1.0))
              (give node (λ h f. f.0)))
          fail-Safe)

  pub parse_args-Safe :
      (ns : List Node) → Safe itself ns (parse_args rounds parse_subexp parse_block)
  unfolding parse_args
  parse_args-Safe ns = bind (alloc-Safe pn_explist 4 (omega arith)) λ args. bind current-Safe λ t.
      either (b'(' == t.token_number)
        (bind ps_advance-Safe λ _. bind current-Safe λ t'.
          bind
            (either (b')' == t'.token_number) (give args (λ h f. f.0)) (
              bind (parse_explist-Safe _)
                λ elist. drain_children-Safe args elist (λ h f. f.1.0) (λ h f. f.0)))
            λ args'. bind (ps_expect-Safe b')') λ _. give args' (λ h f. f.0))
        (either (b'{' == t.token_number)
          (bind (parse_tableconstructor-Safe _)
            λ tbl. push-Safe args tbl (λ h f. f.1.0) (λ h f. f.0))
          (either (tk_string == t.token_number)
            (bind ps_advance-Safe λ tk.
              bind (leaf-Safe pn_string tk.semantics)
                λ strnode. push-Safe args strnode (λ h f. f.1.0) (λ h f. f.0))
            fail-Safe))
