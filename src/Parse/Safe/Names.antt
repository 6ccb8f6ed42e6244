-- ===== src/Parse/Safe/Names.antt =====
-- The parts of the grammar that hold names only are safe.
use mclua.Prelude.{ℕ, zero, suc, arith, List, [], ◌∷◌, ◌==◌}
use mclua.Ast.{pn_name, pn_attname, Node, set_val}
use mclua.Ast.Growth.{Fits-set_val}
use mclua.Token.{tk_name, tk_dots}
use mclua.Parse.State.{pure}
use mclua.Parse.Names.{
  token_rounds, arglist_loop, parse_arglist, funcname_loop, parse_funcname_into, parse_attname,
}
use mclua.Parse.Safe.{
  Kept-refl, Safe, Has, no_nodes, itself, bind, either, choose, current-Safe, ps_advance-Safe,
  ps_match-Safe, ps_expect-Safe, fuel-Safe,
}
use mclua.Parse.Safe.Steps.{give, alloc-Safe, push-Safe, push_unchecked-Safe, leaf-Safe}

pub token_rounds-Safe : {ns : List Node} → Safe no_nodes ns token_rounds
token_rounds-Safe = record { run = λ s good fits. (Kept-refl s good, tt) }

arglist_loop-Safe :
    {ns : List Node} (n : ℕ) (arglist : Node)
    → Has ns arglist
    → Safe itself ns (arglist_loop n arglist)
unfolding arglist_loop
arglist_loop-Safe zero arglist has = fuel-Safe
arglist_loop-Safe (suc n) arglist has = bind current-Safe λ t.
    choose (b')' == t.token_number)
      (bind (ps_expect-Safe tk_name) λ name_tok.
        bind (leaf-Safe pn_name name_tok.semantics) λ currname.
          bind (push-Safe arglist currname (λ h f. has h f.1) (λ h f. f.0)) λ arglist'.
            bind (ps_match-Safe b',') λ more. choose more (give arglist' (λ h f. f.0)) (
              bind current-Safe λ t'.
                choose (tk_dots == t'.token_number) (arglist_loop-Safe n arglist' (λ h f. f.0)) (
                  bind ps_advance-Safe
                    λ _. give (set_val arglist' 1) (λ h f. Fits-set_val h arglist' 1 f.0))))
      (give arglist has)

pub parse_arglist-Safe :
    {ns : List Node} (arglist : Node) → Has ns arglist → Safe itself ns (parse_arglist arglist)
unfolding parse_arglist
parse_arglist-Safe arglist has = bind current-Safe λ t. bind token_rounds-Safe λ rounds.
    either (tk_dots == t.token_number)
      (bind ps_advance-Safe
        λ _. give (set_val arglist 1) (λ h f. Fits-set_val h arglist 1 (has h f)))
      (arglist_loop-Safe rounds arglist has)

funcname_loop-Safe :
    {ns : List Node} (n : ℕ) (name : Node) → Has ns name → Safe itself ns (funcname_loop n name)
unfolding funcname_loop
funcname_loop-Safe zero name has = fuel-Safe
funcname_loop-Safe (suc n) name has = bind current-Safe λ t.
    choose (b'.' == t.token_number) (give name has) (
      bind ps_advance-Safe λ _. bind (ps_expect-Safe tk_name) λ tok.
        bind (leaf-Safe pn_name tok.semantics) λ part.
          bind (push-Safe name part (λ h f. has h f.1) (λ h f. f.0))
            λ name'. funcname_loop-Safe n name' (λ h f. f.0))

abbrev pub first : Node × ℕ → List Node
first (n, r) = n ∷ []

give_pair : {ns : List Node} (n : Node) (r : ℕ) → Has ns n → Safe first ns (pure (n, r))
give_pair n r has = record { run = λ s good fits. (Kept-refl s good, (has s.heap fits, tt)) }

pub parse_funcname_into-Safe :
    {ns : List Node} (name : Node) → Has ns name → Safe first ns (parse_funcname_into name)
unfolding parse_funcname_into
parse_funcname_into-Safe name has = bind (ps_expect-Safe tk_name) λ tok.
    bind token_rounds-Safe λ rounds.
      bind
        (funcname_loop-Safe rounds (set_val name tok.semantics)
          (λ h f. Fits-set_val h name tok.semantics (has h f)))
        λ name'. bind current-Safe λ t.
          either (b':' == t.token_number)
            (bind ps_advance-Safe λ _. bind (ps_expect-Safe tk_name) λ tok'.
              bind (leaf-Safe pn_name tok'.semantics) λ part.
                bind (push-Safe name' part (λ h f. f.1.0) (λ h f. f.0))
                  λ name₂. give_pair name₂ 1 (λ h f. f.0))
            (give_pair name' 0 (λ h f. f.0))

pub parse_attname-Safe : {ns : List Node} → Safe itself ns parse_attname
unfolding parse_attname
parse_attname-Safe = bind (ps_expect-Safe tk_name) λ name_tok.
    bind (alloc-Safe pn_attname 1 (omega arith)) λ an. bind current-Safe λ t.
      either (b'<' == t.token_number)
        (bind ps_advance-Safe λ _. bind (ps_expect-Safe tk_name) λ attr_tok.
          bind (leaf-Safe pn_name attr_tok.semantics) λ attr.
            bind
              (push_unchecked-Safe (set_val an name_tok.semantics) attr
                (λ h f. Fits-set_val h an name_tok.semantics f.1.0) (λ h f. f.0))
              λ an₂. bind (ps_expect-Safe b'>') λ _. give an₂ (λ h f. f.0))
        (give (set_val an name_tok.semantics) (λ h f. Fits-set_val h an name_tok.semantics f.0))
