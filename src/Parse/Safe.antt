-- ===== src/Parse/Safe.antt =====
-- A Hoare logic for the parser: what every step keeps of its state, and that the nodes it gives
-- have their room in the arena.
pub mod Steps
pub mod Names
pub mod Expressions
pub mod Operators
pub mod Control
pub mod Statements
pub mod Program
use mclua.Prelude.{
  ℕ, ◌+◌, ◌*◌, ◌^◌, ◌<◌, ◌≤◌, ◌≡◌, refl, sym, ap, ◌∙◌, subst, List, [], ◌∷◌, ◌++◌, Option, none,
  some, Bool, true, false, arith, All, All-append, All-map, length, Option-cases, Bool-cases, inl,
  inr, ltb, ◌==◌, if◌then◌else◌,
}
use mclua.Ast.{
  ParseNodeType, Node, Nodes, node, nil, cons, ast_children, set_val, mclast_alloc,
  mclast_push_child,
}
use mclua.Ast.Room.{Fits, Fits-grow}
use mclua.Heap.Growing.{Grows, Grows-refl, Grows-trans}
use mclua.Ast.Growth.{mclast_push_child-Fits, Fits-set_val, ast_children-AllFit}
use mclua.Heap.{McHeap}
use mclua.Heap.Valid.{IsValid}
use mclua.Token.{Token}
use mclua.Parse.State.{
  ParseState, Result, ok, null, out_of_fuel, Parser, ◌>>=◌, ◌>>◌, pure, give_up, fail, current,
  position, go_back, ps_advance, ps_match, ps_expect, alloc, check_error, push, push_unchecked,
  drain, drain_children, leaf, alloc_function,
}

-- A valid arena, and a position in the token array or right behind it.
pub record IsGood (s : ParseState) : Type 0 where
  pub valid : IsValid s.heap
  pub small : s.heap.bfrcap < 2 ^ 31
  pub inside : s.pos ≤ length s.tokens

-- A later state of the same run.
pub record Kept (s s' : ParseState) : Type 0 where
  pub good : IsGood s'
  pub tokens : s'.tokens ≡ s.tokens
  pub grows : Grows s.heap s'.heap

pub Kept-refl : (s : ParseState) → IsGood s → Kept s s
Kept-refl s good = record { good = good; tokens = refl; grows = Grows-refl s.heap }

pub Kept-trans : {s s' s'' : ParseState} → Kept s s' → Kept s' s'' → Kept s s''
Kept-trans k k' = record {
  good = k'.good;
  tokens = k'.tokens ∙ k.tokens;
  grows = Grows-trans k.grows k'.grows;
}

-- What a result is to be, where `nodes` gives the nodes in it.
abbrev pub Post : {A : Type 0} → (A → List Node) → ParseState → Result A → Type 0
Post nodes s (ok a s') = Kept s s' × All (Fits s'.heap) (nodes a)
Post nodes s (null s') = Kept s s'
Post nodes s out_of_fuel = Unit

-- In every good state in which the nodes `ns` fit, the parser keeps the state good, and the nodes
-- that it gives fit.
pub record Safe {A : Type 0} (nodes : A → List Node) (ns : List Node) (p : Parser A) : Type 0 where
  pub run : (s : ParseState) → IsGood s → All (Fits s.heap) ns → Post nodes s (p s)

abbrev pub no_nodes : {A : Type 0} → A → List Node
no_nodes a = []

abbrev pub itself : Node → List Node
itself n = n ∷ []

-- A node that fits where the nodes `ns` do.
abbrev pub Has : List Node → Node → Type 0
Has ns n = (h : McHeap) → All (Fits h) ns → Fits h n

pub Post-trans :
    {A : Type 0} (nodes : A → List Node) (s s' : ParseState) (r : Result A)
    → Kept s s'
    → Post nodes s' r
    → Post nodes s r
Post-trans nodes s s' (ok a s'') k (k', fits) = (Kept-trans k k', fits)
Post-trans nodes s s' (null s'') k k' = Kept-trans k k'
Post-trans nodes s s' out_of_fuel k p = tt

pub bind :
    {A B : Type 0} {nodes : A → List Node} {nodes' : B → List Node} {ns : List Node} {p : Parser A}
    {k : A → Parser B}
    → Safe nodes ns p
    → ((a : A) → Safe nodes' (nodes a ++ ns) (k a))
    → Safe nodes' ns (p >>= k)
bind {A} {B} {nodes} {nodes'} {ns} {p} {k} hp hk = record {
  run = λ s good fits. after s fits (p s) (hp.run s good fits);
}
  where
    after :
        (s : ParseState)
        → All (Fits s.heap) ns
        → (r : Result A) → Post nodes s r
        → Post nodes' s
            (elim r [ ok a s' ↦ k a s' | null s' ↦ null s' | out_of_fuel ↦ out_of_fuel ])
    after s fits (ok a s') (kept, fits_a) = Post-trans nodes' s s' (k a s') kept (
        (hk a).run s' kept.good (
          All-append (Fits s'.heap) (nodes a) ns fits_a (
            All-map (Fits s.heap) (Fits s'.heap) ns (λ n f. Fits-grow s.heap s'.heap kept.grows n f)
              fits)))
    after s fits (null s') kept = kept
    after s fits out_of_fuel p = tt

pub either :
    {A : Type 0} {nodes : A → List Node} {ns : List Node} {p q : Parser A} (b : Bool)
    → Safe nodes ns p
    → Safe nodes ns q
    → Safe nodes ns (if b then p else q)
either true hp hq = hp
either false hp hq = hq

pub choose :
    {A : Type 0} {nodes : A → List Node} {ns : List Node} {p q : Parser A} (b : Bool)
    → Safe nodes ns p
    → Safe nodes ns q
    → Safe nodes ns (elim b [ false ↦ p | true ↦ q ])
choose true hp hq = hq
choose false hp hq = hp

pub fail-Safe : {A : Type 0} {nodes : A → List Node} {ns : List Node} → Safe nodes ns fail
fail-Safe = record {
  run = λ s good fits. record {
    good = record { valid = good.valid; small = good.small; inside = good.inside };
    tokens = refl;
    grows = Grows-refl s.heap;
  };
}

pub give_up-Safe : {A : Type 0} {nodes : A → List Node} {ns : List Node} → Safe nodes ns give_up
give_up-Safe = record { run = λ s good fits. Kept-refl s good }

pub fuel-Safe :
    {A : Type 0} {nodes : A → List Node} {ns : List Node} → Safe nodes ns (λ s. out_of_fuel)
fuel-Safe = record { run = λ s good fits. tt }

-- The steps on tokens and on the flag.
module _ {ns : List Node} where
  pub pure-Safe : {A : Type 0} (a : A) → Safe no_nodes ns (pure a)
  pure-Safe a = record { run = λ s good fits. (Kept-refl s good, tt) }

  pub current-Safe : Safe no_nodes ns current
  current-Safe = record { run = λ s good fits. (Kept-refl s good, tt) }

  pub ps_advance-Safe : Safe no_nodes ns ps_advance
  unfolding ps_advance
  ps_advance-Safe = record {
    run = λ s good fits. (moved s good (ltb s.pos (length s.tokens)) (λ e. ground arith), tt);
  }
    where
      moved :
          (s : ParseState)
          → IsGood s
          → (b : Bool) → (b ≡ true → s.pos + 1 ≤ length s.tokens)
          → Kept s (if b then record s { pos = s.pos + 1 } else s)
      moved s good true le = record {
        good = record { valid = good.valid; small = good.small; inside = le refl };
        tokens = refl;
        grows = Grows-refl s.heap;
      }
      moved s good false le = Kept-refl s good

  pub ps_match-Safe : (tk : ℕ) → Safe no_nodes ns (ps_match tk)
  unfolding ps_match
  ps_match-Safe tk = bind current-Safe λ t.
      either (tk == t.token_number) (bind ps_advance-Safe λ _. pure-Safe true) (pure-Safe false)

  pub ps_expect-Safe : (tk : ℕ) → Safe no_nodes ns (ps_expect tk)
  unfolding ps_expect
  ps_expect-Safe tk = bind current-Safe λ t. either (tk == t.token_number) ps_advance-Safe fail-Safe

  pub check_error-Safe : Safe no_nodes ns check_error
  unfolding check_error
  check_error-Safe = record { run = λ s good fits. by_flag s good s.error }
    where
      by_flag :
          (s : ParseState) → IsGood s → (b : Bool) → Post no_nodes s (if b then null s else ok tt s)
      by_flag s good true = Kept-refl s good
      by_flag s good false = (Kept-refl s good, tt)
