-- ===== src/Parse/State.antt =====
-- src/parse/mcparse.h and the head of src/parse/mcparse.c: the parse state, and the operations on
-- the current token and on nodes. A function that returns NULL gives `null`, with the state that it
-- leaves; `out_of_fuel` has no counterpart in the source. The messages are not modelled.
use mclua.Prelude.{
  ℕ, ◌+◌, List, Option, none, some, Bool, true, false, ◌||◌, ltb, ◌==◌, if◌then◌else◌, get_or,
  length,
}
use mclua.Ast.{
  ParseNodeType, pn_funcdef, pn_name, pn_arglist, Node, Nodes, nil, cons, ast_children, set_val,
  mclast_alloc, mclast_push_child,
}
use mclua.Heap.{McHeap}
use mclua.Token.{Token, tk_end, tk_else, tk_elseif, tk_until, tk_eos}

pub record ParseState : Type 0 where
  pub tokens : List Token
  pub pos : ℕ
  pub error : Bool
  pub heap : McHeap

pub data Result (A : Type 0) : Type 0 where
  ok : A → ParseState → Result A
  null : ParseState → Result A
  out_of_fuel : Result A

abbrev pub Parser : Type 0 → Type 0
Parser A = ParseState → Result A

infixl 5 ◌>>=◌ ◌>>◌
abbrev pub ◌>>=◌ : {A B : Type 0} → Parser A → (A → Parser B) → Parser B
◌>>=◌ p k s = elim (p s) [ ok a s' ↦ k a s' | null s' ↦ null s' | out_of_fuel ↦ out_of_fuel ]

abbrev pub ◌>>◌ : {A B : Type 0} → Parser A → Parser B → Parser B
p >> q = p >>= λ _. q

abbrev pub pure : {A : Type 0} → A → Parser A
pure a s = ok a s

-- `return NULL`
abbrev pub give_up : {A : Type 0} → Parser A
give_up s = null s

-- `pstate->error = 1; return NULL`
abbrev pub fail : {A : Type 0} → Parser A
fail s = null (record s { error = true })

-- `CURTKN(pstate)`. The array's memory is zeroed past its tokens.
abbrev pub token_at : List Token → ℕ → Token
token_at tokens pos = get_or tokens pos (record { token_number = 0; semantics = 0 })

abbrev pub current : Parser Token
current s = ok (token_at s.tokens s.pos) s

abbrev pub position : Parser ℕ
position s = ok s.pos s

-- `pstate->pos = saved_pos`
abbrev pub go_back : ℕ → Parser (Unit {0})
go_back p s = ok tt (record s { pos = p })

unfoldable pub ps_advance : Parser Token
ps_advance s =
    ok (token_at s.tokens s.pos)
      (if ltb s.pos (length s.tokens) then record s { pos = s.pos + 1 } else s)

unfoldable pub ps_match : ℕ → Parser Bool
unfolding ps_advance
ps_match tk = do
  t ← current
  if tk == t.token_number then (do ps_advance; pure true) else pure false

unfoldable pub ps_expect : ℕ → Parser Token
unfolding ps_advance
ps_expect tk = do t ← current; if tk == t.token_number then ps_advance else fail

unfoldable pub is_block_end : ℕ → Bool
is_block_end tk =
    tk_end == tk || (tk_else == tk || (tk_elseif == tk || (tk_until == tk || tk_eos == tk)))

-- `mclast_alloc(type, child_cap, pstate->heap)`, with its check for NULL
unfoldable pub alloc : ParseNodeType → ℕ → Parser Node
alloc type child_cap s = elim (mclast_alloc type child_cap s.heap) [
  | none ↦ null s
  | some (n, heap') ↦ ok n (record s { heap = heap' })
]

-- The three nodes of a function: all are asked for before the first is tested.
unfoldable pub alloc_maybe : ParseNodeType → ℕ → Parser (Option Node)
alloc_maybe type child_cap s = elim (mclast_alloc type child_cap s.heap) [
  | none ↦ ok none s
  | some (n, heap') ↦ ok (some n) (record s { heap = heap' })
]

unfoldable pub all_three : Option Node → Option Node → Option Node → Parser (Node × Node × Node)
all_three (some a) (some b) (some c) = pure (a, b, c)
all_three _ _ _ = give_up

unfoldable pub alloc_function : Parser (Node × Node × Node)
unfolding alloc_maybe all_three
alloc_function = do
  newfunc ← alloc_maybe pn_funcdef 3
  name ← alloc_maybe pn_name 2
  arglist ← alloc_maybe pn_arglist 4
  all_three newfunc name arglist

-- `if (pstate->error) return NULL`
unfoldable pub check_error : Parser (Unit {0})
check_error s = if s.error then null s else ok tt s

-- `mclast_push_child` where the result is tested
unfoldable pub push : Node → Node → Parser Node
push parent child s = elim (mclast_push_child parent child s.heap) [
  | none ↦ null s
  | some (n, heap') ↦ ok n (record s { heap = heap' })
]

-- `mclast_push_child` where the result is thrown away
unfoldable pub push_unchecked : Node → Node → Parser Node
push_unchecked parent child s = elim (mclast_push_child parent child s.heap) [
  | none ↦ ok parent s
  | some (n, heap') ↦ ok n (record s { heap = heap' })
]

-- `drain_children`
unfoldable pub drain : Node → Nodes → Parser Node
unfolding push
drain dst nil = pure dst
drain dst (cons c cs) = do dst' ← push dst c; drain dst' cs

unfoldable pub drain_children : Node → Node → Parser Node
unfolding drain
drain_children dst src = drain dst (ast_children src)

-- A node without children that carries a token's value.
unfoldable pub leaf : ParseNodeType → ℕ → Parser Node
unfolding alloc
leaf type val = do n ← alloc type 0; pure (set_val n val)
