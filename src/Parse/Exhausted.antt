-- ===== src/Parse/Exhausted.antt =====
-- What the block loop does when the arena is full. A statement that gives NULL without the error
-- flag is passed over, and a function statement asks for its nodes before it takes a token.
use mclua.Prelude.{
  ℕ, zero, suc, ◌+◌, ◌*◌, ◌^◌, ◌<◌, ◌≡◌, refl, ap, ◌∙◌, false, none, arith, ◌==◌, if◌then◌else◌,
}
use mclua.Ast.{
  ParseNodeType, pn_funcdef, pn_name, pn_arglist, Node, mclast_alloc, node_size, pointer_size,
}
use mclua.Heap.{McHeap, header_size}
use mclua.Heap.Valid.{IsValid}
use mclua.Heap.Reserve.{managed_reserve_full}
use mclua.Parse.State.{
  Parser, ParseState, ◌>>=◌, null, out_of_fuel, token_at, alloc_function, is_block_end,
}
use mclua.Parse.Statements.{parse_stat, parse_function}
use mclua.Parse.Program.{after_stat, block_round, block_loop}
use mclua.Token.{tk_function, tk_return}

-- Fewer bytes are left than any node of two or more children takes.
abbrev pub IsFull : McHeap → Type 0
IsFull h = IsValid h × (h.head_bot < h.data_top + (node_size + 2 * pointer_size) + header_size)

-- A call that gives NULL ends what follows it.
>>=-null :
    {A B : Type 0} (p : Parser A) (k : A → Parser B) (s : ParseState) {s' : ParseState}
    → p s ≡ null s'
    → (p >>= k) s ≡ null s'
>>=-null p k s e = rw (e, ◌>>=◌)

mclast_alloc-full :
    (type : ParseNodeType) (cap : ℕ) (h : McHeap)
    → IsFull h
    → 1 < cap
    → cap < 2 ^ 16
    → mclast_alloc type cap h ≡ none
unfolding mclast_alloc
mclast_alloc-full type cap h (v, full) two small = rw (
  managed_reserve_full h v (node_size + cap * pointer_size) (omega arith) (omega arith),
  mclast_alloc,
)

module _ (rounds : ℕ) (parse_subexp : ℕ → Parser Node) (parse_block : Parser Node) (s : ParseState)
    (full : IsFull s.heap) where
  alloc_function-full : alloc_function s ≡ null s
  unfolding alloc_function
  alloc_function-full = ground (
    arith,
    mclast_alloc-full pn_funcdef 3 s.heap full (omega arith) (omega arith),
    mclast_alloc-full pn_name 2 s.heap full (omega arith) (omega arith),
    mclast_alloc-full pn_arglist 4 s.heap full (omega arith) (omega arith),
  )

  parse_function-full : parse_function rounds parse_subexp parse_block s ≡ null s
  unfolding parse_function
  parse_function-full = >>=-null alloc_function _ s alloc_function-full

  module _ (here : (token_at s.tokens s.pos).token_number ≡ tk_function) where
    -- A function statement gives NULL and leaves the state as it is.
    parse_stat-full : parse_stat rounds parse_subexp parse_block s ≡ null s
    unfolding parse_stat
    parse_stat-full = ground (arith, parse_function-full)

    -- At a function statement with the arena full and the error flag clear, the loop of
    -- `parse_block` takes no token and goes round without end: no number of rounds is enough.
    pub block_loop-spins :
        (n : ℕ) (block : Node)
        → s.error ≡ false
        → block_loop rounds parse_subexp parse_block n block s ≡ out_of_fuel
    unfolding block_loop is_block_end after_stat
    block_loop-spins zero block clear = refl
    block_loop-spins (suc n) block clear =
        let tk = (token_at s.tokens s.pos).token_number in
        let inside : is_block_end tk ≡ false = ap is_block_end here in
        let stat : (b';' == tk) ≡ false = ap (λ (t : ℕ). b';' == t) here in
        let no_return : (tk_return == tk) ≡ false = ap (λ (t : ℕ). tk_return == t) here in
        let loop = block_loop rounds parse_subexp parse_block n in
        (λ i.
          block_round rounds parse_subexp parse_block loop block (inside i) (stat i) (no_return i)
            s)
        ∙ ap (after_stat rounds parse_subexp parse_block loop block) parse_stat-full
        ∙ again loop block clear (block_loop-spins n block clear)
      where
        again :
            (loop : Node → Parser Node) (block : Node)
            → s.error ≡ false
            → loop block s ≡ out_of_fuel
            → after_stat rounds parse_subexp parse_block loop block (null s) ≡ out_of_fuel
        again loop block clear e = ap (λ b. if b then null s else loop block s) clear ∙ e
