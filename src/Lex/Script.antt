-- ===== src/Lex/Script.antt =====
-- The loop of the lexer (`mclex_set_token`, `mclex_lex`), and what begins and calls it.
use mclua.Prelude.{
  ℕ, zero, suc, ◌+◌, ◌*◌, ◌%◌, List, [], ◌∷◌, ◌++◌, Option, none, some, false, ◌||◌, ltb, ◌==◌,
  if◌then◌else◌, length,
}
use mclua.Heap.{McHeap, u64_mod, u32_mod}
use mclua.StringTable.{StringTable}
use mclua.Probing
use mclua.Probing.{Run, done, spins}
use mclua.Config.{VmConfig, token_size}
use mclua.Token.{tk_eos, tk_err}
use mclua.Lex.{peek, isdigit, mclex_isid, skip_space, skip_line}
use mclua.Lex.Words.{LexState, Lexed, mclex_lexnumber, mclex_lexid}
use mclua.Lex.Strings.{mclex_lexstring}
use mclua.Lex.Terminals.{mclex_lexterminals}

-- `mclex_init` over `lexmemcap` bytes; the names and the arena are those that the caller has set
-- before.
unfoldable pub mclex_init : VmConfig → ℕ → StringTable → McHeap → Option LexState
mclex_init cfg lexmemcap stringtable heap =
    let tokens_size = cfg.max_tokens * token_size % u64_mod in
    if ltb lexmemcap ((cfg.max_idlen + tokens_size + cfg.max_file_chunk_size) % u64_mod)
    then none
    else some (record {
      input = [];
      tokens = [];
      token_cap = cfg.max_tokens % u32_mod;
      wordscratch_cap = cfg.max_idlen;
      stringtable = stringtable;
      heap = heap;
      strings = [];
      overrun = false;
      config = cfg;
    })

-- The branches of `mclex_set_token`, behind the space.
unfoldable pub lex_one : (List ℕ → ℕ) → LexState → Lexed
unfolding isdigit mclex_isid mclex_lexnumber mclex_lexid mclex_lexstring mclex_lexterminals
lex_one strtod s =
    let symbol = peek s.input in
    if isdigit symbol
    then mclex_lexnumber strtod s
    else if mclex_isid symbol
    then mclex_lexid s
    else if symbol == 34 || symbol == 39
    then mclex_lexstring s symbol
    else mclex_lexterminals strtod s

-- `mclex_set_token`, which leaves the token at the end of the array for the loop to keep.
unfoldable pub mclex_set_token : (List ℕ → ℕ) → LexState → Lexed
unfolding skip_space lex_one
mclex_set_token strtod s = lex_one strtod (record s { input = skip_space s.input })

-- The return codes of `mclex_lex`: 0, -1 and -2. `overran` is no code: it stands for a run that wrote
-- past the end of wordscratch, of which nothing is said from there on.
pub data LexCode : Type 0 where
  lexed lex_error too_many_tokens overran : LexCode

abbrev pub keep : LexState → ℕ → ℕ → LexState
keep s number semantics = record s {
  tokens = s.tokens ++ record { token_number = number; semantics = semantics } ∷ [];
}

-- What the loop does with a token; `again` is its next round.
unfoldable pub after_token :
    (LexState → Run (LexCode × LexState)) → Option ℕ × ℕ × LexState → Run (LexCode × LexState)
after_token again (none, semantics, s) = again s
after_token again (some number, semantics, s) =
    if number == tk_err
    then done (if s.overrun then overran else lex_error, s)
    else if number == tk_eos
    then done (lexed, keep s number semantics)
    else again (keep s number semantics)

-- The loop of `mclex_lex`. A round takes a character of the input or a place of the array.
unfoldable pub lex_loop : (List ℕ → ℕ) → ℕ → LexState → Run (LexCode × LexState)
unfolding mclex_set_token after_token
lex_loop strtod zero s = spins
lex_loop strtod (suc rounds) s =
    if ltb (length s.tokens) s.token_cap
    then Probing.bind (mclex_set_token strtod s) (after_token (lex_loop strtod rounds))
    else done (too_many_tokens, s)

unfoldable pub mclex_lex : (List ℕ → ℕ) → LexState → Run (LexCode × LexState)
unfolding lex_loop
mclex_lex strtod s = lex_loop strtod (suc (length s.input + s.token_cap)) s

-- `mclex_lexscript_str8`
unfoldable pub mclex_lexscript_str8 : (List ℕ → ℕ) → LexState → List ℕ → Run (LexCode × LexState)
unfolding mclex_lex
mclex_lexscript_str8 strtod s script = mclex_lex strtod (record s { input = script })

-- `mclex_lexscript_file`, of a file that was opened, given what is in it. A first line that begins
-- with '#' is left out.
unfoldable pub mclex_lexscript_file : (List ℕ → ℕ) → LexState → List ℕ → Run (LexCode × LexState)
unfolding skip_line mclex_lex
mclex_lexscript_file strtod s script =
    mclex_lex strtod (record s { input = if peek script == b'#' then skip_line script else script })
