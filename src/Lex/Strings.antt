-- ===== src/Lex/Strings.antt =====
-- Strings in quotes and in long brackets (`mclex_lexstring`, `mclex_lexlongstring`).
use mclua.Prelude.{
  ℕ, zero, suc, ◌+◌, List, [], ◌∷◌, ◌++◌, none, some, Bool, true, false, not, ◌&&◌, ltb, leb, ◌==◌,
  if◌then◌else◌, length, replicate,
}
use mclua.Heap.{McHeap}
use mclua.Config.{VmConfig}
use mclua.LStr.{LStr, mclstr_alloc, mclstr_append_str0}
use mclua.Token.{tk_string, tk_err}
use mclua.Lex.{peek, advance, equals}
use mclua.Lex.Words.{LexState, Lexed, token}

-- The string, the characters in `strbfr`, and the arena.
pub record Scan : Type 0 where
  pub str : LStr
  pub bfr : List ℕ
  pub heap : McHeap

-- `mclstr_append_str0(newstr, strbfr, idx, heap); idx = 0;`, whose result is not looked at.
unfoldable pub flush : Scan → Scan
flush b = elim (mclstr_append_str0 b.str b.bfr b.heap) [
  | none ↦ record b { bfr = [] }
  | some (str', heap') ↦ record { str = str'; bfr = []; heap = heap' }
]

-- Characters go into the buffer, which is flushed when it is full. The loops come here only with
-- characters that `strbfr` has room for, and else end as `overran`.
unfoldable pub push : ℕ → Scan → List ℕ → Scan
unfolding flush
push cap b chars =
    let b' = record b { bfr = b.bfr ++ chars } in if leb cap (length b'.bfr) then flush b' else b'

-- How a scan ends: with the string, with TK_ERR, or with a write past the end of `strbfr`, after
-- which C promises nothing.
pub data ScanEnd : Type 0 where
  closed broken overran : ScanEnd

abbrev pub Scanned : Type 0
Scanned = ScanEnd × Scan × List ℕ

-- Where a loop ends that stands at a NUL.
unfoldable pub at_nul : Bool → ScanEnd
at_nul long = if long then closed else broken

module _ (config : VmConfig) (cap : ℕ) where
  -- The loop of `mclex_lexstring`.
  unfoldable pub string_loop : ℕ → List ℕ → Bool → Scan → Scanned
  unfolding push at_nul
  string_loop quote [] escaped b = (at_nul (leb config.max_str_len (length b.str.chars)), b, [])
  string_loop quote (c ∷ input) escaped b =
      let rest = string_loop quote input (not escaped && c == 92) (push cap b (c ∷ [])) in
      if leb config.max_str_len (length b.str.chars)
      then (closed, b, c ∷ input)
      else if c == 0
      then (broken, b, c ∷ input)
      else if not escaped && (not (c == 92) && c == quote)
      then (closed, b, input)
      else if ltb cap (length b.bfr + 1)
      then (overran, b, c ∷ input)
      else rest

  -- The loop of `mclex_lexlongstring`; a round takes a character.
  unfoldable pub long_loop : ℕ → ℕ → List ℕ → Scan → Scanned
  unfolding push equals at_nul
  long_loop zero level input b = (at_nul (leb config.max_str_len (length b.str.chars)), b, input)
  long_loop (suc rounds) level [] b = (at_nul (leb config.max_str_len (length b.str.chars)), b, [])
  long_loop (suc rounds) level (c ∷ input) b =
      let eqs = equals input in
      let chars = if c == b']' then b']' ∷ replicate eqs.0 b'=' else c ∷ [] in
      let rest = long_loop rounds level (if c == b']' then eqs.1 else input) (push cap b chars) in
      if leb config.max_str_len (length b.str.chars)
      then (closed, b, c ∷ input)
      else if c == 0
      then (broken, b, c ∷ input)
      else if c == b']' && (eqs.0 == level && peek eqs.1 == b']')
      then (closed, b, advance eqs.1)
      else if ltb cap (length b.bfr + length chars)
      then (overran, b, c ∷ input)
      else rest

-- What follows the loops.
unfoldable pub string_token : LexState → Scanned → Lexed
unfolding flush
string_token s (broken, b, input) = token tk_err 0 (record s { input = input; heap = b.heap })
string_token s (overran, b, input) =
    token tk_err 0 (record s { input = input; heap = b.heap; overrun = true })
string_token s (closed, b, input) =
    let b' = if ltb 0 (length b.bfr) then flush b else b in
    token tk_string b'.str.hdr
      (record s { input = input; heap = b'.heap; strings = s.strings ++ b'.str ∷ [] })

unfoldable pub mclex_lexstring : LexState → ℕ → Lexed
unfolding string_loop string_token
mclex_lexstring s quote = elim (mclstr_alloc s.config.min_str_len s.heap) [
  | none ↦ token tk_err 0 s
  | some (newstr, heap') ↦ string_token s (
      string_loop s.config s.wordscratch_cap quote (advance s.input) false
        (record { str = newstr; bfr = []; heap = heap' }))
]

-- `if ('\n' == peek) advance;`
abbrev skip_newline : List ℕ → List ℕ
skip_newline input = if peek input == b'\n' then advance input else input

unfoldable pub mclex_lexlongstring : LexState → ℕ → Lexed
unfolding long_loop string_token
mclex_lexlongstring s level = elim (mclstr_alloc s.config.min_str_len s.heap) [
  | none ↦ token tk_err 0 s
  | some (newstr, heap') ↦
      let input = skip_newline s.input in
      string_token s (
        long_loop s.config s.wordscratch_cap (length input) level input
          (record { str = newstr; bfr = []; heap = heap' }))
]
