-- ===== src/Lex/Words.antt =====
-- Numbers, names and reserved words (`mclex_lexnumber`, `mclex_lexid`), and the state of the lexer.
use mclua.Prelude.{
  ℕ, suc, ◌+◌, ◌-◌, ◌*◌, ◌^◌, min, List, [], ◌∷◌, Option, none, some, Bool, false, ◌&&◌, ◌||◌, ltb,
  leb, ◌==◌, if◌then◌else◌, length, get_or, drop,
}
use mclua.Config.{VmConfig}
use mclua.Heap.{McHeap}
use mclua.StringTable
use mclua.StringTable.{StringTable, same_bytes}
use mclua.Probing
use mclua.Probing.{Run, done, spins}
use mclua.LStr.{LStr}
use mclua.Token.{Token, first_reserved, tk_name, tk_int, tk_flt, tk_err}
use mclua.Lex.{isdigit, readoutword, readnumber, word_room}
use mclua.Lex.Reserved.{reserved_words}

-- `tokens` are those of the token array, which has room for `token_cap`; `strings` are the string
-- objects that were made. `overrun` stands for a write past the end of wordscratch, after which C
-- promises nothing.
pub record LexState : Type 0 where
  pub input : List ℕ
  pub tokens : List Token
  pub token_cap : ℕ
  pub wordscratch_cap : ℕ
  pub stringtable : StringTable
  pub heap : McHeap
  pub strings : List LStr
  pub overrun : Bool
  pub config : VmConfig

-- What a function of the lexer gives: a token's number, its semantics, which are 0 where the source
-- writes none, and the state after it. WHAT is `none`.
abbrev pub Lexed : Type 0
Lexed = Run (Option ℕ × ℕ × LexState)

abbrev pub token : ℕ → ℕ → LexState → Lexed
token number semantics s = done (some number, semantics, s)

unfoldable pub digit_value : ℕ → ℕ
unfolding isdigit
digit_value c =
    if isdigit c
    then c - b'0'
    else if leb b'a' c && leb c b'z'
    then c - b'a' + 10
    else if leb b'A' c && leb c b'Z'
    then c - b'A' + 10
    else 36

-- C's strtol of digits, which stops in front of the first other character, and at LONG_MAX.
unfoldable pub strtol : ℕ → ℕ → List ℕ → ℕ
unfolding digit_value
strtol base value [] = min value (2 ^ 63 - 1)
strtol base value (c ∷ word) =
    let rest = strtol base (value * base + digit_value c) word in
    if ltb (digit_value c) base then rest else min value (2 ^ 63 - 1)

-- The loop of `mclex_lexnumber`.
unfoldable pub is_float : List ℕ → Bool
is_float [] = false
is_float (c ∷ word) = (c == b'.' || (c == b'e' || c == b'E')) || is_float word

unfoldable pub is_hex : List ℕ → Bool
is_hex word =
    get_or word 0 0 == b'0'
    && (ltb 2 (length word) && (get_or word 1 0 == b'x' || get_or word 1 0 == b'X'))

-- The token of a number's word.
unfoldable pub number_token : (List ℕ → ℕ) → List ℕ → ℕ × ℕ
unfolding is_hex is_float strtol
number_token strtod word =
    if is_hex word
    then (tk_int, strtol 16 0 (drop 2 word))
    else if is_float word
    then (tk_flt, strtod word)
    else (tk_int, strtol 10 0 word)

unfoldable pub mclex_lexnumber : (List ℕ → ℕ) → LexState → Lexed
unfolding number_token readnumber
mclex_lexnumber strtod s =
    let r = readnumber (word_room s.wordscratch_cap) 0 s.input in
    let t = number_token strtod r.0 in token t.0 t.1 (record s { input = r.1 })

-- The loop of `mclex_lexid` over the reserved words.
unfoldable pub reserved_from : ℕ → List (List ℕ) → List ℕ → Option ℕ
unfolding same_bytes
reserved_from number [] word = none
reserved_from number (w ∷ words) word =
    let rest = reserved_from (suc number) words word in
    if same_bytes word w then some number else rest

-- The token of an interned name.
unfoldable pub name_token : LexState → Option ℕ × StringTable → Lexed
name_token s (none, table) = token tk_err 0 (record s { stringtable = table })
name_token s (some address, table) = token tk_name address (record s { stringtable = table })

-- The part of `mclex_lexid` after the word is read.
unfoldable pub lex_word : LexState → List ℕ → Lexed
unfolding reserved_from name_token
lex_word s word = elim (reserved_from first_reserved reserved_words word) [
  | some number ↦ token number 0 s
  | none ↦ Probing.bind (StringTable.intern s.stringtable word) (name_token s)
]

unfoldable pub mclex_lexid : LexState → Lexed
unfolding readoutword lex_word
mclex_lexid s =
    let r = readoutword (word_room s.wordscratch_cap) s.input in
    lex_word (record s { input = r.1 }) r.0
