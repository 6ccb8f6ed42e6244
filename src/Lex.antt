-- ===== src/Lex.antt =====
-- The lexer (src/lex/mclex.c). The input is the list of the characters that are still to come, from
-- `curr_char_idx` on; Lex/Input models the buffer that a file is read through in chunks, and shows
-- that `mclex_peek` and `mclex_advance` give the head and the tail of that list. A character is a
-- byte, NUL is 0. C's isspace, isdigit, isalpha and isalnum (in the C locale), strchr and strtol are
-- written out; strtod is a parameter. A word stands for what is in `wordscratch`.
pub mod Reserved
pub mod Input
pub mod Words
pub mod Strings
pub mod Terminals
pub mod Script
pub mod Lengths
pub mod Suffixes
pub mod Scans
pub mod Steps
pub mod Rounds
pub mod Ends
pub mod Naming
pub mod Numbers
use mclua.Prelude.{
  ℕ, zero, suc, ◌+◌, ◌-◌, ◌*◌, ◌%◌, ◌^◌, List, [], ◌∷◌, ◌++◌, Option, none, some, Bool, true, false,
  not, ◌&&◌, ◌||◌, ltb, leb, ◌==◌, if◌then◌else◌, length,
}
use mclua.Heap.{McHeap, u64_mod}
use mclua.StringTable
use mclua.StringTable.{StringTable, same_bytes}
use mclua.Probing
use mclua.Probing.{Run, done, spins}
use mclua.LStr.{LStr, mclstr_alloc, mclstr_append_str0}
use mclua.Token.{
  Token, first_reserved, tk_name, tk_int, tk_flt, tk_string, tk_eos, tk_err, tk_concat, tk_dots,
  tk_eq, tk_ge, tk_le, tk_ne, tk_idiv, tk_shl, tk_shr, tk_dbcolon,
}
use mclua.Lex.Reserved.{reserved_words}

-- What `mclex_peek` gives.
abbrev pub peek : List ℕ → ℕ
peek [] = 0
peek (c ∷ input) = c

-- What `mclex_advance` leaves.
abbrev pub advance : List ℕ → List ℕ
advance [] = []
advance (c ∷ input) = input

unfoldable pub isspace : ℕ → Bool
isspace c = c == 32 || (leb 9 c && leb c 13)

unfoldable pub isdigit : ℕ → Bool
isdigit c = leb b'0' c && leb c b'9'

unfoldable pub isalpha : ℕ → Bool
isalpha c = (leb b'a' c && leb c b'z') || (leb b'A' c && leb c b'Z')

unfoldable pub isalnum : ℕ → Bool
unfolding isalpha isdigit
isalnum c = isalpha c || isdigit c

unfoldable pub mclex_isid : ℕ → Bool
unfolding isalpha
mclex_isid c = isalpha c || c == b'_'

-- `NULL != strchr(chars, c)` for `c` that is not NUL.
unfoldable pub strchr : List ℕ → ℕ → Bool
strchr [] c = false
strchr (d ∷ chars) c = c == d || strchr chars c

-- " .=<>~:;,+-*/%^#&|()[]{}", quotes, tab, newline and carriage return.
abbrev pub termsyms : List ℕ
termsyms =
    b' ' ∷ b'.' ∷ b'=' ∷ b'<' ∷ b'>' ∷ b'~' ∷ b':' ∷ b';' ∷ b',' ∷ b'+' ∷ b'-' ∷ b'*' ∷ b'/' ∷ b'%'
    ∷ b'^' ∷ b'#' ∷ b'&' ∷ b'|' ∷ b'(' ∷ b')' ∷ b'[' ∷ b']' ∷ b'{' ∷ b'}' ∷ 34 ∷ 39 ∷ 9 ∷ 10 ∷ 13
    ∷ []

-- `(NULL != strchr(termsyms, sym)) || ('\0' == sym)`
unfoldable pub ends_word : ℕ → Bool
unfolding strchr
ends_word c = c == 0 || strchr termsyms c

-- The characters that are taken, and the input after them.
abbrev pub Split : Type 0
Split = List ℕ × List ℕ

abbrev taking : ℕ → Split → Split
taking c (word, rest) = (c ∷ word, rest)

-- `mclex_readoutword` into a buffer with room for a word of `room` characters.
unfoldable pub readoutword : ℕ → List ℕ → Split
unfolding ends_word
readoutword zero input = ([], input)
readoutword (suc room) [] = ([], [])
readoutword (suc room) (c ∷ input) =
    let rest = taking c (readoutword room input) in if ends_word c then ([], c ∷ input) else rest

-- `(('+' == sym) || ('-' == sym)) && prev is an exponent's letter`
unfoldable pub is_exponent_sign : ℕ → ℕ → Bool
is_exponent_sign prev c =
    (c == b'+' || c == b'-') && (prev == b'e' || (prev == b'E' || (prev == b'p' || prev == b'P')))

-- `mclex_readnumber`, given the character before.
unfoldable pub readnumber : ℕ → ℕ → List ℕ → Split
unfolding isalnum is_exponent_sign
readnumber zero prev input = ([], input)
readnumber (suc room) prev [] = ([], [])
readnumber (suc room) prev (c ∷ input) =
    let rest = taking c (readnumber room c input) in
    if isalnum c || (c == b'.' || is_exponent_sign prev c) then rest else ([], c ∷ input)

-- `bfrsize - 1`
abbrev pub word_room : ℕ → ℕ
word_room bfrsize = (bfrsize + u64_mod - 1) % u64_mod

-- `while ('=' == peek) { count += 1; advance; }`
unfoldable pub equals : List ℕ → ℕ × List ℕ
equals [] = (0, [])
equals (c ∷ input) = let r = equals input in if c == b'=' then (suc r.0, r.1) else (0, c ∷ input)

-- The last loop of `mclex_skip_comment`.
unfoldable pub skip_line : List ℕ → List ℕ
skip_line [] = []
skip_line (c ∷ input) =
    let rest = skip_line input in if c == 0 || c == b'\n' then c ∷ input else rest

-- The loop of `mclex_skip_comment` over a long comment; a round takes a character.
unfoldable pub skip_long : ℕ → ℕ → List ℕ → List ℕ
unfolding equals
skip_long zero level input = input
skip_long (suc rounds) level [] = []
skip_long (suc rounds) level (sym ∷ input) =
    let eqs = equals input in
    let closes = eqs.0 == level && b']' == peek eqs.1 in
    let next = skip_long rounds level (if sym == b']' then eqs.1 else input) in
    if sym == 0 then input else if sym == b']' && closes then advance eqs.1 else next

-- `mclex_skip_comment`, behind the two dashes.
unfoldable pub skip_comment : List ℕ → List ℕ
unfolding equals skip_line skip_long
skip_comment input =
    let eqs = equals (advance input) in
    if peek input == b'['
    then if peek eqs.1 == b'['
      then skip_long (length eqs.1) eqs.0 (advance eqs.1)
      else skip_line eqs.1
    else skip_line input

-- The `do` loop of `mclex_set_token`.
unfoldable pub skip_space : List ℕ → List ℕ
unfolding isspace
skip_space [] = []
skip_space (c ∷ input) = let rest = skip_space input in if isspace c then rest else c ∷ input
