-- ===== src/Lex/Terminals.antt =====
-- Symbols and comments (`mclex_lexterminals`).
use mclua.Prelude.{ℕ, List, [], ◌∷◌, none, ◌==◌, if◌then◌else◌}
use mclua.Probing.{done}
use mclua.Token.{
  tk_flt, tk_eos, tk_err, tk_concat, tk_dots, tk_eq, tk_ge, tk_le, tk_ne, tk_idiv, tk_shl, tk_shr,
  tk_dbcolon,
}
use mclua.Lex.{peek, advance, isdigit, strchr, readnumber, word_room, equals, skip_comment}
use mclua.Lex.Words.{LexState, Lexed, token}
use mclua.Lex.Strings.{mclex_lexlongstring}

-- "+-*%^#&|;,()[]{}"
abbrev pub simple_terms : List ℕ
simple_terms =
    b'+' ∷ b'-' ∷ b'*' ∷ b'%' ∷ b'^' ∷ b'#' ∷ b'&' ∷ b'|' ∷ b';' ∷ b',' ∷ b'(' ∷ b')' ∷ b'[' ∷ b']'
    ∷ b'{' ∷ b'}' ∷ []

-- ".=<>~/:"
abbrev pub complex_terms : List ℕ
complex_terms = b'.' ∷ b'=' ∷ b'<' ∷ b'>' ∷ b'~' ∷ b'/' ∷ b':' ∷ []

-- A symbol that is longer where `second` follows.
unfoldable pub lex_pair : LexState → List ℕ → ℕ → ℕ → ℕ → Lexed
lex_pair s input symbol second pair =
    if peek input == second
    then token pair 0 (record s { input = advance input })
    else token symbol 0 (record s { input = input })

-- The case of '-'.
unfoldable pub lex_dash : LexState → List ℕ → Lexed
unfolding skip_comment
lex_dash s input =
    if peek input == b'-'
    then done (none, 0, record s { input = skip_comment (advance input) })
    else token b'-' 0 (record s { input = input })

-- The case of '['.
unfoldable pub lex_bracket : LexState → List ℕ → Lexed
unfolding equals mclex_lexlongstring
lex_bracket s input =
    let eqs = equals input in
    if peek eqs.1 == b'['
    then mclex_lexlongstring (record s { input = advance eqs.1 }) eqs.0
    else if eqs.0 == 0
    then token b'[' 0 (record s { input = eqs.1 })
    else token tk_err 0 (record s { input = eqs.1 })

-- The case of '.'. The number's word has the dot before what is read.
unfoldable pub lex_dot : (List ℕ → ℕ) → LexState → List ℕ → Lexed
unfolding isdigit readnumber
lex_dot strtod s input =
    let r = readnumber (word_room (word_room s.wordscratch_cap)) 0 input in
    if peek input == b'.'
    then if peek (advance input) == b'.'
      then token tk_dots 0 (record s { input = advance (advance input) })
      else token tk_concat 0 (record s { input = advance input })
    else if isdigit (peek input)
    then token tk_flt (strtod (b'.' ∷ r.0)) (record s { input = r.1 })
    else token b'.' 0 (record s { input = input })

-- The case of '<' and of '>'.
unfoldable pub lex_angle : LexState → List ℕ → ℕ → ℕ → ℕ → Lexed
lex_angle s input symbol or_equal shift =
    if peek input == b'='
    then token or_equal 0 (record s { input = advance input })
    else if peek input == symbol
    then token shift 0 (record s { input = advance input })
    else token symbol 0 (record s { input = input })

-- The `switch`, behind the symbol.
unfoldable pub lex_complex : (List ℕ → ℕ) → LexState → ℕ → List ℕ → Lexed
unfolding lex_dot lex_pair lex_angle
lex_complex strtod s symbol input =
    if symbol == b'.'
    then lex_dot strtod s input
    else if symbol == b'='
    then lex_pair s input b'=' b'=' tk_eq
    else if symbol == b'<'
    then lex_angle s input b'<' tk_le tk_shl
    else if symbol == b'>'
    then lex_angle s input b'>' tk_ge tk_shr
    else if symbol == b'~'
    then lex_pair s input b'~' b'=' tk_ne
    else if symbol == b'/'
    then lex_pair s input b'/' b'/' tk_idiv
    else if symbol == b':'
    then lex_pair s input b':' b':' tk_dbcolon
    else token tk_err 0 (record s { input = input })

-- `mclex_lexterminals` of a symbol and what follows it.
unfoldable pub lex_symbol : (List ℕ → ℕ) → LexState → ℕ → List ℕ → Lexed
unfolding lex_dash lex_bracket lex_complex strchr
lex_symbol strtod s symbol input =
    if symbol == b'-'
    then lex_dash s input
    else if symbol == b'['
    then lex_bracket s input
    else if strchr simple_terms symbol
    then token symbol 0 (record s { input = input })
    else if strchr complex_terms symbol
    then lex_complex strtod s symbol input
    else token tk_err 0 s

unfoldable pub mclex_lexterminals : (List ℕ → ℕ) → LexState → Lexed
unfolding lex_symbol
mclex_lexterminals strtod s =
    if peek s.input == 0
    then token tk_eos 0 s
    else lex_symbol strtod s (peek s.input) (advance s.input)
