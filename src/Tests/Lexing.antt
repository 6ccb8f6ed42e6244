-- ===== src/Tests/Lexing.antt =====
-- Runs of the lexer.
use mclua.Prelude.{
  false, ℕ, ◌≡◌, refl, List, [], ◌∷◌, Option, none, some, arith, min, replicate, length,
}
use mclua.Heap.{McHeap, managed_reserve, set_type}
use mclua.LStr.{mclstr_alloc}
use mclua.Lex.{equals}
use mclua.Lex.Strings.{mclex_lexlongstring, long_loop, string_token}
use mclua.Probing.{Run, spins, done, probe, free_slot}
use mclua.StringTable
use mclua.StringTable.{
  StringTable, init, hash, hash_from, lookup, lookup_entry, intern, intern_new, store, matches,
  same_bytes, text,
}
use mclua.StringTable.Valid
use mclua.StringTable.Contract.{init-IsValid}
use mclua.Config.{mcvm_set_default_config}
use mclua.Token.{tk_name, tk_eos, tk_int}
use mclua.Lex.{
  isspace, isdigit, isalpha, isalnum, mclex_isid, strchr, ends_word, readoutword, readnumber,
  skip_space, skip_comment, skip_line, equals,
}
use mclua.Lex.Input.{IsFread, Source, mclex_advance, mclex_peek, stream, mclex_advance-stream}
use mclua.Lex.Words.{
  LexState, lex_word, reserved_from, name_token, mclex_lexid, mclex_lexnumber, number_token, is_hex,
  is_float, strtol, digit_value,
}
use mclua.Lex.Terminals.{
  lex_bracket, mclex_lexterminals, lex_symbol, lex_complex, lex_pair, lex_dash,
}
use mclua.Lex.Script.{
  LexCode, overran, lexed, mclex_lexscript_str8, mclex_lex, lex_loop, after_token, mclex_set_token,
  lex_one,
}
use mclua.Lex.Scans.{bracket_equals}
use mclua.Lex.Ends.{LexEnds, mclex_lexscript_str8-LexEnds}
use mclua.Lex.Numbers.{Stops, other, decimal, mclex_lexnumber-decimal}
use mclua.Lex.Naming.{Named, lex_word-Named, IsWord, readoutword-IsWord}

abbrev names : StringTable
names = record { entries = replicate 4 none; entry_cap = 4; entry_cnt = 0; bfr = []; bfrcap = 36 }

names_made : init 4 100 ≡ some names
unfolding init
names_made = refl

names-IsValid : StringTable.Valid.IsValid names
names-IsValid = init-IsValid 4 100 (omega arith) names_made

abbrev arena : McHeap
arena = record {
  bfr = λ a. 0;
  bfrcap = 256;
  managed_cap = 256;
  data_top = 0;
  head_bot = 256;
  headers = [];
  hdr_cnt = 0;
}

abbrev fresh : LexState
fresh = record {
  input = [];
  tokens = [];
  token_cap = 8;
  wordscratch_cap = 16;
  stringtable = names;
  heap = arena;
  strings = [];
  overrun = false;
  config = mcvm_set_default_config;
}

abbrev no_floats : List ℕ → ℕ
no_floats word = 0

-- The bytes that a file has are read two at a time.
abbrev pairs : ℕ → List ℕ → ℕ
pairs want file = min (min want 2) (length file)

pairs-IsFread : IsFread pairs
pairs-IsFread = record {
  wanted = λ want file. omega arith;
  there = λ want file. omega arith;
  reads = λ want b file pos. omega (arith, pos);
}

mclex_advance-stream_example :
    let s : Source = record {
      rest = [];
      file = some (b'a' ∷ b'=' ∷ b'1' ∷ []);
      max_file_chunk_size = 4;
    } in
    ((mclex_peek pairs s).0 ≡ b'a')
    × (stream pairs (mclex_peek pairs s).1 ≡ b'a' ∷ b'=' ∷ b'1' ∷ [])
    × ((mclex_advance pairs s).0 ≡ b'a')
    × (stream pairs (mclex_advance pairs s).1 ≡ b'=' ∷ b'1' ∷ [])
mclex_advance-stream_example =
    mclex_advance-stream pairs pairs-IsFread
      (record { rest = []; file = some (b'a' ∷ b'=' ∷ b'1' ∷ []); max_file_chunk_size = 4 })
      (omega arith) (omega arith)

mclex_lexscript_str8-LexEnds_example :
    LexEnds 8
      (bracket_equals (b'a' ∷ b'=' ∷ b'1' ∷ []) ≡ false)
      (mclex_lexscript_str8 no_floats fresh (b'a' ∷ b'=' ∷ b'1' ∷ []))
mclex_lexscript_str8-LexEnds_example =
    mclex_lexscript_str8-LexEnds no_floats fresh (b'a' ∷ b'=' ∷ b'1' ∷ []) names-IsValid
      (omega arith) refl refl (omega arith)

lex_word-Named_example :
    (t : Option ℕ × ℕ × LexState) × (lex_word fresh (b'a' ∷ b'n' ∷ b'd' ∷ []) ≡ done t)
    × Named fresh (b'a' ∷ b'n' ∷ b'd' ∷ []) t
lex_word-Named_example =
    lex_word-Named fresh names-IsValid (b'a' ∷ b'n' ∷ b'd' ∷ []) (omega arith) (omega arith)

readoutword-IsWord_example :
    IsWord 15
      (b'a' ∷ b'=' ∷ [])
      (readoutword 15 (b'a' ∷ b'=' ∷ [])).0
      (readoutword 15 (b'a' ∷ b'=' ∷ [])).1
readoutword-IsWord_example = readoutword-IsWord 15 (b'a' ∷ b'=' ∷ [])

-- "a=7 --b", of which the comment is left out.
assigned_runs :
    mclex_lexscript_str8 no_floats fresh (b'a' ∷ b'=' ∷ b'7' ∷ b' ' ∷ b'-' ∷ b'-' ∷ b'b' ∷ [])
    ≡ done (
      lexed,
      record fresh {
        tokens =
            record { token_number = tk_name; semantics = 0 }
            ∷ record { token_number = b'='; semantics = 0 }
            ∷ record { token_number = tk_int; semantics = 7 }
            ∷ record { token_number = tk_eos; semantics = 0 }
            ∷ [];
        stringtable = record names {
          entries = some (record { str = 0; len = 1; hash = 3826002220 }) ∷ none ∷ none ∷ none ∷ [];
          entry_cnt = 1;
          bfr = b'a' ∷ 0 ∷ [];
        };
      },
    )
unfolding mclex_lexscript_str8 mclex_lex lex_loop after_token mclex_set_token lex_one skip_space
    skip_comment skip_line equals isspace isdigit isalpha isalnum mclex_isid strchr ends_word
    readoutword readnumber lex_word reserved_from name_token mclex_lexid mclex_lexnumber
    number_token is_hex is_float strtol digit_value mclex_lexterminals lex_symbol lex_complex
    lex_pair lex_dash intern intern_new store lookup lookup_entry hash hash_from matches same_bytes
    probe free_slot
assigned_runs = refl

abbrev before_plus : LexState
before_plus = record fresh { input = b'4' ∷ b'2' ∷ b'+' ∷ [] }

plus-Stops : Stops (b'+' ∷ [])
unfolding isalnum isalpha isdigit
plus-Stops = other refl refl

mclex_lexnumber-decimal_example :
    mclex_lexnumber no_floats before_plus
    ≡ done (some tk_int, 42, record fresh { input = b'+' ∷ [] })
unfolding decimal
mclex_lexnumber-decimal_example =
    mclex_lexnumber-decimal no_floats before_plus 42 (b'+' ∷ []) plus-Stops refl (omega arith)

-- "[[]==" in a wordscratch of two bytes, of which the `]` and the `=` behind it take three.
code_of : Run (LexCode × LexState) → Option LexCode
code_of (done r) = some r.0
code_of spins = none

overrun_runs :
    code_of (
      mclex_lexscript_str8 no_floats
        (record fresh { wordscratch_cap = 2 })
        (b'[' ∷ b'[' ∷ b']' ∷ b'=' ∷ b'=' ∷ []))
    ≡ some overran
unfolding code_of mclex_lexscript_str8 mclex_lex lex_loop after_token mclex_set_token lex_one
    skip_space isspace isdigit isalpha mclex_isid strchr mclex_lexterminals lex_symbol lex_bracket
    equals mclex_lexlongstring long_loop string_token mclstr_alloc managed_reserve set_type
overrun_runs = refl
