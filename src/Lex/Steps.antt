-- ===== src/Lex/Steps.antt =====
-- What each function of the lexer that gives a token does with the state: it ends, keeps the tokens,
-- reads on, and adds at most one name for the characters that it reads.
use mclua.Prelude.{
  ℕ, ◌+◌, ◌<◌, ◌≤◌, ◌≡◌, refl, ◌∙◌, inl, inr, List, [], ◌∷◌, ◌++◌, Option, none, some, Bool, true,
  false, ltb, ◌==◌, if◌then◌else◌, length, arith, Bool-cases, Option-cases,
}
use mclua.Heap.{McHeap}
use mclua.Probing.{done}
use mclua.StringTable
use mclua.StringTable.{StringTable, intern}
use mclua.StringTable.Valid
use mclua.LStr.{LStr, mclstr_alloc}
use mclua.Token.{tk_eos, tk_err}
use mclua.Lex.{peek, advance, isdigit, strchr, readnumber, word_room, equals, skip_comment}
use mclua.Lex.Words.{LexState, Lexed, token, mclex_lexnumber, number_token}
use mclua.Lex.Strings.{
  closed, broken, overran, Scan, Scanned, flush, string_token, mclex_lexstring, mclex_lexlongstring,
  string_loop, long_loop,
}
use mclua.Lex.Terminals.{
  lex_pair, lex_dash, lex_bracket, lex_dot, lex_angle, lex_complex, lex_symbol, mclex_lexterminals,
  simple_terms, complex_terms,
}
use mclua.Lex.Suffixes.{
  Suffix, here, Suffix-trans, Suffix-if, length-Suffix, advance-Suffix, readnumber-Suffix,
  equals-Suffix, skip_comment-Suffix,
}
use mclua.Lex.Scans.{
  bracket_equals, bracket_equals-Suffix, Scans, Scans-behind, string_loop-Scans, long_loop-Scans,
}

-- The table has a free entry for each character that is still to come, and one more.
pub record HasRoom (s : LexState) : Type 0 where
  pub table : StringTable.Valid.IsValid s.stringtable
  pub free : s.stringtable.entry_cnt + length s.input < s.stringtable.entry_cap

-- Nothing is written past the end of wordscratch: it has room for a character, and no `=` follows a
-- `]` directly.
abbrev pub Calm : LexState → Type 0
Calm s = (0 < s.wordscratch_cap) × (bracket_equals s.input ≡ false)

pub record ReadsOn (s s' : LexState) : Type 0 where
  pub tokens : s'.tokens ≡ s.tokens
  pub token_cap : s'.token_cap ≡ s.token_cap
  pub table : StringTable.Valid.IsValid s'.stringtable
  pub entry_cap : s'.stringtable.entry_cap ≡ s.stringtable.entry_cap
  pub names : s'.stringtable.entry_cnt + length s'.input ≤ s.stringtable.entry_cnt + length s.input
  pub input : Suffix s.input s'.input
  pub scratch : s'.wordscratch_cap ≡ s.wordscratch_cap
  pub inside : Calm s → s.overrun ≡ false → s'.overrun ≡ false

-- A comment is no token, and is not empty.
pub record Gives (s : LexState) (r : Lexed) : Type 0 where
  pub number : Option ℕ
  pub semantics : ℕ
  pub after : LexState
  pub ends : r ≡ done (number, semantics, after)
  pub reads_on : ReadsOn s after
  pub progress : number ≡ none → length after.input < length s.input

ReadsOn-trans : {s s' s'' : LexState} → ReadsOn s s' → ReadsOn s' s'' → ReadsOn s s''
ReadsOn-trans {s} {s'} {s''} p q = record {
  tokens = q.tokens ∙ p.tokens;
  token_cap = q.token_cap ∙ p.token_cap;
  table = q.table;
  entry_cap = q.entry_cap ∙ p.entry_cap;
  names = omega (arith, p.names, q.names);
  input = Suffix-trans p.input q.input;
  scratch = q.scratch ∙ p.scratch;
  inside = λ calm e.
      q.inside (omega (arith, calm.0, p.scratch), bracket_equals-Suffix p.input calm.1)
        (p.inside calm e);
}

pub Gives-from : {s s' : LexState} {r : Lexed} → ReadsOn s s' → Gives s' r → Gives s r
Gives-from {s} {s'} {r} p g = record {
  number = g.number;
  semantics = g.semantics;
  after = g.after;
  ends = g.ends;
  reads_on = ReadsOn-trans p g.reads_on;
  progress = λ e. omega (arith, g.progress e, length-Suffix p.input);
}

pub Gives-if :
    {s : LexState} {r r' : Lexed} (b : Bool)
    → Gives s r
    → Gives s r'
    → Gives s (if b then r else r')
Gives-if true g g' = g
Gives-if false g g' = g'

module _ (s : LexState) (v : StringTable.Valid.IsValid s.stringtable) where
  -- A token after which the input, the arena and the string objects are others.
  pub reads :
      (input : List ℕ) (heap : McHeap) (strings : List LStr)
      → Suffix s.input input
      → ReadsOn s (record s { input = input; heap = heap; strings = strings })
  reads input heap strings le = record {
    tokens = refl;
    token_cap = refl;
    table = v;
    entry_cap = refl;
    names = omega (arith, length-Suffix le);
    input = le;
    scratch = refl;
    inside = λ calm e. e;
  }

  pub Gives-token :
      (number semantics : ℕ) (input : List ℕ) (heap : McHeap) (strings : List LStr)
      → Suffix s.input input
      → Gives s
          (token number semantics (record s { input = input; heap = heap; strings = strings }))
  Gives-token number semantics input heap strings le = record {
    number = some number;
    semantics = semantics;
    after = record s { input = input; heap = heap; strings = strings };
    ends = refl;
    reads_on = reads input heap strings le;
    progress = λ e. cc;
  }

  pub mclex_lexnumber-Gives : (strtod : List ℕ → ℕ) → Gives s (mclex_lexnumber strtod s)
  unfolding mclex_lexnumber
  mclex_lexnumber-Gives strtod =
      let room = word_room s.wordscratch_cap in
      let t = number_token strtod (readnumber room 0 s.input).0 in
      Gives-token t.0 t.1 (readnumber room 0 s.input).1 s.heap s.strings
        (readnumber-Suffix room 0 s.input)

  string_token-Gives : (b : Scanned) → Scans s.input (Calm s) b → Gives s (string_token s b)
  unfolding string_token
  string_token-Gives (broken, b, input) scan = Gives-token tk_err 0 input b.heap s.strings scan.rest
  string_token-Gives (overran, b, input) scan = record {
    number = some tk_err;
    semantics = 0;
    after = record s { input = input; heap = b.heap; overrun = true };
    ends = refl;
    reads_on = record {
      tokens = refl;
      token_cap = refl;
      table = v;
      entry_cap = refl;
      names = omega (arith, length-Suffix scan.rest);
      input = scan.rest;
      scratch = refl;
      inside = λ calm e. absurd (scan.inside calm refl);
    };
    progress = λ e. cc;
  }
  string_token-Gives (closed, b, input) scan =
      let b' = if ltb 0 (length b.bfr) then flush b else b in
      Gives-token _ b'.str.hdr input b'.heap (s.strings ++ b'.str ∷ []) scan.rest

  pub mclex_lexstring-Gives : (quote : ℕ) → Gives s (mclex_lexstring s quote)
  unfolding mclex_lexstring
  mclex_lexstring-Gives quote = elim (Option-cases (mclstr_alloc s.config.min_str_len s.heap)) [
    | inl full ↦ rw (full, mclex_lexstring) (Gives-token tk_err 0 s.input s.heap s.strings here)
    | inr ((newstr, heap'), made) ↦
        let b : Scan = record { str = newstr; bfr = []; heap = heap' } in
        rw (made, mclex_lexstring)
          (string_token-Gives
            (string_loop s.config s.wordscratch_cap quote (advance s.input) false b)
            (Scans-behind (advance-Suffix s.input) (λ calm. calm.0)
              (string_loop-Scans s.config s.wordscratch_cap quote (advance s.input) false b)))
  ]

  mclex_lexlongstring-Gives : (level : ℕ) → Gives s (mclex_lexlongstring s level)
  unfolding mclex_lexlongstring
  mclex_lexlongstring-Gives level = elim (Option-cases (mclstr_alloc s.config.min_str_len s.heap)) [
    | inl full ↦ rw (full, mclex_lexlongstring) (Gives-token tk_err 0 s.input s.heap s.strings here)
    | inr ((newstr, heap'), made) ↦
        let b : Scan = record { str = newstr; bfr = []; heap = heap' } in
        let input = if peek s.input == b'\n' then advance s.input else s.input in
        let sx : Suffix s.input input =
          Suffix-if (peek s.input == b'\n') (advance-Suffix s.input) here in
        rw (made, mclex_lexlongstring)
          (string_token-Gives (long_loop s.config s.wordscratch_cap (length input) level input b) (
            Scans-behind sx (λ calm. (calm.0, bracket_equals-Suffix sx calm.1))
              (long_loop-Scans s.config s.wordscratch_cap (length input) level input b)))
  ]

  lex_pair-Gives :
      (input : List ℕ) (symbol second pair : ℕ)
      → Suffix s.input input
      → Gives s (lex_pair s input symbol second pair)
  unfolding lex_pair
  lex_pair-Gives input symbol second pair le =
      Gives-if (peek input == second)
        (Gives-token pair 0 (advance input) s.heap s.strings
          (Suffix-trans le (advance-Suffix input)))
        (Gives-token symbol 0 input s.heap s.strings le)

  lex_dash-Gives :
      (input : List ℕ)
      → length input < length s.input
      → Suffix s.input input
      → Gives s (lex_dash s input)
  unfolding lex_dash
  lex_dash-Gives input lt le =
      let rest = skip_comment (advance input) in
      let sx : Suffix input rest =
        Suffix-trans (advance-Suffix input) (skip_comment-Suffix (advance input)) in
      let shorter : length rest < length s.input = omega (arith, lt, length-Suffix sx) in
      Gives-if (peek input == b'-')
        (record {
          number = none;
          semantics = 0;
          after = record s { input = rest };
          ends = refl;
          reads_on = reads rest s.heap s.strings (Suffix-trans le sx);
          progress = λ e. shorter;
        })
        (Gives-token b'-' 0 input s.heap s.strings le)

  lex_dot-Gives :
      (strtod : List ℕ → ℕ) (input : List ℕ)
      → Suffix s.input input
      → Gives s (lex_dot strtod s input)
  unfolding lex_dot
  lex_dot-Gives strtod input le =
      let room = word_room (word_room s.wordscratch_cap) in
      let r = readnumber room 0 input in
      Gives-if (peek input == b'.')
        (Gives-if (peek (advance input) == b'.')
          (Gives-token _ 0 (advance (advance input)) s.heap s.strings (
            Suffix-trans le (Suffix-trans (advance-Suffix input) (advance-Suffix (advance input)))))
          (Gives-token _ 0 (advance input) s.heap s.strings
            (Suffix-trans le (advance-Suffix input))))
        (Gives-if (isdigit (peek input))
          (Gives-token _ (strtod (b'.' ∷ r.0)) r.1 s.heap s.strings
            (Suffix-trans le (readnumber-Suffix room 0 input)))
          (Gives-token _ 0 input s.heap s.strings le))

  lex_angle-Gives :
      (input : List ℕ) (symbol or_equal shift : ℕ)
      → Suffix s.input input
      → Gives s (lex_angle s input symbol or_equal shift)
  unfolding lex_angle
  lex_angle-Gives input symbol or_equal shift le =
      Gives-if (peek input == b'=')
        (Gives-token or_equal 0 (advance input) s.heap s.strings
          (Suffix-trans le (advance-Suffix input)))
        (Gives-if (peek input == symbol)
          (Gives-token shift 0 (advance input) s.heap s.strings
            (Suffix-trans le (advance-Suffix input)))
          (Gives-token symbol 0 input s.heap s.strings le))

  lex_complex-Gives :
      (strtod : List ℕ → ℕ) (symbol : ℕ) (input : List ℕ)
      → Suffix s.input input
      → Gives s (lex_complex strtod s symbol input)
  unfolding lex_complex
  lex_complex-Gives strtod symbol input le =
      Gives-if (symbol == b'.') (lex_dot-Gives strtod input le) (
        Gives-if (symbol == b'=') (lex_pair-Gives input _ _ _ le) (
          Gives-if (symbol == b'<') (lex_angle-Gives input _ _ _ le) (
            Gives-if (symbol == b'>') (lex_angle-Gives input _ _ _ le) (
              Gives-if (symbol == b'~') (lex_pair-Gives input _ _ _ le) (
                Gives-if (symbol == b'/') (lex_pair-Gives input _ _ _ le) (
                  Gives-if (symbol == b':') (lex_pair-Gives input _ _ _ le)
                    (Gives-token tk_err 0 input s.heap s.strings le)))))))

lex_bracket-Gives :
    (s : LexState) (v : StringTable.Valid.IsValid s.stringtable) (input : List ℕ)
    → Suffix s.input input
    → Gives s (lex_bracket s input)
unfolding lex_bracket
lex_bracket-Gives s v input le =
    let eqs = equals input in
    let sx : Suffix s.input eqs.1 = Suffix-trans le (equals-Suffix input) in
    let shorter : Suffix s.input (advance eqs.1) = Suffix-trans sx (advance-Suffix eqs.1) in
    Gives-if (peek eqs.1 == b'[')
      (Gives-from (reads s v (advance eqs.1) s.heap s.strings shorter)
        (mclex_lexlongstring-Gives (record s { input = advance eqs.1 }) v eqs.0))
      (Gives-if (eqs.0 == 0) (Gives-token s v b'[' 0 eqs.1 s.heap s.strings sx)
        (Gives-token s v tk_err 0 eqs.1 s.heap s.strings sx))

module _ (strtod : List ℕ → ℕ) (s : LexState) (v : StringTable.Valid.IsValid s.stringtable) where
  lex_symbol-Gives :
      (symbol : ℕ) (input : List ℕ)
      → length input < length s.input
      → Suffix s.input input
      → Gives s (lex_symbol strtod s symbol input)
  unfolding lex_symbol
  lex_symbol-Gives symbol input lt le = Gives-if (symbol == b'-') (lex_dash-Gives s v input lt le) (
      Gives-if (symbol == b'[') (lex_bracket-Gives s v input le) (
        Gives-if (strchr simple_terms symbol) (Gives-token s v symbol 0 input s.heap s.strings le) (
          Gives-if (strchr complex_terms symbol) (lex_complex-Gives s v strtod symbol input le)
            (Gives-token s v tk_err 0 s.input s.heap s.strings here))))

  pub mclex_lexterminals-Gives : Gives s (mclex_lexterminals strtod s)
  unfolding mclex_lexterminals
  mclex_lexterminals-Gives = elim (Bool-cases (peek s.input == 0)) [
    | inl at_end ↦
        rw (at_end, mclex_lexterminals) (Gives-token s v tk_eos 0 s.input s.heap s.strings here)
    | inr symbol ↦
        rw (symbol, mclex_lexterminals)
          (lex_symbol-Gives (peek s.input) (advance s.input) (shorter s.input symbol)
            (advance-Suffix s.input))
  ]
    where
      shorter : (input : List ℕ) → (peek input == 0) ≡ false → length (advance input) < length input
      shorter [] e = cc
      shorter (c ∷ input) e = omega arith
