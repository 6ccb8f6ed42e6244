-- ===== src/Lex/Ends.antt =====
-- How a run of the lexer ends, and what it leaves for the parser.
use mclua.Prelude.{
  false, ℕ, zero, suc, ◌+◌, ◌-◌, ◌<◌, ◌≤◌, ◌≡◌, ◌≢◌, refl, sym, ap, ◌∙◌, subst, inl, inr, List, [],
  ◌∷◌, ◌++◌, Option, none, some, ltb, ◌==◌, length, length-append, arith, Bool-cases,
}
use mclua.Probing.{Run, done}
use mclua.StringTable
use mclua.StringTable.Valid
use mclua.Token.{Token, tk_eos, tk_err}
use mclua.Lex.Words.{LexState}
use mclua.Lex.Script.{
  LexCode, overran, lexed, lex_error, too_many_tokens, keep, after_token, lex_loop, mclex_lex,
  mclex_lexscript_str8,
}
use mclua.Lex.Suffixes.{length-Suffix}
use mclua.Lex.Scans.{bracket_equals, bracket_equals-Suffix}
use mclua.Lex.Steps.{Calm, HasRoom, ReadsOn}
use mclua.Lex.Rounds.{mclex_set_token-Gives}

-- A token in front of the last one.
pub Plain : Token → Type 0
Plain t = (t.token_number ≢ tk_eos) × (t.token_number ≢ tk_err)

pub data AllPlain : List Token → Type 0 where
  none_yet : AllPlain []
  before : {t : Token} {tokens : List Token} → Plain t → AllPlain tokens → AllPlain (t ∷ tokens)

-- Tokens whose last one, and no other, is TK_EOS.
pub record IsScript (tokens : List Token) : Type 0 where
  pub front : List Token
  pub last : Token
  pub whole : tokens ≡ front ++ last ∷ []
  pub stops : last.token_number ≡ tk_eos
  pub plain : AllPlain front

-- The state between two rounds.
pub record IsLexing (s : LexState) : Type 0 where
  pub room : HasRoom s
  pub space : length s.tokens ≤ s.token_cap
  pub plain : AllPlain s.tokens

-- A run ends. It has not written past the end of wordscratch where the input is calm, and nothing
-- is said of the state that a run leaves which has.
pub record LexEnds (token_cap : ℕ) (calm : Type 0) (r : Run (LexCode × LexState)) : Type 0 where
  pub code : LexCode
  pub after : LexState
  pub ends : r ≡ done (code, after)
  pub inside : calm → code ≢ overran
  pub table : code ≢ overran → StringTable.Valid.IsValid after.stringtable
  pub space : code ≢ overran → length after.tokens ≤ token_cap
  pub script : code ≡ lexed → IsScript after.tokens
  pub full : code ≡ too_many_tokens → length after.tokens ≡ token_cap

AllPlain-append :
    (tokens : List Token) (t : Token) → AllPlain tokens → Plain t → AllPlain (tokens ++ t ∷ [])
AllPlain-append _ t none_yet q = before q none_yet
AllPlain-append _ t (before p ps) q = before p (AllPlain-append _ t ps q)

-- The rounds that are left at most.
unfoldable pub left : LexState → ℕ
left s = length s.input + (s.token_cap - length s.tokens)

module _ (s : LexState) (v : IsLexing s) (free : length s.tokens < s.token_cap) where
  -- The state that a comment leaves.
  ReadsOn-IsLexing : {after : LexState} → ReadsOn s after → IsLexing after
  ReadsOn-IsLexing {after} on = record {
    room = record { table = on.table; free = omega (arith, on.names, on.entry_cap, v.room.free) };
    space = omega (arith, v.space, on.token_cap, ap length on.tokens);
    plain = subst AllPlain (sym on.tokens) v.plain;
  }

  -- A token that is kept.
  keep-IsLexing :
      {after : LexState} (number semantics : ℕ)
      → ReadsOn s after
      → number ≢ tk_eos
      → number ≢ tk_err
      → IsLexing (keep after number semantics)
  unfolding Plain
  keep-IsLexing {after} number semantics on other fine = record {
    room = record { table = on.table; free = (ReadsOn-IsLexing on).room.free };
    space = omega (
      arith,
      free,
      on.token_cap,
      ap length on.tokens,
      length-append after.tokens (record { token_number = number; semantics = semantics } ∷ []),
    );
    plain = AllPlain-append after.tokens _ (ReadsOn-IsLexing on).plain (other, fine);
  }

-- The input of a state that reads on is calm where that before it was.
ReadsOn-Calm : {s s' : LexState} → ReadsOn s s' → Calm s → Calm s'
ReadsOn-Calm on calm = (omega (arith, calm.0, on.scratch), bracket_equals-Suffix on.input calm.1)

LexEnds-from :
    {token_cap token_cap' : ℕ} {calm calm' : Type 0} {r : Run (LexCode × LexState)}
    → token_cap' ≡ token_cap
    → (calm → calm')
    → LexEnds token_cap' calm' r
    → LexEnds token_cap calm r
LexEnds-from e on l = record {
  code = l.code;
  after = l.after;
  ends = l.ends;
  inside = λ c. l.inside (on c);
  table = l.table;
  space = λ c. subst (λ n. length l.after.tokens ≤ n) e (l.space c);
  script = l.script;
  full = λ c. l.full c ∙ e;
}

-- Nothing was written past the end of wordscratch, or will be.
abbrev Inside : LexState → Type 0
Inside s = Calm s × (s.overrun ≡ false)

ReadsOn-Inside : {s s' : LexState} → ReadsOn s s' → Inside s → Inside s'
ReadsOn-Inside on (calm, e) = (ReadsOn-Calm on calm, on.inside calm e)

module _ (s : LexState) (v : IsLexing s) (free : length s.tokens < s.token_cap)
    (again : LexState → Run (LexCode × LexState))
    (next : (s' : LexState)
      → IsLexing s'
      → s'.token_cap ≡ s.token_cap
      → left s' < left s
      → LexEnds s'.token_cap (Inside s') (again s')) where
  after_token-LexEnds :
      (number : Option ℕ) (semantics : ℕ) (after : LexState)
      → ReadsOn s after
      → (number ≡ none → length after.input < length s.input)
      → LexEnds s.token_cap (Inside s) (after_token again (number, semantics, after))
  unfolding after_token left
  after_token-LexEnds none semantics after on progress =
      LexEnds-from on.token_cap (ReadsOn-Inside on) (
        next after (ReadsOn-IsLexing s v free on) on.token_cap
          (omega (arith, progress refl, on.token_cap, ap length on.tokens)))
  after_token-LexEnds (some number) semantics after on progress =
      elim (Bool-cases (number == tk_err)) [
        | inl wrong ↦ rw wrong (elim (Bool-cases after.overrun) [
          | inl over ↦ rw over (record {
            code = overran;
            after = _;
            ends = refl;
            inside = λ c. cc (on.inside c.0 c.1);
            table = λ c. absurd (c refl);
            space = λ c. absurd (c refl);
            script = λ e. cc;
            full = λ e. cc;
          })
          | inr within ↦ rw within (record {
            code = lex_error;
            after = _;
            ends = refl;
            inside = λ c over. cc;
            table = λ _. on.table;
            space = λ _. omega (arith, v.space, on.token_cap, ap length on.tokens);
            script = λ e. cc;
            full = λ e. cc;
          })
        ])
        | inr fine ↦ elim (Bool-cases (number == tk_eos)) [
          | inl last ↦
              rw (fine, last)
                (record {
                  code = lexed;
                  after = keep after number semantics;
                  ends = refl;
                  inside = λ c over. cc;
                  table = λ _. on.table;
                  space = λ _. omega (arith, longer, free, ap length on.tokens);
                  script = λ _. record {
                    front = after.tokens;
                    last = record { token_number = number; semantics = semantics };
                    whole = refl;
                    stops = ground (arith, last);
                    plain = subst AllPlain (sym on.tokens) v.plain;
                  };
                  full = λ e. cc;
                })
          | inr other ↦
              rw (fine, other)
                (LexEnds-from on.token_cap (ReadsOn-Inside on) (
                  next (keep after number semantics)
                    (keep-IsLexing s v free number semantics on (λ e. ground (arith, other, e))
                      (λ e. ground (arith, fine, e)))
                    on.token_cap
                    (omega (
                      arith,
                      longer,
                      free,
                      on.token_cap,
                      length-Suffix on.input,
                      ap length on.tokens,
                    ))))
        ]
      ]
    where
      longer : length (keep after number semantics).tokens ≡ length after.tokens + 1
      longer =
          length-append after.tokens (record { token_number = number; semantics = semantics } ∷ [])

module _ (strtod : List ℕ → ℕ) where
  pub lex_loop-LexEnds :
      (rounds : ℕ) (s : LexState)
      → IsLexing s
      → left s < rounds
      → LexEnds s.token_cap (Inside s) (lex_loop strtod rounds s)
  unfolding lex_loop
  lex_loop-LexEnds zero s v lt = absurd (omega (arith, lt))
  lex_loop-LexEnds (suc rounds) s v lt = elim (Bool-cases (ltb (length s.tokens) s.token_cap)) [
    | inl free ↦
        let g = mclex_set_token-Gives strtod s v.room in
        rw (free, g.ends)
          (after_token-LexEnds s v (ground (arith, free)) (lex_loop strtod rounds)
            (λ s' v' e lt'. lex_loop-LexEnds rounds s' v' (omega (arith, lt, lt'))) g.number
            g.semantics g.after g.reads_on g.progress)
    | inr full ↦ rw full (record {
      code = too_many_tokens;
      after = s;
      ends = refl;
      inside = λ c over. cc;
      table = λ _. v.room.table;
      space = λ _. v.space;
      script = λ e. cc;
      full = λ _. ground (arith, full, v.space);
    })
  ]

  -- With a wordscratch of two bytes or more, in a valid table of names with a free entry for each
  -- character of the script and one more, and with no token yet, the lexer ends, whatever strtod
  -- gives. It may have written past the end of wordscratch, but only where a `]` of the script is
  -- directly followed by `=`. Else the table is valid and there are no more tokens than the array
  -- has room for; when it gives 0, the last token, and no other, is TK_EOS, and none is TK_ERR; when
  -- it gives -2 the array is full.
  pub mclex_lexscript_str8-LexEnds :
      (s : LexState) (script : List ℕ)
      → StringTable.Valid.IsValid s.stringtable
      → s.stringtable.entry_cnt + length script < s.stringtable.entry_cap
      → s.tokens ≡ []
      → s.overrun ≡ false
      → 1 < s.wordscratch_cap
      → LexEnds s.token_cap (bracket_equals script ≡ false) (mclex_lexscript_str8 strtod s script)
  unfolding mclex_lexscript_str8 mclex_lex left
  mclex_lexscript_str8-LexEnds s script v free empty within scratch =
      LexEnds-from refl (λ calm. ((omega (arith, scratch), calm), within))
        (lex_loop-LexEnds (suc (length script + s.token_cap)) (record s { input = script })
          (record {
            room = record { table = v; free = free };
            space = omega (arith, ap length empty);
            plain = subst AllPlain (sym empty) none_yet;
          })
          (omega arith))
