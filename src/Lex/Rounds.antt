-- ===== src/Lex/Rounds.antt =====
-- A round of the lexer: names and reserved words, and `mclex_set_token`.
use mclua.Prelude.{
  ℕ, ◌+◌, ◌<◌, ◌≤◌, ◌≡◌, refl, sym, subst, inl, inr, List, Option, none, some, ◌||◌, ◌==◌, length,
  arith, Bool-cases, Option-cases,
}
use mclua.Probing
use mclua.Probing.{Run, done, spins}
use mclua.StringTable
use mclua.StringTable.{StringTable, intern}
use mclua.StringTable.Valid
use mclua.StringTable.Contract.{intern-ends}
use mclua.StringTable.Ends.{Ended, refused, known, added, intern-Ended}
use mclua.StringTable.Intern.{stored}
use mclua.Token.{tk_err, tk_name, first_reserved}
use mclua.Lex.{peek, isdigit, mclex_isid, readoutword, word_room, skip_space}
use mclua.Lex.Words.{LexState, mclex_lexid, lex_word, name_token, reserved_from}
use mclua.Lex.Script.{lex_one, mclex_set_token}
use mclua.Lex.Lengths.{length-readoutword}
use mclua.Lex.Suffixes.{Suffix, length-Suffix, readoutword-Suffix, skip_space-Suffix}
use mclua.Lex.Reserved.{reserved_words}
use mclua.Lex.Steps.{
  HasRoom, Gives, Gives-token, Gives-if, Gives-from, reads, mclex_lexnumber-Gives,
  mclex_lexstring-Gives, mclex_lexterminals-Gives,
}

-- What a run of `intern` leaves: one entry more at most.
Ended-entry_cap :
    {tbl : StringTable} {str : List ℕ} {r : Option ℕ × StringTable}
    → Ended tbl str r
    → r.1.entry_cap ≡ tbl.entry_cap
unfolding stored
Ended-entry_cap refused = refl
Ended-entry_cap (known x e) = refl
Ended-entry_cap (added j absent slot) = refl

Ended-entry_cnt :
    {tbl : StringTable} {str : List ℕ} {r : Option ℕ × StringTable}
    → Ended tbl str r
    → r.1.entry_cnt ≤ tbl.entry_cnt + 1
unfolding stored
Ended-entry_cnt refused = omega arith
Ended-entry_cnt (known x e) = omega arith
Ended-entry_cnt (added j absent slot) = omega arith

module _ (s : LexState) (word rest : List ℕ) (room : HasRoom s) where
  -- A name that is interned adds one entry at most, and has a character at least.
  name_token-Gives :
      (tbl : StringTable)
      → StringTable.Valid.IsValid tbl
      → tbl.entry_cap ≡ s.stringtable.entry_cap
      → tbl.entry_cnt + length rest ≤ s.stringtable.entry_cnt + length s.input
      → Suffix s.input rest
      → (o : Option ℕ) → Gives s (name_token (record s { input = rest }) (o, tbl))
  unfolding name_token
  name_token-Gives tbl v cap names le none = record {
    number = some tk_err;
    semantics = 0;
    after = record s { input = rest; stringtable = tbl };
    ends = refl;
    reads_on = record {
      tokens = refl;
      token_cap = refl;
      table = v;
      entry_cap = cap;
      names = names;
      input = le;
      scratch = refl;
      inside = λ calm e. e;
    };
    progress = λ e. cc;
  }
  name_token-Gives tbl v cap names le (some address) = record {
    number = some tk_name;
    semantics = address;
    after = record s { input = rest; stringtable = tbl };
    ends = refl;
    reads_on = record {
      tokens = refl;
      token_cap = refl;
      table = v;
      entry_cap = cap;
      names = names;
      input = le;
      scratch = refl;
      inside = λ calm e. e;
    };
    progress = λ e. cc;
  }

  interned-Gives :
      length word + length rest ≡ length s.input
      → Suffix s.input rest
      → Gives s (Probing.bind (intern s.stringtable word) (name_token (record s { input = rest })))
  unfolding intern
  interned-Gives len sx = elim (Bool-cases (length word == 0)) [
    | inl empty ↦
        rw (empty, intern) (name_token-Gives s.stringtable room.table refl (omega arith) sx none)
    | inr some_name ↦
        let word_pos : 0 < length word = ground arith in
        let (r, run, v, _) =
          intern-ends s.stringtable room.table word (omega (arith, room.free)) word_pos in
        let e = intern-Ended s.stringtable word r run in
        subst (λ q. Gives s (Probing.bind q (name_token (record s { input = rest })))) (sym run)
          (name_token-Gives r.1 v (Ended-entry_cap e) (omega (arith, Ended-entry_cnt e, word_pos))
            sx r.0)
  ]

  lex_word-Gives :
      length word + length rest ≡ length s.input
      → Suffix s.input rest
      → Gives s (lex_word (record s { input = rest }) word)
  unfolding lex_word
  lex_word-Gives len sx = elim (Option-cases (reserved_from first_reserved reserved_words word)) [
    | inl other ↦ rw (other, lex_word) (interned-Gives len sx)
    | inr (number, reserved) ↦
        rw (reserved, lex_word) (Gives-token s room.table number 0 rest s.heap s.strings sx)
  ]

module _ (strtod : List ℕ → ℕ) (s : LexState) (room : HasRoom s) where
  lex_one-Gives : Gives s (lex_one strtod s)
  unfolding lex_one mclex_lexid
  lex_one-Gives =
      let r = readoutword (word_room s.wordscratch_cap) s.input in
      Gives-if (isdigit (peek s.input)) (mclex_lexnumber-Gives s room.table strtod) (
        Gives-if (mclex_isid (peek s.input))
          (lex_word-Gives s r.0 r.1 room (length-readoutword (word_room s.wordscratch_cap) s.input)
            (readoutword-Suffix (word_room s.wordscratch_cap) s.input))
          (Gives-if (peek s.input == 34 || peek s.input == 39)
            (mclex_lexstring-Gives s room.table (peek s.input))
            (mclex_lexterminals-Gives strtod s room.table)))

-- A round of the lexer ends, reads on, and gives no token only for characters that it takes.
pub mclex_set_token-Gives :
    (strtod : List ℕ → ℕ) (s : LexState) → HasRoom s → Gives s (mclex_set_token strtod s)
unfolding mclex_set_token
mclex_set_token-Gives strtod s room =
    let input = skip_space s.input in
    let sx = skip_space-Suffix s.input in
    Gives-from (reads s room.table input s.heap s.strings sx) (
      lex_one-Gives strtod (record s { input = input })
        (record { table = room.table; free = omega (arith, room.free, length-Suffix sx) }))
