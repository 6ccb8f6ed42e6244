-- ===== src/Lex/Naming.antt =====
-- The words of the lexer: how far a word goes, and which token it is.
use mclua.Prelude.{
  ℕ, zero, suc, ◌+◌, ◌<◌, ◌≤◌, ◌≡◌, ◌≢◌, refl, sym, ap, ◌⊎◌, inl, inr, List, [], ◌∷◌, ◌++◌, Option,
  none, some, true, false, length, get_or, arith, Bool-cases, Option-cases,
}
use mclua.Probing.{done}
use mclua.StringTable
use mclua.StringTable.{StringTable, intern, lookup, same_bytes}
use mclua.StringTable.Valid
use mclua.StringTable.Pool.{same_bytes_iff}
use mclua.StringTable.Contract.{intern-ends, lookup-intern, lookup-intern_kept}
use mclua.Token.{tk_name, tk_err, first_reserved}
use mclua.Lex.{ends_word, readoutword}
use mclua.Lex.Words.{LexState, lex_word, name_token, reserved_from}
use mclua.Lex.Reserved.{reserved_words}

-- The tokens that a word can be: a reserved word with its text, a name with the address at which the
-- table has it, and the error of a name for which the pool has no room.
pub data Named (s : LexState) (word : List ℕ) : Option ℕ × ℕ × LexState → Type 0 where
  reserved :
      (i : ℕ)
      → i < length reserved_words
      → get_or reserved_words i [] ≡ word
      → Named s word (some (first_reserved + i), 0, s)
  named :
      (address : ℕ) (table : StringTable)
      → ((i : ℕ) → i < length reserved_words → get_or reserved_words i [] ≢ word)
      → StringTable.Valid.IsValid table
      → lookup table word ≡ done (some address)
      → ((other : List ℕ) (q : ℕ)
          → lookup s.stringtable other ≡ done (some q)
          → lookup table other ≡ done (some q))
      → Named s word (some tk_name, address, record s { stringtable = table })
  no_room :
      (table : StringTable)
      → ((i : ℕ) → i < length reserved_words → get_or reserved_words i [] ≢ word)
      → s.stringtable.bfrcap < length s.stringtable.bfr + length word + 1
      → Named s word (some tk_err, 0, record s { stringtable = table })

module _ (word : List ℕ) where
  reserved_from-some :
      (number : ℕ) (words : List (List ℕ)) (n : ℕ)
      → reserved_from number words word ≡ some n
      → (i : ℕ) × (n ≡ number + i) × (i < length words) × (get_or words i [] ≡ word)
  unfolding reserved_from
  reserved_from-some number [] n e = cc
  reserved_from-some number (w ∷ words) n e = elim (Bool-cases (same_bytes word w)) [
    | inl same ↦ (0, ground (arith, e, same), omega arith, sym ((same_bytes_iff word w).0 same))
    | inr other ↦
        let (i, at, lt, text) = reserved_from-some (suc number) words n (rw other at e) in
        (suc i, omega (arith, at), omega (arith, lt), text)
  ]

  reserved_from-none :
      (number : ℕ) (words : List (List ℕ))
      → reserved_from number words word ≡ none
      → (i : ℕ) → i < length words
      → get_or words i [] ≢ word
  unfolding reserved_from
  reserved_from-none number [] e i lt same = absurd (omega (arith, lt))
  reserved_from-none number (w ∷ words) e zero lt same =
      cc (rw ((same_bytes_iff word w).1 (sym same)) at e)
  reserved_from-none number (w ∷ words) e (suc i) lt same = elim (Bool-cases (same_bytes word w)) [
    | inl equal ↦ cc (rw equal at e)
    | inr other ↦ reserved_from-none (suc number) words (rw other at e) i (omega (arith, lt)) same
  ]

module _ (s : LexState) (v : StringTable.Valid.IsValid s.stringtable) (word : List ℕ) where
  token_of_name :
      ((i : ℕ) → i < length reserved_words → get_or reserved_words i [] ≢ word)
      → {r : Option ℕ × StringTable} → intern s.stringtable word ≡ done r
      → (r.0 ≢ none) ⊎ (s.stringtable.bfrcap < length s.stringtable.bfr + length word + 1)
      → (t : Option ℕ × ℕ × LexState) × (name_token s r ≡ done t) × Named s word t
  unfolding name_token
  token_of_name other {r = (o, table)} run room = by_address o run room
    where
      by_address :
          (o : Option ℕ)
          → intern s.stringtable word ≡ done (o, table)
          → (o ≢ none) ⊎ (s.stringtable.bfrcap < length s.stringtable.bfr + length word + 1)
          → (t : Option ℕ × ℕ × LexState) × (name_token s (o, table) ≡ done t) × Named s word t
      by_address none run (inl some_address) = absurd (some_address refl)
      by_address none run (inr full) = (_, refl, no_room table other full)
      by_address (some address) run _ =
          let (valid, found_at) = lookup-intern s.stringtable v word run in
          let found = found_at address refl in
          (
            _,
            refl,
            named address table other valid found
                (λ w q h. lookup-intern_kept s.stringtable v word w q run h),
          )

  -- With a free entry in a valid table, the token of a word is, and is only where it must be: the
  -- reserved word of that text; the name, whose address a lookup of the word in the table after
  -- gives, where every name that had an address keeps it; an error where the pool is too small.
  pub lex_word-Named :
      s.stringtable.entry_cnt < s.stringtable.entry_cap
      → 0 < length word
      → (t : Option ℕ × ℕ × LexState) × (lex_word s word ≡ done t) × Named s word t
  unfolding lex_word
  lex_word-Named free pos = elim (Option-cases (reserved_from first_reserved reserved_words word)) [
    | inl other ↦
        let (r, run, _, room) = intern-ends s.stringtable v word free pos in
        rw (other, run, lex_word)
          (token_of_name (reserved_from-none word first_reserved reserved_words other) run room)
    | inr (n, known) ↦
        let (i, at, lt, text) = reserved_from-some word first_reserved reserved_words n known in
        rw (known, at, lex_word) (_, refl, reserved i lt text)
  ]

-- A word is what stands in front of the first character that ends a word, of which no more is taken
-- than there is room for.
pub record IsWord (room : ℕ) (input word rest : List ℕ) : Type 0 where
  pub whole : word ++ rest ≡ input
  pub fits : length word ≤ room
  pub inside : (i : ℕ) → i < length word → ends_word (get_or word i 0) ≡ false
  pub maximal : (length word ≡ room) ⊎ (ends_word (get_or rest 0 0) ≡ true)

pub readoutword-IsWord :
    (room : ℕ) (input : List ℕ)
    → IsWord room input (readoutword room input).0 (readoutword room input).1
unfolding readoutword ends_word
readoutword-IsWord zero input = record {
  whole = refl;
  fits = omega arith;
  inside = λ i lt. absurd (omega (arith, lt));
  maximal = inl refl;
}
readoutword-IsWord (suc room) [] = record {
  whole = refl;
  fits = omega arith;
  inside = λ i lt. absurd (omega (arith, lt));
  maximal = inr refl;
}
readoutword-IsWord (suc room) (c ∷ input) =
    let w = readoutword-IsWord room input in
    elim (Bool-cases (ends_word c)) [
      | inl ends ↦ rw ends (record {
        whole = refl;
        fits = omega arith;
        inside = λ i lt. absurd (omega (arith, lt));
        maximal = inr ends;
      })
      | inr inside ↦ rw inside (record {
        whole = ap (λ l. c ∷ l) w.whole;
        fits = omega (arith, w.fits);
        inside = inside_word c _ inside w.inside;
        maximal = longer w.maximal;
      })
    ]
  where
    inside_word :
        (c : ℕ) (word : List ℕ)
        → ends_word c ≡ false
        → ((i : ℕ) → i < length word → ends_word (get_or word i 0) ≡ false)
        → (i : ℕ) → i < length (c ∷ word)
        → ends_word (get_or (c ∷ word) i 0) ≡ false
    inside_word c word e es zero lt = e
    inside_word c word e es (suc i) lt = es i (omega (arith, lt))

    longer : {n m : ℕ} {A : Type 0} → (n ≡ m) ⊎ A → (suc n ≡ suc m) ⊎ A
    longer (inl e) = inl (ap suc e)
    longer (inr a) = inr a
