-- ===== src/Lex/Numbers.antt =====
-- Decimal numbers: the digits of a number are lexed as that number.
use mclua.Prelude.{
  ℕ, zero, suc, ◌+◌, ◌-◌, ◌*◌, ◌/◌, ◌%◌, ◌^◌, ◌<◌, ◌≤◌, ◌≡◌, refl, ap, ◌∙◌, min, inl, inr, List, [],
  ◌∷◌, ◌++◌, Bool, true, false, ◌||◌, ◌&&◌, ltb, ◌==◌, if◌then◌else◌, length, arith, Bool-cases,
}
use mclua.Token.{tk_int}
use mclua.Lex.{isdigit, isalpha, isalnum, is_exponent_sign, readnumber, word_room}
use mclua.Lex.Words.{
  LexState, token, digit_value, strtol, is_float, is_hex, number_token, mclex_lexnumber,
}

-- The decimal digits of a number, in front of `acc`.
unfoldable pub decimal : ℕ → ℕ → List ℕ → List ℕ
decimal zero n acc = acc
decimal (suc rounds) n acc =
    let more = decimal rounds (n / 10) ((b'0' + n % 10) ∷ acc) in
    if n / 10 == 0 then (b'0' + n % 10) ∷ acc else more

pub data AllDigits : List ℕ → Type 0 where
  no_digits : AllDigits []
  digits : {c : ℕ} {word : List ℕ} → b'0' ≤ c → c ≤ b'9' → AllDigits word → AllDigits (c ∷ word)

decimal-AllDigits : (rounds n : ℕ) (acc : List ℕ) → AllDigits acc → AllDigits (decimal rounds n acc)
unfolding decimal
decimal-AllDigits zero n acc d = d
decimal-AllDigits (suc rounds) n acc d =
    let d' : AllDigits ((b'0' + n % 10) ∷ acc) = digits (omega arith) (omega arith) d in
    elim (Bool-cases (n / 10 == 0)) [
      | inl last ↦ rw last d'
      | inr more ↦ rw more (decimal-AllDigits rounds (n / 10) ((b'0' + n % 10) ∷ acc) d')
    ]

digit_value-digit : (d : ℕ) → d < 10 → digit_value (b'0' + d) ≡ d
unfolding digit_value isdigit
digit_value-digit d lt = ground (arith, lt)

strtol-digit :
    (value d : ℕ) (word : List ℕ)
    → d < 10
    → strtol 10 value ((b'0' + d) ∷ word) ≡ strtol 10 (value * 10 + d) word
unfolding strtol
strtol-digit value d word lt =
    let in_base : ltb d 10 ≡ true = ground (arith, lt) in rw (digit_value-digit d lt, in_base) refl

strtol-decimal :
    (rounds n : ℕ) (acc : List ℕ)
    → n < rounds
    → strtol 10 0 (decimal rounds n acc) ≡ strtol 10 n acc
unfolding decimal
strtol-decimal zero n acc lt = absurd (omega (arith, lt))
strtol-decimal (suc rounds) n acc lt = elim (Bool-cases (n / 10 == 0)) [
  | inl last ↦
      let same : 0 * 10 + n % 10 ≡ n = ground (arith, last) in
      rw last (strtol-digit 0 (n % 10) acc (omega arith) ∙ ap (λ v. strtol 10 v acc) same)
  | inr more ↦
      let same : n / 10 * 10 + n % 10 ≡ n = omega arith in
      let fewer : n / 10 < rounds = ground (arith, more, lt) in
      rw more (
        strtol-decimal rounds (n / 10) ((b'0' + n % 10) ∷ acc) fewer
        ∙ strtol-digit (n / 10) (n % 10) acc (omega arith)
        ∙ ap (λ v. strtol 10 v acc) same)
]

-- What stands behind a number, which does not go on.
pub data Stops : List ℕ → Type 0 where
  at_end : Stops []
  other : {c : ℕ} {rest : List ℕ} → isalnum c ≡ false → c == b'.' ≡ false → Stops (c ∷ rest)

abbrev exponent_letter : ℕ → Bool
exponent_letter prev = prev == b'e' || (prev == b'E' || (prev == b'p' || prev == b'P'))

is_exponent_sign_calm :
    (prev c : ℕ) → exponent_letter prev ≡ false → is_exponent_sign prev c ≡ false
unfolding is_exponent_sign
is_exponent_sign_calm prev c calm = rw calm (and_false (c == b'+' || c == b'-'))
  where
    and_false : (b : Bool) → (b && false) ≡ false
    and_false true = refl
    and_false false = refl

digit_calm : (c : ℕ) → b'0' ≤ c → c ≤ b'9' → exponent_letter c ≡ false
digit_calm c lo hi = ground (arith, lo, hi)

isalnum-digit : (c : ℕ) → b'0' ≤ c → c ≤ b'9' → isalnum c ≡ true
unfolding isalnum isalpha isdigit
isalnum-digit c lo hi = ground (arith, lo, hi)

module _ (rest : List ℕ) (stops : Stops rest) where
  readnumber-stops :
      (room prev : ℕ) → exponent_letter prev ≡ false → readnumber room prev rest ≡ ([], rest)
  unfolding readnumber
  readnumber-stops zero prev calm = refl
  readnumber-stops (suc room) prev calm = by_next rest stops
    where
      by_next : (rest : List ℕ) → Stops rest → readnumber (suc room) prev rest ≡ ([], rest)
      by_next _ at_end = refl
      by_next (c ∷ rest) (other no_word no_dot) =
          rw (no_word, no_dot, is_exponent_sign_calm prev c calm) refl

  -- The digits are read, and nothing behind them.
  readnumber-digits :
      (room prev : ℕ) (word : List ℕ)
      → AllDigits word
      → length word ≤ room
      → exponent_letter prev ≡ false
      → readnumber room prev (word ++ rest) ≡ (word, rest)
  unfolding readnumber
  readnumber-digits room prev _ no_digits le calm = readnumber-stops room prev calm
  readnumber-digits zero prev (c ∷ word) (digits lo hi d) le calm = absurd (omega (arith, le))
  readnumber-digits (suc room) prev (c ∷ word) (digits lo hi d) le calm =
      rw
        (
          isalnum-digit c lo hi,
          readnumber-digits room c word d (omega (arith, le)) (digit_calm c lo hi),
        )
        refl

is_float-digits : (word : List ℕ) → AllDigits word → is_float word ≡ false
unfolding is_float
is_float-digits _ no_digits = refl
is_float-digits (c ∷ word) (digits lo hi d) = ground (arith, lo, hi, is_float-digits word d)

is_hex-digits : (word : List ℕ) → AllDigits word → is_hex word ≡ false
unfolding is_hex
is_hex-digits _ no_digits = refl
is_hex-digits (c ∷ _) (digits lo hi no_digits) = ground arith
is_hex-digits (c ∷ x ∷ word) (digits lo hi (digits lo' hi' d)) = ground (arith, lo', hi')

-- The decimal digits of a number, in front of what does not go on with a number, are lexed as that
-- number, or LONG_MAX if it is larger, and no more is taken, where the scratch word has room for the
-- digits.
pub mclex_lexnumber-decimal :
    (strtod : List ℕ → ℕ) (s : LexState) (n : ℕ) (rest : List ℕ)
    → Stops rest
    → s.input ≡ decimal (suc n) n [] ++ rest
    → length (decimal (suc n) n []) ≤ word_room s.wordscratch_cap
    → mclex_lexnumber strtod s ≡ token tk_int (min n (2 ^ 63 - 1)) (record s { input = rest })
unfolding mclex_lexnumber number_token strtol
mclex_lexnumber-decimal strtod s n rest stops given fits =
    let word = decimal (suc n) n [] in
    let d = decimal-AllDigits (suc n) n [] no_digits in
    let value = strtol-decimal (suc n) n [] (omega arith) in
    rw
      (
        given,
        readnumber-digits rest stops (word_room s.wordscratch_cap) 0 word d fits refl,
        is_hex-digits word d,
        is_float-digits word d,
        value,
      )
      refl
