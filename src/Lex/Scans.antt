-- ===== src/Lex/Scans.antt =====
-- What the scans of strings leave, and when they stay inside `strbfr`.
use mclua.Prelude.{
  ℕ, zero, suc, ◌+◌, ◌<◌, ◌≡◌, ◌≢◌, refl, List, [], ◌∷◌, ◌++◌, Bool, true, false, not, ◌&&◌, ◌||◌,
  ltb, leb, ◌==◌, if◌then◌else◌, length, replicate, arith, inl, inr, Bool-cases, Option-cases,
}
use mclua.Config.{VmConfig}
use mclua.LStr.{mclstr_append_str0}
use mclua.Lex.{peek, equals}
use mclua.Lex.Strings.{
  Scan, Scanned, closed, broken, overran, at_nul, flush, push, string_loop, long_loop,
}
use mclua.Lex.Suffixes.{
  Suffix, here, behind, Suffix-trans, advance-Suffix, equals-Suffix, next-Suffix,
}

-- A `]` is directly followed by `=` somewhere in the input.
unfoldable pub bracket_equals : List ℕ → Bool
bracket_equals [] = false
bracket_equals (c ∷ input) = (c == b']' && peek input == b'=') || bracket_equals input

pub bracket_equals-Suffix :
    {a b : List ℕ} → Suffix a b → bracket_equals a ≡ false → bracket_equals b ≡ false
unfolding bracket_equals
bracket_equals-Suffix here e = e
bracket_equals-Suffix (behind p) e = bracket_equals-Suffix p (ground (arith, e))

-- A scan leaves a rest of the input, and stays inside `strbfr` where `calm` holds.
pub record Scans (input : List ℕ) (calm : Type 0) (r : Scanned) : Type 0 where
  pub rest : Suffix input r.2
  pub inside : calm → r.0 ≢ overran

module _ {input : List ℕ} {calm : Type 0} where
  Scans-if :
      {r r' : Scanned} (t : Bool)
      → Scans input calm r
      → Scans input calm r'
      → Scans input calm (if t then r else r')
  Scans-if true p q = p
  Scans-if false p q = q

  Scans-closed : (b : Scan) {rest : List ℕ} → Suffix input rest → Scans input calm (closed, b, rest)
  Scans-closed b p = record { rest = p; inside = λ _ e. cc }

  Scans-broken : (b : Scan) {rest : List ℕ} → Suffix input rest → Scans input calm (broken, b, rest)
  Scans-broken b p = record { rest = p; inside = λ _ e. cc }

  Scans-at_nul :
      (b : Scan) (long : Bool) {rest : List ℕ}
      → Suffix input rest
      → Scans input calm (at_nul long, b, rest)
  unfolding at_nul
  Scans-at_nul b true p = Scans-closed b p
  Scans-at_nul b false p = Scans-broken b p

  -- The test for room in `strbfr`.
  Scans-room :
      {r : Scanned} (t : Bool) (b : Scan)
      → (calm → t ≡ false)
      → Scans input calm r
      → Scans input calm (if t then (overran, b, input) else r)
  Scans-room true b fits p = record { rest = here; inside = λ c. absurd (true_false (fits c)) }
    where
      true_false : true ≡ false → ⊥
      true_false e = cc
  Scans-room false b fits p = p

  pub Scans-behind :
      {calm' : Type 0} {next : List ℕ} {r : Scanned}
      → Suffix input next
      → (calm → calm')
      → Scans next calm' r
      → Scans input calm r
  Scans-behind p on q = record { rest = Suffix-trans p q.rest; inside = λ c. q.inside (on c) }

equals_calm : (input : List ℕ) → (peek input == b'=') ≡ false → (equals input).0 ≡ 0
unfolding equals
equals_calm [] e = refl
equals_calm (c ∷ input) e = rw e refl

-- One character is written for each that is read, unless `=` follows a `]`.
one_written :
    (c : ℕ) (input : List ℕ)
    → bracket_equals (c ∷ input) ≡ false
    → length (if c == b']' then b']' ∷ replicate (equals input).0 b'=' else c ∷ []) ≡ 1
unfolding bracket_equals
one_written c input calm = elim (Bool-cases (c == b']')) [
  | inr other ↦ rw other refl
  | inl bracket ↦
      let no_equals : (peek input == b'=') ≡ false = ground (arith, calm, bracket) in
      rw (bracket, equals_calm input no_equals) refl
]

module _ (config : VmConfig) (cap : ℕ) where
  -- The buffer is never full behind a push that fits.
  push-lt : (b : Scan) (chars : List ℕ) → 0 < cap → length (push cap b chars).bfr < cap
  unfolding push flush
  push-lt b chars pos = elim (Bool-cases (leb cap (length (b.bfr ++ chars)))) [
    | inr room ↦ rw room (ground (arith, room))
    | inl full ↦ elim (Option-cases (mclstr_append_str0 b.str (b.bfr ++ chars) b.heap)) [
      | inl refused ↦ rw (full, refused, flush) pos
      | inr (made, e) ↦ rw (full, e, flush) pos
    ]
  ]

  pub string_loop-Scans :
      (quote : ℕ) (input : List ℕ) (escaped : Bool) (b : Scan)
      → Scans input (length b.bfr < cap) (string_loop config cap quote input escaped b)
  unfolding string_loop
  string_loop-Scans quote [] escaped b =
      Scans-at_nul b (leb config.max_str_len (length b.str.chars)) here
  string_loop-Scans quote (c ∷ input) escaped b = Scans-if _ (Scans-closed b here) (
      Scans-if _ (Scans-broken b here) (
        Scans-if _ (Scans-closed b (behind here)) (
          Scans-room _ b (λ lt. ground (arith, lt))
            (Scans-behind (behind here) (λ lt. push-lt b (c ∷ []) (omega (arith, lt)))
              (string_loop-Scans quote input (not escaped && c == 92) (push cap b (c ∷ [])))))))

  pub long_loop-Scans :
      (rounds level : ℕ) (input : List ℕ) (b : Scan)
      → Scans input
          ((length b.bfr < cap) × (bracket_equals input ≡ false))
          (long_loop config cap rounds level input b)
  unfolding long_loop bracket_equals
  long_loop-Scans zero level input b =
      Scans-at_nul b (leb config.max_str_len (length b.str.chars)) here
  long_loop-Scans (suc rounds) level [] b =
      Scans-at_nul b (leb config.max_str_len (length b.str.chars)) here
  long_loop-Scans (suc rounds) level (c ∷ input) b =
      let eqs = equals input in
      let chars = if c == b']' then b']' ∷ replicate eqs.0 b'=' else c ∷ [] in
      let next = if c == b']' then eqs.1 else input in
      let p : Suffix (c ∷ input) next = behind (next-Suffix c input) in
      Scans-if _ (Scans-closed b here) (
        Scans-if _ (Scans-broken b here) (
          Scans-if _
            (Scans-closed b (behind (Suffix-trans (equals-Suffix input) (advance-Suffix eqs.1))))
            (Scans-room _ b (λ calm. room c input calm.1 calm.0)
              (Scans-behind p
                (λ calm. (push-lt b chars (omega (arith, calm.0)), bracket_equals-Suffix p calm.1))
                (long_loop-Scans rounds level next (push cap b chars))))))
    where
      room :
          (c : ℕ) (input : List ℕ)
          → bracket_equals (c ∷ input) ≡ false
          → length b.bfr < cap
          → ltb cap (
              length b.bfr
              + length (if c == b']' then b']' ∷ replicate (equals input).0 b'=' else c ∷ []))
            ≡ false
      room c input calm lt = let one = one_written c input calm in ground (arith, one, lt)
