-- ===== src/Lex/Suffixes.antt =====
-- What each loop of the lexer leaves is a rest of the input.
use mclua.Prelude.{
  ℕ, zero, suc, ◌≤◌, List, [], ◌∷◌, Bool, true, false, ◌||◌, ◌==◌, if◌then◌else◌, length, arith,
  inl, inr, Bool-cases,
}
use mclua.Lex.{
  advance, isspace, isalnum, ends_word, is_exponent_sign, readoutword, readnumber, equals,
  skip_line, skip_long, skip_comment, skip_space,
}

-- The second list is what is left of the first behind some of its items.
pub data Suffix : List ℕ → List ℕ → Type 0 where
  here : {input : List ℕ} → Suffix input input
  behind : {c : ℕ} {input rest : List ℕ} → Suffix input rest → Suffix (c ∷ input) rest

pub Suffix-trans : {a b c : List ℕ} → Suffix a b → Suffix b c → Suffix a c
Suffix-trans here q = q
Suffix-trans (behind p) q = behind (Suffix-trans p q)

pub length-Suffix : {a b : List ℕ} → Suffix a b → length b ≤ length a
length-Suffix here = omega arith
length-Suffix (behind p) = omega (arith, length-Suffix p)

pub Suffix-if :
    {a b c : List ℕ} (t : Bool) → Suffix a b → Suffix a c → Suffix a (if t then b else c)
Suffix-if true p q = p
Suffix-if false p q = q

pub advance-Suffix : (input : List ℕ) → Suffix input (advance input)
advance-Suffix [] = here
advance-Suffix (c ∷ input) = behind here

pub readoutword-Suffix : (room : ℕ) (input : List ℕ) → Suffix input (readoutword room input).1
unfolding readoutword
readoutword-Suffix zero input = here
readoutword-Suffix (suc room) [] = here
readoutword-Suffix (suc room) (c ∷ input) = elim (Bool-cases (ends_word c)) [
  | inl stop ↦ rw stop here
  | inr on ↦ rw on (behind (readoutword-Suffix room input))
]

pub readnumber-Suffix :
    (room prev : ℕ) (input : List ℕ) → Suffix input (readnumber room prev input).1
unfolding readnumber
readnumber-Suffix zero prev input = here
readnumber-Suffix (suc room) prev [] = here
readnumber-Suffix (suc room) prev (c ∷ input) =
    elim (Bool-cases (isalnum c || (c == b'.' || is_exponent_sign prev c))) [
      | inl on ↦ rw on (behind (readnumber-Suffix room c input))
      | inr stop ↦ rw stop here
    ]

pub equals-Suffix : (input : List ℕ) → Suffix input (equals input).1
unfolding equals
equals-Suffix [] = here
equals-Suffix (c ∷ input) = elim (Bool-cases (c == b'=')) [
  | inl on ↦ rw on (behind (equals-Suffix input))
  | inr stop ↦ rw stop here
]

skip_line-Suffix : (input : List ℕ) → Suffix input (skip_line input)
unfolding skip_line
skip_line-Suffix [] = here
skip_line-Suffix (c ∷ input) = Suffix-if _ here (behind (skip_line-Suffix input))

pub skip_space-Suffix : (input : List ℕ) → Suffix input (skip_space input)
unfolding skip_space
skip_space-Suffix [] = here
skip_space-Suffix (c ∷ input) = Suffix-if (isspace c) (behind (skip_space-Suffix input)) here

-- The input behind a `]` and what was read with it, or behind another character.
pub next-Suffix :
    (c : ℕ) (input : List ℕ) → Suffix input (if c == b']' then (equals input).1 else input)
next-Suffix c input = Suffix-if (c == b']') (equals-Suffix input) here

skip_long-Suffix : (rounds level : ℕ) (input : List ℕ) → Suffix input (skip_long rounds level input)
unfolding skip_long
skip_long-Suffix zero level input = here
skip_long-Suffix (suc rounds) level [] = here
skip_long-Suffix (suc rounds) level (c ∷ input) = behind (
    Suffix-if (c == 0) here (
      Suffix-if _ (Suffix-trans (equals-Suffix input) (advance-Suffix (equals input).1))
        (Suffix-trans (next-Suffix c input) (skip_long-Suffix rounds level _))))

pub skip_comment-Suffix : (input : List ℕ) → Suffix input (skip_comment input)
unfolding skip_comment
skip_comment-Suffix input =
    let eqs = equals (advance input) in
    let p : Suffix input eqs.1 =
      Suffix-trans (advance-Suffix input) (equals-Suffix (advance input)) in
    Suffix-if _
      (Suffix-if _
        (Suffix-trans p (
          Suffix-trans (advance-Suffix eqs.1)
            (skip_long-Suffix (length eqs.1) eqs.0 (advance eqs.1))))
        (Suffix-trans p (skip_line-Suffix eqs.1)))
      (skip_line-Suffix input)
