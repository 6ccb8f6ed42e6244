-- ===== src/Lex/Lengths.antt =====
-- A word and what is left behind it are as long as the input.
use mclua.Prelude.{ℕ, zero, suc, ◌+◌, ◌≡◌, List, [], ◌∷◌, length, arith, Bool-cases, inl, inr}
use mclua.Lex.{ends_word, readoutword}

-- What is read and what is left are as long as the input.
pub length-readoutword :
    (room : ℕ) (input : List ℕ)
    → length (readoutword room input).0 + length (readoutword room input).1 ≡ length input
unfolding readoutword
length-readoutword zero input = omega arith
length-readoutword (suc room) [] = omega arith
length-readoutword (suc room) (c ∷ input) = elim (Bool-cases (ends_word c)) [
  | inl stop ↦ rw stop (omega arith)
  | inr on ↦ rw on (omega (arith, length-readoutword room input))
]
