-- ===== src/Lex/Reserved.antt =====
-- src/lib/mctoken.h: `tokenstr`, the texts of the reserved words, in the order of their numbers.
use mclua.Prelude.{ℕ, List, [], ◌∷◌}

abbrev pub reserved_words : List (List ℕ)
reserved_words =
    (b'a' ∷ b'n' ∷ b'd' ∷ [])
    ∷ (b'b' ∷ b'r' ∷ b'e' ∷ b'a' ∷ b'k' ∷ [])
    ∷ (b'd' ∷ b'o' ∷ [])
    ∷ (b'e' ∷ b'l' ∷ b's' ∷ b'e' ∷ [])
    ∷ (b'e' ∷ b'l' ∷ b's' ∷ b'e' ∷ b'i' ∷ b'f' ∷ [])
    ∷ (b'e' ∷ b'n' ∷ b'd' ∷ [])
    ∷ (b'f' ∷ b'a' ∷ b'l' ∷ b's' ∷ b'e' ∷ [])
    ∷ (b'f' ∷ b'o' ∷ b'r' ∷ [])
    ∷ (b'f' ∷ b'u' ∷ b'n' ∷ b'c' ∷ b't' ∷ b'i' ∷ b'o' ∷ b'n' ∷ [])
    ∷ (b'g' ∷ b'o' ∷ b't' ∷ b'o' ∷ [])
    ∷ (b'i' ∷ b'f' ∷ [])
    ∷ (b'i' ∷ b'n' ∷ [])
    ∷ (b'l' ∷ b'o' ∷ b'c' ∷ b'a' ∷ b'l' ∷ [])
    ∷ (b'n' ∷ b'i' ∷ b'l' ∷ [])
    ∷ (b'n' ∷ b'o' ∷ b't' ∷ [])
    ∷ (b'o' ∷ b'r' ∷ [])
    ∷ (b'r' ∷ b'e' ∷ b'p' ∷ b'e' ∷ b'a' ∷ b't' ∷ [])
    ∷ (b'r' ∷ b'e' ∷ b't' ∷ b'u' ∷ b'r' ∷ b'n' ∷ [])
    ∷ (b't' ∷ b'h' ∷ b'e' ∷ b'n' ∷ [])
    ∷ (b't' ∷ b'r' ∷ b'u' ∷ b'e' ∷ [])
    ∷ (b'u' ∷ b'n' ∷ b't' ∷ b'i' ∷ b'l' ∷ [])
    ∷ (b'w' ∷ b'h' ∷ b'i' ∷ b'l' ∷ b'e' ∷ [])
    ∷ []
