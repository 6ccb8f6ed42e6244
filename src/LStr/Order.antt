-- ===== src/LStr/Order.antt =====
-- `mclstr_cmp` orders strings, and gives 0 exactly for equal ones.
use mclua.Prelude.{
  ℕ, min, ◌∙◌, zero, suc, ◌≡◌, refl, ◌↔◌, List, [], ◌∷◌, arith, length, ltb, if◌then◌else◌,
  Bool-cases, inl, inr,
}
use mclua.Prelude.Int.{ℤ, pos, negsuc}
use mclua.LStr.{memcmp, cmp_len, mclstr_cmp}

-- The order of the dictionary, by the first character that differs.
unfoldable pub compare_chars : List ℕ → List ℕ → ℤ
compare_chars [] [] = pos 0
compare_chars [] (b ∷ bs) = negsuc 0
compare_chars (a ∷ as_) [] = pos 1
compare_chars (a ∷ as_) (b ∷ bs) =
    if ltb a b then negsuc 0 else if ltb b a then pos 1 else compare_chars as_ bs

cmp_len-memcmp :
    (n : ℕ) (s t : List ℕ)
    → n ≡ min (length s) (length t)
    → cmp_len (memcmp n s t) (length s) (length t) ≡ compare_chars s t
unfolding memcmp cmp_len compare_chars
cmp_len-memcmp zero [] [] e = refl
cmp_len-memcmp zero [] (b ∷ t) e = ground arith
cmp_len-memcmp zero (a ∷ s) [] e = ground arith
cmp_len-memcmp zero (a ∷ s) (b ∷ t) e = absurd (omega arith)
cmp_len-memcmp (suc n) [] t e = absurd (omega arith)
cmp_len-memcmp (suc n) (a ∷ s) [] e = absurd (omega arith)
cmp_len-memcmp (suc n) (a ∷ s) (b ∷ t) e = elim (Bool-cases (ltb a b)) [
  | inl lt ↦ rw (lt, memcmp, compare_chars)
  | inr ge ↦ elim (Bool-cases (ltb b a)) [
    | inl gt ↦ rw (ge, gt, memcmp, compare_chars)
    | inr le ↦
        rw (ge, le, memcmp, compare_chars)
          (succ (memcmp n s t) ∙ cmp_len-memcmp n s t (omega arith))
  ]
]
  where
    succ : (r : ℤ) → cmp_len r (suc (length s)) (suc (length t)) ≡ cmp_len r (length s) (length t)
    succ (negsuc r) = refl
    succ (pos (suc r)) = refl
    succ (pos zero) = ground arith

-- `mclstr_cmp` compares as the dictionary does: by the first character that differs, and a string
-- stands before the longer ones that it begins.
pub mclstr_cmp-compare_chars : (s t : List ℕ) → mclstr_cmp s t ≡ compare_chars s t
unfolding mclstr_cmp
mclstr_cmp-compare_chars s t = cmp_len-memcmp _ s t (ground arith)

compare_chars-zero : (s t : List ℕ) → compare_chars s t ≡ pos 0 → s ≡ t
unfolding compare_chars
compare_chars-zero [] [] e = refl
compare_chars-zero [] (b ∷ t) e = cc
compare_chars-zero (a ∷ s) [] e = absurd (zero-one e)
  where
    zero-one : ◌≡◌ {A = ℤ} (pos 1) (pos 0) → ⊥
    zero-one e = ground arith
compare_chars-zero (a ∷ s) (b ∷ t) e = ground (arith, compare_chars-zero s t)

compare_chars_self : (s : List ℕ) → compare_chars s s ≡ pos 0
unfolding compare_chars
compare_chars_self [] = refl
compare_chars_self (a ∷ s) = ground (arith, compare_chars_self s)

-- `mclstr_cmp` gives 0 exactly for equal strings.
pub mclstr_cmp_iff : (s t : List ℕ) → (mclstr_cmp s t ≡ pos 0) ↔ (s ≡ t)
mclstr_cmp_iff s t = (
  λ e. compare_chars-zero s t (rw (mclstr_cmp-compare_chars s t) at e),
  λ e. rw (mclstr_cmp-compare_chars, ← e) (compare_chars_self s),
)
