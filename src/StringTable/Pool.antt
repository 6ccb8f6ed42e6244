-- ===== src/StringTable/Pool.antt =====
-- The byte pool: what stands at an address stays there when the pool grows.
use mclua.Prelude.{
  ℕ, zero, suc, ◌+◌, ◌≤◌, ◌≡◌, refl, ap, List, [], ◌∷◌, ◌++◌, true, arith, length, take, drop, ◌↔◌,
}
use mclua.StringTable.{same_bytes}

module _ {ℓ} {A : Type ℓ} where
  pub take-append : (n : ℕ) (xs ys : List A) → n ≤ length xs → take n (xs ++ ys) ≡ take n xs
  take-append zero xs ys h = refl
  take-append (suc n) [] ys h = absurd (omega arith)
  take-append (suc n) (x ∷ xs) ys h = ap (λ t. x ∷ t) (take-append n xs ys (omega arith))

  pub drop-append : (n : ℕ) (xs ys : List A) → n ≤ length xs → drop n (xs ++ ys) ≡ drop n xs ++ ys
  drop-append zero xs ys h = refl
  drop-append (suc n) [] ys h = absurd (omega arith)
  drop-append (suc n) (x ∷ xs) ys h = drop-append n xs ys (omega arith)

  pub take-drop-append :
      (m n : ℕ) (xs ys : List A)
      → m + n ≤ length xs
      → take n (drop m (xs ++ ys)) ≡ take n (drop m xs)
  take-drop-append zero n xs ys h = take-append n xs ys (omega arith)
  take-drop-append (suc m) n [] ys h = absurd (omega arith)
  take-drop-append (suc m) n (x ∷ xs) ys h = take-drop-append m n xs ys (omega arith)

  pub take-drop-last :
      (xs ys zs : List A) → take (length ys) (drop (length xs) (xs ++ ys ++ zs)) ≡ ys
  take-drop-last [] [] zs = refl
  take-drop-last [] (y ∷ ys) zs = ap (λ t. y ∷ t) (take-drop-last [] ys zs)
  take-drop-last (x ∷ xs) ys zs = take-drop-last xs ys zs

pub same_bytes_iff : (a b : List ℕ) → (same_bytes a b ≡ true) ↔ (a ≡ b)
unfolding same_bytes
same_bytes_iff a b = (to a b, λ e. subst_self a b e)
  where
    to : (a b : List ℕ) → same_bytes a b ≡ true → a ≡ b
    to [] [] h = refl
    to [] (y ∷ b) h = cc
    to (x ∷ a) [] h = cc
    to (x ∷ a) (y ∷ b) h = ground (arith, to a b)

    self : (a : List ℕ) → same_bytes a a ≡ true
    self [] = refl
    self (x ∷ a) = ground (arith, self a)

    subst_self : (a b : List ℕ) → a ≡ b → same_bytes a b ≡ true
    subst_self a b e = rw (← e) (self a)
