-- ===== src/Probing/Count.antt =====
-- How many slots of a table are taken.
use mclua.Prelude.{
  ℕ, zero, suc, ◌<◌, ◌≤◌, ◌≡◌, refl, List, [], ◌∷◌, Option, none, some, get_or, set, length,
  replicate, arith,
}

module _ {ℓ} {E : Type ℓ} where
  abbrev pub taken : List (Option E) → ℕ
  taken [] = 0
  taken (none ∷ slots) = taken slots
  taken (some e ∷ slots) = suc (taken slots)

  pub taken-le-length : (slots : List (Option E)) → taken slots ≤ length slots
  taken-le-length [] = omega arith
  taken-le-length (none ∷ slots) = omega (arith, taken-le-length slots)
  taken-le-length (some e ∷ slots) = omega (arith, taken-le-length slots)

  -- Where not every slot is taken there is a free one.
  pub free_of_taken-lt :
      (slots : List (Option E))
      → taken slots < length slots
      → (z : ℕ) × (z < length slots) × (get_or slots z none ≡ none)
  free_of_taken-lt [] h = absurd (omega arith)
  free_of_taken-lt (none ∷ slots) h = (0, omega arith, refl)
  free_of_taken-lt (some e ∷ slots) h =
      let (z, lt, free) = free_of_taken-lt slots (omega arith) in (suc z, omega arith, free)

  pub taken-set :
      (slots : List (Option E)) (j : ℕ) (e : E)
      → j < length slots
      → get_or slots j none ≡ none
      → taken (set slots j (some e)) ≡ suc (taken slots)
  taken-set [] j e h free = elim h [ ]
  taken-set (none ∷ slots) zero e h free = refl
  taken-set (some x ∷ slots) zero e h free = cc
  taken-set (none ∷ slots) (suc j) e h free = taken-set slots j e (omega arith) free
  taken-set (some x ∷ slots) (suc j) e h free =
      omega (arith, taken-set slots j e (omega arith) free)

  -- Where as many slots are taken as there are, each one is.
  pub taken_everywhere :
      (slots : List (Option E)) (i : ℕ)
      → taken slots ≡ length slots
      → i < length slots
      → (e : E) × (get_or slots i none ≡ some e)
  taken_everywhere [] i h lt = elim lt [ ]
  taken_everywhere (none ∷ slots) i h lt = absurd (omega (arith, taken-le-length slots))
  taken_everywhere (some e ∷ slots) zero h lt = (e, refl)
  taken_everywhere (some e ∷ slots) (suc i) h lt =
      taken_everywhere slots i (omega arith) (omega arith)

pub taken-replicate {ℓ} : (E : Type ℓ) (n : ℕ) → taken (replicate {A = Option E} n none) ≡ 0
taken-replicate E zero = refl
taken-replicate E (suc n) = taken-replicate E n
