-- ===== src/Probing/Laws.antt =====
-- Where a probe ends, and what a write to a free slot does to probes.
use mclua.Prelude.{
  ℕ, zero, suc, ◌+◌, ◌-◌, ◌%◌, ◌<◌, ◌≡◌, refl, ◌≢◌, ◌⊎◌, inl, inr, List, [], ◌∷◌, Option, none,
  some, Bool, true, false, get_or, set, length, length-set, if◌then◌else◌, arith, Bool-cases,
  Option-cases, leb, ◌==◌, ap,
}
use native.Mathlib.Nat.{mod-eq_of_lt}
use mclua.Probing.{done, spins, probe, free_slot, next}

-- The number of steps from one slot to another, round the end of the table.
abbrev pub distance : ℕ → ℕ → ℕ → ℕ
distance cap z idx = if leb idx z then z - idx else z + cap - idx

mod-next : (cap idx : ℕ) → idx < cap → (idx + 1) % cap ≡ (if idx + 1 == cap then 0 else idx + 1)
mod-next cap idx h = elim (Bool-cases (idx + 1 == cap)) [
  | inl last ↦ rw last (let e : idx + 1 ≡ cap = ground arith in rw e (grind arith))
  | inr more ↦ rw more (mod-eq_of_lt (ground arith))
]

distance-next :
    (cap z idx : ℕ)
    → z < cap
    → idx < cap
    → z ≢ idx
    → suc (distance cap z ((idx + 1) % cap)) ≡ distance cap z idx
distance-next cap z idx hz hi ne = rw (mod-next cap idx hi) (ground arith)

pub distance-lt : (cap z idx : ℕ) → z < cap → idx < cap → distance cap z idx < cap
distance-lt cap z idx hz hi = ground arith

module _ {ℓ} {E : Type ℓ} where
  pub get_or-set_ne :
      (xs : List (Option E)) (i j : ℕ) (v : Option E)
      → i ≢ j
      → get_or (set xs i v) j none ≡ get_or xs j none
  get_or-set_ne [] i j v h = refl
  get_or-set_ne (x ∷ xs) zero zero v h = absurd (h refl)
  get_or-set_ne (x ∷ xs) zero (suc j) v h = refl
  get_or-set_ne (x ∷ xs) (suc i) zero v h = refl
  get_or-set_ne (x ∷ xs) (suc i) (suc j) v h = get_or-set_ne xs i j v (λ e. h (ap suc e))

  pub get_or-set_self :
      (xs : List (Option E)) (i : ℕ) (v : Option E) → i < length xs → get_or (set xs i v) i none ≡ v
  get_or-set_self [] i v h = elim h [ ]
  get_or-set_self (x ∷ xs) zero v h = refl
  get_or-set_self (x ∷ xs) (suc i) v h = get_or-set_self xs i v (omega arith)

  pub next-lt :
      (slots : List (Option E)) (idx : ℕ) → idx < length slots → next slots idx < length slots
  next-lt slots idx h = omega arith

  module _ (slots : List (Option E)) (m : E → Bool) where
    -- A probe gives an item of the table that matches.
    pub probe-found :
        (fuel idx : ℕ) {e : E}
        → probe fuel slots m idx ≡ done (some e)
        → (j : ℕ) × (get_or slots j none ≡ some e) × (m e ≡ true)
    unfolding probe
    probe-found zero idx run = cc
    probe-found (suc fuel) idx {e = e} run = elim (Option-cases (get_or slots idx none)) [
      | inl free ↦ cc (rw (free, probe) at run)
      | inr (x, taken) ↦ elim (Bool-cases (m x)) [
        | inl same ↦ (idx, ground arith, ground arith)
        | inr other ↦ probe-found fuel (next slots idx) (ground arith)
      ]
    ]

    -- A probe with as much fuel as it takes to walk to a free slot ends.
    pub probe-ends :
        (fuel idx z : ℕ)
        → z < length slots
        → idx < length slots
        → get_or slots z none ≡ none
        → distance (length slots) z idx < fuel
        → (r : Option E) × (probe fuel slots m idx ≡ done r)
    unfolding probe
    probe-ends zero idx z hz hi free d = absurd (omega arith)
    probe-ends (suc fuel) idx z hz hi free d = elim (Option-cases (get_or slots idx none)) [
      | inl stop ↦ (none, ground arith)
      | inr (x, taken) ↦ elim (Bool-cases (m x)) [
        | inl same ↦ (some x, ground arith)
        | inr other ↦
            let ne : z ≢ idx = λ e. cc in
            let (r, run) =
              probe-ends fuel (next slots idx) z hz (next-lt slots idx hi) free
                (omega (arith, distance-next (length slots) z idx hz hi ne)) in
            (r, ground arith)
      ]
    ]

    -- Where every slot is taken and no item matches, a probe does not end, whatever its fuel.
    pub probe-spins :
        (fuel idx : ℕ)
        → idx < length slots
        → ((i : ℕ) → i < length slots → (e : E) × (get_or slots i none ≡ some e) × (m e ≡ false))
        → probe fuel slots m idx ≡ spins
    unfolding probe
    probe-spins zero idx hi full = refl
    probe-spins (suc fuel) idx hi full =
        let (e, taken, other) = full idx hi in
        ground (arith, probe-spins fuel (next slots idx) (next-lt slots idx hi) full)

  module _ (slots : List (Option E)) (m : E → Bool) (j : ℕ) (free : get_or slots j none ≡ none)
      (e : E) where
    -- A write to a free slot keeps what a probe finds.
    pub probe-set :
        (fuel idx : ℕ) (x : E)
        → probe fuel slots m idx ≡ done (some x)
        → probe fuel (set slots j (some e)) m idx ≡ done (some x)
    unfolding probe
    probe-set zero idx x run = cc
    probe-set (suc fuel) idx x run = elim (Option-cases (get_or slots idx none)) [
      | inl stop ↦ cc (rw (stop, probe) at run)
      | inr (y, taken) ↦
          let ne : j ≢ idx = λ e. cc in
          let same = get_or-set_ne slots j idx (some e) ne in
          ground (arith, probe-set fuel (next slots idx) x, length-set slots j (some e))
    ]

  -- A probe asks only about the items of the table.
  pub probe_congr :
      (slots : List (Option E)) (m m' : E → Bool)
      → ((i : ℕ) (x : E) → get_or slots i none ≡ some x → m x ≡ m' x)
      → (fuel idx : ℕ) → probe fuel slots m idx ≡ probe fuel slots m' idx
  unfolding probe
  probe_congr slots m m' same zero idx = refl
  probe_congr slots m m' same (suc fuel) idx = elim (Option-cases (get_or slots idx none)) [
    | inl stop ↦ rw (stop, probe)
    | inr (x, taken) ↦
        ground (arith, same idx x taken, probe_congr slots m m' same fuel (next slots idx))
  ]

  -- An item of the table after a write is the one written or stood there before.
  pub set-cases :
      (slots : List (Option E)) (j i : ℕ) (e : E) {x : E}
      → get_or (set slots j (some e)) i none ≡ some x
      → (e ≡ x) ⊎ ((i ≢ j) × (get_or slots i none ≡ some x))
  set-cases [] j i e h = cc
  set-cases (y ∷ slots) zero zero e h = inl (cc)
  set-cases (y ∷ slots) zero (suc i) e h = inr (omega arith, h)
  set-cases (y ∷ slots) (suc j) zero e h = inr (omega arith, h)
  set-cases (y ∷ slots) (suc j) (suc i) e h = elim (set-cases slots j i e h) [
    | inl same ↦ inl same
    | inr (ne, old) ↦ inr (omega arith, old)
  ]

  module _ (slots : List (Option E)) where
    -- The slot that the insertion loop gives is free, and the loop ends where one can be reached.
    pub free_slot-free :
        (fuel idx : ℕ) {j : ℕ}
        → idx < length slots
        → free_slot fuel slots idx ≡ done j
        → (j < length slots) × (get_or slots j none ≡ none)
    unfolding free_slot
    free_slot-free zero idx hi run = cc
    free_slot-free (suc fuel) idx hi run = elim (Option-cases (get_or slots idx none)) [
      | inl stop ↦ let here = rw (stop, free_slot) at run in ground arith
      | inr (y, taken) ↦
          free_slot-free fuel (next slots idx) (next-lt slots idx hi) (rw (taken, free_slot) at run)
    ]

    pub free_slot-ends :
        (fuel idx z : ℕ)
        → z < length slots
        → idx < length slots
        → get_or slots z none ≡ none
        → distance (length slots) z idx < fuel
        → (j : ℕ) × (free_slot fuel slots idx ≡ done j)
    unfolding free_slot
    free_slot-ends zero idx z hz hi free d = absurd (omega arith)
    free_slot-ends (suc fuel) idx z hz hi free d = elim (Option-cases (get_or slots idx none)) [
      | inl stop ↦ (idx, rw (stop, free_slot))
      | inr (x, taken) ↦
          let ne : z ≢ idx = λ e. cc in
          let (j, run) =
            free_slot-ends fuel (next slots idx) z hz (next-lt slots idx hi) free
              (omega (arith, distance-next (length slots) z idx hz hi ne)) in
          (j, rw (taken, free_slot) run)
    ]

    -- An item written to the slot that the insertion loop gives is found from where the loop
    -- began, if no other item matches.
    pub probe-free_slot :
        (m : E → Bool) (e : E) (fuel idx : ℕ) {j : ℕ}
        → m e ≡ true
        → ((i : ℕ) (x : E) → get_or slots i none ≡ some x → m x ≡ false)
        → idx < length slots
        → free_slot fuel slots idx ≡ done j
        → probe fuel (set slots j (some e)) m idx ≡ done (some e)
    unfolding probe free_slot
    probe-free_slot m e zero idx same others hi run = cc
    probe-free_slot m e (suc fuel) idx {j = j} same others hi run =
        elim (Option-cases (get_or slots idx none)) [
          | inl stop ↦
              let here : idx ≡ j = ground arith in
              let at = get_or-set_self slots idx (some e) hi in
              rw (← here) (rw (at, probe) (rw same))
          | inr (x, taken) ↦
              let run' : free_slot fuel slots (next slots idx) ≡ done j =
                rw (taken, free_slot) at run in
              let free = free_slot-free fuel (next slots idx) (next-lt slots idx hi) run' in
              let ne : j ≢ idx = λ e. cc in
              let kept = get_or-set_ne slots j idx (some e) ne in
              let other = others idx x taken in
              let rest =
                probe-free_slot m e fuel (next slots idx) same others (next-lt slots idx hi) run' in
              ground (arith, length-set slots j (some e))
        ]
