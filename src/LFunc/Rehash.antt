-- ===== src/LFunc/Rehash.antt =====
-- Insertion into the index of the constants, and the loop that puts the entries into a larger one.
use mclua.Prelude.{
  ℕ, zero, suc, ◌+◌, ◌%◌, ◌<◌, ◌≡◌, ◌≢◌, refl, sym, ap, ◌∙◌, subst, inl, inr, List, [], ◌∷◌, Option,
  none, some, Bool, true, false, arith, length, length-set, get_or, get_elem?, set, Bool-cases,
}
use mclua.Probing.{done}
use mclua.Probing.Count.{taken, taken-set, free_of_taken-lt}
use mclua.Probing.Laws.{free_slot-ends, free_slot-free, distance-lt, get_or-set_ne, get_or-set_self}
use native.Mathlib.Nat.{mod-lt}
use mclua.LFunc.{Constant, ConstIndexEntry, const_hash, const_index_insert_raw, reinsert}
use mclua.LFunc.Index.{At, set-cases, like, Indexes, Indexes-insert}

abbrev pub Entries : Type 0
Entries = List (Option ConstIndexEntry)

abbrev pub Others : (ℕ → ℕ → Bool) → List Constant → Entries → ℕ → Constant → Type 0
Others float_eq consts entries k d =
    (i : ℕ) (x : ConstIndexEntry) (d' : Constant)
    → At entries i x
    → get_elem? consts x.idx ≡ some d'
    → (x.idx ≢ k) × (like float_eq d d' ≡ false)

-- What an insertion gives: the table with the entry in a slot that was free.
abbrev pub Inserted : (ℕ → ℕ → Bool) → List Constant → Entries → ℕ → ℕ → Type 0
Inserted float_eq consts entries hash k =
    (j : ℕ) × (const_index_insert_raw entries (length entries) hash k
      ≡ done (set entries j (some (record { hash = hash; idx = k }))))
    × Indexes float_eq consts (set entries j (some (record { hash = hash; idx = k })))
    × (j < length entries)
    × (get_or entries j none ≡ none)

module _ (float_eq : ℕ → ℕ → Bool) (consts : List Constant) where
  pub const_index_insert_raw-Inserted :
      (entries : Entries) (hash k : ℕ) (d : Constant)
      → Indexes float_eq consts entries
      → hash ≡ const_hash d
      → get_elem? consts k ≡ some d
      → Others float_eq consts entries k d
      → taken entries < length entries
      → Inserted float_eq consts entries hash k
  unfolding const_index_insert_raw
  const_index_insert_raw-Inserted entries hash k d v e has others room =
      let home : const_hash d % length entries < length entries = mod-lt _ (omega arith) in
      let (z, lt, at) = free_of_taken-lt entries room in
      let (j, slot) =
        free_slot-ends entries (length entries) (const_hash d % length entries) z lt home at
          (distance-lt (length entries) z _ lt home) in
      subst (λ h. Inserted float_eq consts entries h k) (sym e)
        (
          j,
          rw slot,
          Indexes-insert float_eq consts entries v k j d has (omega arith) others slot,
          (free_slot-free entries (length entries) _ home slot).0,
          (free_slot-free entries (length entries) _ home slot).1,
        )

  -- What the loop gives: a table of the same size that indexes what it indexed, and the old entries.
  abbrev pub Rehashed : Entries → Entries → Type 0
  Rehashed new old =
      (new' : Entries) × (reinsert new (length new) old ≡ done new')
      × Indexes float_eq consts new'
      × (length new' ≡ length new)
      × (taken new' ≡ taken new + taken old)
      × ((i : ℕ) (x : ConstIndexEntry) → At new i x → (i' : ℕ) × At new' i' x)
      × ((i : ℕ) (x : ConstIndexEntry) → At old i x → (i' : ℕ) × At new' i' x)

  module _
      (distinct : (k l : ℕ) (d d' : Constant)
        → get_elem? consts k ≡ some d
        → get_elem? consts l ≡ some d'
        → like float_eq d d' ≡ true
        → k ≡ l) where
    pub reinsert-Rehashed :
        (old new : Entries)
        → Indexes float_eq consts new
        → ((i : ℕ) (e : ConstIndexEntry)
            → At old i e
            → (d : Constant) × (get_elem? consts e.idx ≡ some d) × (e.hash ≡ const_hash d))
        → ((i j : ℕ) (e f : ConstIndexEntry) → At old i e → At old j f → e.idx ≡ f.idx → i ≡ j)
        → ((i j : ℕ) (e x : ConstIndexEntry) → At old i e → At new j x → x.idx ≢ e.idx)
        → taken new + taken old < length new
        → Rehashed new old
    unfolding reinsert
    reinsert-Rehashed [] new v inside unique fresh room =
        (new, refl, v, refl, omega arith, λ i x at. (i, at), λ i x at. cc)
    reinsert-Rehashed (none ∷ old) new v inside unique fresh room =
        let (new', run, v', len, cnt, kept, all) =
          reinsert-Rehashed old new v (λ i e at. inside (suc i) e at)
            (λ i j e f at af same. omega (arith, unique (suc i) (suc j) e f at af same))
            (λ i j e x at ax. fresh (suc i) j e x at ax) (omega arith) in
        (new', run, v', len, omega arith, kept, λ i x at. tail new' all i x at)
      where
        tail :
            (new' : Entries)
            → ((i : ℕ) (x : ConstIndexEntry) → At old i x → (i' : ℕ) × At new' i' x)
            → (i : ℕ) (x : ConstIndexEntry) → At (none ∷ old) i x
            → (i' : ℕ) × At new' i' x
        tail new' all zero x at = cc
        tail new' all (suc i) x at = all i x at
    reinsert-Rehashed (some e ∷ old) new v inside unique fresh room =
        let (d, has, h) = inside 0 e refl in
        let (j, put, v₁, lt, free) =
          const_index_insert_raw-Inserted new e.hash e.idx d v h has
            (λ i x d' at has'.
              (fresh 0 i e x refl at, not_like d x d' has has' (fresh 0 i e x refl at)))
            (omega arith) in
        let added : ConstIndexEntry = record { hash = e.hash; idx = e.idx } in
        let new₁ : Entries = set new j (some added) in
        let same_length : length new₁ ≡ length new = length-set new j (some added) in
        let (new', run, v', len, cnt, kept, all) =
          reinsert-Rehashed old new₁ v₁ (λ i f at. inside (suc i) f at)
            (λ i l f g at ag same. omega (arith, unique (suc i) (suc l) f g at ag same))
            (λ i l f x at ax. fresh_in j i l f x at ax)
            (omega (arith, taken-set new j added lt free)) in
        let run' : reinsert new₁ (length new) old ≡ done new' =
          subst (λ n. reinsert new₁ n old ≡ done new') same_length run in
        (
          new',
          rw put run',
          v',
          omega arith,
          omega (arith, taken-set new j added lt free),
          λ i x at. kept i x (get_or-set_ne new j i (some added) (λ same. cc) ∙ at),
          λ i x at. all_of new' j lt kept all i x at,
        )
      where
        fresh_in :
            (j i l : ℕ) (f x : ConstIndexEntry)
            → At old i f
            → At (set new j (some (record { hash = e.hash; idx = e.idx }))) l x
            → x.idx ≢ f.idx
        fresh_in j i l f x at ax =
            elim (set-cases new j l (record { hash = e.hash; idx = e.idx }) ax) [
              | inl (here, is_e) ↦ λ same.
                  zero-suc i
                    (unique 0 (suc i) e f refl at (ap (λ (y : ConstIndexEntry). y.idx) is_e ∙ same))
              | inr (ne, old_one) ↦ fresh (suc i) l f x at old_one
            ]
          where
            zero-suc : (i : ℕ) → 0 ≡ suc i → ⊥
            zero-suc i same = omega arith

        all_of :
            (new' : Entries) (j : ℕ)
            → j < length new
            → ((i : ℕ) (x : ConstIndexEntry)
                → At (set new j (some (record { hash = e.hash; idx = e.idx }))) i x
                → (i' : ℕ) × At new' i' x)
            → ((i : ℕ) (x : ConstIndexEntry) → At old i x → (i' : ℕ) × At new' i' x)
            → (i : ℕ) (x : ConstIndexEntry) → At (some e ∷ old) i x
            → (i' : ℕ) × At new' i' x
        all_of new' j lt kept all zero x at =
            kept j x (get_or-set_self new j (some (record { hash = e.hash; idx = e.idx })) lt ∙ at)
        all_of new' j lt kept all (suc i) x at = all i x at

        not_like :
            (d : Constant) (x : ConstIndexEntry) (d' : Constant)
            → get_elem? consts e.idx ≡ some d
            → get_elem? consts x.idx ≡ some d'
            → x.idx ≢ e.idx
            → like float_eq d d' ≡ false
        not_like d x d' has has' ne = elim (Bool-cases (like float_eq d d')) [
          | inl same ↦ absurd (ne (sym (distinct e.idx x.idx d d' has has' same)))
          | inr other ↦ other
        ]
