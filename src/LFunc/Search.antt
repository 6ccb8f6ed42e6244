-- ===== src/LFunc/Search.antt =====
-- The search for a constant (the loop of `mclfunc_const_int` and its like): it gives the place of
-- the constant in the list, as a search from the front does.
use mclua.Prelude.{
  ℕ, zero, suc, ◌%◌, ◌<◌, ◌≡◌, refl, sym, ap, ◌∙◌, subst, ◌⊎◌, inl, inr, List, [], ◌∷◌, Option,
  none, some, Bool, true, false, arith, length, get_elem?, Bool-cases, if◌then◌else◌,
}
use native.Mathlib.Nat.{mod-lt}
use mclua.Probing.{done, probe}
use mclua.Probing.Count.{taken, free_of_taken-lt}
use mclua.Probing.Laws.{probe-found, probe-ends, probe_congr, distance-lt}
use mclua.Heap.{McHeap}
use mclua.LFunc.{Constant, ConstIndexEntry, const_hash, is_entry_of}
use mclua.LFunc.Index.{
  At, like, like_symm, like_trans, like_self, like_congr, IsFloatEq, is_entry_of_lem,
}
use mclua.LFunc.Rehash.{Entries}
use mclua.LFunc.Valid.{Distinct, IsIndex}

-- The place of the first item with a property.
unfoldable pub find_index {ℓ} : {A : Type ℓ} → (A → Bool) → List A → Option ℕ
find_index p [] = none
find_index p (x ∷ xs) =
    if p x then some 0 else (elim (find_index p xs) [ none ↦ none | some k ↦ some (suc k) ])

module _ {ℓ} {A : Type ℓ} (p : A → Bool) where
  pub find_index-some :
      (xs : List A) (k : ℕ) {x : A}
      → get_elem? xs k ≡ some x
      → p x ≡ true
      → ((l : ℕ) (y : A) → get_elem? xs l ≡ some y → p y ≡ true → l ≡ k)
      → find_index p xs ≡ some k
  unfolding find_index
  find_index-some [] k at holds only = cc
  find_index-some (x ∷ xs) zero {x = y} at holds only =
      let same : x ≡ y = cc in let holds' : p x ≡ true = rw same holds in rw holds' refl
  find_index-some (x ∷ xs) (suc k) at holds only = elim (Bool-cases (p x)) [
    | inl first ↦ absurd (zero_suc (only 0 x refl first))
    | inr later ↦
        let rest =
          find_index-some xs k at holds
            (λ l y at' holds'. omega (arith, only (suc l) y at' holds')) in
        rw (later, rest) refl
  ]
    where
      zero_suc : 0 ≡ suc k → ⊥
      zero_suc same = omega arith

  pub find_index-none :
      (xs : List A)
      → ((l : ℕ) (y : A) → get_elem? xs l ≡ some y → p y ≡ false)
      → find_index p xs ≡ none
  unfolding find_index
  find_index-none [] other = refl
  find_index-none (x ∷ xs) other =
      rw (other 0 x refl, find_index-none xs (λ l y at. other (suc l) y at)) refl

module _ (float_eq : ℕ → ℕ → Bool) (law : IsFloatEq float_eq) (consts : List Constant)
    (entries : Entries) (hdr : ℕ) (heap : McHeap) (distinct : Distinct float_eq consts)
    (index : IsIndex float_eq consts entries hdr heap) (room : taken entries < length entries)
    (c : Constant) where
  -- What the loop gives: an entry whose number is the place of the constant, or nothing where no
  -- constant is alike.
  abbrev pub Searched : Type 0
  Searched =
      ((e : ConstIndexEntry) × (probe (length entries) entries (is_entry_of float_eq consts c)
            (const_hash c % length entries)
          ≡ done (some e))
        × (find_index (like float_eq c) consts ≡ some e.idx))
      ⊎ ((probe (length entries) entries (is_entry_of float_eq consts c)
              (const_hash c % length entries)
            ≡ done none)
          × (find_index (like float_eq c) consts ≡ none)
          × ((k : ℕ) (d : Constant) → get_elem? consts k ≡ some d → like float_eq c d ≡ false))

  found :
      (e : ConstIndexEntry)
      → probe
          (length entries)
          entries
          (is_entry_of float_eq consts c)
          (const_hash c % length entries)
        ≡ done (some e)
      → find_index (like float_eq c) consts ≡ some e.idx
  found e run =
      let (j, at, same) =
        probe-found entries (is_entry_of float_eq consts c) (length entries) _ run in
      let (d, has, h) = index.indexes.inside j e at in
      let alike : like float_eq c d ≡ true =
        sym (is_entry_of_lem float_eq consts c d e has h) ∙ same in
      find_index-some (like float_eq c) consts e.idx has alike (λ l d' at' alike'.
        distinct l e.idx d' d at' has
          (like_trans float_eq law d' c d (like_symm float_eq law c d' alike') alike))

  not_alike :
      probe (length entries) entries (is_entry_of float_eq consts c) (const_hash c % length entries)
        ≡ done none
      → (k : ℕ) (d : Constant) → get_elem? consts k ≡ some d
      → like float_eq c d ≡ false
  not_alike run k d has = elim (Bool-cases (like float_eq c d)) [
    | inr other ↦ other
    | inl alike ↦
        let (i, e, at, is_k) = index.covers k d has in
        let home =
          index.indexes.home i e d at (ap (get_elem? consts) is_k ∙ has)
            (like_self float_eq law c d alike) in
        let hashes : const_hash d ≡ const_hash c = ground arith in
        let same_run =
          probe_congr entries (is_entry_of float_eq consts c) (is_entry_of float_eq consts d)
            (same_test d alike) (length entries) (const_hash c % length entries) in
        let run' : probe (length entries) entries (is_entry_of float_eq consts c)
              (const_hash c % length entries)
            ≡ done (some e) =
          same_run
          ∙ subst
              (λ h.
                probe (length entries) entries (is_entry_of float_eq consts d) (h % length entries)
                ≡ done (some e))
              hashes home in
        cc
  ]
    where
      same_test :
          (d : Constant)
          → like float_eq c d ≡ true
          → (i : ℕ) (x : ConstIndexEntry) → At entries i x
          → is_entry_of float_eq consts c x ≡ is_entry_of float_eq consts d x
      same_test d alike i x at =
          let (d', has, h) = index.indexes.inside i x at in
          is_entry_of_lem float_eq consts c d' x has h
          ∙ like_congr float_eq law c d d' alike
          ∙ sym (is_entry_of_lem float_eq consts d d' x has h)

  pub probe-Searched : Searched
  probe-Searched =
      let home : const_hash c % length entries < length entries = mod-lt _ (omega (arith, room)) in
      let (z, lt, free) = free_of_taken-lt entries room in
      let (r, run) =
        probe-ends entries (is_entry_of float_eq consts c) (length entries) _ z lt home free
          (distance-lt (length entries) z _ lt home) in
      by_result r run
    where
      by_result :
          (r : Option ConstIndexEntry)
          → probe
              (length entries)
              entries
              (is_entry_of float_eq consts c)
              (const_hash c % length entries)
            ≡ done r
          → Searched
      by_result none run =
          inr (run, find_index-none (like float_eq c) consts (not_alike run), not_alike run)
      by_result (some e) run = inl (e, run, found e run)
