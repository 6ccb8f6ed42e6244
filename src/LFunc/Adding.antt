-- ===== src/LFunc/Adding.antt =====
-- A constant that is added (`mclfunc_push_const`, `const_index_insert_raw`) keeps the invariant.
use mclua.Prelude.{
  ℕ, zero, suc, ◌+◌, ◌*◌, ◌^◌, ◌<◌, ◌≡◌, ◌≢◌, refl, sym, ap, ◌∙◌, subst, ◌⊎◌, inl, inr, List, [],
  ◌∷◌, ◌++◌, none, some, Bool, true, false, arith, length, length-append, length-set, get_or,
  get_elem?, get_elem?-append_left, get_elem?-append_last, get_elem?-lt, set,
}
use mclua.Probing.{done}
use mclua.Probing.Count.{taken-set}
use mclua.Probing.Laws.{get_or-set_ne, get_or-set_self}
use mclua.Heap.{McHeap}
use mclua.Heap.Growing.{Holds, Holds-grow, Holds-small}
use mclua.LFunc.{
  Constant, ConstIndexEntry, FuncState, constant_size, index_entry_size, const_hash,
  mclfunc_push_const, add_const,
}
use mclua.LFunc.Arrays.{ArrayFull, array_ensure-Ensured}
use mclua.LFunc.Index.{At, like, like_symm, IsFloatEq, Indexes-append}
use mclua.LFunc.Rehash.{Entries, const_index_insert_raw-Inserted}
use mclua.LFunc.Valid.{Distinct, Covers, IsIndex, IsValid}

module _ (consts : List Constant) (c : Constant) where
  append-cases :
      (k : ℕ) {d : Constant}
      → get_elem? (consts ++ c ∷ []) k ≡ some d
      → (get_elem? consts k ≡ some d) ⊎ ((k ≡ length consts) × (c ≡ d))
  append-cases k {d = d} at = go consts k at
    where
      go :
          (cs : List Constant) (k : ℕ) {d : Constant}
          → get_elem? (cs ++ c ∷ []) k ≡ some d
          → (get_elem? cs k ≡ some d) ⊎ ((k ≡ length cs) × (c ≡ d))
      go [] zero at = inr (refl, cc)
      go [] (suc k) at = cc
      go (x ∷ cs) zero at = inl at
      go (x ∷ cs) (suc k) at = elim (go cs k at) [
        | inl front ↦ inl front
        | inr (e, same) ↦ inr (ap suc e, same)
      ]

  Covers-append :
      (entries : Entries) (j : ℕ) (e : ConstIndexEntry)
      → Covers entries consts
      → j < length entries
      → get_or entries j none ≡ none
      → e.idx ≡ length consts
      → Covers (set entries j (some e)) (consts ++ c ∷ [])
  Covers-append entries j e covers lt free is_new k d at = elim (append-cases k at) [
    | inl front ↦
        let (i, x, stands, is_k) = covers k d front in
        (i, x, get_or-set_ne entries j i (some e) (λ same. cc) ∙ stands, is_k)
    | inr (last, same) ↦ (j, e, get_or-set_self entries j (some e) lt, is_new ∙ sym last)
  ]

  module _ (float_eq : ℕ → ℕ → Bool) (law : IsFloatEq float_eq)
      (fresh : (k : ℕ) (d : Constant)
        → get_elem? consts k ≡ some d
        → like float_eq c d ≡ false) where
    Distinct-append : Distinct float_eq consts → Distinct float_eq (consts ++ c ∷ [])
    Distinct-append distinct k l d d' at at' alike = elim (append-cases k at) [
      | inl front ↦ elim (append-cases l at') [
        | inl front' ↦ distinct k l d d' front front' alike
        | inr (last, same) ↦
            let back : like float_eq c d ≡ true = rw same (like_symm float_eq law d d' alike) in
            cc (fresh k d front)
      ]
      | inr (last, same) ↦ elim (append-cases l at') [
        | inl front' ↦
            let forth : like float_eq c d' ≡ true = rw same alike in cc (fresh l d' front')
        | inr (last', same') ↦ last ∙ sym last'
      ]
    ]

module _ (float_eq : ℕ → ℕ → Bool) (law : IsFloatEq float_eq) (t : FuncState)
    (v : IsValid float_eq t) (hdr : ℕ) (has_index : t.fn.const_index ≡ some hdr)
    (index : IsIndex float_eq t.fn.consts t.fn.entries hdr t.heap)
    (load : (length t.fn.consts + 1) * 10 < length t.fn.entries * 7) (c : Constant) where
  array_small : (length t.fn.consts + 1) * constant_size < 2 ^ 32
  array_small = omega (
    arith,
    load,
    v.small,
    Holds-small t.heap hdr (length t.fn.entries * index_entry_size) v.heap index.held,
  )

  -- The state after the constant is added, with the headers of the array and the arena after it.
  abbrev pub with_const : ℕ → McHeap → Entries → FuncState
  with_const array heap' entries' = record {
    fn = record t.fn { constants = some array; consts = t.fn.consts ++ c ∷ []; entries = entries' };
    heap = heap';
  }

  -- What an addition gives: no room, and nothing changed, or the constant behind the others.
  abbrev pub Added : Type 0
  Added =
      ((add_const float_eq t c ≡ done (none, t))
        × ArrayFull t.heap (length t.fn.consts) constant_size 4 t.fn.constants)
      ⊎ ((t' : FuncState) × (add_const float_eq t c ≡ done (some (length t.fn.consts), t'))
          × IsValid float_eq t'
          × (t'.fn.consts ≡ t.fn.consts ++ c ∷ []))

  module _
      (fresh : (k : ℕ) (d : Constant)
        → get_elem? t.fn.consts k ≡ some d
        → like float_eq c d ≡ false) where
    pub add_const-Added : Added
    unfolding add_const mclfunc_push_const
    add_const-Added =
        let consts' = t.fn.consts ++ c ∷ [] in
        let len : length consts' ≡ length t.fn.consts + 1 = length-append t.fn.consts (c ∷ []) in
        let (j, put, indexes, lt, free) =
          const_index_insert_raw-Inserted float_eq consts' t.fn.entries (const_hash c)
            (length t.fn.consts) c
            (Indexes-append float_eq t.fn.consts t.fn.entries index.indexes c) refl
            (get_elem?-append_last t.fn.consts c) others_of (omega (arith, index.count, load)) in
        let new : ConstIndexEntry = record { hash = const_hash c; idx = length t.fn.consts } in
        elim (array_ensure-Ensured t.heap v.heap (length t.fn.consts) constant_size 4 array_small
          t.fn.constants (omega arith) (omega arith) v.array) [
            | inl (refused, full) ↦ inl (rw (add_const, mclfunc_push_const, refused) refl, full)
            | inr (array, heap', ensured, v', g, held) ↦ inr (
              with_const array heap' (set t.fn.entries j (some new)),
              rw (add_const, mclfunc_push_const, ensured, put) refl,
              record {
                heap = v';
                small = rw g.same_cap v.small;
                distinct = Distinct-append t.fn.consts c float_eq law fresh v.distinct;
                index = rw has_index (
                  record {
                    indexes = indexes;
                    covers =
                        Covers-append t.fn.consts c t.fn.entries j new index.covers lt free refl;
                    count = omega (arith, len, taken-set t.fn.entries j new lt free, index.count);
                    size = omega (arith, index.size, length-set t.fn.entries j (some new));
                    held =
                        subst (λ n. Holds heap' hdr (n * index_entry_size))
                          (sym (length-set t.fn.entries j (some new)))
                          (Holds-grow t.heap heap' hdr (length t.fn.entries * index_entry_size) g
                            index.held);
                  },
                  omega (arith, len, load, length-set t.fn.entries j (some new)),
                );
                array = rw len held;
              },
              refl,
            )
          ]
      where
        others_of :
            (i : ℕ) (x : ConstIndexEntry) (d : Constant)
            → At t.fn.entries i x
            → get_elem? (t.fn.consts ++ c ∷ []) x.idx ≡ some d
            → (x.idx ≢ length t.fn.consts) × (like float_eq c d ≡ false)
        others_of i x d at has =
            let (d', has', h) = index.indexes.inside i x at in
            let lt = get_elem?-lt t.fn.consts x.idx has' in
            let front = get_elem?-append_left t.fn.consts (c ∷ []) x.idx lt in
            (omega (arith, lt), fresh x.idx d (sym front ∙ has))
