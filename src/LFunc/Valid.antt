-- ===== src/LFunc/Valid.antt =====
-- The invariant of a function's constants, and what making and growing the index keeps of it.
use mclua.Prelude.{
  ℕ, zero, suc, ◌+◌, ◌*◌, ◌%◌, ◌^◌, ◌<◌, ◌≤◌, ◌≡◌, refl, sym, ap, ◌∙◌, subst, ◌⊎◌, inl, inr, List,
  [], Option, none, some, Bool, true, arith, length, length-replicate, get_elem?, replicate,
  Bool-cases, Option-cases, leb,
}
use native.Mathlib.Nat.{mod-eq_of_lt}
use mclua.Probing.{done}
use mclua.Probing.Count.{taken, taken-replicate}
use mclua.Heap
use mclua.Heap.{McHeap, ObjectType, set_type, managed_reserve}
use mclua.Heap.Growing.{Grows, Grows-refl, Holds, Holds-grow, Holds-small, NoRoom, reserve_cases}
use mclua.LFunc.{
  Constant, constant_size, ConstIndexEntry, LFunc, FuncState, index_entry_size,
  const_index_init_cap, reinsert, grow_to, const_index_grow, const_index_make, const_index_check,
  const_index_ensure,
}
use mclua.LFunc.Arrays.{HasItems}
use mclua.LFunc.Index.{At, like, Indexes}
use mclua.LFunc.Rehash.{Entries, reinsert-Rehashed}

-- No two constants are alike.
abbrev pub Distinct : (ℕ → ℕ → Bool) → List Constant → Type 0
Distinct float_eq consts =
    (k l : ℕ) (d d' : Constant)
    → get_elem? consts k ≡ some d
    → get_elem? consts l ≡ some d'
    → like float_eq d d' ≡ true
    → k ≡ l

-- Every constant has its entry.
abbrev pub Covers : Entries → List Constant → Type 0
Covers entries consts =
    (k : ℕ) (d : Constant)
    → get_elem? consts k ≡ some d
    → (i : ℕ) × (e : ConstIndexEntry) × At entries i e × (e.idx ≡ k)

-- The index with a number of constants: it has room for them, and is an object of the arena.
pub record IsIndex (float_eq : ℕ → ℕ → Bool) (consts : List Constant) (entries : Entries) (hdr : ℕ)
    (heap : McHeap) : Type 0 where
  pub indexes : Indexes float_eq consts entries
  pub covers : Covers entries consts
  pub count : taken entries ≡ length consts
  pub size : 16 ≤ length entries
  pub held : Holds heap hdr (length entries * index_entry_size)

-- Before the first constant there is no index, and afterwards less than 7 of 10 places are taken.
abbrev pub HasIndex : (ℕ → ℕ → Bool) → LFunc → McHeap → Option ℕ → Type 0
HasIndex float_eq fn heap none = fn.consts ≡ []
HasIndex float_eq fn heap (some hdr) =
    IsIndex float_eq fn.consts fn.entries hdr heap × (length fn.consts * 10 < length fn.entries * 7)

-- The arena has no room for the first index, or no room for twice the index where one more constant
-- takes 7 of 10 places or more.
abbrev pub IndexFull : FuncState → Option ℕ → Type 0
IndexFull s none = NoRoom s.heap (const_index_init_cap * index_entry_size + Heap.header_size)
IndexFull s (some hdr) =
    (length s.fn.entries * 7 ≤ (length s.fn.consts + 1) * 10)
    × NoRoom s.heap (length s.fn.entries * 2 * index_entry_size + Heap.header_size)

pub record IsValid (float_eq : ℕ → ℕ → Bool) (s : FuncState) : Type 0 where
  pub heap : Heap.Valid.IsValid s.heap
  pub small : s.heap.bfrcap < 2 ^ 31
  pub distinct : Distinct float_eq s.fn.consts
  pub index : HasIndex float_eq s.fn s.heap s.fn.const_index
  pub array : HasItems s.heap (length s.fn.consts) constant_size s.fn.constants

module _ (float_eq : ℕ → ℕ → Bool) where
  nothing : (n i : ℕ) (x : ConstIndexEntry) → At (replicate n none) i x → ⊥
  nothing zero i x at = cc
  nothing (suc n) zero x at = cc
  nothing (suc n) (suc i) x at = nothing n i x at

  Indexes-replicate : (consts : List Constant) (n : ℕ) → Indexes float_eq consts (replicate n none)
  Indexes-replicate consts n = record {
    inside = λ i e at. absurd (nothing n i e at);
    home = λ i e d at. absurd (nothing n i e at);
    unique = λ i j e f at. absurd (nothing n i e at);
  }

  -- The state after the index is made or has grown: room for one more constant.
  pub record Ready (s s' : FuncState) : Type 0 where
    pub hdr : ℕ
    pub has_index : s'.fn.const_index ≡ some hdr
    pub heap : Heap.Valid.IsValid s'.heap
    pub grows : Grows s.heap s'.heap
    pub index : IsIndex float_eq s'.fn.consts s'.fn.entries hdr s'.heap
    pub load : (length s'.fn.consts + 1) * 10 < length s'.fn.entries * 7
    pub same_consts : s'.fn.consts ≡ s.fn.consts
    pub same_array : s'.fn.constants ≡ s.fn.constants

  module _ (s : FuncState) (v : IsValid float_eq s) where
    pub const_index_make-Ready :
        s.fn.const_index ≡ none
        → ((const_index_make s ≡ done none) × IndexFull s none)
          ⊎ ((s' : FuncState) × (const_index_make s ≡ done (some s')) × Ready s s')
    unfolding const_index_make
    const_index_make-Ready no_index =
        elim (reserve_cases s.heap v.heap (const_index_init_cap * index_entry_size) ObjectType.usr
          (omega arith)) [
            | inl (refused, full) ↦ inl (rw (refused, const_index_make) refl, full)
            | inr (h', i, reserved, v', g, held) ↦ inr (
              record {
                fn = record s.fn {
                  const_index = some i;
                  entries = replicate const_index_init_cap none;
                };
                heap = set_type h' i ObjectType.usr;
              },
              rw (reserved, const_index_make) refl,
              record {
                hdr = i;
                has_index = refl;
                heap = v';
                grows = g;
                index = record {
                  indexes = Indexes-replicate s.fn.consts const_index_init_cap;
                  covers = λ k d at. cc (rw empty at at);
                  count = rw empty refl;
                  size = omega arith;
                  held = held;
                };
                load = rw empty (omega arith);
                same_consts = refl;
                same_array = refl;
              },
            )
          ]
      where
        empty : s.fn.consts ≡ []
        empty = subst (HasIndex float_eq s.fn s.heap) no_index v.index

    module _ (hdr : ℕ) (has : s.fn.const_index ≡ some hdr) where
      abbrev index : IsIndex float_eq s.fn.consts s.fn.entries hdr s.heap
      index = (subst (HasIndex float_eq s.fn s.heap) has v.index).0

      load-lt : length s.fn.consts * 10 < length s.fn.entries * 7
      load-lt = (subst (HasIndex float_eq s.fn s.heap) has v.index).1

      index-small : length s.fn.entries * index_entry_size < 2 ^ 31
      index-small = omega (
        arith,
        v.small,
        Holds-small s.heap hdr (length s.fn.entries * index_entry_size) v.heap index.held,
      )

      abbrev newcap : ℕ
      newcap = length s.fn.entries * 2

      newcap-mod : length s.fn.entries * 2 % Heap.u32_mod ≡ newcap
      newcap-mod = mod-eq_of_lt (omega (arith, index-small))

      load : (length s.fn.consts + 1) * 10 < newcap * 7
      load = omega (arith, index.size, load-lt)

      reinserted :
          (new : Entries) × (reinsert (replicate newcap none) newcap s.fn.entries ≡ done new)
          × Indexes float_eq s.fn.consts new
          × (length new ≡ newcap)
          × (taken new ≡ length s.fn.consts)
          × Covers new s.fn.consts
      reinserted =
          let empty : Entries = replicate newcap none in
          let len : length empty ≡ newcap = length-replicate newcap none in
          let none_taken : taken empty ≡ 0 = taken-replicate ConstIndexEntry newcap in
          let (new, run, indexes, same, count, kept, all) =
            reinsert-Rehashed float_eq s.fn.consts v.distinct s.fn.entries empty
              (Indexes-replicate s.fn.consts newcap) index.indexes.inside index.indexes.unique
              (λ i j e x at ax. absurd (nothing newcap j x ax))
              (omega (arith, index.count, index.size, load-lt)) in
          (
            new,
            subst (λ n. reinsert empty n s.fn.entries ≡ done new) len run,
            indexes,
            same ∙ len,
            omega (arith, index.count),
            λ k d at.
                let (i, e, stands, is_k) = index.covers k d at in
                let (i', stands') = all i e stands in (i', e, stands', is_k),
          )

      grow_to-Ready :
          ((grow_to s newcap ≡ done none)
            × NoRoom s.heap (newcap * index_entry_size + Heap.header_size))
          ⊎ ((s' : FuncState) × (grow_to s newcap ≡ done (some s')) × Ready s s')
      unfolding grow_to
      grow_to-Ready =
          let bytes : newcap * index_entry_size % Heap.u32_mod ≡ newcap * index_entry_size =
            mod-eq_of_lt (omega (arith, index-small)) in
          elim (reserve_cases s.heap v.heap (newcap * index_entry_size) ObjectType.usr
            (omega (arith, index-small))) [
              | inl (refused, full) ↦ inl (rw (grow_to, bytes, refused) refl, full)
              | inr (h', i, reserved, v', g, held) ↦
                  let (new, run, indexes, len, count, covers) = reinserted in
                  inr (
                    record {
                      fn = record s.fn { const_index = some i; entries = new };
                      heap = set_type h' i ObjectType.usr;
                    },
                    rw (grow_to, bytes, reserved, run) refl,
                    record {
                      hdr = i;
                      has_index = refl;
                      heap = v';
                      grows = g;
                      index = record {
                        indexes = indexes;
                        covers = covers;
                        count = count;
                        size = omega (arith, index.size);
                        held =
                            subst
                              (λ n. Holds (set_type h' i ObjectType.usr) i (n * index_entry_size))
                              (sym len) held;
                      };
                      load = rw len load;
                      same_consts = refl;
                      same_array = refl;
                    },
                  )
            ]

      const_index_grow-Ready :
          ((const_index_grow s ≡ done none)
            × NoRoom s.heap (newcap * index_entry_size + Heap.header_size))
          ⊎ ((s' : FuncState) × (const_index_grow s ≡ done (some s')) × Ready s s')
      unfolding const_index_grow
      const_index_grow-Ready =
          let grown : const_index_grow s ≡ grow_to s newcap = ap (grow_to s) newcap-mod in
          elim grow_to-Ready [
            | inl (refused, full) ↦ inl (grown ∙ refused, full)
            | inr (s', run, r) ↦ inr (s', grown ∙ run, r)
          ]

      const_index_check-Ready :
          ((const_index_check s ≡ done none) × IndexFull s (some hdr))
          ⊎ ((s' : FuncState) × (const_index_check s ≡ done (some s')) × Ready s s')
      unfolding const_index_check
      const_index_check-Ready =
          let size : length s.fn.entries * 7 % Heap.u32_mod ≡ length s.fn.entries * 7 =
            mod-eq_of_lt (omega (arith, index-small)) in
          let wanted : (length s.fn.consts + 1) * 10 % Heap.u32_mod
              ≡ (length s.fn.consts + 1) * 10 =
            mod-eq_of_lt (omega (arith, index-small, load-lt)) in
          elim (Bool-cases (
            leb (length s.fn.entries * 7 % Heap.u32_mod)
              ((length s.fn.consts + 1) * 10 % Heap.u32_mod))) [
                | inl full ↦
                    rw (full, const_index_check)
                      (elim const_index_grow-Ready [
                        | inl (refused, no_room) ↦
                            inl (refused, (ground (arith, full, size, wanted), no_room))
                        | inr grown ↦ inr grown
                      ])
                | inr room ↦ inr (
                  s,
                  rw (room, const_index_check) refl,
                  record {
                    hdr = hdr;
                    has_index = has;
                    heap = v.heap;
                    grows = Grows-refl s.heap;
                    index = index;
                    load = ground (arith, size, wanted);
                    same_consts = refl;
                    same_array = refl;
                  },
                )
              ]

    pub const_index_ensure-Ready :
        ((const_index_ensure s ≡ done none) × IndexFull s s.fn.const_index)
        ⊎ ((s' : FuncState) × (const_index_ensure s ≡ done (some s')) × Ready s s')
    unfolding const_index_ensure
    const_index_ensure-Ready = elim (Option-cases s.fn.const_index) [
      | inl no_index ↦ elim (const_index_make-Ready no_index) [
        | inl (refused, full) ↦ inl (rw (no_index, const_index_ensure) refused, rw no_index full)
        | inr (s', run, r) ↦ inr (s', rw (no_index, const_index_ensure) run, r)
      ]
      | inr (hdr, has) ↦ elim (const_index_check-Ready hdr has) [
        | inl (refused, full) ↦ inl (rw (has, const_index_ensure) refused, rw has full)
        | inr (s', run, r) ↦ inr (s', rw (has, const_index_ensure) run, r)
      ]
    ]

  pub Ready-IsValid : (s s' : FuncState) → IsValid float_eq s → Ready s s' → IsValid float_eq s'
  Ready-IsValid s s' v r = record {
    heap = r.heap;
    small = rw r.grows.same_cap v.small;
    distinct = rw r.same_consts v.distinct;
    index = rw r.has_index (r.index, omega (arith, r.load));
    array = rw (r.same_consts, r.same_array) (HasItems-grow s.fn.constants v.array);
  }
    where
      HasItems-grow :
          (array : Option ℕ)
          → HasItems s.heap (length s.fn.consts) constant_size array
          → HasItems s'.heap (length s.fn.consts) constant_size array
      HasItems-grow none empty = empty
      HasItems-grow (some hdr) has =
          Holds-grow s.heap s'.heap hdr (length s.fn.consts * constant_size) r.grows has
