-- ===== src/LFunc/Arrays.antt =====
-- The arrays of a function (`array_ensure`, `mclfunc_append_instr` of src/lib/mclfunc.c): the object of an array has room
-- for its items.
use mclua.Prelude.{
  ℕ, ◌+◌, ◌*◌, ◌%◌, ◌^◌, ◌<◌, ◌≤◌, max, ◌≡◌, refl, ◌⊎◌, inl, inr, [], ◌∷◌, ◌++◌, length,
  length-append, Option, none, some, arith, ltb, Bool-cases,
}
use native.Mathlib.Nat.{mod-eq_of_lt, mod-lt}
use mclua.Heap
use mclua.Heap.{McHeap, HeapHeader, ObjectType, set_type, managed_reserve, managed_resize}
use mclua.Heap.Valid.{IsValid}
use mclua.Heap.Growing.{Grows, Grows-refl, Holds, NoRoom, reserve_cases, resize_cases}
use mclua.LStr.{objcap}
use mclua.LStr.Room.{objcap_lem}
use mclua.LFunc.{LFunc, FuncState, mclfunc_size, array_cap, array_ensure, mclfunc_append_instr}

-- The array has room for its items. Before the first item there is no object.
abbrev pub HasItems : McHeap → ℕ → ℕ → Option ℕ → Type 0
HasItems heap count elemsize none = count ≡ 0
HasItems heap count elemsize (some hdr) = Holds heap hdr (count * elemsize)

array_cap-lt : (cap reqsize : ℕ) → reqsize < 2 ^ 32 → array_cap cap reqsize < 2 ^ 32
unfolding array_cap
array_cap-lt cap reqsize small =
    let wrapped : cap * 2 % Heap.u32_mod < Heap.u32_mod = mod-lt (cap * 2) (omega arith) in
    ground arith

array_cap_le : (cap reqsize : ℕ) → array_cap cap reqsize ≤ max (cap * 2) reqsize
unfolding array_cap
array_cap_le cap reqsize =
    let wrapped : cap * 2 % Heap.u32_mod ≤ cap * 2 = omega arith in ground arith

le-array_cap : (cap reqsize : ℕ) → reqsize ≤ array_cap cap reqsize
unfolding array_cap
le-array_cap cap reqsize = ground arith

-- Neither the array's object, if there is one, nor the rest of the arena has room for one more item:
-- the arena is asked for the first block, or for twice the object or what one more item takes,
-- whichever is more.
abbrev pub ArrayFull : McHeap → ℕ → ℕ → ℕ → Option ℕ → Type 0
ArrayFull heap count elemsize initcap none = NoRoom heap (initcap * elemsize + Heap.header_size)
ArrayFull heap count elemsize initcap (some hdr) =
    (objcap heap hdr < (count + 1) * elemsize)
    × NoRoom heap (max (objcap heap hdr * 2) ((count + 1) * elemsize))

module _ (heap : McHeap) (v : IsValid heap) (count elemsize initcap : ℕ) where
  -- No room in the arena, or an object with room for one more item.
  abbrev pub Ensured : Option ℕ → Type 0
  Ensured array =
      ((array_ensure array count elemsize initcap heap ≡ none)
        × ArrayFull heap count elemsize initcap array)
      ⊎ ((hdr : ℕ) × (heap' : McHeap) × (array_ensure array count elemsize initcap heap
            ≡ some (hdr, heap'))
          × IsValid heap'
          × Grows heap heap'
          × Holds heap' hdr ((count + 1) * elemsize))

  module _ (small : (count + 1) * elemsize < 2 ^ 32) where
    -- In a valid arena, where an array has room for its items and one more takes less than 2 ^ 32
    -- bytes, as does the first block, an array gets an object with room for one more item than it
    -- has, and every object is at least as large as before; or nothing, where the arena has no room for
    -- the first block, or the object has no room for one more item and the arena none for twice the
    -- object or for what one more item takes, whichever is more.
    pub array_ensure-Ensured :
        (array : Option ℕ)
        → initcap * elemsize < 2 ^ 32
        → elemsize ≤ initcap * elemsize
        → HasItems heap count elemsize array
        → Ensured array
    unfolding array_ensure
    array_ensure-Ensured none init one has =
        let bytes : initcap * elemsize % Heap.u32_mod ≡ initcap * elemsize = mod-eq_of_lt init in
        elim (reserve_cases heap v (initcap * elemsize) ObjectType.usr init) [
          | inl (refused, full) ↦ inl (rw (array_ensure, bytes, refused) refl, full)
          | inr (h', i, reserved, v', g, (b, at, le)) ↦
              let room : (count + 1) * elemsize ≤ b.objcap = rw has (omega arith) in
              inr (
                i,
                set_type h' i ObjectType.usr,
                rw (array_ensure, bytes, reserved) refl,
                v',
                g,
                (b, at, room),
              )
        ]
    array_ensure-Ensured (some hdr) init one (b, at, le) =
        let reqsize = (count + 1) * elemsize in
        let bytes : reqsize % Heap.u32_mod ≡ reqsize = mod-eq_of_lt small in
        let cap = objcap_lem heap hdr b at in
        elim (Bool-cases (ltb b.objcap reqsize)) [
          | inr fits ↦ inr (
            hdr,
            heap,
            rw (array_ensure, bytes, cap, fits) refl,
            v,
            Grows-refl heap,
            (b, at, ground arith),
          )
          | inl full ↦
              let newcap = array_cap b.objcap reqsize in
              elim (resize_cases heap v hdr newcap at (array_cap-lt b.objcap reqsize small)) [
                | inl (refused, larger, no_room) ↦ inl (
                  rw (array_ensure, bytes, cap, full, refused) refl,
                  (
                    rw cap (ground (arith, full)),
                    rw cap (omega (arith, no_room, array_cap_le b.objcap reqsize)),
                  ),
                )
                | inr (h', resized, v', g, (b', at', le')) ↦ inr (
                  hdr,
                  h',
                  rw (array_ensure, bytes, cap, full, resized) refl,
                  v',
                  g,
                  (b', at', omega (arith, le-array_cap b.objcap reqsize)),
                )
              ]
        ]

-- The function's own object has room for its code.
abbrev pub HasCode : FuncState → Type 0
HasCode s = Holds s.heap s.fn.hdr (mclfunc_size + length s.fn.code * 4)

-- Neither the function's object nor the rest of the arena has room for one more instruction.
abbrev pub CodeFull : FuncState → Type 0
CodeFull s =
    (objcap s.heap s.fn.hdr < mclfunc_size + (length s.fn.code + 1) * 4)
    × NoRoom s.heap (mclfunc_size + (length s.fn.code + 1) * 4)

-- An instruction that is appended to a function whose object has room for its code, in a valid arena
-- and with less than 2 ^ 32 bytes after it, is refused, where neither the function's object nor
-- the rest of the arena has room for what it takes with its code, or it stands behind the code, the function's object has room for all of it, and every object is at least as
-- large as before.
pub mclfunc_append_instr-HasCode :
    (s : FuncState) (instr : ℕ)
    → IsValid s.heap
    → HasCode s
    → mclfunc_size + (length s.fn.code + 1) * 4 < 2 ^ 32
    → ((mclfunc_append_instr s instr ≡ none) × CodeFull s)
      ⊎ ((s' : FuncState) × (mclfunc_append_instr s instr ≡ some s')
          × (s'.fn ≡ record s.fn { code = s.fn.code ++ instr ∷ [] })
          × IsValid s'.heap
          × HasCode s'
          × Grows s.heap s'.heap)
unfolding mclfunc_append_instr
mclfunc_append_instr-HasCode s instr v (b, at, le) small =
    let reqsize = mclfunc_size + (length s.fn.code + 1) * 4 in
    let bytes : reqsize % Heap.u32_mod ≡ reqsize = mod-eq_of_lt small in
    let cap = objcap_lem s.heap s.fn.hdr b at in
    let len : length (s.fn.code ++ instr ∷ []) ≡ length s.fn.code + 1 =
      length-append s.fn.code (instr ∷ []) in
    let fn' : LFunc = record s.fn { code = s.fn.code ++ instr ∷ [] } in
    elim (Bool-cases (ltb b.objcap reqsize)) [
      | inr fits ↦ inr (
        record { fn = fn'; heap = s.heap },
        rw (mclfunc_append_instr, bytes, cap, fits) refl,
        refl,
        v,
        (b, at, ground (arith, len)),
        Grows-refl s.heap,
      )
      | inl full ↦ elim (resize_cases s.heap v s.fn.hdr reqsize at small) [
        | inl (refused, larger, no_room) ↦
            inl
              (rw (mclfunc_append_instr, bytes, cap, full, refused) refl, (rw cap larger, no_room))
        | inr (h', resized, v', g, (b', at', le')) ↦ inr (
          record { fn = fn'; heap = h' },
          rw (mclfunc_append_instr, bytes, cap, full, resized) refl,
          refl,
          v',
          (b', at', omega (arith, len)),
          g,
        )
      ]
    ]
