-- ===== src/LStr/Room.antt =====
-- The objects of strings have room for their characters (`mclstr_append_str0` and
-- `mclstr_append_lstr` of src/lib/mclstr.c).
use mclua.Prelude.{
  ℕ, ◌+◌, ◌%◌, ◌^◌, ◌<◌, ◌≡◌, ◌≢◌, [], ◌∷◌, false, ◌==◌, ◌&&◌, refl, ◌⊎◌, inl, inr, List, ◌++◌,
  Option, none, some, arith, ltb, get_elem?, length, length-append, Bool-cases,
}
use native.Mathlib.Nat.{mod-eq_of_lt}
use mclua.Heap
use mclua.Heap.{McHeap, HeapHeader}
use mclua.Heap.Valid.{IsValid}
use mclua.Heap.Growing.{Grows, Grows-refl, Holds, NoRoom, resize_cases}
use mclua.LStr.{
  LStr, mclstr_size, objcap, mclstr_append_str0, mclstr_append_lstr, AppendResult, append_refused,
  append_overlaps, append_done, copy_lstr,
}

pub objcap_lem :
    (heap : McHeap) (i : ℕ) (b : HeapHeader)
    → get_elem? heap.headers i ≡ some b
    → objcap heap i ≡ b.objcap
unfolding objcap
objcap_lem heap i b at = rw (at, objcap) refl

abbrev pub HasChars : McHeap → LStr → Type 0
HasChars heap str = Holds heap str.hdr (mclstr_size + length str.chars)

-- The object has no room for the characters behind those of the string, nor has the arena for an
-- object that has.
abbrev pub Lacks : McHeap → LStr → List ℕ → Type 0
Lacks heap dst chars =
    (objcap heap dst.hdr < mclstr_size + length dst.chars + length chars)
    × NoRoom heap (mclstr_size + length dst.chars + length chars)

-- No room in the arena, or the characters behind those of the string, with room for all of them.
abbrev pub Behind : McHeap → LStr → List ℕ → Option (LStr × McHeap) → Type 0
Behind heap dst chars run =
    ((run ≡ none) × Lacks heap dst chars)
    ⊎ ((dst' : LStr) × (heap' : McHeap) × (run ≡ some (dst', heap'))
        × (dst'.hdr ≡ dst.hdr)
        × (dst'.chars ≡ dst.chars ++ chars)
        × IsValid heap'
        × HasChars heap' dst'
        × Grows heap heap')

module _ (heap : McHeap) (v : IsValid heap) (dst : LStr) (has : HasChars heap dst) where
  mclstr_append_str0-Behind :
      (chars : List ℕ)
      → mclstr_size + length dst.chars + length chars < 2 ^ 32
      → Behind heap dst chars (mclstr_append_str0 dst chars heap)
  unfolding mclstr_append_str0
  mclstr_append_str0-Behind chars small =
      let (b, at, le) = has in
      let size = mclstr_size + length dst.chars + length chars in
      let bytes : size % Heap.u32_mod ≡ size = mod-eq_of_lt small in
      let cap = objcap_lem heap dst.hdr b at in
      let len = length-append dst.chars chars in
      let dst' : LStr = record dst { chars = dst.chars ++ chars } in
      elim (Bool-cases (ltb b.objcap size)) [
        | inr fits ↦ inr (
          dst',
          heap,
          rw (mclstr_append_str0, cap, fits) refl,
          refl,
          refl,
          v,
          (b, at, ground (arith, len)),
          Grows-refl heap,
        )
        | inl full ↦ elim (resize_cases heap v dst.hdr size at small) [
          | inl (refused, larger, no_room) ↦
              inl
                (rw (mclstr_append_str0, bytes, cap, full, refused) refl, (rw cap larger, no_room))
          | inr (heap', resized, v', g, (b', at', le')) ↦ inr (
            dst',
            heap',
            rw (mclstr_append_str0, bytes, cap, full, resized) refl,
            refl,
            refl,
            v',
            (b', at', omega (arith, len)),
            g,
          )
        ]
      ]

  -- How an append of one string to another may end: refused for lack of room in the arena; as an
  -- overlap, of a string that is not empty and itself; or with its characters behind those of the
  -- other.
  pub data Appended (src : LStr) : AppendResult → Type 0 where
    lacking : Lacks heap dst src.chars → Appended src append_refused
    overlapping : dst.hdr ≡ src.hdr → 0 < length src.chars → Appended src append_overlaps
    copied :
        (dst' : LStr) (heap' : McHeap)
        → (dst.hdr ≢ src.hdr) ⊎ (src.chars ≡ [])
        → dst'.hdr ≡ dst.hdr
        → dst'.chars ≡ dst.chars ++ src.chars
        → IsValid heap'
        → HasChars heap' dst'
        → Grows heap heap'
        → Appended src (append_done dst' heap')

  -- A string is appended to another, whose object has room for its characters, in a valid arena and
  -- with less than 2 ^ 32 bytes together. It is refused only where neither that object nor the rest
  -- of the arena has room for both. It overlaps only where the two are one object, with characters.
  -- Else the two are different objects or the string is empty, its characters stand behind those of
  -- the other, whose object has room for all of them, and every object is at least as large as
  -- before.
  pub mclstr_append_lstr-Appended :
      (src : LStr)
      → mclstr_size + length dst.chars + length src.chars < 2 ^ 32
      → Appended src (mclstr_append_lstr dst src heap)
  unfolding mclstr_append_lstr copy_lstr
  mclstr_append_lstr-Appended src small = elim (mclstr_append_str0-Behind src.chars small) [
    | inl (refused, lack) ↦ rw refused (lacking lack)
    | inr (dst', heap', run, same, chars, v', has', g) ↦
        elim (Bool-cases (dst.hdr == src.hdr && ltb 0 (length src.chars))) [
          | inl one ↦ rw (run, one) (overlapping (ground (arith, one)) (ground (arith, one)))
          | inr two ↦ rw (run, two) (copied dst' heap' (apart src.chars two) same chars v' has' g)
        ]
  ]
    where
      apart :
          (chars : List ℕ)
          → (dst.hdr == src.hdr && ltb 0 (length chars)) ≡ false
          → (dst.hdr ≢ src.hdr) ⊎ (chars ≡ [])
      apart [] two = inr refl
      apart (c ∷ chars) two = inl (λ e. ground (arith, two, e))
