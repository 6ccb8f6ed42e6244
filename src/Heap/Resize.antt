-- ===== src/Heap/Resize.antt =====
-- What `mcheap_managed_resize` keeps of the invariant, and of the contents of the objects.
use mclua.Prelude.{
  ℕ, ◌+◌, ◌-◌, ◌^◌, ◌≤◌, ◌<◌, ◌≡◌, refl, ◌≢◌, ◌⊎◌, inl, inr, some, none, arith, set, get_elem?,
  All-set, All-get_elem?, length-set, get_elem?-set_self, get_elem?-set_ne, get_elem?-lt, subst,
  ◌∙◌,
}
use native.Mathlib.Decide.{dec_lt}
use mclua.Heap.Blocks.{end, total, Below, total-set, Separate-set}
use mclua.Heap.{McHeap, HeapHeader, managed_resize, read, copy}
use mclua.Heap.Valid.{IsValid, Below-mono, objcap-le-total}

-- The heap after an object moved.
after_resize : McHeap → ℕ → HeapHeader → ℕ → McHeap
after_resize h i b newlen = record h {
  bfr = copy h.bfr h.data_top b.address b.objcap;
  data_top = h.data_top + newlen;
  managed_cap = h.managed_cap - (newlen - b.objcap);
  headers = set h.headers i (record b { address = h.data_top; objcap = newlen });
}

module _ (h : McHeap) (v : IsValid h) where
  module _ (i newlen : ℕ) {b : HeapHeader} (at : get_elem? h.headers i ≡ some b) where
    block_below : end b ≤ h.data_top
    block_below = All-get_elem? (Below h.data_top) h.headers i v.below at

    block_counted : b.objcap ≤ total h.headers
    block_counted = objcap-le-total h.headers i at

    pub managed_resize_fits : newlen ≤ b.objcap → managed_resize h i newlen ≡ some h
    unfolding managed_resize
    managed_resize_fits le = rw (at, managed_resize) (ground arith)

    managed_resize_full :
        b.objcap < newlen
        → newlen < 2 ^ 32
        → h.head_bot < h.data_top + newlen
        → managed_resize h i newlen ≡ none
    unfolding managed_resize
    managed_resize_full gt small full = rw (at, managed_resize) (ground arith)

    managed_resize_room :
        b.objcap < newlen
        → h.data_top + newlen ≤ h.head_bot
        → managed_resize h i newlen ≡ some (after_resize h i b newlen)
    unfolding managed_resize after_resize
    managed_resize_room gt room = rw (at, managed_resize) (ground arith)

    after_resize-IsValid :
        b.objcap < newlen → h.data_top + newlen ≤ h.head_bot → IsValid (after_resize h i b newlen)
    unfolding after_resize
    after_resize-IsValid gt room =
        let b' : HeapHeader = record b { address = h.data_top; objcap = newlen } in
        record {
          small = v.small;
          gap = omega arith;
          back = omega (arith, length-set h.headers i b');
          count = omega (arith, length-set h.headers i b');
          below =
              All-set (Below (h.data_top + newlen)) h.headers i b'
                (Below-mono h.data_top (h.data_top + newlen) h.headers (omega arith) v.below)
                (omega arith);
          apart = Separate-set h.headers i b' v.apart v.below;
          free = omega arith;
          used = omega (arith, total-set h.headers i b' at, block_counted);
        }

    -- Resizing an object of a valid heap changes nothing where it is large enough, gives -1 where the new block
    -- does not fit below the headers, and else moves it to a block of the new size at the end of
    -- the data and keeps the invariant and the capacity of the buffer.
    pub managed_resize_lem :
        newlen < 2 ^ 32
        → (newlen ≤ b.objcap) × (managed_resize h i newlen ≡ some h)
          ⊎ ((h.head_bot < h.data_top + newlen) × (managed_resize h i newlen ≡ none))
          ⊎ ((h' : McHeap) × (managed_resize h i newlen ≡ some h')
              × IsValid h'
              × (h'.headers ≡ set h.headers i (record b { address = h.data_top; objcap = newlen }))
              × (h'.bfrcap ≡ h.bfrcap))
    unfolding after_resize
    managed_resize_lem small = elim (dec_lt b.objcap newlen) [
      | no le ↦ inl (omega arith, managed_resize_fits (omega arith))
      | yes gt ↦ elim (dec_lt h.head_bot (h.data_top + newlen)) [
        | yes full ↦ inr (inl (full, managed_resize_full gt small full))
        | no room ↦
            let fits : h.data_top + newlen ≤ h.head_bot = omega arith in
            inr (
              inr (
                after_resize h i b newlen,
                managed_resize_room gt fits,
                after_resize-IsValid gt fits,
                refl,
                refl,
              ))
      ]
    ]

    -- The two ways in which a resize gives 0.
    managed_resize_cases :
        {h' : McHeap}
        → newlen < 2 ^ 32
        → managed_resize h i newlen ≡ some h'
        → (h' ≡ h) ⊎ ((b.objcap < newlen) × (h' ≡ after_resize h i b newlen))
    managed_resize_cases small run = elim (dec_lt b.objcap newlen) [
      | no le ↦ inl (cc (managed_resize_fits (omega arith)))
      | yes gt ↦ elim (dec_lt h.head_bot (h.data_top + newlen)) [
        | yes full ↦ cc (managed_resize_full gt small full)
        | no room ↦ inr (gt, cc (managed_resize_room gt (omega arith)))
      ]
    ]

    read_moved :
        (k : ℕ)
        → k < b.objcap
        → read (after_resize h i b newlen) (record b { address = h.data_top; objcap = newlen }) k
          ≡ read h b k
    unfolding read copy after_resize
    read_moved k lt = ground arith

    read_kept :
        (c : HeapHeader) (k : ℕ)
        → end c ≤ h.data_top
        → k < c.objcap
        → read (after_resize h i b newlen) c k ≡ read h c k
    unfolding read copy after_resize
    read_kept c k low lt = ground arith

    header_moved :
        {b' : HeapHeader}
        → get_elem? (after_resize h i b newlen).headers i ≡ some b'
        → record b { address = h.data_top; objcap = newlen } ≡ b'
    unfolding after_resize
    header_moved at' = cc (
        get_elem?-set_self h.headers i (record b { address = h.data_top; objcap = newlen })
          (get_elem?-lt h.headers i at))

    module _ {h' : McHeap} (small : newlen < 2 ^ 32)
        (run : managed_resize h i newlen ≡ some h') where
      -- After a resize in a valid heap that gives 0 the object still holds the bytes that it held.
      pub read-managed_resize :
          (b' : HeapHeader) (k : ℕ)
          → get_elem? h'.headers i ≡ some b'
          → k < b.objcap
          → read h' b' k ≡ read h b k
      read-managed_resize b' k at' lt = elim (managed_resize_cases small run) [
        | inl same ↦
            let at₂ : get_elem? h.headers i ≡ some b' =
              subst (λ x. get_elem? x.headers i ≡ some b') same at' in
            let eq : b' ≡ b = cc in rw (same, eq)
        | inr (gt, moved) ↦
            let at₂ = subst (λ x. get_elem? x.headers i ≡ some b') moved at' in
            rw (moved, ← header_moved at₂) (read_moved k lt)
      ]

      -- After a resize in a valid heap that gives 0 every other object has its header and its bytes.
      pub read-managed_resize_other :
          (j : ℕ) (c : HeapHeader) (k : ℕ)
          → i ≢ j
          → get_elem? h.headers j ≡ some c
          → k < c.objcap
          → (get_elem? h'.headers j ≡ some c) × (read h' c k ≡ read h c k)
      unfolding after_resize
      read-managed_resize_other j c k ne atj lt = elim (managed_resize_cases small run) [
        | inl same ↦ rw same (atj, refl)
        | inr (gt, moved) ↦
            let low = All-get_elem? (Below h.data_top) h.headers j v.below atj in
            rw moved (get_elem?-set_ne h.headers i j _ ne ∙ atj, read_kept c k low lt)
      ]
