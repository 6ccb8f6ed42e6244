-- ===== src/Heap/Reserve.antt =====
-- What `mcheap_static_reserve` and `mcheap_managed_reserve` keep of the invariant.
use mclua.Prelude.{
  ℕ, ◌+◌, ◌-◌, ◌^◌, ◌≤◌, ◌<◌, ◌≡◌, refl, ◌⊎◌, inl, inr, ◌++◌, [], ◌∷◌, some, none, arith,
  All-append, length, length-append,
}
use native.Mathlib.Decide.{dec_lt}
use mclua.Heap.Blocks.{Below, total-append, Separate-append}
use mclua.Heap.{sub_u64, McHeap, ObjectType, static_reserve, managed_reserve, header_size}
use mclua.Heap.Valid.{IsValid, Below-mono}

-- The heaps after the two operations, where there is room for them.
after_static : McHeap → ℕ → McHeap
after_static h len = record h { data_top = h.data_top + len; managed_cap = h.managed_cap - len }

after_reserve : McHeap → ℕ → McHeap
after_reserve h cap = record h {
  data_top = h.data_top + cap;
  head_bot = h.head_bot - header_size;
  managed_cap = h.managed_cap - (cap + header_size);
  headers = h.headers ++ record { address = h.data_top; objcap = cap; type = ObjectType.str } ∷ [];
  hdr_cnt = h.hdr_cnt + 1;
}

module _ (h : McHeap) (v : IsValid h) where
  static_reserve_room :
      (len : ℕ)
      → h.data_top + len ≤ h.head_bot
      → static_reserve h len ≡ some (h.data_top, after_static h len)
  unfolding static_reserve after_static
  static_reserve_room len room = ground arith

  managed_reserve_room :
      (cap : ℕ)
      → h.data_top + cap + header_size ≤ h.head_bot
      → managed_reserve h cap ≡ some (h.hdr_cnt, after_reserve h cap)
  unfolding managed_reserve after_reserve
  managed_reserve_room cap room = ground arith

  pub managed_reserve_full :
      (cap : ℕ)
      → cap < 2 ^ 32
      → h.head_bot < h.data_top + cap + header_size
      → managed_reserve h cap ≡ none
  unfolding managed_reserve
  managed_reserve_full cap small full = ground arith

  after_static-IsValid : (len : ℕ) → h.data_top + len ≤ h.head_bot → IsValid (after_static h len)
  unfolding after_static
  after_static-IsValid len room = record {
    small = v.small;
    gap = omega arith;
    back = v.back;
    count = v.count;
    below = Below-mono h.data_top (h.data_top + len) h.headers (omega arith) v.below;
    apart = v.apart;
    free = omega arith;
    used = omega arith;
  }

  after_reserve-IsValid :
      (cap : ℕ) → h.data_top + cap + header_size ≤ h.head_bot → IsValid (after_reserve h cap)
  unfolding after_reserve
  after_reserve-IsValid cap room = record {
    small = v.small;
    gap = omega arith;
    back = omega (
      arith,
      length-append h.headers
          (record { address = h.data_top; objcap = cap; type = ObjectType.str } ∷ []),
    );
    count = omega (
      arith,
      length-append h.headers
          (record { address = h.data_top; objcap = cap; type = ObjectType.str } ∷ []),
    );
    below =
        All-append (Below (h.data_top + cap)) h.headers _
          (Below-mono h.data_top (h.data_top + cap) h.headers (omega arith) v.below)
          (omega arith, tt);
    apart = Separate-append h.headers _ v.apart v.below;
    free = omega arith;
    used = omega (
      arith,
      total-append h.headers (record { address = h.data_top; objcap = cap; type = ObjectType.str }),
    );
  }

  -- A reservation in a valid heap either has no room and gives NULL, or hands out a new object at the end of the
  -- data, with a header of its own, and keeps the invariant, all old headers,
  -- all bytes and the capacity of the buffer.
  pub managed_reserve_lem :
      (cap : ℕ)
      → cap < 2 ^ 32
      → (h.head_bot < h.data_top + cap + header_size) × (managed_reserve h cap ≡ none)
        ⊎ ((h' : McHeap) × (managed_reserve h cap ≡ some (length h.headers, h'))
            × IsValid h'
            × (h'.headers
                ≡ h.headers
                  ++ record { address = h.data_top; objcap = cap; type = ObjectType.str } ∷ [])
            × (h'.bfr ≡ h.bfr)
            × (h'.data_top ≡ h.data_top + cap)
            × (h'.bfrcap ≡ h.bfrcap))
  unfolding after_reserve
  managed_reserve_lem cap small = elim (dec_lt h.head_bot (h.data_top + cap + header_size)) [
    | yes full ↦ inl (full, managed_reserve_full cap small full)
    | no room ↦
        let fits : h.data_top + cap + header_size ≤ h.head_bot = omega arith in
        inr (
          after_reserve h cap,
          rw (← v.count) (managed_reserve_room cap fits),
          after_reserve-IsValid cap fits,
          refl,
          refl,
          refl,
          refl,
        )
  ]

  -- A static reservation that ends below the headers of a valid heap succeeds, hands out the bytes between the old
  -- and the new `data_top` and keeps the invariant.
  pub static_reserve_lem :
      (len : ℕ)
      → h.data_top + len ≤ h.head_bot
      → (h' : McHeap) × (static_reserve h len ≡ some (h.data_top, h'))
        × IsValid h'
        × (h'.data_top ≡ h.data_top + len)
        × (h'.headers ≡ h.headers)
        × (h'.bfr ≡ h.bfr)
  unfolding after_static
  static_reserve_lem len room = (
    after_static h len,
    static_reserve_room len room,
    after_static-IsValid len room,
    refl,
    refl,
    refl,
  )

  -- A static reservation in a valid heap that runs into the headers, but not past the end of the buffer, is
  -- granted too, and then the data overlap the headers: the code compares with `bfrcap` where
  -- `managed_reserve` compares with `head_bot`.
  pub static_reserve_overlap :
      (len : ℕ)
      → h.head_bot < h.data_top + len
      → h.data_top + len ≤ h.bfrcap
      → (h' : McHeap) × (static_reserve h len ≡ some (h.data_top, h'))
        × (h'.head_bot < h'.data_top)
        × ¬ IsValid h'
  unfolding static_reserve
  static_reserve_overlap len over fits = (
    record h { data_top = h.data_top + len; managed_cap = sub_u64 h.managed_cap len },
    ground arith,
    over,
    λ w. omega (arith, w.gap),
  )
