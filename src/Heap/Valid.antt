-- ===== src/Heap/Valid.antt =====
-- The arena's invariant.
use mclua.Prelude.{
  ℕ, zero, suc, ◌+◌, ◌*◌, ◌^◌, ◌≤◌, ◌<◌, ◌≡◌, refl, List, [], ◌∷◌, some, arith, get_elem?, All,
  All-map, length,
}
use mclua.Heap.Blocks.{Separate, total, Below}
use mclua.Heap.{McHeap, HeapHeader, init, header_size}

-- Data and headers do not meet, the headers fill the back of the buffer, every object ends below
-- `data_top`, no two objects overlap, and `managed_cap` counts no less than the free gap and no
-- more than the gap and the bytes that resizing left behind.
pub record IsValid (h : McHeap) : Type 0 where
  pub small : h.bfrcap < 2 ^ 32
  pub gap : h.data_top ≤ h.head_bot
  pub back : h.head_bot + header_size * length h.headers ≡ h.bfrcap
  pub count : h.hdr_cnt ≡ length h.headers
  pub below : All (Below h.data_top) h.headers
  pub apart : Separate h.headers
  pub free : h.head_bot ≤ h.managed_cap + h.data_top
  pub used : h.managed_cap + total h.headers ≤ h.head_bot

pub init-IsValid : (cap : ℕ) → cap < 2 ^ 32 → IsValid (init cap)
unfolding init
init-IsValid cap h = record {
  small = h;
  gap = omega arith;
  back = omega arith;
  count = refl;
  below = tt;
  apart = tt;
  free = omega arith;
  used = omega arith;
}

pub Below-mono : (a b : ℕ) (hs : List HeapHeader) → a ≤ b → All (Below a) hs → All (Below b) hs
Below-mono a b hs h all = All-map (Below a) (Below b) hs (λ c p. omega arith) all

pub objcap-le-total :
    (hs : List HeapHeader) (i : ℕ) {b : HeapHeader} → get_elem? hs i ≡ some b → b.objcap ≤ total hs
objcap-le-total [] i e = ground arith
objcap-le-total (c ∷ hs) zero e = ground arith
objcap-le-total (c ∷ hs) (suc i) e = omega (arith, objcap-le-total hs i e)
