-- ===== src/Heap.antt =====
-- src/heap/mcheap.c and src/heap/mcheap.h: the arena from which every object of the compiler comes.
-- The buffer grows from the front (data) and from the back (headers), with nothing ever freed.
-- A `HeapHeader*` is the header's number in order of reservation: header i stands at the offset
-- bfrcap - 24 * (i + 1) of the buffer. A data pointer is an offset into the buffer. NULL heaps and
-- headers are no values of the model; where the code would return NULL or -1 for lack of room the
-- functions return `none`, and the heap is then the one that was passed in.
pub mod Blocks
pub mod Valid
pub mod Reserve
pub mod Resize
pub mod Growing
use mclua.Prelude.{
  ℕ, ◌+◌, ◌-◌, ◌*◌, ◌%◌, ◌^◌, List, [], ◌∷◌, ◌++◌, Option, none, some, ltb, leb, ◌&&◌,
  if◌then◌else◌, get_elem?, set,
}

pub data ObjectType : Type 0 where
  str tbl usr func ast : ObjectType

pub record HeapHeader : Type 0 where
  pub address : ℕ
  pub objcap : ℕ
  pub type : ObjectType

pub record McHeap : Type 0 where
  pub bfr : ℕ → ℕ
  pub bfrcap : ℕ
  pub managed_cap : ℕ
  pub data_top : ℕ
  pub head_bot : ℕ
  pub headers : List HeapHeader
  pub hdr_cnt : ℕ

-- sizeof(HeapHeader) where pointers have 8 bytes.
abbrev pub header_size : ℕ
header_size = 24

abbrev pub u64_mod : ℕ
u64_mod = 2 ^ 64

abbrev pub u32_mod : ℕ
u32_mod = 2 ^ 32

abbrev pub add_u64 : ℕ → ℕ → ℕ
add_u64 a b = (a + b) % u64_mod

abbrev pub sub_u64 : ℕ → ℕ → ℕ
sub_u64 a b = (a + u64_mod - b % u64_mod) % u64_mod

-- `mcheap_init`, where calloc succeeds: a zeroed buffer.
unfoldable pub init : ℕ → McHeap
init cap = record {
  bfr = λ _. 0;
  bfrcap = cap;
  managed_cap = cap;
  data_top = 0;
  head_bot = cap;
  headers = [];
  hdr_cnt = 0;
}

-- `mcheap_static_reserve`
unfoldable pub static_reserve : McHeap → ℕ → Option (ℕ × McHeap)
static_reserve heap len =
    if ltb heap.bfrcap (add_u64 heap.data_top len)
    then none
    else some (
      heap.data_top,
      record heap {
        data_top = add_u64 heap.data_top len;
        managed_cap = sub_u64 heap.managed_cap len;
      },
    )

-- `mcheap_managed_reserve`
unfoldable pub managed_reserve : McHeap → ℕ → Option (ℕ × McHeap)
managed_reserve heap cap =
    if ltb heap.head_bot (add_u64 (add_u64 heap.data_top cap) header_size)
    then none
    else some (
      heap.hdr_cnt,
      record heap {
        data_top = add_u64 heap.data_top cap;
        head_bot = sub_u64 heap.head_bot header_size;
        managed_cap = sub_u64 heap.managed_cap (cap + header_size);
        headers =
            heap.headers
            ++ record { address = heap.data_top; objcap = cap; type = ObjectType.str } ∷ [];
        hdr_cnt = (heap.hdr_cnt + 1) % u32_mod;
      },
    )

-- `memcpy(bfr + to, bfr + from, len)`
unfoldable pub copy : (ℕ → ℕ) → ℕ → ℕ → ℕ → ℕ → ℕ
copy bfr to from len a = if leb to a && ltb a (to + len) then bfr (from + (a - to)) else bfr a

-- The part of `mcheap_managed_resize` after the header is read.
unfoldable pub resize_header : McHeap → ℕ → HeapHeader → ℕ → Option McHeap
unfolding copy
resize_header heap hdr h newlen =
    if leb newlen h.objcap
    then some heap
    else if ltb heap.head_bot (add_u64 heap.data_top newlen)
    then none
    else some (record heap {
      bfr = copy heap.bfr heap.data_top h.address h.objcap;
      data_top = add_u64 heap.data_top newlen;
      managed_cap = sub_u64 heap.managed_cap (newlen - h.objcap);
      headers = set heap.headers hdr (record h { address = heap.data_top; objcap = newlen });
    })

-- `mcheap_managed_resize`
unfoldable pub managed_resize : McHeap → ℕ → ℕ → Option McHeap
unfolding resize_header
managed_resize heap hdr newlen = elim (get_elem? heap.headers hdr) [
  | none ↦ none
  | some h ↦ resize_header heap hdr h newlen
]

-- `hdr->object.data[i]`
unfoldable pub read : McHeap → HeapHeader → ℕ → ℕ
read heap h i = heap.bfr (h.address + i)

-- `hdr->type = type`
unfoldable pub set_type : McHeap → ℕ → ObjectType → McHeap
set_type heap hdr type = elim (get_elem? heap.headers hdr) [
  | none ↦ heap
  | some h ↦ record heap { headers = set heap.headers hdr (record h { type = type }) }
]
