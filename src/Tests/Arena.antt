-- ===== src/Tests/Arena.antt =====
-- An arena of 1000 bytes with two objects: the first has 8 bytes, the second 16.
use mclua.Prelude.{
  ℕ, ◌+◌, ◌<◌, ◌≤◌, ◌≡◌, refl, ◌⊎◌, [], ◌∷◌, ◌++◌, some, none, arith, get_elem?, set, length,
}
use mclua.Heap.Valid.{IsValid, init-IsValid}
use mclua.Heap.Reserve.{managed_reserve_lem, static_reserve_lem, static_reserve_overlap}
use mclua.Heap.Resize.{managed_resize_lem, read-managed_resize, read-managed_resize_other}
use mclua.Heap.{
  McHeap, HeapHeader, ObjectType, header_size, init, static_reserve, managed_reserve,
  managed_resize, read, copy,
}

abbrev block : ℕ → ℕ → HeapHeader
block address objcap = record { address = address; objcap = objcap; type = ObjectType.str }

abbrev arena : McHeap
arena = record {
  bfr = λ a. a + 1;
  bfrcap = 1000;
  managed_cap = 928;
  data_top = 24;
  head_bot = 952;
  headers = block 0 8 ∷ block 8 16 ∷ [];
  hdr_cnt = 2;
}

arena-IsValid : IsValid arena
arena-IsValid = omega arith

-- A reservation that fits, and one that does not.
reserve_runs :
    managed_reserve arena 5
    ≡ some (
      2,
      record arena {
        data_top = 29;
        head_bot = 928;
        managed_cap = 899;
        headers = block 0 8 ∷ block 8 16 ∷ block 24 5 ∷ [];
        hdr_cnt = 3;
      },
    )
unfolding managed_reserve
reserve_runs = refl

reserve_full : managed_reserve arena 905 ≡ none
unfolding managed_reserve
reserve_full = refl

fresh-IsValid : IsValid (init 1000)
fresh-IsValid = init-IsValid 1000 (omega arith)

managed_reserve_lem_example :
    (arena.head_bot < arena.data_top + 5 + header_size) × (managed_reserve arena 5 ≡ none)
    ⊎ ((h' : McHeap) × (managed_reserve arena 5 ≡ some (length arena.headers, h'))
        × IsValid h'
        × (h'.headers ≡ arena.headers ++ block 24 5 ∷ [])
        × (h'.bfr ≡ arena.bfr)
        × (h'.data_top ≡ arena.data_top + 5)
        × (h'.bfrcap ≡ arena.bfrcap))
managed_reserve_lem_example = managed_reserve_lem arena arena-IsValid 5 (omega arith)

static_reserve_lem_example :
    (h' : McHeap) × (static_reserve arena 100 ≡ some (24, h'))
    × IsValid h'
    × (h'.data_top ≡ 24 + 100)
    × (h'.headers ≡ arena.headers)
    × (h'.bfr ≡ arena.bfr)
static_reserve_lem_example = static_reserve_lem arena arena-IsValid 100 (omega arith)

static_reserve_overlap_example :
    (h' : McHeap) × (static_reserve arena 940 ≡ some (24, h'))
    × (h'.head_bot < h'.data_top)
    × ¬ IsValid h'
static_reserve_overlap_example =
    static_reserve_overlap arena arena-IsValid 940 (omega arith) (omega arith)

managed_resize_lem_example :
    (32 ≤ 8) × (managed_resize arena 0 32 ≡ some arena)
    ⊎ ((arena.head_bot < arena.data_top + 32) × (managed_resize arena 0 32 ≡ none))
    ⊎ ((h' : McHeap) × (managed_resize arena 0 32 ≡ some h')
        × IsValid h'
        × (h'.headers ≡ set arena.headers 0 (block 24 32))
        × (h'.bfrcap ≡ arena.bfrcap))
managed_resize_lem_example = managed_resize_lem arena arena-IsValid 0 32 refl (omega arith)

-- The first object after it grew to 32 bytes.
abbrev resized : McHeap
resized = record arena {
  bfr = copy arena.bfr 24 0 8;
  data_top = 56;
  managed_cap = 904;
  headers = block 24 32 ∷ block 8 16 ∷ [];
}

resize_runs : managed_resize arena 0 32 ≡ some resized
unfolding managed_resize
resize_runs = refl

read-managed_resize_example : read resized (block 24 32) 3 ≡ read arena (block 0 8) 3
read-managed_resize_example =
    read-managed_resize arena arena-IsValid 0 32 refl (omega arith) resize_runs (block 24 32) 3 refl
      (omega arith)

read-managed_resize_other_example :
    (get_elem? resized.headers 1 ≡ some (block 8 16))
    × (read resized (block 8 16) 5 ≡ read arena (block 8 16) 5)
read-managed_resize_other_example =
    read-managed_resize_other arena arena-IsValid 0 32 refl (omega arith) resize_runs 1 (block 8 16)
      5 (omega arith) refl (omega arith)
