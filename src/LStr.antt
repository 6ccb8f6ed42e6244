-- ===== src/LStr.antt =====
-- src/lib/mclstr.c and src/lib/mclstr.h: strings. The object's number of its header in the arena and
-- its characters stand for the object; `len` is the length of the characters. C's memcmp, toupper
-- and tolower (in the C locale) are written out.
pub mod Order
pub mod Room
use mclua.Prelude.{
  ℕ, zero, suc, ◌+◌, ◌-◌, ◌*◌, ◌%◌, List, [], ◌∷◌, ◌++◌, map, Option, none, some, Bool, true, false,
  ◌&&◌, ltb, leb, ◌==◌, if◌then◌else◌, length, get_or, get_elem?, set, take, drop,
}
use mclua.Prelude.Int.{ℤ, pos, negsuc}
use mclua.Heap
use mclua.Heap.{McHeap}

pub record LStr : Type 0 where
  pub hdr : ℕ
  pub chars : List ℕ

-- sizeof(mclstr)
abbrev pub mclstr_size : ℕ
mclstr_size = 4

-- `mclstr_alloc`
unfoldable pub mclstr_alloc : ℕ → McHeap → Option (LStr × McHeap)
mclstr_alloc cap heap = elim (Heap.managed_reserve heap ((mclstr_size + cap) % Heap.u32_mod)) [
  | none ↦ none
  | some (hdr, heap') ↦
      some (record { hdr = hdr; chars = [] }, Heap.set_type heap' hdr Heap.ObjectType.str)
]

-- The capacity of an object; a header that is not in the arena has none.
unfoldable pub objcap : McHeap → ℕ → ℕ
objcap heap hdr = elim (get_elem? heap.headers hdr) [ none ↦ 0 | some h ↦ h.objcap ]

unfoldable pub mclstr_append_str0 : LStr → List ℕ → McHeap → Option (LStr × McHeap)
mclstr_append_str0 dst str0 heap =
    let size = (mclstr_size + length dst.chars + length str0) % Heap.u32_mod in
    let grown = Heap.managed_resize heap dst.hdr size in
    let appended = record dst { chars = dst.chars ++ str0 } in
    if ltb (objcap heap dst.hdr) (mclstr_size + length dst.chars + length str0)
    then elim grown [ none ↦ none | some heap' ↦ some (appended, heap') ]
    else some (appended, heap)

-- How `mclstr_append_lstr` ends. Where both strings are one object, `len` is doubled before the
-- copy, which then overlaps itself and writes past the room that was made: C promises nothing.
pub data AppendResult : Type 0 where
  append_refused append_overlaps : AppendResult
  append_done : LStr → McHeap → AppendResult

-- `mclstr_append_lstr` behind the test for room.
unfoldable pub copy_lstr : LStr → LStr → Option (LStr × McHeap) → AppendResult
copy_lstr dst src none = append_refused
copy_lstr dst src (some (dst', heap')) =
    if dst.hdr == src.hdr && ltb 0 (length src.chars)
    then append_overlaps
    else append_done dst' heap'

unfoldable pub mclstr_append_lstr : LStr → LStr → McHeap → AppendResult
unfolding mclstr_append_str0 copy_lstr
mclstr_append_lstr dst src heap = copy_lstr dst src (mclstr_append_str0 dst src.chars heap)

-- `mclstr_byte`
unfoldable pub mclstr_byte : LStr → ℕ → ℕ
mclstr_byte str idx = if leb (length str.chars) idx then 0 else get_or str.chars idx 0

-- `memcmp`: the sign of the first difference within `n` bytes.
unfoldable pub memcmp : ℕ → List ℕ → List ℕ → ℤ
memcmp zero as_ bs = pos 0
memcmp (suc n) [] bs = pos 0
memcmp (suc n) (a ∷ as_) [] = pos 0
memcmp (suc n) (a ∷ as_) (b ∷ bs) =
    if ltb a b then negsuc 0 else if ltb b a then pos 1 else memcmp n as_ bs

-- `mclstr_cmp` after memcmp.
unfoldable pub cmp_len : ℤ → ℕ → ℕ → ℤ
cmp_len (negsuc n) l m = negsuc 0
cmp_len (pos (suc n)) l m = pos 1
cmp_len (pos zero) l m = if ltb l m then negsuc 0 else if ltb m l then pos 1 else pos 0

unfoldable pub mclstr_cmp : List ℕ → List ℕ → ℤ
unfolding memcmp cmp_len
mclstr_cmp str1 str2 =
    let minlen = if ltb (length str1) (length str2) then length str1 else length str2 in
    cmp_len (memcmp minlen str1 str2) (length str1) (length str2)

unfoldable pub toupper : ℕ → ℕ
toupper c = if leb b'a' c && leb c b'z' then c - 32 else c

unfoldable pub tolower : ℕ → ℕ
tolower c = if leb b'A' c && leb c b'Z' then c + 32 else c

unfoldable pub mclstr_upper : LStr → LStr
unfolding toupper
mclstr_upper str = record str { chars = map toupper str.chars }

unfoldable pub mclstr_lower : LStr → LStr
unfolding tolower
mclstr_lower str = record str { chars = map tolower str.chars }

-- The loop of `mclstr_reverse`, which swaps from both ends while `low < high`. A round brings the
-- ends closer by two, so as many rounds as characters are enough.
unfoldable pub reverse_loop : ℕ → List ℕ → ℕ → ℕ → List ℕ
reverse_loop zero chars low high = chars
reverse_loop (suc n) chars low high =
    let swapped = set (set chars low (get_or chars high 0)) high (get_or chars low 0) in
    let rest = reverse_loop n swapped (low + 1) (high - 1) in if ltb low high then rest else chars

unfoldable pub mclstr_reverse : LStr → LStr
unfolding reverse_loop
mclstr_reverse str =
    if length str.chars == 0
    then str
    else record str { chars = reverse_loop (length str.chars) str.chars 0 (length str.chars - 1) }

-- `mclstr_clear`
unfoldable pub mclstr_clear : LStr → LStr
mclstr_clear str = record str { chars = [] }

-- `mclstr_sub`
unfoldable pub mclstr_sub : ℕ → ℕ → LStr → McHeap → Option (LStr × McHeap)
unfolding mclstr_alloc
mclstr_sub start end_ str heap =
    let made = mclstr_alloc (end_ - start) heap in
    if ltb end_ start then none else if ltb (length str.chars) end_ then none else elim made [
      | none ↦ none
      | some (result, heap') ↦
          some (record result { chars = take (end_ - start) (drop start str.chars) }, heap')
    ]

-- The loop of `mclstr_rep`, which copies the characters `n` times one after the other.
unfoldable pub rep_chars : ℕ → List ℕ → List ℕ
rep_chars zero chars = []
rep_chars (suc n) chars = chars ++ rep_chars n chars

-- `mclstr_rep`, where the length of the result is below 2 ^ 32.
unfoldable pub mclstr_rep : ℕ → LStr → McHeap → Option (LStr × McHeap)
unfolding rep_chars mclstr_alloc
mclstr_rep n str heap =
    let made = mclstr_alloc (length str.chars * n % Heap.u32_mod) heap in
    if n == 0 then none else if length str.chars == 0 then none else elim made [
      | none ↦ none
      | some (result, heap') ↦ some (record result { chars = rep_chars n str.chars }, heap')
    ]
