-- ===== src/Heap/Growing.antt =====
-- What every operation keeps of the objects that are there: their headers, with no less room. Also
-- reservations and resizes as the other parts of the compiler make them.
use mclua.Prelude.{
  ℕ, ◌+◌, ap, zero, suc, ◌^◌, ◌≤◌, ◌<◌, ◌≡◌, ◌⊎◌, refl, inl, inr, List, [], ◌∷◌, ◌++◌, none, some,
  arith, All-set, All-get_elem?, length, length-set, get_elem?, set, get_elem?-set_self,
  get_elem?-set_ne, get_elem?-lt, ◌∙◌,
}
use native.Mathlib.Decide.{dec_lt, ℕ_discrete}
use mclua.Heap.{
  header_size, McHeap, HeapHeader, ObjectType, set_type, managed_reserve, managed_resize,
}
use mclua.Heap.Blocks.{Below, end, total-set, Separate-set_type}
use mclua.Heap.Valid.{IsValid}
use mclua.Heap.Reserve.{managed_reserve_lem}
use mclua.Heap.Resize.{managed_resize_lem, managed_resize_fits}

-- Every header of the first heap is in the second, with no less room.
pub record Grows (h h' : McHeap) : Type 0 where
  pub same_cap : h'.bfrcap ≡ h.bfrcap
  pub kept :
      (i : ℕ) (b : HeapHeader)
      → get_elem? h.headers i ≡ some b
      → (b' : HeapHeader) × (get_elem? h'.headers i ≡ some b') × (b.objcap ≤ b'.objcap)

pub Grows-refl : (h : McHeap) → Grows h h
Grows-refl h = record { same_cap = refl; kept = λ i b at. (b, at, omega arith) }

pub Grows-trans : {h h' h'' : McHeap} → Grows h h' → Grows h' h'' → Grows h h''
Grows-trans g g' = record {
  same_cap = g'.same_cap ∙ g.same_cap;
  kept = λ i b at.
      let (b', at', le) = g.kept i b at in
      let (b'', at'', le') = g'.kept i b' at' in (b'', at'', omega arith);
}

pub Grows-append :
    (h h' : McHeap) (b : HeapHeader)
    → h'.bfrcap ≡ h.bfrcap
    → h'.headers ≡ h.headers ++ b ∷ []
    → Grows h h'
Grows-append h h' b same e = record {
  same_cap = same;
  kept = λ i c at. (c, rw e (get_elem?-front h.headers i at), omega arith);
}
  where
    get_elem?-front :
        (bs : List HeapHeader) (i : ℕ) {c : HeapHeader}
        → get_elem? bs i ≡ some c
        → get_elem? (bs ++ b ∷ []) i ≡ some c
    get_elem?-front [] i at = cc
    get_elem?-front (d ∷ bs) zero at = at
    get_elem?-front (d ∷ bs) (suc i) at = get_elem?-front bs i at

pub get_elem?-last :
    (bs : List HeapHeader) (b : HeapHeader) → get_elem? (bs ++ b ∷ []) (length bs) ≡ some b
get_elem?-last [] b = refl
get_elem?-last (c ∷ bs) b = get_elem?-last bs b

pub set-last :
    (bs : List HeapHeader) (b c : HeapHeader) → set (bs ++ b ∷ []) (length bs) c ≡ bs ++ c ∷ []
set-last [] b c = refl
set-last (d ∷ bs) b c = ap (λ x. d ∷ x) (set-last bs b c)

unfoldable pub retyped : McHeap → ℕ → HeapHeader → ObjectType → McHeap
retyped h i b t = record h { headers = set h.headers i (record b { type = t }) }

pub retyped-IsValid :
    (h : McHeap) (i : ℕ) (t : ObjectType) {b : HeapHeader}
    → IsValid h
    → get_elem? h.headers i ≡ some b
    → IsValid (retyped h i b t)
unfolding retyped
retyped-IsValid h i t {b = b} v at =
    let b' : HeapHeader = record b { type = t } in
    record {
      small = v.small;
      gap = v.gap;
      back = omega (arith, v.back, length-set h.headers i b');
      count = omega (arith, v.count, length-set h.headers i b');
      below =
          All-set (Below h.data_top) h.headers i b' v.below
            (All-get_elem? (Below h.data_top) h.headers i v.below at);
      apart = Separate-set_type h.headers i t at v.apart;
      free = v.free;
      used = omega (arith, v.used, total-set h.headers i b' at);
    }

pub Grows-set :
    (h h' : McHeap) (i : ℕ) {b : HeapHeader} (b' : HeapHeader)
    → h'.bfrcap ≡ h.bfrcap
    → get_elem? h.headers i ≡ some b
    → b.objcap ≤ b'.objcap
    → h'.headers ≡ set h.headers i b'
    → Grows h h'
Grows-set h h' i {b = b} b' same at le e = record {
  same_cap = same;
  kept = λ j c atj. elim (ℕ_discrete i j) [
    | yes eq ↦
        let is_b : c ≡ b = cc in
        (
          b',
          rw (e, ← eq) (get_elem?-set_self h.headers i b' (get_elem?-lt h.headers i at)),
          rw is_b le,
        )
    | no ne ↦ (c, rw e (get_elem?-set_ne h.headers i j b' ne ∙ atj), omega arith)
  ];
}

-- The object `i` is in the arena, with room for `size` bytes.
abbrev pub Holds : McHeap → ℕ → ℕ → Type 0
Holds h i size = (b : HeapHeader) × (get_elem? h.headers i ≡ some b) × (size ≤ b.objcap)

pub Holds-grow : (h h' : McHeap) (i size : ℕ) → Grows h h' → Holds h i size → Holds h' i size
Holds-grow h h' i size g (b, at, le) = let (b', at', le') = g.kept i b at in (b', at', omega arith)

-- No object is larger than the buffer.
pub Holds-small : (h : McHeap) (i size : ℕ) → IsValid h → Holds h i size → size ≤ h.bfrcap
Holds-small h i size v (b, at, le) =
    let low : end b ≤ h.data_top = All-get_elem? (Below h.data_top) h.headers i v.below at in
    omega (arith, v.gap, v.back)

-- The bytes between the data and the headers are fewer than `size`.
abbrev pub NoRoom : McHeap → ℕ → Type 0
NoRoom h size = h.head_bot < h.data_top + size

module _ (h : McHeap) (v : IsValid h) where
  -- A reservation and the type that the caller writes: no room, or a new object.
  pub reserve_cases :
      (cap : ℕ) (t : ObjectType)
      → cap < 2 ^ 32
      → ((managed_reserve h cap ≡ none) × NoRoom h (cap + header_size))
        ⊎ ((h' : McHeap) × (i : ℕ) × (managed_reserve h cap ≡ some (i, h'))
            × IsValid (set_type h' i t)
            × Grows h (set_type h' i t)
            × Holds (set_type h' i t) i cap)
  unfolding set_type retyped
  reserve_cases cap t small = elim (managed_reserve_lem h v cap small) [
    | inl (full, refused) ↦ inl (refused, omega (arith, full))
    | inr (h', reserved, v', heads, same_bfr, top, same_cap) ↦
        let b : HeapHeader = record { address = h.data_top; objcap = cap; type = ObjectType.str } in
        let b' : HeapHeader = record b { type = t } in
        let i : ℕ = length h.headers in
        let at : get_elem? h'.headers i ≡ some b = rw heads (get_elem?-last h.headers b) in
        let typed : set_type h' i t ≡ retyped h' i b t = rw (at, set_type) refl in
        inr (
          h',
          i,
          reserved,
          rw typed (retyped-IsValid h' i t v' at),
          rw typed (
              Grows-append h (retyped h' i b t) b' same_cap
                (ap (λ hs. set hs i b') heads ∙ set-last h.headers b b')),
          rw typed
              (b', get_elem?-set_self h'.headers i b' (get_elem?-lt h'.headers i at), omega arith),
        )
  ]

  -- A resize: no room, or an object with the room that was asked for.
  pub resize_cases :
      (i newlen : ℕ) {b : HeapHeader}
      → get_elem? h.headers i ≡ some b
      → newlen < 2 ^ 32
      → ((managed_resize h i newlen ≡ none) × (b.objcap < newlen) × NoRoom h newlen)
        ⊎ ((h' : McHeap) × (managed_resize h i newlen ≡ some h')
            × IsValid h'
            × Grows h h'
            × Holds h' i newlen)
  resize_cases i newlen {b = b} at small = elim (dec_lt b.objcap newlen) [
    | no le ↦ inr (
      h,
      managed_resize_fits h v i newlen at (omega arith),
      v,
      Grows-refl h,
      (b, at, omega arith),
    )
    | yes gt ↦ elim (managed_resize_lem h v i newlen at small) [
      | inl (le, kept) ↦ absurd (omega arith)
      | inr (inl (full, refused)) ↦ inl (refused, gt, full)
      | inr (inr (h', moved, v', heads, same)) ↦
          let b' : HeapHeader = record b { address = h.data_top; objcap = newlen } in
          inr (
            h',
            moved,
            v',
            Grows-set h h' i b' same at (omega arith) heads,
            (
              b',
              rw heads (get_elem?-set_self h.headers i b' (get_elem?-lt h.headers i at)),
              omega arith,
            ),
          )
    ]
  ]
