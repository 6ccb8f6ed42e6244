-- ===== src/LFunc/Contract.antt =====
-- The contract of `mclfunc_const_int`, `mclfunc_const_flt` and `mclfunc_const_str`: the constants
-- are a list without two alike, in which a constant is found or put behind.
use mclua.Prelude.{
  ℕ, ◌+◌, ◌*◌, ◌%◌, ◌^◌, ◌<◌, ◌≡◌, ◌↔◌, refl, ◌∙◌, ◌⊎◌, inl, inr, List, [], ◌∷◌, ◌++◌, Option, none,
  some, Bool, true, false, arith, length,
}
use mclua.Probing.{Run, done}
use native.Mathlib.Nat.{mod-eq_of_lt}
use mclua.Heap
use mclua.Heap.{McHeap, ObjectType, set_type}
use mclua.Heap.Growing.{NoRoom, Holds, reserve_cases}
use mclua.LStr.{LStr}
use mclua.LFunc.{
  constant_size, const_index_ensure, Constant, k_int, k_flt, k_str, FuncState, LFunc, mclfunc_size,
  empty_function, mclfunc_alloc, const_hash, same_constant, find_const, mclfunc_const,
}
use mclua.LFunc.Arrays.{ArrayFull}
use mclua.LFunc.Index.{like, same_constant-str, IsFloatEq}
use mclua.LFunc.Valid.{IsValid, IsIndex, IndexFull, const_index_ensure-Ready, Ready-IsValid}
use mclua.LFunc.Search.{find_index, probe-Searched}
use mclua.LFunc.Adding.{add_const-Added}

-- What a constant's number and the constants after it are meant to be: the place of the first one
-- that is alike, or else the constant goes behind.
unfoldable pub intern_const : (ℕ → ℕ → Bool) → Constant → List Constant → ℕ × List Constant
intern_const float_eq c consts = elim (find_index (like float_eq c) consts) [
  | none ↦ (length consts, consts ++ c ∷ [])
  | some k ↦ (k, consts)
]

-- A run ends in a valid state, without a number and with the same constants, for the reason given,
-- or with what was meant.
abbrev pub Interned :
    (ℕ → ℕ → Bool) → List Constant → Constant → Type 0 → Run (Option ℕ × FuncState) → Type 0
Interned float_eq consts c reason run =
    (r : Option ℕ) × (s' : FuncState) × (run ≡ done (r, s'))
    × IsValid float_eq s'
    × (((r ≡ none) × (s'.fn.consts ≡ consts) × reason)
        ⊎ ((k : ℕ) × (r ≡ some k) × ((k, s'.fn.consts) ≡ intern_const float_eq c consts)))

-- No constant is alike, and the arena has no room for one more.
abbrev pub ConstsFull : (ℕ → ℕ → Bool) → FuncState → Constant → Type 0
ConstsFull float_eq t c =
    (find_index (like float_eq c) t.fn.consts ≡ none)
    × ArrayFull t.heap (length t.fn.consts) constant_size 4 t.fn.constants

-- The arena has no room for the index, or, after the index, for one more constant.
abbrev pub Lacks : (ℕ → ℕ → Bool) → FuncState → Constant → Type 0
Lacks float_eq s c =
    IndexFull s s.fn.const_index
    ⊎ ((t : FuncState) × (const_index_ensure s ≡ done (some t)) × ConstsFull float_eq t c)

module _ (float_eq : ℕ → ℕ → Bool) (law : IsFloatEq float_eq) (c : Constant) where
  find_const-Interned :
      (t : FuncState) (v : IsValid float_eq t) (hdr : ℕ)
      → t.fn.const_index ≡ some hdr
      → IsIndex float_eq t.fn.consts t.fn.entries hdr t.heap
      → (length t.fn.consts + 1) * 10 < length t.fn.entries * 7
      → Interned float_eq t.fn.consts c (ConstsFull float_eq t c) (find_const float_eq t c)
  unfolding find_const intern_const
  find_const-Interned t v hdr has index load =
      elim (probe-Searched float_eq law t.fn.consts t.fn.entries hdr t.heap v.distinct index
        (omega (arith, index.count, load)) c) [
          | inl (e, run, place) ↦ (
            some e.idx,
            t,
            rw (find_const, run) refl,
            v,
            inr (e.idx, refl, rw (intern_const, place) refl),
          )
          | inr (run, absent, fresh) ↦
              elim (add_const-Added float_eq law t v hdr has index load c fresh) [
                | inl (refused, full) ↦
                    (none, t, rw (find_const, run) refused, v, inl (refl, refl, (absent, full)))
                | inr (t', added, v', behind) ↦ (
                  some (length t.fn.consts),
                  t',
                  rw (find_const, run) added,
                  v',
                  inr (length t.fn.consts, refl, rw (intern_const, absent, behind) refl),
                )
              ]
        ]

  -- Interning a constant in a valid function ends, and leaves it valid. It gives no number and
  -- leaves the constants as they are only where the arena has no room for the index, or where no
  -- constant is alike and it has none, after the index, for one more. Else the number and the constants
  -- after it are those of the search from the front, with the constant put behind if none is alike.
  -- The comparison of floating-point numbers is assumed symmetric and transitive.
  pub mclfunc_const-Interned :
      (s : FuncState)
      → IsValid float_eq s
      → Interned float_eq s.fn.consts c (Lacks float_eq s c) (mclfunc_const float_eq s c)
  unfolding mclfunc_const
  mclfunc_const-Interned s v = elim (const_index_ensure-Ready float_eq s v) [
    | inl (refused, full) ↦
        (none, s, rw (mclfunc_const, refused) refl, v, inl (refl, refl, inl full))
    | inr (t, ready, r) ↦
        let (res, s', run, v', result) =
          find_const-Interned t (Ready-IsValid float_eq s t v r) r.hdr r.has_index r.index r.load in
        (
          res,
          s',
          rw (mclfunc_const, ready) run,
          v',
          elim result [
            | inl (nothing, same, full) ↦ inl (nothing, same ∙ r.same_consts, inr (t, ready, full))
            | inr meant ↦ inr (rw⁻¹ r.same_consts meant)
          ],
        )
  ]

-- Two integers are alike exactly where they are equal, two strings exactly where their characters
-- are, and an integer is never like a floating-point number or a string.
pub like_iff :
    (float_eq : ℕ → ℕ → Bool) (v w : ℕ) (a b : LStr)
    → ((like float_eq (k_int v) (k_int w) ≡ true) ↔ (v ≡ w))
      × ((like float_eq (k_str a) (k_str b) ≡ true) ↔ (a.chars ≡ b.chars))
      × (like float_eq (k_int v) (k_flt w) ≡ false)
      × (like float_eq (k_int v) (k_str b) ≡ false)
unfolding same_constant const_hash
like_iff float_eq v w a b = (
  (
    λ h. ground arith,
    λ e. let hashes : const_hash (k_int w) ≡ const_hash (k_int v) = rw e refl in ground arith,
  ),
  (
    λ h. (same_constant-str float_eq a b).0 (ground arith),
    λ e.
        let same = (same_constant-str float_eq a b).1 e in
        let hashes : const_hash (k_str b) ≡ const_hash (k_str a) = rw e refl in
        ground (arith, same, hashes),
  ),
  ground arith,
  ground arith,
)

-- In a valid arena of less than 2 ^ 31 bytes, an allocation of a function with room for code, of less
-- than 2 ^ 32 bytes together, gives nothing where the arena has no room for that and a header, or a
-- valid function without code and constants, whose object has room for the function and the code.
pub mclfunc_alloc-IsValid :
    (float_eq : ℕ → ℕ → Bool) (bodycap : ℕ) (heap : McHeap)
    → Heap.Valid.IsValid heap
    → heap.bfrcap < 2 ^ 31
    → mclfunc_size + bodycap * 4 < 2 ^ 32
    → ((mclfunc_alloc bodycap heap ≡ none)
        × NoRoom heap (mclfunc_size + bodycap * 4 + Heap.header_size))
      ⊎ ((fn : LFunc) × (heap' : McHeap) × (mclfunc_alloc bodycap heap ≡ some (fn, heap'))
          × IsValid float_eq (record { fn = fn; heap = heap' })
          × Holds heap' fn.hdr (mclfunc_size + bodycap * 4)
          × (fn.code ≡ [])
          × (fn.consts ≡ []))
unfolding mclfunc_alloc
mclfunc_alloc-IsValid float_eq bodycap heap v small fits =
    let cap = mclfunc_size + bodycap * 4 in
    let bytes : cap % Heap.u32_mod ≡ cap = mod-eq_of_lt fits in
    elim (reserve_cases heap v cap ObjectType.func fits) [
      | inl (refused, full) ↦ inl (rw (mclfunc_alloc, bytes, refused) refl, full)
      | inr (h', i, reserved, v', g, held) ↦ inr (
        empty_function i,
        set_type h' i ObjectType.func,
        rw (mclfunc_alloc, bytes, reserved) refl,
        record {
          heap = v';
          small = rw g.same_cap small;
          distinct = λ k l d d' at at' alike. cc;
          index = refl;
          array = refl;
        },
        held,
        refl,
        refl,
      )
    ]
