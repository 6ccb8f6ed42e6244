-- ===== src/Tests/Constants.antt =====
-- A function in an arena of 4096 bytes, and constants that are interned in it. The comparison of
-- floating-point numbers is that of their bits, save for one number that is not equal to itself.
use mclua.Prelude.{
  ℕ, ◌+◌, ◌*◌, ◌≡◌, ◌↔◌, refl, ◌⊎◌, List, [], ◌∷◌, Option, none, some, Bool, true, false, ◌&&◌,
  ◌==◌, arith, not,
}
use mclua.Probing
use mclua.Probing.{Run, done, spins, probe, free_slot}
use mclua.StringTable
use mclua.Heap
use mclua.Heap.{McHeap, ObjectType}
use mclua.Heap.Valid
use mclua.Heap.Valid.{init-IsValid}
use mclua.Heap.Growing.{NoRoom, Grows, Holds}
use mclua.LStr.{LStr, mclstr_cmp}
use mclua.LFunc.{
  Constant, k_int, k_flt, k_str, FuncState, LFunc, empty_function, mclfunc_alloc, mclfunc_const,
  mclfunc_append_instr, array_ensure, const_hash, const_hash_int,
}
use mclua.LFunc.Index.{IsFloatEq, like}
use mclua.LFunc.Valid.{IsValid}
use mclua.LFunc.Contract.{Lacks, Interned, mclfunc_const-Interned, mclfunc_alloc-IsValid, like_iff}
use mclua.LFunc.Arrays.{
  ArrayFull, CodeFull, HasCode, array_ensure-Ensured, mclfunc_append_instr-HasCode,
}

abbrev nan : ℕ
nan = 0x7ff8000000000000

unfoldable float_eq : ℕ → ℕ → Bool
float_eq v w = not (v == nan) && v == w

float_eq-IsFloatEq : IsFloatEq float_eq
unfolding float_eq
float_eq-IsFloatEq = record { symm = λ v w h. ground arith; trans = λ u v w h k. ground arith }

abbrev arena : McHeap
arena = Heap.init 4096

abbrev fresh : FuncState
fresh = record {
  fn = empty_function 0;
  heap = record arena {
    managed_cap = 4008;
    data_top = 64;
    head_bot = 4072;
    headers = record { address = 0; objcap = 64; type = ObjectType.func } ∷ [];
    hdr_cnt = 1;
  };
}

fresh_made : mclfunc_alloc 0 arena ≡ some (fresh.fn, fresh.heap)
unfolding mclfunc_alloc Heap.managed_reserve Heap.init Heap.set_type
fresh_made = refl

fresh-IsValid : IsValid float_eq fresh
unfolding Heap.init
fresh-IsValid = record {
  heap = omega arith;
  small = omega arith;
  distinct = λ k l d d' at at' alike. cc;
  index = refl;
  array = refl;
}

abbrev name : ℕ → LStr
name hdr = record { hdr = hdr; chars = b'i' ∷ b'd' ∷ [] }

-- The numbers that interning one constant after the other gives.
numbers : FuncState → List Constant → Run (List (Option ℕ))
numbers s [] = done []
numbers s (c ∷ cs) =
    Probing.bind (mclfunc_const float_eq s c)
      λ first. Probing.bind (numbers first.1 cs) λ rest. done (first.0 ∷ rest)

-- A string of another object with the same characters is the same constant.
numbers_run :
    numbers fresh (k_int 7 ∷ k_str (name 5) ∷ k_flt 7 ∷ k_int 7 ∷ k_str (name 9) ∷ [])
    ≡ done (some 0 ∷ some 1 ∷ some 2 ∷ some 0 ∷ some 1 ∷ [])
unfolding numbers mclfunc_const mclua.LFunc.const_index_ensure Heap.managed_reserve probe const_hash
    const_hash_int mclua.LFunc.mclfunc_push_const array_ensure Heap.set_type
    mclua.LFunc.const_index_insert_raw free_slot StringTable.hash StringTable.hash_from
    mclua.LStr.objcap mclstr_cmp float_eq Heap.init Heap.managed_resize Heap.copy Heap.resize_header
    mclua.LFunc.add_const mclua.LFunc.array_cap mclua.LFunc.const_index_check
    mclua.LFunc.const_index_grow mclua.LFunc.const_index_make mclua.LFunc.find_const
    mclua.LFunc.grow_to mclua.LFunc.is_entry_of mclua.LFunc.reinsert mclua.LFunc.same_constant
    mclua.LStr.cmp_len mclua.LStr.memcmp
numbers_run = refl

mclfunc_const-Interned_example :
    Interned float_eq []
      (k_str (name 5))
      (Lacks float_eq fresh (k_str (name 5)))
      (mclfunc_const float_eq fresh (k_str (name 5)))
mclfunc_const-Interned_example =
    mclfunc_const-Interned float_eq float_eq-IsFloatEq (k_str (name 5)) fresh fresh-IsValid

mclfunc_alloc-IsValid_example :
    ((mclfunc_alloc 10 arena ≡ none) × NoRoom arena (64 + 10 * 4 + Heap.header_size))
    ⊎ ((fn : LFunc) × (heap' : McHeap) × (mclfunc_alloc 10 arena ≡ some (fn, heap'))
        × IsValid float_eq (record { fn = fn; heap = heap' })
        × Holds heap' fn.hdr (64 + 10 * 4)
        × (fn.code ≡ [])
        × (fn.consts ≡ []))
unfolding Heap.init
mclfunc_alloc-IsValid_example =
    mclfunc_alloc-IsValid float_eq 10 arena (init-IsValid 4096 (omega arith)) (omega arith)
      (omega arith)

abbrev three : ℕ
three = 3

abbrev four : ℕ
four = 4

like_iff_example :
    ((like float_eq (k_int three) (k_int four) ≡ true) ↔ (three ≡ four))
    × ((like float_eq (k_str (name 1)) (k_str (name 2)) ≡ true) ↔ ((name 1).chars ≡ (name 2).chars))
    × (like float_eq (k_int three) (k_flt four) ≡ false)
    × (like float_eq (k_int three) (k_str (name 2)) ≡ false)
like_iff_example = like_iff float_eq three four (name 1) (name 2)

array_ensure-Ensured_example :
    ((array_ensure none 0 16 4 fresh.heap ≡ none) × ArrayFull fresh.heap 0 16 4 none)
    ⊎ ((hdr : ℕ) × (heap' : McHeap) × (array_ensure none 0 16 4 fresh.heap ≡ some (hdr, heap'))
        × Heap.Valid.IsValid heap'
        × Grows fresh.heap heap'
        × Holds heap' hdr ((0 + 1) * 16))
array_ensure-Ensured_example =
    array_ensure-Ensured fresh.heap fresh-IsValid.heap 0 16 4 (omega arith) none (omega arith)
      (omega arith) refl

mclfunc_append_instr-HasCode_example :
    ((mclfunc_append_instr fresh 9 ≡ none) × CodeFull fresh)
    ⊎ ((s' : FuncState) × (mclfunc_append_instr fresh 9 ≡ some s')
        × (s'.fn ≡ record fresh.fn { code = 9 ∷ [] })
        × Heap.Valid.IsValid s'.heap
        × HasCode s'
        × Grows fresh.heap s'.heap)
mclfunc_append_instr-HasCode_example =
    mclfunc_append_instr-HasCode fresh 9 fresh-IsValid.heap
      (record { address = 0; objcap = 64; type = ObjectType.func }, refl, omega arith) (omega arith)
