-- ===== src/Tests/Compiling.antt =====
-- Runs of the compiler.
use mclua.Prelude.{ℕ, ◌^◌, ◌<◌, ◌≡◌, refl, [], ◌∷◌, some, true, arith}
use mclua.Heap.Valid.{IsValid}
use mclua.Heap.{HeapHeader, ObjectType, McHeap, managed_reserve, set_type}
use mclua.Config.{mcvm_set_default_config}
use mclua.LFunc.{LFunc, empty_function, mclfunc_add_upval, array_ensure, array_cap, put_item}
use mclua.Compile.{
  Frame, McComp, fresh_frame, find_upval, add_upval, add_found, local_below, mccomp_resolve_local,
  mccomp_resolve_upval, mccomp_label, mccomp_goto, find_label,
}
use mclua.Compile.Gotos.{Went, mccomp_goto-Went}
use mclua.Compile.Jumps.{IsLinked, mccomp_label-IsLinked}

abbrev arena : McHeap
arena = record {
  bfr = λ a. 0;
  bfrcap = 256;
  managed_cap = 256;
  data_top = 0;
  head_bot = 256;
  headers = [];
  hdr_cnt = 0;
}

abbrev two_jumps : LFunc
two_jumps = record (empty_function 0) { code = 56 ∷ 56 ∷ [] }

-- A function with a local of the name 7 in register 2.
abbrev outer : Frame
outer = record (fresh_frame two_jumps) {
  locals = record { name = 7; reg = 2; attrib = 0 } ∷ [];
  nactive = 1;
  freereg = 3;
}

-- The inner function gets the upvalue of the one between, which gets the register of the outer one.
inner_captures :
    (mccomp_resolve_upval
      (fresh_frame two_jumps)
      (fresh_frame two_jumps ∷ outer ∷ [])
      7
      arena).1.func.upval_items
    ≡ record { name = 7; instack = 0; idx = 0 } ∷ []
unfolding mccomp_resolve_upval find_upval add_upval add_found mccomp_resolve_local local_below
    mclfunc_add_upval array_ensure array_cap put_item managed_reserve set_type
inner_captures = refl

-- A goto of the name 9 waits at the first word.
abbrev waiting : McComp
waiting = record {
  frame = record (fresh_frame two_jumps) { gotos = record { name = some 9; pc = some 0 } ∷ [] };
  parents = [];
  heap = arena;
  config = mcvm_set_default_config;
}

mccomp_label-IsLinked_example :
    ((mccomp_label waiting 9).0 ≡ true) × IsLinked 9 waiting (mccomp_label waiting 9).1
mccomp_label-IsLinked_example = mccomp_label-IsLinked waiting 9 (omega arith) (omega arith)

no_labels : (target : ℕ) → find_label [] 9 ≡ some target → target < 2 ^ 24
unfolding find_label
no_labels target e = cc

-- The function's object, which its two words of code fill.
abbrev object : HeapHeader
object = record { address = 0; objcap = 72; type = ObjectType.func }

abbrev held : McComp
held = record waiting {
  heap = record arena {
    managed_cap = 160;
    data_top = 72;
    head_bot = 232;
    headers = object ∷ [];
    hdr_cnt = 1;
  };
}

held-IsValid : IsValid held.heap
held-IsValid = omega arith

mccomp_goto-Went_example : Went 9 held (mccomp_goto held 9)
mccomp_goto-Went_example =
    mccomp_goto-Went held held-IsValid (object, refl, omega arith) (omega arith) 9 no_labels
