-- ===== src/Compile/Upvalues.antt =====
-- Which variable an upvalue is: `mccomp_resolve_upval` against the rule of scopes.
use mclua.Prelude.{ℕ, ◌+◌, ◌≡◌, ◌⊎◌, List, [], ◌∷◌, ◌++◌, none, some}
use mclua.Heap.{McHeap}
use mclua.LFunc.{LFunc, mclfunc_add_upval}
use mclua.Compile.{Frame, Upval, mccomp_resolve_local, mccomp_resolve_upval}
use mclua.Compile.Scopes.{
  Variable, variable, described, captured, Reaches, IsScoped, AllScoped, Extends, AllExtend,
}

-- The searches that give nothing although a function around has the name: the arena has no room
-- for an upvalue that is needed.
pub data Refused (name : ℕ) : Frame → List Frame → McHeap → Type 0 where
  refused_local :
      (f p : Frame) (ps : List Frame) (heap : McHeap) (reg : ℕ)
      → mccomp_resolve_local p name ≡ some reg
      → mclfunc_add_upval (record { fn = f.func; heap = heap }) name 1 reg ≡ none
      → Refused name f (p ∷ ps) heap
  refused_upvalue :
      (f p : Frame) (ps : List Frame) (heap heap' : McHeap) (up : ℕ) (p' : Frame) (ps' : List Frame)
      → mccomp_resolve_local p name ≡ none
      → mccomp_resolve_upval p ps name heap ≡ (some up, p', ps', heap')
      → mclfunc_add_upval (record { fn = f.func; heap = heap' }) name 0 up ≡ none
      → Refused name f (p ∷ ps) heap
  refused_outside :
      (f p : Frame) (ps : List Frame) (heap : McHeap)
      → mccomp_resolve_local p name ≡ none
      → Refused name p ps heap
      → Refused name f (p ∷ ps) heap

-- After a search: the functions are scoped, and extend those before it; an upvalue that it gives is
-- the variable of the name; and it gives one where there is a variable, unless it was refused.
pub record IsResolved (env name : ℕ) (f : Frame) (ps : List Frame) (heap : McHeap) (r : Upval)
    : Type 0 where
  pub scoped : AllScoped env r.1 r.2
  pub top : Extends f r.1
  pub others : AllExtend ps r.2
  pub found : (i : ℕ) → r.0 ≡ some i → Reaches r.1 r.2 i name
  pub absent : r.0 ≡ none → (variable ps name ≡ none) ⊎ Refused name f ps heap

module _ (env : ℕ) where
  -- A frame with an upvalue more, which is the variable of its name.
  module _ (f p p' : Frame) (ps ps' : List Frame) (name instack idx : ℕ) (v : Variable)
      (here : IsScoped env f (p ∷ ps)) (outer : AllScoped env p' ps')
      (on : AllExtend (p ∷ ps) (p' ∷ ps'))
      (held : described
          (some (record { name = name; instack = instack; idx = idx }))
          (captured p' ps')
        ≡ some v)
      (meant : variable (p' ∷ ps') name ≡ some v) (fn' : LFunc)
      (items : fn'.upval_items
        ≡ f.func.upval_items ++ record { name = name; instack = instack; idx = idx } ∷ [])
      (count : fn'.num_upvals ≡ f.func.num_upvals + 1) where
    abbrev f' : Frame
    f' = record f { func = fn' }
