-- ===== src/Ast/Room.antt =====
-- The room that a syntax tree has in the arena.
use mclua.Prelude.{
  ℕ, ap, sym, subst, ◌+◌, ◌*◌, ◌^◌, ◌≤◌, ◌<◌, ◌≡◌, refl, inl, inr, some, arith, length, get_elem?,
  set, get_elem?-set_self, get_elem?-lt, ◌∙◌,
}
use mclua.Heap.{McHeap, HeapHeader, ObjectType, set_type, managed_reserve}
use mclua.Heap.Valid.{IsValid}
use mclua.Heap.Reserve.{managed_reserve_lem}
use mclua.Heap.Growing.{Grows, Grows-append, get_elem?-last, set-last, retyped, retyped-IsValid}
use mclua.Ast.{
  ParseNodeType, Node, Nodes, node, nil, cons, count, node_size, pointer_size, mclast_alloc,
}

unfoldable mutual
  -- Every node of the tree is an object of the arena that has room for all its children.
  pub Fits : McHeap → Node → Type 0
  Fits h (node t v i cs) =
      ((b : HeapHeader) × (get_elem? h.headers i ≡ some b)
        × (node_size + count cs * pointer_size ≤ b.objcap))
      × AllFit h cs

  pub AllFit : McHeap → Nodes → Type 0
  AllFit h nil = Unit
  AllFit h (cons c cs) = Fits h c × AllFit h cs

mutual
  unfolding Fits

  pub Fits-grow : (h h' : McHeap) → Grows h h' → (n : Node) → Fits h n → Fits h' n
  Fits-grow h h' g (node t v i cs) ((b, at, room), fits) =
      let (b', at', le) = g.kept i b at in ((b', at', omega arith), AllFit-grow h h' g cs fits)

  pub AllFit-grow : (h h' : McHeap) → Grows h h' → (cs : Nodes) → AllFit h cs → AllFit h' cs
  AllFit-grow h h' g nil fits = tt
  AllFit-grow h h' g (cons c cs) (f, fits) = (Fits-grow h h' g c f, AllFit-grow h h' g cs fits)

mclast_alloc-room :
    (type : ParseNodeType) (cap : ℕ) (h : McHeap) {i : ℕ} {h' : McHeap} {b : HeapHeader}
    → managed_reserve h (node_size + cap * pointer_size) ≡ some (i, h')
    → get_elem? h'.headers i ≡ some b
    → mclast_alloc type cap h ≡ some (node type 0 i nil, retyped h' i b ObjectType.ast)
unfolding mclast_alloc set_type retyped
mclast_alloc-room type cap h run at = rw (run, mclast_alloc) (rw (at, set_type) refl)

-- A new node fits, in a valid arena that holds what it held.
pub mclast_alloc-Fits :
    (type : ParseNodeType) (cap : ℕ) (h : McHeap) {r : Node × McHeap}
    → IsValid h
    → cap < 2 ^ 16
    → mclast_alloc type cap h ≡ some r
    → IsValid r.1 × Grows h r.1 × Fits r.1 r.0
unfolding mclast_alloc set_type Fits retyped
mclast_alloc-Fits type cap h {r = r} v small run =
    elim (managed_reserve_lem h v (node_size + cap * pointer_size) (omega arith)) [
      | inl (full, none_left) ↦ cc (rw (none_left, mclast_alloc) at run)
      | inr (h', some_left, v', heads, same_bfr, top, same_cap) ↦
          let b : HeapHeader = record {
            address = h.data_top;
            objcap = node_size + cap * pointer_size;
            type = ObjectType.str;
          } in
          let at : get_elem? h'.headers (length h.headers) ≡ some b =
            rw heads (get_elem?-last h.headers b) in
          let made : r ≡ (
            node type 0 (length h.headers) nil,
            retyped h' (length h.headers) b ObjectType.ast,
          ) =
            cc (mclast_alloc-room type cap h some_left at) in
          subst (λ x. IsValid x.1 × Grows h x.1 × Fits x.1 x.0) (sym made)
            (
              retyped-IsValid h' (length h.headers) ObjectType.ast v' at,
              Grows-append h (retyped h' (length h.headers) b ObjectType.ast)
                  (record b { type = ObjectType.ast }) same_cap
                  (ap (λ hs. set hs (length h.headers) (record b { type = ObjectType.ast })) heads
                    ∙ set-last h.headers b (record b { type = ObjectType.ast })),
              (
                (
                  record b { type = ObjectType.ast },
                  get_elem?-set_self h'.headers (length h.headers)
                      (record b { type = ObjectType.ast })
                      (get_elem?-lt h'.headers (length h.headers) at),
                  omega arith,
                ),
                tt,
              ),
            )
    ]
