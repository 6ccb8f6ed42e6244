-- ===== src/Ast/Growth.antt =====
-- Pushing a child keeps the room that the tree has in the arena.
use mclua.Prelude.{
  ℕ, sym, subst, ◌+◌, ◌*◌, ◌-◌, ◌/◌, ◌%◌, ◌^◌, ◌≤◌, ◌<◌, ◌≡◌, refl, inl, inr, none, some, arith,
  All-get_elem?, get_elem?, get_elem?-set_self, get_elem?-lt,
}
use mclua.Heap.{McHeap, HeapHeader, managed_resize}
use mclua.Heap.Blocks.{Below, end}
use mclua.Heap.Valid.{IsValid}
use mclua.Heap.Resize.{managed_resize_lem}
use mclua.Ast.{
  ParseNodeType, Node, Nodes, node, nil, cons, count, snoc, set_val, ast_children, node_size,
  pointer_size, mclast_push_child, ast_child_cap, grown_cap,
}
use native.Mathlib.Decide.{dec_lt}
use mclua.Heap.Growing.{Grows, Grows-refl, Grows-set}
use mclua.Ast.Room.{Fits, AllFit, Fits-grow, AllFit-grow}

-- Where there is no room for one more child, pushing asks for more.
module _ (t : ParseNodeType) (v i : ℕ) (cs : Nodes) (child : Node) (h : McHeap) {b : HeapHeader}
    (at : get_elem? h.headers i ≡ some b) where
  abbrev room : ℕ
  room = (b.objcap - node_size) / pointer_size

  abbrev asked : ℕ
  asked = (node_size + grown_cap room * pointer_size) % 2 ^ 32

  ast_child_cap_lem : ast_child_cap h (node t v i cs) ≡ room
  unfolding ast_child_cap
  ast_child_cap_lem = rw (at, ast_child_cap)

  push-has_room :
      count cs < room
      → mclast_push_child (node t v i cs) child h ≡ some (node t v i (snoc cs child), h)
  unfolding mclast_push_child
  push-has_room lt = rw (ast_child_cap_lem, mclast_push_child) (ground arith)

  push-grows :
      {h' : McHeap}
      → room ≤ count cs
      → managed_resize h i asked ≡ some h'
      → mclast_push_child (node t v i cs) child h ≡ some (node t v i (snoc cs child), h')
  unfolding mclast_push_child
  push-grows le run = rw (ast_child_cap_lem, run, mclast_push_child) (ground arith)

  push-stuck :
      room ≤ count cs
      → managed_resize h i asked ≡ none
      → mclast_push_child (node t v i cs) child h ≡ none
  unfolding mclast_push_child
  push-stuck le run = rw (ast_child_cap_lem, run, mclast_push_child) (ground arith)

-- What is asked for is within 32 bits, and has room for one child more.
asked-room :
    (c n : ℕ)
    → c < 2 ^ 31
    → (c - node_size) / pointer_size ≤ n
    → node_size + n * pointer_size ≤ c
    → let k : ℕ =
        (node_size + grown_cap ((c - node_size) / pointer_size) * pointer_size) % 2 ^ 32 in
      (k < 2 ^ 32) × (c ≤ k) × (node_size + (n + 1) * pointer_size ≤ k)
unfolding grown_cap
asked-room c n small le fit = ground arith

count-snoc : (cs : Nodes) (n : Node) → count (snoc cs n) ≡ count cs + 1
count-snoc nil n = refl
count-snoc (cons c cs) n = omega (arith, count-snoc cs n)

AllFit-snoc : (h : McHeap) (cs : Nodes) (n : Node) → AllFit h cs → Fits h n → AllFit h (snoc cs n)
unfolding Fits
AllFit-snoc h nil n fits fit = (fit, tt)
AllFit-snoc h (cons c cs) n (f, fits) fit = (f, AllFit-snoc h cs n fits fit)

module _ (t : ParseNodeType) (v i : ℕ) (cs : Nodes) (child : Node) (h : McHeap) (valid : IsValid h)
    (small : h.bfrcap < 2 ^ 31) where
  pushed-Fits :
      {b : HeapHeader} {r : Node × McHeap}
      → get_elem? h.headers i ≡ some b
      → node_size + count cs * pointer_size ≤ b.objcap
      → AllFit h cs
      → Fits h child
      → mclast_push_child (node t v i cs) child h ≡ some r
      → IsValid r.1 × Grows h r.1 × Fits r.1 r.0
  unfolding Fits
  pushed-Fits {b = b} {r = r} at fit fits fit_child run =
      let low : end b ≤ h.data_top = All-get_elem? (Below h.data_top) h.headers i valid.below at in
      let space : ℕ = (b.objcap - node_size) / pointer_size in
      elim (dec_lt (count cs) space) [
        | yes lt ↦
            let made : r ≡ (node t v i (snoc cs child), h) =
              cc (push-has_room t v i cs child h at lt) in
            subst (λ x. IsValid x.1 × Grows h x.1 × Fits x.1 x.0) (sym made)
              (
                valid,
                Grows-refl h,
                (
                  (b, at, omega (arith, count-snoc cs child)),
                  AllFit-snoc h cs child fits fit_child,
                ),
              )
        | no ge ↦
            let (fits_u32, more, big) =
              asked-room b.objcap (count cs) (omega arith) (omega arith) fit in
            let k : ℕ = asked t v i cs child h at in
            elim (managed_resize_lem h valid i k at fits_u32) [
              | inl (le, kept) ↦
                  let made : r ≡ (node t v i (snoc cs child), h) =
                    cc (push-grows t v i cs child h at (omega arith) kept) in
                  subst (λ x. IsValid x.1 × Grows h x.1 × Fits x.1 x.0) (sym made)
                    (
                      valid,
                      Grows-refl h,
                      (
                        (b, at, omega (arith, count-snoc cs child)),
                        AllFit-snoc h cs child fits fit_child,
                      ),
                    )
              | inr (inl (full, refused)) ↦
                  cc (push-stuck t v i cs child h at (omega arith) refused)
              | inr (inr (h', moved, valid', heads, same)) ↦
                  let b' : HeapHeader = record b { address = h.data_top; objcap = k } in
                  let g : Grows h h' = Grows-set h h' i b' same at more heads in
                  let made : r ≡ (node t v i (snoc cs child), h') =
                    cc (push-grows t v i cs child h at (omega arith) moved) in
                  subst (λ x. IsValid x.1 × Grows h x.1 × Fits x.1 x.0) (sym made)
                    (
                      valid',
                      g,
                      (
                        (
                          b',
                          rw heads
                              (get_elem?-set_self h.headers i b' (get_elem?-lt h.headers i at)),
                          omega (arith, count-snoc cs child),
                        ),
                        AllFit-snoc h' cs child (AllFit-grow h h' g cs fits)
                            (Fits-grow h h' g child fit_child),
                      ),
                    )
            ]
      ]

-- A push of a child onto a parent, both with room for their children in a valid arena of less
-- than 2 ^ 31 bytes, that gives 0 keeps the arena valid and every header with no less room, and
-- leaves the parent with room for the child that it gained.
pub mclast_push_child-Fits :
    (parent child : Node) (h : McHeap) {r : Node × McHeap}
    → IsValid h
    → h.bfrcap < 2 ^ 31
    → Fits h parent
    → Fits h child
    → mclast_push_child parent child h ≡ some r
    → IsValid r.1 × Grows h r.1 × Fits r.1 r.0
unfolding Fits
mclast_push_child-Fits (node t v i cs) child h valid small ((b, at, fit), fits) fit_child run =
    pushed-Fits t v i cs child h valid small at fit fits fit_child run

pub Fits-set_val : (h : McHeap) (n : Node) (w : ℕ) → Fits h n → Fits h (set_val n w)
unfolding Fits
Fits-set_val h (node t v i cs) w fits = fits

pub ast_children-AllFit : (h : McHeap) (n : Node) → Fits h n → AllFit h (ast_children n)
unfolding Fits
ast_children-AllFit h (node t v i cs) (b, fits) = fits
