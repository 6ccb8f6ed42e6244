-- ===== src/Parse/Safe/Steps.antt =====
-- The steps of the parser that make nodes and push children are safe.
use mclua.Prelude.{ℕ, ◌^◌, ◌<◌, ◌≡◌, refl, List, [], ◌∷◌, ◌++◌, Option, none, some, arith, All}
use mclua.Ast.{
  ParseNodeType, Node, Nodes, nil, cons, ast_children, set_val, mclast_alloc, mclast_push_child,
}
use mclua.Ast.Room.{Fits, AllFit, mclast_alloc-Fits}
use mclua.Heap.Growing.{Grows}
use mclua.Ast.Growth.{mclast_push_child-Fits, Fits-set_val, ast_children-AllFit}
use mclua.Heap.{McHeap}
use mclua.Heap.Valid.{IsValid}
use mclua.Parse.State.{
  ParseState, ok, null, pure, alloc, push, push_unchecked, drain, drain_children, leaf,
  alloc_function,
}
use mclua.Ast.{pn_funcdef, pn_name, pn_arglist}
use mclua.Parse.State.{alloc_maybe, all_three}
use mclua.Parse.Safe.{IsGood, Kept, Kept-refl, Post, Safe, Has, itself, bind, give_up-Safe}

-- What an allocation or a push leaves.
reached :
    (s : ParseState) (n : Node) {h' : McHeap}
    → IsGood s
    → IsValid h' × Grows s.heap h' × Fits h' n
    → Kept s (record s { heap = h' }) × (Fits h' n × Unit {0})
reached s n good (valid, grows, fits) = (
  record {
    good = record { valid = valid; small = rw grows.same_cap good.small; inside = good.inside };
    tokens = refl;
    grows = grows;
  },
  (fits, tt),
)

module _ {ns : List Node} where
  pub give : (n : Node) → Has ns n → Safe itself ns (pure n)
  give n has = record { run = λ s good fits. (Kept-refl s good, (has s.heap fits, tt)) }

  pub alloc-Safe : (type : ParseNodeType) (cap : ℕ) → cap < 2 ^ 16 → Safe itself ns (alloc type cap)
  unfolding alloc
  alloc-Safe type cap small = record {
    run = λ s good fits. by_room s good (mclast_alloc type cap s.heap) refl;
  }
    where
      by_room :
          (s : ParseState)
          → IsGood s
          → (o : Option (Node × McHeap)) → mclast_alloc type cap s.heap ≡ o
          → Post itself s
              (elim o [ none ↦ null s | some (n, heap') ↦ ok n (record s { heap = heap' }) ])
      by_room s good none e = Kept-refl s good
      by_room s good (some (n, heap')) e =
          reached s n good (mclast_alloc-Fits type cap s.heap good.valid small e)

  module _ (parent child : Node) (has_parent : Has ns parent) (has_child : Has ns child) where
    pub push-Safe : Safe itself ns (push parent child)
    unfolding push
    push-Safe = record {
      run = λ s good fits. by_room s good fits (mclast_push_child parent child s.heap) refl;
    }
      where
        by_room :
            (s : ParseState)
            → IsGood s
            → All (Fits s.heap) ns
            → (o : Option (Node × McHeap)) → mclast_push_child parent child s.heap ≡ o
            → Post itself s
                (elim o [ none ↦ null s | some (n, heap') ↦ ok n (record s { heap = heap' }) ])
        by_room s good fits none e = Kept-refl s good
        by_room s good fits (some (n, heap')) e = reached s n good (
            mclast_push_child-Fits parent child s.heap good.valid good.small
              (has_parent s.heap fits) (has_child s.heap fits) e)

    pub push_unchecked-Safe : Safe itself ns (push_unchecked parent child)
    unfolding push_unchecked
    push_unchecked-Safe = record {
      run = λ s good fits. by_room s good fits (mclast_push_child parent child s.heap) refl;
    }
      where
        by_room :
            (s : ParseState)
            → IsGood s
            → All (Fits s.heap) ns
            → (o : Option (Node × McHeap)) → mclast_push_child parent child s.heap ≡ o
            → Post itself s
                (elim o [ none ↦ ok parent s | some (n, heap') ↦ ok n (record s { heap = heap' }) ])
        by_room s good fits none e = (Kept-refl s good, (has_parent s.heap fits, tt))
        by_room s good fits (some (n, heap')) e = reached s n good (
            mclast_push_child-Fits parent child s.heap good.valid good.small
              (has_parent s.heap fits) (has_child s.heap fits) e)

pub drain-Safe :
    {ns : List Node} (dst : Node) (cs : Nodes)
    → Has ns dst
    → ((h : McHeap) → All (Fits h) ns → AllFit h cs)
    → Safe itself ns (drain dst cs)
unfolding drain Fits
drain-Safe dst nil has all = give dst has
drain-Safe dst (cons c cs) has all =
    bind (push-Safe dst c has (λ h f. (all h f).0))
      λ dst'. drain-Safe dst' cs (λ h f. f.0) (λ h f. (all h f.1).1)

pub drain_children-Safe :
    {ns : List Node} (dst src : Node)
    → Has ns dst
    → Has ns src
    → Safe itself ns (drain_children dst src)
unfolding drain_children
drain_children-Safe dst src has has_src =
    drain-Safe dst (ast_children src) has (λ h f. ast_children-AllFit h src (has_src h f))

pub leaf-Safe : {ns : List Node} (type : ParseNodeType) (w : ℕ) → Safe itself ns (leaf type w)
unfolding leaf
leaf-Safe type w =
    bind (alloc-Safe type 0 (omega arith)) λ n. give (set_val n w) (λ h f. Fits-set_val h n w f.0)

-- The three nodes of a function.
abbrev maybe : Option Node → List Node
maybe none = []
maybe (some n) = n ∷ []

abbrev pub three : Node × Node × Node → List Node
three (a, b, c) = a ∷ b ∷ c ∷ []

alloc_maybe-Safe :
    {ns : List Node} (type : ParseNodeType) (cap : ℕ)
    → cap < 2 ^ 16
    → Safe maybe ns (alloc_maybe type cap)
unfolding alloc_maybe
alloc_maybe-Safe type cap small = record {
  run = λ s good fits. by_room s good (mclast_alloc type cap s.heap) refl;
}
  where
    by_room :
        (s : ParseState)
        → IsGood s
        → (o : Option (Node × McHeap)) → mclast_alloc type cap s.heap ≡ o
        → Post maybe s (elim o [
          | none ↦ ok none s
          | some (n, heap') ↦ ok (some n) (record s { heap = heap' })
        ])
    by_room s good none e = (Kept-refl s good, tt)
    by_room s good (some (n, heap')) e =
        reached s n good (mclast_alloc-Fits type cap s.heap good.valid small e)

all_three-Safe :
    (ns : List Node) (a b c : Option Node)
    → Safe three (maybe c ++ (maybe b ++ (maybe a ++ ns))) (all_three a b c)
unfolding all_three
all_three-Safe ns none b c = give_up-Safe
all_three-Safe ns (some a) none c = give_up-Safe
all_three-Safe ns (some a) (some b) none = give_up-Safe
all_three-Safe ns (some a) (some b) (some c) = record {
  run = λ s good (fc, (fb, (fa, fits))). (Kept-refl s good, (fa, (fb, (fc, tt))));
}

pub alloc_function-Safe : {ns : List Node} → Safe three ns alloc_function
unfolding alloc_function
alloc_function-Safe = bind (alloc_maybe-Safe pn_funcdef 3 (omega arith)) λ a.
    bind (alloc_maybe-Safe pn_name 2 (omega arith))
      λ b. bind (alloc_maybe-Safe pn_arglist 4 (omega arith)) λ c. all_three-Safe _ a b c
