-- ===== src/Tests/Children.antt =====
-- An arena of 1000 bytes with two nodes that have no room for children.
use mclua.Prelude.{ℕ, ◌≡◌, refl, [], ◌∷◌, some, arith}
use mclua.Ast.{pn_block, pn_break, Node, node, nil, cons, mclast_push_child, ast_child_cap}
use mclua.Ast.Room.{Fits}
use mclua.Heap.Growing.{Grows}
use mclua.Ast.Growth.{mclast_push_child-Fits}
use mclua.Heap.{McHeap, HeapHeader, ObjectType, copy, managed_resize}
use mclua.Heap.Valid.{IsValid}

abbrev header : ℕ → ℕ → HeapHeader
header address objcap = record { address = address; objcap = objcap; type = ObjectType.ast }

abbrev two_nodes : McHeap
two_nodes = record {
  bfr = λ a. 0;
  bfrcap = 1000;
  managed_cap = 904;
  data_top = 48;
  head_bot = 952;
  headers = header 0 24 ∷ header 24 24 ∷ [];
  hdr_cnt = 2;
}

two_nodes-IsValid : IsValid two_nodes
two_nodes-IsValid = omega arith

abbrev parent : Node
parent = node pn_block 0 0 nil

abbrev child : Node
child = node pn_break 0 1 nil

parent-Fits : Fits two_nodes parent
unfolding Fits
parent-Fits = ((header 0 24, refl, omega arith), tt)

child-Fits : Fits two_nodes child
unfolding Fits
child-Fits = ((header 24 24, refl, omega arith), tt)

-- The parent moved to a block with four places.
abbrev grown : McHeap
grown = record two_nodes {
  bfr = copy two_nodes.bfr 48 0 24;
  managed_cap = 872;
  data_top = 104;
  headers = header 48 56 ∷ header 24 24 ∷ [];
}

push_runs :
    mclast_push_child parent child two_nodes ≡ some (node pn_block 0 0 (cons child nil), grown)
unfolding mclast_push_child ast_child_cap managed_resize
push_runs = refl

mclast_push_child-Fits_example :
    IsValid grown × Grows two_nodes grown × Fits grown (node pn_block 0 0 (cons child nil))
mclast_push_child-Fits_example =
    mclast_push_child-Fits parent child two_nodes two_nodes-IsValid (omega arith) parent-Fits
      child-Fits push_runs
